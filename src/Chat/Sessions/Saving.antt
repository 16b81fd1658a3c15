-- ===== src/Chat/Sessions/Saving.antt =====
-- The methods of internal/chat/store.go that load a transcript, change it and save it, on the view.
use mnemosyne_os.Base.{
  ℕ, String, ◌≡◌, refl, sym, ap, ◌∙◌, inl, inr, Option-cases, Option, none, some, List, [], ◌∷◌,
  ◌++◌, arith, if◌then◌else◌, decided, str_dec,
}
use mnemosyne_os.Base.Disk
use mnemosyne_os.Base.Disk.Laws.{read-write}
use mnemosyne_os.Base.Result.{Result, ok}
use mnemosyne_os.Chat.{
  Message, Transcript, Document, blank, damaged, whole, history, archive, folder_dec, Store, Error,
}
use mnemosyne_os.Chat.Sessions.{
  fresh, load_locked, load_found, decode, save_locked, put_in, append, appended, upsert, upserted,
  replace_message, ensure_session, rename_session, history_exists, new_session, given_title,
}
use mnemosyne_os.Chat.Sessions.View.{
  contents, view, IsOwn, IsSound, append_call, upsert_call, rename_call, is_some, ensure_call,
  specified, at, or_empty, Agrees,
}

module _ {Num : Type 0} where
  -- The transcript that a method works on.
  abbrev pub loaded : String → Option (Document (Transcript Num)) → Transcript Num
  loaded id none = fresh id
  loaded id (some blank) = fresh id
  loaded id (some damaged) = fresh id
  loaded id (some (whole t)) = t

  load_found_lem :
      (id : String) (d : Option (Document (Transcript Num))) (s : Store Num)
      → s.faults ≡ []
      → IsOwn id d
      → load_found id d s ≡ (ok (loaded id d), s)
  unfolding load_found decode
  load_found_lem id none s f h = refl
  load_found_lem id (some blank) s f h = absurd h
  load_found_lem id (some damaged) s f h = absurd h
  load_found_lem id (some (whole t)) s f h = ground (arith, f, h)

  pub loaded_own :
      (id : String) (d : Option (Document (Transcript Num)))
      → IsOwn id d
      → (loaded id d).session_id ≡ id
  loaded_own id none h = refl
  loaded_own id (some blank) h = refl
  loaded_own id (some damaged) h = refl
  loaded_own id (some (whole t)) h = h

  pub loaded_messages :
      (id : String) (d : Option (Document (Transcript Num)))
      → (loaded id d).messages ≡ or_empty (contents d)
  loaded_messages id none = refl
  loaded_messages id (some blank) = refl
  loaded_messages id (some damaged) = refl
  loaded_messages id (some (whole t)) = refl

  pub save_locked_lem :
      (t : Transcript Num) (s : Store Num)
      → s.faults ≡ []
      → save_locked t s ≡ (
        ok tt,
        record s {
          transcripts = Disk.write folder_dec history t.session_id (whole t) s.transcripts;
        },
      )
  unfolding save_locked put_in
  save_locked_lem t s f = ground (arith, f)

  pub read_live :
      (t : Transcript Num) (id : String) (s : Store Num) (j : String)
      → t.session_id ≡ id
      → contents (
          Disk.read folder_dec history j
            (Disk.write folder_dec history t.session_id (whole t) s.transcripts))
        ≡ at id (some t.messages) (view s).live j
  read_live t id s j e =
      ground
        (arith, e, read-write folder_dec history history t.session_id j (whole t) s.transcripts)

  pub read_shelved :
      (t : Transcript Num) (s : Store Num) (j : String)
      → contents (
          Disk.read folder_dec archive j
            (Disk.write folder_dec history t.session_id (whole t) s.transcripts))
        ≡ (view s).shelved j
  read_shelved t s j =
      ground (arith, read-write folder_dec history archive t.session_id j (whole t) s.transcripts)

  -- The effect of a method that loads a transcript, changes it and saves it.
  pub saves :
      (m : Store Num → Result Error (Unit {0}) × Store Num) (t : Transcript Num) (id : String)
      (s : Store Num) (ms : List (Message Num))
      → m s ≡ save_locked t s
      → s.faults ≡ []
      → t.session_id ≡ id
      → t.messages ≡ ms
      → Agrees (some (record (view s) { live = at id (some ms) (view s).live })) (m s) s
  saves m t id s ms e f own same =
      rw (e, save_locked_lem t s f)
        (refl, f, (λ j. rw (← same) (read_live t id s j own)), read_shelved t s, (λ j. refl))

  pub load_locked_lem :
      (id : String) (s : Store Num)
      → IsSound s
      → s.faults ≡ []
      → load_locked id s ≡ (ok (loaded id (Disk.read folder_dec history id s.transcripts)), s)
  unfolding load_locked
  load_locked_lem id s h f =
      load_found_lem id (Disk.read folder_dec history id s.transcripts) s f (h.own history id)

  begun_own :
      (now : ℕ) (id : String) (m : Message Num) (t : Transcript Num)
      → t.session_id ≡ id
      → ((appended now id m t).session_id ≡ id) × ((upserted now id m t).session_id ≡ id)
  unfolding appended upserted
  begun_own now id m t h = ground (arith, h)

  appended_messages :
      (now : ℕ) (id : String) (m : Message Num) (t : Transcript Num)
      → (appended now id m t).messages ≡ t.messages ++ m ∷ []
  unfolding appended
  appended_messages now id m t = ground arith

  upserted_messages :
      (now : ℕ) (id : String) (m : Message Num) (t : Transcript Num)
      → (upserted now id m t).messages ≡ replace_message m t.messages
  unfolding upserted
  upserted_messages now id m t = ground arith

  pub append-Agrees :
      (now : ℕ) (id : String) (m : Message Num) (s : Store Num)
      → IsSound s
      → s.faults ≡ []
      → Agrees (specified (append_call now id m) (view s)) (append now id m s) s
  unfolding specified append
  append-Agrees now id m s h f =
      let d = Disk.read folder_dec history id s.transcripts in
      let own = loaded_own id d (h.own history id) in
      saves (append now id m) (appended now id m (loaded id d)) id s
        (or_empty (contents d) ++ m ∷ []) (rw (load_locked_lem id s h f)) f
        (begun_own now id m (loaded id d) own).0
        (rw (appended_messages now id m (loaded id d), loaded_messages id d))

  pub upsert-Agrees :
      (now : ℕ) (id : String) (m : Message Num) (s : Store Num)
      → IsSound s
      → s.faults ≡ []
      → Agrees (specified (upsert_call now id m) (view s)) (upsert now id m s) s
  unfolding specified upsert
  upsert-Agrees now id m s h f =
      let d = Disk.read folder_dec history id s.transcripts in
      let own = loaded_own id d (h.own history id) in
      saves (upsert now id m) (upserted now id m (loaded id d)) id s
        (replace_message m (or_empty (contents d))) (rw (load_locked_lem id s h f)) f
        (begun_own now id m (loaded id d) own).1
        (rw (upserted_messages now id m (loaded id d), loaded_messages id d))

  -- Writing what is there changes nothing.
  pub kept :
      (id : String) (f : String → Option (List (Message Num))) (ms : List (Message Num))
      (j : String)
      → f id ≡ some ms
      → at id (some ms) f j ≡ f j
  kept id f ms j e = elim (str_dec id j) as (λ x. (if decided x then some ms else f j) ≡ f j) [
    | yes p ↦ sym e ∙ ap f p
    | no _ ↦ refl
  ]

  pub history_exists_lem :
      (id : String) (s : Store Num)
      → s.faults ≡ []
      → history_exists id s ≡ (ok (is_some (Disk.read folder_dec history id s.transcripts)), s)
  unfolding history_exists
  history_exists_lem id s f = ground (arith, f)

  -- The view stays as it is where the transcript keeps its messages.
  pub contents-some :
      (doc : Document (Transcript Num))
      → contents (some doc) ≡ some (or_empty (contents (some doc)))
  contents-some blank = refl
  contents-some damaged = refl
  contents-some (whole t) = refl

  pub ensure_session-Agrees :
      (now : ℕ) (id : String) (s : Store Num)
      → IsSound s
      → s.faults ≡ []
      → Agrees (specified (ensure_call now id) (view s)) (ensure_session now id s) s
  unfolding specified ensure_session
  ensure_session-Agrees now id s h f =
      elim (Option-cases (Disk.read folder_dec history id s.transcripts)) [
        | inl gone ↦
            saves (ensure_session now id) (new_session now id) id s (or_empty ((view s).live id))
              (rw (history_exists_lem id s f, gone) refl) f refl (rw gone)
        | inr (doc, there) ↦
            let done : ensure_session now id s ≡ (ok tt, s) =
              rw (history_exists_lem id s f, there) refl in
            let held : (view s).live id ≡ some (or_empty ((view s).live id)) =
              rw there (contents-some doc) in
            rw done (
              refl,
              f,
              (λ j. sym (kept id (view s).live (or_empty ((view s).live id)) j held)),
              (λ j. refl),
              (λ j. refl),
            )
      ]

  pub rename_session-Agrees :
      (now : ℕ) (id title : String) (s : Store Num)
      → IsSound s
      → s.faults ≡ []
      → Agrees (specified (rename_call now id title) (view s)) (rename_session now id title s) s
  unfolding specified rename_session
  rename_session-Agrees now id title s h f =
      let d = Disk.read folder_dec history id s.transcripts in
      let own = loaded_own id d (h.own history id) in
      let t = loaded id d in
      elim (Option-cases d) [
        | inl gone ↦ rw (history_exists_lem id s f, gone) refl
        | inr (doc, there) ↦
            let t' : Transcript Num = record t {
              title = given_title title;
              updated_at = some now;
            } in
            let run : rename_session now id title s ≡ save_locked t' s =
              rw (history_exists_lem id s f, there) (rw (load_locked_lem id s h f, there) refl) in
            let held : (view s).live id ≡ some t.messages =
              rw (loaded_messages id d, there) (contents-some doc) in
            let there_some : specified (rename_call now id title) (view s) ≡ some (view s) =
              rw there (rw (contents-some doc) refl) in
            let a = saves (rename_session now id title) t' id s t.messages run f own refl in
            rw there_some
              (a.0, a.1, (λ j. a.2 j ∙ kept id (view s).live t.messages j held), a.3, a.4)
      ]
