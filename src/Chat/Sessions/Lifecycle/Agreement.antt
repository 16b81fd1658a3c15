-- ===== src/Chat/Sessions/Lifecycle/Agreement.antt =====
-- What archiving, restoring and deleting a session (internal/chat/store.go) do to the view.
use mnemosyne_os.Base.{
  ℕ, String, ◌≡◌, refl, ap, subst, ◌∙◌, inl, inr, Option-cases, Bool-cases, false, ◌||◌, Option,
  none, some, [], arith, str_dec, if◌then◌else◌,
}
use mnemosyne_os.Base.Assoc
use mnemosyne_os.Base.Disk
use mnemosyne_os.Base.Disk.Laws.{read-write, read-remove}
use mnemosyne_os.Base.Result.{ok, err}
use mnemosyne_os.Chat.{
  Transcript, Document, blank, damaged, whole, history, archive, folder_dec, Store, not_exist,
}
use mnemosyne_os.Chat.Sessions.Lifecycle.{
  archive_session, restore_session, delete_session, archived, restored, read_archived, stat,
}
use mnemosyne_os.Chat.Sessions.Lifecycle.Moving.{
  without, without_state, noted_without, archived_store, archive_session_found, read_archived_found,
  remove_file_found, remove_file_any, remove_state_any,
}
use mnemosyne_os.Chat.Sessions.Saving.{save_locked_lem, history_exists_lem}
use mnemosyne_os.Chat.Sessions.View.{
  view, contents, IsOwn, IsSound, archive_call, restore_call, delete_call, is_some, specified, at,
  Agrees,
}

module _ {Num : Type 0} where
  -- A file of a sound store is a transcript.
  transcript_of :
      (id : String) (doc : Document (Transcript Num))
      → IsOwn id (some doc)
      → (t : Transcript Num) × (doc ≡ whole t) × (t.session_id ≡ id)
  transcript_of id blank h = absurd h
  transcript_of id damaged h = absurd h
  transcript_of id (whole t) h = (t, refl, h)

  archived_view :
      (now : ℕ) (id : String) (t : Transcript Num) (s : Store Num)
      → ((j : String) → (view (archived_store now id t s)).live j ≡ at id none (view s).live j)
        × ((j : String)
            → (view (archived_store now id t s)).shelved j
              ≡ at id (some t.messages) (view s).shelved j)
        × ((j : String) → (view (archived_store now id t s)).noted j ≡ at id false (view s).noted j)
  unfolding archived_store
  archived_view now id t s =
      let w = Disk.write folder_dec archive id (whole (archived now t)) s.transcripts in
      (
        (λ j. ground (
          arith,
          read-remove folder_dec history history id j w,
          read-write folder_dec archive history id j (whole (archived now t)) s.transcripts,
        )),
        (λ j. ground (
          arith,
          read-remove folder_dec history archive id j w,
          read-write folder_dec archive archive id j (whole (archived now t)) s.transcripts,
        )),
        (λ j. noted_without id s j),
      )

  pub archive_session-Agrees :
      (now : ℕ) (id : String) (s : Store Num)
      → IsSound s
      → s.faults ≡ []
      → Agrees (specified (archive_call now id) (view s)) (archive_session now id s) s
  unfolding specified
  archive_session-Agrees now id s h f =
      elim (Option-cases (Disk.read folder_dec history id s.transcripts)) [
        | inl gone ↦
            let missing : archive_session now id s ≡ (err not_exist, s) =
              unfold archive_session in rw (history_exists_lem id s f, gone) refl in
            rw (gone, missing) refl
        | inr (doc, there) ↦
            let (t, e, own) = transcript_of id doc (subst (IsOwn id) there (h.own history id)) in
            let held = there ∙ ap some e in
            let v = archived_view now id t s in
            rw (held, archive_session_found now id t s h f held)
              (refl, (unfold archived_store in f), v.0, v.1, v.2)
      ]

  unfoldable pub restored_store : ℕ → String → Transcript Num → Store Num → Store Num
  restored_store now id t s = without archive id (record s {
    transcripts = Disk.write folder_dec history t.session_id (whole (restored now t)) s.transcripts;
  })

  restored_view :
      (now : ℕ) (id : String) (t : Transcript Num) (s : Store Num)
      → t.session_id ≡ id
      → ((j : String)
          → (view (restored_store now id t s)).live j ≡ at id (some t.messages) (view s).live j)
        × ((j : String)
            → (view (restored_store now id t s)).shelved j ≡ at id none (view s).shelved j)
  unfolding restored_store
  restored_view now id t s own =
      let w = Disk.write folder_dec history t.session_id (whole (restored now t)) s.transcripts in
      (
        (λ j. ground (
          arith,
          own,
          read-remove folder_dec archive history id j w,
          read-write folder_dec history history t.session_id j (whole (restored now t))
              s.transcripts,
        )),
        (λ j. ground (
          arith,
          read-remove folder_dec archive archive id j w,
          read-write folder_dec history archive t.session_id j (whole (restored now t))
              s.transcripts,
        )),
      )

  pub restore_session_found :
      (now : ℕ) (id : String) (t : Transcript Num) (s : Store Num)
      → s.faults ≡ []
      → Disk.read folder_dec archive id s.transcripts ≡ some (whole t)
      → restore_session now id s ≡ (ok tt, restored_store now id t s)
  unfolding restore_session restored_store
  restore_session_found now id t s f there =
      let s1 : Store Num = record s {
        transcripts =
            Disk.write folder_dec history t.session_id (whole (restored now t)) s.transcripts;
      } in
      let still : Disk.read folder_dec archive id s1.transcripts ≡ some (whole t) = ground (
        arith,
        there,
        read-write folder_dec history archive t.session_id id (whole (restored now t))
            s.transcripts,
      ) in
      rw there (
        rw (read_archived_found t s f)
          (rw (save_locked_lem (restored now t) s f) (remove_file_found archive id s1 f still)))

  pub restore_session-Agrees :
      (now : ℕ) (id : String) (s : Store Num)
      → IsSound s
      → s.faults ≡ []
      → Agrees (specified (restore_call now id) (view s)) (restore_session now id s) s
  unfolding specified
  restore_session-Agrees now id s h f =
      elim (Option-cases (Disk.read folder_dec archive id s.transcripts)) [
        | inl gone ↦
            let missing : restore_session now id s ≡ (err not_exist, s) =
              unfold restore_session read_archived in rw gone refl in
            rw (gone, missing) refl
        | inr (doc, there) ↦
            let (t, e, own) = transcript_of id doc (subst (IsOwn id) there (h.own archive id)) in
            let held = there ∙ ap some e in
            let v = restored_view now id t s own in
            rw (held, restore_session_found now id t s f held)
              (refl, (unfold restored_store in f), v.0, v.1, (unfold restored_store in λ j. refl))
      ]

  stat_lem :
      {A : Type 0} (o : Option A) (s : Store Num) → s.faults ≡ [] → stat o s ≡ (ok (is_some o), s)
  unfolding stat
  stat_lem none s f = refl
  stat_lem (some a) s f = rw f refl

  deleted_store : String → Store Num → Store Num
  deleted_store id s = without archive id (without history id (without_state id s))

  is_some-contents :
      (doc : Option (Document (Transcript Num))) → is_some (contents doc) ≡ is_some doc
  is_some-contents none = refl
  is_some-contents (some blank) = refl
  is_some-contents (some damaged) = refl
  is_some-contents (some (whole t)) = refl

  delete_session_lem :
      (id : String) (s : Store Num)
      → s.faults ≡ []
      → delete_session id s ≡ (
          if (view s).noted id || is_some ((view s).live id) || is_some ((view s).shelved id)
          then (ok tt, deleted_store id s)
          else (err not_exist, s))
  unfolding delete_session deleted_store
  delete_session_lem id s f =
      rw
        (
          is_some-contents (Disk.read folder_dec history id s.transcripts),
          is_some-contents (Disk.read folder_dec archive id s.transcripts),
          stat_lem (Assoc.get str_dec id s.states) s f,
          stat_lem (Disk.read folder_dec history id s.transcripts) s f,
          stat_lem (Disk.read folder_dec archive id s.transcripts) s f,
        )
        (elim (Bool-cases (
          is_some (Assoc.get str_dec id s.states)
          || is_some (Disk.read folder_dec history id s.transcripts)
          || is_some (Disk.read folder_dec archive id s.transcripts))) [
            | inl some_there ↦ rw some_there (
                rw (remove_state_any id s f, remove_file_any history id (without_state id s) f)
                  (remove_file_any archive id (without history id (without_state id s)) f))
            | inr gone ↦ rw gone refl
          ])

  deleted_view :
      (id : String) (s : Store Num)
      → ((j : String) → (view (deleted_store id s)).live j ≡ at id none (view s).live j)
        × ((j : String) → (view (deleted_store id s)).shelved j ≡ at id none (view s).shelved j)
        × ((j : String) → (view (deleted_store id s)).noted j ≡ at id false (view s).noted j)
  unfolding deleted_store
  deleted_view id s =
      let k = Disk.remove folder_dec history id s.transcripts in
      (
        (λ j. ground (
          arith,
          read-remove folder_dec archive history id j k,
          read-remove folder_dec history history id j s.transcripts,
        )),
        (λ j. ground (
          arith,
          read-remove folder_dec archive archive id j k,
          read-remove folder_dec history archive id j s.transcripts,
        )),
        (λ j. noted_without id s j),
      )

  pub delete_session-Agrees :
      (id : String) (s : Store Num)
      → s.faults ≡ []
      → Agrees (specified (delete_call id) (view s)) (delete_session id s) s
  unfolding specified
  delete_session-Agrees id s f =
      let b = (view s).noted id || is_some ((view s).live id) || is_some ((view s).shelved id) in
      let v = deleted_view id s in
      elim (Bool-cases b) [
        | inl some_there ↦
            rw (delete_session_lem id s f, some_there)
              (refl, (unfold deleted_store in f), v.0, v.1, v.2)
        | inr gone ↦ rw (delete_session_lem id s f, gone) refl
      ]
