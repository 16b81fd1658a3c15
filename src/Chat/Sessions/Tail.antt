-- ===== src/Chat/Sessions/Tail.antt =====
-- `Store.List` of internal/chat/store.go after a message was added.
use mnemosyne_os.Base.{
  ℕ, zero, suc, ◌-◌, ◌≤◌, ◌<◌, ◌+◌, String, ◌≡◌, ◌≢◌, refl, sym, ap, ◌∙◌, Option, none, some, List,
  [], ◌∷◌, ◌++◌, arith, length, length-append, drop,
}
use mnemosyne_os.Base.Disk
use mnemosyne_os.Base.Result.{ok}
use mnemosyne_os.Base.Disk.Laws.{read-write}
use mnemosyne_os.Chat.{Message, Transcript, Document, whole, history, folder_dec, Store}
use mnemosyne_os.Chat.Sessions.{
  append, appended, upsert, upserted, last_of, list_messages, load_locked, load_found, save_locked,
  put_in, fresh,
}
use mnemosyne_os.Chat.Sessions.Lifecycle.Sound.{perform-IsSound}
use mnemosyne_os.Chat.Sessions.Saving.{load_locked_lem, append-Agrees, loaded_messages}
use mnemosyne_os.Chat.Sessions.View.{IsSound, view, or_empty, append_call, perform, specified, at}

drop-append :
    {A : Type 0} (n : ℕ) (xs : List A)
    → n ≤ length xs
    → (front : List A) × (front ++ drop n xs ≡ xs) × (length front ≡ n)
drop-append zero xs h = ([], refl, refl)
drop-append (suc n) [] h = absurd (omega arith)
drop-append (suc n) (x ∷ xs) h =
    let (front, e, l) = drop-append n xs (omega arith) in
    (x ∷ front, ap (λ ys. x ∷ ys) e, omega (arith, l))

drop_none : {A : Type 0} (n : ℕ) (xs : List A) → n ≡ 0 → drop n xs ≡ xs
drop_none zero xs e = refl
drop_none (suc n) xs e = absurd (omega arith)

module _ {Num : Type 0} where
  -- The last messages: as many as asked for, or all where there are no more or no number is asked
  -- for (0).
  pub record IsTail (limit : ℕ) (all ms : List (Message Num)) : Type 0 where
    pub front : List (Message Num)
    pub at_end : front ++ ms ≡ all
    pub as_many : 0 < limit → limit ≤ length all → length ms ≡ limit
    pub no_more : length all ≤ limit → ms ≡ all
    pub unlimited : limit ≡ 0 → ms ≡ all

  last_of-IsTail : (limit : ℕ) (ms : List (Message Num)) → IsTail limit ms (last_of limit ms)
  unfolding last_of
  last_of-IsTail zero ms = record {
    front = [];
    at_end = refl;
    as_many = λ h. absurd (omega arith);
    no_more = λ h. refl;
    unlimited = λ h. refl;
  }
  last_of-IsTail (suc n) ms =
      let (front, e, l) = drop-append (length ms - suc n) ms (omega arith) in
      let whole_length : length front + length (drop (length ms - suc n) ms) ≡ length ms =
        sym (length-append front _) ∙ ap length e in
      record {
        front = front;
        at_end = e;
        as_many = λ p h. omega (arith, l, whole_length);
        no_more = λ h. drop_none (length ms - suc n) ms (omega arith);
        unlimited = λ h. absurd (omega arith);
      }

  at_self :
      (id : String) (ms : List (Message Num)) (f : String → Option (List (Message Num)))
      → or_empty (at id (some ms) f id) ≡ ms
  at_self id ms f = ground arith

  list_messages_lem :
      (id : String) (limit : ℕ) (s : Store Num)
      → IsSound s
      → s.faults ≡ []
      → list_messages id limit s ≡ (ok (last_of limit (or_empty ((view s).live id))), s)
  unfolding list_messages
  list_messages_lem id limit s h f =
      rw
        (
          load_locked_lem id s h f,
          loaded_messages id (Disk.read folder_dec history id s.transcripts),
        )
        refl

  -- In a sound store and with no operation refused, List gives after an Append as many of the last
  -- messages as asked for, and all where there are no more or no number is asked for, where the
  -- messages are those before and the new one at the end.
  pub list_messages-append :
      (now : ℕ) (id : String) (m : Message Num) (limit : ℕ) (s : Store Num)
      → IsSound s
      → s.faults ≡ []
      → (ms : List (Message Num)) × ((list_messages id limit (append now id m s).1).0 ≡ ok ms)
        × IsTail limit (or_empty ((view s).live id) ++ m ∷ []) ms
  unfolding specified perform
  list_messages-append now id m limit s h f =
      let all = or_empty ((view s).live id) ++ m ∷ [] in
      let after = append-Agrees now id m s h f in
      let sound = perform-IsSound (append_call now id m) s h in
      let same : or_empty ((view (append now id m s).1).live id) ≡ all =
        ap or_empty (after.2 id) ∙ at_self id all (view s).live in
      (
        last_of limit all,
        rw (list_messages_lem id limit (append now id m s).1 sound after.1, same) refl,
        last_of-IsTail limit all,
      )

  abbrev created_of : Option (Document (Transcript Num)) → Option (Option ℕ)
  created_of (some (whole t)) = some t.created_at
  created_of _ = none

  abbrev title_of : Option (Document (Transcript Num)) → Option String
  title_of (some (whole t)) = some t.title
  title_of _ = none

  -- What the file of a session says.
  abbrev pub created_in : String → Store Num → Option (Option ℕ)
  created_in id s = created_of (Disk.read folder_dec history id s.transcripts)

  abbrev pub title_in : String → Store Num → Option String
  title_in id s = title_of (Disk.read folder_dec history id s.transcripts)

  -- With no operation refused, the file of a session that begins with an Append or an Upsert has
  -- no time of creation, and after an Upsert no title.
  pub append_leaves_created_at :
      (now : ℕ) (id : String) (m : Message Num) (s : Store Num)
      → s.faults ≡ []
      → id ≢ ""
      → Disk.read folder_dec history id s.transcripts ≡ none
      → (created_in id (append now id m s).1 ≡ some none)
        × (created_in id (upsert now id m s).1 ≡ some none)
        × (title_in id (upsert now id m s).1 ≡ some "")
  unfolding append upsert load_locked load_found save_locked put_in appended upserted
  append_leaves_created_at now id m s f n gone = rw gone (
      rw f (
        ground (
          arith,
          n,
          read-write folder_dec history history id id (whole (appended now id m (fresh id)))
              s.transcripts,
        ),
        ground (
          arith,
          n,
          read-write folder_dec history history id id (whole (upserted now id m (fresh id)))
              s.transcripts,
        ),
        ground (
          arith,
          n,
          read-write folder_dec history history id id (whole (upserted now id m (fresh id)))
              s.transcripts,
        ),
      ))
