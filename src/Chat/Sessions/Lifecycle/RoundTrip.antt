-- ===== src/Chat/Sessions/Lifecycle/RoundTrip.antt =====
-- What is read back from the sessions of internal/chat/store.go after it was written.
use mnemosyne_os.Base.{
  ℕ, String, ◌≡◌, ◌≢◌, refl, subst, ◌∙◌, Option, none, some, [], arith, decided, str_dec,
  if◌then◌else◌,
}
use mnemosyne_os.Base.Assoc
use mnemosyne_os.Base.Disk
use mnemosyne_os.Base.Disk.Laws.{read-write, read-remove}
use mnemosyne_os.Base.Result.{ok}
use mnemosyne_os.Chat.{Transcript, Document, whole, Folder, history, archive, folder_dec, Store}
use mnemosyne_os.Chat.Sessions.Lifecycle.{archive_session, restore_session, archived, restored}
use mnemosyne_os.Chat.Sessions.Lifecycle.Moving.{archived_store, archive_session_found}
use mnemosyne_os.Chat.Sessions.Lifecycle.Agreement.{restored_store, restore_session_found}
use mnemosyne_os.Chat.Sessions.View.{IsOwn, IsSound}

if_same : {A : Type 0} (id : String) (x y : A) → (if decided (str_dec id id) then x else y) ≡ x
if_same id x y = ground arith

if_other :
    {A : Type 0} (id j : String) (x y : A) → j ≢ id → (if decided (str_dec id j) then x else y) ≡ y
if_other id j x y n = ground (arith, n)

-- What a session's file and those of the others hold after archiving and restoring.
pub record IsBack {Num : Type 0} (later : ℕ) (id : String) (t : Transcript Num) (s r : Store Num)
    : Type 0 where
  pub in_history :
      Disk.read folder_dec history id r.transcripts
      ≡ some (whole (record t { archived_at = none; updated_at = some later }))
  pub in_archive : Disk.read folder_dec archive id r.transcripts ≡ none
  pub others :
      (d : Folder) (j : String)
      → j ≢ id
      → Disk.read folder_dec d j r.transcripts ≡ Disk.read folder_dec d j s.transcripts
  pub no_state : Assoc.get str_dec id r.states ≡ none

module _ {Num : Type 0} where
  archived_file :
      (now : ℕ) (id : String) (t : Transcript Num) (s : Store Num)
      → Disk.read folder_dec archive id (archived_store now id t s).transcripts
        ≡ some (whole (archived now t))
  unfolding archived_store
  archived_file now id t s =
      let w = Disk.write folder_dec archive id (whole (archived now t)) s.transcripts in
      ground (
        arith,
        read-remove folder_dec history archive id id w,
        read-write folder_dec archive archive id id (whole (archived now t)) s.transcripts,
      )

  file_after : ℕ → Transcript Num → Folder → Option (Document (Transcript Num))
  file_after later t history =
      some (whole (record t { archived_at = none; updated_at = some later }))
  file_after later t archive = none

  -- The files after both.
  read_back :
      (now later : ℕ) (id : String) (t : Transcript Num) (s : Store Num)
      → t.session_id ≡ id
      → (d : Folder) (j : String)
      → Disk.read folder_dec d j
          (restored_store later id (archived now t) (archived_store now id t s)).transcripts
        ≡ (if decided (str_dec id j)
            then file_after later t d
            else Disk.read folder_dec d j s.transcripts)
  unfolding restored_store archived_store file_after
  read_back now later id t s own history j =
      let w1 = Disk.write folder_dec archive id (whole (archived now t)) s.transcripts in
      let w2 = Disk.remove folder_dec history id w1 in
      let back = whole (restored later (archived now t)) in
      ground (
        arith,
        own,
        read-remove folder_dec archive history id j
            (Disk.write folder_dec history t.session_id back w2),
        read-write folder_dec history history t.session_id j back w2,
        read-remove folder_dec history history id j w1,
        read-write folder_dec archive history id j (whole (archived now t)) s.transcripts,
      )
  read_back now later id t s own archive j =
      let w1 = Disk.write folder_dec archive id (whole (archived now t)) s.transcripts in
      let w2 = Disk.remove folder_dec history id w1 in
      let back = whole (restored later (archived now t)) in
      ground (
        arith,
        own,
        read-remove folder_dec archive archive id j
            (Disk.write folder_dec history t.session_id back w2),
        read-write folder_dec history archive t.session_id j back w2,
        read-remove folder_dec history archive id j w1,
        read-write folder_dec archive archive id j (whole (archived now t)) s.transcripts,
      )

  restored-IsBack :
      (now later : ℕ) (id : String) (t : Transcript Num) (s : Store Num)
      → t.session_id ≡ id
      → IsBack later id t s (restored_store later id (archived now t) (archived_store now id t s))
  restored-IsBack now later id t s own = record {
    in_history = read_back now later id t s own history id ∙ (unfold file_after in if_same id _ _);
    in_archive = read_back now later id t s own archive id ∙ (unfold file_after in if_same id _ _);
    others = λ d j n. read_back now later id t s own d j ∙ if_other id j _ _ n;
    no_state =
        unfold restored_store archived_store in
        ground (arith, Assoc.get-del str_dec id id s.states);
  }

  -- In a sound store and with no operation refused, a live session that is archived and then
  -- restored has its file back, but for the time of its last change, its archived file is gone, and
  -- the files of every other session are as they were. The file of its state is not brought back.
  pub restore_session-archive_session :
      (now later : ℕ) (id : String) (t : Transcript Num) (s : Store Num)
      → IsSound s
      → s.faults ≡ []
      → Disk.read folder_dec history id s.transcripts ≡ some (whole t)
      → ((restore_session later id (archive_session now id s).1).0 ≡ ok tt)
        × IsBack later id t s (restore_session later id (archive_session now id s).1).1
  restore_session-archive_session now later id t s h f there =
      let own : t.session_id ≡ id = subst (IsOwn id) there (h.own history id) in
      rw (archive_session_found now id t s h f there) (
        rw
          (restore_session_found later id (archived now t) (archived_store now id t s)
            (unfold archived_store in f) (archived_file now id t s))
          (refl, restored-IsBack now later id t s own))
