-- ===== src/Chat/Sessions/Lifecycle.antt =====
-- internal/chat/store.go: sessions are archived, restored and deleted.
pub mod Moving
pub mod RoundTrip
pub mod Sound
pub mod Agreement
use mnemosyne_os.Base.{
  ℕ, String, Bool, true, false, ◌||◌, Option, none, some, List, if◌then◌else◌, str_dec,
}
use mnemosyne_os.Base.Assoc
use mnemosyne_os.Base.Disk
use mnemosyne_os.Base.Result.{Result, ok, err}
use mnemosyne_os.Base.Exec.{pure, raise, ◌>>=◌, ◌>>◌}
use mnemosyne_os.Chat.{
  Transcript, SessionState, Document, blank, damaged, whole, Folder, history, archive, folder_dec,
  Error, not_exist, decode_error, Store, Method, try_operation,
}
use mnemosyne_os.Chat.Sessions.{load_locked, save_locked, put_in, history_exists}

module _ {Num : Type 0} where
  drop_file : Folder → String → Method Num (Unit {0})
  drop_file d id s = pure tt (record s { transcripts = Disk.remove folder_dec d id s.transcripts })

  drop_state : String → Method Num (Unit {0})
  drop_state id s = pure tt (record s { states = Assoc.del str_dec id s.states })

  remove_found : Folder → String → Option (Document (Transcript Num)) → Method Num (Unit {0})
  unfolding drop_file
  remove_found d id none = raise not_exist
  remove_found d id (some _) = do try_operation; drop_file d id

  -- os.Remove of a transcript
  unfoldable pub remove_file : Folder → String → Method Num (Unit {0})
  unfolding remove_found
  remove_file d id s = remove_found d id (Disk.read folder_dec d id s.transcripts) s

  remove_state_found : String → Option (Document SessionState) → Method Num (Unit {0})
  unfolding drop_state
  remove_state_found id none = raise not_exist
  remove_state_found id (some _) = do try_operation; drop_state id

  -- os.Remove of the file of the state
  unfoldable pub remove_state : String → Method Num (Unit {0})
  unfolding remove_state_found
  remove_state id s = remove_state_found id (Assoc.get str_dec id s.states) s

  -- `_ = os.Remove(path)`
  abbrev pub ignored : Method Num (Unit {0}) → Method Num (Unit {0})
  ignored m s = (ok tt, (m s).1)

  abbrev archived : ℕ → Transcript Num → Transcript Num
  archived now t = record t { archived_at = some now; updated_at = some now }

  unfoldable pub archive_session : ℕ → String → Method Num (Unit {0})
  unfolding history_exists put_in remove_state
  archive_session now id = do
    found ← history_exists id
    if found
        then (do
          t ← load_locked id
          try_operation
          put_in archive id (archived now t)
          ignored (remove_state id)
          remove_file history id)
        else raise not_exist

  -- json.Unmarshal refuses an empty text too.
  decode_strictly : Document (Transcript Num) → Method Num (Transcript Num)
  decode_strictly blank = raise decode_error
  decode_strictly damaged = raise decode_error
  decode_strictly (whole t) = pure t

  pub read_archived : Option (Document (Transcript Num)) → Method Num (Transcript Num)
  unfolding decode_strictly
  read_archived none = raise not_exist
  read_archived (some d) = do try_operation; decode_strictly d

  abbrev restored : ℕ → Transcript Num → Transcript Num
  restored now t = record t { archived_at = none; updated_at = some now }

  unfoldable pub restore_session : ℕ → String → Method Num (Unit {0})
  unfolding read_archived
  restore_session now id = do
    t ← λ s. read_archived (Disk.read folder_dec archive id s.transcripts) s
    save_locked (restored now t)
    remove_file archive id

  -- os.Stat of a path: whether it is there, and any error but a missing file.
  pub stat : {A : Type 0} → Option A → Method Num Bool
  stat none = pure false
  stat (some _) = do try_operation; pure true

  -- A missing file is no error.
  settled : Result Error (Unit {0}) → Method Num (Unit {0})
  settled (ok _) s = (ok tt, s)
  settled (err not_exist) s = (ok tt, s)
  settled (err e) s = (err e, s)

  pub unless_missing : Method Num (Unit {0}) → Method Num (Unit {0})
  unfolding settled
  unless_missing m s = settled (m s).0 (m s).1

  unfoldable pub delete_session : String → Method Num (Unit {0})
  unfolding stat unless_missing remove_state remove_file
  delete_session id = do
    in_state ← λ s. stat (Assoc.get str_dec id s.states) s
    in_history ← λ s. stat (Disk.read folder_dec history id s.transcripts) s
    in_archive ← λ s. stat (Disk.read folder_dec archive id s.transcripts) s
    if in_state || in_history || in_archive
        then (do
          unless_missing (remove_state id)
          unless_missing (remove_file history id)
          unless_missing (remove_file archive id))
        else raise not_exist
