-- ===== src/Chat/Sessions.antt =====
-- internal/chat/store.go: the transcripts of the sessions.
pub mod Titles
pub mod Lifecycle
pub mod Listing
pub mod States
pub mod View
pub mod Keeps
pub mod Saving
pub mod Tail
pub mod Refinement
use mnemosyne_os.Base.{
  ℕ, zero, suc, ◌-◌, String, Bool, true, false, Option, none, some, List, [], ◌∷◌, ◌++◌,
  if◌then◌else◌, decided, str_dec, ltb, length, drop,
}
use mnemosyne_os.Base.Disk
use mnemosyne_os.Base.Text.{trim_space, is_blank}
use mnemosyne_os.Base.Result.{Result, ok, err}
use mnemosyne_os.Base.Exec.{pure, raise, ◌>>=◌, ◌>>◌}
use mnemosyne_os.Chat.{
  Message, Transcript, SessionSummary, Document, blank, damaged, whole, Folder, history, archive,
  folder_dec, Error, not_exist, decode_error, Store, Method, try_operation,
}
use mnemosyne_os.Chat.Sessions.Titles.{derive_session_title}

abbrev given_title : String → String
given_title title = if is_blank title then "New Session" else trim_space title

module _ {Num : Type 0} where
  abbrev pub fresh : String → Transcript Num
  fresh id = record {
    session_id = id;
    title = "";
    created_at = none;
    updated_at = none;
    archived_at = none;
    messages = [];
  }

  decode : String → Document (Transcript Num) → Method Num (Transcript Num)
  decode id blank = pure (fresh id)
  decode id damaged = raise decode_error
  decode id (whole t) =
      pure (if decided (str_dec t.session_id "") then record t { session_id = id } else t)

  load_found : String → Option (Document (Transcript Num)) → Method Num (Transcript Num)
  unfolding decode
  load_found id none = pure (fresh id)
  load_found id (some d) = do try_operation; decode id d

  unfoldable pub load_locked : String → Method Num (Transcript Num)
  unfolding load_found
  load_locked id s = load_found id (Disk.read folder_dec history id s.transcripts) s

  put_in : Folder → String → Transcript Num → Method Num (Unit {0})
  put_in d id t s =
      pure tt (record s { transcripts = Disk.write folder_dec d id (whole t) s.transcripts })

  unfoldable pub save_locked : Transcript Num → Method Num (Unit {0})
  unfolding put_in
  save_locked t = do try_operation; put_in history t.session_id t

  abbrev begun : ℕ → String → Message Num → Transcript Num → Transcript Num
  begun now id m t =
      if decided (str_dec t.session_id "")
      then record t {
        session_id = id;
        title = derive_session_title m.content;
        created_at = some now;
      }
      else t

  abbrev titled : Message Num → Transcript Num → Transcript Num
  titled m t = if is_blank t.title then record t { title = derive_session_title m.content } else t

  unfoldable pub appended : ℕ → String → Message Num → Transcript Num → Transcript Num
  appended now id m t =
      let t' = titled m (begun now id m t) in
      record t' { messages = t'.messages ++ m ∷ []; updated_at = some now }

  unfoldable pub append : ℕ → String → Message Num → Method Num (Unit {0})
  append now id m = do t ← load_locked id; save_locked (appended now id m t)

  -- The first message of the identifier is replaced, or the message is added at the end.
  unfoldable pub replace_message : Message Num → List (Message Num) → List (Message Num)
  replace_message m [] = m ∷ []
  replace_message m (x ∷ xs) =
      if decided (str_dec x.message_id m.message_id) then m ∷ xs else x ∷ replace_message m xs

  unfoldable pub upserted : ℕ → String → Message Num → Transcript Num → Transcript Num
  upserted now id m t =
      let t' = begun now id m t in
      record t' { messages = replace_message m t'.messages; updated_at = some now }

  unfoldable pub upsert : ℕ → String → Message Num → Method Num (Unit {0})
  upsert now id m = do t ← load_locked id; save_locked (upserted now id m t)

  -- The last `limit` messages; a limit of 0 stands for every number that is not positive.
  unfoldable pub last_of : ℕ → List (Message Num) → List (Message Num)
  last_of zero ms = ms
  last_of (suc n) ms = drop (length ms - suc n) ms

  unfoldable pub list_messages : String → ℕ → Method Num (List (Message Num))
  list_messages id limit = do t ← load_locked id; pure (last_of limit t.messages)

  -- os.Stat: any error reads as a missing file.
  pub history_exists : String → Store Num → Result Error Bool × Store Num
  history_exists id s = elim (Disk.read folder_dec history id s.transcripts) [
    | none ↦ (ok false, s)
    | some _ ↦ elim s.faults [
      | [] ↦ (ok true, s)
      | refused ∷ rest ↦ elim refused [
        | true ↦ (ok false, record s { faults = rest })
        | false ↦ (ok true, record s { faults = rest })
      ]
    ]
  ]

  abbrev new_session : ℕ → String → Transcript Num
  new_session now id = record {
    session_id = id;
    title = "New Session";
    created_at = some now;
    updated_at = some now;
    archived_at = none;
    messages = [];
  }

  unfoldable pub ensure_session : ℕ → String → Method Num (Unit {0})
  unfolding history_exists
  ensure_session now id = do
    found ← history_exists id
    if found then pure tt else save_locked (new_session now id)

  unfoldable pub rename_session : ℕ → String → String → Method Num (Unit {0})
  unfolding history_exists
  rename_session now id title = do
    found ← history_exists id
    if found
        then (do
          t ← load_locked id
          save_locked (record t { title = given_title title; updated_at = some now }))
        else raise not_exist
