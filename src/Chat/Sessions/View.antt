-- ===== src/Chat/Sessions/View.antt =====
-- What the sessions are for a reader: the messages of each live and of each archived session. The
-- methods of internal/chat/store.go, called one after the other, on that view.
use mnemosyne_os.Base.{
  ℕ, String, ◌≡◌, Bool, true, false, ◌||◌, Option, none, some, List, [], ◌∷◌, ◌++◌, if◌then◌else◌,
  decided, str_dec,
}
use mnemosyne_os.Base.Assoc
use mnemosyne_os.Base.Result.{Result, ok, err}
use mnemosyne_os.Base.Disk
use mnemosyne_os.Chat.{
  Message, Transcript, Document, blank, damaged, whole, Folder, history, archive, folder_dec, Error,
  not_exist, Store, Method,
}
use mnemosyne_os.Chat.Sessions.{append, upsert, replace_message, ensure_session, rename_session}
use mnemosyne_os.Chat.Sessions.Lifecycle.{archive_session, restore_session, delete_session}

pub record View (Num : Type 0) : Type 0 where
  pub live : String → Option (List (Message Num))
  pub shelved : String → Option (List (Message Num))
  pub noted : String → Bool

abbrev pub is_some {ℓ} : {A : Type ℓ} → Option A → Bool
is_some none = false
is_some (some _) = true

module _ {Num : Type 0} where
  abbrev pub contents : Option (Document (Transcript Num)) → Option (List (Message Num))
  contents none = none
  contents (some blank) = some []
  contents (some damaged) = some []
  contents (some (whole t)) = some t.messages

  abbrev pub view : Store Num → View Num
  view s = record {
    live = λ id. contents (Disk.read folder_dec history id s.transcripts);
    shelved = λ id. contents (Disk.read folder_dec archive id s.transcripts);
    noted = λ id. is_some (Assoc.get str_dec id s.states);
  }

  -- A file is a transcript that names its own session.
  abbrev pub IsOwn : String → Option (Document (Transcript Num)) → Type 0
  IsOwn id none = Unit
  IsOwn id (some blank) = ⊥
  IsOwn id (some damaged) = ⊥
  IsOwn id (some (whole t)) = t.session_id ≡ id

  pub record IsSound (s : Store Num) : Type 0 where
    pub own : (d : Folder) (id : String) → IsOwn id (Disk.read folder_dec d id s.transcripts)

pub data Call (Num : Type 0) : Type 0 where
  append_call upsert_call : (now : ℕ) (id : String) → Message Num → Call Num
  ensure_call archive_call restore_call : (now : ℕ) (id : String) → Call Num
  rename_call : (now : ℕ) (id title : String) → Call Num
  delete_call : (id : String) → Call Num

abbrev pub at {ℓ} : {A : Type ℓ} → String → A → (String → A) → String → A
at id a f j = if decided (str_dec id j) then a else f j

abbrev pub provided {ℓ} : {A B : Type ℓ} → Option A → (A → B) → Option B
provided none f = none
provided (some a) f = some (f a)

module _ {Num : Type 0} where
  unfoldable pub perform : Call Num → Method Num (Unit {0})
  perform (append_call now id m) = append now id m
  perform (upsert_call now id m) = upsert now id m
  perform (ensure_call now id) = ensure_session now id
  perform (archive_call now id) = archive_session now id
  perform (restore_call now id) = restore_session now id
  perform (rename_call now id title) = rename_session now id title
  perform (delete_call id) = delete_session id

  abbrev pub or_empty : Option (List (Message Num)) → List (Message Num)
  or_empty none = []
  or_empty (some ms) = ms

  -- `none` where the session is missing.
  unfoldable pub specified : Call Num → View Num → Option (View Num)
  specified (append_call now id m) v =
      some (record v { live = at id (some (or_empty (v.live id) ++ m ∷ [])) v.live })
  specified (upsert_call now id m) v =
      some (record v { live = at id (some (replace_message m (or_empty (v.live id)))) v.live })
  specified (ensure_call now id) v =
      some (record v { live = at id (some (or_empty (v.live id))) v.live })
  specified (archive_call now id) v = provided (v.live id) (λ ms. record {
    live = at id none v.live;
    shelved = at id (some ms) v.shelved;
    noted = at id false v.noted;
  })
  specified (restore_call now id) v =
      provided (v.shelved id)
        (λ ms. record v { live = at id (some ms) v.live; shelved = at id none v.shelved })
  specified (rename_call now id title) v = provided (v.live id) (λ _. v)
  specified (delete_call id) v =
      if v.noted id || is_some (v.live id) || is_some (v.shelved id)
      then some (record {
        live = at id none v.live;
        shelved = at id none v.shelved;
        noted = at id false v.noted;
      })
      else none

  -- The methods do to the store what is specified for its view.
  abbrev pub Agrees : Option (View Num) → Result Error (Unit {0}) × Store Num → Store Num → Type 0
  Agrees none r s = r ≡ (err not_exist, s)
  Agrees (some v) r s =
      (r.0 ≡ ok tt)
      × (r.1.faults ≡ [])
      × ((id : String) → (view r.1).live id ≡ v.live id)
      × ((id : String) → (view r.1).shelved id ≡ v.shelved id)
      × ((id : String) → (view r.1).noted id ≡ v.noted id)
