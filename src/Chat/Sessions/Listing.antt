-- ===== src/Chat/Sessions/Listing.antt =====
-- internal/chat/store.go: the summaries of the sessions of a folder.
use mnemosyne_os.Base.{
  ℕ, zero, suc, String, Bool, true, false, Option, none, some, List, [], ◌∷◌, if◌then◌else◌, ltb,
  length, ◌&&◌, not, take,
}
use mnemosyne_os.Base.Disk
use mnemosyne_os.Base.Disk.{Entry, text_lt}
use mnemosyne_os.Base.Sort.{sort_by}
use mnemosyne_os.Base.Text.{trim_space, is_blank}
use mnemosyne_os.Base.Exec.{pure, raise, ◌>>=◌, ◌>>◌}
use mnemosyne_os.Chat.{
  Transcript, SessionSummary, Document, blank, damaged, whole, Folder, history, archive, folder_dec,
  decode_error, Method, try_operation,
}

abbrev first_non_empty : String → String → String
first_non_empty a b = if is_blank a then (if is_blank b then "" else trim_space b) else trim_space a

-- The zero time is before every other.
abbrev before : Option ℕ → Option ℕ → Bool
before none none = false
before none (some u) = true
before (some t) none = false
before (some t) (some u) = ltb t u

abbrev pub newer : SessionSummary → SessionSummary → Bool
newer a b =
    if not (before a.updated_at b.updated_at) && not (before b.updated_at a.updated_at)
    then text_lt b.session_id a.session_id
    else before b.updated_at a.updated_at

-- A limit of 0 stands for every number that is not positive.
clip : ℕ → List SessionSummary → List SessionSummary
clip zero xs = xs
clip (suc n) xs = take (suc n) xs

module _ {Num : Type 0} where
  unfoldable pub summary_of : Transcript Num → SessionSummary
  summary_of t = record {
    session_id = t.session_id;
    title = first_non_empty t.title t.session_id;
    created_at = t.created_at;
    updated_at = t.updated_at;
    message_count = length t.messages;
  }

  summary_in : Document (Transcript Num) → Method Num SessionSummary
  unfolding summary_of
  summary_in blank = raise decode_error
  summary_in damaged = raise decode_error
  summary_in (whole t) = pure (summary_of t)

  read_summaries :
      List (Entry Folder (Document (Transcript Num))) → Method Num (List SessionSummary)
  unfolding summary_in
  read_summaries [] = pure []
  read_summaries (e ∷ es) = do
    try_operation
    first ← summary_in e.body
    rest ← read_summaries es
    pure (first ∷ rest)

  -- `listSessionsLocked`
  unfoldable pub list_sessions : Folder → ℕ → Method Num (List SessionSummary)
  unfolding read_summaries clip
  list_sessions d limit s =
      (do
        try_operation
        found ← read_summaries (Disk.list folder_dec d s.transcripts)
        pure (clip limit (sort_by newer found)))
        s

  -- `Sessions` and `ArchivedSessions`
  abbrev pub sessions : ℕ → Method Num (List SessionSummary)
  sessions = list_sessions history

  abbrev pub archived_sessions : ℕ → Method Num (List SessionSummary)
  archived_sessions = list_sessions archive
