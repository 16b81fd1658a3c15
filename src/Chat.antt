-- ===== src/Chat.antt =====
-- internal/chat/types.go: messages, and what the files of a session hold.
pub mod Sessions
mod Tests
use mnemosyne_os.Base.{ℕ, String, Bool, true, false, Option, List, [], ◌∷◌}
use mnemosyne_os.Base.Disk.{Entry}
use mnemosyne_os.Base.Exec.{Exec, pure, raise}

pub record Link : Type 0 where
  pub label : String
  pub href : String

pub record Action : Type 0 where
  pub label : String
  pub href : String
  pub method : String

pub record ToolTraceEntry : Type 0 where
  pub tool_name : String
  pub arguments : String
  pub result_preview : String
  pub error : String

pub record TaskRef : Type 0 where
  pub task_id : String
  pub title : String
  pub state : String
  pub selected_skill : String

pub record RecallRef : Type 0 where
  pub source : String
  pub card_id : String
  pub card_type : String
  pub snippet : String

pub record Context : Type 0 where
  pub recent_tasks : List TaskRef
  pub working_notes : List String
  pub semantic_hits : List RecallRef
  pub procedure_hits : List RecallRef
  pub recall_hits : List RecallRef

pub record Message (Num : Type 0) : Type 0 where
  pub message_id : String
  pub session_id : String
  pub role : String
  pub content : String
  pub dialogue_act : String
  pub intent_kind : String
  pub intent_reason : String
  pub intent_confidence : Num
  pub stage : String
  pub task_id : String
  pub task_state : String
  pub selected_skill : String
  pub execution_profile : String
  pub links : List Link
  pub actions : List Action
  pub context : Option Context
  pub tool_trace : List ToolTraceEntry
  pub created_at : Option ℕ

pub record SessionWorkset : Type 0 where
  pub artifact_paths : List String
  pub recall_card_ids : List String
  pub source_refs : List String
  pub focus_paths : List String

pub record SessionState : Type 0 where
  pub session_id : String
  pub topic : String
  pub focus_task_id : String
  pub pending_question : String
  pub pending_action : String
  pub last_user_act : String
  pub last_assistant_act : String
  pub working_set : SessionWorkset
  pub updated_at : Option ℕ

-- The zero time is `none`.
pub record Transcript (Num : Type 0) : Type 0 where
  pub session_id : String
  pub title : String
  pub created_at : Option ℕ
  pub updated_at : Option ℕ
  pub archived_at : Option ℕ
  pub messages : List (Message Num)

pub record SessionSummary : Type 0 where
  pub session_id : String
  pub title : String
  pub created_at : Option ℕ
  pub updated_at : Option ℕ
  pub message_count : ℕ

-- What a file may hold: nothing, bytes that are no JSON of the type, or a value.
pub data Document (A : Type 0) : Type 0 where
  blank damaged : Document A
  whole : A → Document A

pub data Folder : Type 0 where
  history archive : Folder

unfoldable pub folder_dec : Discrete Folder
folder_dec = hlevel

pub data Error : Type 0 where
  not_exist invalid decode_error io_error : Error

abbrev pub Transcripts : Type 0 → Type 0
Transcripts Num = List (Entry Folder (Document (Transcript Num)))

-- The files go by their folder and the identifier of the session, which is a plain file name.
-- `faults` says of the file operations to come which ones the operating system refuses; beyond its
-- end none is refused.
pub record Store (Num : Type 0) : Type 0 where
  pub transcripts : Transcripts Num
  pub states : List (String × Document SessionState)
  pub faults : List Bool

abbrev pub Method : Type 0 → Type 0 → Type 0
Method Num = Exec (Store Num) Error

abbrev pub try_operation : {Num : Type 0} → Method Num (Unit {0})
try_operation s = elim s.faults [
  | [] ↦ pure tt s
  | refused ∷ rest ↦ elim refused [
    | true ↦ raise io_error (record s { faults = rest })
    | false ↦ pure tt (record s { faults = rest })
  ]
]
