-- ===== src/Execution.antt =====
-- internal/execution: actions, one file each in a directory named for the action's status. The
-- approvals are those of internal/approval.
pub mod Actions
pub mod Attempts
pub mod FileAttempts
pub mod Profiles
mod Tests
use mnemosyne_os.Base.{ℕ, String, Bool, true, false, Option, none, some, List, [], ◌∷◌}
use mnemosyne_os.Base.Disk.{Entry}
use mnemosyne_os.Base.Exec.{Exec, pure, raise}

-- Go's int, where a number below 0 may occur.
pub data ℤ : Type 0 where
  pos negsuc : ℕ → ℤ

pub data ActionKind : Type 0 where
  shell file_read file_write : ActionKind

unfoldable pub kind_dec : Discrete ActionKind
kind_dec = hlevel

pub data ActionStatus : Type 0 where
  pending running completed failed : ActionStatus

unfoldable pub status_dec : Discrete ActionStatus
status_dec = hlevel

-- `no_failure` is the empty text.
pub data FailureCategory : Type 0 where
  no_failure timeout process_exit io_failure execution_failure : FailureCategory

pub data Error : Type 0 where
  action_not_found io_error denied : Error

pub record ActionAttempt : Type 0 where
  pub attempt : ℕ
  pub status : ActionStatus
  pub failure_category : FailureCategory
  pub retryable : Bool
  pub exit_code : ℤ
  pub error : String
  pub started_at : ℕ
  pub finished_at : Option ℕ

-- A nil map and an empty one read alike, and so do a nil slice and an empty one.
pub record ActionRecord : Type 0 where
  pub action_id : String
  pub task_id : String
  pub kind : ActionKind
  pub status : ActionStatus
  pub execution_profile : String
  pub command : String
  pub args : List String
  pub path : String
  pub workdir : String
  pub changed_files : List String
  pub metadata : List (String × String)
  pub attempt : ℕ
  pub attempt_history : List ActionAttempt
  pub idempotency_key : String
  pub replayed : Bool
  pub replay_of_action_id : String
  pub retryable : Bool
  pub failure_category : FailureCategory
  pub stdout : String
  pub stderr : String
  pub exit_code : ℤ
  pub error : String
  pub started_at : ℕ
  pub finished_at : Option ℕ

abbrev pub Files : Type 0
Files = List (Entry ActionStatus ActionRecord)

-- `faults` says of the file operations to come which ones the operating system refuses; beyond its
-- end none is refused.
pub record Store : Type 0 where
  pub actions : Files
  pub faults : List Bool

abbrev pub Method : Type 0 → Type 0
Method = Exec Store Error

abbrev pub try_operation : Method (Unit {0})
try_operation s = elim s.faults [
  | [] ↦ pure tt s
  | refused ∷ rest ↦ elim refused [
    | true ↦ raise io_error (record s { faults = rest })
    | false ↦ pure tt (record s { faults = rest })
  ]
]
