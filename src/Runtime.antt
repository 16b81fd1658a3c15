-- ===== src/Runtime.antt =====
-- internal/airuntime: the tasks, one file each in a directory named for the task's state, and the
-- file of the runtime's own state.
pub mod Tasks
pub mod Counter
pub mod Skill
pub mod Folders
pub mod Orchestrator
mod Tests
use mnemosyne_os.Base.{ℕ, String, Bool, true, false, Option, none, some, List, [], ◌∷◌}
use mnemosyne_os.Base.Disk.{Entry}
use mnemosyne_os.Base.Exec.{Exec, pure, raise}

pub data TaskState : Type 0 where
  inbox planned active blocked awaiting_approval done failed archived : TaskState

unfoldable pub state_dec : Discrete TaskState
state_dec = hlevel

pub data Error : Type 0 where
  task_not_found invalid_input io_error not_requeueable nil_map : Error

-- `none` is a nil map.
pub record Task : Type 0 where
  pub task_id : String
  pub title : String
  pub goal : String
  pub state : TaskState
  pub created_at : ℕ
  pub updated_at : ℕ
  pub requested_by : String
  pub source : String
  pub execution_profile : String
  pub requires_approval : Bool
  pub selected_skill : String
  pub next_action : String
  pub failure_reason : String
  pub metadata : Option (List (String × String))

pub record CreateTaskRequest : Type 0 where
  pub title : String
  pub goal : String
  pub requested_by : String
  pub source : String
  pub execution_profile : String
  pub requires_approval : Bool
  pub selected_skill : String
  pub metadata : Option (List (String × String))

pub data RuntimeStatus : Type 0 where
  idle busy : RuntimeStatus

pub record RuntimeState : Type 0 where
  pub runtime_id : String
  pub active_user_id : String
  pub session_id : Option String
  pub status : RuntimeStatus
  pub active_task_id : Option String
  pub execution_profile : String
  pub updated_at : ℕ

abbrev pub Files : Type 0
Files = List (Entry TaskState Task)

-- `faults` says of the file operations to come which ones the operating system refuses; beyond its
-- end none is refused. `runtime` is `none` where there is no file.
pub record Store : Type 0 where
  pub tasks : Files
  pub runtime : Option RuntimeState
  pub faults : List Bool

abbrev pub Method : Type 0 → Type 0
Method = Exec Store Error

-- One file operation: refused, or allowed to go on.
abbrev pub attempt : Method (Unit {0})
attempt s = elim s.faults [
  | [] ↦ pure tt s
  | refused ∷ rest ↦ elim refused [
    | true ↦ raise io_error (record s { faults = rest })
    | false ↦ pure tt (record s { faults = rest })
  ]
]
