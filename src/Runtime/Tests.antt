-- ===== src/Runtime/Tests.antt =====
-- The theorems on tasks at concrete stores.
use mnemosyne_os.Base.{◌⊎◌, ◌≢◌, ℕ, String, ◌≡◌, refl, false, Option, none, some, [], ◌∷◌, str_dec}
use mnemosyne_os.Base.Clock.{rfc3339}
use mnemosyne_os.Base.Disk
use mnemosyne_os.Base.Text.{trim_space, contains}
use mnemosyne_os.Base.Result.{ok, err}
use mnemosyne_os.Runtime.{
  TaskState, planned, active, failed, state_dec, nil_map, Task, RuntimeState, idle, busy, Store,
}
use mnemosyne_os.Runtime.Skill.{looks_like_create_directory}
use mnemosyne_os.Runtime.Folders.{folder_is_not_recognised}
use mnemosyne_os.Runtime.Tasks.{load_state, find_task, get_task}
use mnemosyne_os.Runtime.Tasks.Laws.{moved, filed}
use mnemosyne_os.Runtime.Tasks.Tidy.{IsTidy}
use mnemosyne_os.Runtime.Tasks.Kept.{KeepsTasks}
use mnemosyne_os.Runtime.Orchestrator.{recovered_task, recover, idled, deny_task, advance}
use mnemosyne_os.Runtime.Orchestrator.Tidy.{advances, perform, perform-IsTidy}
use mnemosyne_os.Runtime.Orchestrator.Moves.{deny_task_panics}
use mnemosyne_os.Runtime.Orchestrator.Recovery.{recover_interrupted}
use mnemosyne_os.Runtime.Orchestrator.Advance.{IsUnderWay, advance-IsUnderWay}

abbrev task_in : TaskState → Task
task_in d = record {
  task_id = "task-5";
  title = "Read the notes";
  goal = "read the notes";
  state = d;
  created_at = 5;
  updated_at = 5;
  requested_by = "user";
  source = "cli";
  execution_profile = "user";
  requires_approval = false;
  selected_skill = "file-read";
  next_action = "";
  failure_reason = "";
  metadata = none;
}

abbrev runtime_of : Option String → RuntimeState
runtime_of id = record {
  runtime_id = "runtime-1";
  active_user_id = "user";
  session_id = none;
  status = elim id [ none ↦ idle | some _ ↦ busy ];
  active_task_id = id;
  execution_profile = "user";
  updated_at = 1;
}

abbrev store_of : TaskState → Option String → Store
store_of d id = record {
  tasks = record { dir = d; name = "task-5"; body = task_in d } ∷ [];
  runtime = some (runtime_of id);
  faults = [];
}

store_of-IsTidy : (d : TaskState) (id : Option String) → IsTidy (store_of d id)
store_of-IsTidy d id = record {
  placed = (record { by_state = refl; by_name = refl }, tt);
  distinct = (tt, tt);
}

recover_interrupted_example : recover 9 (store_of active (some "task-5")) ≡ (
  ok tt,
  record (store_of active (some "task-5")) {
    tasks =
        Disk.write state_dec planned "task-5"
          (filed (moved 9 planned (recovered_task 9 (task_in active))))
          (Disk.remove state_dec active "task-5" (store_of active (some "task-5")).tasks);
    runtime = some (record (idled (runtime_of (some "task-5"))) { updated_at = 9 });
  },
)
unfolding str_dec state_dec Disk.read
recover_interrupted_example =
    recover_interrupted 9 (store_of active (some "task-5")) (runtime_of (some "task-5")) "task-5"
      (task_in active) (store_of-IsTidy active (some "task-5")) refl refl refl refl

abbrev activated : Task
activated = moved 9 active (record (task_in planned) { next_action = "execute via selected skill" })

-- The failed task, as a rerun by hand takes it up again.
abbrev rerun : Task
rerun = record (task_in failed) {
  metadata = some (
      ("rerun_count", "1")
      ∷ ("last_rerun_trigger", "manual")
      ∷ ("last_rerun_from_state", "failed")
      ∷ ("last_rerun_at", rfc3339 9)
      ∷ []);
  next_action = "rerun requested";
}

deny_task_panics_example :
    deny_task 9 "task-5" "bob" "no" (store_of planned none) ≡ (err nil_map, store_of planned none)
unfolding str_dec state_dec Disk.read
deny_task_panics_example =
    deny_task_panics 9 "task-5" "bob" "no" (store_of planned none) planned (task_in planned)
      (store_of-IsTidy planned none) refl refl refl

-- The task, once it has been approved and taken up.
abbrev approved_rerun : Task
approved_rerun = record (task_in active) {
  updated_at = 9;
  metadata = some (
      ("rerun_count", "1")
      ∷ ("last_rerun_trigger", "approval_granted")
      ∷ ("last_rerun_from_state", "failed")
      ∷ ("last_rerun_at", rfc3339 9)
      ∷ ("approved_by", "alice")
      ∷ []);
  next_action = "execute via selected skill";
}

-- No letter above ASCII has another lower case.
abbrev plain : ℕ → ℕ
plain c = c

perform-IsTidy_example :
    IsTidy (perform plain (advances 9) (store_of planned none))
    × (KeepsTasks (store_of planned none) (perform plain (advances 9) (store_of planned none))
        ⊎ ((store_of planned none).faults ≢ []))
perform-IsTidy_example =
    perform-IsTidy plain (advances 9) (store_of planned none) (store_of-IsTidy planned none) tt

advance-IsUnderWay_example : IsUnderWay (task_in active)
unfolding str_dec state_dec Disk.read Disk.find_in advance load_state get_task find_task
advance-IsUnderWay_example =
    advance-IsUnderWay plain 9 (store_of active (some "task-5")) (task_in active) refl

folder_is_not_recognised_example : looks_like_create_directory plain "创建文件夹" ≡ false
unfolding trim_space contains
folder_is_not_recognised_example = folder_is_not_recognised plain "创建文件夹" refl
