-- ===== src/Runtime/Tasks.antt =====
-- internal/airuntime/store.go
pub mod Laws
pub mod Triples
pub mod Tidy
pub mod Kept
use Prim.Native.String.{◌++◌ as text_append}
use mnemosyne_os.Base.{
  ℕ, String, Bool, true, false, ◌||◌, Option, none, some, List, [], ◌∷◌, ◌++◌, map, ltb,
  if◌then◌else◌,
}
use mnemosyne_os.Base.Text.{trim_space, is_blank}
use mnemosyne_os.Base.Number.{decimal}
use mnemosyne_os.Base.Disk
use mnemosyne_os.Base.Sort.{sort_by}
use mnemosyne_os.Base.Exec.{pure, raise, ◌>>=◌, ◌>>◌}
use mnemosyne_os.Runtime.{
  TaskState, inbox, planned, active, blocked, awaiting_approval, done, failed, archived, state_dec,
  Error, task_not_found, invalid_input, io_error, nil_map, Task, CreateTaskRequest, RuntimeState,
  Store, Method, attempt,
}

-- The first argument that is not blank, trimmed.
unfoldable pub first_non_empty : List String → String
first_non_empty [] = ""
first_non_empty (v ∷ vs) =
    let rest = first_non_empty vs in if is_blank v then rest else trim_space v

fetch_runtime : Method RuntimeState
fetch_runtime s = elim s.runtime [ none ↦ raise io_error s | some r ↦ pure r s ]

unfoldable pub load_state : Method RuntimeState
unfolding fetch_runtime
load_state = do attempt; fetch_runtime

put_runtime : RuntimeState → Method (Unit {0})
put_runtime r s = pure tt (record s { runtime = some r })

unfoldable pub save_state : ℕ → RuntimeState → Method (Unit {0})
unfolding put_runtime
save_state now r = do attempt; put_runtime (record r { updated_at = now })

-- `metadata,omitempty`: an empty map is left out of the file, and comes back nil.
abbrev pub omit_empty : Option (List (String × String)) → Option (List (String × String))
omit_empty (some []) = none
omit_empty m = m

put_task : Task → Method (Unit {0})
put_task t s = pure tt (record s {
  tasks =
      Disk.write state_dec t.state t.task_id (record t { metadata = omit_empty t.metadata })
        s.tasks;
})

unfoldable pub write_task : Task → Method (Unit {0})
unfolding put_task
write_task t = do attempt; put_task t

drop_task : TaskState → String → Method (Unit {0})
drop_task d id s = pure tt (record s { tasks = Disk.remove state_dec d id s.tasks })

unfoldable pub remove_task : TaskState → String → Method (Unit {0})
unfolding drop_task
remove_task d id = do attempt; drop_task d id

abbrev pub all_states : List TaskState
all_states = inbox ∷ planned ∷ active ∷ blocked ∷ awaiting_approval ∷ done ∷ failed ∷ archived ∷ []

or_missing : Option (TaskState × Task) → Method (TaskState × Task)
or_missing none = raise task_not_found
or_missing (some found) = do attempt; pure found

-- The task, and the directory of its file.
unfoldable pub find_task : String → Method (TaskState × Task)
unfolding or_missing
find_task id s = or_missing (Disk.find_in state_dec all_states id s.tasks) s

unfoldable pub get_task : String → Method Task
get_task id = do found ← find_task id; pure found.1

abbrev pub task_id_at : ℕ → String
task_id_at now = text_append "task-" (decimal now)

abbrev non_nil : Option (List (String × String)) → Option (List (String × String))
non_nil none = some []
non_nil (some m) = some m

unfoldable pub new_task : ℕ → CreateTaskRequest → Task
new_task now req = record {
  task_id = task_id_at now;
  title = trim_space req.title;
  goal = trim_space req.goal;
  state = inbox;
  created_at = now;
  updated_at = now;
  requested_by = trim_space req.requested_by;
  source = trim_space req.source;
  execution_profile = first_non_empty (req.execution_profile ∷ "user" ∷ []);
  requires_approval = req.requires_approval;
  selected_skill = trim_space req.selected_skill;
  next_action = "";
  failure_reason = "";
  metadata = non_nil req.metadata;
}

unfoldable pub create_task : ℕ → CreateTaskRequest → Method Task
create_task now req =
    if is_blank req.title || is_blank req.goal
    then raise invalid_input
    else do let task = new_task now req; write_task task; pure task

-- A change of a task that may panic.
abbrev pub Mutation : Type 0
Mutation = Task → Option Task

or_panic : Option Task → Method Task
or_panic none = raise nil_map
or_panic (some t) = pure t

unfoldable pub move_task : ℕ → String → TaskState → Mutation → Method Task
unfolding or_panic
move_task now id next mutate = do
  (dir, t) ← find_task id
  changed ← or_panic (mutate t)
  let moved = record changed { state = next; updated_at = now }
  remove_task dir id
  write_task moved
  pure moved

abbrev open_states : List TaskState
open_states = inbox ∷ planned ∷ active ∷ blocked ∷ awaiting_approval ∷ done ∷ failed ∷ []

-- One attempt for the directory, and one for each of its files.
attempt_each : List Task → Method (List Task)
attempt_each [] = pure []
attempt_each (t ∷ ts) = do attempt; rest ← attempt_each ts; pure (t ∷ rest)

read_directory : TaskState → Method (List Task)
unfolding attempt_each
read_directory d s =
    (do attempt; attempt_each (map (λ e. e.body) (Disk.list state_dec d s.tasks))) s

gather : List TaskState → Method (List Task)
unfolding read_directory
gather [] = pure []
gather (d ∷ ds) = do here ← read_directory d; rest ← gather ds; pure (here ++ rest)

abbrev pub is_newer : Task → Task → Bool
is_newer a b = ltb b.created_at a.created_at

-- `ListTasks`: all but the archived tasks, newest first.
unfoldable pub list_tasks : Method (List Task)
unfolding gather
list_tasks = do found ← gather open_states; pure (sort_by is_newer found)
