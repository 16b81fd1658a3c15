-- ===== src/Runtime/Tasks/Tidy.antt =====
-- What holds of the task files between two calls, whichever file operations are refused.
use mnemosyne_os.Base.{ℕ, String, ◌≡◌, ◌≢◌, refl, ◌∙◌, some, List, [], ◌∷◌, map, arith, All}
use mnemosyne_os.Base.Disk
use mnemosyne_os.Base.Disk.{Entry}
use mnemosyne_os.Base.Disk.Laws.{
  Absent, Distinct, All-remove, All-write, All_at, Distinct-remove, Distinct-write, Absent-remove,
}
use mnemosyne_os.Base.Exec.{pure, ◌>>=◌, Preserves, Preserves-bind, preserving}
use mnemosyne_os.Runtime.{
  TaskState, state_dec, Task, CreateTaskRequest, RuntimeState, Files, Store, attempt,
}
use mnemosyne_os.Runtime.Tasks.{
  load_state, save_state, get_task, new_task, create_task, task_id_at, write_task, Mutation,
  move_task, list_tasks, gather, read_directory, attempt_each,
}
use mnemosyne_os.Runtime.Tasks.Laws.{moved, filed, move_task_cases, get_task_same}

-- A file stands in the directory of its task's state, under its task's name.
pub record IsPlaced (e : Entry TaskState Task) : Type 0 where
  pub by_state : e.body.state ≡ e.dir
  pub by_name : e.body.task_id ≡ e.name

-- No task is in two directories.
pub record TidyFiles (k : Files) : Type 0 where
  pub placed : All IsPlaced k
  pub distinct : Distinct k

abbrev pub IsTidy : Store → Type 0
IsTidy s = TidyFiles s.tasks

abbrev pub KeepsId : Mutation → Type 0
KeepsId mutate = (t u : Task) → mutate t ≡ some u → u.task_id ≡ t.task_id

pub TidyFiles-remove :
    (d : TaskState) (n : String) (k : Files) → TidyFiles k → TidyFiles (Disk.remove state_dec d n k)
TidyFiles-remove d n k h = record {
  placed = All-remove state_dec IsPlaced d n k h.placed;
  distinct = Distinct-remove state_dec d n k h.distinct;
}

pub TidyFiles-write :
    (t : Task) (k : Files)
    → Absent t.task_id k
    → TidyFiles k
    → TidyFiles (Disk.write state_dec t.state t.task_id t k)
TidyFiles-write t k a h = record {
  placed =
      All-write state_dec IsPlaced t.state t.task_id t k
        (record { by_state = refl; by_name = refl }) h.placed;
  distinct =
      Distinct-write state_dec t.state t.task_id t k
        (All-remove state_dec (λ x. x.name ≢ t.task_id) _ _ k a) h.distinct;
}

pub move_task-IsTidy :
    (now : ℕ) (id : String) (next : TaskState) (mutate : Mutation)
    → KeepsId mutate
    → Preserves IsTidy (move_task now id next mutate)
move_task-IsTidy now id next mutate keeps = record {
  after = λ s h.
      move_task_cases TidyFiles now id next mutate s h (λ d t held. TidyFiles-remove d id s.tasks h)
        (λ d t u held m.
          let named : t.task_id ≡ id =
            (All_at state_dec IsPlaced d id s.tasks h.placed held).by_name in
          TidyFiles-write (filed (moved now next u)) (Disk.remove state_dec d id s.tasks)
            (rw (keeps t u m ∙ named) (Absent-remove state_dec d id s.tasks h.distinct held))
            (TidyFiles-remove d id s.tasks h));
}

pub get_task-IsTidy : (id : String) → Preserves IsTidy (get_task id)
get_task-IsTidy id = record { after = λ s h. rw (get_task_same id s).0 h }

pub load_state-IsTidy : Preserves IsTidy load_state
unfolding load_state
load_state-IsTidy = record { after = λ s h. ground arith }

pub save_state-IsTidy : (now : ℕ) (r : RuntimeState) → Preserves IsTidy (save_state now r)
unfolding save_state
save_state-IsTidy now r = record { after = λ s h. ground arith }

attempt-IsTidy : Preserves IsTidy attempt
attempt-IsTidy = record { after = λ s h. ground arith }

attempt_each-IsTidy : (ts : List Task) → Preserves IsTidy (attempt_each ts)
unfolding attempt_each
attempt_each-IsTidy [] = search preserving
attempt_each-IsTidy (t ∷ ts) =
    Preserves-bind attempt (λ _. attempt_each ts >>= λ rest. pure (t ∷ rest)) attempt-IsTidy
      (λ _. search (preserving, attempt_each-IsTidy ts))

read_directory-IsTidy : (d : TaskState) → Preserves IsTidy (read_directory d)
unfolding read_directory
read_directory-IsTidy d = record {
  after = λ s h.
      (Preserves-bind attempt
          (λ _. attempt_each (map (λ e. e.body) (Disk.list state_dec d s.tasks))) attempt-IsTidy
          (λ _. attempt_each-IsTidy _)).after
        s h;
}

gather-IsTidy : (ds : List TaskState) → Preserves IsTidy (gather ds)
unfolding gather
gather-IsTidy [] = search preserving
gather-IsTidy (d ∷ ds) = search (preserving, read_directory-IsTidy d, gather-IsTidy ds)

pub list_tasks-IsTidy : Preserves IsTidy list_tasks
unfolding list_tasks
list_tasks-IsTidy = search (preserving, gather-IsTidy)

-- A new task is filed under a new name.
pub create_task-IsTidy :
    (now : ℕ) (req : CreateTaskRequest) (s : Store)
    → IsTidy s
    → Absent (task_id_at now) s.tasks
    → IsTidy (create_task now req s).1
unfolding create_task write_task new_task
create_task-IsTidy now req s h a =
    ground (arith, TidyFiles-write (filed (new_task now req)) s.tasks a h)
