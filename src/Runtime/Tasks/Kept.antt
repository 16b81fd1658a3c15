-- ===== src/Runtime/Tasks/Kept.antt =====
-- Predicates that every operation of internal/airuntime/store.go keeps: that the files are tidy, and
-- that a task is there, where no operation is refused.
use mnemosyne_os.Base.{
  ℕ, String, ◌≡◌, ◌≢◌, ◌∙◌, sym, subst, some, List, [], ◌∷◌, map, arith, Option-cases, inl, inr,
}
use mnemosyne_os.Base.Disk
use mnemosyne_os.Base.Disk.Laws.{
  IsStored, moved-IsStored, Absent, read_of_Absent, Absent-remove, All_at, read-write, read-find_in,
}
use mnemosyne_os.Base.Exec.{pure, ◌>>=◌, Preserves, Preserves-bind, preserving}
use mnemosyne_os.Runtime.{
  TaskState, inbox, state_dec, Task, CreateTaskRequest, RuntimeState, Files, Store, attempt,
}
use mnemosyne_os.Runtime.Tasks.{
  all_states, load_state, save_state, find_task, get_task, new_task, create_task, task_id_at,
  remove_task, write_task, Mutation, move_task, list_tasks, gather, read_directory, attempt_each,
}
use mnemosyne_os.Runtime.Tasks.Laws.{moved, filed}
use mnemosyne_os.Runtime.Tasks.Tidy.{
  IsTidy, TidyFiles, TidyFiles-write, TidyFiles-remove, IsPlaced, KeepsId, move_task-IsTidy,
  get_task-IsTidy, load_state-IsTidy, save_state-IsTidy, list_tasks-IsTidy,
}

-- What the operations on the store keep, whatever is done with them.
pub record IsKept (P : Store → Type 0) : Type 0 where
  pub moves :
      (now : ℕ) (id : String) (next : TaskState) (mutate : Mutation)
      → KeepsId mutate
      → Preserves P (move_task now id next mutate)
  pub gets : (id : String) → Preserves P (get_task id)
  pub loads : Preserves P load_state
  pub saves : (now : ℕ) (r : RuntimeState) → Preserves P (save_state now r)
  pub lists : Preserves P list_tasks

pub IsTidy-IsKept : IsKept IsTidy
IsTidy-IsKept = record {
  moves = move_task-IsTidy;
  gets = get_task-IsTidy;
  loads = load_state-IsTidy;
  saves = save_state-IsTidy;
  lists = list_tasks-IsTidy;
}

-- Every task of the first store is in the second.
abbrev pub KeepsTasks : Store → Store → Type 0
KeepsTasks s t = (id : String) → IsStored state_dec id s.tasks → IsStored state_dec id t.tasks

-- What holds of the files, where no operation is refused.
abbrev pub Calm : (Files → Type 0) → Store → Type 0
Calm Q s = Q s.tasks × (s.faults ≡ [])

module _ (Q : Files → Type 0) where
  attempt-Calm : Preserves (Calm Q) attempt
  attempt-Calm = record { after = λ s h. ground (arith, h.0, h.1) }

  get_task-Calm : (id : String) → Preserves (Calm Q) (get_task id)
  unfolding get_task find_task
  get_task-Calm id = record { after = λ s h. ground (arith, h.0, h.1) }

  load_state-Calm : Preserves (Calm Q) load_state
  unfolding load_state
  load_state-Calm = record { after = λ s h. ground (arith, h.0, h.1) }

  save_state-Calm : (now : ℕ) (r : RuntimeState) → Preserves (Calm Q) (save_state now r)
  unfolding save_state
  save_state-Calm now r = record { after = λ s h. ground (arith, h.0, h.1) }

  attempt_each-Calm : (ts : List Task) → Preserves (Calm Q) (attempt_each ts)
  unfolding attempt_each
  attempt_each-Calm [] = search preserving
  attempt_each-Calm (t ∷ ts) =
      Preserves-bind attempt (λ _. attempt_each ts >>= λ rest. pure (t ∷ rest)) attempt-Calm
        (λ _. search (preserving, attempt_each-Calm ts))

  read_directory-Calm : (d : TaskState) → Preserves (Calm Q) (read_directory d)
  unfolding read_directory
  read_directory-Calm d = record {
    after = λ s h.
        (Preserves-bind attempt
            (λ _. attempt_each (map (λ e. e.body) (Disk.list state_dec d s.tasks))) attempt-Calm
            (λ _. attempt_each-Calm _)).after
          s h;
  }

  gather-Calm : (ds : List TaskState) → Preserves (Calm Q) (gather ds)
  unfolding gather
  gather-Calm [] = search preserving
  gather-Calm (d ∷ ds) = search (preserving, read_directory-Calm d, gather-Calm ds)

  list_tasks-Calm : Preserves (Calm Q) list_tasks
  unfolding list_tasks
  list_tasks-Calm = search (preserving, gather-Calm)

  move_task-Calm :
      (now : ℕ) (id : String) (next : TaskState) (mutate : Mutation) (s : Store)
      → Calm Q s
      → ((d : TaskState) (t u : Task)
          → Disk.read state_dec d id s.tasks ≡ some t
          → mutate t ≡ some u
          → Q (
              Disk.write state_dec next u.task_id
                (filed (moved now next u))
                (Disk.remove state_dec d id s.tasks)))
      → Calm Q (move_task now id next mutate s).1
  unfolding move_task find_task remove_task write_task
  move_task-Calm now id next mutate s h complete =
      elim (Option-cases (Disk.find_in state_dec all_states id s.tasks)) [
        | inl e ↦ ground (arith, h.0, h.1)
        | inr ((d, t), e) ↦
            let held = read-find_in state_dec all_states id s.tasks e in
            elim (Option-cases (mutate t)) [
              | inl m ↦ ground (arith, h.0, h.1)
              | inr (u, m) ↦ ground (arith, h.1, complete d t u held m)
            ]
      ]

-- A tidy set of files that has the task.
pub record Has (id : String) (k : Files) : Type 0 where
  pub tidy : TidyFiles k
  pub stored : IsStored state_dec id k

pub Has-IsKept : (id : String) → IsKept (Calm (Has id))
Has-IsKept id = record {
  moves = λ now named next mutate keeps. record {
    after = λ s h. move_task-Calm (Has id) now named next mutate s h (λ d t u held m.
        let same : t.task_id ≡ named =
          (All_at state_dec IsPlaced d named s.tasks h.0.tidy.placed held).by_name in
        let kept : u.task_id ≡ named = keeps t u m ∙ same in
        record {
          tidy =
              TidyFiles-write (filed (moved now next u)) (Disk.remove state_dec d named s.tasks)
                (rw kept (Absent-remove state_dec d named s.tasks h.0.tidy.distinct held))
                (TidyFiles-remove d named s.tasks h.0.tidy);
          stored =
              subst
                (λ n. IsStored state_dec id (
                  Disk.write state_dec next n (filed (moved now next u))
                    (Disk.remove state_dec d named s.tasks)))
                (sym kept)
                (moved-IsStored state_dec id named d next (filed (moved now next u)) s.tasks
                  h.0.stored);
        });
  };
  gets = get_task-Calm (Has id);
  loads = load_state-Calm (Has id);
  saves = save_state-Calm (Has id);
  lists = list_tasks-Calm (Has id);
}

-- A new task does not replace one that is there.
pub create_task-Calm :
    (id : String) (now : ℕ) (req : CreateTaskRequest) (s : Store)
    → Calm (Has id) s
    → Absent (task_id_at now) s.tasks
    → Calm (Has id) (create_task now req s).1
unfolding create_task write_task new_task
create_task-Calm id now req s h a =
    let (c, q, there) = h.0.stored in
    let x = filed (new_task now req) in
    let other : task_id_at now ≢ id = λ same.
      absurd (ground (arith, there, read_of_Absent state_dec c id s.tasks (rw same at a))) in
    let kept : Disk.read state_dec c id (Disk.write state_dec inbox (task_id_at now) x s.tasks)
        ≡ some q =
      ground (arith, other, there, read-write state_dec inbox c (task_id_at now) id x s.tasks) in
    let has : Has id (Disk.write state_dec inbox (task_id_at now) x s.tasks) = record {
      tidy = TidyFiles-write x s.tasks a h.0.tidy;
      stored = (c, q, kept);
    } in
    ground (arith, h.0, h.1, has)
