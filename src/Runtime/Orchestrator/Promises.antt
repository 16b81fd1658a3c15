-- ===== src/Runtime/Orchestrator/Promises.antt =====
-- What the calls of the orchestrator promise, whichever file operations are refused, and that they
-- succeed when none is.
use mnemosyne_os.Base.{ℕ, String, ◌≡◌, true, some, [], arith, if◌then◌else◌}
use mnemosyne_os.Base.Disk
use mnemosyne_os.Base.Disk.Laws.{All_at}
use mnemosyne_os.Base.Result.{ok}
use mnemosyne_os.Runtime.{TaskState, planned, active, busy, state_dec, Task, RuntimeState, Store}
use mnemosyne_os.Runtime.Tasks.{
  load_state, save_state, find_task, get_task, Mutation, move_task, remove_task, write_task,
}
use mnemosyne_os.Runtime.Tasks.Laws.{moved, filed, find_in_states}
use mnemosyne_os.Runtime.Tasks.Tidy.{IsTidy, IsPlaced}
use mnemosyne_os.Runtime.Tasks.Triples.{On}
use mnemosyne_os.Runtime.Orchestrator.{
  activate_task, requeued, state_name, is_requeueable, release_current, is_current, idled,
  requeue_task, approve_task,
}
use mnemosyne_os.Runtime.Orchestrator.Moves.{
  IsFiled, IsBusyWith, IsReleased, activate_task_triple, requeue_task_triple, approve_task_triple,
}

-- When a task has been activated, its file is among the active ones and the runtime is busy with
-- it.
pub activate_task-IsBusyWith :
    (now : ℕ) (id : String) (s : Store) (t : Task)
    → (activate_task now id s).0 ≡ ok t
    → On (IsBusyWith t) (activate_task now id s).1
activate_task-IsBusyWith now id s t e = (activate_task_triple now id).after s t tt e

-- A requeued task stands among the planned ones, and the runtime does not name it any more.
pub requeue_task-IsReleased :
    (now : ℕ) (id trigger : String) (mutate : Mutation) (s : Store) (t : Task)
    → (requeue_task now id trigger mutate s).0 ≡ ok t
    → On (λ k q. IsFiled planned t k q × IsReleased id k q) (requeue_task now id trigger mutate s).1
requeue_task-IsReleased now id trigger mutate s t e =
    (requeue_task_triple now id trigger mutate).after s t tt e

-- An approved task ends among the active ones, with the runtime busy with it.
pub approve_task-IsBusyWith :
    (now : ℕ) (id by : String) (s : Store) (t : Task)
    → (approve_task now id by s).0 ≡ ok t
    → On (IsBusyWith t) (approve_task now id by s).1
approve_task-IsBusyWith now id by s t e = (approve_task_triple now id by).after s t tt e

-- In a tidy store and with no operation refused, a task that is found in a state is activated.
pub activate_task_found :
    (now : ℕ) (id : String) (s : Store) (d : TaskState) (t : Task) (r : RuntimeState)
    → IsTidy s
    → s.faults ≡ []
    → s.runtime ≡ some r
    → Disk.read state_dec d id s.tasks ≡ some t
    → activate_task now id s ≡ (
      ok (moved now active (record t { next_action = "execute via selected skill" })),
      record s {
        tasks =
            Disk.write state_dec active id
              (filed (moved now active (record t { next_action = "execute via selected skill" })))
              (Disk.remove state_dec d id s.tasks);
        runtime = some (record r { status = busy; active_task_id = some id; updated_at = now });
      },
    )
unfolding activate_task move_task find_task remove_task write_task load_state save_state
activate_task_found now id s d t r h f q held =
    let p = All_at state_dec IsPlaced d id s.tasks h.placed held in
    ground (arith, p.by_state, p.by_name, find_in_states d id s.tasks {t = t} h.distinct held)

-- In a tidy store and with no operation refused, a task that is found in a requeueable state is
-- requeued: the runtime lets go of it, and its file goes to the planned ones.
pub requeue_task_found :
    (now : ℕ) (id trigger : String) (mutate : Mutation) (s : Store) (d : TaskState) (t u : Task)
    (r : RuntimeState)
    → IsTidy s
    → s.faults ≡ []
    → s.runtime ≡ some r
    → Disk.read state_dec d id s.tasks ≡ some t
    → is_requeueable t.state ≡ true
    → requeued now trigger t.state state_name mutate t ≡ some u
    → u.task_id ≡ id
    → requeue_task now id trigger mutate s ≡ (
      ok (moved now planned u),
      record s {
        tasks =
            Disk.write state_dec planned id
              (filed (moved now planned u))
              (Disk.remove state_dec d id s.tasks);
        runtime = some (if is_current id r then record (idled r) { updated_at = now } else r);
      },
    )
unfolding requeue_task release_current get_task move_task find_task remove_task write_task
    load_state save_state
requeue_task_found now id trigger mutate s d t u r h f q held way m same =
    let p = All_at state_dec IsPlaced d id s.tasks h.placed held in
    ground (arith, p.by_state, find_in_states d id s.tasks {t = t} h.distinct held)
