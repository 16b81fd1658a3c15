-- ===== src/Runtime/Orchestrator/Moves.antt =====
-- What activating, requeueing and denying a task guarantee when they return.
use mnemosyne_os.Base.{ℕ, String, ◌≡◌, ◌≢◌, refl, false, Option, none, some, [], arith, not}
use mnemosyne_os.Base.Disk
use mnemosyne_os.Base.Disk.Laws.{read-write}
use mnemosyne_os.Base.Result.{err}
use mnemosyne_os.Base.Exec.{Triple, Triple-raise, Triple-if, Triple-pure, Triple-bind}
use mnemosyne_os.Runtime.{
  TaskState, planned, active, state_dec, nil_map, not_requeueable, Task, RuntimeState, busy, Files,
  Store,
}
use mnemosyne_os.Runtime.Tasks.{load_state, save_state, find_task, get_task, Mutation, move_task}
use mnemosyne_os.Runtime.Tasks.Laws.{moved, filed, find_in_states}
use mnemosyne_os.Runtime.Tasks.Tidy.{IsTidy}
use mnemosyne_os.Runtime.Tasks.Triples.{View, On, load_state_triple, move_task_triple}
use mnemosyne_os.Runtime.Orchestrator.{
  activation, activate_task, release_current, requeue_task, is_requeueable, approve_task, approval,
  deny_task,
}

-- The task stands in its file, in the directory of the state.
abbrev pub IsFiled : TaskState → Task → View
IsFiled d t k q = (t.state ≡ d) × (Disk.read state_dec d t.task_id k ≡ some (filed t))

-- The runtime is busy with the task.
abbrev pub IsBusyWith : Task → View
IsBusyWith t k q =
    IsFiled active t k q
    × ((r : RuntimeState) × (q ≡ some r) × (r.status ≡ busy) × (r.active_task_id ≡ some t.task_id))

moved-IsFiled :
    (now : ℕ) (d : TaskState) (u : Task) (k : Files) (q : Option RuntimeState)
    → IsFiled d (moved now d u) (Disk.write state_dec d u.task_id (filed (moved now d u)) k) q
moved-IsFiled now d u k q =
    (refl, ground (arith, read-write state_dec d d u.task_id u.task_id (filed (moved now d u)) k))

pub move_task-IsFiled :
    (P : View) (now : ℕ) (id : String) (next : TaskState) (mutate : Mutation)
    → Triple (On P) (move_task now id next mutate) (λ t. On (IsFiled next t))
move_task-IsFiled P now id next mutate =
    move_task_triple P (IsFiled next) now id next mutate
      (λ k q d t u p held m. moved-IsFiled now next u (Disk.remove state_dec d id k) q)

saved_busy :
    (now : ℕ) (t : Task) (r : RuntimeState)
    → Triple
        (λ s. On (IsFiled active t) s × (s.runtime ≡ some r))
        (save_state now (record r { status = busy; active_task_id = some t.task_id }))
        (λ _. On (IsBusyWith t))
unfolding save_state
saved_busy now t r = record {
  after = λ s a p e. (
    (p.0.0, ground arith),
    (
      record r { status = busy; active_task_id = some t.task_id; updated_at = now },
      ground arith,
      refl,
      refl,
    ),
  );
}

-- When a task has been activated, its file is among the active ones and the runtime is busy with
-- it.
pub activate_task_triple :
    (now : ℕ) (id : String) → Triple (λ _. Unit) (activate_task now id) (λ t. On (IsBusyWith t))
unfolding activate_task
activate_task_triple now id =
    Triple-bind (λ t. On (IsFiled active t)) (move_task now id active activation) _
      (move_task-IsFiled (λ _ _. Unit) now id active activation)
      λ t.
        Triple-bind (λ r s. On (IsFiled active t) s × (s.runtime ≡ some r)) load_state _
          (load_state_triple (IsFiled active t))
          λ r.
            Triple-bind (λ _. On (IsBusyWith t)) _ _ (saved_busy now t r)
              λ _. Triple-pure t (λ s h. h)

-- The runtime does not name the task.
abbrev pub IsReleased : String → View
IsReleased id k q = (r : RuntimeState) → q ≡ some r → r.active_task_id ≢ some id

release_current-IsReleased :
    (now : ℕ) (id : String) (r : RuntimeState)
    → Triple (λ s. s.runtime ≡ some r) (release_current now id r) (λ _. On (IsReleased id))
unfolding release_current save_state
release_current-IsReleased now id r = record { after = λ s a p e q h. ground arith }

-- A requeued task stands among the planned ones, and the runtime does not name it any more.
pub requeue_task_triple :
    (now : ℕ) (id trigger : String) (mutate : Mutation)
    → Triple
        (λ _. Unit)
        (requeue_task now id trigger mutate)
        (λ t. On (λ k q. IsFiled planned t k q × IsReleased id k q))
unfolding requeue_task
requeue_task_triple now id trigger mutate =
    Triple-bind (λ _ _. Unit) (get_task id) _ (record { after = λ s a p e. tt })
      λ t.
        Triple-if (not (is_requeueable t.state)) _ _ (λ _. Triple-raise not_requeueable)
          λ _.
            Triple-bind (λ r s. s.runtime ≡ some r) load_state _
              (record { after = λ s r p e. ((load_state_triple (λ _ _. Unit)).after s r tt e).1 })
              λ r.
                Triple-bind (λ _. On (IsReleased id)) (release_current now id r) _
                  (release_current-IsReleased now id r)
                  λ _. move_task_triple (IsReleased id) _ now id planned _ (λ k q d old u p held m.
                    (moved-IsFiled now planned u (Disk.remove state_dec d id k) q, p))

-- In a tidy store and with no operation refused, a task that is done, archived or still in the
-- inbox is not requeued, and nothing changes.
pub requeue_task_refused :
    (now : ℕ) (id trigger : String) (mutate : Mutation) (s : Store) (d : TaskState) (t : Task)
    → IsTidy s
    → s.faults ≡ []
    → Disk.read state_dec d id s.tasks ≡ some t
    → is_requeueable t.state ≡ false
    → requeue_task now id trigger mutate s ≡ (err not_requeueable, s)
unfolding requeue_task get_task find_task
requeue_task_refused now id trigger mutate s d t h f held no_way =
    ground (arith, find_in_states d id s.tasks {t = t} h.distinct held)

-- Approving takes a task through the planned ones to the active one that the runtime is busy with.
pub approve_task_triple :
    (now : ℕ) (id by : String)
    → Triple (λ _. Unit) (approve_task now id by) (λ t. On (IsBusyWith t))
unfolding approve_task
approve_task_triple now id by =
    Triple-bind (λ _ _. Unit) (requeue_task now id "approval_granted" (approval by)) _
      (record { after = λ s a p e. tt }) (λ t. activate_task_triple now t.task_id)

-- In a tidy store and with no operation refused, a task whose file names no metadata cannot be
-- denied: the write to the nil map panics.
pub deny_task_panics :
    (now : ℕ) (id by reason : String) (s : Store) (d : TaskState) (t : Task)
    → IsTidy s
    → s.faults ≡ []
    → Disk.read state_dec d id s.tasks ≡ some t
    → t.metadata ≡ none
    → deny_task now id by reason s ≡ (err nil_map, s)
unfolding deny_task move_task find_task
deny_task_panics now id by reason s d t h f held m =
    ground (arith, find_in_states d id s.tasks {t = t} h.distinct held)
