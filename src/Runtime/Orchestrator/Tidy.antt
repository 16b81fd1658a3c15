-- ===== src/Runtime/Orchestrator/Tidy.antt =====
-- Every call of the orchestrator keeps the task files in order.
use mnemosyne_os.Base.{◌≡◌, ◌≢◌, ◌⊎◌, inl, inr, refl, Bool, ℕ, String, some, List, [], ◌∷◌, arith}
use mnemosyne_os.Base.Disk.Laws.{Absent}
use mnemosyne_os.Runtime.{CreateTaskRequest, Store}
use mnemosyne_os.Runtime.Tasks.{create_task, task_id_at}
use mnemosyne_os.Runtime.Tasks.Tidy.{IsTidy, create_task-IsTidy}
use mnemosyne_os.Runtime.Tasks.Kept.{
  IsKept, IsTidy-IsKept, KeepsTasks, Calm, Has, Has-IsKept, create_task-Calm,
}
use mnemosyne_os.Runtime.Orchestrator.Kept.{
  recover-Kept, advance-Kept, approve_task-Kept, deny_task-Kept, requeue_task-Kept,
  submit_task-Kept,
}
use mnemosyne_os.Runtime.Orchestrator.{
  recover, requeue_task, approve_task, deny_task, advance, submit_task,
}

-- A call on the orchestrator, its answer left out.
pub data Call : Type 0 where
  recovers : ℕ → Call
  submits : ℕ → CreateTaskRequest → Call
  advances : ℕ → Call
  approves : ℕ → String → String → Call
  denies : ℕ → String → String → String → Call
  requeues : ℕ → String → String → Call

module _ (fold : ℕ → ℕ) where
  unfoldable pub perform : Call → Store → Store
  perform (recovers now) s = (recover now s).1
  perform (submits now req) s = (submit_task fold now req s).1
  perform (advances now) s = (advance fold now s).1
  perform (approves now id by) s = (approve_task now id by s).1
  perform (denies now id by reason) s = (deny_task now id by reason s).1
  perform (requeues now id trigger) s = (requeue_task now id trigger some s).1

  -- The clock gives a new identifier.
  abbrev pub IsFresh : Call → Store → Type 0
  IsFresh (submits now req) s = Absent (task_id_at now) s.tasks
  IsFresh _ s = Unit

  -- What the creation of the task leaves, for a call that makes one, and the store itself.
  abbrev Filed : (Store → Type 0) → Call → Store → Type 0
  Filed P (submits now req) s = P (create_task now req s).1
  Filed P _ s = P s

  perform-Kept :
      {P : Store → Type 0} → IsKept P → (c : Call) (s : Store) → Filed P c s → P (perform c s)
  unfolding perform
  perform-Kept kept (recovers now) s h = (recover-Kept kept now).after s h
  perform-Kept kept (submits now req) s h = submit_task-Kept kept fold now req s h
  perform-Kept kept (advances now) s h = (advance-Kept kept fold now).after s h
  perform-Kept kept (approves now id by) s h = (approve_task-Kept kept now id by).after s h
  perform-Kept kept (denies now id by reason) s h = (deny_task-Kept kept now id by reason).after s h
  perform-Kept kept (requeues now id trigger) s h =
      (requeue_task-Kept kept now id trigger some (λ t u e. ground arith)).after s h

  Filed-IsTidy : (c : Call) (s : Store) → IsTidy s → IsFresh c s → Filed IsTidy c s
  Filed-IsTidy (recovers now) s h a = h
  Filed-IsTidy (submits now req) s h a = create_task-IsTidy now req s h a
  Filed-IsTidy (advances now) s h a = h
  Filed-IsTidy (approves now id by) s h a = h
  Filed-IsTidy (denies now id by reason) s h a = h
  Filed-IsTidy (requeues now id trigger) s h a = h

  Filed-Calm :
      (id : String) (c : Call) (s : Store)
      → Calm (Has id) s
      → IsFresh c s
      → Filed (Calm (Has id)) c s
  Filed-Calm id (recovers now) s h a = h
  Filed-Calm id (submits now req) s h a = create_task-Calm id now req s h a
  Filed-Calm id (advances now) s h a = h
  Filed-Calm id (approves now named by) s h a = h
  Filed-Calm id (denies now named by reason) s h a = h
  Filed-Calm id (requeues now named trigger) s h a = h

  -- A fresh call leaves each task in at most one directory, that of its state, whichever file
  -- operations are refused, and loses no task where none is refused.
  pub perform-IsTidy :
      (c : Call) (s : Store)
      → IsTidy s
      → IsFresh c s
      → IsTidy (perform c s) × (KeepsTasks s (perform c s) ⊎ (s.faults ≢ []))
  perform-IsTidy c s h a =
      (perform-Kept IsTidy-IsKept c s (Filed-IsTidy c s h a), of_faults s.faults refl)
    where
      of_faults : (l : List Bool) → s.faults ≡ l → KeepsTasks s (perform c s) ⊎ (s.faults ≢ [])
      of_faults [] calm = inl (λ id stored.
          (perform-Kept (Has-IsKept id) c s
            (Filed-Calm id c s (record { tidy = h; stored = stored }, calm) a)).0.stored)
      of_faults (x ∷ l) more = inr (λ calm. cc)
