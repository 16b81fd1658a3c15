-- ===== src/Runtime/Orchestrator/Kept.antt =====
-- What the operations on the task store keep, the calls of the orchestrator keep.
use mnemosyne_os.Base.{ℕ, String, Option, none, some, List, [], ◌∷◌, arith}
use mnemosyne_os.Base.Result.{Result, ok, err}
use mnemosyne_os.Base.Exec.{pure, continue, Preserves, Preserves-pure, preserving}
use mnemosyne_os.Runtime.{
  TaskState, inbox, planned, active, awaiting_approval, Error, task_not_found, Task,
  CreateTaskRequest, RuntimeState, Store, Method,
}
use mnemosyne_os.Runtime.Tasks.{
  create_task, Mutation, move_task, get_task, load_state, save_state, list_tasks,
}
use mnemosyne_os.Runtime.Tasks.Tidy.{KeepsId}
use mnemosyne_os.Runtime.Tasks.Kept.{IsKept}
use mnemosyne_os.Runtime.Orchestrator.{
  recovered, recovered_task, recover_task, recover_from, recover, handle, plan_mutation, plan_task,
  activation, activate_task, requeued, release_current, requeue_task, approval, approve_task,
  denial, deny_task, plan_and_activate, choose, advance_idle, advance_current, advance_from,
  advance, submit_task, state_name,
}

KeepsId-recovered : (now : ℕ) → KeepsId (recovered now)
unfolding recovered recovered_task
KeepsId-recovered now t u h = ground arith

KeepsId-plan : (fold : ℕ → ℕ) → KeepsId (plan_mutation fold)
KeepsId-plan fold t u h = ground arith

KeepsId-activation : KeepsId activation
KeepsId-activation t u h = ground arith

KeepsId-approval : (by : String) → KeepsId (approval by)
KeepsId-approval by t u h = ground arith

KeepsId-denial : (by reason : String) → KeepsId (denial by reason)
KeepsId-denial by reason t u h = ground arith

pub KeepsId-requeued :
    (now : ℕ) (trigger : String) (from : TaskState) (mutate : Mutation)
    → KeepsId mutate
    → KeepsId (requeued now trigger from state_name mutate)
unfolding requeued
KeepsId-requeued now trigger from mutate keeps t u h = keeps _ u h

Preserves-handle :
    {A B : Type 0} {P : Store → Type 0} (m : Method A) (f : Result Error A → Method B)
    → Preserves P m
    → ((r : Result Error A) → Preserves P (f r))
    → Preserves P (handle m f)
Preserves-handle m f h k = record { after = λ s p. (k (m s).0).after (m s).1 (h.after s p) }

module _ {P : Store → Type 0} (kept : IsKept P) where
  move_task-Kept :
      (now : ℕ) (id : String) (next : TaskState) (mutate : Mutation)
      → KeepsId mutate
      → Preserves P (move_task now id next mutate)
  move_task-Kept now id next mutate keeps = kept.moves now id next mutate keeps

  get_task-Kept : (id : String) → Preserves P (get_task id)
  get_task-Kept id = kept.gets id

  load_state-Kept : Preserves P load_state
  load_state-Kept = kept.loads

  save_state-Kept : (now : ℕ) (r : RuntimeState) → Preserves P (save_state now r)
  save_state-Kept now r = kept.saves now r

  list_tasks-Kept : Preserves P list_tasks
  list_tasks-Kept = kept.lists

ruleset kept_steps = (
  preserving, move_task-Kept, get_task-Kept, load_state-Kept, save_state-Kept, list_tasks-Kept,
  KeepsId-recovered, KeepsId-plan, KeepsId-activation, KeepsId-approval, KeepsId-denial,
  KeepsId-requeued,
)

-- What the operations keep, the calls keep.
module _ {P : Store → Type 0} (kept : IsKept P) where
  recover_task-Kept :
      (now : ℕ) (r : RuntimeState) (id : String) (found : Result Error Task)
      → Preserves P (recover_task now r id found)
  unfolding recover_task
  recover_task-Kept now r id (ok t) = search kept_steps
  recover_task-Kept now r id (err task_not_found) = search kept_steps
  recover_task-Kept now r id (err e) = search kept_steps

  recover_from-Kept :
      (now : ℕ) (r : RuntimeState) (id : Option String) → Preserves P (recover_from now r id)
  unfolding recover_from
  recover_from-Kept now r none = search kept_steps
  recover_from-Kept now r (some id) = search (kept_steps, Preserves-handle, recover_task-Kept)

  pub recover-Kept : (now : ℕ) → Preserves P (recover now)
  unfolding recover
  recover-Kept now = search (kept_steps, recover_from-Kept)

  plan_task-Kept : (fold : ℕ → ℕ) (now : ℕ) (id : String) → Preserves P (plan_task fold now id)
  unfolding plan_task
  plan_task-Kept fold now id = search kept_steps

  activate_task-Kept : (now : ℕ) (id : String) → Preserves P (activate_task now id)
  unfolding activate_task
  activate_task-Kept now id = search kept_steps depth 7

  release_current-Kept :
      (now : ℕ) (id : String) (r : RuntimeState) → Preserves P (release_current now id r)
  unfolding release_current
  release_current-Kept now id r = search kept_steps

  pub requeue_task-Kept :
      (now : ℕ) (id trigger : String) (mutate : Mutation)
      → KeepsId mutate
      → Preserves P (requeue_task now id trigger mutate)
  unfolding requeue_task
  requeue_task-Kept now id trigger mutate keeps = search (kept_steps, release_current-Kept) depth 8

  pub approve_task-Kept : (now : ℕ) (id by : String) → Preserves P (approve_task now id by)
  unfolding approve_task
  approve_task-Kept now id by = search (kept_steps, requeue_task-Kept, activate_task-Kept)

  pub deny_task-Kept : (now : ℕ) (id by reason : String) → Preserves P (deny_task now id by reason)
  unfolding deny_task
  deny_task-Kept now id by reason = search kept_steps

  plan_and_activate-Kept :
      (fold : ℕ → ℕ) (now : ℕ) (id : String) → Preserves P (plan_and_activate fold now id)
  unfolding plan_and_activate
  plan_and_activate-Kept fold now id = search (kept_steps, plan_task-Kept, activate_task-Kept)

  choose-Kept : (fold : ℕ → ℕ) (now : ℕ) (ts : List Task) → Preserves P (choose fold now ts)
  unfolding choose
  choose-Kept fold now [] = search kept_steps
  choose-Kept fold now (t ∷ ts) = go (choose-Kept fold now ts) t.state
    where
      go :
          Preserves P (choose fold now ts)
          → (d : TaskState)
          → Preserves {E = Error} {A = Task} P (elim d [
            | inbox ↦ plan_and_activate fold now t.task_id
            | planned ↦ activate_task now t.task_id
            | awaiting_approval ↦ pure t
            | active ↦ pure t
            | _ ↦ choose fold now ts
          ])
      go ih inbox = plan_and_activate-Kept fold now t.task_id
      go ih planned = activate_task-Kept now t.task_id
      go ih awaiting_approval = Preserves-pure t
      go ih active = Preserves-pure t
      go ih _ = ih

  advance_idle-Kept : (fold : ℕ → ℕ) (now : ℕ) → Preserves P (advance_idle fold now)
  unfolding advance_idle
  advance_idle-Kept fold now = search (kept_steps, choose-Kept)

  advance_current-Kept :
      (fold : ℕ → ℕ) (now : ℕ) (r : RuntimeState) (found : Result Error Task)
      → Preserves P (advance_current fold now r found)
  unfolding advance_current
  advance_current-Kept fold now r (ok t) = search (kept_steps, advance_idle-Kept)
  advance_current-Kept fold now r (err task_not_found) = search (kept_steps, advance_idle-Kept)
  advance_current-Kept fold now r (err e) = search kept_steps

  advance_from-Kept :
      (fold : ℕ → ℕ) (now : ℕ) (r : RuntimeState) (id : Option String)
      → Preserves P (advance_from fold now r id)
  unfolding advance_from
  advance_from-Kept fold now r none = advance_idle-Kept fold now
  advance_from-Kept fold now r (some id) =
      search (kept_steps, Preserves-handle, advance_current-Kept)

  pub advance-Kept : (fold : ℕ → ℕ) (now : ℕ) → Preserves P (advance fold now)
  unfolding advance
  advance-Kept fold now = search (kept_steps, advance_from-Kept)

  pub submit_task-Kept :
      (fold : ℕ → ℕ) (now : ℕ) (req : CreateTaskRequest) (s : Store)
      → P (create_task now req s).1
      → P (submit_task fold now req s).1
  unfolding submit_task
  submit_task-Kept fold now req s filed = go (create_task now req s).0
    where
      go :
          (r : Result Error Task)
          → P (continue r (λ _. advance fold now) (create_task now req s).1).1
      go (ok t) = (advance-Kept fold now).after _ filed
      go (err e) = filed
