-- ===== src/Runtime/Orchestrator/Advance.antt =====
-- Which task `Advance` returns.
use mnemosyne_os.Base.{
  ℕ, String, ◌≡◌, refl, ◌⊎◌, inl, inr, Option, none, some, List, [], ◌∷◌, arith, decided,
}
use mnemosyne_os.Base.Disk
use mnemosyne_os.Base.Result.{Result, ok, err}
use mnemosyne_os.Base.Exec.{pure, Triple, Triple-raise, Triple-if, Triple-pure, Triple-bind}
use mnemosyne_os.Runtime.{
  TaskState, inbox, planned, active, awaiting_approval, state_dec, Error, task_not_found, Task,
  RuntimeState, Store,
}
use mnemosyne_os.Runtime.Tasks.{load_state, save_state, find_task, get_task, list_tasks}
use mnemosyne_os.Runtime.Tasks.Laws.{find_in_states}
use mnemosyne_os.Runtime.Tasks.Tidy.{IsTidy}
use mnemosyne_os.Runtime.Orchestrator.Moves.{activate_task_triple, move_task-IsFiled}
use mnemosyne_os.Runtime.Orchestrator.{
  idled, plan_mutation, plan_task, activate_task, plan_and_activate, choose, advance_idle,
  advance_current, advance_from, advance,
}

-- The task is being worked on, or waits for an approval.
abbrev pub IsUnderWay : Task → Type 0
IsUnderWay t = (t.state ≡ active) ⊎ (t.state ≡ awaiting_approval)

abbrev Chosen : Task → Store → Type 0
Chosen t s = IsUnderWay t

activate_task-Chosen : (now : ℕ) (id : String) → Triple (λ _. Unit) (activate_task now id) Chosen
activate_task-Chosen now id = record {
  after = λ s t p e. inl ((activate_task_triple now id).after s t tt e).0.0;
}

plan_task_planned :
    (fold : ℕ → ℕ) (now : ℕ) (id : String)
    → Triple (λ _. Unit) (plan_task fold now id) (λ t _. t.state ≡ planned)
unfolding plan_task
plan_task_planned fold now id =
    Triple-bind (λ _ _. Unit) (get_task id) _ (record { after = λ s a p e. tt })
      λ _. record {
        after = λ s t p e.
            ((move_task-IsFiled (λ _ _. Unit) now id planned (plan_mutation fold)).after s t tt
              e).0;
      }

plan_and_activate-Chosen :
    (fold : ℕ → ℕ) (now : ℕ) (id : String)
    → Triple (λ _. Unit) (plan_and_activate fold now id) Chosen
unfolding plan_and_activate state_dec
plan_and_activate-Chosen fold now id =
    Triple-bind (λ t _. t.state ≡ planned) (plan_task fold now id) _ (plan_task_planned fold now id)
      λ t.
        Triple-if (decided (state_dec t.state planned)) _ _
          (λ _. record { after = λ s u p e. (activate_task-Chosen now t.task_id).after s u tt e })
          (λ b. record { after = λ s u p e. absurd (ground arith) })

choose-Chosen :
    (fold : ℕ → ℕ) (now : ℕ) (ts : List Task) → Triple (λ _. Unit) (choose fold now ts) Chosen
unfolding choose
choose-Chosen fold now [] = Triple-raise task_not_found
choose-Chosen fold now (t ∷ ts) = go (choose-Chosen fold now ts) t.state refl
  where
    go :
        Triple (λ _. Unit) (choose fold now ts) Chosen
        → (d : TaskState) → t.state ≡ d
        → Triple {E = Error} {A = Task}
            (λ _. Unit)
            (elim d [
              | inbox ↦ plan_and_activate fold now t.task_id
              | planned ↦ activate_task now t.task_id
              | awaiting_approval ↦ pure t
              | active ↦ pure t
              | _ ↦ choose fold now ts
            ])
            Chosen
    go ih inbox e = plan_and_activate-Chosen fold now t.task_id
    go ih planned e = activate_task-Chosen now t.task_id
    go ih awaiting_approval e = Triple-pure t (λ s _. inr e)
    go ih active e = Triple-pure t (λ s _. inl e)
    go ih _ e = ih

advance_idle-Chosen : (fold : ℕ → ℕ) (now : ℕ) → Triple (λ _. Unit) (advance_idle fold now) Chosen
unfolding advance_idle
advance_idle-Chosen fold now =
    Triple-bind (λ _ _. Unit) list_tasks _ (record { after = λ s a p e. tt })
      (choose-Chosen fold now)

advance_current-Chosen :
    (fold : ℕ → ℕ) (now : ℕ) (r : RuntimeState) (found : Result Error Task)
    → Triple (λ _. Unit) (advance_current fold now r found) Chosen
unfolding advance_current state_dec
advance_current-Chosen fold now r (ok t) =
    Triple-if (decided (state_dec t.state active)) _ _
      (λ e. Triple-pure t (λ s p. inl (ground arith)))
      (λ _.
        Triple-bind (λ _ _. Unit) (save_state now (idled r)) _ (record { after = λ s a p e. tt })
          (λ _. advance_idle-Chosen fold now))
advance_current-Chosen fold now r (err task_not_found) =
    Triple-bind (λ _ _. Unit) (save_state now (idled r)) _ (record { after = λ s a p e. tt })
      (λ _. advance_idle-Chosen fold now)
advance_current-Chosen fold now r (err e) = record { after = λ s a p q. cc }

advance_from-Chosen :
    (fold : ℕ → ℕ) (now : ℕ) (r : RuntimeState) (id : Option String)
    → Triple (λ _. Unit) (advance_from fold now r id) Chosen
unfolding advance_from
advance_from-Chosen fold now r none = advance_idle-Chosen fold now
advance_from-Chosen fold now r (some id) = record {
  after = λ s t p e.
      (advance_current-Chosen fold now r (get_task id s).0).after (get_task id s).1 t tt e;
}

-- Whatever the store holds and whichever operations are refused, a task that `Advance` returns is
-- active or waits for an approval.
pub advance-IsUnderWay :
    (fold : ℕ → ℕ) (now : ℕ) (s : Store) (t : Task) → (advance fold now s).0 ≡ ok t → IsUnderWay t
unfolding advance
advance-IsUnderWay fold now s t e =
    (Triple-bind {P = λ _. Unit} {Q = Chosen} (λ _ _. Unit) load_state
        (λ r. advance_from fold now r r.active_task_id) (record { after = λ s a p e. tt })
        (λ r. advance_from-Chosen fold now r r.active_task_id)).after
      s t tt e

-- In a tidy store and with no operation refused, while the task that the runtime names is active,
-- `Advance` returns it and changes nothing.
pub advance_keeps_active :
    (fold : ℕ → ℕ) (now : ℕ) (s : Store) (r : RuntimeState) (id : String) (t : Task)
    → IsTidy s
    → s.faults ≡ []
    → s.runtime ≡ some r
    → r.active_task_id ≡ some id
    → Disk.read state_dec active id s.tasks ≡ some t
    → t.state ≡ active
    → advance fold now s ≡ (ok t, s)
unfolding advance advance_from advance_current load_state get_task find_task
advance_keeps_active fold now s r id t h f q a held p =
    ground (arith, find_in_states active id s.tasks {t = t} h.distinct held)
