-- ===== src/Runtime/Orchestrator/Recovery.antt =====
-- What `Recover` leaves behind when it returns.
use mnemosyne_os.Base.{
  ℕ, String, ◌≡◌, refl, Option, none, some, [], arith, Bool-cases, inl, inr, decided,
}
use mnemosyne_os.Base.Disk
use mnemosyne_os.Base.Disk.Laws.{All_at}
use mnemosyne_os.Base.Result.{Result, ok, err}
use mnemosyne_os.Base.Exec.{Triple, Triple-if, Triple-bind}
use mnemosyne_os.Runtime.{
  planned, active, state_dec, Error, task_not_found, Task, RuntimeState, idle, Store,
}
use mnemosyne_os.Runtime.Tasks.{
  load_state, save_state, find_task, get_task, move_task, remove_task, write_task,
}
use mnemosyne_os.Runtime.Tasks.Laws.{moved, filed, find_in_states}
use mnemosyne_os.Runtime.Tasks.Tidy.{IsTidy, IsPlaced}
use mnemosyne_os.Runtime.Tasks.Triples.{View, On, load_state_triple}
use mnemosyne_os.Runtime.Orchestrator.{
  recovered, recovered_task, recover_task, recover_from, recover, idled, is_idle,
}

-- The runtime holds no task.
abbrev pub IsIdle : View
IsIdle k q = (r : RuntimeState) × (q ≡ some r) × (r.status ≡ idle) × (r.active_task_id ≡ none)

save_state-IsIdle :
    (now : ℕ) (r : RuntimeState) → Triple (λ _. Unit) (save_state now (idled r)) (λ _. On IsIdle)
unfolding save_state
save_state-IsIdle now r = record {
  after = λ s a p e. (record (idled r) { updated_at = now }, ground arith, refl, refl);
}

recover_task-IsIdle :
    (now : ℕ) (r : RuntimeState) (id : String) (found : Result Error Task)
    → Triple (λ _. Unit) (recover_task now r id found) (λ _. On IsIdle)
unfolding recover_task
recover_task-IsIdle now r id (ok t) =
    Triple-if (decided (state_dec t.state active)) _ _
      (λ _.
        Triple-bind (λ _ _. Unit) (move_task now id planned (recovered now)) _
          (record { after = λ s a p e. tt }) (λ _. save_state-IsIdle now r))
      (λ _. save_state-IsIdle now r)
recover_task-IsIdle now r id (err task_not_found) = save_state-IsIdle now r
recover_task-IsIdle now r id (err e) = record { after = λ s a p q. cc }

recover_from-IsIdle :
    (now : ℕ) (r : RuntimeState) (id : Option String)
    → r.active_task_id ≡ id
    → Triple (λ s. s.runtime ≡ some r) (recover_from now r id) (λ _. On IsIdle)
unfolding recover_from is_idle save_state
recover_from-IsIdle now r none e = record {
  after = λ s a p h. elim (Bool-cases (is_idle r)) [
    | inl i ↦ (r, ground arith, ground arith, e)
    | inr b ↦ (record r { status = idle; updated_at = now }, ground arith, refl, e)
  ];
}
recover_from-IsIdle now r (some id) e = record {
  after =
      λ s a p h. (recover_task-IsIdle now r id (get_task id s).0).after (get_task id s).1 a tt h;
}

-- When `Recover` returns, the runtime is idle and holds no task, whatever it held before.
pub recover-IsIdle : (now : ℕ) (s : Store) → (recover now s).0 ≡ ok tt → On IsIdle (recover now s).1
unfolding recover
recover-IsIdle now s h =
    (Triple-bind {P = λ _. Unit} {Q = λ _. On IsIdle} (λ r t. t.runtime ≡ some r) load_state
        (λ r. recover_from now r r.active_task_id)
        (record { after = λ s r p e. ((load_state_triple (λ _ _. Unit)).after s r tt e).1 })
        (λ r. recover_from-IsIdle now r r.active_task_id refl)).after
      s tt tt h

-- In a tidy store and with no operation refused, `Recover` returns, and takes an interrupted task
-- back to the planned ones, under its own name and with nothing else changed in the files.
pub recover_interrupted :
    (now : ℕ) (s : Store) (r : RuntimeState) (id : String) (t : Task)
    → IsTidy s
    → s.faults ≡ []
    → s.runtime ≡ some r
    → r.active_task_id ≡ some id
    → Disk.read state_dec active id s.tasks ≡ some t
    → recover now s ≡ (
      ok tt,
      record s {
        tasks =
            Disk.write state_dec planned id
              (filed (moved now planned (recovered_task now t)))
              (Disk.remove state_dec active id s.tasks);
        runtime = some (record (idled r) { updated_at = now });
      },
    )
unfolding recover recover_from recover_task load_state get_task find_task move_task save_state
    remove_task write_task recovered recovered_task
recover_interrupted now s r id t h f q a held =
    let p = All_at state_dec IsPlaced active id s.tasks h.placed held in
    ground (arith, p.by_state, p.by_name, find_in_states active id s.tasks {t = t} h.distinct held)
