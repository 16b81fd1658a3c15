-- ===== src/Runtime/Tasks/Triples.antt =====
-- What a method of the store guarantees when it returns, in terms of the files and of the runtime's
-- state before it.
use mnemosyne_os.Base.{ℕ, String, ◌≡◌, Option, some, arith}
use mnemosyne_os.Base.Disk
use mnemosyne_os.Base.Exec.{Triple}
use mnemosyne_os.Runtime.{TaskState, state_dec, Task, RuntimeState, Files, Store}
use mnemosyne_os.Runtime.Tasks.{load_state, save_state, get_task, Mutation, move_task}
use mnemosyne_os.Runtime.Tasks.Laws.{
  moved, filed, move_task_ok, runtime-move_task, get_task_same, get_task_ok,
}

-- A claim on the store that leaves out which operations will be refused.
abbrev pub View : Type 1
View = Files → Option RuntimeState → Type 0

abbrev pub On : View → Store → Type 0
On P s = P s.tasks s.runtime

pub load_state_triple : (P : View) → Triple (On P) load_state (λ r s. On P s × (s.runtime ≡ some r))
unfolding load_state
load_state_triple P = record { after = λ s r p e. ground arith }

pub save_state_triple :
    (P : View) (now : ℕ) (r : RuntimeState)
    → Triple (λ s. P s.tasks (some (record r { updated_at = now }))) (save_state now r) (λ _. On P)
unfolding save_state
save_state_triple P now r = record { after = λ s _ p e. ground arith }

pub get_task_triple :
    (P : View) (id : String)
    → Triple
        (On P)
        (get_task id)
        (λ t s. On P s × ((d : TaskState) × (Disk.read state_dec d id s.tasks ≡ some t)))
get_task_triple P id = record {
  after = λ s t p e.
      let (tasks, runtime) = get_task_same id s in rw (tasks, runtime) (p, get_task_ok id s e);
}

pub move_task_triple :
    (P : View) (Q : Task → View) (now : ℕ) (id : String) (next : TaskState) (mutate : Mutation)
    → ((k : Files) (q : Option RuntimeState) (d : TaskState) (t u : Task)
        → P k q
        → Disk.read state_dec d id k ≡ some t
        → mutate t ≡ some u
        → Q
            (moved now next u)
            (Disk.write state_dec next u.task_id
              (filed (moved now next u))
              (Disk.remove state_dec d id k))
            q)
    → Triple (On P) (move_task now id next mutate) (λ t. On (Q t))
move_task_triple P Q now id next mutate step = record {
  after = λ s u p e.
      let m = move_task_ok now id next mutate s e in
      let stepped = step s.tasks s.runtime m.from m.old m.changed p m.held m.mutated in
      rw (runtime-move_task now id next mutate s, m.written, m.returned) stepped;
}
