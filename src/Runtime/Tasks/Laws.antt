-- ===== src/Runtime/Tasks/Laws.antt =====
-- What the store's methods do to the files, whichever file operations are refused.
use mnemosyne_os.Base.{ℕ, String, ◌≡◌, refl, some, arith, Option-cases, inl, inr}
use mnemosyne_os.Base.Disk
use mnemosyne_os.Base.Disk.{Entry}
use mnemosyne_os.Base.Contains.{Contains}
use mnemosyne_os.Base.Disk.Laws.{read-find_in, find_in_of_read, Distinct}
use mnemosyne_os.Base.Result.{ok}
use mnemosyne_os.Runtime.{
  RuntimeState, TaskState, inbox, planned, active, blocked, awaiting_approval, done, failed,
  archived, state_dec, Task, Files, Store,
}
use mnemosyne_os.Runtime.Tasks.{
  all_states, omit_empty, load_state, find_task, get_task, remove_task, write_task, Mutation,
  move_task,
}

-- The task as it is after a move, in memory and in its file.
abbrev pub moved : ℕ → TaskState → Task → Task
moved now next t = record t { state = next; updated_at = now }

abbrev pub filed : Task → Task
filed t = record t { metadata = omit_empty t.metadata }

-- A move changes no file, or it lost the file between the removal and the writing, or it is done.
pub move_task_cases :
    (P : Files → Type 0) (now : ℕ) (id : String) (next : TaskState) (mutate : Mutation) (s : Store)
    → P s.tasks
    → ((d : TaskState) (t : Task)
        → Disk.read state_dec d id s.tasks ≡ some t
        → P (Disk.remove state_dec d id s.tasks))
    → ((d : TaskState) (t u : Task)
        → Disk.read state_dec d id s.tasks ≡ some t
        → mutate t ≡ some u
        → P (
            Disk.write state_dec next u.task_id
              (filed (moved now next u))
              (Disk.remove state_dec d id s.tasks)))
    → P (move_task now id next mutate s).1.tasks
unfolding move_task find_task remove_task write_task
move_task_cases P now id next mutate s same lost complete =
    elim (Option-cases (Disk.find_in state_dec all_states id s.tasks)) [
      | inl e ↦ ground arith
      | inr ((d, t), e) ↦
          let held = read-find_in state_dec all_states id s.tasks e in
          elim (Option-cases (mutate t)) [
            | inl m ↦ ground arith
            | inr (u, m) ↦ ground (arith, lost d t held, complete d t u held m)
          ]
    ]

pub runtime-move_task :
    (now : ℕ) (id : String) (next : TaskState) (mutate : Mutation) (s : Store)
    → (move_task now id next mutate s).1.runtime ≡ s.runtime
unfolding move_task find_task remove_task write_task
runtime-move_task now id next mutate s = ground arith

-- What a move that returned has done.
pub record IsMove (now : ℕ) (id : String) (next : TaskState) (mutate : Mutation) (s t : Store)
    (u : Task) : Type 0 where
  pub from : TaskState
  pub old : Task
  pub changed : Task
  pub held : Disk.read state_dec from id s.tasks ≡ some old
  pub mutated : mutate old ≡ some changed
  pub returned : u ≡ moved now next changed
  pub written :
      t.tasks
      ≡ Disk.write state_dec next changed.task_id (filed u) (Disk.remove state_dec from id s.tasks)

pub move_task_ok :
    (now : ℕ) (id : String) (next : TaskState) (mutate : Mutation) (s : Store) {u : Task}
    → (move_task now id next mutate s).0 ≡ ok u
    → IsMove now id next mutate s (move_task now id next mutate s).1 u
unfolding move_task find_task remove_task write_task
move_task_ok now id next mutate s {u} h =
    elim (Option-cases (Disk.find_in state_dec all_states id s.tasks)) [
      | inl e ↦ absurd (ground arith)
      | inr ((d, t), e) ↦ elim (Option-cases (mutate t)) [
        | inl m ↦ absurd (ground arith)
        | inr (v, m) ↦ record {
          from = d;
          old = t;
          changed = v;
          held = read-find_in state_dec all_states id s.tasks e;
          mutated = m;
          returned = ground arith;
          written = ground arith;
        }
      ]
    ]

-- Reading a task leaves the files and the runtime's state alone.
pub get_task_same :
    (id : String) (s : Store)
    → ((get_task id s).1.tasks ≡ s.tasks) × ((get_task id s).1.runtime ≡ s.runtime)
unfolding get_task find_task
get_task_same id s = ground arith

pub get_task_ok :
    (id : String) (s : Store) {t : Task}
    → (get_task id s).0 ≡ ok t
    → (d : TaskState) × (Disk.read state_dec d id s.tasks ≡ some t)
unfolding get_task find_task
get_task_ok id s {t} h = elim (Option-cases (Disk.find_in state_dec all_states id s.tasks)) [
  | inl e ↦ absurd (ground arith)
  | inr ((d, u), e) ↦
      (d, ground (arith, read-find_in state_dec all_states id s.tasks {d = d} {r = u} e))
]

listed : (d : TaskState) → Contains d all_states
listed inbox = inl refl
listed planned = inr (inl refl)
listed active = inr (inr (inl refl))
listed blocked = inr (inr (inr (inl refl)))
listed awaiting_approval = inr (inr (inr (inr (inl refl))))
listed done = inr (inr (inr (inr (inr (inl refl)))))
listed failed = inr (inr (inr (inr (inr (inr (inl refl))))))
listed archived = inr (inr (inr (inr (inr (inr (inr (inl refl)))))))

-- Where names are distinct, the search over the directories ends at the task's file.
pub find_in_states :
    (d : TaskState) (id : String) (k : Files) {t : Task}
    → Distinct k
    → Disk.read state_dec d id k ≡ some t
    → Disk.find_in state_dec all_states id k ≡ some (d, t)
find_in_states d id k h e = find_in_of_read state_dec all_states d id k (listed d) h e

-- The state that is read is the one that is stored.
pub load_state_ok : (s : Store) (r : RuntimeState) → (load_state s).0 ≡ ok r → s.runtime ≡ some r
unfolding load_state
load_state_ok s r h = ground arith
