-- ===== src/Runtime/Orchestrator.antt =====
-- internal/airuntime/orchestrator.go. The store's mutex is taken for each of its methods, and the
-- orchestrator's calls are taken one after the other.
pub mod Kept
pub mod Tidy
pub mod Moves
pub mod Advance
pub mod Recovery
pub mod Promises
use mnemosyne_os.Base.{
  ℕ, String, Bool, true, false, ◌&&◌, Option, none, some, List, [], ◌∷◌, if◌then◌else◌, decided,
  str_dec, not,
}
use mnemosyne_os.Base.Assoc
use mnemosyne_os.Base.Clock.{rfc3339}
use mnemosyne_os.Base.Text.{is_blank}
use mnemosyne_os.Base.Result.{Result, ok, err}
use mnemosyne_os.Base.Exec.{pure, raise, ◌>>=◌, ◌>>◌}
use mnemosyne_os.Runtime.{
  TaskState, inbox, planned, active, blocked, awaiting_approval, done, failed, archived, state_dec,
  Error, task_not_found, not_requeueable, nil_map, Task, CreateTaskRequest, RuntimeState, idle,
  busy, Store, Method,
}
use mnemosyne_os.Runtime.Counter.{increment_counter}
use mnemosyne_os.Runtime.Skill.{suggest_skill}
use mnemosyne_os.Runtime.Tasks.{
  first_non_empty, load_state, save_state, get_task, create_task, Mutation, move_task, list_tasks,
}

abbrev pub Metadata : Type 0
Metadata = List (String × String)

-- `if t.Metadata == nil { t.Metadata = map[string]string{} }`
abbrev pub made : Option Metadata → Metadata
made none = []
made (some m) = m

-- The value under a key, or the empty text.
abbrev pub value_of : String → Metadata → String
value_of k m = elim (Assoc.get str_dec k m) [ none ↦ "" | some v ↦ v ]

abbrev pub idled : RuntimeState → RuntimeState
idled r = record r { active_task_id = none; status = idle }

unfoldable pub recovered_task : ℕ → Task → Task
recovered_task now t = record t {
  metadata = some (
      Assoc.put str_dec "recovered_at" (rfc3339 now)
        (Assoc.put str_dec "recovered_from_active" "true" (made t.metadata)));
  next_action = "recovered for re-execution";
}

unfoldable pub recovered : ℕ → Mutation
recovered now t = some (recovered_task now t)

-- Once the active task is known: an active one goes back to the planned tasks.
recover_task : ℕ → RuntimeState → String → Result Error Task → Method (Unit {0})
unfolding recovered
recover_task now r id (ok t) =
    if decided (state_dec t.state active)
    then (do move_task now id planned (recovered now); save_state now (idled r))
    else save_state now (idled r)
recover_task now r id (err task_not_found) = save_state now (idled r)
recover_task now r id (err e) = raise e

-- A method's error is handed to what follows.
abbrev pub handle : {A B : Type 0} → Method A → (Result Error A → Method B) → Method B
handle m f s = f (m s).0 (m s).1

is_idle : RuntimeState → Bool
is_idle r = elim r.status [ idle ↦ true | busy ↦ false ]

recover_from : ℕ → RuntimeState → Option String → Method (Unit {0})
unfolding recover_task is_idle
recover_from now r none = if is_idle r then pure tt else save_state now (record r { status = idle })
recover_from now r (some id) = handle (get_task id) (recover_task now r id)

unfoldable pub recover : ℕ → Method (Unit {0})
unfolding recover_from
recover now = do r ← load_state; recover_from now r r.active_task_id

abbrev plan_mutation : (ℕ → ℕ) → Mutation
plan_mutation fold t = some (record t {
  selected_skill =
      if is_blank t.selected_skill then suggest_skill fold t.goal else t.selected_skill;
  next_action = "ready for execution";
})

unfoldable pub plan_task : (ℕ → ℕ) → ℕ → String → Method Task
plan_task fold now id = do get_task id; move_task now id planned (plan_mutation fold)

abbrev activation : Mutation
activation t = some (record t { next_action = "execute via selected skill" })

unfoldable pub activate_task : ℕ → String → Method Task
activate_task now id = do
  t ← move_task now id active activation
  r ← load_state
  save_state now (record r { status = busy; active_task_id = some t.task_id })
  pure t

abbrev pub is_requeueable : TaskState → Bool
is_requeueable planned = true
is_requeueable active = true
is_requeueable blocked = true
is_requeueable failed = true
is_requeueable awaiting_approval = true
is_requeueable _ = false

unfoldable pub requeued : ℕ → String → TaskState → (TaskState → String) → Mutation → Mutation
requeued now trigger from name mutate t =
    let m =
      Assoc.del str_dec "last_action_id" (Assoc.del str_dec "approval_token" (made t.metadata)) in
    mutate (record t {
      metadata = some (
          Assoc.put str_dec "last_rerun_at" (rfc3339 now) (
            Assoc.put str_dec "last_rerun_from_state" (name from) (
              Assoc.put str_dec "last_rerun_trigger" (first_non_empty (trigger ∷ "manual" ∷ [])) (
                Assoc.put str_dec "rerun_count" (increment_counter (value_of "rerun_count" m))
                  m))));
      failure_reason = "";
      next_action = "rerun requested";
    })

abbrev pub state_name : TaskState → String
state_name inbox = "inbox"
state_name planned = "planned"
state_name active = "active"
state_name blocked = "blocked"
state_name awaiting_approval = "awaiting_approval"
state_name done = "done"
state_name failed = "failed"
state_name archived = "archived"

abbrev is_current : String → RuntimeState → Bool
is_current id r = elim r.active_task_id [ none ↦ false | some a ↦ decided (str_dec a id) ]

release_current : ℕ → String → RuntimeState → Method (Unit {0})
release_current now id r = if is_current id r then save_state now (idled r) else pure tt

unfoldable pub requeue_task : ℕ → String → String → Mutation → Method Task
unfolding release_current
requeue_task now id trigger mutate = do
  t ← get_task id
  if not (is_requeueable t.state) then raise not_requeueable else do
    r ← load_state
    release_current now id r
    move_task now id planned (requeued now trigger t.state state_name mutate)

-- `requeued` has made the map.
abbrev approval : String → Mutation
approval by t = some (record t {
  requires_approval = false;
  metadata = some (Assoc.put str_dec "approved_by" by (made t.metadata));
  next_action = "approved for execution";
})

unfoldable pub approve_task : ℕ → String → String → Method Task
approve_task now id by = do
  t ← requeue_task now id "approval_granted" (approval by)
  activate_task now t.task_id

-- A write to a nil map panics.
abbrev denial : String → String → Mutation
denial by reason t = elim t.metadata [
  | none ↦ none
  | some m ↦ some (record t {
    failure_reason = first_non_empty (reason ∷ "denied" ∷ []);
    next_action = "task denied";
    metadata = some (Assoc.put str_dec "denied_by" by m);
  })
]

unfoldable pub deny_task : ℕ → String → String → String → Method Task
deny_task now id by reason = move_task now id failed (denial by reason)

plan_and_activate : (ℕ → ℕ) → ℕ → String → Method Task
plan_and_activate fold now id = do
  t ← plan_task fold now id
  if decided (state_dec t.state planned) then activate_task now t.task_id else pure t

-- The first task that can go on, newest first.
choose : (ℕ → ℕ) → ℕ → List Task → Method Task
choose fold now [] = raise task_not_found
choose fold now (t ∷ ts) =
    let later = choose fold now ts in
    elim t.state [
      | inbox ↦ plan_and_activate fold now t.task_id
      | planned ↦ activate_task now t.task_id
      | awaiting_approval ↦ pure t
      | active ↦ pure t
      | _ ↦ later
    ]

advance_idle : (ℕ → ℕ) → ℕ → Method Task
unfolding choose plan_and_activate
advance_idle fold now = do ts ← list_tasks; choose fold now ts

-- What becomes of the task that the runtime's state names.
advance_current : (ℕ → ℕ) → ℕ → RuntimeState → Result Error Task → Method Task
unfolding advance_idle
advance_current fold now r (ok t) =
    if decided (state_dec t.state active)
    then pure t
    else (do save_state now (idled r); advance_idle fold now)
advance_current fold now r (err task_not_found) = do save_state now (idled r); advance_idle fold now
advance_current fold now r (err e) = raise e

advance_from : (ℕ → ℕ) → ℕ → RuntimeState → Option String → Method Task
unfolding advance_current advance_idle
advance_from fold now r none = advance_idle fold now
advance_from fold now r (some id) = handle (get_task id) (advance_current fold now r)

unfoldable pub advance : (ℕ → ℕ) → ℕ → Method Task
unfolding advance_from
advance fold now = do r ← load_state; advance_from fold now r r.active_task_id

unfoldable pub submit_task : (ℕ → ℕ) → ℕ → CreateTaskRequest → Method Task
submit_task fold now req = do create_task now req; advance fold now
