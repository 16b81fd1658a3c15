-- ===== src/Scheduler.antt =====
-- internal/memoryscheduler: whether candidate memories are handed to a task that consolidates them.
pub mod Laws
pub mod Triggers
mod Inputs
mod Tests
unfoldable pub use Inputs.*
use Prim.Native.String
use mnemosyne_os.Base.{
  ℕ, ◌+◌, String, Bool, true, false, ◌||◌, ◌&&◌, not, Option, none, some, List, [], ◌∷◌,
  if◌then◌else◌, decided, str_dec, ltb, leb, length,
}
use mnemosyne_os.Base.Float.{Float64}
use mnemosyne_os.Base.Number.{decimal}
use mnemosyne_os.Base.Result.{Result, ok, err}
use mnemosyne_os.Base.Text.{trim_space, is_blank}
use mnemosyne_os.Memory
use mnemosyne_os.Memory.{Card, QueryRequest}
use mnemosyne_os.Memory.Governance.{GovernanceOptions, decay_and_compact}
use mnemosyne_os.Memory.Query.{query, has}
use mnemosyne_os.Runtime
use mnemosyne_os.Runtime.{
  Task, TaskState, inbox, planned, active, awaiting_approval, blocked, RuntimeState,
  CreateTaskRequest,
}
use mnemosyne_os.Runtime.Tasks.{load_state, get_task, list_tasks}
use mnemosyne_os.Runtime.Orchestrator.{submit_task}

module _ {Num : Type 0} where
  -- A write that is refused is let pass.
  abbrev pub note : State → World Num → World Num
  note st w = if w.save_fails then w else record w { schedule = some st }

  -- `state, _ := s.loadState()`: a file that cannot be read or decoded counts as one that is missing.
  abbrev pub loaded_schedule : World Num → Option State
  loaded_schedule w = if w.load_fails then none else w.schedule

  abbrev pub skip : Option ℕ → String → String → SkipReason → Decision → World Num → Outcome Num
  skip at reason task_id why d w = (
    (record d { skip_reason = why }, none),
    note
        (record {
          last_triggered_at = at;
          last_reason = reason;
          last_task_id = task_id;
          last_candidate_count = d.candidate_count;
          last_skip_reason = why;
        })
        w,
  )

  -- In the cooldown: the decision is about the task that was triggered last.
  cooled_down : String → State → Decision → World Num → Outcome Num
  unfolding hydrated
  cooled_down reason st d w =
      if is_blank st.last_task_id
      then skip st.last_triggered_at reason st.last_task_id in_cooldown d w
      else let found = get_task (trim_space st.last_task_id) w.runtime in
        skip st.last_triggered_at reason st.last_task_id in_cooldown (hydrated found.0 d)
          (record w { runtime = found.1 })

abbrev bool_text : Bool → String
bool_text true = "true"
bool_text false = "false"

abbrev consolidation : Config → String → CreateTaskRequest
consolidation config reason = record {
  title = "Consolidate memory maintenance";
  goal = "Consolidate candidate memory into durable runtime state";
  requested_by = "memory-scheduler";
  source = "memory-scheduler";
  execution_profile = "";
  requires_approval = false;
  selected_skill = "memory-consolidate";
  metadata = some (
      ("scope", config.scope)
      ∷ ("extract_procedures", bool_text config.extract_procedures)
      ∷ ("min_runs", decimal config.procedure_min_runs)
      ∷ ("scheduled_reason", reason)
      ∷ []);
}

-- `time.Since(*state.LastTriggeredAt) < s.config.Cooldown`
abbrev pub is_cooling : ℕ → Config → Option ℕ → Bool
is_cooling now config none = false
is_cooling now config (some t) = ltb now (t + config.cooldown)

module _ {Num : Type 0} (fold : ℕ → ℕ) (now : ℕ) (config : Config) (reason : String) where
  submitted : Decision → World Num → Result Runtime.Error Task → Outcome Num
  submitted d w (err e) = ((d, some e), w)
  submitted d w (ok t) = (
    (record (about t d) { triggered = true }, if w.save_fails then some Runtime.io_error else none),
    note
        (record {
          last_triggered_at = some now;
          last_reason = reason;
          last_task_id = t.task_id;
          last_candidate_count = d.candidate_count;
          last_skip_reason = not_skipped;
        })
        w,
  )

  over_tasks : Decision → World Num → Result Runtime.Error (List Task) → Outcome Num
  unfolding submitted
  over_tasks d w (err e) = ((d, some e), w)
  over_tasks d w (ok ts) = elim (find_consolidating ts) [
    | some t ↦ skip none reason t.task_id existing_consolidation_task (about t d) w
    | none ↦
        let made = submit_task fold now (consolidation config reason) w.runtime in
        submitted d (record w { runtime = made.1 }) made.0
  ]

  over_runtime : Decision → World Num → Result Runtime.Error RuntimeState → Outcome Num
  unfolding over_tasks
  over_runtime d w (err e) = ((d, some e), w)
  over_runtime d w (ok r) = elim r.active_task_id [
    | some id ↦ skip none reason "" runtime_busy d w
    | none ↦
        let listed = list_tasks w.runtime in over_tasks d (record w { runtime = listed.1 }) listed.0
  ]

  go_on : Decision → World Num → Outcome Num
  unfolding over_runtime
  go_on d w =
      let loaded = load_state w.runtime in over_runtime d (record w { runtime = loaded.1 }) loaded.0

  over_schedule : Decision → World Num → Option State → Outcome Num
  unfolding go_on cooled_down
  over_schedule d w none = go_on d w
  over_schedule d w (some st) =
      if is_cooling now config st.last_triggered_at then cooled_down reason st d w else go_on d w

abbrev wanted_cards : Config → QueryRequest
wanted_cards config = record {
  card_id = "";
  card_type = "";
  scope = trim_space config.scope;
  status = "candidate";
  as_of = none;
}

module _ {Num : Type 0} (F : Float64 Num) (fold : ℕ → ℕ) where
  -- Without candidates for the second query there would be none for the first.
  over_candidates :
      ℕ → Config → String → (found eligible : List (Card Num)) → World Num → Outcome Num
  unfolding over_schedule
  over_candidates now config reason found [] w =
      skip none reason "" no_eligible_candidates (undecided 0) w
  over_candidates now config reason found (c ∷ cs) w =
      let count = length (c ∷ cs) in
      if ltb count config.min_candidates
      then skip none reason "" candidate_threshold (undecided count) w
      else elim found [
        | [] ↦ (
          (record (undecided count) { skip_reason = no_candidates }, none),
          (skip none reason "" no_candidates (undecided 0) w).1,
        )
        | _ ∷ _ ↦ over_schedule fold now config reason (undecided count) w (loaded_schedule w)
      ]

  -- `EvaluateAndSchedule`. `order` is the order in which the map of the cards is walked.
  unfoldable pub evaluate_and_schedule : ℕ → List String → Config → String → World Num → Outcome Num
  unfolding over_candidates allowed
  evaluate_and_schedule now order config raw w =
      let opts : GovernanceOptions Num = record {
        base_decay_rate = F.zero;
        stale_threshold = F.zero;
        archive_threshold = F.zero;
        now = none;
      } in
      let decayed = (decay_and_compact F now order opts w.memory).2 in
      let found = (query F order (wanted_cards config) decayed.graph).cards in
      over_candidates now config (if is_blank raw then "manual" else trim_space raw) found
        (allowed config.allowed_card_types found) (record w { memory = decayed })
