-- ===== src/Scheduler/Inputs.antt =====
-- What the scheduler reads and decides (internal/memoryscheduler).
use mnemosyne_os.Base.{
  ℕ, zero, suc, String, Bool, true, false, ◌&&◌, Option, none, some, List, [], ◌∷◌, if◌then◌else◌,
  decided, str_dec,
}
use mnemosyne_os.Base.Result.{Result, ok, err}
use mnemosyne_os.Base.Text.{trim_space, is_blank}
use mnemosyne_os.Memory
use mnemosyne_os.Memory.{Card, QueryRequest}
use mnemosyne_os.Memory.Query.{has}
use mnemosyne_os.Runtime
use mnemosyne_os.Runtime.{
  Task, TaskState, inbox, planned, active, awaiting_approval, blocked, RuntimeState,
  CreateTaskRequest,
}

-- 0 stands for every number that is not positive.
pub record Config : Type 0 where
  pub scope : String
  pub cooldown : ℕ
  pub min_candidates : ℕ
  pub allowed_card_types : List String
  pub extract_procedures : Bool
  pub procedure_min_runs : ℕ

abbrev or_default : ℕ → ℕ → ℕ
or_default zero d = d
or_default (suc n) d = suc n

-- The configuration that `New` keeps.
unfoldable pub new_config : Config → Config
new_config c = record c {
  cooldown = or_default c.cooldown 300000000000;
  min_candidates = or_default c.min_candidates 1;
  scope = if is_blank c.scope then "project" else c.scope;
  procedure_min_runs = or_default c.procedure_min_runs 2;
}

pub data SkipReason : Type 0 where
  not_skipped no_eligible_candidates candidate_threshold no_candidates in_cooldown runtime_busy
        existing_consolidation_task :
      SkipReason

pub record State : Type 0 where
  pub last_triggered_at : Option ℕ
  pub last_reason : String
  pub last_task_id : String
  pub last_candidate_count : ℕ
  pub last_skip_reason : SkipReason

-- `task_state` is `none` for the empty text.
pub record Decision : Type 0 where
  pub triggered : Bool
  pub task_id : String
  pub task_state : Option TaskState
  pub selected_skill : String
  pub candidate_count : ℕ
  pub skip_reason : SkipReason

-- The stores, the scheduler's own file, whether it cannot be read or decoded, and whether the
-- operating system refuses to write it.
pub record World (Num : Type 0) : Type 0 where
  pub runtime : Runtime.Store
  pub memory : Memory.Store Num
  pub schedule : Option State
  pub load_fails : Bool
  pub save_fails : Bool

abbrev pub undecided : ℕ → Decision
undecided count = record {
  triggered = false;
  task_id = "";
  task_state = none;
  selected_skill = "";
  candidate_count = count;
  skip_reason = not_skipped;
}

abbrev pub about : Task → Decision → Decision
about t d = record d {
  task_id = t.task_id;
  task_state = some t.state;
  selected_skill = t.selected_skill;
}

-- A decision comes back beside an error too.
abbrev pub Outcome : Type 0 → Type 0
Outcome Num = (Decision × Option Runtime.Error) × World Num

abbrev pub is_open : TaskState → Bool
is_open inbox = true
is_open planned = true
is_open active = true
is_open awaiting_approval = true
is_open blocked = true
is_open _ = false

-- What `hydrateDecisionFromTaskID` makes of the task, or of its absence.
unfoldable pub hydrated : Result Runtime.Error Task → Decision → Decision
hydrated (ok t) d = about t d
hydrated (err e) d = d

-- A task that consolidates memories and is not finished.
abbrev pub is_consolidating : Task → Bool
is_consolidating t = decided (str_dec t.selected_skill "memory-consolidate") && is_open t.state

unfoldable pub find_consolidating : List Task → Option Task
find_consolidating [] = none
find_consolidating (t ∷ ts) =
    let rest = find_consolidating ts in if is_consolidating t then some t else rest

-- The names that are not blank, trimmed.
trimmed_names : List String → List String
trimmed_names [] = []
trimmed_names (x ∷ xs) =
    let rest = trimmed_names xs in if is_blank x then rest else trim_space x ∷ rest

module _ {Num : Type 0} where
  of_types : List String → List (Card Num) → List (Card Num)
  of_types names [] = []
  of_types names (c ∷ cs) =
      let rest = of_types names cs in if has (trim_space c.card_type) names then c ∷ rest else rest

  unfoldable pub allowed : List String → List (Card Num) → List (Card Num)
  unfolding trimmed_names of_types
  allowed [] cs = cs
  allowed (x ∷ xs) cs = of_types (trimmed_names (x ∷ xs)) cs
