-- ===== src/Scheduler/Tests.antt =====
-- The theorems on the scheduler at concrete stores.
use mnemosyne_os.Base.{ℕ, String, refl, false, none, some, List, [], str_dec}
use mnemosyne_os.Base.Assoc
use mnemosyne_os.Base.Disk
use mnemosyne_os.Base.Float.{whole}
use mnemosyne_os.Base.Text.{trim_space}
use mnemosyne_os.Memory.{candidate, Card}
use mnemosyne_os.Memory.Cards.{new_store}
use mnemosyne_os.Memory.Governance.{decay_and_compact}
use mnemosyne_os.Memory.Query.{query}
use mnemosyne_os.Runtime
use mnemosyne_os.Runtime.{RuntimeState, idle}
use mnemosyne_os.Scheduler.{Config, new_config, World, not_skipped, evaluate_and_schedule}
use mnemosyne_os.Scheduler.Laws.{Forgets, other_skip-Forgets}

abbrev plain : ℕ → ℕ
plain c = c

abbrev config : Config
config = new_config (record {
  scope = "";
  cooldown = 300;
  min_candidates = 0;
  allowed_card_types = [];
  extract_procedures = false;
  procedure_min_runs = 0;
})

abbrev idle_runtime : Runtime.Store
idle_runtime = record {
  tasks = [];
  runtime = some (record {
    runtime_id = "runtime-1";
    active_user_id = "user";
    session_id = none;
    status = idle;
    active_task_id = none;
    execution_profile = "user";
    updated_at = 1;
  });
  faults = [];
}

abbrev guess : Card ℕ
guess = record {
  card_id = "a";
  card_type = "fact";
  scope = "project";
  created_at = 1;
  valid_from = none;
  valid_to = none;
  version = 1;
  prev_version = "";
  status = candidate;
  supersedes = "";
  content = none;
  evidence_refs = none;
  provenance = record { agent_id = "agent"; source = "test"; confidence = 1 };
  activation = record {
    score = 1;
    last_access_at = none;
    last_evaluated_at = none;
    decay_policy = "";
  };
}

abbrev world_with : List (String × List (Card ℕ)) → World ℕ
world_with cards = record {
  runtime = idle_runtime;
  memory = record new_store { graph = record { cards = cards; edges = []; edges_by_card = [] } };
  schedule = some (record {
    last_triggered_at = some 100;
    last_reason = "manual";
    last_task_id = "";
    last_candidate_count = 1;
    last_skip_reason = not_skipped;
  });
  load_fails = false;
  save_fails = false;
}

-- Within the cooldown, and with nothing to consolidate.
other_skip-Forgets_example :
    Forgets (evaluate_and_schedule whole plain 200 [] config "" (world_with [])).1
unfolding evaluate_and_schedule decay_and_compact new_config query trim_space str_dec
other_skip-Forgets_example =
    other_skip-Forgets whole plain 200 [] config "" (world_with []) refl
      (record { untriggered = refl; no_error = refl; reason = λ e. cc })
