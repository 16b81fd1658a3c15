-- ===== src/Scheduler/Triggers.antt =====
-- When a consolidation is triggered (internal/memoryscheduler).
use mnemosyne_os.Base.{ℕ, ◌+◌, ◌≤◌, ◌≡◌, false, none, some}
use mnemosyne_os.Base.Result.{Result}
use mnemosyne_os.Runtime
use mnemosyne_os.Runtime.{Task, RuntimeState}
use mnemosyne_os.Scheduler.{Config, State, Decision, World}

-- What a trigger rests on.
pub record IsDue {Num : Type 0} (now : ℕ) (config : Config) (w : World Num) (d : Decision)
    : Type 0 where
  pub enough : config.min_candidates ≤ d.candidate_count
  pub cooled :
      w.load_fails ≡ false
      → (st : State) (at : ℕ) → w.schedule ≡ some st
      → st.last_triggered_at ≡ some at
      → at + config.cooldown ≤ now
  pub idle : (r : RuntimeState) × (w.runtime.runtime ≡ some r) × (r.active_task_id ≡ none)
