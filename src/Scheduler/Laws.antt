-- ===== src/Scheduler/Laws.antt =====
-- What a skip leaves behind (internal/memoryscheduler).
use mnemosyne_os.Base.{
  ℕ, String, ◌≡◌, ◌≢◌, refl, Bool, true, false, Option, none, some, List, [], ◌∷◌, arith,
  if◌then◌else◌, ltb, length,
}
use mnemosyne_os.Base.Float.{Float64}
use mnemosyne_os.Base.Result.{Result, ok, err}
use mnemosyne_os.Memory.{Card}
use mnemosyne_os.Runtime
use mnemosyne_os.Runtime.{Task, RuntimeState}
use mnemosyne_os.Runtime.Tasks.{load_state, list_tasks}
use mnemosyne_os.Runtime.Orchestrator.{submit_task}
use mnemosyne_os.Scheduler.{
  Config, State, Decision, World, Outcome, SkipReason, no_eligible_candidates, candidate_threshold,
  no_candidates, in_cooldown, runtime_busy, existing_consolidation_task, undecided, about,
  is_cooling, find_consolidating, skip, cooled_down, consolidation, submitted, over_tasks,
  loaded_schedule, over_runtime, go_on, over_schedule, over_candidates, evaluate_and_schedule,
}

-- The time of the last trigger is forgotten.
abbrev pub Forgets : {Num : Type 0} → World Num → Type 0
Forgets w = (st : State) × (w.schedule ≡ some st) × (st.last_triggered_at ≡ none)

-- The decision is a skip, without an error, for another reason than the cooldown.
pub record IsOtherSkip (o : Decision × Option Runtime.Error) : Type 0 where
  pub untriggered : o.0.triggered ≡ false
  pub no_error : o.1 ≡ none
  pub reason : o.0.skip_reason ≢ in_cooldown

module _ {Num : Type 0} where
  skip-Forgets :
      (reason task_id : String) (why : SkipReason) (d : Decision) (w : World Num)
      → w.save_fails ≡ false
      → Forgets (skip none reason task_id why d w).1
  skip-Forgets reason task_id why d w f =
      let st : State = record {
        last_triggered_at = none;
        last_reason = reason;
        last_task_id = task_id;
        last_candidate_count = d.candidate_count;
        last_skip_reason = why;
      } in
      (st, ground (arith, f), refl)

module _ {Num : Type 0} (fold : ℕ → ℕ) (now : ℕ) (config : Config) (reason : String) where
  submitted-Forgets :
      (d : Decision) (w : World Num) (r : Result Runtime.Error Task)
      → IsOtherSkip (submitted fold now config reason d w r).0
      → Forgets (submitted fold now config reason d w r).1
  unfolding submitted
  submitted-Forgets d w (ok t) h = absurd (ground (arith, h.untriggered))
  submitted-Forgets d w (err e) h = absurd (ground (arith, h.no_error))

  over_tasks-Forgets :
      (d : Decision) (w : World Num) (r : Result Runtime.Error (List Task))
      → w.save_fails ≡ false
      → IsOtherSkip (over_tasks fold now config reason d w r).0
      → Forgets (over_tasks fold now config reason d w r).1
  unfolding over_tasks
  over_tasks-Forgets d w (err e) f h = absurd (ground (arith, h.no_error))
  over_tasks-Forgets d w (ok ts) f h = of_found (find_consolidating ts) h
    where
      made : Result Runtime.Error Task × Runtime.Store
      made = submit_task fold now (consolidation config reason) w.runtime

      outcome : Option Task → Outcome Num
      outcome o = elim o [
        | some t ↦ skip none reason t.task_id existing_consolidation_task (about t d) w
        | none ↦ submitted fold now config reason d (record w { runtime = made.1 }) made.0
      ]

      of_found : (o : Option Task) → IsOtherSkip (outcome o).0 → Forgets (outcome o).1
      of_found (some t) k =
          skip-Forgets reason t.task_id existing_consolidation_task (about t d) w f
      of_found none k = submitted-Forgets d (record w { runtime = made.1 }) made.0 k

  over_runtime-Forgets :
      (d : Decision) (w : World Num) (r : Result Runtime.Error RuntimeState)
      → w.save_fails ≡ false
      → IsOtherSkip (over_runtime fold now config reason d w r).0
      → Forgets (over_runtime fold now config reason d w r).1
  unfolding over_runtime
  over_runtime-Forgets d w (err e) f h = absurd (ground (arith, h.no_error))
  over_runtime-Forgets d w (ok r) f h = of_active r.active_task_id h
    where
      listed : Result Runtime.Error (List Task) × Runtime.Store
      listed = list_tasks w.runtime

      outcome : Option String → Outcome Num
      outcome o = elim o [
        | some id ↦ skip none reason "" runtime_busy d w
        | none ↦ over_tasks fold now config reason d (record w { runtime = listed.1 }) listed.0
      ]

      of_active : (o : Option String) → IsOtherSkip (outcome o).0 → Forgets (outcome o).1
      of_active (some id) k = skip-Forgets reason "" runtime_busy d w f
      of_active none k = over_tasks-Forgets d (record w { runtime = listed.1 }) listed.0 f k

  over_schedule-Forgets :
      (d : Decision) (w : World Num) (o : Option State)
      → w.save_fails ≡ false
      → IsOtherSkip (over_schedule fold now config reason d w o).0
      → Forgets (over_schedule fold now config reason d w o).1
  unfolding over_schedule go_on cooled_down
  over_schedule-Forgets d w none f h =
      over_runtime-Forgets d (record w { runtime = (load_state w.runtime).1 })
        (load_state w.runtime).0 f h
  over_schedule-Forgets d w (some st) f h = of_test (is_cooling now config st.last_triggered_at) h
    where
      of_test :
          (b : Bool)
          → IsOtherSkip
              (if b then cooled_down reason st d w else go_on fold now config reason d w).0
          → Forgets (if b then cooled_down reason st d w else go_on fold now config reason d w).1
      of_test true k = absurd (ground (arith, k.reason))
      of_test false k =
          over_runtime-Forgets d (record w { runtime = (load_state w.runtime).1 })
            (load_state w.runtime).0 f k

module _ {Num : Type 0} (F : Float64 Num) (fold : ℕ → ℕ) where
  over_candidates-Forgets :
      (now : ℕ) (config : Config) (reason : String) (found eligible : List (Card Num))
      (w : World Num)
      → w.save_fails ≡ false
      → IsOtherSkip (over_candidates F fold now config reason found eligible w).0
      → Forgets (over_candidates F fold now config reason found eligible w).1
  unfolding over_candidates
  over_candidates-Forgets now config reason found [] w f h =
      skip-Forgets reason "" no_eligible_candidates (undecided 0) w f
  over_candidates-Forgets now config reason found (c ∷ cs) w f h =
      of_test (ltb count config.min_candidates) found h
    where
      count : ℕ
      count = length (c ∷ cs)

      outcome : Bool → List (Card Num) → Outcome Num
      outcome b l =
          if b then skip none reason "" candidate_threshold (undecided count) w else elim l [
            | [] ↦ (
              (record (undecided count) { skip_reason = no_candidates }, none),
              (skip none reason "" no_candidates (undecided 0) w).1,
            )
            | _ ∷ _ ↦ over_schedule fold now config reason (undecided count) w (loaded_schedule w)
          ]

      of_test :
          (b : Bool) (l : List (Card Num)) → IsOtherSkip (outcome b l).0 → Forgets (outcome b l).1
      of_test true l k = skip-Forgets reason "" candidate_threshold (undecided count) w f
      of_test false [] k = skip-Forgets reason "" no_candidates (undecided 0) w f
      of_test false (x ∷ l) k =
          over_schedule-Forgets fold now config reason (undecided count) w (loaded_schedule w) f k

  -- A skip for another reason than the cooldown, whose state is written, forgets when a
  -- consolidation was triggered last, so that the next call is not held back by the cooldown.
  pub other_skip-Forgets :
      (now : ℕ) (order : List String) (config : Config) (raw : String) (w : World Num)
      → w.save_fails ≡ false
      → IsOtherSkip (evaluate_and_schedule F fold now order config raw w).0
      → Forgets (evaluate_and_schedule F fold now order config raw w).1
  unfolding evaluate_and_schedule
  other_skip-Forgets now order config raw w f h = over_candidates-Forgets now config _ _ _ _ f h
