-- ===== src/Memory/Governance.antt =====
-- internal/memory/governance.go: scores decay with time, and statuses follow them.
pub mod Laws
use Prim.Native.String
use mnemosyne_os.Base.{
  ℕ, ◌+◌, ◌-◌, ◌/◌, ◌%◌, ◌^◌, String, Bool, true, false, ◌||◌, ◌&&◌, not, Option, none, some, List,
  [], ◌∷◌, ◌++◌, if◌then◌else◌, decided, str_dec, leb, ltb, get_last?,
}
use mnemosyne_os.Base.Float.{Float64}
use mnemosyne_os.Base.Exec.{Exec, pure, ◌>>=◌, ◌>>◌}
use mnemosyne_os.Base.Result.{Result}
use mnemosyne_os.Memory.{
  CardStatus, candidate, active, stale, superseded, archived, status_dec, Card, Store, Error,
  Method, decay_applied,
}
use mnemosyne_os.Memory.Cards.{version_link, versions_of, record_versions, clamp_unit}

-- A zero time is `none`.
pub record GovernanceOptions (Num : Type 0) : Type 0 where
  pub base_decay_rate : Num
  pub stale_threshold : Num
  pub archive_threshold : Num
  pub now : Option ℕ

-- `GarbageCollectionResult`
pub record Totals : Type 0 where
  pub examined : ℕ
  pub decayed : ℕ
  pub staled : ℕ
  pub archived_count : ℕ

-- What is made of the latest version of a card.
pub data Assessment (Num : Type 0) : Type 0 where
  ignored unchanged : Assessment Num
  changed : Card Num → Assessment Num

-- The largest time.Duration, where time.Sub stops.
abbrev max_duration : ℕ
max_duration = 2 ^ 63 - 1

-- `opts.Now.Sub(lastEval)`, for a time that is not before `last`.
abbrev elapsed : ℕ → ℕ → ℕ
elapsed now last = if ltb max_duration (now - last) then max_duration else now - last

abbrev hour : ℕ
hour = 3600000000000

abbrev is_exempt : CardStatus → Bool
is_exempt archived = true
is_exempt superseded = true
is_exempt candidate = true
is_exempt active = false
is_exempt stale = false

abbrev bump : Bool → ℕ → ℕ
bump true n = n + 1
bump false n = n

module _ {Num : Type 0} (F : Float64 Num) where
  -- `Duration.Hours`
  abbrev hours : ℕ → Num
  hours d = F.add (F.of_nat (d / hour)) (F.div (F.of_nat (d % hour)) (F.of_nat hour))

  abbrev default : Num → Num → Num
  default given usual = if F.le given F.zero then usual else given

  with_defaults : GovernanceOptions Num → GovernanceOptions Num
  with_defaults opts = record opts {
    base_decay_rate = default opts.base_decay_rate (F.literal 5 100);
    stale_threshold = default opts.stale_threshold (F.literal 5 10);
    archive_threshold = default opts.archive_threshold (F.literal 1 10);
  }

  rate_of : Num → String → Num
  rate_of base policy =
      if decided (str_dec policy "session_use")
      then F.mul base (F.literal 5 1)
      else if decided (str_dec policy "durable")
      then F.mul base (F.literal 2 10)
      else if decided (str_dec policy "never")
      then F.zero
      else base

  next_status : GovernanceOptions Num → Num → CardStatus → CardStatus
  next_status opts score status =
      if F.lt score opts.archive_threshold && decided (status_dec status stale)
      then archived
      else if F.lt score opts.stale_threshold && decided (status_dec status active)
      then stale
      else status

  decayed_card : ℕ → CardStatus → Num → Card Num → Card Num
  decayed_card now status score latest = record latest {
    version = latest.version + 1;
    prev_version = version_link latest.card_id latest.version;
    status = status;
    activation = record latest.activation { score = score; last_evaluated_at = some now };
  }

  assess_score : GovernanceOptions Num → ℕ → Num → Card Num → Assessment Num
  unfolding next_status decayed_card
  assess_score opts now score latest =
      let status = next_status opts score latest.status in
      if F.lt score latest.activation.score || not (decided (status_dec status latest.status))
      then changed (decayed_card now status score latest)
      else unchanged

  assess_hours : GovernanceOptions Num → ℕ → Num → Card Num → Assessment Num
  unfolding assess_score rate_of
  assess_hours opts now hours_since latest =
      let rate = rate_of opts.base_decay_rate latest.activation.decay_policy in
      let amount = F.mul hours_since rate in
      if F.le amount (F.literal 1 1000) && F.lt F.zero rate
      then unchanged
      else assess_score opts now (clamp_unit F (F.sub latest.activation.score amount)) latest

  last_evaluation : Card Num → ℕ
  last_evaluation c = elim c.activation.last_evaluated_at [ none ↦ c.created_at | some t ↦ t ]

  unfoldable pub assess : GovernanceOptions Num → ℕ → Card Num → Assessment Num
  unfolding assess_hours last_evaluation
  assess opts now latest =
      if is_exempt latest.status
      then ignored
      else if leb now (last_evaluation latest)
      then unchanged
      else assess_hours opts now (hours (elapsed now (last_evaluation latest))) latest

-- The counts stay beside an error.
abbrev pub Sweep : Type 0 → Type 0
Sweep Num = Exec (Totals × Store Num) Error (Unit {0})

module _ {Num : Type 0} where
  tally : Card Num → Assessment Num → Totals → Totals
  tally latest ignored t = t
  tally latest unchanged t = record t { examined = t.examined + 1 }
  tally latest (changed d) t = record {
    examined = t.examined + 1;
    decayed = t.decayed + 1;
    staled =
        bump (decided (status_dec latest.status active) && decided (status_dec d.status stale))
          t.staled;
    archived_count =
        bump (decided (status_dec latest.status stale) && decided (status_dec d.status archived))
          t.archived_count;
  }

  apply : ℕ → String → List (Card Num) → Assessment Num → Method Num (Unit {0})
  apply now id vs ignored = pure tt
  apply now id vs unchanged = pure tt
  apply now id vs (changed d) = do
    _ ← record_versions decay_applied now id d (vs ++ d ∷ [])
    pure tt

  settle :
      ℕ → String → List (Card Num) → (Card Num → Assessment Num) → Option (Card Num) → Sweep Num
  unfolding tally apply
  settle now id vs judge none = pure tt
  settle now id vs judge (some latest) = λ ts.
      let r = apply now id vs (judge latest) ts.1 in (r.0, (tally latest (judge latest) ts.0, r.1))

  -- The cards in the order in which the map is walked.
  sweep : ℕ → (Card Num → Assessment Num) → List String → Sweep Num
  unfolding settle
  sweep now judge [] = pure tt
  sweep now judge (id ∷ ids) = do
    (λ ts.
        settle now id (versions_of id ts.1.graph) judge (get_last? (versions_of id ts.1.graph)) ts)
    sweep now judge ids

abbrev no_totals : Totals
no_totals = record { examined = 0; decayed = 0; staled = 0; archived_count = 0 }

module _ {Num : Type 0} (F : Float64 Num) where
  -- `order` is the order in which the map of the cards is walked; `clock` is time.Now.
  unfoldable pub decay_and_compact :
      ℕ
      → List String
      → GovernanceOptions Num
      → Store Num
      → Result Error (Unit {0}) × Totals × Store Num
  unfolding with_defaults sweep
  decay_and_compact clock order opts s =
      let now : ℕ = elim opts.now [ none ↦ clock | some t ↦ t ] in
      let r = sweep now (assess F (with_defaults F opts) now) order (no_totals, s) in
      (r.0, r.1.0, r.1.1)
