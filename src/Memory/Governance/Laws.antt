-- ===== src/Memory/Governance/Laws.antt =====
-- What a sweep keeps, in whatever order it walks the cards (internal/memory/governance.go).
use mnemosyne_os.Base.{
  ℕ, String, ◌≡◌, refl, sym, subst, ◌⊎◌, inl, inr, true, Option, none, some, List, [], ◌∷◌, ◌++◌,
  arith, get_last?, if◌then◌else◌, if_rule, leb, ◌||◌, ◌&&◌,
}
use mnemosyne_os.Base.Float.{Float64}
use mnemosyne_os.Base.Result.{Result, ok, err}
use mnemosyne_os.Base.Exec.{continue}
use mnemosyne_os.Memory.{
  CardStatus, candidate, active, stale, superseded, archived, status_dec, Card, Store,
  decay_applied, Error,
}
use mnemosyne_os.Memory.Cards.{clamp_unit, versions_of}
use mnemosyne_os.Memory.Chains.{Follows, append-IsHistory}
use mnemosyne_os.Memory.Journal.Recovery.{IsSound, record_versions-IsSound}
use mnemosyne_os.Memory.Governance.{
  GovernanceOptions, Totals, is_exempt, hours, elapsed, rate_of, Assessment, ignored, unchanged,
  changed, assess, assess_hours, assess_score, next_status, decayed_card, last_evaluation,
  with_defaults, apply, settle, sweep, decay_and_compact, no_totals,
}

-- A status stays, or goes one step towards the archive.
pub data Ages : CardStatus → CardStatus → Type 0 where
  stays_active : Ages active active
  stays_stale : Ages stale stale
  grows_stale : Ages active stale
  is_archived : Ages stale archived

-- A change to a card is a version that follows it, of a status one step further at most.
pub data IsAging {Num : Type 0} (c : Card Num) : Assessment Num → Type 0 where
  is_ignored : IsAging c ignored
  is_unchanged : IsAging c unchanged
  is_aged : (d : Card Num) → Follows c d → Ages c.status d.status → IsAging c (changed d)

module _ {Num : Type 0} (F : Float64 Num) where
  next_status-Ages :
      (opts : GovernanceOptions Num) (score : Num) (status : CardStatus)
      → (status ≡ active) ⊎ (status ≡ stale)
      → Ages status (next_status F opts score status)
  unfolding next_status status_dec
  next_status-Ages opts score candidate h = elim h [ inl e ↦ cc | inr e ↦ cc ]
  next_status-Ages opts score active h = ground (arith, stays_active, grows_stale)
  next_status-Ages opts score stale h = ground (arith, stays_stale, is_archived)
  next_status-Ages opts score superseded h = elim h [ inl e ↦ cc | inr e ↦ cc ]
  next_status-Ages opts score archived h = elim h [ inl e ↦ cc | inr e ↦ cc ]

  is_exempt-cases : (st : CardStatus) → (is_exempt st ≡ true) ⊎ ((st ≡ active) ⊎ (st ≡ stale))
  is_exempt-cases candidate = inl refl
  is_exempt-cases active = inr (inl refl)
  is_exempt-cases stale = inr (inr refl)
  is_exempt-cases superseded = inl refl
  is_exempt-cases archived = inl refl

  assess_score-IsAging :
      (opts : GovernanceOptions Num) (now : ℕ) (score : Num) (c : Card Num)
      → (c.status ≡ active) ⊎ (c.status ≡ stale)
      → IsAging c (assess_score F opts now score c)
  unfolding assess_score decayed_card
  assess_score-IsAging opts now score c h =
      if_rule (IsAging c) (F.lt score c.activation.score || _)
        (λ _.
          is_aged (decayed_card F now (next_status F opts score c.status) score c)
            (refl, refl, refl) (next_status-Ages opts score c.status h))
        (λ _. is_unchanged)

  assess_hours-IsAging :
      (opts : GovernanceOptions Num) (now : ℕ) (since : Num) (c : Card Num)
      → (c.status ≡ active) ⊎ (c.status ≡ stale)
      → IsAging c (assess_hours F opts now since c)
  unfolding assess_hours
  assess_hours-IsAging opts now since c h =
      let rate = rate_of F opts.base_decay_rate c.activation.decay_policy in
      let amount = F.mul since rate in
      if_rule (IsAging c) (F.le amount (F.literal 1 1000) && F.lt F.zero rate) (λ _. is_unchanged)
        (λ _. assess_score-IsAging opts now (clamp_unit F (F.sub c.activation.score amount)) c h)

  -- Only active and stale cards are changed. A change is a version that follows the latest, and
  -- its status is the same, or stale after active, or archived after stale.
  pub assess-IsAging :
      (opts : GovernanceOptions Num) (now : ℕ) (c : Card Num) → IsAging c (assess F opts now c)
  unfolding assess
  assess-IsAging opts now c = elim (is_exempt-cases c.status) [
    | inl e ↦ subst (λ b. IsAging c (if b then ignored else rest)) (sym e) is_ignored
    | inr h ↦
        if_rule (IsAging c) (is_exempt c.status) (λ _. is_ignored)
          (λ _.
            if_rule (IsAging c) (leb now (last_evaluation F c)) (λ _. is_unchanged)
              (λ _.
                assess_hours-IsAging opts now (hours F (elapsed now (last_evaluation F c))) c h))
  ]
    where
      rest : Assessment Num
      rest =
          if leb now (last_evaluation F c)
          then unchanged
          else assess_hours F opts now (hours F (elapsed now (last_evaluation F c))) c

module _ {Num : Type 0} where
  settle-IsSound :
      (now : ℕ) (id : String) (judge : Card Num → Assessment Num) (t : Totals) (s : Store Num)
      → ((c : Card Num) → IsAging c (judge c))
      → IsSound s
      → IsSound
          (settle now id
            (versions_of id s.graph)
            judge
            (get_last? (versions_of id s.graph))
            (t, s)).1.1
  unfolding settle apply
  settle-IsSound now id judge t s f h = of_latest (get_last? (versions_of id s.graph)) refl
    where
      vs : List (Card Num)
      vs = versions_of id s.graph

      of_assessment :
          (c : Card Num) (a : Assessment Num)
          → get_last? vs ≡ some c
          → IsAging c a
          → IsSound (apply now id vs a s).1
      of_assessment c ignored e p = h
      of_assessment c unchanged e p = h
      of_assessment c (changed d) e (is_aged _ k g) = ground (
        arith,
        record_versions-IsSound decay_applied now id d (vs ++ d ∷ []) s
            (append-IsHistory id s.graph c d h.chained e k) h,
      )

      of_latest :
          (o : Option (Card Num)) → get_last? vs ≡ o → IsSound (settle now id vs judge o (t, s)).1.1
      of_latest none e = h
      of_latest (some c) e = of_assessment c (judge c) e (f c)

  sweep-IsSound :
      (now : ℕ) (judge : Card Num → Assessment Num) (ids : List String) (t : Totals) (s : Store Num)
      → ((c : Card Num) → IsAging c (judge c))
      → IsSound s
      → IsSound (sweep now judge ids (t, s)).1.1
  unfolding sweep
  sweep-IsSound now judge [] t s f h = h
  sweep-IsSound now judge (id ∷ ids) t s f h =
      let vs = versions_of id s.graph in
      let r = settle now id vs judge (get_last? vs) (t, s) in
      go_on r.0 r.1 (settle-IsSound now id judge t s f h)
        (λ u. sweep-IsSound now judge ids r.1.0 r.1.1 f u)
    where
      go_on :
          (r : Result Error (Unit {0})) (ts : Totals × Store Num)
          → IsSound ts.1
          → (IsSound ts.1 → IsSound (sweep now judge ids ts).1.1)
          → IsSound (continue r (λ _. sweep now judge ids) ts).1.1
      go_on (ok _) ts u k = k u
      go_on (err e) ts u k = u

module _ {Num : Type 0} (F : Float64 Num) where
  pub decay_and_compact-IsSound :
      (clock : ℕ) (order : List String) (opts : GovernanceOptions Num) (s : Store Num)
      → IsSound s
      → IsSound (decay_and_compact F clock order opts s).2
  unfolding decay_and_compact
  decay_and_compact-IsSound clock order opts s h =
      sweep-IsSound _ _ order no_totals s (assess-IsAging F (with_defaults F opts) _) h
