-- ===== src/Memory/Consolidation/Sound.antt =====
-- PromoteCandidates keeps the store sound, whether it returns or stops (internal/memory/consolidator.go).
use mnemosyne_os.Base.{ℕ, String, List, [], ◌∷◌, if◌then◌else◌, take, drop, length}
use mnemosyne_os.Base.Exec.{Preserves, Preserves-bind, preserving, pure, ◌>>◌}
use mnemosyne_os.Base.Float.{Float64}
use mnemosyne_os.Base.Result.{Result, ok, err}
use mnemosyne_os.Memory.{Card, Store, Error, UpdateCardRequest}
use mnemosyne_os.Memory.Cards.{update_card}
use mnemosyne_os.Memory.Journal.Recovery.{IsSound, update_card-IsSound}
use mnemosyne_os.Memory.Consolidation.{
  ConsolidateRequest, ConsolidateResult, note_promoted, note_archived, promotion, only_status,
  update_or_fail, update_or_skip, supersede, promote_each, archive_each, candidates, limit_of,
  nothing_done, promote_candidates,
}

abbrev HasSound : {Num : Type 0} → ConsolidateResult × Store Num → Type 0
HasSound x = IsSound x.1

module _ {Num : Type 0} (F : Float64 Num) (now : ℕ) where
  -- What one update leaves, whichever way it ends.
  ends_sound :
      (t u : ConsolidateResult) (e' : Error → Result Error (Unit {0})) (r : Result Error (Card Num))
      (s : Store Num)
      → IsSound s
      → HasSound
          (elim r as (λ _. Result Error (Unit {0}) × (ConsolidateResult × Store Num)) [
            | ok _ ↦ (ok tt, (u, s))
            | err e ↦ (e' e, (t, s))
          ]).1
  ends_sound t u e' (ok c) s h = h
  ends_sound t u e' (err e) s h = h

  module _ (id : String) (req : UpdateCardRequest Num)
      (note : ConsolidateResult → ConsolidateResult) where
    update_or_fail-Preserves : Preserves HasSound (update_or_fail F now id req note)
    update_or_fail-Preserves = record {
      after = λ x h.
          ends_sound x.0 (note x.0) (λ e. err e) (update_card F now id req x.1).0
            (update_card F now id req x.1).1 (update_card-IsSound F now id req x.1 h);
    }

    update_or_skip-Preserves : Preserves HasSound (update_or_skip F now id req note)
    update_or_skip-Preserves = record {
      after = λ x h.
          ends_sound x.0 (note x.0) (λ e. ok tt) (update_card F now id req x.1).0
            (update_card F now id req x.1).1 (update_card-IsSound F now id req x.1 h);
    }

  supersede-Preserves : (target : String) → Preserves HasSound (supersede F now target)
  unfolding supersede
  supersede-Preserves target = search (preserving, update_or_skip-Preserves)

  promote_each-Preserves : (cs : List (Card Num)) → Preserves HasSound (promote_each F now cs)
  unfolding promote_each
  promote_each-Preserves [] = search preserving
  promote_each-Preserves (c ∷ cs) =
      Preserves-bind (update_or_fail F now c.card_id (promotion c) (note_promoted c.card_id)) _
        (update_or_fail-Preserves c.card_id (promotion c) (note_promoted c.card_id))
        (λ _.
          Preserves-bind (supersede F now c.supersedes) (λ _. promote_each F now cs)
            (supersede-Preserves c.supersedes) (λ _. promote_each-Preserves cs))

  archive_each-Preserves : (cs : List (Card Num)) → Preserves HasSound (archive_each F now cs)
  unfolding archive_each
  archive_each-Preserves [] = search preserving
  archive_each-Preserves (c ∷ cs) =
      Preserves-bind
        (update_or_fail F now c.card_id (only_status F "archived") (note_archived c.card_id))
        (λ _. archive_each F now cs)
        (update_or_fail-Preserves c.card_id (only_status F "archived") (note_archived c.card_id))
        (λ _. archive_each-Preserves cs)

  pub promote_candidates-IsSound :
      (order : List String) (req : ConsolidateRequest) (s : Store Num)
      → IsSound s
      → IsSound (promote_candidates F now order req s).2
  unfolding promote_candidates
  promote_candidates-IsSound order req s h =
      let cards = candidates F order req s in
      let n = limit_of req.limit (length cards) in
      let pass : Preserves HasSound (
          promote_each F now (take n cards)
          >> (if req.archive_remaining then archive_each F now (drop n cards) else pure tt)) =
        search (preserving, promote_each-Preserves, archive_each-Preserves) in
      pass.after (nothing_done (length cards), s) h
