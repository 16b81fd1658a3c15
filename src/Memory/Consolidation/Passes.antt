-- ===== src/Memory/Consolidation/Passes.antt =====
-- What a pass over the store leaves: its result, counted, and the statuses
-- (internal/memory/consolidator.go).
use mnemosyne_os.Base.{
  ◌+◌, String, ◌≡◌, refl, sym, ap, subst, ◌∙◌, List, [], ◌∷◌, ◌++◌, arith, length, length-append,
}
use mathlib.Core.List.{append_assoc, append-nil}
use mnemosyne_os.Base.Exec.{pure, continue, ◌>>◌}
use mnemosyne_os.Base.Result.{Result, ok}
use mnemosyne_os.Memory.{Store, Error}
use mnemosyne_os.Memory.Journal.Recovery.{IsSound}
use mnemosyne_os.Memory.Consolidation.{
  ConsolidateResult, Pass, note_promoted, note_superseded, note_archived,
}
use mnemosyne_os.Memory.Consolidation.Statuses.{Statuses, statuses}

-- A pass over a sound store returns and leaves a sound store, with these cards more among the
-- promoted and the archived, each counted, and the statuses changed so.
pub record Did {Num : Type 0} (promoted_ids archived_ids : List String)
    (change : Statuses → Statuses) (x : ConsolidateResult × Store Num)
    (r : Result Error (Unit {0}) × (ConsolidateResult × Store Num)) : Type 0 where
  pub returned : r.0 ≡ ok tt
  pub sound : IsSound r.1.1
  pub changed : statuses r.1.1.graph ≡ change (statuses x.1.graph)
  pub promoted_cards : r.1.0.promoted_cards ≡ x.0.promoted_cards ++ promoted_ids
  pub archived_cards : r.1.0.archived_cards ≡ x.0.archived_cards ++ archived_ids
  pub promoted : r.1.0.promoted ≡ x.0.promoted + length promoted_ids
  pub archived_count : r.1.0.archived_count ≡ x.0.archived_count + length archived_ids
  pub examined : r.1.0.examined ≡ x.0.examined

module _ {Num : Type 0} where
  pub pure-Did :
      (x : ConsolidateResult × Store Num) → IsSound x.1 → Did [] [] (λ v. v) x (pure tt x)
  pure-Did x h = record {
    returned = refl;
    sound = h;
    changed = refl;
    promoted_cards = sym (append-nil _);
    archived_cards = sym (append-nil _);
    promoted = omega arith;
    archived_count = omega arith;
    examined = refl;
  }

  pub bind-Did :
      (p a q b : List String) (f g : Statuses → Statuses) (m n : Pass Num)
      (x : ConsolidateResult × Store Num)
      → Did p a f x (m x)
      → Did q b g (m x).1 (n (m x).1)
      → Did (p ++ q) (a ++ b) (λ v. g (f v)) x ((m >> n) x)
  bind-Did p a q b f g m n x h k =
      let then_n : (m >> n) x ≡ n (m x).1 = ap (λ r. continue r (λ _. n) (m x).1) h.returned in
      subst (Did (p ++ q) (a ++ b) (λ v. g (f v)) x) (sym then_n) (record {
        returned = k.returned;
        sound = k.sound;
        changed = k.changed ∙ ap g h.changed;
        promoted_cards =
            k.promoted_cards
            ∙ ap (λ l. l ++ q) h.promoted_cards
            ∙ append_assoc x.0.promoted_cards p q;
        archived_cards =
            k.archived_cards
            ∙ ap (λ l. l ++ b) h.archived_cards
            ∙ append_assoc x.0.archived_cards a b;
        promoted = omega (arith, k.promoted, h.promoted, length-append p q);
        archived_count = omega (arith, k.archived_count, h.archived_count, length-append a b);
        examined = k.examined ∙ h.examined;
      })

-- What a pass notes of one card.
pub record Notes (p a : List String) (note : ConsolidateResult → ConsolidateResult) : Type 0 where
  pub promoted_cards : (t : ConsolidateResult) → (note t).promoted_cards ≡ t.promoted_cards ++ p
  pub archived_cards : (t : ConsolidateResult) → (note t).archived_cards ≡ t.archived_cards ++ a
  pub promoted : (t : ConsolidateResult) → (note t).promoted ≡ t.promoted + length p
  pub archived_count :
      (t : ConsolidateResult) → (note t).archived_count ≡ t.archived_count + length a
  pub examined : (t : ConsolidateResult) → (note t).examined ≡ t.examined

pub note_promoted-Notes : (id : String) → Notes (id ∷ []) [] (note_promoted id)
note_promoted-Notes id = record {
  promoted_cards = λ t. refl;
  archived_cards = λ t. sym (append-nil _);
  promoted = λ t. refl;
  archived_count = λ t. omega arith;
  examined = λ t. refl;
}

pub note_archived-Notes : (id : String) → Notes [] (id ∷ []) (note_archived id)
note_archived-Notes id = record {
  promoted_cards = λ t. sym (append-nil _);
  archived_cards = λ t. refl;
  promoted = λ t. omega arith;
  archived_count = λ t. refl;
  examined = λ t. refl;
}

pub note_superseded-Notes : {id : String} → Notes [] [] (note_superseded id)
note_superseded-Notes = record {
  promoted_cards = λ t. sym (append-nil _);
  archived_cards = λ t. sym (append-nil _);
  promoted = λ t. omega arith;
  archived_count = λ t. omega arith;
  examined = λ t. refl;
}
