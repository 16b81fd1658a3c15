-- ===== src/Packets/Aggregation.antt =====
-- aggregateRecallRefs of internal/memoryorchestrator/orchestrator.go against the groups it is given.
use mnemosyne_os.Base.{
  ℕ, suc, ◌≤◌, ◌≡◌, refl, String, Bool, true, false, Option, none, some, List, [], ◌∷◌, arith,
  if◌then◌else◌, decided, str_dec,
}
use mnemosyne_os.Base.Text.{trim_space}
use mnemosyne_os.Packets.{RecallRef, has_name, all_of, aggregate_from, aggregate_recall_refs}

-- Whether the reference is to the card of that identifier.
abbrev is_to : String → RecallRef → Bool
is_to k r = decided (str_dec (trim_space r.card_id) k)

unfoldable pub count_to : String → List RecallRef → ℕ
count_to k [] = 0
count_to k (r ∷ rs) = let rest = count_to k rs in if is_to k r then suc rest else rest

unfoldable pub first_to : String → List RecallRef → Option RecallRef
first_to k [] = none
first_to k (r ∷ rs) = if is_to k r then some r else first_to k rs

count-seen :
    (k : String) (seen : List String) (rs : List RecallRef)
    → has_name k seen ≡ true
    → count_to k (aggregate_from seen rs) ≡ 0
unfolding count_to aggregate_from
count-seen k seen [] h = refl
count-seen k seen (r ∷ rs) h =
    ground (arith, count-seen k seen rs h, count-seen k (trim_space r.card_id ∷ seen) rs)

first-seen :
    (k : String) (seen : List String) (rs : List RecallRef)
    → has_name k seen ≡ true
    → first_to k (aggregate_from seen rs) ≡ none
unfolding first_to aggregate_from
first-seen k seen [] h = refl
first-seen k seen (r ∷ rs) h =
    ground (arith, first-seen k seen rs h, first-seen k (trim_space r.card_id ∷ seen) rs)

count-at_most_once :
    (k : String) (seen : List String) (rs : List RecallRef)
    → count_to k (aggregate_from seen rs) ≤ 1
unfolding count_to aggregate_from
count-at_most_once k seen [] = omega arith
count-at_most_once k seen (r ∷ rs) = ground (
  arith,
  count-at_most_once k seen rs,
  count-at_most_once k (trim_space r.card_id ∷ seen) rs,
  count-seen k (trim_space r.card_id ∷ seen) rs,
)

count-blank : (seen : List String) (rs : List RecallRef) → count_to "" (aggregate_from seen rs) ≡ 0
unfolding count_to aggregate_from
count-blank seen [] = refl
count-blank seen (r ∷ rs) =
    ground (arith, count-blank seen rs, count-blank (trim_space r.card_id ∷ seen) rs)

first-kept :
    (k : String) (seen : List String) (rs : List RecallRef)
    → (k ≡ "" → ⊥)
    → has_name k seen ≡ false
    → first_to k (aggregate_from seen rs) ≡ first_to k rs
unfolding first_to aggregate_from
first-kept k seen [] b h = refl
first-kept k seen (r ∷ rs) b h =
    ground (arith, b, first-kept k seen rs b h, first-kept k (trim_space r.card_id ∷ seen) rs b)

-- Of the references to one card, whose identifier is not blank, the first of all groups is kept and
-- no other; no reference with a blank identifier is kept.
pub aggregate_recall_refs_lem :
    (k : String) (groups : List (List RecallRef))
    → (k ≡ "" → ⊥)
    → (count_to k (aggregate_recall_refs groups) ≤ 1)
      × (count_to "" (aggregate_recall_refs groups) ≡ 0)
      × (first_to k (aggregate_recall_refs groups) ≡ first_to k (all_of groups))
unfolding aggregate_recall_refs
aggregate_recall_refs_lem k groups b = (
  count-at_most_once k [] (all_of groups),
  count-blank [] (all_of groups),
  first-kept k [] (all_of groups) b refl,
)
