-- ===== src/Memory/Query.antt =====
-- internal/memory/store.go: the methods that read cards and edges.
pub mod Laws
use Prim.Native.String
use mathlib.Core.List.{reverse, foldl}
use mnemosyne_os.Base.{
  ℕ, String, Bool, true, false, ◌||◌, ◌&&◌, not, Option, none, some, List, [], ◌∷◌, ◌++◌,
  if◌then◌else◌, decided, str_dec, ltb, get_last?,
}
use mnemosyne_os.Base.Assoc
use mnemosyne_os.Base.Float.{Float64}
use mnemosyne_os.Memory.{Card, Edge, Graph, Store, QueryRequest, status_text}
use mnemosyne_os.Memory.Cards.{versions_of, edge_ids_of}

-- `asOf.Before(*card.ValidFrom)` and `asOf.After(*card.ValidTo)`; no bound excludes nothing.
abbrev is_before : ℕ → Option ℕ → Bool
is_before t none = false
is_before t (some from) = ltb t from

abbrev is_after : ℕ → Option ℕ → Bool
is_after t none = false
is_after t (some to) = ltb to t

module _ {Num : Type 0} where
  -- The loop from the last version down.
  first_valid : ℕ → List (Card Num) → Option (Card Num)
  first_valid t [] = none
  first_valid t (c ∷ cs) =
      let rest = first_valid t cs in
      if is_before t c.valid_from then rest else if is_after t c.valid_to then rest else some c

  unfoldable pub resolve_as_of : List (Card Num) → Option ℕ → Option (Card Num)
  unfolding first_valid
  resolve_as_of vs none = get_last? vs
  resolve_as_of vs (some t) = first_valid t (reverse vs)

-- A filter of the request, which the empty text turns off.
abbrev pub passes : String → String → Bool
passes wanted actual = decided (str_dec wanted "") || decided (str_dec actual wanted)

abbrev pub has : String → List String → Bool
has id [] = false
has id (x ∷ xs) = decided (str_dec x id) || has id xs

pub record Collected (Num : Type 0) : Type 0 where
  pub seen : List String
  pub found : List (Edge Num)

pub record QueryResponse (Num : Type 0) : Type 0 where
  pub cards : List (Card Num)
  pub edges : List (Edge Num)

module _ {Num : Type 0} where
  abbrev pub is_match : QueryRequest → Card Num → Bool
  is_match req c =
      passes req.card_type c.card_type
      && passes req.scope c.scope
      && passes req.status (status_text c.status)

  abbrev keep : QueryRequest → Option (Card Num) → List (Card Num) → List (Card Num)
  keep req none rest = rest
  keep req (some c) rest = if is_match req c then c ∷ rest else rest

  matching_cards : QueryRequest → Graph Num → List String → List (Card Num)
  matching_cards req g [] = []
  matching_cards req g (id ∷ ids) =
      keep req (resolve_as_of (versions_of id g) req.as_of) (matching_cards req g ids)

  abbrev pub ids_of : List (Card Num) → List String
  ids_of [] = []
  ids_of (c ∷ cs) = c.card_id ∷ ids_of cs

module _ {Num : Type 0} (F : Float64 Num) where
  -- Go's zero value, which a missing key reads as.
  abbrev zero_edge : Edge Num
  zero_edge = record {
    edge_id = "";
    from_card_id = "";
    to_card_id = "";
    edge_type = "";
    weight = F.zero;
    confidence = F.zero;
    valid_from = none;
    valid_to = none;
    evidence_refs = none;
    created_at = 0;
  }

  abbrev pub edge_of : Graph Num → String → Edge Num
  edge_of g id = elim (Assoc.get str_dec id g.edges) [ none ↦ zero_edge | some e ↦ e ]

  visit : Graph Num → Collected Num → String → Collected Num
  visit g st id =
      if has id st.seen
      then st
      else record { seen = st.seen ++ id ∷ []; found = st.found ++ edge_of g id ∷ [] }

  collect : Graph Num → Collected Num → List String → Collected Num
  unfolding visit
  collect g st [] = st
  collect g st (id ∷ ids) = collect g (foldl (visit g) st (edge_ids_of id g)) ids

  -- `collectEdgesForCards`
  unfoldable pub collect_edges : Graph Num → List String → List (Edge Num)
  unfolding collect
  collect_edges g ids = (collect g (record { seen = []; found = [] }) ids).found

  query_one : Graph Num → String → Option (Card Num) → QueryResponse Num
  query_one g id none = record { cards = []; edges = [] }
  query_one g id (some c) = record { cards = c ∷ []; edges = collect_edges g (id ∷ []) }

  -- `order` is the order in which the map of the cards is walked.
  unfoldable pub query : List String → QueryRequest → Graph Num → QueryResponse Num
  unfolding query_one matching_cards
  query order req g =
      if not (decided (str_dec req.card_id ""))
      then query_one g req.card_id (resolve_as_of (versions_of req.card_id g) req.as_of)
      else let cs = matching_cards req g order in
        record { cards = cs; edges = collect_edges g (ids_of cs) }
