-- ===== src/Memory/Tests.antt =====
-- The theorems on cards at concrete stores.
use mnemosyne_os.Base.{ℕ, String, ◌≡◌, refl, none, some, List, [], ◌∷◌, ℕ_discrete, get_last?, map}
use mnemosyne_os.Base.Assoc
use mnemosyne_os.Base.Float.{whole}
use mnemosyne_os.Memory.{active, Card, Edge, Graph, Store, CreateCardRequest, QueryRequest}
use mnemosyne_os.Memory.Files.{file_name, legacy_name, name_dec}
use mnemosyne_os.Memory.Cards.{persist_card}
use mnemosyne_os.Memory.Cards.Snapshots.{persist_card_loses}
use mnemosyne_os.Memory.Chains.{IsChained}
use mnemosyne_os.Memory.Journal.{replay, verify_integrity, all_well}
use mnemosyne_os.Memory.Journal.Agreement.{
  Call, creating, touching, governing, run, opened, verify_integrity-run,
}
use mnemosyne_os.Memory.Governance.{GovernanceOptions, assess}
use mnemosyne_os.Memory.Governance.Laws.{IsAging, assess-IsAging}
use mnemosyne_os.Memory.Query.{resolve_as_of, collect_edges, has, edge_of}
use mnemosyne_os.Memory.Query.Laws.{
  valid_versions, resolve_as_of_latest, NoRepeats, touches_any, collect_edges_lem,
}

abbrev card_at : ℕ → Card ℕ
card_at v = record {
  card_id = "a";
  card_type = "fact";
  scope = "project";
  created_at = 1;
  valid_from = some v;
  valid_to = none;
  version = v;
  prev_version = "";
  status = active;
  supersedes = "";
  content = none;
  evidence_refs = none;
  provenance = record { agent_id = "agent"; source = "test"; confidence = 1 };
  activation = record {
    score = 1;
    last_access_at = none;
    last_evaluated_at = none;
    decay_policy = "";
  };
}

abbrev asked : CreateCardRequest ℕ
asked = record {
  card_id = "a";
  card_type = "fact";
  scope = "project";
  status = "";
  supersedes = "";
  valid_from = none;
  valid_to = none;
  activation = none;
  content = none;
  evidence_refs = none;
  provenance = record { agent_id = "agent"; source = "test"; confidence = 1 };
}

abbrev options : GovernanceOptions ℕ
options = record { base_decay_rate = 1; stale_threshold = 1; archive_threshold = 1; now = none }

abbrev calls : List (ℕ × Call ℕ)
calls =
    (1, creating asked) ∷ (2, touching "a" 1 0) ∷ (3600000000001, governing ("a" ∷ []) options) ∷ []

verify_integrity-run_example :
    (replay (run whole calls opened).journal ≡ (run whole calls opened).graph)
    × (verify_integrity (run whole calls opened) ≡ all_well)
    × IsChained (run whole calls opened).graph
verify_integrity-run_example = verify_integrity-run whole calls

assess-IsAging_example : IsAging (card_at 1) (assess whole options 7200000000001 (card_at 1))
assess-IsAging_example = assess-IsAging whole options 7200000000001 (card_at 1)

resolve_as_of_latest_example :
    (resolve_as_of (card_at 1 ∷ card_at 5 ∷ []) (some 3)
      ≡ get_last? (valid_versions 3 (card_at 1 ∷ card_at 5 ∷ [])))
    × (resolve_as_of (card_at 1 ∷ card_at 5 ∷ []) none ≡ some (card_at 5))
resolve_as_of_latest_example = resolve_as_of_latest (card_at 1 ∷ card_at 5 ∷ []) 3

abbrev edge_ab : Edge ℕ
edge_ab = record {
  edge_id = "e";
  from_card_id = "a";
  to_card_id = "b";
  edge_type = "supports";
  weight = 1;
  confidence = 1;
  valid_from = none;
  valid_to = none;
  evidence_refs = none;
  created_at = 1;
}

abbrev linked : Graph ℕ
linked = record {
  cards = ("a", card_at 1 ∷ []) ∷ ("b", card_at 2 ∷ []) ∷ [];
  edges = ("e", edge_ab) ∷ [];
  edges_by_card = ("a", "e" ∷ []) ∷ ("b", "e" ∷ []) ∷ [];
}

collect_edges_lem_example :
    (es : List String) × (collect_edges whole linked ("a" ∷ "b" ∷ [])
      ≡ map (edge_of whole linked) es)
    × NoRepeats es
    × ((e : String) → has e es ≡ touches_any linked e ("a" ∷ "b" ∷ []))
collect_edges_lem_example = collect_edges_lem whole linked ("a" ∷ "b" ∷ [])

abbrev wanted : QueryRequest
wanted = record { card_id = ""; card_type = "fact"; scope = ""; status = "active"; as_of = none }

-- Two cards, of which the second is named by the bytes of the first in hexadecimal.
abbrev ambiguous : Store ℕ
ambiguous = record opened {
  graph = record linked { cards = ("ab", card_at 1 ∷ []) ∷ ("6162", card_at 2 ∷ []) ∷ [] };
  card_files = (file_name "ab", card_at 1 ∷ []) ∷ [];
}

persist_card_loses_example :
    Assoc.get name_dec (file_name "ab") (persist_card "6162" ambiguous).1.card_files ≡ none
unfolding file_name legacy_name ℕ_discrete
persist_card_loses_example = persist_card_loses "ab" "6162" ambiguous refl refl (λ e. cc)
