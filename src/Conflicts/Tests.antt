-- ===== src/Conflicts/Tests.antt =====
-- The theorems on conflicts at a concrete store.
use mnemosyne_os.Base.{
  ℕ, ◌≡◌, ◌≢◌, refl, inl, true, none, some, List, [], ◌∷◌, String, All, subst, sym, ◌∙◌, str_dec,
  ℕ_discrete,
}
use mnemosyne_os.Base.Float.{whole}
use mnemosyne_os.Base.Text.{codes, trim_space, is_space, to_lower}
use mnemosyne_os.Memory.{active, Card, Graph, text}
use mnemosyne_os.Memory.Query.{has, query, resolve_as_of}
use mnemosyne_os.Memory.Query.Laws.{NoRepeats}
use mnemosyne_os.Conflicts.{
  ByTopic, Conflict, ConflictDetectionRequest, extract_topic, normalize_topic, content_conflict,
  pair_key, examined_cards, detect_conflicts,
}
use mnemosyne_os.Conflicts.Groups.{Before}
use mnemosyne_os.Conflicts.Laws.{
  keys, IsConflict, detect_conflicts-IsConflict, detect_conflicts_complete,
}
use mnemosyne_os.Base.Assoc.{get}
use mnemosyne_os.Base.Sort.{sort_by}
use mnemosyne_os.Recall.Snippets.{trim, bytes_of}
use mnemosyne_os.Recall.{codes_dec, fields_from}

abbrev plain : ℕ → ℕ
plain c = c

abbrev fact : String → String → String → Card ℕ
fact id topic answer = record {
  card_id = id;
  card_type = "fact";
  scope = "project";
  created_at = 1;
  valid_from = none;
  valid_to = none;
  version = 1;
  prev_version = "";
  status = active;
  supersedes = "";
  content = some (("topic", text topic) ∷ ("answer", text answer) ∷ []);
  evidence_refs = none;
  provenance = record { agent_id = ""; source = ""; confidence = 1 };
  activation = record {
    score = 1;
    last_access_at = none;
    last_evaluated_at = none;
    decay_policy = "";
  };
}

abbrev yes_fact : Card ℕ
yes_fact = fact "a" "Go" "Yes"

abbrev no_fact : Card ℕ
no_fact = fact "b" " go" "No"

abbrev facts : Graph ℕ
facts = record {
  cards = ("a", yes_fact ∷ []) ∷ ("b", no_fact ∷ []) ∷ [];
  edges = [];
  edges_by_card = [];
}

abbrev orders : List String × List String
orders = ("a" ∷ "b" ∷ [], "a" ∷ "b" ∷ [])

abbrev asked : ConflictDetectionRequest
asked = record { scope = "project"; card_type = "" }

abbrev same : ByTopic ℕ → ByTopic ℕ
same m = m

abbrev found : List (Conflict ℕ)
found = (detect_conflicts whole plain orders same asked facts).conflicts

detect_conflicts-IsConflict_example :
    All (IsConflict whole plain (examined_cards whole plain orders asked facts)) found
detect_conflicts-IsConflict_example =
    detect_conflicts-IsConflict whole plain orders same asked facts (λ m e h. h)

on_go : (extract_topic plain yes_fact ≡ codes "go") × (extract_topic plain no_fact ≡ codes "go")
unfolding extract_topic normalize_topic sort_by str_dec get is_space to_lower trim fields_from
on_go = (refl, refl)

divergent : content_conflict plain yes_fact no_fact ≡ some (codes "divergent answer: yes vs no")
unfolding content_conflict str_dec get is_space to_lower trim bytes_of codes_dec ℕ_discrete
divergent = refl

both_examined : Before yes_fact no_fact (examined_cards whole plain orders asked facts)
unfolding query resolve_as_of str_dec get trim_space
both_examined = inl (refl, inl refl)

go_is_a_topic : codes "go" ≢ []
go_is_a_topic e = cc

detect_conflicts_complete_example :
    (has (pair_key "a" "b") (keys whole plain found) ≡ true) × NoRepeats (keys whole plain found)
detect_conflicts_complete_example =
    detect_conflicts_complete whole plain orders same asked facts yes_fact no_fact
      {r = codes "divergent answer: yes vs no"} (λ m e h. h) both_examined
      (subst (λ t. t ≢ []) (sym on_go.0) go_is_a_topic) (on_go.1 ∙ sym on_go.0) divergent
