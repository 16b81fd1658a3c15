-- ===== src/Recall/Tests.antt =====
-- The theorems on recall at a concrete store.
use mathlib.Core.List.{Mem}
use mnemosyne_os.Base.{
  ℕ, zero, suc, ◌≤◌, ◌<◌, ◌≡◌, ◌↔◌, refl, none, some, List, [], ◌∷◌, ◌+◌, ◌/◌, arith, if◌then◌else◌,
  decided, ℕ_discrete, All, length,
}
use mnemosyne_os.Base.{str_dec}
use mnemosyne_os.Base.Assoc.{get}
use mnemosyne_os.Base.Float.{whole}
use mnemosyne_os.Base.Sort.{sort_by}
use mnemosyne_os.Base.Text.{codes, is_space, to_lower, contains, has_prefix, trim_space}
use mnemosyne_os.Memory.{
  active, Card, Graph, text, is_recall_eligible_status, normalize_card_status,
}
use mnemosyne_os.Memory.Query.{resolve_as_of}
use mnemosyne_os.Recall.{
  Request, Hit, Setting, split_query_tokens, source_for_card_type, score_card, codes_dec,
  base_weight, preview_card,
}
use mnemosyne_os.Recall.Hits.{recall, normalize_sources, limit_of, latest_cards, is_wanted}
use mnemosyne_os.Recall.Hits.Completeness.{recall_complete}
use mnemosyne_os.Recall.Hits.Laws.{IsHit, recall-IsHit}
use mnemosyne_os.Recall.Snippets.{
  bytes_of, trim, on_one_line, match_at, snippet_around_match, snippet_around_match_panics,
  trim_bytes,
}

-- U+023A becomes U+2C65, which is a byte longer.
abbrev folding : ℕ → ℕ
folding c = if decided (ℕ_discrete c 0x23a) then 0x2c65 else c

abbrev setting : Setting
setting = record { fold = folding; print = λ v. [] }

abbrev page : Card ℕ
page = record {
  card_id = "c1";
  card_type = "web_result";
  scope = "project";
  created_at = 1;
  valid_from = none;
  valid_to = none;
  version = 1;
  prev_version = "";
  status = active;
  supersedes = "";
  content = some (("title", text "Go maps") ∷ []);
  evidence_refs = none;
  provenance = record { agent_id = ""; source = ""; confidence = 1 };
  activation = record {
    score = 1;
    last_access_at = none;
    last_evaluated_at = none;
    decay_policy = "";
  };
}

abbrev library : Graph ℕ
library = record { cards = ("c1", page ∷ []) ∷ []; edges = []; edges_by_card = [] }

abbrev asked : Request
asked = record { query = "go"; sources = []; limit = 3 }

abbrev answer : Hit ℕ
answer = record {
  source = "web";
  card_type = "web_result";
  card_id = "c1";
  score = 4;
  snippet = codes "Go maps";
  matched_fields = "title" ∷ [];
  card = page;
}

recalled : recall whole setting ("c1" ∷ []) asked library ≡ some (answer ∷ [])
unfolding recall latest_cards sort_by resolve_as_of get str_dec is_recall_eligible_status
    normalize_card_status source_for_card_type is_wanted normalize_sources score_card trim is_space
    split_query_tokens to_lower codes_dec ℕ_discrete contains has_prefix trim_space bytes_of
    match_at on_one_line snippet_around_match trim_bytes base_weight preview_card
recalled = refl

recall-IsHit_example :
    All
      (IsHit whole setting
        (trim (codes "go"))
        (split_query_tokens folding (trim (codes "go")))
        (normalize_sources setting []))
      (answer ∷ [])
    × (length (answer ∷ []) ≤ limit_of 3)
recall-IsHit_example = recall-IsHit whole setting ("c1" ∷ []) asked library recalled

recall_complete_example : Mem answer (answer ∷ [])
unfolding latest_cards sort_by resolve_as_of get str_dec ℕ_discrete
recall_complete_example =
    recall_complete whole setting ("c1" ∷ []) asked library "c1" answer recalled (omega arith)
      (λ id vs stored. ground arith) refl
      (recall-IsHit whole setting ("c1" ∷ []) asked library recalled).0.0 refl

-- So many letters of two bytes whose small letters have three, and then "x".
abbrev letters : ℕ → List ℕ
letters zero = 120 ∷ []
letters (suc n) = 0x23a ∷ letters n

length-letters : length (bytes_of (trim (on_one_line (letters 100)))) ≡ 201
unfolding trim on_one_line bytes_of ℕ_discrete is_space
length-letters = refl

snippet_around_match_panics_example :
    (snippet_around_match folding (letters 100) (120 ∷ []) 180 ≡ none)
    ↔ (length (bytes_of (trim (on_one_line (letters 100)))) + 180 / 3 < 300)
unfolding trim on_one_line bytes_of match_at ℕ_discrete is_space to_lower has_prefix
snippet_around_match_panics_example =
    snippet_around_match_panics folding (letters 100) 120 [] 180 {i = 300}
      (omega (arith, length-letters)) refl

recall_may_panic : snippet_around_match folding (letters 200) (120 ∷ []) 180 ≡ none
unfolding snippet_around_match trim on_one_line ℕ_discrete is_space to_lower has_prefix
recall_may_panic = refl
