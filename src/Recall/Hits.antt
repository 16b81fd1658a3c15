-- ===== src/Recall/Hits.antt =====
-- internal/recall/service.go: `Recall` and `ApplyFeedback`.
pub mod Laws
pub mod Completeness
use mnemosyne_os.Base.{
  ℕ, zero, suc, ◌+◌, String, Bool, true, false, ◌||◌, ◌&&◌, not, Option, none, some, List, [], ◌∷◌,
  ◌++◌, map, if◌then◌else◌, decided, str_dec, ltb, ℕ_discrete, take,
}
use mnemosyne_os.Base.Assoc
use mnemosyne_os.Base.Disk.{text_lt}
use mnemosyne_os.Base.Float.{Float64}
use mnemosyne_os.Base.Sort.{sort_by}
use mnemosyne_os.Base.Text.{codes, trim_space, is_blank, to_lower}
use mnemosyne_os.Base.Exec.{pure, ◌>>=◌, ◌>>◌}
use mnemosyne_os.Memory.{Card, Graph, Store, Method, is_recall_eligible_status, status_text}
use mnemosyne_os.Memory.Cards.{versions_of, touch_card}
use mnemosyne_os.Memory.Query.{resolve_as_of}
use mnemosyne_os.Recall.Snippets.{trim}
use mnemosyne_os.Recall.{
  Request, Hit, UsageFeedback, Setting, has_codes, source_for_card_type, split_query_tokens,
  score_card,
}

module _ {Num : Type 0} where
  abbrev newer_card : Card Num → Card Num → Bool
  newer_card a b =
      if decided (ℕ_discrete a.created_at b.created_at)
      then text_lt a.card_id b.card_id
      else ltb b.created_at a.created_at

  abbrev with_latest : Option (Card Num) → List (Card Num) → List (Card Num)
  with_latest none rest = rest
  with_latest (some c) rest = c ∷ rest

  latest_of : List String → Graph Num → List (Card Num)
  latest_of [] g = []
  latest_of (id ∷ ids) g = with_latest (resolve_as_of (versions_of id g) none) (latest_of ids g)

  -- `order` is the order in which the map of the cards is walked.
  unfoldable pub latest_cards : List String → Graph Num → List (Card Num)
  unfolding latest_of
  latest_cards order g = sort_by newer_card (latest_of order g)

module _ (st : Setting) where
  -- The names of the sources that are asked for; none of them stands for all.
  unfoldable pub normalize_sources : List String → List (List ℕ)
  normalize_sources [] = []
  normalize_sources (s ∷ ss) =
      let rest = normalize_sources ss in
      if is_blank s then rest else map (to_lower st.fold) (codes (trim_space s)) ∷ rest

-- A limit of 0 stands for every number that is not positive.
abbrev pub limit_of : ℕ → ℕ
limit_of zero = 10
limit_of (suc n) = suc n

unfoldable pub is_wanted : List (List ℕ) → String → Bool
is_wanted [] source = true
is_wanted (f ∷ fs) source = has_codes (codes source) (f ∷ fs)

module _ {Num : Type 0} (F : Float64 Num) (st : Setting) where
  abbrev pub hit_of : Card Num → String → Num × List String × List ℕ → Hit Num
  hit_of c source (score, fields, snippet) = record {
    source = source;
    card_type = c.card_type;
    card_id = c.card_id;
    score = score;
    snippet = snippet;
    matched_fields = fields;
    card = c;
  }

  abbrev scored :
      Card Num → String → List ℕ → Option (Num × List String × List ℕ) → Option (List (Hit Num))
  scored c source query none = none
  scored c source query (some (score, fields, snippet)) = elim query [
    | [] ↦ some (hit_of c source (score, fields, snippet) ∷ [])
    | _ ∷ _ ↦ some (if F.eq score F.zero then [] else hit_of c source (score, fields, snippet) ∷ [])
  ]

  -- The hit of a card, if it is one; `none` is a panic.
  hits_of :
      List ℕ → List (List ℕ) → List (List ℕ) → Card Num → Option String → Option (List (Hit Num))
  hits_of query tokens filter c none = some []
  hits_of query tokens filter c (some source) =
      if is_wanted filter source
      then scored c source query (score_card F st c query tokens)
      else some []

  abbrev card_hits : List ℕ → List (List ℕ) → List (List ℕ) → Card Num → Option (List (Hit Num))
  card_hits query tokens filter c =
      if is_recall_eligible_status (status_text c.status)
      then hits_of query tokens filter c (source_for_card_type c.card_type)
      else some []

  abbrev join_hits : Option (List (Hit Num)) → Option (List (Hit Num)) → Option (List (Hit Num))
  join_hits none _ = none
  join_hits (some xs) none = none
  join_hits (some xs) (some ys) = some (xs ++ ys)

  gather_hits : List ℕ → List (List ℕ) → List (List ℕ) → List (Card Num) → Option (List (Hit Num))
  unfolding hits_of
  gather_hits query tokens filter [] = some []
  gather_hits query tokens filter (c ∷ cs) =
      join_hits (card_hits query tokens filter c) (gather_hits query tokens filter cs)

  abbrev better : Hit Num → Hit Num → Bool
  better a b =
      if F.eq a.score b.score
      then (if decided (ℕ_discrete a.card.created_at b.card.created_at)
          then text_lt a.card_id b.card_id
          else ltb b.card.created_at a.card.created_at)
      else F.lt b.score a.score

  limited : ℕ → Option (List (Hit Num)) → Option (List (Hit Num))
  limited limit none = none
  limited limit (some hits) = some (take (limit_of limit) (sort_by better hits))

  -- `none` is a panic.
  unfoldable pub recall : List String → Request → Graph Num → Option (List (Hit Num))
  unfolding limited gather_hits
  recall order req g =
      let query = trim (codes req.query) in
      limited req.limit (
        gather_hits query (split_query_tokens st.fold query) (normalize_sources st req.sources)
          (latest_cards order g))

module _ {Num : Type 0} (F : Float64 Num) where
  abbrev merged_entry : UsageFeedback Num → Option (UsageFeedback Num) → UsageFeedback Num
  merged_entry item none = record {
    card_id = trim_space item.card_id;
    activation_delta = F.add F.zero item.activation_delta;
    confidence_delta = F.add F.zero item.confidence_delta;
  }
  merged_entry item (some old) = record {
    card_id = trim_space item.card_id;
    activation_delta = F.add old.activation_delta item.activation_delta;
    confidence_delta = F.add old.confidence_delta item.confidence_delta;
  }

  unfoldable pub merge_feedback :
      List (String × UsageFeedback Num)
      → List (UsageFeedback Num)
      → List (String × UsageFeedback Num)
  merge_feedback acc [] = acc
  merge_feedback acc (item ∷ rest) =
      let id = trim_space item.card_id in
      merge_feedback
        (if is_blank item.card_id
          then acc
          else Assoc.put str_dec id (merged_entry item (Assoc.get str_dec id acc)) acc)
        rest

  touch_each : ℕ → List (String × UsageFeedback Num) → Method Num (Unit {0})
  touch_each now [] = pure tt
  touch_each now ((id, item) ∷ rest) = do
    touch_card F now item.card_id item.activation_delta item.confidence_delta
    touch_each now rest

  -- `arrange` is the order in which the map of the merged feedback is walked.
  unfoldable pub apply_feedback :
      (List (String × UsageFeedback Num) → List (String × UsageFeedback Num))
      → ℕ
      → List (UsageFeedback Num)
      → Method Num (Unit {0})
  unfolding touch_each
  apply_feedback arrange now feedback = touch_each now (arrange (merge_feedback [] feedback))
