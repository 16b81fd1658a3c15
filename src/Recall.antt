-- ===== src/Recall.antt =====
-- internal/recall/service.go: cards that match a query, scored and put in order.
pub mod Snippets
pub mod Hits
mod Tests
use mnemosyne_os.Base.{
  ℕ, zero, suc, ◌+◌, String, Bool, true, false, ◌||◌, ◌&&◌, not, Option, none, some, List, [], ◌∷◌,
  ◌++◌, map, if◌then◌else◌, decided, str_dec, ltb, ℕ_discrete, take,
}
use mnemosyne_os.Base.Assoc
use mnemosyne_os.Base.Disk.{text_lt}
use mnemosyne_os.Base.Float.{Float64}
use mnemosyne_os.Base.Sort.{sort_by}
use mnemosyne_os.Base.Text.{codes, trim_space, is_blank, is_space, to_lower, contains}
use mnemosyne_os.Base.Exec.{pure, ◌>>=◌, ◌>>◌}
use mnemosyne_os.Memory.{
  Card, Graph, Store, Method, Value, text, number, names, other, Content, is_recall_eligible_status,
  status_text,
}
use mnemosyne_os.Memory.Cards.{versions_of, touch_card}
use mnemosyne_os.Memory.Query.{resolve_as_of}
use mnemosyne_os.Recall.Snippets.{bytes_of, trim, on_one_line, snippet_around_match, trim_bytes}

pub record Request : Type 0 where
  pub query : String
  pub sources : List String
  pub limit : ℕ

pub record Hit (Num : Type 0) : Type 0 where
  pub source : String
  pub card_type : String
  pub card_id : String
  pub score : Num
  pub snippet : List ℕ
  pub matched_fields : List String
  pub card : Card Num

pub record UsageFeedback (Num : Type 0) : Type 0 where
  pub card_id : String
  pub activation_delta : Num
  pub confidence_delta : Num

-- `fold` is Unicode's table of small letters, `print` fmt's %v of a value that is no text.
pub record Setting : Type 0 where
  pub fold : ℕ → ℕ
  pub print : Value → List ℕ

abbrev pub one_of : String → List String → Bool
one_of s [] = false
one_of s (x ∷ xs) = decided (str_dec s x) || one_of s xs

-- `none` where the type has no source.
unfoldable pub source_for_card_type : String → Option String
source_for_card_type t =
    if one_of t ("web_search" ∷ "search_summary" ∷ "web_result" ∷ [])
    then some "web"
    else if one_of t ("email_inbox" ∷ "email_summary" ∷ "email_thread" ∷ "email_message" ∷ [])
    then some "email"
    else if one_of t ("github_issue_search" ∷ "github_issue_summary" ∷ "github_issue" ∷ [])
    then some "github"
    else if one_of t ("procedure" ∷ [])
    then some "procedure"
    else none

abbrev small : (ℕ → ℕ) → List ℕ → List ℕ
small fold t = map (to_lower fold) t

abbrev pub is_nil : List ℕ → Bool
is_nil [] = true
is_nil (_ ∷ _) = false

unfoldable pub codes_dec : Discrete (List ℕ)
codes_dec = hlevel (ℕ_discrete)

unfoldable pub has_codes : List ℕ → List (List ℕ) → Bool
has_codes t [] = false
has_codes t (x ∷ xs) = decided (codes_dec x t) || has_codes t xs

-- strings.Fields: the word that is being read, then the rest.
unfoldable pub fields_from : List ℕ → List ℕ → List (List ℕ)
fields_from word [] = if is_nil word then [] else word ∷ []
fields_from word (c ∷ t) =
    let next = fields_from [] t in
    let more = fields_from (word ++ c ∷ []) t in
    if is_space c then (if is_nil word then next else word ∷ next) else more

add_new : List (List ℕ) → List (List ℕ) → List (List ℕ)
unfolding has_codes
add_new out [] = out
add_new out (f ∷ fs) = add_new (if has_codes f out then out else out ++ f ∷ []) fs

-- The whole query first, then its words.
unfoldable pub split_query_tokens : (ℕ → ℕ) → List ℕ → List (List ℕ)
unfolding fields_from add_new
split_query_tokens fold query =
    let whole = trim (small fold query) in
    add_new (if is_nil whole then [] else whole ∷ []) (fields_from [] (small fold query))

joined : List String → List ℕ
joined [] = []
joined (x ∷ []) = codes x
joined (x ∷ y ∷ xs) = codes x ++ (32 ∷ joined (y ∷ xs))

-- One field as a text.
flatten_value : Setting → Value → List ℕ
unfolding joined
flatten_value st (text s) = codes s
flatten_value st (names xs) = joined xs
flatten_value st (number n) = trim (on_one_line (st.print (number n)))
flatten_value st (other n) = trim (on_one_line (st.print (other n)))

abbrev pub content_of : Option Content → Content
content_of none = []
content_of (some c) = c

-- The first text among the fields that is not blank, in the order of the names.
first_text : List String → Content → Option String
first_text [] content = none
first_text (f ∷ fs) content =
    let rest = first_text fs content in
    elim (Assoc.get str_dec f content) [
      | none ↦ rest
      | some v ↦ elim v [
        | text s ↦ if is_blank s then rest else some s
        | number _ ↦ rest
        | names _ ↦ rest
        | other _ ↦ rest
      ]
    ]

abbrev preview_fields : List String
preview_fields = "summary" ∷ "snippet" ∷ "subject" ∷ "title" ∷ "body" ∷ "goal" ∷ "query" ∷ []

-- What has been found in the fields so far.
pub record Found (Num : Type 0) : Type 0 where
  pub score : Num
  pub fields : List String
  pub best : List ℕ

module _ {Num : Type 0} (F : Float64 Num) (st : Setting) where
  unfoldable pub preview_card : Card Num → Option (List ℕ)
  unfolding first_text
  preview_card c = elim (first_text preview_fields (content_of c.content)) [
    | none ↦ some (bytes_of (codes c.card_id))
    | some s ↦ snippet_around_match st.fold (codes s) [] 180
  ]

  unfoldable pub base_weight : String → Num
  base_weight t =
      if one_of t ("search_summary" ∷ "email_summary" ∷ "github_issue_summary" ∷ [])
      then F.of_nat 4
      else if one_of t ("email_thread" ∷ [])
      then F.literal 7 2
      else if one_of t ("web_result" ∷ "email_message" ∷ "github_issue" ∷ [])
      then F.of_nat 3
      else if one_of t ("procedure" ∷ [])
      then F.literal 19 5
      else if one_of t ("web_search" ∷ "email_inbox" ∷ "github_issue_search" ∷ [])
      then F.of_nat 2
      else F.of_nat 1

  abbrev or_best : List ℕ → Option (List ℕ) → Option (List ℕ)
  or_best [] o = o
  or_best (b ∷ bs) o = some (b ∷ bs)

  -- The tokens that a value holds: the score, whether any, and the first snippet.
  match_tokens : List ℕ → List (List ℕ) → Num → Bool → List ℕ → Option (Num × Bool × List ℕ)
  match_tokens value [] score hit best = some (score, hit, best)
  match_tokens value (t ∷ ts) score hit best =
      let missed = match_tokens value ts score hit best in
      let matched = λ (b : List ℕ). match_tokens value ts (F.add score F.one) true b in
      if is_nil t || not (contains (small st.fold value) t)
      then missed
      else elim (or_best best (snippet_around_match st.fold value t 180)) [
        | none ↦ none
        | some b ↦ matched b
      ]

  abbrev noted : String → Found Num → Num × Bool × List ℕ → Found Num
  noted field old (score, hit, best) = record {
    score = score;
    fields = if hit then old.fields ++ field ∷ [] else old.fields;
    best = best;
  }

  -- The content is walked in the order of its list.
  match_fields : List (List ℕ) → Content → Found Num → Option (Found Num)
  unfolding match_tokens flatten_value
  match_fields tokens [] found = some found
  match_fields tokens ((field, v) ∷ rest) found =
      elim (match_tokens (flatten_value st v) tokens found.score false found.best) [
        | none ↦ none
        | some m ↦ match_fields tokens rest (noted field found m)
      ]

  first_non_empty : List ℕ → Option (List ℕ) → Option (List ℕ)
  first_non_empty best none = none
  first_non_empty best (some preview) =
      some (if is_nil (trim_bytes best) then trim_bytes preview else trim_bytes best)

  -- The score, the fields and the snippet of a card.
  graded : Card Num → Option (Found Num) → Option (Num × List String × List ℕ)
  unfolding first_non_empty
  graded c none = none
  graded c (some found) = elim found.fields [
    | [] ↦ some (F.zero, [], [])
    | f ∷ fs ↦ elim (first_non_empty found.best (preview_card c)) [
      | none ↦ none
      | some s ↦ some (F.add (base_weight c.card_type) found.score, f ∷ fs, s)
    ]
  ]

  previewed : Num → Option (List ℕ) → Option (Num × List String × List ℕ)
  previewed base none = none
  previewed base (some s) = some (base, [], s)

  -- `none` is a panic.
  unfoldable pub score_card :
      Card Num → List ℕ → List (List ℕ) → Option (Num × List String × List ℕ)
  unfolding graded previewed match_fields
  score_card c query tokens =
      if is_nil (trim query)
      then previewed (base_weight c.card_type) (preview_card c)
      else graded c (
          match_fields tokens (content_of c.content)
            (record { score = F.zero; fields = []; best = [] }))
