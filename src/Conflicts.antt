-- ===== src/Conflicts.antt =====
-- internal/memory/conflict.go: cards on one topic that say different things. A text is a list of code
-- points, a topic too, and a reason is in bytes.
pub mod Groups
pub mod Laws
mod Tests
use Prim.Native.String.{◌++◌ as text_append}
use mnemosyne_os.Base.{
  ℕ, ◌-◌, String, Bool, true, false, ◌||◌, Option, none, some, List, [], ◌∷◌, ◌++◌, map,
  if◌then◌else◌, decided, str_dec, ltb, leb, length, take,
}
use mnemosyne_os.Base.Assoc
use mnemosyne_os.Base.Float.{Float64}
use mnemosyne_os.Base.Sort.{sort_by}
use mnemosyne_os.Base.Text.{codes, to_lower, is_blank, trim_space}
use mnemosyne_os.Memory.{Card, Graph, QueryRequest, Value, text, number, names, other}
use mnemosyne_os.Memory.Query.{query, has}
use mnemosyne_os.Recall.{codes_dec, fields_from, content_of, is_nil}
use mnemosyne_os.Recall.Snippets.{bytes_of, trim}

pub record Conflict (Num : Type 0) : Type 0 where
  pub card_a : String
  pub card_b : String
  pub topic : List ℕ
  pub reason : List ℕ
  pub score_delta : Num

pub record ConflictDetectionRequest : Type 0 where
  pub scope : String
  pub card_type : String

pub record ConflictDetectionResult (Num : Type 0) : Type 0 where
  pub examined : ℕ
  pub conflicts : List (Conflict Num)

-- strings.Compare
codes_lt : List ℕ → List ℕ → Bool
codes_lt [] [] = false
codes_lt [] (_ ∷ _) = true
codes_lt (_ ∷ _) [] = false
codes_lt (c ∷ s) (d ∷ t) =
    let rest = codes_lt s t in if ltb c d then true else if ltb d c then false else rest

joined : List (List ℕ) → List ℕ
joined [] = []
joined (w ∷ []) = w
joined (w ∷ v ∷ ws) = w ++ (32 ∷ joined (v ∷ ws))

abbrev small : (ℕ → ℕ) → List ℕ → List ℕ
small fold t = trim (map (to_lower fold) t)

-- The words of the text, in their order.
unfoldable pub normalize_topic : (ℕ → ℕ) → List ℕ → List ℕ
unfolding codes_lt joined
normalize_topic fold t = joined (sort_by codes_lt (fields_from [] (small fold t)))

abbrev as_text : Option Value → Option (List ℕ)
as_text none = none
as_text (some (text s)) = some (codes s)
as_text (some (number _)) = none
as_text (some (names _)) = none
as_text (some (other _)) = none

abbrev or_topic : Option (List ℕ) → (ℕ → ℕ) → List ℕ → List ℕ
or_topic none fold rest = rest
or_topic (some t) fold rest =
    if is_nil (normalize_topic fold t) then rest else normalize_topic fold t

abbrev pub ByTopic : Type 0 → Type 0
ByTopic Num = List (List ℕ × List (Card Num))

module _ {Num : Type 0} where
  abbrev field : String → Card Num → Option (List ℕ)
  field key c = as_text (Assoc.get str_dec key (content_of c.content))

  first_topic : (ℕ → ℕ) → List String → Card Num → List ℕ
  first_topic fold [] c = []
  first_topic fold (key ∷ keys) c = or_topic (field key c) fold (first_topic fold keys c)

  -- Nothing where there is no topic.
  unfoldable pub extract_topic : (ℕ → ℕ) → Card Num → List ℕ
  unfolding first_topic
  extract_topic fold c =
      first_topic fold ("topic" ∷ "subject" ∷ "summary" ∷ "query" ∷ "claim" ∷ []) c

abbrev truncate : List ℕ → ℕ → List ℕ
truncate b max = if leb (length b) max then b else take (max - 3) b ++ codes "..."

abbrev divergence : String → List ℕ → List ℕ → List ℕ
divergence key a b =
    bytes_of (codes "divergent " ++ (codes key ++ codes ": "))
    ++ (truncate (bytes_of a) 80 ++ (codes " vs " ++ truncate (bytes_of b) 80))

abbrev compared :
    (ℕ → ℕ) → String → Option (List ℕ) → Option (List ℕ) → Option (List ℕ) → Option (List ℕ)
compared fold key none _ rest = rest
compared fold key (some a) none rest = rest
compared fold key (some a) (some b) rest =
    if is_nil (small fold a) || is_nil (small fold b)
    then rest
    else if decided (codes_dec (small fold a) (small fold b))
    then rest
    else some (divergence key (small fold a) (small fold b))

module _ {Num : Type 0} where
  first_conflict : (ℕ → ℕ) → List String → Card Num → Card Num → Option (List ℕ)
  first_conflict fold [] a b = none
  first_conflict fold (key ∷ keys) a b =
      compared fold key (field key a) (field key b) (first_conflict fold keys a b)

  unfoldable pub content_conflict : (ℕ → ℕ) → Card Num → Card Num → Option (List ℕ)
  unfolding first_conflict
  content_conflict fold a b = first_conflict fold ("answer" ∷ "claim" ∷ "summary" ∷ "body" ∷ []) a b

  abbrev pub entries : List ℕ → ByTopic Num → List (Card Num)
  entries t m = elim (Assoc.get codes_dec t m) [ none ↦ [] | some cs ↦ cs ]

  abbrev pub add_card : (ℕ → ℕ) → Card Num → ByTopic Num → ByTopic Num
  add_card fold c m =
      let t = extract_topic fold c in
      if is_nil t then m else Assoc.put codes_dec t (entries t m ++ c ∷ []) m

  unfoldable pub by_topic : (ℕ → ℕ) → ByTopic Num → List (Card Num) → ByTopic Num
  by_topic fold m [] = m
  by_topic fold m (c ∷ cs) = by_topic fold (add_card fold c m) cs

  pub pairs_with : List ℕ → Card Num → List (Card Num) → List (List ℕ × Card Num × Card Num)
  pairs_with t a [] = []
  pairs_with t a (b ∷ bs) = (t, a, b) ∷ pairs_with t a bs

  pub pairs_on : List ℕ → List (Card Num) → List (List ℕ × Card Num × Card Num)
  unfolding pairs_with
  pairs_on t [] = []
  pairs_on t (a ∷ cs) = pairs_with t a cs ++ pairs_on t cs

  unfoldable pub all_pairs : ByTopic Num → List (List ℕ × Card Num × Card Num)
  unfolding pairs_on
  all_pairs [] = []
  all_pairs ((t, cs) ∷ m) = pairs_on t cs ++ all_pairs m

abbrev pub pair_key : String → String → String
pair_key a b = text_append a (text_append "|" b)

module _ {Num : Type 0} (F : Float64 Num) (fold : ℕ → ℕ) where
  abbrev pub conflict_of : List ℕ → Card Num → Card Num → List ℕ → Conflict Num
  conflict_of t a b r = record {
    card_a = a.card_id;
    card_b = b.card_id;
    topic = t;
    reason = r;
    score_delta = F.sub a.activation.score b.activation.score;
  }

  abbrev pub noted :
      Option (List ℕ)
      → (List ℕ → Conflict Num)
      → List (Conflict Num)
      → List (Conflict Num)
      → List (Conflict Num)
  noted none made same fresh = same
  noted (some r) made same fresh = made r ∷ fresh

  unfoldable pub scan : List String → List (List ℕ × Card Num × Card Num) → List (Conflict Num)
  scan seen [] = []
  scan seen ((t, a, b) ∷ ps) =
      let same = scan seen ps in
      let fresh = scan (pair_key a.card_id b.card_id ∷ seen) ps in
      if has (pair_key a.card_id b.card_id) seen
      then same
      else noted (content_conflict fold a b) (conflict_of t a b) same fresh

  abbrev wanted : ConflictDetectionRequest → String → QueryRequest
  wanted req status = record {
    card_id = "";
    card_type = if is_blank req.card_type then "fact" else trim_space req.card_type;
    scope = trim_space req.scope;
    status = status;
    as_of = none;
  }

  abbrev pub examined_cards :
      List String × List String → ConflictDetectionRequest → Graph Num → List (Card Num)
  examined_cards orders req g =
      (query F orders.0 (wanted req "active") g).cards
      ++ (query F orders.1 (wanted req "candidate") g).cards

  -- The map of the cards is walked twice, in these orders, and `arrange` says in which order that of
  -- the topics is.
  unfoldable pub detect_conflicts :
      List String × List String
      → (ByTopic Num → ByTopic Num)
      → ConflictDetectionRequest
      → Graph Num
      → ConflictDetectionResult Num
  detect_conflicts orders arrange req g =
      let cards = examined_cards orders req g in
      record {
        examined = length cards;
        conflicts = scan [] (all_pairs (arrange (by_topic fold [] cards)));
      }
