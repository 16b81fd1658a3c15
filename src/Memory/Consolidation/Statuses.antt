-- ===== src/Memory/Consolidation/Statuses.antt =====
-- What PromoteCandidates does to the statuses of the cards (internal/memory/consolidator.go).
use mnemosyne_os.Base.{
  ℕ, zero, suc, take, drop, All, String, ◌≡◌, ◌≢◌, ap, false, Option, none, some, List, [], ◌∷◌,
  ◌++◌, arith, if◌then◌else◌, decided, str_dec, get_last?, get_last?-append, Bool-cases, inl, inr,
}
use mnemosyne_os.Base.Assoc
use mnemosyne_os.Base.Float.{Float64}
use mnemosyne_os.Base.Result.{ok, err}
use mnemosyne_os.Base.Text.{is_blank, trim_space}
use mnemosyne_os.Memory.{
  CardStatus, active, superseded, archived, Card, Graph, Store, UpdateCardRequest, not_found,
  card_updated,
}
use mnemosyne_os.Memory.Cards.{
  versions_of, revise, update_card, updated_card, is_unsupported, override_status,
}
use mnemosyne_os.Memory.Cards.Laws.{
  IsCalm, with_versions, graph-record_versions, record_versions_ok,
}

abbrev status_of_last : {Num : Type 0} → Option (Card Num) → Option CardStatus
status_of_last none = none
status_of_last (some c) = some c.status

-- The status of each card, as far as there is one.
abbrev pub Statuses : Type 0
Statuses = String → Option CardStatus

abbrev pub statuses : {Num : Type 0} → Graph Num → Statuses
statuses g id = status_of_last (get_last? (versions_of id g))

abbrev changed_to : CardStatus → Option CardStatus → Option CardStatus
changed_to st none = none
changed_to st (some _) = some st

-- A card that is there gets another status.
abbrev pub assign : String → CardStatus → Statuses → Statuses
assign id st v k = if decided (str_dec id k) then changed_to st (v k) else v k

module _ {Num : Type 0} (F : Float64 Num) (now : ℕ) where
  pub statuses-with_versions :
      (id : String) (d c : Card Num) (g : Graph Num)
      → get_last? (versions_of id g) ≡ some c
      → statuses (with_versions id (versions_of id g ++ d ∷ []) g) ≡ assign id d.status (statuses g)
  statuses-with_versions id d c g e i k = same k i
    where
      same :
          (k : String)
          → statuses (with_versions id (versions_of id g ++ d ∷ []) g) k
            ≡ assign id d.status (statuses g) k
      same k = elim (str_dec id k) [
        | yes p ↦ ground (
          arith,
          p,
          Assoc.get-put str_dec id k (versions_of id g ++ d ∷ []) g.cards,
          get_last?-append (versions_of id g) d,
          ap (λ x. get_last? (versions_of x g)) p,
          e,
        )
        | no p ↦ ground (arith, p, Assoc.get-put str_dec id k (versions_of id g ++ d ∷ []) g.cards)
      ]

  pub update_card_there :
      (id : String) (req : UpdateCardRequest Num) (s : Store Num) (c : Card Num)
      → IsCalm s
      → id ≢ ""
      → is_unsupported req.status ≡ false
      → get_last? (versions_of id s.graph) ≡ some c
      → ((update_card F now id req s).0 ≡ ok (updated_card F now req c))
        × (statuses (update_card F now id req s).1.graph
            ≡ assign id (override_status req.status c.status) (statuses s.graph))
  unfolding update_card revise
  update_card_there id req s c calm n u e =
      let d = updated_card F now req c in
      let vs = versions_of id s.graph ++ d ∷ [] in
      (
        ground (arith, n, u, e, record_versions_ok s calm card_updated now id d vs),
        ground (
          arith,
          n,
          u,
          e,
          ap statuses (graph-record_versions card_updated now id d vs s),
          statuses-with_versions id d c s.graph e,
        ),
      )

  pub update_card_missing :
      (id : String) (req : UpdateCardRequest Num) (s : Store Num)
      → id ≢ ""
      → is_unsupported req.status ≡ false
      → get_last? (versions_of id s.graph) ≡ none
      → update_card F now id req s ≡ (err not_found, s)
  unfolding update_card revise
  update_card_missing id req s n u e = ground (arith, n, u, e)

-- A card with this identifier, which is not the empty one, is there.
abbrev pub IsThere : Statuses → String → Type 0
IsThere v id = (id ≢ "") × (st : CardStatus) × (v id ≡ some st)

pub assign-IsThere :
    (id : String) (st : CardStatus) (v : Statuses) (k : String)
    → IsThere v k
    → IsThere (assign id st v) k
assign-IsThere id st v k (n, old, e) = elim (str_dec id k) [
  | yes p ↦ (n, st, ground (arith, p, e))
  | no p ↦ (n, old, ground (arith, p, e))
]

abbrev pub supersede_status : String → Statuses → Statuses
supersede_status target v = if is_blank target then v else assign (trim_space target) superseded v

pub supersede_status-IsThere :
    (target : String) (v : Statuses) (k : String)
    → IsThere v k
    → IsThere (supersede_status target v) k
supersede_status-IsThere target v k h = elim (Bool-cases (is_blank target)) [
  | inl b ↦ rw b h
  | inr b ↦ rw b (assign-IsThere (trim_space target) superseded v k h)
]

module _ {Num : Type 0} where
  -- Each card is promoted and then the card that it supersedes is marked so.
  abbrev pub promoted_statuses : List (Card Num) → Statuses → Statuses
  promoted_statuses [] v = v
  promoted_statuses (c ∷ cs) v =
      promoted_statuses cs (supersede_status c.supersedes (assign c.card_id active v))

  abbrev pub archived_statuses : List (Card Num) → Statuses → Statuses
  archived_statuses [] v = v
  archived_statuses (c ∷ cs) v = archived_statuses cs (assign c.card_id archived v)

  abbrev pub AreThere : Statuses → List (Card Num) → Type 0
  AreThere v [] = Unit
  AreThere v (c ∷ cs) = IsThere v c.card_id × AreThere v cs

  pub AreThere-map :
      (v w : Statuses) (cs : List (Card Num))
      → ((k : String) → IsThere v k → IsThere w k)
      → AreThere v cs
      → AreThere w cs
  AreThere-map v w [] f h = tt
  AreThere-map v w (c ∷ cs) f h = (f c.card_id h.0, AreThere-map v w cs f h.1)

  pub promoted_statuses-IsThere :
      (cs : List (Card Num)) (v : Statuses) (k : String)
      → IsThere v k
      → IsThere (promoted_statuses cs v) k
  promoted_statuses-IsThere [] v k h = h
  promoted_statuses-IsThere (c ∷ cs) v k h =
      promoted_statuses-IsThere cs (supersede_status c.supersedes (assign c.card_id active v)) k (
        supersede_status-IsThere c.supersedes (assign c.card_id active v) k
          (assign-IsThere c.card_id active v k h))

  pub AreThere-take :
      (v : Statuses) (n : ℕ) (cs : List (Card Num)) → AreThere v cs → AreThere v (take n cs)
  AreThere-take v zero cs h = tt
  AreThere-take v (suc n) [] h = tt
  AreThere-take v (suc n) (c ∷ cs) h = (h.0, AreThere-take v n cs h.1)

  pub AreThere-drop :
      (v : Statuses) (n : ℕ) (cs : List (Card Num)) → AreThere v cs → AreThere v (drop n cs)
  AreThere-drop v zero cs h = h
  AreThere-drop v (suc n) [] h = tt
  AreThere-drop v (suc n) (c ∷ cs) h = AreThere-drop v n cs h.1

  pub AreThere-All :
      (v : Statuses) (cs : List (Card Num)) → All (λ c. IsThere v c.card_id) cs → AreThere v cs
  AreThere-All v [] h = tt
  AreThere-All v (c ∷ cs) h = (h.0, AreThere-All v cs h.1)
