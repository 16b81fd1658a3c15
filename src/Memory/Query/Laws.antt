-- ===== src/Memory/Query/Laws.antt =====
-- The version that a query finds, and the edges that it gives with it.
use mathlib.Core.List.{reverse, reverse-cons, foldl}
use mnemosyne_os.Base.{
  ℕ, String, ◌≡◌, refl, sym, ap, ◌∙◌, Bool, true, false, ◌||◌, ◌&&◌, not, Option, none, some, List,
  [], ◌∷◌, ◌++◌, map, arith, if◌then◌else◌, decided, str_dec, All, get_last?, if_rule,
}
use mnemosyne_os.Base.Float.{Float64}
use mnemosyne_os.Memory.{Card, Edge, Graph, QueryRequest}
use mnemosyne_os.Memory.Cards.{versions_of, edge_ids_of}
use mnemosyne_os.Memory.Query.{
  is_before, is_after, first_valid, resolve_as_of, has, Collected, edge_of, visit, collect,
  collect_edges, query, matching_cards, is_match, keep,
}

module _ {Num : Type 0} where
  abbrev pub is_valid_at : ℕ → Card Num → Bool
  is_valid_at t c = not (is_before t c.valid_from) && not (is_after t c.valid_to)

  -- The versions that are valid at a time, in their order.
  abbrev pub valid_versions : ℕ → List (Card Num) → List (Card Num)
  valid_versions t [] = []
  valid_versions t (c ∷ cs) =
      if is_valid_at t c then c ∷ valid_versions t cs else valid_versions t cs

  abbrev or_else : Option (Card Num) → Option (Card Num) → Option (Card Num)
  or_else none o = o
  or_else (some c) o = some c

  first_valid-append :
      (t : ℕ) (xs ys : List (Card Num))
      → first_valid t (xs ++ ys) ≡ or_else (first_valid t xs) (first_valid t ys)
  unfolding first_valid
  first_valid-append t [] ys = refl
  first_valid-append t (x ∷ xs) ys = ground (arith, first_valid-append t xs ys)

  get_last?-cons :
      (c : Card Num) (vs : List (Card Num)) → get_last? (c ∷ vs) ≡ or_else (get_last? vs) (some c)
  get_last?-cons c [] = refl
  get_last?-cons c (x ∷ []) = refl
  get_last?-cons c (x ∷ y ∷ ys) =
      get_last?-cons x (y ∷ ys)
      ∙ again (get_last? (y ∷ ys))
      ∙ ap (λ o. or_else o (some c)) (sym (get_last?-cons x (y ∷ ys)))
    where
      again : (o : Option (Card Num)) → or_else o (some x) ≡ or_else (or_else o (some x)) (some c)
      again none = refl
      again (some d) = refl

  first_valid-reverse :
      (t : ℕ) (vs : List (Card Num)) → first_valid t (reverse vs) ≡ get_last? (valid_versions t vs)
  unfolding first_valid
  first_valid-reverse t [] = refl
  first_valid-reverse t (c ∷ vs) =
      ap (first_valid t) (reverse-cons c vs)
      ∙ first_valid-append t (reverse vs) (c ∷ [])
      ∙ ap (λ o. or_else o (first_valid t (c ∷ []))) (first_valid-reverse t vs)
      ∙ ground
          (arith, get_last?-cons c (valid_versions t vs), or_none (get_last? (valid_versions t vs)))
    where
      or_none : (o : Option (Card Num)) → or_else o none ≡ o
      or_none none = refl
      or_none (some d) = refl

  -- At a time, the latest of the versions whose validity contains it; without one, the latest.
  pub resolve_as_of_latest :
      (vs : List (Card Num)) (t : ℕ)
      → (resolve_as_of vs (some t) ≡ get_last? (valid_versions t vs))
        × (resolve_as_of vs none ≡ get_last? vs)
  unfolding resolve_as_of
  resolve_as_of_latest vs t = (first_valid-reverse t vs, refl)

  -- It passes every filter, and is what an identifier resolves to.
  pub record IsAnswer (req : QueryRequest) (g : Graph Num) (c : Card Num) : Type 0 where
    pub key : String
    pub resolved : resolve_as_of (versions_of key g) req.as_of ≡ some c
    pub matches : is_match req c ≡ true

  matching_cards-IsAnswer :
      (req : QueryRequest) (g : Graph Num) (ids : List String)
      → All (IsAnswer req g) (matching_cards req g ids)
  unfolding matching_cards
  matching_cards-IsAnswer req g [] = tt
  matching_cards-IsAnswer req g (id ∷ ids) =
      kept (resolve_as_of (versions_of id g) req.as_of) refl (matching_cards-IsAnswer req g ids)
    where
      kept :
          (o : Option (Card Num))
          → resolve_as_of (versions_of id g) req.as_of ≡ o
          → All (IsAnswer req g) (matching_cards req g ids)
          → All (IsAnswer req g) (keep req o (matching_cards req g ids))
      kept none e h = h
      kept (some c) e h =
          if_rule (All (IsAnswer req g)) (is_match req c)
            (λ m. (record { key = id; resolved = e; matches = m }, h)) (λ _. h)

-- Each identifier once.
abbrev pub NoRepeats : List String → Type 0
NoRepeats [] = Unit
NoRepeats (x ∷ xs) = (has x xs ≡ false) × NoRepeats xs

has-append :
    (x y : String) (ys : List String) → has y (ys ++ x ∷ []) ≡ has y ys || decided (str_dec x y)
has-append x y [] = ground arith
has-append x y (z ∷ zs) = ground (arith, has-append x y zs)

NoRepeats-append :
    (x : String) (xs : List String) → has x xs ≡ false → NoRepeats xs → NoRepeats (xs ++ x ∷ [])
NoRepeats-append x [] h k = (refl, tt)
NoRepeats-append x (y ∷ ys) h k = ground (arith, has-append x y ys, NoRepeats-append x ys)

module _ {Num : Type 0} where
  -- Whether an edge is indexed under one of the cards.
  abbrev pub touches_any : Graph Num → String → List String → Bool
  touches_any g e [] = false
  touches_any g e (id ∷ ids) = has e (edge_ids_of id g) || touches_any g e ids

module _ {Num : Type 0} (F : Float64 Num) where
  -- The edges gathered are those of the identifiers seen, and each identifier is seen once.
  pub record IsGathered (g : Graph Num) (st : Collected Num) : Type 0 where
    pub looked_up : st.found ≡ map (edge_of F g) st.seen
    pub once : NoRepeats st.seen

  map-append :
      (f : String → Edge Num) (xs : List String) (x : String)
      → map f (xs ++ x ∷ []) ≡ map f xs ++ f x ∷ []
  map-append f [] x = refl
  map-append f (y ∷ ys) x = ap (λ l. f y ∷ l) (map-append f ys x)

  visit-IsGathered :
      (g : Graph Num) (st : Collected Num) (id : String)
      → IsGathered g st
      → IsGathered g (visit F g st id)
  unfolding visit
  visit-IsGathered g st id h =
      if_rule (IsGathered g) (has id st.seen) (λ _. h)
        (λ new. record {
          looked_up =
              ap (λ l. l ++ edge_of F g id ∷ []) h.looked_up
              ∙ sym (map-append (edge_of F g) st.seen id);
          once = NoRepeats-append id st.seen new h.once;
        })

  visits-IsGathered :
      (g : Graph Num) (st : Collected Num) (ids : List String)
      → IsGathered g st
      → IsGathered g (foldl (visit F g) st ids)
  visits-IsGathered g st [] h = h
  visits-IsGathered g st (id ∷ ids) h =
      visits-IsGathered g (visit F g st id) ids (visit-IsGathered g st id h)

  collect-IsGathered :
      (g : Graph Num) (st : Collected Num) (ids : List String)
      → IsGathered g st
      → IsGathered g (collect F g st ids)
  unfolding collect
  collect-IsGathered g st [] h = h
  collect-IsGathered g st (id ∷ ids) h =
      collect-IsGathered g (foldl (visit F g) st (edge_ids_of id g)) ids
        (visits-IsGathered g st (edge_ids_of id g) h)

  seen-visit :
      (g : Graph Num) (st : Collected Num) (id e : String)
      → has e (visit F g st id).seen ≡ has e st.seen || decided (str_dec id e)
  unfolding visit
  seen-visit g st id e =
      ground (arith, has-append id e st.seen, λ (p : id ≡ e). ap (λ x. has x st.seen) p)

  seen-visits :
      (g : Graph Num) (st : Collected Num) (ids : List String) (e : String)
      → has e (foldl (visit F g) st ids).seen ≡ has e st.seen || has e ids
  seen-visits g st [] e = ground arith
  seen-visits g st (id ∷ ids) e =
      ground (arith, seen-visits g (visit F g st id) ids e, seen-visit g st id e)

  seen-collect :
      (g : Graph Num) (st : Collected Num) (ids : List String) (e : String)
      → has e (collect F g st ids).seen ≡ has e st.seen || touches_any g e ids
  unfolding collect
  seen-collect g st [] e = ground arith
  seen-collect g st (id ∷ ids) e = ground (
    arith,
    seen-collect g (foldl (visit F g) st (edge_ids_of id g)) ids e,
    seen-visits g st (edge_ids_of id g) e,
  )

  -- The edges of an answer are those indexed under its cards, each given once.
  pub collect_edges_lem :
      (g : Graph Num) (ids : List String)
      → (es : List String) × (collect_edges F g ids ≡ map (edge_of F g) es)
        × NoRepeats es
        × ((e : String) → has e es ≡ touches_any g e ids)
  unfolding collect_edges
  collect_edges_lem g ids =
      let start : Collected Num = record { seen = []; found = [] } in
      let h = collect-IsGathered g start ids (record { looked_up = refl; once = tt }) in
      ((collect F g start ids).seen, h.looked_up, h.once, λ e. seen-collect g start ids e)

  -- By filters, every card of the answer passes them all, and is the version of some card that is
  -- current at the time asked for.
  pub query-All :
      (order : List String) (req : QueryRequest) (g : Graph Num)
      → req.card_id ≡ ""
      → All (IsAnswer req g) (query F order req g).cards
  unfolding query
  query-All order req g e = ground (arith, e, matching_cards-IsAnswer req g order)
