-- ===== src/Conflicts/Groups.antt =====
-- The cards by topic and the pairs of each topic (internal/memory/conflict.go).
use mathlib.Core.List.{append_assoc, append-nil}
use mnemosyne_os.Base.{
  ◌≡◌, ◌≢◌, refl, sym, ap, subst, ◌∙◌, ◌⊎◌, inl, inr, ℕ, true, false, none, some, List, [], ◌∷◌,
  ◌++◌, arith, if◌then◌else◌, decided, All, All-append, Option-cases, if_rule,
}
use mnemosyne_os.Base.Assoc
use mnemosyne_os.Base.Contains.{Contains, Contains-left, Contains-right}
use mnemosyne_os.Memory.{Card}
use mnemosyne_os.Recall.{codes_dec, is_nil}
use mnemosyne_os.Conflicts.{
  ByTopic, extract_topic, entries, add_card, by_topic, pairs_with, pairs_on, all_pairs,
}

module _ {A : Type 0} where
  -- One stands before the other.
  abbrev pub Before : A → A → List A → Type 0
  Before a b [] = ⊥
  Before a b (x ∷ xs) = ((x ≡ a) × Contains b xs) ⊎ Before a b xs

nil_of : (u : List ℕ) → is_nil u ≡ true → u ≡ []
nil_of [] h = refl
nil_of (c ∷ u) h = absurd (cc)

module _ {Num : Type 0} (fold : ℕ → ℕ) where
  -- The cards on one topic, in their order.
  abbrev with_topic : List ℕ → List (Card Num) → List (Card Num)
  with_topic t [] = []
  with_topic t (c ∷ cs) =
      if decided (codes_dec (extract_topic fold c) t) then c ∷ with_topic t cs else with_topic t cs

  entries-add_card :
      (t : List ℕ) (c : Card Num) (m : ByTopic Num)
      → t ≢ []
      → entries t (add_card fold c m) ≡ (
          if decided (codes_dec (extract_topic fold c) t)
          then entries t m ++ c ∷ []
          else entries t m)
  entries-add_card t c m n =
      let u = extract_topic fold c in
      let put_there = Assoc.get-put codes_dec u t (entries u m ++ c ∷ []) m in
      elim (codes_dec u t) [
        | yes p ↦ ground (arith, p, n, nil_of u, put_there, ap (λ x. entries x m) p)
        | no p ↦ ground (arith, p, put_there)
      ]

  entries-by_topic :
      (t : List ℕ) (m : ByTopic Num) (cs : List (Card Num))
      → t ≢ []
      → entries t (by_topic fold m cs) ≡ entries t m ++ with_topic t cs
  unfolding by_topic
  entries-by_topic t m [] n = sym (append-nil _)
  entries-by_topic t m (c ∷ cs) n = ground (
    arith,
    entries-by_topic t (add_card fold c m) cs n,
    entries-add_card t c m n,
    append_assoc (entries t m) (c ∷ []) (with_topic t cs),
  )

  Contains-with_topic :
      (t : List ℕ) (b : Card Num) (cs : List (Card Num))
      → extract_topic fold b ≡ t
      → Contains b cs
      → Contains b (with_topic t cs)
  Contains-with_topic t b [] e h = absurd h
  Contains-with_topic t b (c ∷ cs) e h =
      if_rule (Contains b) (decided (codes_dec (extract_topic fold c) t))
        (λ on. elim h [
          | inl same ↦ inl same
          | inr later ↦ inr (Contains-with_topic t b cs e later)
        ])
        (λ off. elim h [
          | inl same ↦ absurd (ground (arith, off, ap (extract_topic fold) same, e))
          | inr later ↦ Contains-with_topic t b cs e later
        ])

  Before-with_topic :
      (t : List ℕ) (a b : Card Num) (cs : List (Card Num))
      → extract_topic fold a ≡ t
      → extract_topic fold b ≡ t
      → Before a b cs
      → Before a b (with_topic t cs)
  Before-with_topic t a b [] e f h = absurd h
  Before-with_topic t a b (c ∷ cs) e f h =
      if_rule (Before a b) (decided (codes_dec (extract_topic fold c) t))
        (λ on. elim h [
          | inl (same, later) ↦ inl (same, Contains-with_topic t b cs f later)
          | inr later ↦ inr (Before-with_topic t a b cs e f later)
        ])
        (λ off. elim h [
          | inl (same, later) ↦ absurd (ground (arith, off, ap (extract_topic fold) same, e))
          | inr later ↦ Before-with_topic t a b cs e f later
        ])

  entries_missing :
      (t : List ℕ) (m : ByTopic Num) → Assoc.get codes_dec t m ≡ none → entries t m ≡ []
  entries_missing t m g = ground (arith, g)

  entries_found :
      (t : List ℕ) (m : ByTopic Num) {cs : List (Card Num)}
      → Assoc.get codes_dec t m ≡ some cs
      → entries t m ≡ cs
  entries_found t m g = ground (arith, g)

  -- What is found under a topic is in the map.
  Contains-get :
      (t : List ℕ) (m : ByTopic Num) {cs : List (Card Num)}
      → Assoc.get codes_dec t m ≡ some cs
      → Contains (t, cs) m
  unfolding Assoc.get
  Contains-get t [] e = absurd (cc)
  Contains-get t ((u, ds) ∷ m) {cs} e = elim (codes_dec u t) [
    | yes p ↦ inl (pair p (ground (arith, p, e)))
    | no p ↦ inr (Contains-get t m (ground (arith, p, e)))
  ]
    where
      pair :
          {a b : List ℕ} {x y : List (Card Num)}
          → a ≡ b
          → x ≡ y
          → ◌≡◌ {A = List ℕ × List (Card Num)} (a, x) (b, y)
      pair p q i = (p i, q i)

  nothing : (t : List ℕ) (ds : List (Card Num)) → entries t [] ++ ds ≡ ds
  unfolding Assoc.get
  nothing t ds = refl

  pub Before-entries :
      (t : List ℕ) (a b : Card Num) (cs : List (Card Num))
      → t ≢ []
      → extract_topic fold a ≡ t
      → extract_topic fold b ≡ t
      → Before a b cs
      → (ds : List (Card Num)) × Contains (t, ds) (by_topic fold [] cs) × Before a b ds
  Before-entries t a b cs n e f h =
      let m = by_topic fold [] cs in
      let there : Before a b (entries t m) =
        subst (Before a b) (sym (entries-by_topic t [] cs n ∙ nothing t (with_topic t cs)))
          (Before-with_topic t a b cs e f h) in
      elim (Option-cases (Assoc.get codes_dec t m)) [
        | inl g ↦ absurd (subst (Before a b) (entries_missing t m g) there)
        | inr (ds, g) ↦ (ds, Contains-get t m g, subst (Before a b) (entries_found t m g) there)
      ]

  -- A group that holds what it should.
  abbrev pub IsGroup : List (Card Num) → List ℕ × List (Card Num) → Type 0
  IsGroup all e = (e.0 ≢ []) × All (λ c. (extract_topic fold c ≡ e.0) × Contains c all) e.1

  pub by_topic-IsGroup :
      (all : List (Card Num)) (m : ByTopic Num) (cs : List (Card Num))
      → All (λ c. Contains c all) cs
      → All (IsGroup all) m
      → All (IsGroup all) (by_topic fold m cs)
  unfolding by_topic
  by_topic-IsGroup all m [] h k = k
  by_topic-IsGroup all m (c ∷ cs) h k = by_topic-IsGroup all (add_card fold c m) cs h.1 (
      if_rule (All (IsGroup all)) (is_nil (extract_topic fold c)) (λ _. k)
        (λ off.
          Assoc.All-put codes_dec (IsGroup all) (extract_topic fold c)
            (entries (extract_topic fold c) m ++ c ∷ []) m
            (
              (λ e. not_nil (extract_topic fold c) off e),
              All-append _ (entries (extract_topic fold c) m) (c ∷ [])
                  (entries_good (extract_topic fold c)) ((refl, h.0), tt),
            )
            k))
    where
      not_nil : (u : List ℕ) → is_nil u ≡ false → u ≢ []
      not_nil u h e = ground (arith, h, e)

      entries_good :
          (t : List ℕ) → All (λ c. (extract_topic fold c ≡ t) × Contains c all) (entries t m)
      entries_good t = elim (Option-cases (Assoc.get codes_dec t m)) [
        | inl g ↦ subst (All _) (sym (entries_missing t m g)) tt
        | inr (ds, g) ↦
            subst (All _) (sym (entries_found t m g))
              (Assoc.All-get codes_dec (IsGroup all) t m k g).1
      ]

module _ {Num : Type 0} where
  Contains-pairs_with :
      (t : List ℕ) (a b : Card Num) (bs : List (Card Num))
      → Contains b bs
      → Contains (t, a, b) (pairs_with t a bs)
  unfolding pairs_with
  Contains-pairs_with t a b [] h = absurd h
  Contains-pairs_with t a b (c ∷ bs) (inl e) = inl (ap (λ x. (t, a, x)) e)
  Contains-pairs_with t a b (c ∷ bs) (inr h) = inr (Contains-pairs_with t a b bs h)

  Contains-pairs_on :
      (t : List ℕ) (a b : Card Num) (cs : List (Card Num))
      → Before a b cs
      → Contains (t, a, b) (pairs_on t cs)
  unfolding pairs_on
  Contains-pairs_on t a b [] h = absurd h
  Contains-pairs_on t a b (c ∷ cs) (inl (e, h)) =
      Contains-left (t, a, b) (pairs_with t c cs) (pairs_on t cs)
        (subst (λ x. Contains (t, a, b) (pairs_with t x cs)) (sym e)
          (Contains-pairs_with t a b cs h))
  Contains-pairs_on t a b (c ∷ cs) (inr h) =
      Contains-right (t, a, b) (pairs_with t c cs) (pairs_on t cs) (Contains-pairs_on t a b cs h)

  pub Contains-all_pairs :
      (t : List ℕ) (a b : Card Num) (cs : List (Card Num)) (m : ByTopic Num)
      → Contains (t, cs) m
      → Before a b cs
      → Contains (t, a, b) (all_pairs m)
  unfolding all_pairs
  Contains-all_pairs t a b cs [] h k = absurd h
  Contains-all_pairs t a b cs ((u, ds) ∷ m) (inl e) k =
      Contains-left (t, a, b) (pairs_on u ds) (all_pairs m)
        (subst (λ x. Contains (t, a, b) (pairs_on x.0 x.1)) (sym e) (Contains-pairs_on t a b cs k))
  Contains-all_pairs t a b cs ((u, ds) ∷ m) (inr h) k =
      Contains-right (t, a, b) (pairs_on u ds) (all_pairs m) (Contains-all_pairs t a b cs m h k)

  module _ (P : List ℕ → Card Num → Type 0) where
    abbrev pub OfPair : List ℕ × Card Num × Card Num → Type 0
    OfPair (t, a, b) = (t ≢ []) × P t a × P t b

    All-pairs_with :
        (t : List ℕ) (a : Card Num) (bs : List (Card Num))
        → t ≢ []
        → P t a
        → All (P t) bs
        → All OfPair (pairs_with t a bs)
    unfolding pairs_with
    All-pairs_with t a [] n p h = tt
    All-pairs_with t a (b ∷ bs) n p h = ((n, p, h.0), All-pairs_with t a bs n p h.1)

    All-pairs_on :
        (t : List ℕ) (cs : List (Card Num)) → t ≢ [] → All (P t) cs → All OfPair (pairs_on t cs)
    unfolding pairs_on
    All-pairs_on t [] n h = tt
    All-pairs_on t (a ∷ cs) n h =
        All-append OfPair (pairs_with t a cs) (pairs_on t cs) (All-pairs_with t a cs n h.0 h.1)
          (All-pairs_on t cs n h.1)

    pub All-all_pairs :
        (m : ByTopic Num) → All (λ e. (e.0 ≢ []) × All (P e.0) e.1) m → All OfPair (all_pairs m)
    unfolding all_pairs
    All-all_pairs [] h = tt
    All-all_pairs ((t, cs) ∷ m) h =
        All-append OfPair (pairs_on t cs) (all_pairs m) (All-pairs_on t cs h.0.0 h.0.1)
          (All-all_pairs m h.1)
