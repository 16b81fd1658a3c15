-- ===== src/Recall/Hits/Completeness.antt =====
-- `Recall` of internal/recall/service.go leaves out no card while there is room.
use mathlib.Core.List.{Mem, mem-cons_self, mem-append}
use mathlib.Core.List.Perm
use mathlib.Core.Logic.Or
use mathlib.Core.Option.{some-injective}
use mnemosyne_os.Base.{
  ℕ, zero, suc, ◌<◌, ◌≡◌, refl, sym, subst, ap, ◌∙◌, inl, inr, String, false, Option, none, some,
  List, [], ◌∷◌, ◌++◌, arith, length, take, get_last?, str_dec, Option-cases,
}
use mnemosyne_os.Base.Assoc
use mnemosyne_os.Base.Contains.{Contains}
use mnemosyne_os.Base.Float.{Float64}
use mnemosyne_os.Base.Sort.{sort_by, sort_by-perm, Contains-sort_by}
use mnemosyne_os.Base.Text.{codes}
use mnemosyne_os.Memory.{Card, Graph}
use mnemosyne_os.Memory.Cards.{versions_of}
use mnemosyne_os.Memory.Query.{resolve_as_of}
use mnemosyne_os.Recall.Snippets.{trim}
use mnemosyne_os.Recall.{Request, Hit, Setting, split_query_tokens}
use mnemosyne_os.Recall.Hits.{
  newer_card, with_latest, latest_of, latest_cards, normalize_sources, hit_of, scored, hits_of,
  card_hits, join_hits, gather_hits, better, limit_of, limited, recall,
}
use mnemosyne_os.Recall.Hits.Laws.{IsHit}

module _ {Num : Type 0} (F : Float64 Num) (st : Setting) where
  module _ (query : List ℕ) (tokens filter : List (List ℕ)) where
    hit_of-IsHit :
        (h : Hit Num)
        → IsHit F st query tokens filter h
        → hit_of F st h.card h.source (h.score, h.matched_fields, h.snippet) ≡ h
    hit_of-IsHit h is = ground (arith, is.named, is.typed)

    scored_of :
        (c : Card Num) (source : String) (q : List ℕ) (score : Num) (fields : List String)
        (snippet : List ℕ)
        → F.eq score F.zero ≡ false
        → scored F st c source q (some (score, fields, snippet))
          ≡ some (hit_of F st c source (score, fields, snippet) ∷ [])
    scored_of c source [] score fields snippet n = refl
    scored_of c source (_ ∷ _) score fields snippet n = rw n refl

    card_hits_of_IsHit :
        (h : Hit Num)
        → IsHit F st query tokens filter h
        → F.eq h.score F.zero ≡ false
        → card_hits F st query tokens filter h.card ≡ some (h ∷ [])
    unfolding hits_of
    card_hits_of_IsHit h is n =
        rw (is.eligible, is.source_of, is.wanted, is.scored_as)
          (scored_of h.card h.source query h.score h.matched_fields h.snippet n
            ∙ ap (λ x. some (x ∷ [])) (hit_of-IsHit h is))

    join_hits-parts :
        (o r : Option (List (Hit Num))) {all : List (Hit Num)}
        → join_hits F st o r ≡ some all
        → (xs : List (Hit Num)) × (ys : List (Hit Num)) × (o ≡ some xs)
          × (r ≡ some ys)
          × (xs ++ ys ≡ all)
    join_hits-parts none r e = absurd (cc)
    join_hits-parts (some xs) none e = absurd (cc)
    join_hits-parts (some xs) (some ys) e = (xs, ys, refl, refl, some-injective _ _ e)

    Mem-gather_hits :
        (h : Hit Num) (cs : List (Card Num)) {all : List (Hit Num)}
        → card_hits F st query tokens filter h.card ≡ some (h ∷ [])
        → Contains h.card cs
        → gather_hits F st query tokens filter cs ≡ some all
        → Mem h all
    unfolding gather_hits
    Mem-gather_hits h [] found there e = absurd there
    Mem-gather_hits h (c ∷ cs) found (inl same) e =
        let (xs, ys, o, r, j) = join_hits-parts _ _ e in
        let mine : h ∷ [] ≡ xs =
          some-injective _ _ (sym found ∙ ap (card_hits F st query tokens filter) (sym same) ∙ o) in
        rw (← j, ← mine) mem-cons_self
    Mem-gather_hits h (c ∷ cs) found (inr later) e =
        let (xs, ys, o, r, j) = join_hits-parts _ _ e in
        rw (← j) (mem-append.1 (Or.inr (Mem-gather_hits h cs found later r)))

  take_all : (n : ℕ) (xs : List (Hit Num)) → length (take n xs) < n → take n xs ≡ xs
  take_all zero xs h = absurd (omega arith)
  take_all (suc n) [] h = refl
  take_all (suc n) (x ∷ xs) h = ap (λ ys. x ∷ ys) (take_all n xs (omega arith))

  limited_lem :
      (limit : ℕ) (o : Option (List (Hit Num))) {hits : List (Hit Num)}
      → limited F st limit o ≡ some hits
      → (all : List (Hit Num)) × (o ≡ some all)
        × (take (limit_of limit) (sort_by (better F st) all) ≡ hits)
  unfolding limited
  limited_lem limit none e = absurd (cc)
  limited_lem limit (some all) e = (all, refl, some-injective _ _ e)

  Contains-with_latest :
      (c : Card Num) (o : Option (Card Num)) (rest : List (Card Num))
      → Contains c rest
      → Contains c (with_latest o rest)
  Contains-with_latest c none rest h = h
  Contains-with_latest c (some d) rest h = inr h

  Contains-latest_of :
      (id : String) (order : List String) (g : Graph Num) {c : Card Num}
      → get_last? (versions_of id g) ≡ some c
      → Contains id order
      → Contains c (latest_of order g)
  unfolding latest_of resolve_as_of
  Contains-latest_of id [] g e there = absurd there
  Contains-latest_of id (x ∷ order) g {c} e (inl same) =
      let last : get_last? (versions_of x g) ≡ some c =
        ap (λ y. get_last? (versions_of y g)) same ∙ e in
      subst (λ o. Contains c (with_latest o (latest_of order g))) (sym last) (inl refl)
  Contains-latest_of id (x ∷ order) g {c} e (inr later) =
      Contains-with_latest c (get_last? (versions_of x g)) (latest_of order g)
        (Contains-latest_of id order g e later)

  -- A card that is there has a history in the map.
  has_history :
      (id : String) (g : Graph Num) {c : Card Num}
      → get_last? (versions_of id g) ≡ some c
      → (vs : List (Card Num)) × (Assoc.get str_dec id g.cards ≡ some vs)
  has_history id g {c} e = elim (Option-cases (Assoc.get str_dec id g.cards)) [
    | inl lost ↦ absurd (ground (arith, lost, e))
    | inr found ↦ found
  ]

  -- The identifiers that are walked are all that the map of the cards holds.
  abbrev pub WalksAll : List String → Graph Num → Type 0
  WalksAll order g =
      (id : String) (vs : List (Card Num))
      → Assoc.get str_dec id g.cards ≡ some vs
      → Contains id order

  -- Where the map of the cards is walked as a whole, and Recall does not panic and gives fewer hits
  -- than asked for, the latest version of every card, where it may be recalled, is of a source that
  -- is wanted and has a score other than zero, has its hit among them.
  pub recall_complete :
      (order : List String) (req : Request) (g : Graph Num) (id : String) {hits : List (Hit Num)}
      (h : Hit Num)
      → recall F st order req g ≡ some hits
      → length hits < limit_of req.limit
      → WalksAll order g
      → get_last? (versions_of id g) ≡ some h.card
      → IsHit F st
          (trim (codes req.query))
          (split_query_tokens st.fold (trim (codes req.query)))
          (normalize_sources st req.sources)
          h
      → F.eq h.score F.zero ≡ false
      → Mem h hits
  unfolding recall latest_cards
  recall_complete order req g id {hits} h e room whole last is n =
      let query = trim (codes req.query) in
      let tokens = split_query_tokens st.fold query in
      let filter = normalize_sources st req.sources in
      let (all, o, t) = limited_lem req.limit _ e in
      let sorted = sort_by (better F st) all in
      let kept : sorted ≡ hits = sym (take_all (limit_of req.limit) sorted (rw t room)) ∙ t in
      let (vs, stored) = has_history id g last in
      let there =
        Contains-sort_by newer_card h.card (latest_of order g)
          (Contains-latest_of id order g last (whole id vs stored)) in
      let found =
        Mem-gather_hits query tokens filter h (latest_cards order g)
          (card_hits_of_IsHit query tokens filter h is n) there o in
      subst (Mem h) kept ((Perm.mem_iff (sort_by-perm (better F st) all)).1 found)
