-- ===== src/Recall/Hits/Laws.antt =====
-- What `Recall` of internal/recall/service.go gives.
use mnemosyne_os.Base.{
  ℕ, ◌≤◌, ◌≡◌, refl, subst, String, true, Option, none, some, List, [], ◌∷◌, All, All-append,
  if_rule, length, length-take, All-take,
}
use mathlib.Core.Option.{some-injective}
use mnemosyne_os.Base.Float.{Float64}
use mnemosyne_os.Base.Sort.{sort_by, All-sort_by}
use mnemosyne_os.Base.Text.{codes}
use mnemosyne_os.Memory.{Card, Graph, is_recall_eligible_status, status_text}
use mnemosyne_os.Recall.Snippets.{trim}
use mnemosyne_os.Recall.{
  Request, Hit, Setting, source_for_card_type, split_query_tokens, score_card,
}
use mnemosyne_os.Recall.Hits.{
  latest_cards, normalize_sources, is_wanted, scored, hits_of, join_hits, gather_hits, better,
  limit_of, limited, recall,
}

module _ {Num : Type 0} (F : Float64 Num) (st : Setting) where
  -- A hit is a card that may be recalled, of a source that is wanted, with its score.
  pub record IsHit (query : List ℕ) (tokens filter : List (List ℕ)) (h : Hit Num) : Type 0 where
    pub eligible : is_recall_eligible_status (status_text h.card.status) ≡ true
    pub source_of : source_for_card_type h.card.card_type ≡ some h.source
    pub wanted : is_wanted filter h.source ≡ true
    pub scored_as :
        score_card F st h.card query tokens ≡ some (h.score, h.matched_fields, h.snippet)
    pub named : h.card_id ≡ h.card.card_id
    pub typed : h.card_type ≡ h.card.card_type

  module _ (query : List ℕ) (tokens filter : List (List ℕ)) where
    -- Every hit, where there was no panic.
    AllHits : Option (List (Hit Num)) → Type 0
    AllHits none = Unit
    AllHits (some hits) = All (IsHit query tokens filter) hits

    scored-AllHits :
        (c : Card Num) (source : String) (q : List ℕ) (o : Option (Num × List String × List ℕ))
        → is_recall_eligible_status (status_text c.status) ≡ true
        → source_for_card_type c.card_type ≡ some source
        → is_wanted filter source ≡ true
        → score_card F st c query tokens ≡ o
        → AllHits (scored F st c source q o)
    unfolding AllHits
    scored-AllHits c source q none a b w e = tt
    scored-AllHits c source [] (some (score, fields, snippet)) a b w e = (
      record { eligible = a; source_of = b; wanted = w; scored_as = e; named = refl; typed = refl },
      tt,
    )
    scored-AllHits c source (_ ∷ _) (some (score, fields, snippet)) a b w e =
        if_rule (All (IsHit query tokens filter)) (F.eq score F.zero) (λ _. tt)
          (λ _. (
            record {
              eligible = a;
              source_of = b;
              wanted = w;
              scored_as = e;
              named = refl;
              typed = refl;
            },
            tt,
          ))

    hits_of-AllHits :
        (c : Card Num) (o : Option String)
        → is_recall_eligible_status (status_text c.status) ≡ true
        → source_for_card_type c.card_type ≡ o
        → AllHits (hits_of F st query tokens filter c o)
    unfolding hits_of
    hits_of-AllHits c none a b = unfold AllHits in tt
    hits_of-AllHits c (some source) a b =
        if_rule AllHits (is_wanted filter source)
          (λ w. scored-AllHits c source query (score_card F st c query tokens) a b w refl)
          (λ _. unfold AllHits in tt)

    join_hits-AllHits :
        (o r : Option (List (Hit Num))) → AllHits o → AllHits r → AllHits (join_hits F st o r)
    unfolding AllHits
    join_hits-AllHits none r h k = tt
    join_hits-AllHits (some xs) none h k = tt
    join_hits-AllHits (some xs) (some ys) h k = All-append (IsHit query tokens filter) xs ys h k

    gather_hits-AllHits : (cs : List (Card Num)) → AllHits (gather_hits F st query tokens filter cs)
    unfolding gather_hits
    gather_hits-AllHits [] = unfold AllHits in tt
    gather_hits-AllHits (c ∷ cs) =
        join_hits-AllHits _ _
          (if_rule AllHits (is_recall_eligible_status (status_text c.status))
            (λ a. hits_of-AllHits c (source_for_card_type c.card_type) a refl)
            (λ _. unfold AllHits in tt))
          (gather_hits-AllHits cs)

    limited-AllHits :
        (limit : ℕ) (o : Option (List (Hit Num))) → AllHits o → AllHits (limited F st limit o)
    unfolding limited AllHits
    limited-AllHits limit none h = tt
    limited-AllHits limit (some hits) h =
        All-take (IsHit query tokens filter) (limit_of limit) _
          (All-sort_by (better F st) (IsHit query tokens filter) hits h)

  length-limited :
      (limit : ℕ) (o : Option (List (Hit Num))) {hits : List (Hit Num)}
      → limited F st limit o ≡ some hits
      → length hits ≤ limit_of limit
  unfolding limited
  length-limited limit none e = absurd (cc)
  length-limited limit (some all) e =
      subst (λ xs. length xs ≤ limit_of limit) (some-injective _ _ e)
        (length-take (limit_of limit) (sort_by (better F st) all))

  -- Where Recall does not panic, it gives at most as many hits as asked for (10 where no number is
  -- asked for), and each is a card that may be recalled, from a source that is wanted, with the
  -- score, the fields and the snippet that are computed for it.
  pub recall-IsHit :
      (order : List String) (req : Request) (g : Graph Num) {hits : List (Hit Num)}
      → recall F st order req g ≡ some hits
      → All
          (IsHit
            (trim (codes req.query))
            (split_query_tokens st.fold (trim (codes req.query)))
            (normalize_sources st req.sources))
          hits
        × (length hits ≤ limit_of req.limit)
  unfolding recall
  recall-IsHit order req g {hits} e =
      let query = trim (codes req.query) in
      let tokens = split_query_tokens st.fold query in
      let filter = normalize_sources st req.sources in
      (
        (unfold AllHits in
            subst (AllHits query tokens filter) e (
              limited-AllHits query tokens filter req.limit _
                (gather_hits-AllHits query tokens filter (latest_cards order g)))),
        length-limited req.limit _ e,
      )
