-- ===== src/Conflicts/Laws.antt =====
-- DetectConflicts finds the conflicts and nothing else (internal/memory/conflict.go).
use mnemosyne_os.Base.{
  ◌≡◌, ◌≢◌, refl, ap, ◌∙◌, inl, inr, ℕ, String, true, false, Option, none, some, List, [], ◌∷◌,
  arith, All, if_rule,
}
use mnemosyne_os.Base.Contains.{Contains, All-Contains, All-intro}
use mnemosyne_os.Base.Float.{Float64}
use mnemosyne_os.Memory.{Card, Graph}
use mnemosyne_os.Memory.Query.{has}
use mnemosyne_os.Memory.Query.Laws.{NoRepeats}
use mnemosyne_os.Conflicts.{
  Conflict, ConflictDetectionRequest, ByTopic, extract_topic, content_conflict, pair_key,
  conflict_of, noted, scan, by_topic, all_pairs, examined_cards, detect_conflicts,
}
use mnemosyne_os.Conflicts.Groups.{
  Before, Before-entries, IsGroup, by_topic-IsGroup, Contains-all_pairs, OfPair, All-all_pairs,
}

module _ {Num : Type 0} (F : Float64 Num) (fold : ℕ → ℕ) where
  abbrev pub keys : List (Conflict Num) → List String
  keys [] = []
  keys (k ∷ ks) = pair_key k.card_a k.card_b ∷ keys ks

  -- Two of the cards, on the topic named, whose contents diverge as stated.
  pub record IsConflict (cards : List (Card Num)) (k : Conflict Num) : Type 0 where
    pub first : Card Num
    pub second : Card Num
    pub has_first : Contains first cards
    pub has_second : Contains second cards
    pub topical : k.topic ≢ []
    pub topic_of_first : extract_topic fold first ≡ k.topic
    pub topic_of_second : extract_topic fold second ≡ k.topic
    pub divergent : content_conflict fold first second ≡ some k.reason
    pub made : k ≡ conflict_of F fold k.topic first second k.reason

  abbrev OnTopic : List (Card Num) → List ℕ → Card Num → Type 0
  OnTopic cards t c = (extract_topic fold c ≡ t) × Contains c cards

  noted-IsConflict :
      (cards : List (Card Num)) (t : List ℕ) (a b : Card Num) (same fresh : List (Conflict Num))
      (o : Option (List ℕ))
      → (t ≢ []) × OnTopic cards t a × OnTopic cards t b
      → content_conflict fold a b ≡ o
      → All (IsConflict cards) same
      → All (IsConflict cards) fresh
      → All (IsConflict cards) (noted F fold o (conflict_of F fold t a b) same fresh)
  noted-IsConflict cards t a b same fresh none h e s f = s
  noted-IsConflict cards t a b same fresh (some r) h e s f = (
    record {
      first = a;
      second = b;
      has_first = h.1.1;
      has_second = h.2.1;
      topical = h.0;
      topic_of_first = h.1.0;
      topic_of_second = h.2.0;
      divergent = e;
      made = refl;
    },
    f,
  )

  scan-IsConflict :
      (cards : List (Card Num)) (seen : List String) (ps : List (List ℕ × Card Num × Card Num))
      → All (OfPair (OnTopic cards)) ps
      → All (IsConflict cards) (scan F fold seen ps)
  unfolding scan
  scan-IsConflict cards seen [] h = tt
  scan-IsConflict cards seen ((t, a, b) ∷ ps) h =
      let same = scan-IsConflict cards seen ps h.1 in
      let fresh = scan-IsConflict cards (pair_key a.card_id b.card_id ∷ seen) ps h.1 in
      if_rule (All (IsConflict cards)) (has (pair_key a.card_id b.card_id) seen) (λ _. same)
        (λ _. noted-IsConflict cards t a b _ _ (content_conflict fold a b) h.0 refl same fresh)

  scan-seen :
      (key : String) (seen : List String) (ps : List (List ℕ × Card Num × Card Num))
      → has key seen ≡ true
      → has key (keys (scan F fold seen ps)) ≡ false
  unfolding scan
  scan-seen key seen [] h = refl
  scan-seen key seen ((t, a, b) ∷ ps) h =
      ground
        (arith, scan-seen key seen ps h, scan-seen key (pair_key a.card_id b.card_id ∷ seen) ps)

  scan-NoRepeats :
      (seen : List String) (ps : List (List ℕ × Card Num × Card Num))
      → NoRepeats (keys (scan F fold seen ps))
  unfolding scan
  scan-NoRepeats seen [] = tt
  scan-NoRepeats seen ((t, a, b) ∷ ps) = ground (
    arith,
    scan-NoRepeats seen ps,
    scan-NoRepeats (pair_key a.card_id b.card_id ∷ seen) ps,
    scan-seen (pair_key a.card_id b.card_id) (pair_key a.card_id b.card_id ∷ seen) ps,
  )

  scan_complete :
      (t : List ℕ) (a b : Card Num) (r : List ℕ) (seen : List String)
      (ps : List (List ℕ × Card Num × Card Num))
      → content_conflict fold a b ≡ some r
      → Contains (t, a, b) ps
      → has (pair_key a.card_id b.card_id) seen ≡ false
      → has (pair_key a.card_id b.card_id) (keys (scan F fold seen ps)) ≡ true
  unfolding scan
  scan_complete t a b r seen [] e h n = absurd h
  scan_complete t a b r seen ((u, c, d) ∷ ps) e (inl same) n = ground (
    arith,
    n,
    ap (λ (x : List ℕ × Card Num × Card Num). pair_key x.1.card_id x.2.card_id) same,
    ap (λ (x : List ℕ × Card Num × Card Num). content_conflict fold x.1 x.2) same ∙ e,
  )
  scan_complete t a b r seen ((u, c, d) ∷ ps) e (inr later) n = ground (
    arith,
    n,
    scan_complete t a b r seen ps e later n,
    scan_complete t a b r (pair_key c.card_id d.card_id ∷ seen) ps e later,
  )

  module _ (orders : List String × List String) (arrange : ByTopic Num → ByTopic Num)
      (req : ConflictDetectionRequest) (g : Graph Num) where
    -- Where the walk over the topics gives only groups that are there, every conflict that is found
    -- is one: two of the cards examined, the topic that both are on, and the reason for which their
    -- contents diverge.
    pub detect_conflicts-IsConflict :
        ((m : ByTopic Num) (e : List ℕ × List (Card Num)) → Contains e (arrange m) → Contains e m)
        → All
            (IsConflict (examined_cards F fold orders req g))
            (detect_conflicts F fold orders arrange req g).conflicts
    unfolding detect_conflicts
    detect_conflicts-IsConflict walk =
        let cards = examined_cards F fold orders req g in
        let m = by_topic fold [] cards in
        let good = by_topic-IsGroup fold cards [] cards (All-intro _ cards (λ c h. h)) tt in
        scan-IsConflict cards [] (all_pairs (arrange m)) (
          All-all_pairs (OnTopic cards) (arrange m) (
            All-intro _ (arrange m) (λ e h. All-Contains (IsGroup fold cards) m good (walk m e h))))

    -- Where the walk over the topics leaves out no group, of two cards examined, one after the
    -- other, that are on one topic and whose contents diverge, a conflict with their identifiers,
    -- joined by a bar, is found, and no joined identifiers are given twice.
    pub detect_conflicts_complete :
        (a b : Card Num) {r : List ℕ}
        → ((m : ByTopic Num) (e : List ℕ × List (Card Num)) → Contains e m → Contains e (arrange m))
        → Before a b (examined_cards F fold orders req g)
        → extract_topic fold a ≢ []
        → extract_topic fold b ≡ extract_topic fold a
        → content_conflict fold a b ≡ some r
        → (has
              (pair_key a.card_id b.card_id)
              (keys (detect_conflicts F fold orders arrange req g).conflicts)
            ≡ true)
          × NoRepeats (keys (detect_conflicts F fold orders arrange req g).conflicts)
    unfolding detect_conflicts
    detect_conflicts_complete a b {r} walk before n e d =
        let cards = examined_cards F fold orders req g in
        let m = by_topic fold [] cards in
        let t = extract_topic fold a in
        let (ds, there, both) = Before-entries fold t a b cards n refl e before in
        let ps = all_pairs (arrange m) in
        (
          scan_complete t a b r [] ps d
              (Contains-all_pairs t a b ds (arrange m) (walk m (t, ds) there) both) refl,
          scan-NoRepeats [] ps,
        )
