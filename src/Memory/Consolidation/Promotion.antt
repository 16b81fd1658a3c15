-- ===== src/Memory/Consolidation/Promotion.antt =====
-- PromoteCandidates as a sequence of changes of the statuses (internal/memory/consolidator.go).
use mnemosyne_os.Base.{
  ℕ, String, ◌≡◌, false, refl, sym, ap, subst, ◌∙◌, none, some, List, [], ◌∷◌, arith, if◌then◌else◌,
  get_last?, length, take, drop, All-mono, Bool, true, false,
}
use mathlib.Core.List.{append-nil}
use mnemosyne_os.Base.Exec.{pure, ◌>>◌}
use mnemosyne_os.Base.Float.{Float64}
use mnemosyne_os.Base.Text.{is_blank, trim_space}
use mnemosyne_os.Memory.{active, superseded, archived, Card, Store, QueryRequest}
use mnemosyne_os.Memory.Cards.{versions_of}
use mnemosyne_os.Memory.Journal.Recovery.{IsSound}
use mnemosyne_os.Memory.Consolidation.{
  ConsolidateResult, Pass, note_promoted, note_superseded, note_archived, promotion, only_status,
  update_or_fail, update_or_skip, supersede, promote_each, archive_each, ConsolidateRequest,
  candidates, candidates_of, older, limit_of, nothing_done, promote_candidates,
}
use mnemosyne_os.Memory.Consolidation.Statuses.{
  Statuses, statuses, IsThere, AreThere, AreThere-map, AreThere-take, AreThere-drop, AreThere-All,
  promoted_statuses-IsThere, assign-IsThere, supersede_status, supersede_status-IsThere,
  promoted_statuses, archived_statuses, assign,
}
use mnemosyne_os.Memory.Consolidation.Passes.{
  Did, pure-Did, bind-Did, note_promoted-Notes, note_archived-Notes,
}
use mnemosyne_os.Memory.Consolidation.Updates.{
  promotion-Sets, archived-Sets, superseded-Sets, update_or_fail-Did, superseding-Did,
}
use mnemosyne_os.Memory.Query.{ids_of, query, resolve_as_of}
use mnemosyne_os.Memory.Query.Laws.{IsAnswer, query-All}
use mnemosyne_os.Memory.Chains.{card_id-get_last?, versions_of-Chain}
use mnemosyne_os.Base.Sort.{All-sort_by}

module _ {Num : Type 0} (F : Float64 Num) (now : ℕ) where
  unless-Did :
      (b : Bool) (change : Statuses → Statuses) (m : Pass Num) (x : ConsolidateResult × Store Num)
      → IsSound x.1
      → (b ≡ false → Did [] [] change x (m x))
      → Did [] [] (λ v. if b then v else change v) x ((if b then pure tt else m) x)
  unless-Did true change m x h f = pure-Did x h
  unless-Did false change m x h f = f refl

  supersede-Did :
      (target : String) (x : ConsolidateResult × Store Num)
      → IsSound x.1
      → Did [] [] (supersede_status target) x (supersede F now target x)
  unfolding supersede
  supersede-Did target x h =
      let id = trim_space target in
      unless-Did (is_blank target) (assign id superseded)
        (update_or_skip F now id (only_status F "superseded") (note_superseded id)) x h
        (λ b.
          superseding-Did F now id superseded (only_status F "superseded") x h
            (superseded-Sets F now) (λ e. ground (arith, e, b)))

  promote_each-Did :
      (cs : List (Card Num)) (x : ConsolidateResult × Store Num)
      → IsSound x.1
      → AreThere (statuses x.1.graph) cs
      → Did (ids_of cs) [] (promoted_statuses cs) x (promote_each F now cs x)
  unfolding promote_each
  promote_each-Did [] x h there = pure-Did x h
  promote_each-Did (c ∷ cs) x h there =
      let v = statuses x.1.graph in
      let first =
        update_or_fail-Did F now c.card_id active (promotion c) x h (promotion-Sets F now c)
          (c.card_id ∷ []) [] (note_promoted c.card_id) (note_promoted-Notes c.card_id) there.0 in
      let y = (update_or_fail F now c.card_id (promotion c) (note_promoted c.card_id) x).1 in
      let second = supersede-Did c.supersedes y first.sound in
      let z = (supersede F now c.supersedes y).1 in
      let still : AreThere (statuses z.1.graph) cs =
        subst (λ w. AreThere w cs)
          (sym (second.changed ∙ ap (supersede_status c.supersedes) first.changed))
          (AreThere-map v (supersede_status c.supersedes (assign c.card_id active v)) cs
            (λ k t.
              supersede_status-IsThere c.supersedes (assign c.card_id active v) k
                (assign-IsThere c.card_id active v k t))
            there.1) in
      bind-Did (c.card_id ∷ []) [] (ids_of cs) [] (assign c.card_id active)
        (λ w. promoted_statuses cs (supersede_status c.supersedes w))
        (update_or_fail F now c.card_id (promotion c) (note_promoted c.card_id))
        (supersede F now c.supersedes >> promote_each F now cs) x first
        (bind-Did [] [] (ids_of cs) [] (supersede_status c.supersedes) (promoted_statuses cs)
          (supersede F now c.supersedes) (promote_each F now cs) y second
          (promote_each-Did cs z second.sound still))

  archive_each-Did :
      (cs : List (Card Num)) (x : ConsolidateResult × Store Num)
      → IsSound x.1
      → AreThere (statuses x.1.graph) cs
      → Did [] (ids_of cs) (archived_statuses cs) x (archive_each F now cs x)
  unfolding archive_each
  archive_each-Did [] x h there = pure-Did x h
  archive_each-Did (c ∷ cs) x h there =
      let v = statuses x.1.graph in
      let first =
        update_or_fail-Did F now c.card_id archived (only_status F "archived") x h
          (archived-Sets F now) [] (c.card_id ∷ []) (note_archived c.card_id)
          (note_archived-Notes c.card_id) there.0 in
      let y =
        (update_or_fail F now c.card_id (only_status F "archived") (note_archived c.card_id) x).1 in
      let still : AreThere (statuses y.1.graph) cs =
        subst (λ w. AreThere w cs) (sym first.changed)
          (AreThere-map v (assign c.card_id archived v) cs
            (λ k t. assign-IsThere c.card_id archived v k t) there.1) in
      bind-Did [] (c.card_id ∷ []) [] (ids_of cs) (assign c.card_id archived) (archived_statuses cs)
        (update_or_fail F now c.card_id (only_status F "archived") (note_archived c.card_id))
        (archive_each F now cs) x first (archive_each-Did cs y first.sound still)

  -- A candidate is found under its own identifier.
  IsAnswer-IsThere :
      (req : QueryRequest) (s : Store Num) (c : Card Num)
      → IsSound s
      → statuses s.graph "" ≡ none
      → req.as_of ≡ none
      → IsAnswer req s.graph c
      → IsThere (statuses s.graph) c.card_id
  unfolding resolve_as_of
  IsAnswer-IsThere req s c h named latest is =
      let found : get_last? (versions_of is.key s.graph) ≡ some c =
        ground (arith, latest, is.resolved) in
      let own =
        card_id-get_last? is.key 0 "" (versions_of is.key s.graph)
          (versions_of-Chain is.key s.graph h.chained) found in
      let there : statuses s.graph is.key ≡ some c.status = ground (arith, found) in
      (
        (λ e. ground (arith, named, there, ap (statuses s.graph) (sym own ∙ e))),
        c.status,
        ap (statuses s.graph) own ∙ there,
      )

  candidates-AreThere :
      (order : List String) (req : ConsolidateRequest) (s : Store Num)
      → IsSound s
      → statuses s.graph "" ≡ none
      → AreThere (statuses s.graph) (candidates F order req s)
  candidates-AreThere order req s h named =
      AreThere-All (statuses s.graph) (candidates F order req s) (
        All-sort_by older (λ c. IsThere (statuses s.graph) c.card_id)
          (query F order (candidates_of req) s.graph).cards
          (All-mono (IsAnswer (candidates_of req) s.graph)
            (λ c. IsThere (statuses s.graph) c.card_id)
            (query F order (candidates_of req) s.graph).cards
            (λ c. IsAnswer-IsThere (candidates_of req) s c h named refl)
            (query-All F order (candidates_of req) s.graph refl)))

  archive_if-Did :
      (b : Bool) (cs : List (Card Num)) (x : ConsolidateResult × Store Num)
      → IsSound x.1
      → AreThere (statuses x.1.graph) cs
      → Did []
          (ids_of (if b then cs else []))
          (archived_statuses (if b then cs else []))
          x
          ((if b then archive_each F now cs else pure tt) x)
  archive_if-Did false cs x h there = pure-Did x h
  archive_if-Did true cs x h there = archive_each-Did cs x h there

  -- In a sound store in which no write is refused and no card has the empty identifier,
  -- PromoteCandidates returns and leaves the store sound; it promotes as many of the sorted
  -- candidates as asked for (all where no number is asked for) and archives the others if asked to,
  -- counts and names them, and changes the statuses in this order: each promoted card is active and
  -- then the card that it supersedes, where there is one, is superseded, and then the others are
  -- archived.
  pub promote_candidates-Did :
      (order : List String) (req : ConsolidateRequest) (s : Store Num)
      → IsSound s
      → statuses s.graph "" ≡ none
      → let cards = candidates F order req s in
        let n = limit_of req.limit (length cards) in
        let rest = if req.archive_remaining then drop n cards else [] in
        let r = promote_candidates F now order req s in
        Did
          (ids_of (take n cards))
          (ids_of rest)
          (λ v. archived_statuses rest (promoted_statuses (take n cards) v))
          (nothing_done (length cards), s)
          (r.0, (r.1, r.2))
  unfolding promote_candidates
  promote_candidates-Did order req s h named =
      let v = statuses s.graph in
      let cards = candidates F order req s in
      let n = limit_of req.limit (length cards) in
      let rest = if req.archive_remaining then drop n cards else [] in
      let x : ConsolidateResult × Store Num = (nothing_done (length cards), s) in
      let there = candidates-AreThere order req s h named in
      let first = promote_each-Did (take n cards) x h (AreThere-take v n cards there) in
      let y = (promote_each F now (take n cards) x).1 in
      let still : AreThere (statuses y.1.graph) (drop n cards) =
        subst (λ w. AreThere w (drop n cards)) (sym first.changed)
          (AreThere-map v (promoted_statuses (take n cards) v) (drop n cards)
            (promoted_statuses-IsThere (take n cards) v) (AreThere-drop v n cards there)) in
      subst
        (λ p.
          Did p (ids_of rest) (λ w. archived_statuses rest (promoted_statuses (take n cards) w)) x
            ((promote_each F now (take n cards)
                >> (if req.archive_remaining then archive_each F now (drop n cards) else pure tt))
              x))
        (append-nil (ids_of (take n cards)))
        (bind-Did (ids_of (take n cards)) [] [] (ids_of rest) (promoted_statuses (take n cards))
          (archived_statuses rest) (promote_each F now (take n cards))
          (if req.archive_remaining then archive_each F now (drop n cards) else pure tt) x first
          (archive_if-Did req.archive_remaining (drop n cards) y first.sound still))
