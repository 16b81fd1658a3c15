-- ===== src/Memory/Consolidation/Updates.antt =====
-- The updates of single cards in a pass (internal/memory/consolidator.go).
use mnemosyne_os.Base.{
  ℕ, String, ◌≡◌, ◌≢◌, false, refl, sym, ap, subst, ◌∙◌, none, some, List, [], arith, str_dec,
  get_last?, Option-cases, inl, inr,
}
use mnemosyne_os.Base.Float.{Float64}
use mnemosyne_os.Base.Result.{ok}
use mnemosyne_os.Memory.{
  CardStatus, active, superseded, archived, Card, Graph, Store, UpdateCardRequest,
  normalize_card_status,
}
use mnemosyne_os.Memory.Cards.{
  versions_of, update_card, updated_card, override_status, is_unsupported,
}
use mnemosyne_os.Memory.Journal.Recovery.{IsSound, update_card-IsSound}
use mnemosyne_os.Memory.Consolidation.{
  ConsolidateResult, note_superseded, promotion, only_status, update_or_fail, update_or_skip,
}
use mnemosyne_os.Memory.Consolidation.Statuses.{
  statuses, IsThere, assign, update_card_there, update_card_missing,
}
use mnemosyne_os.Memory.Consolidation.Passes.{Did, pure-Did, Notes, note_superseded-Notes}

latest_of_there :
    {Num : Type 0} (id : String) (g : Graph Num)
    → IsThere (statuses g) id
    → (c : Card Num) × (get_last? (versions_of id g) ≡ some c)
latest_of_there id g (n, st, e) = elim (Option-cases (get_last? (versions_of id g))) [
  | inl f ↦ absurd (ground (arith, e, f))
  | inr (c, f) ↦ (c, f)
]

-- The request sets a status.
pub record Sets {Num : Type 0} (st : CardStatus) (req : UpdateCardRequest Num) : Type 0 where
  pub supported : is_unsupported req.status ≡ false
  pub overrides : (old : CardStatus) → override_status req.status old ≡ st

module _ {Num : Type 0} (F : Float64 Num) (now : ℕ) where
  pub promotion-Sets : (c : Card Num) → Sets active (promotion c)
  unfolding normalize_card_status str_dec
  promotion-Sets c = record { supported = refl; overrides = λ old. refl }

  pub archived-Sets : Sets archived (only_status F "archived")
  unfolding normalize_card_status str_dec
  archived-Sets = record { supported = refl; overrides = λ old. refl }

  pub superseded-Sets : Sets superseded (only_status F "superseded")
  unfolding normalize_card_status str_dec
  superseded-Sets = record { supported = refl; overrides = λ old. refl }

  module _ (id : String) (st : CardStatus) (req : UpdateCardRequest Num)
      (x : ConsolidateResult × Store Num) (h : IsSound x.1) (sets : Sets st req) where
    update_card_sets :
        (c : Card Num)
        → id ≢ ""
        → get_last? (versions_of id x.1.graph) ≡ some c
        → ((update_card F now id req x.1).0 ≡ ok (updated_card F now req c))
          × (statuses (update_card F now id req x.1).1.graph ≡ assign id st (statuses x.1.graph))
    update_card_sets c n e =
        let (done, after) = update_card_there F now id req x.1 c h.calm n sets.supported e in
        (done, after ∙ ap (λ t. assign id t (statuses x.1.graph)) (sets.overrides c.status))

    updated-Did :
        (p a : List String) (note : ConsolidateResult → ConsolidateResult) (c : Card Num)
        → id ≢ ""
        → get_last? (versions_of id x.1.graph) ≡ some c
        → Notes p a note
        → Did p a (assign id st) x (ok tt, (note x.0, (update_card F now id req x.1).1))
    updated-Did p a note c n e notes = record {
      returned = refl;
      sound = update_card-IsSound F now id req x.1 h;
      changed = (update_card_sets c n e).1;
      promoted_cards = notes.promoted_cards x.0;
      archived_cards = notes.archived_cards x.0;
      promoted = notes.promoted x.0;
      archived_count = notes.archived_count x.0;
      examined = notes.examined x.0;
    }

    -- An update of a card that is there, in either form.
    module _ (p a : List String) (note : ConsolidateResult → ConsolidateResult)
        (notes : Notes p a note) where
      pub update_or_fail-Did :
          IsThere (statuses x.1.graph) id
          → Did p a (assign id st) x (update_or_fail F now id req note x)
      update_or_fail-Did there =
          let (c, e) = latest_of_there id x.1.graph there in
          let all_well : update_or_fail F now id req note x
              ≡ (ok tt, (note x.0, (update_card F now id req x.1).1)) =
            ground (arith, (update_card_sets c there.0 e).0) in
          subst (Did p a (assign id st) x) (sym all_well) (updated-Did p a note c there.0 e notes)

    assign_missing :
        get_last? (versions_of id x.1.graph) ≡ none
        → statuses x.1.graph ≡ assign id st (statuses x.1.graph)
    assign_missing e i k = same k i
      where
        same : (k : String) → statuses x.1.graph k ≡ assign id st (statuses x.1.graph) k
        same k = elim (str_dec id k) [
          | yes p ↦ ground (arith, p, ap (λ y. get_last? (versions_of y x.1.graph)) p, e)
          | no p ↦ ground (arith, p)
        ]

    -- A card that is not there is passed over.
    pub superseding-Did :
        id ≢ "" → Did [] [] (assign id st) x (update_or_skip F now id req (note_superseded id) x)
    superseding-Did n = elim (Option-cases (get_last? (versions_of id x.1.graph))) [
      | inl e ↦
          let skipped : update_or_skip F now id req (note_superseded id) x ≡ (ok tt, x) =
            ground (arith, update_card_missing F now id req x.1 n sets.supported e) in
          let idle = pure-Did x h in
          subst (Did [] [] (assign id st) x) (sym skipped) (record {
            returned = refl;
            sound = h;
            changed = assign_missing e;
            promoted_cards = idle.promoted_cards;
            archived_cards = idle.archived_cards;
            promoted = idle.promoted;
            archived_count = idle.archived_count;
            examined = refl;
          })
      | inr (c, e) ↦
          let all_well : update_or_skip F now id req (note_superseded id) x
              ≡ (ok tt, (note_superseded id x.0, (update_card F now id req x.1).1)) =
            ground (arith, (update_card_sets c n e).0) in
          subst (Did [] [] (assign id st) x) (sym all_well)
            (updated-Did [] [] (note_superseded id) c n e note_superseded-Notes)
    ]
