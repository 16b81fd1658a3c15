-- ===== src/Memory/Journal/Recovery.antt =====
-- The journal alone gives the maps back, as long as no write was refused.
use mnemosyne_os.Base.{
  ℕ, String, ◌≡◌, refl, sym, ap, subst, ◌∙◌, Option, none, some, List, [], ◌∷◌, ◌++◌, arith,
  str_dec, get_last?,
}
use mathlib.Core.List.{foldl-append}
use mnemosyne_os.Base.Assoc
use mnemosyne_os.Base.Assoc.Keys
use mnemosyne_os.Base.Float.{Float64}
use mnemosyne_os.Memory.{
  CardStatus, Card, Edge, Graph, Store, EventType, JournalEvent, card_event, edge_event,
  CreateCardRequest, UpdateCardRequest, CreateEdgeRequest, normalize_card_status, card_created,
  card_updated, card_touched,
}
use mnemosyne_os.Memory.Cards.{
  versions_of, create_with, new_card, updated_card, touched_card, has_edge, new_edge, create_card,
  update_card, touch_card, create_edge, revise, record_versions, record_edge, or_latest,
}
use mnemosyne_os.Memory.Cards.Laws.{
  IsCalm, with_versions, graph-record_versions, journal-record_versions, record_versions-IsCalm,
  graph-record_edge, journal-record_edge, record_edge-IsCalm,
}
use mnemosyne_os.Memory.Chains.{
  IsHistory, IsChained, Follows, append-IsHistory, with_versions-IsChained,
}
use mnemosyne_os.Memory.Journal.{empty_graph, replay_event, replay}

module _ {Num : Type 0} where
  replay-append :
      (evs : List (JournalEvent Num)) (ev : JournalEvent Num)
      → replay (evs ++ ev ∷ []) ≡ replay_event (replay evs) ev
  unfolding replay
  replay-append evs ev = foldl-append replay_event empty_graph evs (ev ∷ [])

  -- The snapshot of a history goes under its own identifier.
  replay_event_of_history :
      (g : Graph Num) (kind : EventType) (now : ℕ) (id type : String) (v : ℕ) (vs : List (Card Num))
      → IsHistory id vs
      → replay_event g (card_event kind now id type v vs) ≡ with_versions id vs g
  unfolding replay_event
  replay_event_of_history g kind now id type v [] h = absurd (h.1 refl)
  replay_event_of_history g kind now id type v (c ∷ vs) h =
      ap (λ k. with_versions k (c ∷ vs) g) h.0.0

  -- What holds of a store between two calls, when no write is refused.
  pub record IsSound (s : Store Num) : Type 0 where
    pub calm : IsCalm s
    pub chained : IsChained s.graph
    pub keyed : Keys.Distinct s.graph.cards
    pub edges_keyed : Keys.Distinct s.graph.edges
    pub mirrored : replay s.journal ≡ s.graph

  pub record_versions-IsSound :
      (kind : EventType) (now : ℕ) (id : String) (c : Card Num) (vs : List (Card Num))
      (s : Store Num)
      → IsHistory id vs
      → IsSound s
      → IsSound (record_versions kind now id c vs s).1
  record_versions-IsSound kind now id c vs s h k =
      let g = graph-record_versions kind now id c vs s in
      record {
        calm = record_versions-IsCalm s k.calm kind now id c vs;
        chained = subst IsChained (sym g) (with_versions-IsChained id vs s.graph k.chained h);
        keyed =
            subst (λ g. Keys.Distinct g.cards) (sym g)
              (Keys.Distinct-put str_dec id vs s.graph.cards k.keyed);
        edges_keyed = subst (λ g. Keys.Distinct g.edges) (sym g) k.edges_keyed;
        mirrored =
            ap replay (journal-record_versions s k.calm kind now id c vs)
            ∙ replay-append s.journal (card_event kind now id c.card_type c.version vs)
            ∙ ap (λ g. replay_event g (card_event kind now id c.card_type c.version vs)) k.mirrored
            ∙ replay_event_of_history s.graph kind now id c.card_type c.version vs h
            ∙ sym g;
      }

  -- The new version is one that follows the latest.
  revise-IsSound :
      (kind : EventType) (now : ℕ) (id : String) (change : Card Num → Card Num) (s : Store Num)
      → ((c : Card Num) → Follows c (change c))
      → IsSound s
      → IsSound (revise kind now id change s).1
  unfolding revise
  revise-IsSound kind now id change s f h = from_latest (get_last? (versions_of id s.graph)) refl
    where
      from_latest :
          (o : Option (Card Num))
          → get_last? (versions_of id s.graph) ≡ o
          → IsSound
              (or_latest o
                (λ latest.
                  record_versions kind now id
                    (change latest)
                    (versions_of id s.graph ++ change latest ∷ []))
                s).1
      from_latest none e = h
      from_latest (some c) e =
          record_versions-IsSound kind now id (change c) (versions_of id s.graph ++ change c ∷ []) s
            (append-IsHistory id s.graph c (change c) h.chained e (f c)) h

  record_edge-IsSound :
      (now : ℕ) (e : Edge Num) (s : Store Num)
      → Assoc.get str_dec e.edge_id s.graph.edges ≡ none
      → IsSound s
      → IsSound (record_edge now e s).1
  unfolding replay_event
  record_edge-IsSound now e s new k =
      let g = graph-record_edge now e s in
      record {
        calm = record_edge-IsCalm s k.calm now e;
        chained = subst IsChained (sym g) k.chained;
        keyed = subst (λ g. Keys.Distinct g.cards) (sym g) k.keyed;
        edges_keyed =
            subst (λ g. Keys.Distinct g.edges) (sym g)
              (Keys.Distinct-put str_dec e.edge_id e s.graph.edges k.edges_keyed);
        mirrored =
            ap replay (journal-record_edge s k.calm now e)
            ∙ replay-append s.journal (edge_event now e)
            ∙ ap (λ g. replay_event g (edge_event now e)) k.mirrored
            ∙ ground (arith, new)
            ∙ sym g;
      }

module _ {Num : Type 0} (F : Float64 Num) where
  pub create_card-IsSound :
      (now : ℕ) (req : CreateCardRequest Num) (s : Store Num)
      → IsSound s
      → IsSound (create_card F now req s).1
  unfolding create_card create_with new_card
  create_card-IsSound now req s h = ground (arith, h, of_status (normalize_card_status req.status))
    where
      of_status : (o : Option CardStatus) → IsSound (create_with F now req o s).1
      of_status none = h
      of_status (some st) = ground (
        arith,
        h,
        record_versions-IsSound card_created now req.card_id (new_card F now st req)
            (new_card F now st req ∷ []) s ((refl, refl, refl, tt), λ e. cc) h,
      )

  pub update_card-IsSound :
      (now : ℕ) (id : String) (req : UpdateCardRequest Num) (s : Store Num)
      → IsSound s
      → IsSound (update_card F now id req s).1
  unfolding update_card updated_card
  update_card-IsSound now id req s h = ground (
    arith,
    h,
    revise-IsSound card_updated now id (updated_card F now req) s (λ c. (refl, refl, refl)) h,
  )

  pub touch_card-IsSound :
      (now : ℕ) (id : String) (a c : Num) (s : Store Num)
      → IsSound s
      → IsSound (touch_card F now id a c s).1
  unfolding touch_card touched_card
  touch_card-IsSound now id a c s h = ground (
    arith,
    h,
    revise-IsSound card_touched now id (touched_card F now a c) s (λ c. (refl, refl, refl)) h,
  )

module _ {Num : Type 0} where
  pub create_edge-IsSound :
      (now : ℕ) (req : CreateEdgeRequest Num) (s : Store Num)
      → IsSound s
      → IsSound (create_edge now req s).1
  unfolding create_edge has_edge new_edge
  create_edge-IsSound now req s h = ground (arith, h, record_edge-IsSound now (new_edge now req) s)
