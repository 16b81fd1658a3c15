-- ===== src/Memory/Journal/Rebuild.antt =====
-- `RebuildProjections` (internal/memory/store.go): the maps come from the journal alone.
use mnemosyne_os.Base.{String, ◌≡◌, refl, true, List, [], ◌∷◌, arith}
use mnemosyne_os.Base.Result.{Result, ok, err}
use mnemosyne_os.Base.Exec.{continue}
use mnemosyne_os.Memory.{Card, Edge, Graph, JournalEvent, Store, Error}
use mnemosyne_os.Memory.Cards.{persist_card, persist_edge}
use mnemosyne_os.Memory.Journal.{
  replay, persist_cards, persist_edges, reset_to, rebuild_projections,
}

module _ {Num : Type 0} where
  -- The maps and the journal, which writing a snapshot leaves alone.
  abbrev pub Keeps : Graph Num → List (JournalEvent Num) → Store Num → Type 0
  Keeps g j s = (s.graph ≡ g) × (s.journal ≡ j)

  persist_card-Keeps :
      (g : Graph Num) (j : List (JournalEvent Num)) (id : String) (s : Store Num)
      → Keeps g j s
      → Keeps g j (persist_card id s).1
  unfolding persist_card
  persist_card-Keeps g j id s h = ground (arith, h.0, h.1)

  persist_edge-Keeps :
      (g : Graph Num) (j : List (JournalEvent Num)) (id : String) (s : Store Num)
      → Keeps g j s
      → Keeps g j (persist_edge id s).1
  unfolding persist_edge
  persist_edge-Keeps g j id s h = ground (arith, h.0, h.1)

  persist_cards-Keeps :
      (g : Graph Num) (j : List (JournalEvent Num)) (m : List (String × List (Card Num)))
      (s : Store Num)
      → Keeps g j s
      → Keeps g j (persist_cards m s).1
  unfolding persist_cards
  persist_cards-Keeps g j [] s h = h
  persist_cards-Keeps g j ((k, v) ∷ m) s h =
      go_on (persist_card k s).0 (persist_card k s).1 (persist_card-Keeps g j k s h)
        (persist_cards-Keeps g j m (persist_card k s).1)
    where
      go_on :
          (r : Result Error (Unit {0})) (t : Store Num)
          → Keeps g j t
          → (Keeps g j t → Keeps g j (persist_cards m t).1)
          → Keeps g j (continue r (λ _. persist_cards m) t).1
      go_on (ok _) t u f = f u
      go_on (err e) t u f = u

  persist_edges-Keeps :
      (g : Graph Num) (j : List (JournalEvent Num)) (m : List (String × Edge Num)) (s : Store Num)
      → Keeps g j s
      → Keeps g j (persist_edges m s).1
  unfolding persist_edges
  persist_edges-Keeps g j [] s h = h
  persist_edges-Keeps g j ((k, v) ∷ m) s h =
      go_on (persist_edge k s).0 (persist_edge k s).1 (persist_edge-Keeps g j k s h)
        (persist_edges-Keeps g j m (persist_edge k s).1)
    where
      go_on :
          (r : Result Error (Unit {0})) (t : Store Num)
          → Keeps g j t
          → (Keeps g j t → Keeps g j (persist_edges m t).1)
          → Keeps g j (continue r (λ _. persist_edges m) t).1
      go_on (ok _) t u f = f u
      go_on (err e) t u f = u

  -- With a directory, the maps are afterwards what the journal replays to, whatever they were
  -- before and even where the writing of a snapshot is refused; the journal stays as it was.
  pub rebuild_projections_replays :
      (s : Store Num)
      → s.persistent ≡ true
      → ((rebuild_projections s).1.graph ≡ replay s.journal)
        × ((rebuild_projections s).1.journal ≡ s.journal)
  unfolding rebuild_projections reset_to
  rebuild_projections_replays s d =
      let g = replay s.journal in
      let j = s.journal in
      let wiped : Store Num = record s { graph = g; card_files = []; edge_files = [] } in
      let written = persist_cards-Keeps g j g.cards wiped (refl, refl) in
      let m = persist_cards g.cards wiped in
      ground (arith, d, written.0, written.1, persist_edges-Keeps g j g.edges m.1 written)
