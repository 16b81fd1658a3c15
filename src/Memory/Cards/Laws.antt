-- ===== src/Memory/Cards/Laws.antt =====
-- What the writing methods do to the maps, and, when no write is refused, to the journal.
use mnemosyne_os.Base.{ℕ, String, ◌≡◌, true, List, [], ◌∷◌, ◌++◌, arith, str_dec}
use mnemosyne_os.Base.Assoc
use mnemosyne_os.Base.Result.{ok}
use mnemosyne_os.Memory.{EventType, Card, Edge, card_event, edge_event, Graph, Store}
use mnemosyne_os.Memory.Cards.{
  versions_of, persist_card, persist_edge, append_event, record_versions, record_edge, add_edge,
}

module _ {Num : Type 0} where
  abbrev pub with_versions : String → List (Card Num) → Graph Num → Graph Num
  with_versions id vs g = record g { cards = Assoc.put str_dec id vs g.cards }

  -- The maps are written first, so also when a write to disk is refused.
  pub graph-record_versions :
      (kind : EventType) (now : ℕ) (id : String) (c : Card Num) (vs : List (Card Num))
      (s : Store Num)
      → (record_versions kind now id c vs s).1.graph ≡ with_versions id vs s.graph
  unfolding record_versions persist_card append_event
  graph-record_versions kind now id c vs s = ground arith

  pub graph-record_edge :
      (now : ℕ) (e : Edge Num) (s : Store Num) → (record_edge now e s).1.graph ≡ add_edge e s.graph
  unfolding record_edge persist_edge append_event
  graph-record_edge now e s = ground arith

  versions_of-put :
      (id : String) (vs : List (Card Num)) (g : Graph Num)
      → versions_of id (with_versions id vs g) ≡ vs
  versions_of-put id vs g = ground (arith, Assoc.get-put str_dec id id vs g.cards)

  -- A store with a directory, of which no write will be refused.
  pub record IsCalm (s : Store Num) : Type 0 where
    pub has_directory : s.persistent ≡ true
    pub unrefused : s.faults ≡ []

  module _ (s : Store Num) (calm : IsCalm s) where
    module _ (kind : EventType) (now : ℕ) (id : String) (c : Card Num) (vs : List (Card Num)) where
      pub journal-record_versions :
          (record_versions kind now id c vs s).1.journal
          ≡ s.journal ++ card_event kind now id c.card_type c.version vs ∷ []
      unfolding record_versions persist_card append_event
      journal-record_versions =
          ground (arith, calm.has_directory, calm.unrefused, versions_of-put id vs s.graph)

      pub record_versions-IsCalm : IsCalm (record_versions kind now id c vs s).1
      unfolding record_versions persist_card append_event
      record_versions-IsCalm = record {
        has_directory = ground (arith, calm.has_directory, calm.unrefused);
        unrefused = ground (arith, calm.has_directory, calm.unrefused);
      }

      pub record_versions_ok : (record_versions kind now id c vs s).0 ≡ ok c
      unfolding record_versions persist_card append_event
      record_versions_ok = ground (arith, calm.has_directory, calm.unrefused)

    module _ (now : ℕ) (e : Edge Num) where
      pub journal-record_edge : (record_edge now e s).1.journal ≡ s.journal ++ edge_event now e ∷ []
      unfolding record_edge persist_edge append_event
      journal-record_edge = ground (arith, calm.has_directory, calm.unrefused)

      pub record_edge-IsCalm : IsCalm (record_edge now e s).1
      unfolding record_edge persist_edge append_event
      record_edge-IsCalm = record {
        has_directory = ground (arith, calm.has_directory, calm.unrefused);
        unrefused = ground (arith, calm.has_directory, calm.unrefused);
      }
