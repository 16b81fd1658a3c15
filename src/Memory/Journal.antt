-- ===== src/Memory/Journal.antt =====
-- internal/memory/journal.go: replay of the journal, and what is compared with it.
pub mod Recovery
pub mod Agreement
pub mod Rebuild
use mnemosyne_os.Base.{
  ℕ, String, Bool, true, false, ◌&&◌, not, Option, none, some, List, [], ◌∷◌, ◌++◌, if◌then◌else◌,
  decided, str_dec, ℕ_discrete, length,
}
use mathlib.Core.List.{foldl}
use mnemosyne_os.Base.Assoc
use mnemosyne_os.Base.Exec.{pure, ◌>>=◌, ◌>>◌}
use mnemosyne_os.Memory.{Card, Edge, JournalEvent, card_event, edge_event, Graph, Store, Method}
use mnemosyne_os.Memory.Cards.{index_edge, persist_card, persist_edge}

pub record IntegrityReport : Type 0 where
  pub report_ok : Bool
  pub missing_cards : List String
  pub extra_cards : List String
  pub mismatch_cards : List String
  pub missing_edges : List String
  pub extra_edges : List String

module _ {Num : Type 0} where
  abbrev pub empty_graph : Graph Num
  empty_graph = record { cards = []; edges = []; edges_by_card = [] }

  abbrev index_ends : Edge Num → Graph Num → Graph Num
  index_ends e g = index_edge e.to_card_id e.edge_id (index_edge e.from_card_id e.edge_id g)

  -- The edge is indexed under its ends the first time only.
  abbrev replay_edge : Edge Num → Graph Num → Graph Num
  replay_edge e g = elim (Assoc.get str_dec e.edge_id g.edges) [
    | none ↦ index_ends e (record g { edges = Assoc.put str_dec e.edge_id e g.edges })
    | some _ ↦ record g { edges = Assoc.put str_dec e.edge_id e g.edges }
  ]

  -- The snapshot of a card's event goes under the identifier of its first version.
  unfoldable pub replay_event : Graph Num → JournalEvent Num → Graph Num
  replay_event g (card_event kind ts id type v []) = g
  replay_event g (card_event kind ts id type v (c ∷ vs)) = record g {
    cards = Assoc.put str_dec c.card_id (c ∷ vs) g.cards;
  }
  replay_event g (edge_event ts e) = replay_edge e g

  -- `ReplayFromJournal`
  unfoldable pub replay : List (JournalEvent Num) → Graph Num
  unfolding replay_event
  replay = foldl replay_event empty_graph

abbrev pub all_well : IntegrityReport
all_well = record {
  report_ok = true;
  missing_cards = [];
  extra_cards = [];
  mismatch_cards = [];
  missing_edges = [];
  extra_edges = [];
}

-- The keys of the first map that the second lacks.
missing_keys : {A B : Type 0} → List (String × A) → List (String × B) → List String
missing_keys [] l = []
missing_keys ((k, _) ∷ m) l =
    let rest = missing_keys m l in elim (Assoc.get str_dec k l) [ none ↦ k ∷ rest | some _ ↦ rest ]

-- The keys of both maps whose lists differ in length.
mismatched_keys : {A B : Type 0} → List (String × List A) → List (String × List B) → List String
mismatched_keys [] l = []
mismatched_keys ((k, xs) ∷ m) l =
    let rest = mismatched_keys m l in
    elim (Assoc.get str_dec k l) [
      | none ↦ rest
      | some ys ↦ if decided (ℕ_discrete (length ys) (length xs)) then rest else k ∷ rest
    ]

abbrev is_nil : List String → Bool
is_nil [] = true
is_nil (_ ∷ _) = false

module _ {Num : Type 0} where
  compare_graphs : Graph Num → Graph Num → IntegrityReport
  unfolding missing_keys mismatched_keys
  compare_graphs live replayed =
      let missing = missing_keys replayed.cards live.cards in
      let extra = missing_keys live.cards replayed.cards in
      let mismatch = mismatched_keys replayed.cards live.cards in
      let lost = missing_keys replayed.edges live.edges in
      let surplus = missing_keys live.edges replayed.edges in
      record {
        report_ok =
            is_nil missing && is_nil extra && is_nil mismatch && is_nil lost && is_nil surplus;
        missing_cards = missing;
        extra_cards = extra;
        mismatch_cards = mismatch;
        missing_edges = lost;
        extra_edges = surplus;
      }

  -- `VerifyIntegrity`
  unfoldable pub verify_integrity : Store Num → IntegrityReport
  unfolding compare_graphs
  verify_integrity s = if s.persistent then compare_graphs s.graph (replay s.journal) else all_well

  persist_cards : List (String × List (Card Num)) → Method Num (Unit {0})
  persist_cards [] = pure tt
  persist_cards ((k, _) ∷ m) = do persist_card k; persist_cards m

  persist_edges : List (String × Edge Num) → Method Num (Unit {0})
  persist_edges [] = pure tt
  persist_edges ((k, _) ∷ m) = do persist_edge k; persist_edges m

  reset_to : Graph Num → Method Num (Unit {0})
  reset_to g s = pure tt (record s { graph = g; card_files = []; edge_files = [] })

  -- `RebuildProjections`: the snapshots are wiped and written again from the journal.
  unfoldable pub rebuild_projections : Method Num (Unit {0})
  unfolding persist_cards persist_edges reset_to
  rebuild_projections s =
      let g = replay s.journal in
      if s.persistent
      then (do reset_to g; persist_cards g.cards; persist_edges g.edges) s
      else pure tt s
