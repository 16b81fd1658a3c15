-- ===== src/Memory/Cards/Writes.antt =====
-- How new versions and edges reach the maps, the snapshot files and the journal
-- (internal/memory/store.go).
use Prim.Native.String.{◌++◌ as text_append}
use mnemosyne_os.Base.{
  ℕ, String, Bool, true, false, Option, none, some, List, [], ◌∷◌, ◌++◌, if◌then◌else◌, decided,
  str_dec,
}
use mnemosyne_os.Base.Assoc
use mnemosyne_os.Base.Number.{decimal}
use mnemosyne_os.Base.Exec.{pure, ◌>>◌}
use mnemosyne_os.Memory.Files.{file_name, legacy_name, name_dec}
use mnemosyne_os.Memory.{
  Card, Edge, EventType, JournalEvent, card_event, edge_event, Graph, Store, Method, attempt,
}

-- `latest.CardID + "#v" + strconv(latest.Version)`
abbrev pub version_link : String → ℕ → String
version_link id v = text_append id (text_append "#v" (decimal v))

-- os.WriteFile, and the removal of the file of the older name, whose error is dropped.
abbrev pub without_legacy :
    {A : Type 0} → List Bool → String → List (List ℕ × A) → List (List ℕ × A)
without_legacy faults id files =
    if decided (name_dec (legacy_name id) (file_name id)) then files else elim faults [
      | [] ↦ Assoc.del name_dec (legacy_name id) files
      | refused ∷ _ ↦ elim refused [
        | true ↦ files
        | false ↦ Assoc.del name_dec (legacy_name id) files
      ]
    ]

abbrev pub faults_after_legacy : List Bool → String → List Bool
faults_after_legacy faults id =
    if decided (name_dec (legacy_name id) (file_name id))
    then faults
    else elim faults [ [] ↦ [] | _ ∷ rest ↦ rest ]

module _ {Num : Type 0} where
  abbrev pub new_store : Store Num
  new_store = record {
    graph = record { cards = []; edges = []; edges_by_card = [] };
    persistent = false;
    card_files = [];
    edge_files = [];
    journal = [];
    faults = [];
  }

  -- The versions under an identifier; a missing key gives none.
  abbrev pub versions_of : String → Graph Num → List (Card Num)
  versions_of id g = elim (Assoc.get str_dec id g.cards) [ none ↦ [] | some vs ↦ vs ]

  unfoldable pub store_card_file : String → Method Num (Unit {0})
  store_card_file id s = pure tt (record s {
    card_files =
        without_legacy s.faults id
          (Assoc.put name_dec (file_name id) (versions_of id s.graph) s.card_files);
    faults = faults_after_legacy s.faults id;
  })

  unfoldable pub persist_card : String → Method Num (Unit {0})
  unfolding store_card_file
  persist_card id = do attempt; store_card_file id

  store_edge_file : String → Edge Num → Method Num (Unit {0})
  store_edge_file id e s = pure tt (record s {
    edge_files = without_legacy s.faults id (Assoc.put name_dec (file_name id) e s.edge_files);
    faults = faults_after_legacy s.faults id;
  })

  persist_found : String → Option (Edge Num) → Method Num (Unit {0})
  unfolding store_edge_file
  persist_found id none = pure tt
  persist_found id (some e) = do attempt; store_edge_file id e

  unfoldable pub persist_edge : String → Method Num (Unit {0})
  unfolding persist_found
  persist_edge id s = persist_found id (Assoc.get str_dec id s.graph.edges) s

  append_line : JournalEvent Num → Method Num (Unit {0})
  append_line ev s = pure tt (record s { journal = s.journal ++ ev ∷ [] })

  -- `Journal.Append`
  unfoldable pub append_event : JournalEvent Num → Method Num (Unit {0})
  unfolding append_line
  append_event ev = do attempt; append_line ev

  append_card_event : EventType → ℕ → String → Card Num → Method Num (Unit {0})
  append_card_event kind now id c s =
      append_event (card_event kind now id c.card_type c.version (versions_of id s.graph)) s

  put_versions : String → List (Card Num) → Method Num (Unit {0})
  put_versions id vs s =
      pure tt
        (record s { graph = record s.graph { cards = Assoc.put str_dec id vs s.graph.cards } })

  when_persistent : Method Num (Unit {0}) → Method Num (Unit {0})
  when_persistent m s = if s.persistent then m s else pure tt s

  -- The new versions in memory, then on disk, then in the journal.
  unfoldable pub record_versions :
      EventType → ℕ → String → Card Num → List (Card Num) → Method Num (Card Num)
  unfolding put_versions when_persistent append_card_event
  record_versions kind now id c vs = do
    put_versions id vs
    when_persistent (do persist_card id; append_card_event kind now id c)
    pure c

  abbrev pub edge_ids_of : String → Graph Num → List String
  edge_ids_of id g = elim (Assoc.get str_dec id g.edges_by_card) [ none ↦ [] | some ids ↦ ids ]

  -- `s.edgesByCard[id] = append(s.edgesByCard[id], edgeID)`
  abbrev pub index_edge : String → String → Graph Num → Graph Num
  index_edge id edge_id g = record g {
    edges_by_card = Assoc.put str_dec id (edge_ids_of id g ++ edge_id ∷ []) g.edges_by_card;
  }

  abbrev pub add_edge : Edge Num → Graph Num → Graph Num
  add_edge e g = index_edge e.to_card_id e.edge_id (
      index_edge e.from_card_id e.edge_id
        (record g { edges = Assoc.put str_dec e.edge_id e g.edges }))

  put_edge : Edge Num → Method Num (Unit {0})
  put_edge e s = pure tt (record s { graph = add_edge e s.graph })

  unfoldable pub record_edge : ℕ → Edge Num → Method Num (Edge Num)
  unfolding put_edge when_persistent
  record_edge now e = do
    put_edge e
    when_persistent (do persist_edge e.edge_id; append_event (edge_event now e))
    pure e
