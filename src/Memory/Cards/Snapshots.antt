-- ===== src/Memory/Cards/Snapshots.antt =====
-- The snapshot files that a card's version is written to (internal/memory/store.go).
use mnemosyne_os.Base.{ℕ, String, ◌≡◌, ◌≢◌, none, some, List, [], arith, decided, if◌then◌else◌}
use mnemosyne_os.Base.Assoc
use mnemosyne_os.Memory.{Store}
use mnemosyne_os.Memory.Files.{file_name, legacy_name, name_dec}
use mnemosyne_os.Memory.Cards.{versions_of, persist_card, store_card_file}

module _ {Num : Type 0} where
  -- With no write refused: under the name of a file, what the snapshot of the card leaves: the
  -- versions of the card under its own name, nothing under its older name, and the rest as it was.
  pub get-persist_card :
      (id : String) (name : List ℕ) (s : Store Num)
      → s.faults ≡ []
      → Assoc.get name_dec name (persist_card id s).1.card_files ≡ (
          if decided (name_dec (file_name id) name)
          then some (versions_of id s.graph)
          else if decided (name_dec (legacy_name id) name)
          then none
          else Assoc.get name_dec name s.card_files)
  unfolding persist_card store_card_file
  get-persist_card id name s f = ground (
    arith,
    f,
    Assoc.get-put name_dec (file_name id) name (versions_of id s.graph) s.card_files,
    Assoc.get-del name_dec (legacy_name id) name
        (Assoc.put name_dec (file_name id) (versions_of id s.graph) s.card_files),
  )

  -- With no write refused, the snapshot of a card is lost when another card is written whose older
  -- file name is the present file name of the first: its removal takes the first one's file.
  pub persist_card_loses :
      (id other : String) (s : Store Num)
      → s.faults ≡ []
      → legacy_name other ≡ file_name id
      → file_name other ≢ file_name id
      → Assoc.get name_dec (file_name id) (persist_card other s).1.card_files ≡ none
  persist_card_loses id other s f e n =
      ground (arith, e, n, get-persist_card other (file_name id) s f)
