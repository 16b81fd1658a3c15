-- ===== src/Memory.antt =====
-- internal/memory/types.go: cards in versions, edges between cards, and the store of both.
pub mod Files
pub mod Cards
pub mod Chains
pub mod Journal
pub mod Governance
pub mod Query
pub mod Consolidation
mod Tests
use mnemosyne_os.Base.{
  ℕ, String, Bool, true, false, Option, none, some, List, [], ◌∷◌, if◌then◌else◌, decided, str_dec,
}
use mnemosyne_os.Base.Exec.{Exec, pure, raise}

pub data CardStatus : Type 0 where
  candidate active stale superseded archived : CardStatus

unfoldable pub status_dec : Discrete CardStatus
status_dec = hlevel

abbrev pub status_text : CardStatus → String
status_text candidate = "candidate"
status_text active = "active"
status_text stale = "stale"
status_text superseded = "superseded"
status_text archived = "archived"

-- `none` is the empty result, an unsupported status.
unfoldable pub normalize_card_status : String → Option CardStatus
normalize_card_status s =
    if decided (str_dec s "candidate")
    then some candidate
    else if decided (str_dec s "active")
    then some active
    else if decided (str_dec s "stale")
    then some stale
    else if decided (str_dec s "superseded")
    then some superseded
    else if decided (str_dec s "archived")
    then some archived
    else if decided (str_dec s "")
    then some active
    else none

abbrev is_active : Option CardStatus → Bool
is_active (some active) = true
is_active _ = false

unfoldable pub is_recall_eligible_status : String → Bool
is_recall_eligible_status s = is_active (normalize_card_status s)

-- A value of a card's content: a text, a number, a list of names, or what the program only carries.
pub data Value : Type 0 where
  text : String → Value
  number : ℕ → Value
  names : List String → Value
  other : ℕ → Value

abbrev pub Content : Type 0
Content = List (String × Value)

pub record EvidenceRef : Type 0 where
  pub card_id : String
  pub snippet : String
  pub hash : String

pub record Provenance (Num : Type 0) : Type 0 where
  pub agent_id : String
  pub source : String
  pub confidence : Num

pub record ActivationState (Num : Type 0) : Type 0 where
  pub score : Num
  pub last_access_at : Option ℕ
  pub last_evaluated_at : Option ℕ
  pub decay_policy : String

pub record Card (Num : Type 0) : Type 0 where
  pub card_id : String
  pub card_type : String
  pub scope : String
  pub created_at : ℕ
  pub valid_from : Option ℕ
  pub valid_to : Option ℕ
  pub version : ℕ
  pub prev_version : String
  pub status : CardStatus
  pub supersedes : String
  pub content : Option Content
  pub evidence_refs : Option (List EvidenceRef)
  pub provenance : Provenance Num
  pub activation : ActivationState Num

pub record Edge (Num : Type 0) : Type 0 where
  pub edge_id : String
  pub from_card_id : String
  pub to_card_id : String
  pub edge_type : String
  pub weight : Num
  pub confidence : Num
  pub valid_from : Option ℕ
  pub valid_to : Option ℕ
  pub evidence_refs : Option (List EvidenceRef)
  pub created_at : ℕ

pub record CreateCardRequest (Num : Type 0) : Type 0 where
  pub card_id : String
  pub card_type : String
  pub scope : String
  pub status : String
  pub supersedes : String
  pub valid_from : Option ℕ
  pub valid_to : Option ℕ
  pub activation : Option (ActivationState Num)
  pub content : Option Content
  pub evidence_refs : Option (List EvidenceRef)
  pub provenance : Provenance Num

pub record UpdateCardRequest (Num : Type 0) : Type 0 where
  pub content : Option Content
  pub scope : String
  pub valid_from : Option ℕ
  pub valid_to : Option ℕ
  pub status : String
  pub supersedes : String
  pub evidence_refs : Option (List EvidenceRef)
  pub provenance : Provenance Num

pub record CreateEdgeRequest (Num : Type 0) : Type 0 where
  pub edge_id : String
  pub from_card_id : String
  pub to_card_id : String
  pub edge_type : String
  pub weight : Num
  pub confidence : Num
  pub valid_from : Option ℕ
  pub valid_to : Option ℕ
  pub evidence_refs : Option (List EvidenceRef)

pub record QueryRequest : Type 0 where
  pub card_id : String
  pub card_type : String
  pub scope : String
  pub status : String
  pub as_of : Option ℕ

pub data Error : Type 0 where
  not_found already_exists invalid_argument io_error : Error

pub data EventType : Type 0 where
  card_created card_updated card_touched decay_applied : EventType

-- A line of the journal, with the snapshot that it carries; an edge's event is always its creation.
pub data JournalEvent (Num : Type 0) : Type 0 where
  card_event :
      EventType
      → (ts : ℕ) (entity_id entity_type : String) (version : ℕ) → List (Card Num)
      → JournalEvent Num
  edge_event : (ts : ℕ) → Edge Num → JournalEvent Num

-- What the maps of the store hold.
pub record Graph (Num : Type 0) : Type 0 where
  pub cards : List (String × List (Card Num))
  pub edges : List (String × Edge Num)
  pub edges_by_card : List (String × List String)

-- The snapshot files go by the bytes of their names. `persistent` is whether a directory was given.
-- `faults` says of the writes to come which ones the operating system refuses.
pub record Store (Num : Type 0) : Type 0 where
  pub graph : Graph Num
  pub persistent : Bool
  pub card_files : List (List ℕ × List (Card Num))
  pub edge_files : List (List ℕ × Edge Num)
  pub journal : List (JournalEvent Num)
  pub faults : List Bool

abbrev pub Method : Type 0 → Type 0 → Type 0
Method Num = Exec (Store Num) Error

abbrev pub attempt : {Num : Type 0} → Method Num (Unit {0})
attempt s = elim s.faults [
  | [] ↦ pure tt s
  | refused ∷ rest ↦ elim refused [
    | true ↦ raise io_error (record s { faults = rest })
    | false ↦ pure tt (record s { faults = rest })
  ]
]
