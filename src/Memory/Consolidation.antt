-- ===== src/Memory/Consolidation.antt =====
-- internal/memory/consolidator.go: the oldest candidates become active.
pub mod Statuses
pub mod Passes
pub mod Updates
pub mod Promotion
pub mod Sound
mod Tests
use mnemosyne_os.Base.{
  ℕ, ◌+◌, String, Bool, ◌&&◌, Option, none, some, List, [], ◌∷◌, ◌++◌, if◌then◌else◌, decided, leb,
  ltb, ℕ_discrete, length, take, drop,
}
use mnemosyne_os.Base.Disk.{text_lt}
use mnemosyne_os.Base.Exec.{Exec, pure, ◌>>=◌, ◌>>◌}
use mnemosyne_os.Base.Float.{Float64}
use mnemosyne_os.Base.Result.{Result, ok, err}
use mnemosyne_os.Base.Sort.{sort_by}
use mnemosyne_os.Base.Text.{is_blank, trim_space}
use mnemosyne_os.Memory.{Card, Store, Error, QueryRequest, UpdateCardRequest}
use mnemosyne_os.Memory.Cards.{update_card}
use mnemosyne_os.Memory.Query.{query}

-- A limit of 0 stands for every number that is not positive.
pub record ConsolidateRequest : Type 0 where
  pub card_type : String
  pub scope : String
  pub limit : ℕ
  pub archive_remaining : Bool

pub record ConsolidateResult : Type 0 where
  pub examined : ℕ
  pub promoted : ℕ
  pub superseded_count : ℕ
  pub archived_count : ℕ
  pub promoted_cards : List String
  pub superseded_cards : List String
  pub archived_cards : List String

-- The result so far stays beside an error.
abbrev pub Pass : Type 0 → Type 0
Pass Num = Exec (ConsolidateResult × Store Num) Error (Unit {0})

abbrev pub note_promoted : String → ConsolidateResult → ConsolidateResult
note_promoted id t = record t {
  promoted = t.promoted + 1;
  promoted_cards = t.promoted_cards ++ id ∷ [];
}

abbrev pub note_superseded : String → ConsolidateResult → ConsolidateResult
note_superseded id t = record t {
  superseded_count = t.superseded_count + 1;
  superseded_cards = t.superseded_cards ++ id ∷ [];
}

abbrev pub note_archived : String → ConsolidateResult → ConsolidateResult
note_archived id t = record t {
  archived_count = t.archived_count + 1;
  archived_cards = t.archived_cards ++ id ∷ [];
}

abbrev pub nothing_done : ℕ → ConsolidateResult
nothing_done n = record {
  examined = n;
  promoted = 0;
  superseded_count = 0;
  archived_count = 0;
  promoted_cards = [];
  superseded_cards = [];
  archived_cards = [];
}

abbrev pub limit_of : ℕ → ℕ → ℕ
limit_of limit n = if leb 1 limit && leb limit n then limit else n

abbrev pub candidates_of : ConsolidateRequest → QueryRequest
candidates_of req = record {
  card_id = "";
  card_type = trim_space req.card_type;
  scope = trim_space req.scope;
  status = "candidate";
  as_of = none;
}

module _ {Num : Type 0} where
  abbrev pub older : Card Num → Card Num → Bool
  older a b =
      if decided (ℕ_discrete a.created_at b.created_at)
      then text_lt a.card_id b.card_id
      else ltb a.created_at b.created_at

  -- The period of validity is not passed on.
  abbrev pub promotion : Card Num → UpdateCardRequest Num
  promotion c = record {
    content = c.content;
    scope = c.scope;
    valid_from = none;
    valid_to = none;
    status = "active";
    supersedes = "";
    evidence_refs = c.evidence_refs;
    provenance = c.provenance;
  }

module _ {Num : Type 0} (F : Float64 Num) where
  abbrev pub only_status : String → UpdateCardRequest Num
  only_status status = record {
    content = none;
    scope = "";
    valid_from = none;
    valid_to = none;
    status = status;
    supersedes = "";
    evidence_refs = none;
    provenance = record { agent_id = ""; source = ""; confidence = F.zero };
  }

  abbrev pub update_or_fail :
      ℕ → String → UpdateCardRequest Num → (ConsolidateResult → ConsolidateResult) → Pass Num
  update_or_fail now id req note (t, s) =
      let r = update_card F now id req s in
      elim r.0 [ ok _ ↦ (ok tt, (note t, r.1)) | err e ↦ (err e, (t, r.1)) ]

  abbrev pub update_or_skip :
      ℕ → String → UpdateCardRequest Num → (ConsolidateResult → ConsolidateResult) → Pass Num
  update_or_skip now id req note (t, s) =
      let r = update_card F now id req s in
      elim r.0 [ ok _ ↦ (ok tt, (note t, r.1)) | err e ↦ (ok tt, (t, r.1)) ]

  pub supersede : ℕ → String → Pass Num
  supersede now target =
      if is_blank target
      then pure tt
      else update_or_skip now (trim_space target) (only_status "superseded")
          (note_superseded (trim_space target))

  pub promote_each : ℕ → List (Card Num) → Pass Num
  unfolding supersede
  promote_each now [] = pure tt
  promote_each now (c ∷ cs) = do
    update_or_fail now c.card_id (promotion c) (note_promoted c.card_id)
    supersede now c.supersedes
    promote_each now cs

  pub archive_each : ℕ → List (Card Num) → Pass Num
  archive_each now [] = pure tt
  archive_each now (c ∷ cs) = do
    update_or_fail now c.card_id (only_status "archived") (note_archived c.card_id)
    archive_each now cs

  -- `order` is the order in which the map of the cards is walked.
  abbrev pub candidates : List String → ConsolidateRequest → Store Num → List (Card Num)
  candidates order req s = sort_by older (query F order (candidates_of req) s.graph).cards

  unfoldable pub promote_candidates :
      ℕ
      → List String
      → ConsolidateRequest
      → Store Num
      → Result Error (Unit {0}) × ConsolidateResult × Store Num
  unfolding promote_each archive_each
  promote_candidates now order req s =
      let cards = candidates order req s in
      let n = limit_of req.limit (length cards) in
      let r =
        (do
          promote_each now (take n cards)
          if req.archive_remaining then archive_each now (drop n cards) else pure tt)
          (nothing_done (length cards), s) in
      (r.0, r.1.0, r.1.1)
