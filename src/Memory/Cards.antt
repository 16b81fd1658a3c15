-- ===== src/Memory/Cards.antt =====
-- internal/memory/store.go: the methods that write cards and edges.
pub mod Laws
pub mod Snapshots
mod Writes
unfoldable pub use Writes.*
use Prim.Native.String.{◌++◌ as text_append}
use mnemosyne_os.Base.{
  ℕ, ◌+◌, String, Bool, true, false, ◌||◌, ◌&&◌, not, Option, none, some, List, [], ◌∷◌, ◌++◌,
  if◌then◌else◌, decided, str_dec, get_last?,
}
use mnemosyne_os.Base.Assoc
use mnemosyne_os.Base.Float.{Float64}
use mnemosyne_os.Base.Number.{decimal}
use mnemosyne_os.Base.Text.{is_blank}
use mnemosyne_os.Base.Exec.{pure, raise, ◌>>=◌, ◌>>◌}
use mnemosyne_os.Memory.Files.{file_name, legacy_name, name_dec}
use mnemosyne_os.Memory.{
  CardStatus, active, normalize_card_status, Card, Edge, ActivationState, Provenance,
  CreateCardRequest, UpdateCardRequest, CreateEdgeRequest, Error, not_found, already_exists,
  invalid_argument, io_error, EventType, card_created, card_updated, card_touched, JournalEvent,
  card_event, edge_event, Graph, Store, Method, attempt,
}

abbrev is_empty : String → Bool
is_empty s = decided (str_dec s "")

module _ {Num : Type 0} where
  unfoldable pub has_card : String → Graph Num → Bool
  has_card id g = elim (Assoc.get str_dec id g.cards) [ none ↦ false | some _ ↦ true ]

  unfoldable pub has_edge : String → Graph Num → Bool
  has_edge id g = elim (Assoc.get str_dec id g.edges) [ none ↦ false | some _ ↦ true ]

  unfoldable pub new_edge : ℕ → CreateEdgeRequest Num → Edge Num
  new_edge now req = record {
    edge_id = req.edge_id;
    from_card_id = req.from_card_id;
    to_card_id = req.to_card_id;
    edge_type = req.edge_type;
    weight = req.weight;
    confidence = req.confidence;
    valid_from = req.valid_from;
    valid_to = req.valid_to;
    evidence_refs = req.evidence_refs;
    created_at = now;
  }

  unfoldable pub create_edge : ℕ → CreateEdgeRequest Num → Method Num (Edge Num)
  unfolding has_card has_edge new_edge
  create_edge now req s =
      if is_empty req.edge_id
        || is_empty req.from_card_id
        || is_empty req.to_card_id
        || is_empty req.edge_type
      then raise invalid_argument s
      else if has_edge req.edge_id s.graph
      then raise already_exists s
      else if not (has_card req.from_card_id s.graph)
      then raise invalid_argument s
      else if not (has_card req.to_card_id s.graph)
      then raise invalid_argument s
      else record_edge now (new_edge now req) s

  abbrev pub or_latest :
      Option (Card Num) → (Card Num → Method Num (Card Num)) → Method Num (Card Num)
  or_latest none f = raise not_found
  or_latest (some c) f = f c

  -- The latest version is followed by a new one.
  unfoldable pub revise : EventType → ℕ → String → (Card Num → Card Num) → Method Num (Card Num)
  revise kind now id change s =
      let vs = versions_of id s.graph in
      or_latest (get_last? vs)
        (λ latest. record_versions kind now id (change latest) (vs ++ change latest ∷ [])) s

abbrev override : {A : Type 0} → Option A → Option A → Option A
override none old = old
override (some new) old = some new

abbrev override_text : String → String → String
override_text new old = if is_empty new then old else new

abbrev pub override_status : String → CardStatus → CardStatus
override_status new old =
    if is_empty new
    then old
    else elim (normalize_card_status new) [ none ↦ old | some status ↦ status ]

abbrev pub is_unsupported : String → Bool
is_unsupported status =
    not (is_empty status) && elim (normalize_card_status status) [ none ↦ true | some _ ↦ false ]

module _ {Num : Type 0} (F : Float64 Num) where
  abbrev pub clamp_unit : Num → Num
  clamp_unit v = F.max F.zero (F.min F.one v)

  abbrev initial_activation : Option (ActivationState Num) → ActivationState Num
  initial_activation none = record {
    score = F.one;
    last_access_at = none;
    last_evaluated_at = none;
    decay_policy = "";
  }
  initial_activation (some a) = record a { score = clamp_unit a.score }

  unfoldable pub new_card : ℕ → CardStatus → CreateCardRequest Num → Card Num
  new_card now status req = record {
    card_id = req.card_id;
    card_type = req.card_type;
    scope = req.scope;
    created_at = now;
    valid_from = req.valid_from;
    valid_to = req.valid_to;
    version = 1;
    prev_version = "";
    status = status;
    supersedes = req.supersedes;
    content = req.content;
    evidence_refs = req.evidence_refs;
    provenance = req.provenance;
    activation = initial_activation req.activation;
  }

  unfoldable pub create_with : ℕ → CreateCardRequest Num → Option CardStatus → Method Num (Card Num)
  unfolding has_card new_card
  create_with now req none = raise invalid_argument
  create_with now req (some status) = λ s.
      if has_card req.card_id s.graph
      then raise already_exists s
      else let c = new_card now status req in
        record_versions card_created now req.card_id c (c ∷ []) s

  unfoldable pub create_card : ℕ → CreateCardRequest Num → Method Num (Card Num)
  unfolding create_with
  create_card now req =
      if is_empty req.card_id || is_empty req.card_type
      then raise invalid_argument
      else create_with now req (normalize_card_status req.status)

  abbrev gives_provenance : Provenance Num → Bool
  gives_provenance p =
      not (is_empty p.agent_id) || not (is_empty p.source) || not (F.eq p.confidence F.zero)

  unfoldable pub updated_card : ℕ → UpdateCardRequest Num → Card Num → Card Num
  updated_card now req latest = record {
    card_id = latest.card_id;
    card_type = latest.card_type;
    scope = override_text req.scope latest.scope;
    created_at = latest.created_at;
    valid_from = req.valid_from;
    valid_to = req.valid_to;
    version = latest.version + 1;
    prev_version = version_link latest.card_id latest.version;
    status = override_status req.status latest.status;
    supersedes = override_text req.supersedes latest.supersedes;
    content = override req.content latest.content;
    evidence_refs = override req.evidence_refs latest.evidence_refs;
    provenance = if gives_provenance req.provenance then req.provenance else latest.provenance;
    activation = record latest.activation { last_access_at = some now };
  }

  unfoldable pub update_card : ℕ → String → UpdateCardRequest Num → Method Num (Card Num)
  unfolding updated_card revise
  update_card now id req =
      if is_empty id
      then raise invalid_argument
      else if is_unsupported req.status
      then raise invalid_argument
      else revise card_updated now id (updated_card now req)

  unfoldable pub touched_card : ℕ → Num → Num → Card Num → Card Num
  touched_card now activation_delta confidence_delta latest = record latest {
    version = latest.version + 1;
    prev_version = version_link latest.card_id latest.version;
    activation = record latest.activation {
      last_access_at = some now;
      score = clamp_unit (F.add latest.activation.score activation_delta);
    };
    provenance = record latest.provenance {
      confidence = clamp_unit (F.add latest.provenance.confidence confidence_delta);
    };
  }

  unfoldable pub touch_card : ℕ → String → Num → Num → Method Num (Card Num)
  unfolding touched_card revise
  touch_card now id activation_delta confidence_delta =
      if is_blank id
      then raise invalid_argument
      else revise card_touched now id (touched_card now activation_delta confidence_delta)
