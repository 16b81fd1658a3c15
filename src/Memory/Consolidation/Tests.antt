-- ===== src/Memory/Consolidation/Tests.antt =====
-- The theorem on promotion at a concrete store.
use mnemosyne_os.Base.{
  ℕ, String, decided, false, ◌≢◌, arith, refl, true, none, List, [], ◌∷◌, str_dec, take, drop, ◌≡◌,
  ℕ_discrete,
}
use mnemosyne_os.Base.Assoc.{get, put}
use mnemosyne_os.Base.Float.{whole}
use mnemosyne_os.Memory.{
  CardStatus, active, candidate, Card, Store, JournalEvent, card_event, card_created,
}
use mnemosyne_os.Memory.Query.{ids_of, query, resolve_as_of}
use mnemosyne_os.Memory.Journal.{replay}
use mnemosyne_os.Memory.Journal.Recovery.{IsSound}
use mnemosyne_os.Memory.Consolidation.{
  ConsolidateRequest, candidates, nothing_done, promote_candidates,
}
use mnemosyne_os.Memory.Consolidation.Statuses.{promoted_statuses, archived_statuses}
use mnemosyne_os.Memory.Consolidation.Passes.{Did}
use mnemosyne_os.Memory.Consolidation.Promotion.{promote_candidates-Did}
use mnemosyne_os.Base.Sort.{sort_by}
use mnemosyne_os.Base.Text.{trim_space}

abbrev fact : String → ℕ → CardStatus → String → Card ℕ
fact id at status supersedes = record {
  card_id = id;
  card_type = "fact";
  scope = "project";
  created_at = at;
  valid_from = none;
  valid_to = none;
  version = 1;
  prev_version = "";
  status = status;
  supersedes = supersedes;
  content = none;
  evidence_refs = none;
  provenance = record { agent_id = ""; source = ""; confidence = 1 };
  activation = record {
    score = 1;
    last_access_at = none;
    last_evaluated_at = none;
    decay_policy = "";
  };
}

abbrev created : Card ℕ → JournalEvent ℕ
created c = card_event card_created c.created_at c.card_id c.card_type 1 (c ∷ [])

-- An active card, a candidate that supersedes it, and a younger candidate.
abbrev filled : Store ℕ
filled = record {
  graph = record {
    cards =
        ("old", fact "old" 1 active "" ∷ [])
        ∷ ("new", fact "new" 2 candidate "old" ∷ [])
        ∷ ("late", fact "late" 3 candidate "" ∷ [])
        ∷ [];
    edges = [];
    edges_by_card = [];
  };
  persistent = true;
  card_files = [];
  edge_files = [];
  journal =
      created (fact "old" 1 active "")
      ∷ created (fact "new" 2 candidate "old")
      ∷ created (fact "late" 3 candidate "")
      ∷ [];
  faults = [];
}

apart : (a b : String) → decided (str_dec a b) ≡ false → a ≢ b
apart a b h e = ground (arith, h, e)

filled-IsSound : IsSound filled
unfolding replay str_dec put
filled-IsSound = record {
  calm = record { has_directory = refl; unrefused = refl };
  chained = (
    ((refl, refl, refl, tt), λ e. cc),
    (((refl, refl, refl, tt), λ e. cc), (((refl, refl, refl, tt), λ e. cc), tt)),
  );
  keyed = (
    (apart "old" "new" refl, (apart "old" "late" refl, tt)),
    ((apart "new" "late" refl, tt), (tt, tt)),
  );
  edges_keyed = tt;
  mirrored = refl;
}

abbrev asked : ConsolidateRequest
asked = record { card_type = "fact"; scope = "project"; limit = 1; archive_remaining = true }

abbrev order : List String
order = "late" ∷ "old" ∷ "new" ∷ []

candidates_found : ids_of (candidates whole order asked filled) ≡ "new" ∷ "late" ∷ []
unfolding sort_by query str_dec resolve_as_of get trim_space ℕ_discrete
candidates_found = refl

promote_candidates-Did_example :
    Did
      ("new" ∷ [])
      ("late" ∷ [])
      (λ v.
        archived_statuses
          (drop 1 (candidates whole order asked filled))
          (promoted_statuses (take 1 (candidates whole order asked filled)) v))
      (nothing_done 2, filled)
      (
        (promote_candidates whole 4 order asked filled).0,
        (
          (promote_candidates whole 4 order asked filled).1,
          (promote_candidates whole 4 order asked filled).2,
        ),
      )
unfolding sort_by query str_dec resolve_as_of get trim_space ℕ_discrete
promote_candidates-Did_example =
    promote_candidates-Did whole 4 order asked filled filled-IsSound refl
