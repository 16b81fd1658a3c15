-- ===== src/Packets/Tests.antt =====
-- The theorems on packets at a concrete store.
use mnemosyne_os.Base.{◌≡◌, refl, ◌≤◌, none, some, List, [], ◌∷◌, ℕ, str_dec, ℕ_discrete}
use mnemosyne_os.Base.Float.{whole}
use mnemosyne_os.Base.Text.{codes, trim_space, contains, has_prefix, is_space, to_lower}
use mnemosyne_os.Memory.{active, Card, text, is_recall_eligible_status, normalize_card_status}
use mnemosyne_os.Recall.{
  Setting, source_for_card_type, codes_dec, base_weight, preview_card, score_card,
  split_query_tokens,
}
use mnemosyne_os.Runtime.{planned}
use mnemosyne_os.Packets.{
  SessionView, TaskRef, RecallRef, Packet, Quota, World, build_task_packet, normalize_quota,
  aggregate_recall_refs, all_of, recall_hits, cue_query, clip, dedupe_strings, fallback, focus_task,
  is_empty, refs_of, semantic_sources, task_packet, working_notes, working_set_hits,
}
use mnemosyne_os.Packets.Bounds.{IsWithin, normalize_quota-IsNormal, build_task_packet-IsWithin}
use mnemosyne_os.Packets.Aggregation.{count_to, first_to, aggregate_recall_refs_lem}
use mnemosyne_os.Recall.Hits.{recall, latest_cards, is_wanted, normalize_sources}
use mnemosyne_os.Base.Sort.{sort_by}
use mnemosyne_os.Memory.Query.{resolve_as_of}
use mnemosyne_os.Base.Assoc.{get}
use mnemosyne_os.Recall.Snippets.{
  bytes_of, match_at, on_one_line, snippet_around_match, trim, trim_bytes,
}

abbrev setting : Setting
setting = record { fold = λ c. c; print = λ v. [] }

abbrev page : Card ℕ
page = record {
  card_id = "c1";
  card_type = "web_result";
  scope = "project";
  created_at = 1;
  valid_from = none;
  valid_to = none;
  version = 1;
  prev_version = "";
  status = active;
  supersedes = "";
  content = some (("title", text "Go maps") ∷ []);
  evidence_refs = none;
  provenance = record { agent_id = ""; source = ""; confidence = 1 };
  activation = record {
    score = 1;
    last_access_at = none;
    last_evaluated_at = none;
    decay_policy = "";
  };
}

abbrev world : World ℕ
world = record {
  order = "c1" ∷ [];
  graph = record { cards = ("c1", page ∷ []) ∷ []; edges = []; edges_by_card = [] };
  tasks = record { tasks = []; runtime = none; faults = [] };
}

-- A quota that is left out, with its defaults.
abbrev quota : Quota
quota = normalize_quota (record {
  max_recent_tasks = 0;
  max_working_notes = 0;
  max_procedure_hits = 0;
  max_semantic_hits = 2;
  max_working_recall_hits = 0;
  max_fallback_recall_hits = 0;
})

abbrev session : SessionView
session = record {
  topic = "Go";
  focus_task_id = "";
  pending_question = "";
  pending_action = "";
  last_assistant_act = "";
  working_recall_ids = " c1 " ∷ "c2" ∷ [];
  working_sources = "web" ∷ [];
  focus_paths = [];
}

abbrev recent : TaskRef
recent = record { task_id = "t1"; title = "Read"; state = planned; selected_skill = "" }

abbrev found : RecallRef
found = record {
  source = "web";
  card_id = "c1";
  card_type = "web_result";
  snippet = codes "Go maps";
}

abbrev packet : Packet
packet = record {
  recent_tasks = recent ∷ [];
  working_notes = "topic: Go" ∷ [];
  semantic_hits = found ∷ [];
  procedure_hits = [];
  recall_hits = found ∷ record { source = ""; card_id = "c2"; card_type = ""; snippet = [] } ∷ [];
}

build_task_packet-some :
    build_task_packet whole setting world quota "go" "web-search" session (recent ∷ [])
    ≡ some (some packet)
unfolding build_task_packet normalize_quota recall_hits str_dec trim_space cue_query recall
    latest_cards sort_by resolve_as_of get is_recall_eligible_status normalize_card_status
    source_for_card_type is_wanted normalize_sources codes_dec ℕ_discrete contains has_prefix
    is_space to_lower aggregate_recall_refs clip dedupe_strings fallback focus_task is_empty refs_of
    semantic_sources task_packet working_notes working_set_hits bytes_of match_at on_one_line
    snippet_around_match trim trim_bytes base_weight preview_card score_card split_query_tokens
build_task_packet-some = refl

build_task_packet-IsWithin_example : IsWithin quota packet
build_task_packet-IsWithin_example =
    build_task_packet-IsWithin whole setting world quota "go" "web-search" session (recent ∷ [])
      {p = packet} (normalize_quota-IsNormal _) build_task_packet-some

abbrev groups : List (List RecallRef)
groups = (found ∷ []) ∷ (record found { card_id = " c1 " } ∷ []) ∷ []

aggregate_recall_refs_lem_example :
    (count_to "c1" (aggregate_recall_refs groups) ≤ 1)
    × (count_to "" (aggregate_recall_refs groups) ≡ 0)
    × (first_to "c1" (aggregate_recall_refs groups) ≡ first_to "c1" (all_of groups))
aggregate_recall_refs_lem_example = aggregate_recall_refs_lem "c1" groups (λ e. cc)
