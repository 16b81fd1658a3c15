-- ===== src/Packets.antt =====
-- internal/memoryorchestrator/orchestrator.go: what an answer or a task is given of the memory.
pub mod Feedback
pub mod Bounds
pub mod Aggregation
mod Tests
mod Parts
unfoldable pub use Parts.*
use Prim.Native.String.{◌++◌ as text_append}
use mnemosyne_os.Base.{
  ℕ, zero, suc, ◌-◌, String, Bool, true, false, ◌||◌, ◌&&◌, not, Option, none, some, List, [], ◌∷◌,
  ◌++◌, if◌then◌else◌, decided, str_dec, ltb, take,
}
use mnemosyne_os.Base.Float.{Float64}
use mnemosyne_os.Base.Result.{Result, ok, err}
use mnemosyne_os.Base.Text.{trim_space, is_blank}
use mnemosyne_os.Memory.{Graph}
use mnemosyne_os.Recall.{Setting, Hit}
use mnemosyne_os.Recall.Hits.{recall}
use mnemosyne_os.Runtime
use mnemosyne_os.Runtime.{TaskState, Task}
use mnemosyne_os.Runtime.Tasks.{get_task}

module _ {Num : Type 0} where
  refs_of : List (Hit Num) → List RecallRef
  refs_of [] = []
  refs_of (h ∷ hs) =
      record {
        source = h.source;
        card_id = h.card_id;
        card_type = h.card_type;
        snippet = h.snippet;
      }
      ∷ refs_of hs

  abbrev as_refs : Option (List (Hit Num)) → Option (List RecallRef)
  as_refs none = none
  as_refs (some hs) = some (refs_of hs)

infixl 5 ◌>>=◌
abbrev ◌>>=◌ : {A B : Type 0} → Option A → (A → Option B) → Option B
none >>= f = none
some a >>= f = f a

abbrev unless_empty : Packet → Option Packet
unless_empty p = if is_empty p then none else some p

abbrev with_focus : ℕ → Option TaskRef → List TaskRef → List TaskRef
with_focus max none recent = recent
with_focus max (some t) recent =
    if ltb 0 max && not (contains_task_ref recent t.task_id) then clip max (t ∷ recent) else recent

abbrev focus_only : ℕ → Option TaskRef → List TaskRef
focus_only max none = []
focus_only max (some t) = if ltb 0 max then t ∷ [] else []

abbrev least : ℕ → ℕ → ℕ
least a b = if ltb a b then a else b

module _ {Num : Type 0} (F : Float64 Num) (st : Setting) (w : World Num) (quota : Quota) where
  -- `none` is a panic of the recall.
  unfoldable pub recall_hits : String → List String → ℕ → Option (List RecallRef)
  unfolding refs_of
  recall_hits query sources zero = some []
  recall_hits query sources (suc n) =
      if is_blank query
      then some []
      else as_refs
          (recall F st w.order (record { query = query; sources = sources; limit = suc n }) w.graph)

  abbrev working_hits : SessionView → List RecallRef
  working_hits v =
      working_set_hits v.working_recall_ids v.working_sources quota.max_working_recall_hits

  fast_packet : SessionView → List RecallRef → List RecallRef → Packet
  fast_packet v procedures semantics = record {
    working_notes = clip quota.max_working_notes (working_notes v);
    recent_tasks = focus_only quota.max_recent_tasks (focus_task v.focus_task_id w.tasks);
    procedure_hits = procedures;
    semantic_hits = semantics;
    recall_hits =
        if is_nil semantics && is_nil procedures
        then working_hits v
        else aggregate_recall_refs (procedures ∷ semantics ∷ working_hits v ∷ []);
  }

  -- The packet, or `none` inside where it would be empty.
  unfoldable pub build_fast_packet : SessionView → Option (Option Packet)
  unfolding fast_packet
  build_fast_packet v = do
    procedures ← recall_hits (cue_query "" v) ("procedure" ∷ []) quota.max_procedure_hits
    semantics ←
        recall_hits (cue_query "" v) ("web" ∷ "email" ∷ "github" ∷ [])
          (least quota.max_semantic_hits 2)
    some (unless_empty (fast_packet v procedures semantics))

  task_packet :
      SessionView → List TaskRef → List RecallRef → List RecallRef → List RecallRef → Packet
  task_packet v recent procedures semantics hits = record {
    working_notes = clip quota.max_working_notes (dedupe_strings (working_notes v));
    recent_tasks =
        with_focus quota.max_recent_tasks (focus_task v.focus_task_id w.tasks)
          (clip quota.max_recent_tasks recent);
    procedure_hits = procedures;
    semantic_hits = semantics;
    recall_hits = hits;
  }

  fallback : String → List RecallRef → Option (List RecallRef)
  fallback cue [] = recall_hits cue [] quota.max_fallback_recall_hits
  fallback cue (r ∷ rs) = some (r ∷ rs)

  unfoldable pub build_task_packet :
      String → String → SessionView → List TaskRef → Option (Option Packet)
  unfolding task_packet fallback
  build_task_packet query skill v recent = do
    procedures ← recall_hits (cue_query query v) ("procedure" ∷ []) quota.max_procedure_hits
    semantics ← recall_hits (cue_query query v) (semantic_sources skill) quota.max_semantic_hits
    hits ←
        fallback (cue_query query v)
          (aggregate_recall_refs (procedures ∷ semantics ∷ working_hits v ∷ []))
    some (unless_empty (task_packet v recent procedures semantics hits))
