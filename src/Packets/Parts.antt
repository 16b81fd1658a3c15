-- ===== src/Packets/Parts.antt =====
-- internal/memoryorchestrator/orchestrator.go: the parts of a packet and how they are gathered.
use Prim.Native.String.{◌++◌ as text_append}
use mnemosyne_os.Base.{
  ℕ, zero, suc, String, Bool, true, false, ◌||◌, ◌&&◌, Option, none, some, List, [], ◌∷◌, ◌++◌,
  if◌then◌else◌, decided, str_dec, take,
}
use mnemosyne_os.Base.Result.{Result, ok, err}
use mnemosyne_os.Base.Text.{trim_space, is_blank}
use mnemosyne_os.Memory.{Graph}
use mnemosyne_os.Runtime
use mnemosyne_os.Runtime.{TaskState, Task}
use mnemosyne_os.Runtime.Tasks.{get_task}

pub record SessionView : Type 0 where
  pub topic : String
  pub focus_task_id : String
  pub pending_question : String
  pub pending_action : String
  pub last_assistant_act : String
  pub working_recall_ids : List String
  pub working_sources : List String
  pub focus_paths : List String

pub record TaskRef : Type 0 where
  pub task_id : String
  pub title : String
  pub state : TaskState
  pub selected_skill : String

pub record RecallRef : Type 0 where
  pub source : String
  pub card_id : String
  pub card_type : String
  pub snippet : List ℕ

pub record Packet : Type 0 where
  pub recent_tasks : List TaskRef
  pub working_notes : List String
  pub semantic_hits : List RecallRef
  pub procedure_hits : List RecallRef
  pub recall_hits : List RecallRef

abbrev pub is_nil {ℓ} : {A : Type ℓ} → List A → Bool
is_nil [] = true
is_nil (_ ∷ _) = false

unfoldable pub is_empty : Packet → Bool
is_empty p =
    is_nil p.recent_tasks
    && is_nil p.working_notes
    && is_nil p.semantic_hits
    && is_nil p.procedure_hits
    && is_nil p.recall_hits

-- 0 stands for every number that is not positive.
pub record Quota : Type 0 where
  pub max_recent_tasks : ℕ
  pub max_working_notes : ℕ
  pub max_procedure_hits : ℕ
  pub max_semantic_hits : ℕ
  pub max_working_recall_hits : ℕ
  pub max_fallback_recall_hits : ℕ

abbrev pub or_default : ℕ → ℕ → ℕ
or_default zero d = d
or_default (suc n) d = suc n

unfoldable pub normalize_quota : Quota → Quota
normalize_quota q = record {
  max_recent_tasks = or_default q.max_recent_tasks 3;
  max_working_notes = or_default q.max_working_notes 4;
  max_procedure_hits = or_default q.max_procedure_hits 1;
  max_semantic_hits = or_default q.max_semantic_hits 3;
  max_working_recall_hits = or_default q.max_working_recall_hits 2;
  max_fallback_recall_hits = or_default q.max_fallback_recall_hits 4;
}

-- What the orchestrator reads: the cards, in the order in which their map is walked, and the tasks.
pub record World (Num : Type 0) : Type 0 where
  pub order : List String
  pub graph : Graph Num
  pub tasks : Runtime.Store

module _ {ℓ} {A : Type ℓ} where
  -- `clipStrings` and `clipTasks`
  unfoldable pub clip : ℕ → List A → List A
  clip zero xs = xs
  clip (suc n) xs = take (suc n) xs

abbrev pub note : String → String → List String
note label s = if is_blank s then [] else text_append label (trim_space s) ∷ []

unfoldable pub path_notes : List String → List String
path_notes [] = []
path_notes (p ∷ ps) = note "focus path: " p ++ path_notes ps

unfoldable pub working_notes : SessionView → List String
unfolding path_notes
working_notes v =
    note "topic: " v.topic
    ++ (note "pending question: " v.pending_question
        ++ (note "pending action: " v.pending_action
            ++ (note "last assistant act: " v.last_assistant_act ++ path_notes v.focus_paths)))

unfoldable pub contains_string : List String → String → Bool
contains_string [] s = false
contains_string (x ∷ xs) s = decided (str_dec (trim_space x) (trim_space s)) || contains_string xs s

abbrev pub add_part : String → List String → List String
add_part s parts =
    if is_blank s || contains_string parts (trim_space s) then parts else parts ++ trim_space s ∷ []

unfoldable pub joined : List String → String
joined [] = ""
joined (x ∷ []) = x
joined (x ∷ y ∷ xs) = text_append x (text_append "\n" (joined (y ∷ xs)))

unfoldable pub cue_query : String → SessionView → String
unfolding contains_string joined
cue_query query v = joined (
    add_part v.pending_question
      (add_part v.topic (if is_blank query then [] else trim_space query ∷ [])))

abbrev pub task_ref : Result Runtime.Error Task → Option TaskRef
task_ref (err e) = none
task_ref (ok t) = some (record {
  task_id = t.task_id;
  title = t.title;
  state = t.state;
  selected_skill = t.selected_skill;
})

unfoldable pub focus_task : String → Runtime.Store → Option TaskRef
focus_task id s = if is_blank id then none else task_ref (get_task id s).0

unfoldable pub contains_task_ref : List TaskRef → String → Bool
contains_task_ref [] id = false
contains_task_ref (t ∷ ts) id = decided (str_dec t.task_id id) || contains_task_ref ts id

abbrev pub or_blank : List String → String
or_blank [] = ""
or_blank (s ∷ _) = s

abbrev pub rest_of : List String → List String
rest_of [] = []
rest_of (_ ∷ ss) = ss

-- The identifiers that the session works with, each with the source at its place.
unfoldable pub working_set_hits : List String → List String → ℕ → List RecallRef
working_set_hits ids sources zero = []
working_set_hits [] sources (suc n) = []
working_set_hits (id ∷ ids) sources (suc n) =
    record { source = or_blank sources; card_id = id; card_type = ""; snippet = [] }
    ∷ working_set_hits ids (rest_of sources) n

abbrev pub has_name : String → List String → Bool
has_name s [] = false
has_name s (x ∷ xs) = decided (str_dec x s) || has_name s xs

unfoldable pub aggregate_from : List String → List RecallRef → List RecallRef
aggregate_from seen [] = []
aggregate_from seen (r ∷ rs) =
    let key = trim_space r.card_id in
    let fresh = aggregate_from (key ∷ seen) rs in
    let same = aggregate_from seen rs in
    if decided (str_dec key "") then same else if has_name key seen then same else r ∷ fresh

abbrev pub all_of : List (List RecallRef) → List RecallRef
all_of [] = []
all_of (g ∷ gs) = g ++ all_of gs

unfoldable pub aggregate_recall_refs : List (List RecallRef) → List RecallRef
unfolding aggregate_from
aggregate_recall_refs groups = aggregate_from [] (all_of groups)

unfoldable pub dedupe_from : List String → List String → List String
dedupe_from seen [] = []
dedupe_from seen (v ∷ vs) =
    let key = trim_space v in
    let fresh = dedupe_from (key ∷ seen) vs in
    let same = dedupe_from seen vs in
    if decided (str_dec key "") then same else if has_name key seen then same else key ∷ fresh

unfoldable pub dedupe_strings : List String → List String
unfolding dedupe_from
dedupe_strings vs = dedupe_from [] vs

-- Every skill asks for procedures.
unfoldable pub semantic_sources : String → List String
semantic_sources skill =
    let s = trim_space skill in
    if decided (str_dec s "web-search")
    then "web" ∷ []
    else if decided (str_dec s "email-inbox")
    then "email" ∷ []
    else if decided (str_dec s "github-issue-search")
    then "github" ∷ []
    else "web" ∷ "email" ∷ "github" ∷ []
