-- ===== src/Packets/Feedback.antt =====
-- internal/memoryorchestrator/orchestrator.go: what the use of a packet adds to its cards.
use mnemosyne_os.Base.{
  ℕ, String, Bool, ◌||◌, List, [], ◌∷◌, ◌++◌, map, if◌then◌else◌, decided, str_dec,
}
use mnemosyne_os.Base.Float.{Float64}
use mnemosyne_os.Base.Text.{codes, is_blank, to_lower}
use mnemosyne_os.Memory.{Method}
use mnemosyne_os.Recall.{UsageFeedback, codes_dec}
use mnemosyne_os.Recall.Hits.{apply_feedback}
use mnemosyne_os.Recall.Snippets.{trim}
use mnemosyne_os.Packets.{Packet, RecallRef}

pub record UsageContext : Type 0 where
  pub task_class : List ℕ
  pub outcome : List ℕ

-- In small letters and without the space around.
abbrev normalize_usage_context : (ℕ → ℕ) → UsageContext → UsageContext
normalize_usage_context fold u = record {
  task_class = trim (map (to_lower fold) u.task_class);
  outcome = trim (map (to_lower fold) u.outcome);
}

abbrev says : String → List ℕ → Bool
says s t = decided (codes_dec t (codes s))

module _ {Num : Type 0} (F : Float64 Num) where
  -- Go multiplies and then rounds; a constant is the number nearest to it.
  abbrev scaled : Num × Num → Num × Num → Num × Num
  scaled (a, c) (wa, wc) = (F.mul a wa, F.mul c wc)

  unfoldable pub outcome_feedback_weights : List ℕ → Num × Num
  outcome_feedback_weights o =
      if says "awaiting_approval" o || says "blocked" o
      then (F.literal 3 5, F.literal 1 4)
      else if says "failed" o
      then (F.literal 1 5, F.zero)
      else (F.one, F.one)

  unfoldable pub procedure_feedback_delta : UsageContext → Num × Num
  unfolding outcome_feedback_weights
  procedure_feedback_delta u =
      scaled
        (if says "task-plan" u.task_class || says "memory-consolidate" u.task_class
          then (F.literal 1 10, F.literal 3 100)
          else if says "direct_reply" u.task_class || says "followup_reply" u.task_class
          then (F.literal 3 50, F.literal 1 100)
          else (F.literal 2 25, F.literal 1 50))
        (outcome_feedback_weights u.outcome)

  abbrev semantic_confidence_delta : RecallRef → Num
  semantic_confidence_delta r =
      if decided (str_dec r.source "web")
        || decided (str_dec r.source "email")
        || decided (str_dec r.source "github")
      then F.literal 1 100
      else F.zero

  unfoldable pub semantic_feedback_delta : RecallRef → UsageContext → Num × Num
  unfolding outcome_feedback_weights
  semantic_feedback_delta r u =
      scaled
        (if says "task-plan" u.task_class || says "memory-consolidate" u.task_class
          then (F.literal 1 20, semantic_confidence_delta r)
          else if says "direct_reply" u.task_class || says "followup_reply" u.task_class
          then (F.literal 3 100, F.mul (semantic_confidence_delta r) (F.literal 1 2))
          else (F.literal 1 25, semantic_confidence_delta r))
        (outcome_feedback_weights u.outcome)

  abbrev feedback_of : String → Num × Num → UsageFeedback Num
  feedback_of id (a, c) = record { card_id = id; activation_delta = a; confidence_delta = c }

  feedback_for : (RecallRef → Num × Num) → List RecallRef → List (UsageFeedback Num)
  feedback_for delta [] = []
  feedback_for delta (r ∷ rs) =
      let rest = feedback_for delta rs in
      if is_blank r.card_id then rest else feedback_of r.card_id (delta r) ∷ rest

  unfoldable pub packet_feedback : UsageContext → Packet → List (UsageFeedback Num)
  unfolding feedback_for procedure_feedback_delta semantic_feedback_delta
  packet_feedback u p =
      feedback_for (λ _. procedure_feedback_delta u) p.procedure_hits
      ++ feedback_for (λ r. semantic_feedback_delta r u) p.semantic_hits

  unfoldable pub record_packet_use :
      (List (String × UsageFeedback Num) → List (String × UsageFeedback Num))
      → (ℕ → ℕ)
      → ℕ
      → Packet
      → UsageContext
      → Method Num (Unit {0})
  unfolding packet_feedback
  record_packet_use arrange fold now p u =
      apply_feedback F arrange now (packet_feedback (normalize_usage_context fold u) p)
