-- ===== src/Execution/FileAttempts.antt =====
-- internal/execution/executor.go: the attempts of reading and of writing a file.
pub mod Ends
use Prim.Native.String.{◌++◌ as text_append}
use mnemosyne_os.Base.{
  ℕ, ◌+◌, ◌-◌, String, Bool, true, false, ◌||◌, not, Option, none, some, List, [], ◌∷◌, ◌++◌,
  if◌then◌else◌, zero, suc, length,
}
use mnemosyne_os.Base.Bytes.{bytes}
use mnemosyne_os.Base.Number.{decimal}
use mnemosyne_os.Base.Exec.{pure, ◌>>=◌, ◌>>◌}
use mnemosyne_os.Execution.{
  pos, ActionKind, file_read, file_write, ActionStatus, completed, failed, no_failure, io_failure,
  ActionAttempt, ActionRecord, Store, Method,
}
use mnemosyne_os.Execution.Actions.{move}
use mnemosyne_os.Execution.Attempts.{should_retry}

-- An error of the operating system, and the verdict on it of `isRetryableIOError`.
pub record Refusal : Type 0 where
  pub error : String
  pub is_retryable : Bool

-- One access to the file: what it gives, and when it ended.
pub record Access : Type 0 where
  pub refusal : Option Refusal
  pub output : String
  pub finished_at : ℕ

-- The entry of the history.
abbrev attempt_of : ℕ → Access → ActionRecord → ActionAttempt
attempt_of n access r = record {
  attempt = n;
  status = elim access.refusal [ none ↦ completed | some _ ↦ failed ];
  failure_category = elim access.refusal [ none ↦ no_failure | some _ ↦ io_failure ];
  retryable = elim access.refusal [ none ↦ false | some e ↦ e.is_retryable ];
  exit_code = pos 0;
  error = elim access.refusal [ none ↦ "" | some e ↦ e.error ];
  started_at = r.started_at;
  finished_at = some access.finished_at;
}

unfoldable pub noted : ℕ → Access → ActionRecord → ActionRecord
noted n access r = record r {
  attempt = n;
  finished_at = some access.finished_at;
  attempt_history = r.attempt_history ++ attempt_of n access r ∷ [];
}

abbrev pub done_with : String → ActionRecord → ActionRecord
done_with output r = record r {
  status = completed;
  stdout = output;
  retryable = false;
  error = "";
  failure_category = no_failure;
}

abbrev pub refused_with : Refusal → ActionRecord → ActionRecord
refused_with e r = record r {
  status = failed;
  error = e.error;
  failure_category = io_failure;
  retryable = e.is_retryable;
}

-- `record.AttemptHistory[len(record.AttemptHistory)-1].Retryable = false`
unfoldable pub settle_last : List ActionAttempt → List ActionAttempt
settle_last [] = []
settle_last (a ∷ []) = record a { retryable = false } ∷ []
settle_last (a ∷ b ∷ rest) = a ∷ settle_last (b ∷ rest)

abbrev pub given_up : ActionRecord → ActionRecord
given_up r = record r { retryable = false; attempt_history = settle_last r.attempt_history }

file_away : ActionRecord → ActionStatus → Method ActionRecord
file_away r status = do move r status; pure r

settle_access :
    ActionKind
    → (n max : ℕ) → Option Refusal
    → String
    → ActionRecord
    → Method ActionRecord
    → Method ActionRecord
unfolding file_away
settle_access kind n max none output r again = file_away (done_with output r) completed
settle_access kind n max (some e) output r again =
    if not e.is_retryable || not (should_retry kind io_failure n max)
    then file_away (given_up (refused_with e r)) failed
    else again

abbrev after_refusal : Option Refusal → ActionRecord → ActionRecord
after_refusal none r = r
after_refusal (some e) r = refused_with e r

-- `left` counts the rounds that the loop's bound leaves.
file_attempts : ActionKind → (ℕ → Access) → (left n max : ℕ) → ActionRecord → Method ActionRecord
unfolding settle_access
file_attempts kind tries zero n max r =
    file_away (record r { status = failed; retryable = false }) failed
file_attempts kind tries (suc left) n max r =
    let here = noted n (tries n) r in
    settle_access kind n max (tries n).refusal (tries n).output here
      (file_attempts kind tries left (suc n) max (after_refusal (tries n).refusal here))

-- The loop of `executeFileReadInner`; what an access gives is the content of the file.
unfoldable pub run_file_read : (ℕ → Access) → ℕ → ActionRecord → Method ActionRecord
unfolding file_attempts
run_file_read tries max r = file_attempts file_read tries (max + 1 - r.attempt) r.attempt max r

-- fmt.Sprintf("wrote %d bytes", len(req.Content))
abbrev write_report : String → String
write_report content =
    text_append "wrote " (text_append (decimal (length (bytes content))) " bytes")

-- The loop of `executeFileWriteInner`; `tries` says how making the directories and writing the
-- content ended.
unfoldable pub run_file_write : String → (ℕ → Access) → ℕ → ActionRecord → Method ActionRecord
unfolding file_attempts
run_file_write content tries max r =
    file_attempts file_write (λ n. record (tries n) { output = write_report content })
      (max + 1 - r.attempt) r.attempt max r
