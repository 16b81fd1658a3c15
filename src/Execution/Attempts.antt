-- ===== src/Execution/Attempts.antt =====
-- internal/execution/executor.go: the attempts of a shell action.
pub mod Ends
use mnemosyne_os.Base.{
  ℕ, ◌+◌, ◌-◌, ◌^◌, String, Bool, true, false, ◌||◌, ◌&&◌, not, Option, none, some, List, [], ◌∷◌,
  ◌++◌, ltb, leb, if◌then◌else◌, decided, str_dec, ℕ_discrete, zero, suc,
}
use mnemosyne_os.Base.Text.{trim_space, is_blank, codes}
use mnemosyne_os.Base.Number.{read_number}
use mnemosyne_os.Base.Exec.{pure, raise, ◌>>=◌, ◌>>◌}
use mnemosyne_os.Execution.{
  ℤ, pos, negsuc, ActionKind, shell, file_read, file_write, ActionStatus, completed, failed,
  FailureCategory, no_failure, timeout, process_exit, io_failure, execution_failure, ActionAttempt,
  ActionRecord, Store, Method,
}
use mnemosyne_os.Execution.Actions.{value_of, move}

-- The number that fmt.Sscanf's %d reads, when it fits and is above 0.
abbrev positive_or_one : Option ℕ → ℕ
positive_or_one none = 1
positive_or_one (some n) =
    if ltb (2 ^ 63 - 1) n then 1 else if decided (ℕ_discrete n 0) then 1 else n

scan_attempt : List ℕ → ℕ
scan_attempt [] = 1
scan_attempt (c ∷ t) =
    if decided (ℕ_discrete c b'-')
    then 1
    else if decided (ℕ_discrete c b'+')
    then positive_or_one (read_number t)
    else positive_or_one (read_number (c ∷ t))

unfoldable pub normalize_attempt : ℤ → List (String × String) → ℕ
unfolding scan_attempt
normalize_attempt (pos (suc n)) metadata = suc n
normalize_attempt (pos zero) metadata =
    scan_attempt (codes (trim_space (value_of "attempt" metadata)))
normalize_attempt (negsuc n) metadata =
    scan_attempt (codes (trim_space (value_of "attempt" metadata)))

-- For an attempt as `normalize_attempt` gives it, and also for 0.
unfoldable pub normalize_max_attempts : ℤ → ℕ → ℕ
normalize_max_attempts (pos (suc n)) attempt = if ltb (suc n) attempt then attempt else suc n
normalize_max_attempts (pos zero) attempt = if leb attempt 0 then 1 else attempt
normalize_max_attempts (negsuc n) attempt = if leb attempt 0 then 1 else attempt

abbrev is_timeout : FailureCategory → Bool
is_timeout timeout = true
is_timeout _ = false

abbrev is_io_failure : FailureCategory → Bool
is_io_failure io_failure = true
is_io_failure _ = false

unfoldable pub should_retry : ActionKind → FailureCategory → ℕ → ℕ → Bool
should_retry kind category attempt max = if leb max attempt then false else elim kind [
  | shell ↦ is_timeout category
  | file_read ↦ is_io_failure category
  | file_write ↦ is_io_failure category
]

-- How a command ended: the error's text with it.
pub data Ending : Type 0 where
  succeeded : Ending
  deadline_exceeded : String → Ending
  exited : ℤ → String → Ending
  not_run : String → Ending

pub record Run : Type 0 where
  pub stdout : String
  pub stderr : String
  pub ending : Ending
  pub started_at : ℕ
  pub finished_at : ℕ

abbrev pub error_of : Ending → String
error_of succeeded = ""
error_of (deadline_exceeded e) = e
error_of (exited c e) = e
error_of (not_run e) = e

-- The classification by `runShellAttempt`.
abbrev pub category_of : Ending → FailureCategory
category_of succeeded = no_failure
category_of (deadline_exceeded e) = timeout
category_of (exited c e) = process_exit
category_of (not_run e) = execution_failure

abbrev pub exit_code_of : Ending → ℤ
exit_code_of (exited c e) = c
exit_code_of _ = pos 0

abbrev pub is_success : Ending → Bool
is_success succeeded = true
is_success _ = false

-- The record after an attempt, whatever its end.
unfoldable pub after_attempt : ℕ → Run → ActionRecord → ActionRecord
after_attempt n run r = record r {
  attempt = n;
  attempt_history =
      r.attempt_history
      ++ record {
        attempt = n;
        status = if is_success run.ending then completed else failed;
        failure_category = category_of run.ending;
        retryable = is_timeout (category_of run.ending);
        exit_code = exit_code_of run.ending;
        error = error_of run.ending;
        started_at = run.started_at;
        finished_at = some run.finished_at;
      }
        ∷ [];
  stdout = run.stdout;
  stderr = run.stderr;
  exit_code = exit_code_of run.ending;
  error = error_of run.ending;
  failure_category = category_of run.ending;
  retryable = is_timeout (category_of run.ending);
  finished_at = some run.finished_at;
}

settle : ActionRecord → ActionStatus → Method ActionRecord
settle r status = do move (record r { status = status }) status; pure (record r { status = status })

abbrev clear_failure : ActionRecord → ActionRecord
clear_failure r = record r { retryable = false; error = ""; failure_category = no_failure }

-- `left` counts the rounds that the loop's bound leaves. `runs` says what the command does at each
-- attempt.
shell_attempts : (ℕ → Run) → (left n max : ℕ) → ActionRecord → Method ActionRecord
unfolding settle
shell_attempts runs zero n max r = settle r failed
shell_attempts runs (suc left) n max r =
    let done = after_attempt n (runs n) r in
    let rest = shell_attempts runs left (suc n) max done in
    if is_success (runs n).ending
    then settle (clear_failure done) completed
    else if not (should_retry shell (category_of (runs n).ending) n max)
    then settle done failed
    else rest

-- The loop of `executeShellInner`, from `record.Attempt` to `maxAttempts`.
unfoldable pub run_shell : (ℕ → Run) → ℕ → ActionRecord → Method ActionRecord
unfolding shell_attempts
run_shell runs max r = shell_attempts runs (max + 1 - r.attempt) r.attempt max r
