-- ===== src/Execution/Tests.antt =====
-- The theorems on actions at concrete stores.
use mnemosyne_os.Base.{
  ℕ, String, ◌≡◌, refl, ◌↔◌, Bool, true, false, none, some, List, [], ◌∷◌, arith, str_dec, ltb,
  if◌then◌else◌, ℕ_discrete, decided, ◌≢◌,
}
use mnemosyne_os.Base.Assoc
use mnemosyne_os.Base.Bytes.{bytes, bit_or, bit_xor}
use mnemosyne_os.Base.Disk
use mnemosyne_os.Base.Disk.{Faults}
use mnemosyne_os.Base.Sort.{sort_by}
use mnemosyne_os.Base.Text.{trim_space}
use mnemosyne_os.Base.Result.{ok}
use mnemosyne_os.Execution.{
  pos, shell, ActionStatus, running, completed, failed, status_dec, kind_dec, no_failure,
  ActionRecord, Store, Files,
}
use mnemosyne_os.Execution.Actions.{
  move, find_completed, read_directory, is_same_action, replay_of, try_replay, save,
}
use mnemosyne_os.Execution.Actions.Moves.{IsTidy, move-IsTidy, move_duplicates}
use mnemosyne_os.Execution.Actions.Replay.{IsRepeat, TakesOver, try_replay_ok}
use mnemosyne_os.Execution.Attempts.{Run, succeeded, deadline_exceeded, run_shell}
use mnemosyne_os.Execution.Attempts.Ends.{IsEnd, run_shell_ends}
use mnemosyne_os.Execution.FileAttempts.{Access, run_file_write}
use mnemosyne_os.Execution.FileAttempts.Ends.{IsFileEnd, run_file_write_ends}
use mnemosyne_os.Execution.Profiles.{Authority, authorize_profile, subtle_constant_compare}
use mnemosyne_os.Execution.Profiles.Laws.{
  Grounds, authorize_profile-Grounds, subtle_constant_compare_iff,
}

abbrev calm : Faults
calm = record { read_fails = false; list_fails = false; remove_fails = false; write_fails = false }

abbrev operator : Authority
operator = record { root_auth_token = "s3"; approvals = none }

authorize_profile-Grounds_example : Grounds calm 9 "root" " s3" operator
unfolding authorize_profile str_dec trim_space subtle_constant_compare bytes bit_or bit_xor
    ℕ_discrete
authorize_profile-Grounds_example = authorize_profile-Grounds calm 9 "root" " s3" operator refl

subtle_constant_compare_iff_example :
    (subtle_constant_compare "s3" "s4" ≡ true) ↔ (bytes "s3" ≡ bytes "s4")
subtle_constant_compare_iff_example = subtle_constant_compare_iff "s3" "s4"

abbrev action_in : ActionStatus → String → ActionRecord
action_in d id = record {
  action_id = id;
  task_id = "task-5";
  kind = shell;
  status = d;
  execution_profile = "user";
  command = "ls";
  args = [];
  path = "";
  workdir = "";
  changed_files = [];
  metadata = ("request_fingerprint", "f") ∷ [];
  attempt = 1;
  attempt_history = [];
  idempotency_key = "key";
  replayed = false;
  replay_of_action_id = "";
  retryable = false;
  failure_category = no_failure;
  stdout = "";
  stderr = "";
  exit_code = pos 0;
  error = "";
  started_at = 3;
  finished_at = none;
}

abbrev holding : ActionStatus → List Bool → Store
holding d faults = record {
  actions = record { dir = d; name = "action-1"; body = action_in d "action-1" } ∷ [];
  faults = faults;
}

holding-IsTidy : (d : ActionStatus) (faults : List Bool) → IsTidy (holding d faults).actions
holding-IsTidy d faults = record {
  placed = (record { by_status = refl; by_name = refl }, tt);
  distinct = (tt, tt);
}

-- The first attempt runs out of time, and the next ones do not.
abbrev slow_start : ℕ → Run
slow_start n = record {
  stdout = "";
  stderr = "";
  ending = if ltb n 2 then deadline_exceeded "timeout" else succeeded;
  started_at = n;
  finished_at = n;
}

run_shell_ends_example :
    (q : ActionRecord) × ((run_shell slow_start 3
        (action_in running "action-1")
        (holding running [])).0
      ≡ ok q)
    × IsEnd slow_start 1 3 0 q
run_shell_ends_example =
    run_shell_ends slow_start 3 (action_in running "action-1") (holding running []) refl
      (omega arith)

abbrev moved_files : Files
moved_files = (move (action_in failed "action-1") failed (holding running [])).1.actions

move-IsTidy_example :
    ((move (action_in failed "action-1") failed (holding running [])).0 ≡ ok tt)
    × IsTidy moved_files
    × ((c : ActionStatus)
        → Disk.read status_dec c "action-1" moved_files
          ≡ (if decided (status_dec failed c) then some (action_in failed "action-1") else none))
    × ((c : ActionStatus) (n : String)
        → n ≢ "action-1"
        → Disk.read status_dec c n moved_files
          ≡ Disk.read status_dec c n (holding running []).actions)
unfolding str_dec status_dec Disk.read
move-IsTidy_example =
    move-IsTidy (action_in failed "action-1") (action_in running "action-1") running failed
      (holding running []) (holding-IsTidy running []) refl refl

abbrev unread : Store
unread = holding running (true ∷ [])

move_duplicates_example :
    ((move (action_in failed "action-1") failed unread).0 ≡ ok tt)
    × (Disk.read status_dec running "action-1"
          (move (action_in failed "action-1") failed unread).1.actions
        ≡ some (action_in running "action-1"))
    × (Disk.read status_dec failed "action-1"
          (move (action_in failed "action-1") failed unread).1.actions
        ≡ some (action_in failed "action-1"))
unfolding str_dec status_dec Disk.read
move_duplicates_example =
    move_duplicates (action_in failed "action-1") (action_in running "action-1") running failed
      unread (holding-IsTidy running (true ∷ [])) refl refl (λ e. cc)

abbrev again : ActionRecord
again = replay_of 9 (action_in running "action-2") (action_in completed "action-1")

try_replay_ok_example :
    ((old : ActionRecord) × IsRepeat
        (action_in running "action-2")
        "f"
        (holding completed []).actions
        old
      × TakesOver 9 old again)
    × (again.action_id ≡ "action-2")
    × (again.kind ≡ (action_in running "action-2").kind)
    × (again.execution_profile ≡ (action_in running "action-2").execution_profile)
    × (again.idempotency_key ≡ (action_in running "action-2").idempotency_key)
    × (Disk.read status_dec completed "action-2"
          (try_replay 9 (action_in running "action-2") "f" (holding completed [])).1.actions
        ≡ some again)
unfolding try_replay find_completed read_directory is_same_action kind_dec str_dec status_dec
    trim_space Disk.list Assoc.get sort_by save
try_replay_ok_example =
    try_replay_ok 9 (action_in running "action-2") "f" (holding completed []) again (tt, tt) refl

-- The first access is interrupted, and the next ones are not.
abbrev interrupted_once : ℕ → Access
interrupted_once n = record {
  refusal = if ltb n 2 then some (record { error = "interrupted"; is_retryable = true }) else none;
  output = "text";
  finished_at = n;
}

run_file_write_ends_example :
    (q : ActionRecord) × ((run_file_write "text" interrupted_once 3
        (action_in running "action-1")
        (holding running [])).0
      ≡ ok q)
    × IsFileEnd interrupted_once 1 3 0 q
run_file_write_ends_example =
    run_file_write_ends "text" interrupted_once 3 (action_in running "action-1")
      (holding running []) refl (omega arith)
