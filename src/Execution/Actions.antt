-- ===== src/Execution/Actions.antt =====
-- internal/execution/store.go, and the replay of an action that has been completed before.
pub mod Moves
pub mod Replay
use mnemosyne_os.Base.{
  ℕ, String, Bool, true, false, ◌||◌, ◌&&◌, not, Option, none, some, List, [], ◌∷◌, ◌++◌, map, ltb,
  if◌then◌else◌, decided, str_dec, zero, suc, take,
}
use mnemosyne_os.Base.Assoc
use mnemosyne_os.Base.Text.{trim_space, is_blank}
use mnemosyne_os.Base.Disk
use mnemosyne_os.Base.Sort.{sort_by}
use mnemosyne_os.Base.Result.{Result, ok, err}
use mnemosyne_os.Base.Exec.{pure, raise, ◌>>=◌, ◌>>◌}
use mnemosyne_os.Execution.{
  ℤ, pos, negsuc, ActionKind, kind_dec, ActionStatus, pending, running, completed, failed,
  status_dec, no_failure, Error, action_not_found, io_error, ActionAttempt, ActionRecord, Files,
  Store, Method, try_operation,
}

put_record : ActionRecord → Method (Unit {0})
put_record r s =
    pure tt (record s { actions = Disk.write status_dec r.status r.action_id r s.actions })

-- `writeRecordLocked`, and `Save`
unfoldable pub save : ActionRecord → Method (Unit {0})
unfolding put_record
save r = do try_operation; put_record r

abbrev pub statuses : List ActionStatus
statuses = pending ∷ running ∷ completed ∷ failed ∷ []

or_missing : Option (ActionStatus × ActionRecord) → Method (ActionStatus × ActionRecord)
or_missing none = raise action_not_found
or_missing (some found) = do try_operation; pure found

unfoldable pub find_locked : String → Method (ActionStatus × ActionRecord)
unfolding or_missing
find_locked id s = or_missing (Disk.find_in status_dec statuses id s.actions) s

unfoldable pub get : String → Method ActionRecord
get id = do found ← find_locked id; pure found.1

drop_record : ActionStatus → String → Method (Unit {0})
drop_record d id s = pure tt (record s { actions = Disk.remove status_dec d id s.actions })

-- The file of an action that is not found, or not read, is not removed.
unfoldable pub replace_found :
    ActionRecord → ActionStatus → Result Error (ActionStatus × ActionRecord) → Method (Unit {0})
unfolding drop_record
replace_found r next (err e) = save (record r { status = next })
replace_found r next (ok (dir, old)) = do
  try_operation
  drop_record dir r.action_id
  save (record r { status = next; started_at = old.started_at })

unfoldable pub move : ActionRecord → ActionStatus → Method (Unit {0})
unfolding replace_found
move r next s = let found = find_locked r.action_id s in replace_found r next found.0 found.1

read_each : List ActionRecord → Method (List ActionRecord)
read_each [] = pure []
read_each (r ∷ rs) = do try_operation; rest ← read_each rs; pure (r ∷ rest)

unfoldable pub read_directory : ActionStatus → Method (List ActionRecord)
unfolding read_each
read_directory d s =
    (do try_operation; read_each (map (λ e. e.body) (Disk.list status_dec d s.actions))) s

gather_actions : List ActionStatus → Method (List ActionRecord)
unfolding read_directory
gather_actions [] = pure []
gather_actions (d ∷ ds) = do here ← read_directory d; rest ← gather_actions ds; pure (here ++ rest)

abbrev pub started_later : ActionRecord → ActionRecord → Bool
started_later a b = ltb b.started_at a.started_at

abbrev limit_of : ℤ → ℕ
limit_of (pos zero) = 20
limit_of (pos (suc n)) = suc n
limit_of (negsuc n) = 20

-- `List`: newest first, at most `limit` of them.
unfoldable pub list_actions : ℤ → Method (List ActionRecord)
unfolding gather_actions
list_actions limit = do
  found ← gather_actions statuses
  pure (take (limit_of limit) (sort_by started_later found))

abbrev pub value_of : String → List (String × String) → String
value_of k m = elim (Assoc.get str_dec k m) [ none ↦ "" | some v ↦ v ]

-- The tests of the loop of `findCompletedByIdempotencyLocked`.
unfoldable pub is_same_action : ActionKind → String → String → String → ActionRecord → Bool
is_same_action kind profile key fingerprint r =
    decided (kind_dec r.kind kind)
    && decided (str_dec r.execution_profile profile)
    && decided (str_dec (trim_space r.idempotency_key) key)
    && (decided (str_dec fingerprint "")
        || decided (str_dec (trim_space (value_of "request_fingerprint" r.metadata)) fingerprint))

keep_same : (ActionRecord → Bool) → List ActionRecord → List ActionRecord
keep_same test [] = []
keep_same test (r ∷ rs) = let rest = keep_same test rs in if test r then r ∷ rest else rest

or_none_found : List ActionRecord → Method ActionRecord
or_none_found [] = raise action_not_found
or_none_found (r ∷ rs) = pure r

unfoldable pub find_completed : ActionKind → String → String → String → Method ActionRecord
unfolding read_directory keep_same or_none_found
find_completed kind profile key fingerprint = if is_blank key then raise action_not_found else do
  found ← read_directory completed
  or_none_found (
      sort_by started_later
        (keep_same (is_same_action kind profile (trim_space key) fingerprint) found))

-- `firstNonEmpty` of two texts, and `firstNonEmptySlice`
abbrev pub first_of : String → String → String
first_of a b = if is_blank a then (if is_blank b then "" else trim_space b) else trim_space a

abbrev pub first_list : List String → List String → List String
first_list [] b = b
first_list (x ∷ a) b = x ∷ a

abbrev pub replay_of : ℕ → ActionRecord → ActionRecord → ActionRecord
replay_of now r old = record r {
  status = completed;
  replayed = true;
  replay_of_action_id = old.action_id;
  command = first_of r.command old.command;
  args = first_list r.args old.args;
  path = first_of r.path old.path;
  workdir = first_of r.workdir old.workdir;
  changed_files = first_list r.changed_files old.changed_files;
  stdout = old.stdout;
  stderr = old.stderr;
  exit_code = old.exit_code;
  started_at = now;
  finished_at = some now;
  attempt_history =
      record {
        attempt = r.attempt;
        status = completed;
        failure_category = no_failure;
        retryable = false;
        exit_code = pos 0;
        error = "";
        started_at = now;
        finished_at = some now;
      }
      ∷ [];
}

replay_found : ℕ → ActionRecord → Result Error ActionRecord → Method (Option ActionRecord)
replay_found now r (ok old) = do save (replay_of now r old); pure (some (replay_of now r old))
replay_found now r (err action_not_found) = pure none
replay_found now r (err e) = raise e

-- `tryReplay`: `none` where there is nothing to replay.
unfoldable pub try_replay : ℕ → ActionRecord → String → Method (Option ActionRecord)
unfolding replay_found
try_replay now r fingerprint s =
    if is_blank r.idempotency_key
    then pure none s
    else let found = find_completed r.kind r.execution_profile r.idempotency_key fingerprint s in
      replay_found now r found.0 found.1
