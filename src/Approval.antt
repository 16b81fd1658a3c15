-- ===== src/Approval.antt =====
-- internal/approval: requests for a privileged action, kept as one file each in a directory named
-- for the request's status. The mutex makes each method one step; the clock is read once in it.
mod Select
mod Invariant
mod Consumption
pub mod Tokens
pub mod Grants
mod Losses
mod Shrinking
pub mod History
mod Tests
use mnemosyne_os.Base.{
  ℕ, ◌+◌, String, ltb, leb, Bool, true, false, ◌&&◌, ◌||◌, not, Option, none, some, List, [], ◌∷◌,
  ◌++◌, if◌then◌else◌, decided, str_dec, map,
}
use Prim.Native.String.{◌++◌ as text_append}
use mnemosyne_os.Base.Text.{trim_space, is_blank}
use mnemosyne_os.Base.Number.{decimal}
use mnemosyne_os.Base.Result.{Result, ok, err, ◌>>=◌}
use mnemosyne_os.Base.Disk.{Entry, Faults, read, remove, list, find_in, write}
use mnemosyne_os.Base.Sort.{sort_by}

pub data Status : Type 0 where
  pending approved denied consumed : Status

unfoldable pub status_dec : Discrete Status
status_dec = hlevel

pub data Error : Type 0 where
  not_found invalid_input refused io_error no_entropy : Error

pub record Request : Type 0 where
  pub approval_id : String
  pub task_id : String
  pub execution_profile : String
  pub action_kind : String
  pub summary : String
  pub requested_by : String
  pub approved_by : String
  pub denied_by : String
  pub denied_reason : String
  pub status : Status
  pub approval_token : String
  pub metadata : List (String × String)
  pub created_at : ℕ
  pub updated_at : ℕ
  pub expires_at : Option ℕ
  pub used_at : Option ℕ

pub record CreateRequest : Type 0 where
  pub task_id : String
  pub execution_profile : String
  pub action_kind : String
  pub summary : String
  pub requested_by : String
  pub metadata : List (String × String)

abbrev pub Files : Type 0
Files = List (Entry Status Request)

pub record Store : Type 0 where
  pub files : Files
  pub default_ttl : ℕ

-- A duration that is not positive stands as 0.
unfoldable pub new_store : Files → ℕ → Store
new_store files ttl = record {
  files = files;
  default_ttl = if leb ttl 0 then 600000000000 else ttl;
}

abbrev pub Outcome : Type 0
Outcome = Store × Result Error Request

unfoldable pub write_locked : Faults → Request → Store → Outcome
write_locked f r s =
    if f.write_fails
    then (s, err io_error)
    else (record s { files = write status_dec r.status r.approval_id r s.files }, ok r)

abbrev pub statuses : List Status
statuses = pending ∷ approved ∷ denied ∷ consumed ∷ []

-- The record, and the directory that holds its file.
abbrev pub read_found : Faults → Option (Status × Request) → Result Error (Status × Request)
read_found f none = err not_found
read_found f (some found) = if f.read_fails then err io_error else ok found

unfoldable pub find_locked : Faults → String → Store → Result Error (Status × Request)
find_locked f id s = read_found f (find_in status_dec statuses id s.files)

unfoldable pub approval_id_at : ℕ → String
approval_id_at now = text_append "approval-" (decimal now)

unfoldable pub new_request : ℕ → CreateRequest → Request
new_request now req = record {
  approval_id = approval_id_at now;
  task_id = trim_space req.task_id;
  execution_profile = trim_space req.execution_profile;
  action_kind = trim_space req.action_kind;
  summary = trim_space req.summary;
  requested_by = trim_space req.requested_by;
  approved_by = "";
  denied_by = "";
  denied_reason = "";
  status = pending;
  approval_token = "";
  metadata = req.metadata;
  created_at = now;
  updated_at = now;
  expires_at = none;
  used_at = none;
}

abbrev pub lacks_fields : CreateRequest → Bool
lacks_fields req =
    is_blank req.execution_profile || is_blank req.action_kind || is_blank req.summary

unfoldable pub create : Faults → ℕ → CreateRequest → Store → Outcome
create f now req s =
    if lacks_fields req then (s, err invalid_input) else write_locked f (new_request now req) s

unfoldable pub get : Faults → String → Store → Result Error Request
get f id s = elim (find_locked f id s) [ ok (_, r) ↦ ok r | err e ↦ err e ]

-- The old file is removed and the new one written.
unfoldable pub replace : Faults → Status → String → Request → Store → Outcome
replace f dir name r s =
    if f.remove_fails
    then (s, err io_error)
    else write_locked f r (record s { files = remove status_dec dir name s.files })

abbrev pub grant : ℕ → ℕ → String → String → Request → Request
grant now ttl token approved_by r = record r {
  status = approved;
  approval_token = token;
  approved_by = trim_space approved_by;
  updated_at = now;
  expires_at = some (now + ttl);
}

approve_found :
    Faults → ℕ → Option String → String → String → Store → Result Error (Status × Request) → Outcome
approve_found f now token id by s (err e) = (s, err e)
approve_found f now token id by s (ok (dir, r)) =
    if not (decided (status_dec r.status pending)) then (s, err refused) else elim token [
      | none ↦ (s, err no_entropy)
      | some t ↦ replace f dir id (grant now s.default_ttl t by r) s
    ]

-- `token` is what crypto/rand gives.
unfoldable pub approve : Faults → ℕ → Option String → String → String → Store → Outcome
unfolding approve_found
approve f now token id by s = approve_found f now token id by s (find_locked f id s)

abbrev pub revoke : ℕ → String → String → Request → Request
revoke now by reason r = record r {
  status = denied;
  approval_token = "";
  approved_by = "";
  denied_by = trim_space by;
  denied_reason = trim_space reason;
  updated_at = now;
  expires_at = none;
}

deny_found :
    Faults → ℕ → String → String → String → Store → Result Error (Status × Request) → Outcome
deny_found f now id by reason s (err e) = (s, err e)
deny_found f now id by reason s (ok (dir, r)) =
    if not (decided (status_dec r.status pending)) && not (decided (status_dec r.status approved))
    then (s, err refused)
    else replace f dir id (revoke now by reason r) s

unfoldable pub deny : Faults → ℕ → String → String → String → Store → Outcome
unfolding deny_found
deny f now id by reason s = deny_found f now id by reason s (find_locked f id s)

-- `record.ExpiresAt != nil && now.After(*record.ExpiresAt)`
unfoldable pub is_expired : ℕ → Request → Bool
is_expired now r = elim r.expires_at [ none ↦ false | some t ↦ ltb t now ]

-- Whether the loop of `Consume` stops at the file.
unfoldable pub is_match : String → String → Request → Bool
is_match profile token r =
    decided (str_dec r.execution_profile (trim_space profile))
    && decided (str_dec (trim_space token) r.approval_token)

unfoldable pub select : Faults → ℕ → String → String → Files → Result Error (Entry Status Request)
select f now profile token [] = err refused
select f now profile token (e ∷ k) =
    let rest = select f now profile token k in
    if f.read_fails
    then err io_error
    else if not (is_match profile token e.body)
    then rest
    else if is_expired now e.body
    then err refused
    else ok e

abbrev pub spend : ℕ → Request → Request
spend now r = record r {
  status = consumed;
  approval_token = "";
  used_at = some now;
  updated_at = now;
}

consume_selected : Faults → ℕ → Store → Result Error (Entry Status Request) → Outcome
consume_selected f now s (err e) = (s, err e)
consume_selected f now s (ok e) = replace f approved e.name (spend now e.body) s

unfoldable pub consume : Faults → ℕ → String → String → Store → Outcome
unfolding consume_selected
consume f now profile token s =
    if is_blank profile || is_blank token
    then (s, err invalid_input)
    else if f.list_fails
    then (s, err io_error)
    else consume_selected f now s (select f now profile token (list status_dec approved s.files))

-- One directory's records; an unreadable file ends the call.
abbrev read_all : Faults → Files → Result Error (List Request)
read_all f [] = ok []
read_all f (e ∷ k) = if f.read_fails then err io_error else ok (map (λ x. x.body) (e ∷ k))

gather : Faults → List Status → Files → Result Error (List Request)
gather f [] k = ok []
gather f (d ∷ ds) k =
    let later = gather f ds k in
    if f.list_fails
    then err io_error
    else do here ← read_all f (list status_dec d k); rest ← later; ok (here ++ rest)

abbrev pub is_newer : Request → Request → Bool
is_newer a b = ltb b.created_at a.created_at

-- `List`: the directory of the given status, or all four, newest first.
unfoldable pub list_requests : Faults → Option Status → Store → Result Error (List Request)
unfolding gather
list_requests f status s = do
  found ← gather f (elim status [ none ↦ statuses | some d ↦ d ∷ [] ]) s.files
  ok (sort_by is_newer found)
