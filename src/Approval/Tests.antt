-- ===== src/Approval/Tests.antt =====
-- The theorems on approvals at concrete stores.
use mnemosyne_os.Base.{◌⊎◌, ◌≡◌, ◌≢◌, refl, none, some, [], ◌∷◌, arith, str_dec}
use mnemosyne_os.Base.Text.{trim_space}
use mnemosyne_os.Base.Result.{ok}
use mnemosyne_os.Base.Disk.{Entry, read, list, find_in}
use mnemosyne_os.Approval.Invariant.{IsTidy}
use mnemosyne_os.Approval.Tokens.{
  TokensDiffer, IsSpent, consume_ok, consume_once, deny_revokes_token,
}
use mnemosyne_os.Approval.Grants.{calm, approve_then_consume}
use mnemosyne_os.Approval.History.{
  Call, approves, IsSound, IsFresh, Reach, here, next, perform, IsWriteRefused, Reach-IsSound,
}
use mnemosyne_os.Approval.Losses.{KeepsRequests}
use mnemosyne_os.Approval.{
  Status, pending, status_dec, Request, Store, grant, revoke, spend, replace, write_locked,
  find_locked, is_match, is_expired, select, approve, deny, consume,
}

abbrev waiting : Request
waiting = record {
  approval_id = "approval-7";
  task_id = "task-3";
  execution_profile = "root";
  action_kind = "shell";
  summary = "restart the service";
  requested_by = "agent";
  approved_by = "";
  denied_by = "";
  denied_reason = "";
  status = pending;
  approval_token = "";
  metadata = [];
  created_at = 7;
  updated_at = 7;
  expires_at = none;
  used_at = none;
}

abbrev granted : Request
granted = grant 10 600 "c0ffee" "alice" waiting

abbrev holding : Request → Store
holding r = record {
  files = record { dir = r.status; name = r.approval_id; body = r } ∷ [];
  default_ttl = 600;
}

waiting-IsTidy : IsTidy (holding waiting)
waiting-IsTidy = record {
  placed = (record { by_status = refl; by_name = refl; cleared = λ _. refl }, tt);
  distinct = (tt, tt);
}

granted-IsTidy : IsTidy (holding granted)
granted-IsTidy = record {
  placed = (record { by_status = refl; by_name = refl; cleared = λ n. absurd (n refl) }, tt);
  distinct = (tt, tt);
}

granted-TokensDiffer : TokensDiffer (holding granted)
unfolding read
granted-TokensDiffer n m r q a b e = ground arith

abbrev spent : Request
spent = spend 50 granted

consume_ok_example :
    (e : Entry Status Request) × IsSpent 50 "root" "c0ffee"
      (holding granted)
      (consume calm 50 "root" "c0ffee" (holding granted)).0
      spent
      e
unfolding consume select is_match is_expired replace write_locked str_dec trim_space list status_dec
consume_ok_example = consume_ok calm 50 "root" "c0ffee" (holding granted) granted-IsTidy refl

consume_once_example :
    (consume calm 60 "root" "c0ffee" (consume calm 50 "root" "c0ffee" (holding granted)).0).1
    ≢ ok spent
unfolding consume select is_match is_expired replace write_locked str_dec trim_space list status_dec
consume_once_example =
    consume_once calm calm 50 60 "root" "root" "c0ffee" (holding granted) spent spent granted-IsTidy
      granted-TokensDiffer refl

deny_revokes_token_example :
    (consume calm 60 "root" "c0ffee"
      (deny calm 20 "approval-7" "bob" "too late" (holding granted)).0).1
    ≢ ok spent
unfolding deny find_locked replace write_locked str_dec trim_space read status_dec find_in
deny_revokes_token_example =
    deny_revokes_token calm calm 20 60 "approval-7" "bob" "too late" "root" "c0ffee"
      (holding granted) granted (revoke 20 "bob" "too late" granted) spent granted-IsTidy
      granted-TokensDiffer refl refl refl

approve_then_consume_example :
    (consume calm 500 "root" "c0ffee"
      (approve calm 10 (some "c0ffee") "approval-7" "alice" (holding waiting)).0).1
    ≡ ok (spend 500 granted)
unfolding str_dec trim_space read status_dec
approve_then_consume_example =
    approve_then_consume 10 500 "root" "c0ffee" "approval-7" "alice" (holding waiting) waiting
      waiting-IsTidy refl refl
      (record {
        profile_given = refl;
        token_given = refl;
        profile_matches = refl;
        token_trimmed = refl;
      })
      ((λ e. cc), tt)

abbrev granting : Call
granting = approves calm 10 (some "c0ffee") "approval-7" "alice"

waiting-IsFresh : IsFresh granting (holding waiting)
unfolding read
waiting-IsFresh n r e = absurd (ground arith)

granted_at_last : Reach (holding waiting) (perform granting (holding waiting))
granted_at_last = next granting here waiting-IsFresh

waiting-TokensDiffer : TokensDiffer (holding waiting)
unfolding read
waiting-TokensDiffer n m r q a b e = absurd (ground arith)

Reach-IsSound_example :
    IsSound (perform granting (holding waiting))
    × (KeepsRequests (holding waiting) (perform granting (holding waiting))
        ⊎ IsWriteRefused granted_at_last)
Reach-IsSound_example =
    Reach-IsSound (record { tidy = waiting-IsTidy; differ = waiting-TokensDiffer }) granted_at_last
