-- ===== src/Approval/Grants.antt =====
-- From `Approve` to `Consume`: what a granted token buys, and until when.
use mnemosyne_os.Base.{
  ℕ, ◌+◌, String, ◌≡◌, refl, ap, ◌∙◌, false, some, arith, inl, inr, if◌then◌else◌, ltb,
}
use mnemosyne_os.Base.Text.{is_blank, trim_space}
use mnemosyne_os.Base.Result.{ok, err}
use mnemosyne_os.Base.Disk.{Faults, read, remove, list, write}
use mnemosyne_os.Base.Contains.{Contains}
use mnemosyne_os.Base.Disk.Laws.{All-remove, find_in_of_read}
use mnemosyne_os.Approval.Select.{NoMatch, select-insert}
use mnemosyne_os.Approval.Invariant.{IsTidy}
use mnemosyne_os.Approval.{
  Status, pending, approved, denied, consumed, status_dec, statuses, refused, Request, Store,
  find_locked, write_locked, replace, is_match, is_expired, select, spend, consume_selected,
  consume, grant, approve_found, approve,
}

-- The operating system refuses nothing.
abbrev pub calm : Faults
calm = record { read_fails = false; list_fails = false; remove_fails = false; write_fails = false }

listed : (d : Status) → Contains d statuses
listed pending = inl refl
listed approved = inr (inl refl)
listed denied = inr (inr (inl refl))
listed consumed = inr (inr (inr (inl refl)))

find_locked_of_read :
    (d : Status) (id : String) (s : Store) {r : Request}
    → IsTidy s
    → read status_dec d id s.files ≡ some r
    → find_locked calm id s ≡ ok (d, r)
unfolding find_locked
find_locked_of_read d id s {r} h e =
    ground (arith, find_in_of_read status_dec statuses d id s.files {r = r} (listed d) h.distinct e)

-- The store once `Approve` has granted the token.
abbrev pub after_grant : ℕ → String → String → String → Request → Store → Store
after_grant now token id by r s = record s {
  files =
      write status_dec approved r.approval_id (grant now s.default_ttl token by r)
        (remove status_dec pending id s.files);
}

-- A pending request is granted the token, until `now + default_ttl`.
pub approve_pending :
    (now : ℕ) (token id by : String) (s : Store) (r : Request)
    → IsTidy s
    → read status_dec pending id s.files ≡ some r
    → r.status ≡ pending
    → approve calm now (some token) id by s
      ≡ (after_grant now token id by r s, ok (grant now s.default_ttl token by r))
unfolding approve approve_found replace write_locked
approve_pending now token id by s r h e p =
    rw (find_locked_of_read pending id s h e, approve) (ground arith)

-- A profile and a token that `Consume` accepts for the request.
pub record Presents (profile token : String) (r : Request) : Type 0 where
  pub profile_given : is_blank profile ≡ false
  pub token_given : is_blank token ≡ false
  pub profile_matches : r.execution_profile ≡ trim_space profile
  pub token_trimmed : trim_space token ≡ token

module _ (now later : ℕ) (profile token id by : String) (s : Store) (r : Request)
    (given : Presents profile token r) (fresh : NoMatch profile token s.files) where
  select_granted :
      select calm later profile token
        (list status_dec approved (after_grant now token id by r s).files)
      ≡ (if ltb (now + s.default_ttl) later
          then err refused
          else ok (record {
            dir = approved;
            name = r.approval_id;
            body = grant now s.default_ttl token by r;
          }))
  unfolding write is_match is_expired
  select_granted = select-insert calm later profile token _ _ refl refl (ground arith) (
      All-remove status_dec _ approved r.approval_id _
        (All-remove status_dec _ pending id s.files fresh))

  -- A granted token buys one use until it expires, and is refused after.
  pub consume_granted : (consume calm later profile token (after_grant now token id by r s)).1 ≡ (
      if ltb (now + s.default_ttl) later
      then err refused
      else ok (spend later (grant now s.default_ttl token by r)))
  unfolding consume consume_selected replace write_locked
  consume_granted = ground (arith, select_granted, given.profile_given, given.token_given)

-- A pending request that is approved lets its profile and its token through once, until
-- `default_ttl` after the approval; later the token is refused. This is with no file operation
-- refused, and no approved request that answers to the same profile and token.
pub approve_then_consume :
    (now later : ℕ) (profile token id by : String) (s : Store) (r : Request)
    → IsTidy s
    → read status_dec pending id s.files ≡ some r
    → r.status ≡ pending
    → Presents profile token r
    → NoMatch profile token s.files
    → (consume calm later profile token (approve calm now (some token) id by s).0).1 ≡ (
        if ltb (now + s.default_ttl) later
        then err refused
        else ok (spend later (grant now s.default_ttl token by r)))
approve_then_consume now later profile token id by s r h e p given fresh =
    ap (λ o. (consume calm later profile token o.0).1) (approve_pending now token id by s r h e p)
    ∙ consume_granted now later profile token id by s r given fresh
