-- ===== src/Approval/Tokens.antt =====
-- What a token is good for: one call of `Consume`, from `Approve` to the expiry or to `Deny`.
use mnemosyne_os.Base.{ℕ, ◌≤◌, String, ◌≡◌, ◌≢◌, sym, ap, ◌∙◌, false, none, some, arith, inl, inr}
use mnemosyne_os.Base.Text.{is_blank, trim_space}
use mnemosyne_os.Base.Result.{ok, Result-cases}
use mnemosyne_os.Base.Disk.{Entry, Faults, read, remove, write}
use mnemosyne_os.Base.Disk.Laws.{All_at, read-remove, read-write, read_unique}
use mnemosyne_os.Approval.Consumption.{
  consume_selects, token_of_match, profile_of_match, in_time_of, reads_of_spent,
}
use mnemosyne_os.Approval.Invariant.{
  IsPlaced, IsTidy, consume-IsTidy, deny-IsTidy, find_locked_reads,
}
use mnemosyne_os.Approval.{
  Status, approved, denied, consumed, status_dec, Request, Store, write_locked, replace, spend,
  revoke, deny_found, deny, find_locked, consume,
}

-- An approved request, of the profile and with the token that are presented, not expired, is marked
-- as used: its file goes to the consumed ones, and the files of other requests do not change.
pub record IsSpent (now : ℕ) (profile token : String) (s t : Store) (r : Request)
    (e : Entry Status Request) : Type 0 where
  pub held : read status_dec approved e.name s.files ≡ some e.body
  pub profile_matches : e.body.execution_profile ≡ trim_space profile
  pub token_matches : e.body.approval_token ≡ trim_space token
  pub presented : is_blank token ≡ false
  pub in_time : (at : ℕ) → e.body.expires_at ≡ some at → now ≤ at
  pub named : r.approval_id ≡ e.name
  pub profile_kept : r.execution_profile ≡ e.body.execution_profile
  pub status : r.status ≡ consumed
  pub cleared : r.approval_token ≡ ""
  pub used : r.used_at ≡ some now
  pub gone : read status_dec approved e.name t.files ≡ none
  pub recorded : read status_dec consumed e.name t.files ≡ some r
  pub others :
      (d : Status) (m : String)
      → m ≢ e.name
      → read status_dec d m t.files ≡ read status_dec d m s.files

-- When `Consume` succeeds on a tidy store, there was an approved request of the profile and with the
-- token that are presented, not expired; what comes back is that request, consumed, without its
-- token and used now; its file is then among the consumed ones and no longer among the approved
-- ones, and the files of all other requests are as they were.
pub consume_ok :
    (f : Faults) (now : ℕ) (profile token : String) (s : Store) {r : Request}
    → IsTidy s
    → (consume f now profile token s).1 ≡ ok r
    → (e : Entry Status Request) × IsSpent now profile token s (consume f now profile token s).0 r e
consume_ok f now profile token s {r} h p =
    let (e, c) = consume_selects f now profile token s h p in
    let placed = All_at status_dec IsPlaced approved e.name s.files h.placed c.held in
    let after : (consume f now profile token s).0.files
        ≡ write status_dec consumed e.name r (remove status_dec approved e.name s.files) =
      ap (λ t. t.files) c.after
      ∙ ap
          (λ id.
            write status_dec consumed id (spend now e.body)
              (remove status_dec approved e.name s.files))
          placed.by_name
      ∙ ap (λ x. write status_dec consumed e.name x (remove status_dec approved e.name s.files))
          (sym c.result) in
    let (gone, recorded, _) = reads_of_spent consumed e.name e.name r s.files in
    (
      e,
      record {
        held = c.held;
        profile_matches = profile_of_match profile token e.body c.granted.matches;
        token_matches = sym (token_of_match profile token e.body c.granted.matches);
        presented = c.presented;
        in_time = λ at. in_time_of now at e.body c.granted.in_time;
        named = ap (λ x. x.approval_id) c.result ∙ placed.by_name;
        profile_kept = ap (λ x. x.execution_profile) c.result;
        status = ap (λ x. x.status) c.result;
        cleared = ap (λ x. x.approval_token) c.result;
        used = ap (λ x. x.used_at) c.result;
        gone = ap (read status_dec approved e.name) after ∙ gone;
        recorded = ap (read status_dec consumed e.name) after ∙ recorded;
        others =
            λ d m n. ap (read status_dec d m) after ∙ (reads_of_spent d m e.name r s.files).2 n;
      },
    )

-- Each token is held by one approved request.
abbrev pub TokensDiffer : Store → Type 0
TokensDiffer s =
    (n m : String) (r q : Request)
    → read status_dec approved n s.files ≡ some r
    → read status_dec approved m s.files ≡ some q
    → r.approval_token ≡ q.approval_token
    → n ≡ m

-- A file that is approved after one was used up is another one, approved before.
still_approved :
    (d : Status) (m n id : String) (x : Request) (s : Store) {q : Request} {t : Store}
    → d ≢ approved
    → t ≡ record s { files = write status_dec d id x (remove status_dec approved n s.files) }
    → read status_dec approved m t.files ≡ some q
    → (n ≢ m) × (read status_dec approved m s.files ≡ some q)
unfolding status_dec
still_approved d m n id x s {q} {t} c e h = ground (
  arith,
  read-write status_dec d approved id m x (remove status_dec approved n s.files),
  read-remove status_dec approved approved n m s.files,
)

-- On a tidy store in which no token is held twice, a token that was consumed is refused by the next
-- call, for every profile and at any time.
pub consume_once :
    (f g : Faults) (now later : ℕ) (profile other token : String) (s : Store) (r q : Request)
    → IsTidy s
    → TokensDiffer s
    → (consume f now profile token s).1 ≡ ok r
    → (consume g later other token (consume f now profile token s).0).1 ≢ ok q
consume_once f g now later profile other token s r q h u p p' =
    let (e, c) = consume_selects f now profile token s h p in
    let t = (consume f now profile token s).0 in
    let (e', c') =
      consume_selects g later other token t (consume-IsTidy f now profile token s h) p' in
    let same : e.body.approval_token ≡ e'.body.approval_token =
      sym (token_of_match profile token e.body c.granted.matches)
      ∙ token_of_match other token e'.body c'.granted.matches in
    let kept =
      still_approved consumed e'.name e.name e.body.approval_id (spend now e.body) s (λ p. cc)
        c.after c'.held in
    kept.0 (u e.name e'.name e.body e'.body c.held kept.1 same)

deny_ok :
    (f : Faults) (now : ℕ) (id by reason : String) (s : Store) (q : Request) {r : Request}
    → IsTidy s
    → read status_dec approved id s.files ≡ some q
    → (deny f now id by reason s).1 ≡ ok r
    → (deny f now id by reason s).0 ≡ record s {
      files =
          write status_dec denied q.approval_id
            (revoke now by reason q)
            (remove status_dec approved id s.files);
    }
unfolding deny deny_found replace write_locked
deny_ok f now id by reason s q {r} h e p = elim (Result-cases (find_locked f id s)) [
  | inl ((d, x), found) ↦
      let held = find_locked_reads f id s found in
      let same : d ≡ approved = read_unique status_dec d approved id s.files h.distinct held e in
      ground (arith, held, same)
  | inr (x, lost) ↦ absurd (ground arith)
]

-- On a tidy store in which no token is held twice, the token of an approved request is refused once
-- the request has been denied.
pub deny_revokes_token :
    (f g : Faults) (now later : ℕ) (id by reason profile token : String) (s : Store)
    (held r q : Request)
    → IsTidy s
    → TokensDiffer s
    → read status_dec approved id s.files ≡ some held
    → trim_space token ≡ held.approval_token
    → (deny f now id by reason s).1 ≡ ok r
    → (consume g later profile token (deny f now id by reason s).0).1 ≢ ok q
deny_revokes_token f g now later id by reason profile token s held r q h u e v p p' =
    let t = (deny f now id by reason s).0 in
    let (e', c') =
      consume_selects g later profile token t (deny-IsTidy f now id by reason s h) p' in
    let same : held.approval_token ≡ e'.body.approval_token =
      sym v ∙ token_of_match profile token e'.body c'.granted.matches in
    let kept =
      still_approved denied e'.name id held.approval_id (revoke now by reason held) s (λ x. cc)
        (deny_ok f now id by reason s held h e p) c'.held in
    kept.0 (u id e'.name held e'.body e kept.1 same)
