-- ===== src/Approval/Select.antt =====
-- The loop of `Consume` over the approved files.
use mnemosyne_os.Base.{
  ℕ, String, ◌≡◌, true, false, some, [], ◌∷◌, arith, All, if◌then◌else◌, inl, inr,
}
use mnemosyne_os.Base.Result.{ok, err, Result-cases}
use mnemosyne_os.Base.Disk.{Entry, Faults, read, list, insert}
use mnemosyne_os.Base.Disk.Laws.{Distinct, All-list, All-reads}
use mnemosyne_os.Approval.{
  Status, approved, status_dec, Request, Files, is_match, is_expired, select, refused,
}

-- What the loop may stop at with success.
pub record IsGrant (now : ℕ) (profile token : String) (r : Request) : Type 0 where
  pub matches : is_match profile token r ≡ true
  pub in_time : is_expired now r ≡ false

select_sound :
    (P : Entry Status Request → Type 0) (f : Faults) (now : ℕ) (profile token : String) (k : Files)
    {e : Entry Status Request}
    → All P k
    → select f now profile token k ≡ ok e
    → P e × IsGrant now profile token e.body
unfolding select
select_sound P f now profile token [] h p = absurd (ground arith)
select_sound P f now profile token (x ∷ k) {e} h p =
    elim (Result-cases (select f now profile token k)) [
      | inl (q, r) ↦ ground (arith, select_sound P f now profile token k {e = q} h.1 r)
      | inr (q, r) ↦ ground arith
    ]

-- The selected file is an approved one, read as it stands.
pub select_reads :
    (f : Faults) (now : ℕ) (profile token : String) (k : Files) {e : Entry Status Request}
    → Distinct k
    → select f now profile token (list status_dec approved k) ≡ ok e
    → (read status_dec approved e.name k ≡ some e.body) × IsGrant now profile token e.body
select_reads f now profile token k {e} h p =
    let IsRead : Entry Status Request → Type 0 =
      λ x. read status_dec x.dir x.name k ≡ some x.body in
    let ((r, d), g) =
      select_sound (λ x. IsRead x × (x.dir ≡ approved)) f now profile token
        (list status_dec approved k)
        (All-list status_dec IsRead approved k (All-reads status_dec k h)) p in
    (rw d at r, g)

-- No approved file answers to the profile and the token.
abbrev pub NoMatch : String → String → Files → Type 0
NoMatch profile token = All (λ x. x.dir ≡ approved → is_match profile token x.body ≡ false)

-- Where one file alone answers, the loop ends at it, wherever it stands.
pub select-insert :
    (f : Faults) (now : ℕ) (profile token : String) (e : Entry Status Request) (k : Files)
    → f.read_fails ≡ false
    → e.dir ≡ approved
    → is_match profile token e.body ≡ true
    → NoMatch profile token k
    → select f now profile token (list status_dec approved (insert e k))
      ≡ (if is_expired now e.body then err refused else ok e)
unfolding select list insert
select-insert f now profile token e [] r d m h = ground arith
select-insert f now profile token e (x ∷ k) r d m h =
    ground (arith, h.0, select-insert f now profile token e k r d m h.1)
