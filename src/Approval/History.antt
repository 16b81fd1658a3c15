-- ===== src/Approval/History.antt =====
-- Any sequence of calls on the approval store.
use mnemosyne_os.Base.{
  Bool, true, false, Bool-cases, ℕ, String, ◌≡◌, ◌≢◌, ◌⊎◌, Option, none, some, inl, inr, decided,
  if_rule, not,
}
use mnemosyne_os.Base.Result.{Result, ok, err}
use mnemosyne_os.Base.Disk.{Faults, read, remove}
use mnemosyne_os.Base.Disk.Laws.{Absent}
use mnemosyne_os.Approval.Shrinking.{
  TokensDiffer-Shrinks, remove-Shrinks, deny-Shrinks, consume-Shrinks, create-Shrinks,
  grant-TokensDiffer,
}
use mnemosyne_os.Approval.Losses.{KeepsRequests, create-Kept, approve-Kept, deny-Kept, consume-Kept}
use mnemosyne_os.Approval.Tokens.{TokensDiffer}
use mnemosyne_os.Approval.Invariant.{
  IsTidy, create-IsTidy, approve-IsTidy, deny-IsTidy, consume-IsTidy,
}
use mnemosyne_os.Approval.{
  Status, pending, approved, status_dec, Error, Request, CreateRequest, Store, Outcome,
  approval_id_at, write_locked, replace, create, consume, grant, approve_found, approve, deny,
}

pub data Call : Type 0 where
  creates : Faults → ℕ → CreateRequest → Call
  approves : Faults → ℕ → Option String → String → String → Call
  denies : Faults → ℕ → String → String → String → Call
  consumes : Faults → ℕ → String → String → Call

unfoldable pub perform : Call → Store → Store
perform (creates f now req) s = (create f now req s).0
perform (approves f now token id by) s = (approve f now token id by s).0
perform (denies f now id by reason) s = (deny f now id by reason s).0
perform (consumes f now profile token) s = (consume f now profile token s).0

-- The clock gives a new identifier, and crypto/rand a token that no approved request holds.
abbrev pub IsFresh : Call → Store → Type 0
IsFresh (creates f now req) s = Absent (approval_id_at now) s.files
IsFresh (approves f now (some token) id by) s =
    (n : String) (r : Request)
    → read status_dec approved n s.files ≡ some r
    → r.approval_token ≢ token
IsFresh _ s = Unit

pub record IsSound (s : Store) : Type 0 where
  pub tidy : IsTidy s
  pub differ : TokensDiffer s

perform-IsTidy : (c : Call) (s : Store) → IsTidy s → IsFresh c s → IsTidy (perform c s)
unfolding perform
perform-IsTidy (creates f now req) s h a = create-IsTidy f now req s h a
perform-IsTidy (approves f now token id by) s h a = approve-IsTidy f now token id by s h
perform-IsTidy (denies f now id by reason) s h a = deny-IsTidy f now id by reason s h
perform-IsTidy (consumes f now profile token) s h a = consume-IsTidy f now profile token s h

abbrev DifferAfter : Outcome → Type 0
DifferAfter o = TokensDiffer o.0

approve_found-TokensDiffer :
    (f : Faults) (now : ℕ) (token : Option String) (id by : String) (s : Store)
    (found : Result Error (Status × Request))
    → TokensDiffer s
    → IsFresh (approves f now token id by) s
    → TokensDiffer (approve_found f now token id by s found).0
unfolding approve_found replace write_locked
approve_found-TokensDiffer f now token id by s (err x) u a = u
approve_found-TokensDiffer f now none id by s (ok (d, r)) u a =
    if_rule DifferAfter (not (decided (status_dec r.status pending))) (λ _. u) (λ _. u)
approve_found-TokensDiffer f now (some t) id by s (ok (d, r)) u a =
    if_rule DifferAfter (not (decided (status_dec r.status pending))) (λ _. u)
      λ _.
        if_rule DifferAfter f.remove_fails (λ _. u)
          λ _.
            if_rule DifferAfter f.write_fails
              (λ _.
                TokensDiffer-Shrinks s (record s { files = remove status_dec d id s.files })
                  (remove-Shrinks d id s.files) u)
              (λ _. grant-TokensDiffer id r.approval_id d (grant now s.default_ttl t by r) s u a)

perform-TokensDiffer :
    (c : Call) (s : Store) → TokensDiffer s → IsFresh c s → TokensDiffer (perform c s)
unfolding perform approve
perform-TokensDiffer (creates f now req) s u a =
    TokensDiffer-Shrinks s (create f now req s).0 (create-Shrinks f now req s) u
perform-TokensDiffer (approves f now token id by) s u a =
    approve_found-TokensDiffer f now token id by s _ u a
perform-TokensDiffer (denies f now id by reason) s u a =
    TokensDiffer-Shrinks s (deny f now id by reason s).0 (deny-Shrinks f now id by reason s) u
perform-TokensDiffer (consumes f now profile token) s u a =
    TokensDiffer-Shrinks s (consume f now profile token s).0 (consume-Shrinks f now profile token s)
      u

abbrev pub write_refused : Call → Bool
write_refused (creates f now req) = f.write_fails
write_refused (approves f now token id by) = f.write_fails
write_refused (denies f now id by reason) = f.write_fails
write_refused (consumes f now profile token) = f.write_fails

perform-Kept :
    (c : Call) (s : Store)
    → write_refused c ≡ false
    → IsTidy s
    → IsFresh c s
    → KeepsRequests s (perform c s)
unfolding perform
perform-Kept (creates f now req) s writes h a = create-Kept f writes s h now req a
perform-Kept (approves f now token id by) s writes h a = approve-Kept f writes s h now token id by
perform-Kept (denies f now id by reason) s writes h a = deny-Kept f writes s h now id by reason
perform-Kept (consumes f now profile token) s writes h a =
    consume-Kept f writes s h now profile token

-- Every call, whatever the operating system refuses of it, keeps the store sound.
pub perform-IsSound : (c : Call) (s : Store) → IsSound s → IsFresh c s → IsSound (perform c s)
perform-IsSound c s h a = record {
  tidy = perform-IsTidy c s h.tidy a;
  differ = perform-TokensDiffer c s h.differ a;
}

-- The stores that fresh calls lead to from the given one.
pub data Reach (s : Store) : Store → Type 0 where
  here : Reach s s
  next : {t : Store} (c : Call) → Reach s t → IsFresh c t → Reach s (perform c t)

reached : {s t : Store} → IsSound s → Reach s t → IsSound t
reached h here = h
reached h (next {t} c r a) = perform-IsSound c t (reached h r) a

-- Some call on the way could not write a file.
abbrev pub IsWriteRefused : {s t : Store} → Reach s t → Type 0
IsWriteRefused here = ⊥
IsWriteRefused (next c r a) = (write_refused c ≡ true) ⊎ IsWriteRefused r

no_loss : {s t : Store} (path : Reach s t) → IsSound s → KeepsRequests s t ⊎ IsWriteRefused path
no_loss here h = inl (λ n stored. stored)
no_loss {s} (next {t} c r a) h = elim (no_loss r h) [
  | inr refused ↦ inr (inr refused)
  | inl kept ↦ elim (Bool-cases (write_refused c)) [
    | inl refused ↦ inr (inl refused)
    | inr writes ↦ inl (λ n stored. perform-Kept c t writes (reached h r).tidy a n (kept n stored))
  ]
]

-- Fresh calls, whatever is refused of them, keep a sound store sound: at most one file for each
-- request, in the directory of its status, a token on approved requests only, and no token twice. No
-- request is lost, unless a call on the way could not write a file.
pub Reach-IsSound :
    {s t : Store}
    → IsSound s
    → (path : Reach s t) → IsSound t × (KeepsRequests s t ⊎ IsWriteRefused path)
Reach-IsSound h path = (reached h path, no_loss path h)
