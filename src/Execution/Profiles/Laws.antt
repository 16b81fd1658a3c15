-- ===== src/Execution/Profiles/Laws.antt =====
-- Who is let through to run an action (internal/execution/executor.go).
use mnemosyne_os.Base.{
  ℕ, ◌<◌, String, ◌≡◌, ◌≢◌, refl, sym, ap, subst, inl, inr, true, false, Option, none, some, List,
  [], ◌∷◌, length, str_dec, arith, Bool-cases, ◌↔◌, ◌∙◌,
}
use mnemosyne_os.Base.Bytes.{
  bytes, bytes_nil, AreBytes, bytes-AreBytes, bit_or, bit_xor, bit_xor_zero, bit_xor_same,
  bit_xor-bound, bit_or-bound, bit_or_zero, bit_or_zeros,
}
use mnemosyne_os.Base.Disk.{Faults}
use mnemosyne_os.Base.Result.{Result, ok, err}
use mnemosyne_os.Base.Text.{trim_space, is_blank}
use mnemosyne_os.Approval
use mnemosyne_os.Execution.Profiles.{
  Authority, gather_differences, compare_bytes, subtle_constant_compare, check_operator,
  consumed_or_operator, authorize_root, authorize_profile,
}

gather_differences_zero :
    (acc : ℕ) (xs ys : List ℕ)
    → acc < 256
    → AreBytes xs
    → AreBytes ys
    → length xs ≡ length ys
    → gather_differences acc xs ys ≡ 0
    → (acc ≡ 0) × (xs ≡ ys)
unfolding gather_differences
gather_differences_zero acc [] [] h p q l e = (e, refl)
gather_differences_zero acc [] (y ∷ ys) h p q l e = absurd (omega arith)
gather_differences_zero acc (x ∷ xs) [] h p q l e = absurd (omega arith)
gather_differences_zero acc (x ∷ xs) (y ∷ ys) h p q l e =
    let next = bit_or 8 acc (bit_xor 8 x y) in
    let small : bit_xor 8 x y < 256 = bit_xor-bound 8 x y in
    let (zero_acc, tails) =
      gather_differences_zero next xs ys (bit_or-bound 8 acc (bit_xor 8 x y)) p.1 q.1 (omega arith)
        e in
    let parts = bit_or_zero 8 acc (bit_xor 8 x y) h small zero_acc in
    (parts.0, cc (tails, bit_xor_zero 8 x y p.0 q.0 parts.1))

gather_differences_same : (xs : List ℕ) → gather_differences 0 xs xs ≡ 0
unfolding gather_differences
gather_differences_same [] = refl
gather_differences_same (x ∷ xs) =
    rw (bit_xor_same 8 x, bit_or_zeros 8) (gather_differences_same xs)

-- The comparison in constant time is the comparison of the bytes.
pub subtle_constant_compare_iff :
    (left right : String) → (subtle_constant_compare left right ≡ true) ↔ (bytes left ≡ bytes right)
unfolding subtle_constant_compare compare_bytes
subtle_constant_compare_iff left right = (
  λ e.
      (gather_differences_zero 0 (bytes left) (bytes right) (omega arith) (bytes-AreBytes left)
        (bytes-AreBytes right) (ground arith) (ground arith)).1,
  λ e. rw (e, gather_differences_same (bytes right)) (ground arith),
)

-- Why a call was let through.
pub data Grounds (f : Faults) (now : ℕ) (profile token : String) (a : Authority) : Type 0 where
  as_user : profile ≡ "user" → Grounds f now profile token a
  by_operator :
      profile ≡ "root"
      → a.root_auth_token ≢ ""
      → bytes (trim_space token) ≡ bytes a.root_auth_token
      → Grounds f now profile token a
  by_approval :
      (s : Approval.Store) (r : Approval.Request)
      → profile ≡ "root"
      → a.approvals ≡ some s
      → (Approval.consume f now "root" token s).1 ≡ ok r
      → Grounds f now profile token a

check_operator-Grounds :
    (f : Faults) (now : ℕ) (token : String) (a b : Authority)
    → is_blank token ≡ false
    → b.root_auth_token ≡ a.root_auth_token
    → (check_operator token b).1 ≡ ok tt
    → Grounds f now "root" token a
unfolding check_operator bytes
check_operator-Grounds f now token a b n same h =
    elim (Bool-cases (subtle_constant_compare (trim_space token) b.root_auth_token)) [
      | inl e ↦
          let equal : bytes (trim_space token) ≡ bytes b.root_auth_token =
            (subtle_constant_compare_iff (trim_space token) b.root_auth_token).0 e in
          by_operator refl
            (λ p. blank_only (bytes_nil (trim_space token) (equal ∙ ap bytes (same ∙ p))))
            (equal ∙ ap bytes same)
      | inr e ↦ absurd (ground (arith, e))
    ]
  where
    blank_only : trim_space token ≢ ""
    blank_only p = ground (arith, p)

authorize_root-Grounds :
    (f : Faults) (now : ℕ) (token : String) (a : Authority)
    → is_blank token ≡ false
    → (authorize_root f now token a a.approvals).1 ≡ ok tt
    → Grounds f now "root" token a
unfolding authorize_root
authorize_root-Grounds f now token a n h = of_approvals a.approvals refl h
  where
    of_outcome :
        (s : Approval.Store) (r : Result Approval.Error Approval.Request)
        → a.approvals ≡ some s
        → (Approval.consume f now "root" token s).1 ≡ r
        → (consumed_or_operator token a ((Approval.consume f now "root" token s).0, r)).1 ≡ ok tt
        → Grounds f now "root" token a
    of_outcome s (ok r) e p k = by_approval s r refl e p
    of_outcome s (err x) e p k =
        check_operator-Grounds f now token a
          (record a { approvals = some (Approval.consume f now "root" token s).0 }) n refl k

    of_approvals :
        (o : Option Approval.Store)
        → a.approvals ≡ o
        → (authorize_root f now token a o).1 ≡ ok tt
        → Grounds f now "root" token a
    of_approvals none e k = check_operator-Grounds f now token a a n refl k
    of_approvals (some s) e k = of_outcome s (Approval.consume f now "root" token s).1 e refl k

-- An action is let through for the user's profile, and for the root profile only with the
-- operator's token, which is set, or with a token that the approvals have just used up.
pub authorize_profile-Grounds :
    (f : Faults) (now : ℕ) (profile token : String) (a : Authority)
    → (authorize_profile f now profile token a).1 ≡ ok tt
    → Grounds f now profile token a
unfolding authorize_profile
authorize_profile-Grounds f now profile token a h = elim (str_dec profile "user") [
  | yes u ↦ as_user u
  | no u ↦ elim (str_dec profile "root") [
    | yes p ↦ elim (Bool-cases (is_blank token)) [
      | inl b ↦ absurd (ground (arith, u, p, b))
      | inr b ↦
          subst (λ x. Grounds f now x token a) (sym p)
            (authorize_root-Grounds f now token a b (ground (arith, u, p, b)))
    ]
    | no p ↦ absurd (ground (arith, u, p))
  ]
]
