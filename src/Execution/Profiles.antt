-- ===== src/Execution/Profiles.antt =====
-- internal/execution/executor.go: whether a profile may run an action.
pub mod Laws
use mnemosyne_os.Base.{
  ℕ, String, Bool, true, false, not, Option, none, some, List, [], ◌∷◌, length, if◌then◌else◌,
  decided, str_dec, ℕ_discrete, ◌&&◌,
}
use mnemosyne_os.Base.Bytes.{bytes, bit_or, bit_xor}
use mnemosyne_os.Base.Disk.{Faults}
use mnemosyne_os.Base.Result.{Result, ok, err}
use mnemosyne_os.Base.Text.{trim_space, is_blank}
use mnemosyne_os.Approval
use mnemosyne_os.Execution.{Error, denied}

-- What the executor knows: the operator's token, and the approvals where they are kept.
pub record Authority : Type 0 where
  pub root_auth_token : String
  pub approvals : Option Approval.Store

-- `NewExecutorWithApprovals`
unfoldable pub new_authority : String → Option Approval.Store → Authority
new_authority token approvals = record { root_auth_token = trim_space token; approvals = approvals }

-- The differences gathered over the bytes of two texts of one length.
gather_differences : ℕ → List ℕ → List ℕ → ℕ
gather_differences acc (x ∷ xs) (y ∷ ys) = gather_differences (bit_or 8 acc (bit_xor 8 x y)) xs ys
gather_differences acc _ _ = acc

compare_bytes : List ℕ → List ℕ → Bool
unfolding gather_differences
compare_bytes xs ys =
    if not (decided (ℕ_discrete (length xs) (length ys)))
    then false
    else decided (ℕ_discrete (gather_differences 0 xs ys) 0)

unfoldable pub subtle_constant_compare : String → String → Bool
unfolding compare_bytes
subtle_constant_compare left right = compare_bytes (bytes left) (bytes right)

abbrev has_approvals : Option Approval.Store → Bool
has_approvals none = false
has_approvals (some _) = true

check_operator : String → Authority → Authority × Result Error (Unit {0})
check_operator token a =
    if subtle_constant_compare (trim_space token) a.root_auth_token
    then (a, ok tt)
    else (a, err denied)

-- After `Consume`, whose change of the approvals stays also where it fails.
consumed_or_operator :
    String
    → Authority
    → Approval.Store × Result Approval.Error Approval.Request
    → Authority × Result Error (Unit {0})
unfolding check_operator
consumed_or_operator token a (s, ok _) = (record a { approvals = some s }, ok tt)
consumed_or_operator token a (s, err _) = check_operator token (record a { approvals = some s })

-- The root profile, with the approvals where there are any.
authorize_root :
    Faults → ℕ → String → Authority → Option Approval.Store → Authority × Result Error (Unit {0})
unfolding check_operator consumed_or_operator
authorize_root f now token a none = check_operator token a
authorize_root f now token a (some s) =
    consumed_or_operator token a (Approval.consume f now "root" token s)

-- `authorizeProfile`, with what the operating system refuses in the course of `Consume`.
unfoldable pub authorize_profile :
    Faults → ℕ → String → String → Authority → Authority × Result Error (Unit {0})
unfolding authorize_root
authorize_profile f now profile token a =
    if decided (str_dec profile "user")
    then (a, ok tt)
    else if not (decided (str_dec profile "root"))
    then (a, err denied)
    else if decided (str_dec a.root_auth_token "") && not (has_approvals a.approvals)
    then (a, err denied)
    else if is_blank token
    then (a, err denied)
    else authorize_root f now token a a.approvals
