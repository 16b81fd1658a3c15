-- ===== src/Base/Float.antt =====
-- Go's float64, of which the programs only use these operations. The numbers are a parameter: what
-- is proved holds for any arithmetic.
use Prim.Native.Nat.{ℕ, ◌+◌, ◌-◌, ◌*◌, ◌/◌}
use native.Mathlib.Decide.{ℕ_discrete}
use mathlib.Core.Bool.{Bool}
use mnemosyne_os.Base.Tests.{ltb, leb, if◌then◌else◌, decided}

-- `literal m n` is the number nearest to m / n.
pub record Float64 (Num : Type 0) : Type 0 where
  pub zero : Num
  pub one : Num
  pub literal : ℕ → ℕ → Num
  pub of_nat : ℕ → Num
  pub add : Num → Num → Num
  pub sub : Num → Num → Num
  pub mul : Num → Num → Num
  pub div : Num → Num → Num
  pub min : Num → Num → Num
  pub max : Num → Num → Num
  pub eq : Num → Num → Bool
  pub lt : Num → Num → Bool
  pub le : Num → Num → Bool

-- Whole numbers in place of floating-point ones, for tests.
abbrev pub whole : Float64 ℕ
whole = record {
  zero = 0;
  one = 1;
  literal = λ m n. m / n;
  of_nat = λ n. n;
  add = λ m n. m + n;
  sub = λ m n. m - n;
  mul = λ m n. m * n;
  div = λ m n. m / n;
  min = λ m n. if leb m n then m else n;
  max = λ m n. if leb m n then n else m;
  eq = λ m n. decided (ℕ_discrete m n);
  lt = ltb;
  le = leb;
}
