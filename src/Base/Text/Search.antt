-- ===== src/Base/Text/Search.antt =====
-- Laws of `contains`.
use Prim.Native.Nat.{ℕ}
use mathlib.Core.Bool.{true}
use mathlib.Core.List.{List, [], ◌∷◌, ◌++◌}
use mathlib.Core.Path.{◌≡◌, refl}
use native.Mathlib.Omega.{arith}
use mnemosyne_os.Base.Text.{has_prefix, contains}

has_prefix-append : (p q t : List ℕ) → has_prefix (p ++ q) t ≡ true → has_prefix p t ≡ true
unfolding has_prefix
has_prefix-append [] q t h = refl
has_prefix-append (c ∷ p) q [] h = h
has_prefix-append (c ∷ p) q (d ∷ t) h = ground (arith, has_prefix-append p q t)

-- A text that contains a longer word contains its beginning.
pub contains-append : (t p q : List ℕ) → contains t (p ++ q) ≡ true → contains t p ≡ true
unfolding contains
contains-append [] p q h = has_prefix-append p q [] h
contains-append (c ∷ t) p q h = ground (arith, has_prefix-append p q (c ∷ t), contains-append t p q)
