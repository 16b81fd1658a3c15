-- ===== src/Base/Text.antt =====
-- What the program uses of Go's `strings` package.
pub mod Search
use Prim.Native.Nat.{ℕ, zero, suc, ◌+◌, ◌-◌, ◌*◌, ◌/◌, ◌%◌, ◌≤◌}
use Prim.Native.Char.{Char, code}
use Prim.Native.String.{String, [], ◌∷◌, ◌++◌}
use mathlib.Core.List.{List, map}
use mathlib.Core.List
use native.Mathlib.Decide.{ℕ_discrete}
use mathlib.Core.Bool.{Bool, true, false, ◌&&◌, ◌||◌}
use mathlib.Core.Option.{Option, none, some}
use native.Mathlib.Omega.{arith}
use mathlib.Core.Path.{◌≡◌, refl}
use mnemosyne_os.Base.Tests.{leb, if◌then◌else◌, str_dec, decided}

between : ℕ → ℕ → ℕ → Bool
between lo hi c = leb lo c && leb c hi

-- unicode.IsSpace, on code points.
unfoldable pub is_space : ℕ → Bool
unfolding between
is_space c =
    between 0x09 0x0d c
    || between 0x20 0x20 c
    || between 0x85 0x85 c
    || between 0xa0 0xa0 c
    || between 0x1680 0x1680 c
    || between 0x2000 0x200a c
    || between 0x2028 0x2029 c
    || between 0x202f 0x202f c
    || between 0x205f 0x205f c
    || between 0x3000 0x3000 c

trim_left : String → String
unfolding is_space
trim_left [] = []
trim_left (c ∷ s) = if is_space (code c) then trim_left s else c ∷ s

trim_right : String → String
unfolding is_space
trim_right [] = []
trim_right (c ∷ s) =
    let rest = trim_right s in
    if decided (str_dec rest "") then (if is_space (code c) then [] else c ∷ []) else c ∷ rest

-- strings.TrimSpace
unfoldable pub trim_space : String → String
unfolding trim_left trim_right str_dec
trim_space s = trim_right (trim_left s)

abbrev pub is_blank : String → Bool
is_blank s = decided (str_dec (trim_space s) "")

trim_test : trim_space "  a b\t" ≡ "a b"
unfolding trim_space
trim_test = refl

-- strings.ToLower: the ASCII letters, and Unicode's table for the code points above them.
unfoldable pub to_lower : (ℕ → ℕ) → ℕ → ℕ
unfolding between
to_lower fold c = if between 0x41 0x5a c then c + 32 else if leb c 0x7f then c else fold c

abbrev pub codes : String → List ℕ
codes [] = List.[]
codes (c ∷ s) = List.◌∷◌ (code c) (codes s)

unfoldable pub has_prefix : List ℕ → List ℕ → Bool
has_prefix List.[] t = true
has_prefix (List.◌∷◌ c p) List.[] = false
has_prefix (List.◌∷◌ c p) (List.◌∷◌ d t) = decided (ℕ_discrete c d) && has_prefix p t

-- strings.Contains, the text first
unfoldable pub contains : List ℕ → List ℕ → Bool
unfolding has_prefix ℕ_discrete
contains List.[] p = has_prefix p List.[]
contains (List.◌∷◌ c t) p = has_prefix p (List.◌∷◌ c t) || contains t p
