-- ===== src/Base/Bytes.antt =====
-- The bytes of Go's strings, and of single bytes the operations on their digits.
use Prim.Native.Char.{code}
use mnemosyne_os.Base.{
  ℕ, zero, suc, ◌+◌, ◌*◌, ◌/◌, ◌%◌, ◌<◌, ◌≡◌, ◌≢◌, refl, String, List, [], ◌∷◌, ◌++◌, arith, ltb,
  if◌then◌else◌, All, All-append,
}

-- The UTF-8 form of a code point, and of a text.
unfoldable pub utf8 : ℕ → List ℕ
utf8 c =
    if ltb c 0x80
    then c ∷ []
    else if ltb c 0x800
    then (0xc0 + c / 0x40) ∷ (0x80 + c % 0x40) ∷ []
    else if ltb c 0x10000
    then (0xe0 + c / 0x1000) ∷ (0x80 + c / 0x40 % 0x40) ∷ (0x80 + c % 0x40) ∷ []
    else ((0xf0 + c / 0x40000) % 0x100)
      ∷ (0x80 + c / 0x1000 % 0x40)
      ∷ (0x80 + c / 0x40 % 0x40)
      ∷ (0x80 + c % 0x40)
      ∷ []

unfoldable pub bytes : String → List ℕ
unfolding utf8
bytes String.[] = []
bytes (String.◌∷◌ c s) = utf8 (code c) ++ bytes s

abbrev pub AreBytes : List ℕ → Type 0
AreBytes = All (λ b. b < 256)

utf8-AreBytes : (c : ℕ) → AreBytes (utf8 c)
unfolding utf8
utf8-AreBytes c = ground arith

pub bytes-AreBytes : (s : String) → AreBytes (bytes s)
unfolding bytes
bytes-AreBytes String.[] = tt
bytes-AreBytes (String.◌∷◌ c s) =
    All-append (λ b. b < 256) (utf8 (code c)) (bytes s) (utf8-AreBytes (code c)) (bytes-AreBytes s)

-- `^` and `|`, on so many digits.
unfoldable pub bit_xor : ℕ → ℕ → ℕ → ℕ
bit_xor zero a b = 0
bit_xor (suc k) a b = (a % 2 + b % 2) % 2 + 2 * bit_xor k (a / 2) (b / 2)

unfoldable pub bit_or : ℕ → ℕ → ℕ → ℕ
bit_or zero a b = 0
bit_or (suc k) a b = (if ltb (a % 2 + b % 2) 1 then 0 else 1) + 2 * bit_or k (a / 2) (b / 2)

-- The numbers of so many digits.
abbrev pub bound : ℕ → ℕ
bound zero = 1
bound (suc k) = 2 * bound k

pub bit_xor_zero : (k a b : ℕ) → a < bound k → b < bound k → bit_xor k a b ≡ 0 → a ≡ b
unfolding bit_xor
bit_xor_zero zero a b h g e = omega arith
bit_xor_zero (suc k) a b h g e =
    omega (arith, bit_xor_zero k (a / 2) (b / 2) (omega arith) (omega arith) (omega arith))

pub bit_xor_same : (k a : ℕ) → bit_xor k a a ≡ 0
unfolding bit_xor
bit_xor_same zero a = refl
bit_xor_same (suc k) a = omega (arith, bit_xor_same k (a / 2))

pub bit_xor-bound : (k a b : ℕ) → bit_xor k a b < bound k
unfolding bit_xor
bit_xor-bound zero a b = omega arith
bit_xor-bound (suc k) a b = omega (arith, bit_xor-bound k (a / 2) (b / 2))

pub bit_or-bound : (k a b : ℕ) → bit_or k a b < bound k
unfolding bit_or
bit_or-bound zero a b = omega arith
bit_or-bound (suc k) a b = ground (arith, bit_or-bound k (a / 2) (b / 2))

pub bit_or_zero : (k a b : ℕ) → a < bound k → b < bound k → bit_or k a b ≡ 0 → (a ≡ 0) × (b ≡ 0)
unfolding bit_or
bit_or_zero zero a b h g e = (omega arith, omega arith)
bit_or_zero (suc k) a b h g e =
    ground (arith, bit_or_zero k (a / 2) (b / 2) (omega arith) (omega arith))

pub bit_or_zeros : (k : ℕ) → bit_or k 0 0 ≡ 0
unfolding bit_or
bit_or_zeros zero = refl
bit_or_zeros (suc k) = ground (arith, bit_or_zeros k)

utf8_is_some : (c : ℕ) (bs : List ℕ) → utf8 c ++ bs ≢ []
unfolding utf8
utf8_is_some c bs e = ground arith

pub bytes_nil : (s : String) → bytes s ≡ [] → s ≡ ""
unfolding bytes
bytes_nil String.[] e = refl
bytes_nil (String.◌∷◌ c s) e = absurd (utf8_is_some (code c) (bytes s) e)
