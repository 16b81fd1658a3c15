-- ===== src/Memory/Files.antt =====
-- The names of the snapshot files, as bytes (internal/memory/store.go).
use mathlib.Core.List.{append_cancel_right}
use mnemosyne_os.Base.Bytes.{bytes, AreBytes, bytes-AreBytes}
use mnemosyne_os.Base.{
  ℕ, ◌+◌, ◌/◌, ◌%◌, ◌<◌, ◌≡◌, refl, String, List, [], ◌∷◌, ◌++◌, arith, ltb, if◌then◌else◌, decided,
  ℕ_discrete,
}

hex_digit : ℕ → ℕ
hex_digit n = if ltb n 10 then 48 + n else 87 + n

-- hex.EncodeToString
unfoldable pub hex : List ℕ → List ℕ
unfolding hex_digit
hex [] = []
hex (b ∷ bs) = hex_digit (b / 16) ∷ hex_digit (b % 16) ∷ hex bs

abbrev pub suffix : List ℕ
suffix = b'.' ∷ b'j' ∷ b's' ∷ b'o' ∷ b'n' ∷ []

-- `cardFileName` and `edgeFileName`
unfoldable pub file_name : String → List ℕ
unfolding hex bytes
file_name id = hex (bytes id) ++ suffix

-- strings.NewReplacer("/", "__", ":", "_", " ", "_")
replace_byte : ℕ → List ℕ
replace_byte b =
    if decided (ℕ_discrete b b'/')
    then b'_' ∷ b'_' ∷ []
    else if decided (ℕ_discrete b b':')
    then b'_' ∷ []
    else if decided (ℕ_discrete b b' ')
    then b'_' ∷ []
    else b ∷ []

replace_bytes : List ℕ → List ℕ
unfolding replace_byte
replace_bytes [] = []
replace_bytes (b ∷ bs) = replace_byte b ++ replace_bytes bs

-- `legacyMemoryFileName`
unfoldable pub legacy_name : String → List ℕ
unfolding replace_bytes bytes
legacy_name id = replace_bytes (bytes id) ++ suffix

pub name_dec : Discrete (List ℕ)
name_dec = hlevel ℕ_discrete

legacy_name_test : legacy_name "6162" ≡ file_name "ab"
unfolding legacy_name file_name ℕ_discrete
legacy_name_test = refl

hex_digit_injective : (m n : ℕ) → m < 16 → n < 16 → hex_digit m ≡ hex_digit n → m ≡ n
unfolding hex_digit
hex_digit_injective m n h k e = ground arith

-- Different names have different encodings.
hex_injective : (xs ys : List ℕ) → AreBytes xs → AreBytes ys → hex xs ≡ hex ys → xs ≡ ys
unfolding hex
hex_injective [] [] h k e = refl
hex_injective [] (y ∷ ys) h k e = cc
hex_injective (x ∷ xs) [] h k e = cc
hex_injective (x ∷ xs) (y ∷ ys) h k e =
    let high : hex_digit (x / 16) ≡ hex_digit (y / 16) = cc in
    let low : hex_digit (x % 16) ≡ hex_digit (y % 16) = cc in
    let tails : hex xs ≡ hex ys = cc in
    let same : x ≡ y = omega (
      arith,
      hex_digit_injective (x / 16) (y / 16) (omega arith) (omega arith) high,
      hex_digit_injective (x % 16) (y % 16) (omega arith) (omega arith) low,
    ) in
    cc (same, hex_injective xs ys h.1 k.1 tails)

-- Two identifiers that go to one file have the same bytes.
pub file_name_injective : (a b : String) → file_name a ≡ file_name b → bytes a ≡ bytes b
unfolding file_name
file_name_injective a b e =
    hex_injective (bytes a) (bytes b) (bytes-AreBytes a) (bytes-AreBytes b)
      (append_cancel_right (hex (bytes a)) (hex (bytes b)) suffix e)
