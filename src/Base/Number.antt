-- ===== src/Base/Number.antt =====
-- Decimal numbers, printed and read as Go's `fmt` does.
use Prim.Native.Nat.{ℕ, zero, suc, ◌+◌, ◌-◌, ◌*◌, ◌/◌, ◌%◌, ◌≤◌, ◌<◌}
use Prim.Native.Char.{Char, code}
use Prim.Native.String.{String, ◌∷◌}
use mathlib.Core.Bool.{Bool, true, ◌&&◌}
use mathlib.Core.List.{List}
use mathlib.Core.Option.{Option, none, some}
use mathlib.Core.Path.{◌≡◌, refl, sym, ◌∙◌, ap}
use native.Mathlib.Omega.{arith}
use mnemosyne_os.Base.Tests.{if◌then◌else◌, leb, Bool-cases}
use mnemosyne_os.Base.Text.{codes}
use mathlib.Core.Logic.{inl, inr}

digit : ℕ → Char
digit n =
    if leb n 0
    then "0"
    else if leb n 1
    then "1"
    else if leb n 2
    then "2"
    else if leb n 3
    then "3"
    else if leb n 4
    then "4"
    else if leb n 5
    then "5"
    else if leb n 6
    then "6"
    else if leb n 7
    then "7"
    else if leb n 8
    then "8"
    else "9"

-- The digits of `n` before `tail`; the fuel is more than their number.
decimal_before : ℕ → ℕ → String → String
unfolding digit
decimal_before zero n tail = tail
decimal_before (suc f) n tail =
    let longer = digit (n % 10) ∷ tail in
    let front = decimal_before f (n / 10) longer in if leb n 9 then longer else front

-- fmt's %d of a number that is not negative
unfoldable pub decimal : ℕ → String
unfolding decimal_before
decimal n = decimal_before (suc n) n ""

decimal_test : (decimal 0 ≡ "0") × (decimal 120975 ≡ "120975")
unfolding decimal
decimal_test = (refl, refl)

is_digit : ℕ → Bool
is_digit c = leb 48 c && leb c 57

-- fmt.Sscanf's %d after the sign: the digits at the front.
read_digits : ℕ → List ℕ → ℕ
unfolding is_digit
read_digits acc List.[] = acc
read_digits acc (List.◌∷◌ c t) =
    let more = read_digits (acc * 10 + (c - 48)) t in if is_digit c then more else acc

-- The number at the front of a text, if a digit stands there.
unfoldable pub read_number : List ℕ → Option ℕ
unfolding read_digits
read_number List.[] = none
read_number (List.◌∷◌ c t) = if is_digit c then some (read_digits (c - 48) t) else none

code-digit : (n : ℕ) → n ≤ 9 → code (digit n) ≡ 48 + n
unfolding digit
code-digit zero h = refl
code-digit (suc zero) h = refl
code-digit (suc (suc zero)) h = refl
code-digit (suc (suc (suc zero))) h = refl
code-digit (suc (suc (suc (suc zero)))) h = refl
code-digit (suc (suc (suc (suc (suc zero))))) h = refl
code-digit (suc (suc (suc (suc (suc (suc zero)))))) h = refl
code-digit (suc (suc (suc (suc (suc (suc (suc zero))))))) h = refl
code-digit (suc (suc (suc (suc (suc (suc (suc (suc zero)))))))) h = refl
code-digit (suc (suc (suc (suc (suc (suc (suc (suc (suc zero))))))))) h = refl
code-digit (suc (suc (suc (suc (suc (suc (suc (suc (suc (suc n)))))))))) h = absurd (omega arith)

is_digit_of_le : (n : ℕ) → n ≤ 9 → is_digit (48 + n) ≡ true
unfolding is_digit
is_digit_of_le n h = ground arith

is_digit-digit : (n : ℕ) → n ≤ 9 → is_digit (code (digit n)) ≡ true
is_digit-digit n h = rw (code-digit n h) (is_digit_of_le n h)

-- Reading on over one digit.
read_digits-digit :
    (acc n : ℕ) (t : List ℕ)
    → n ≤ 9
    → read_digits acc (List.◌∷◌ (code (digit n)) t) ≡ read_digits (acc * 10 + n) t
unfolding read_digits
read_digits-digit acc n t h =
    let sub : acc * 10 + (48 + n - 48) ≡ acc * 10 + n = omega arith in
    rw (code-digit n h, is_digit_of_le n h, sub)

-- The first digit printed is a digit, and the number read is the number printed.
read_digits-decimal :
    (f n : ℕ) (tail : String)
    → n < f
    → read_digits 0 (codes (decimal_before f n tail)) ≡ read_digits n (codes tail)
unfolding decimal_before
read_digits-decimal zero n tail h = absurd (omega arith)
read_digits-decimal (suc f) n tail h =
    let low : n % 10 ≤ 9 = omega arith in
    let whole : n / 10 * 10 + n % 10 ≡ n = omega arith in
    elim (Bool-cases (leb n 9)) [
      | inl small ↦
          let e : 0 * 10 + n % 10 ≡ n = ground arith in
          rw small
            (read_digits-digit 0 (n % 10) (codes tail) low ∙ ap (λ k. read_digits k (codes tail)) e)
      | inr large ↦ rw large (
          read_digits-decimal f (n / 10) (digit (n % 10) ∷ tail) (ground arith)
          ∙ read_digits-digit (n / 10) (n % 10) (codes tail) low
          ∙ ap (λ k. read_digits k (codes tail)) whole)
    ]

-- Text that begins with a digit.
abbrev StartsWithDigit : List ℕ → Type 0
StartsWithDigit List.[] = ⊥
StartsWithDigit (List.◌∷◌ c t) = is_digit c ≡ true

decimal_before-StartsWithDigit :
    (f n : ℕ) (tail : String)
    → (f ≡ 0 → StartsWithDigit (codes tail))
    → StartsWithDigit (codes (decimal_before f n tail))
unfolding decimal_before
decimal_before-StartsWithDigit zero n tail h = h refl
decimal_before-StartsWithDigit (suc f) n tail h = elim (Bool-cases (leb n 9)) [
  | inl small ↦ rw small (is_digit-digit (n % 10) (omega arith))
  | inr large ↦ rw large (
      decimal_before-StartsWithDigit f (n / 10) (digit (n % 10) ∷ tail)
        (λ _. is_digit-digit (n % 10) (omega arith)))
]

read_number_of_digits : (t : List ℕ) → StartsWithDigit t → read_number t ≡ some (read_digits 0 t)
unfolding read_number read_digits
read_number_of_digits List.[] h = absurd h
read_number_of_digits (List.◌∷◌ c t) h =
    let e : 0 * 10 + (c - 48) ≡ c - 48 = omega arith in rw (h, e)

-- A printed number is read back.
pub read_number-decimal : (n : ℕ) → read_number (codes (decimal n)) ≡ some n
unfolding decimal read_digits
read_number-decimal n =
    read_number_of_digits _
      (decimal_before-StartsWithDigit (suc n) n "" (λ e. absurd (omega arith)))
    ∙ ap some (read_digits-decimal (suc n) n "" (omega arith))

-- Different numbers are printed differently.
pub decimal_injective : (m n : ℕ) → decimal m ≡ decimal n → m ≡ n
decimal_injective m n e =
    let same : some m ≡ some n =
      sym (read_number-decimal m) ∙ ap (λ t. read_number (codes t)) e ∙ read_number-decimal n in
    cc
