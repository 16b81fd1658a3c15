-- ===== src/Chat/Sessions/Titles.antt =====
-- `deriveSessionTitle` of internal/chat/store.go.
use Prim.Native.Char.{code}
use Prim.Native.String.{◌∷◌, ◌++◌, []}
use mnemosyne_os.Base.{
  ℕ, zero, suc, ◌-◌, ◌≡◌, refl, String, if◌then◌else◌, decided, str_dec, leb, ltb, length,
  ℕ_discrete,
}
use mnemosyne_os.Base.Bytes.{bytes}
use mnemosyne_os.Base.Text.{trim_space}

-- strings.ReplaceAll(text, "\n", " ")
newlines_to_spaces : String → String
unfolding ℕ_discrete
newlines_to_spaces [] = []
newlines_to_spaces (c ∷ s) =
    (if decided (ℕ_discrete (code c) 10) then " " else c) ∷ newlines_to_spaces s

abbrev byte_length : String → ℕ
byte_length s = length (bytes s)

-- What is left of a character that was cut: JSON writes the mark of an error for each byte.
cut_marks : ℕ → String
cut_marks zero = ""
cut_marks (suc n) = "�" ++ cut_marks n

-- `text[:n]`, as it is read back from its file.
take_bytes : ℕ → String → String
unfolding cut_marks
take_bytes n [] = []
take_bytes n (c ∷ s) =
    let width = byte_length (c ∷ []) in
    let rest = take_bytes (n - width) s in if leb width n then c ∷ rest else cut_marks n

unfoldable pub derive_session_title : String → String
unfolding newlines_to_spaces take_bytes
derive_session_title content =
    let line = trim_space (newlines_to_spaces content) in
    if decided (str_dec line "")
    then "New Session"
    else if ltb 56 (byte_length line)
    then take_bytes 56 line ++ "..."
    else line

title_test : derive_session_title "ab\ncd " ≡ "ab cd"
unfolding derive_session_title trim_space str_dec bytes
title_test = refl
