-- ===== src/Recall/Snippets.antt =====
-- The snippets of internal/recall/service.go: pieces of a text, cut by bytes.
use mathlib.Core.List.{reverse}
use mnemosyne_os.Base.{
  ℕ, zero, suc, ◌+◌, ◌-◌, ◌/◌, ◌<◌, ◌≡◌, refl, ◌↔◌, Bool, false, ◌||◌, ◌&&◌, Option, none, some,
  List, [], ◌∷◌, ◌++◌, map, arith, if◌then◌else◌, decided, leb, ltb, length, ℕ_discrete, take, drop,
}
use mnemosyne_os.Base.Bytes.{utf8}
use mnemosyne_os.Base.Text.{has_prefix, is_space, to_lower}

-- A text as code points, and its bytes.
unfoldable pub bytes_of : List ℕ → List ℕ
unfolding utf8
bytes_of [] = []
bytes_of (c ∷ t) = utf8 c ++ bytes_of t

trim_left : List ℕ → List ℕ
trim_left [] = []
trim_left (c ∷ t) = if is_space c then trim_left t else c ∷ t

-- strings.TrimSpace, on code points
unfoldable pub trim : List ℕ → List ℕ
unfolding trim_left
trim t = reverse (trim_left (reverse (trim_left t)))

-- "\r\n" and then "\n" become a space.
unfoldable pub on_one_line : List ℕ → List ℕ
on_one_line [] = []
on_one_line (c ∷ []) = (if decided (ℕ_discrete c 10) then 32 else c) ∷ []
on_one_line (c ∷ d ∷ t) =
    let after_both = on_one_line t in
    let after_one = on_one_line (d ∷ t) in
    if decided (ℕ_discrete c 13) && decided (ℕ_discrete d 10)
    then 32 ∷ after_both
    else (if decided (ℕ_discrete c 10) then 32 else c) ∷ after_one

-- strings.Index
unfoldable pub index : List ℕ → List ℕ → Option ℕ
index [] p = if has_prefix p [] then some 0 else none
index (c ∷ t) p =
    let later = index t p in
    if has_prefix p (c ∷ t) then some 0 else elim later [ none ↦ none | some i ↦ some (suc i) ]

abbrev ellipsis : List ℕ
ellipsis = 46 ∷ 46 ∷ 46 ∷ []

abbrev pub cut : ℕ → List ℕ → List ℕ
cut max b = if leb max 3 then take max b else take (max - 3) b ++ ellipsis

abbrev least : ℕ → ℕ → ℕ
least a b = if ltb b a then b else a

-- `text[start:end]` with the marks of what is left out; `none` is a panic, the bounds crossed.
piece : ℕ → ℕ → List ℕ → Option (List ℕ)
piece start max b =
    let end = least (start + max) (length b) in
    if ltb end start
    then none
    else some (
        (if ltb 0 start then ellipsis else [])
        ++ (take (end - start) (drop start b) ++ (if ltb end (length b) then ellipsis else [])))

around : Option ℕ → ℕ → List ℕ → Option (List ℕ)
unfolding piece
around none max b = some (cut max b)
around (some i) max b = piece (i - max / 3) max b

-- Where the token stands in the text of small letters.
unfoldable pub match_at : (ℕ → ℕ) → List ℕ → List ℕ → Option ℕ
unfolding index bytes_of
match_at fold text token =
    index (bytes_of (map (to_lower fold) text)) (bytes_of (map (to_lower fold) token))

-- `none` is a panic.
unfoldable pub snippet_around_match : (ℕ → ℕ) → List ℕ → List ℕ → ℕ → Option (List ℕ)
unfolding match_at around bytes_of
snippet_around_match fold text token max =
    let line = trim (on_one_line text) in
    let b = bytes_of line in
    if leb (length b) max
    then some b
    else elim token [ [] ↦ some (cut max b) | c ∷ t ↦ around (match_at fold line (c ∷ t)) max b ]

abbrev within : ℕ → ℕ → List ℕ → Bool
within lo hi [] = false
within lo hi (c ∷ t) = leb lo c && leb c hi

-- How many bytes of a space, in UTF-8, stand at the front.
space_width : List ℕ → ℕ
space_width t =
    if within 9 13 t || within 32 32 t
    then 1
    else if has_prefix (0xc2 ∷ 0x85 ∷ []) t || has_prefix (0xc2 ∷ 0xa0 ∷ []) t
    then 2
    else if has_prefix (0xe1 ∷ 0x9a ∷ 0x80 ∷ []) t
        || (has_prefix (0xe2 ∷ 0x80 ∷ []) t
            && (within 0x80 0x8a (drop 2 t)
                || within 0xa8 0xa9 (drop 2 t)
                || within 0xaf 0xaf (drop 2 t)))
        || has_prefix (0xe2 ∷ 0x81 ∷ 0x9f ∷ []) t
        || has_prefix (0xe3 ∷ 0x80 ∷ 0x80 ∷ []) t
    then 3
    else 0

-- Of the spaces at the end, seen from the last byte on.
space_width_back : List ℕ → ℕ
unfolding space_width
space_width_back t =
    if leb 1 (space_width (take 1 t))
    then 1
    else if leb 2 (space_width (reverse (take 2 t)))
    then 2
    else if leb 3 (space_width (reverse (take 3 t)))
    then 3
    else 0

-- The fuel is the number of bytes.
drop_spaces : ℕ → (List ℕ → ℕ) → List ℕ → List ℕ
drop_spaces zero width t = t
drop_spaces (suc f) width t =
    let rest = drop_spaces f width (drop (width t) t) in if leb 1 (width t) then rest else t

-- strings.TrimSpace, on bytes that need not be whole characters
unfoldable pub trim_bytes : List ℕ → List ℕ
unfolding space_width space_width_back drop_spaces
trim_bytes t =
    let front = drop_spaces (length t) space_width t in
    reverse (drop_spaces (length front) space_width_back (reverse front))

trim_bytes_test :
    trim_bytes (32 ∷ 0xc2 ∷ 0xa0 ∷ 65 ∷ 32 ∷ 66 ∷ 0xe3 ∷ 0x80 ∷ 0x80 ∷ []) ≡ 65 ∷ 32 ∷ 66 ∷ []
unfolding trim_bytes has_prefix ℕ_discrete
trim_bytes_test = refl

piece-none :
    (i max : ℕ) (b : List ℕ)
    → max < length b
    → (piece (i - max / 3) max b ≡ none) ↔ (length b + max / 3 < i)
unfolding piece
piece-none i max b long = ((λ e. ground (arith, e, long)), (λ h. ground (arith, h, long)))

-- A text longer than `max` whose small letters hold a token panics exactly when the token stands
-- there more than a third of `max` beyond the end of the text itself.
pub snippet_around_match_panics :
    (fold : ℕ → ℕ) (text : List ℕ) (c : ℕ) (t : List ℕ) (max : ℕ) {i : ℕ}
    → max < length (bytes_of (trim (on_one_line text)))
    → match_at fold (trim (on_one_line text)) (c ∷ t) ≡ some i
    → (snippet_around_match fold text (c ∷ t) max ≡ none)
      ↔ (length (bytes_of (trim (on_one_line text))) + max / 3 < i)
unfolding snippet_around_match around piece
snippet_around_match_panics fold text c t max {i} long found =
    let b = bytes_of (trim (on_one_line text)) in
    let cut_there : snippet_around_match fold text (c ∷ t) max ≡ piece (i - max / 3) max b =
      ground (arith, long, found) in
    rw cut_there (piece-none i max b long)
