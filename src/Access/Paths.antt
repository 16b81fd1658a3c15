-- ===== src/Access/Paths.antt =====
-- What internal/fsaccess uses of Go's `path/filepath`, on Unix and for absolute paths. A path that
-- has been cleaned is the list of its parts: "/a/b" is "a", "b", and "/" has none.
pub mod Laws
use mathlib.Core.List.{reverse}
use mnemosyne_os.Base.{
  ℕ, String, Bool, true, false, ◌||◌, Option, none, some, List, [], ◌∷◌, ◌++◌, if◌then◌else◌,
  decided, ℕ_discrete,
}

abbrev pub Part : Type 0
Part = List ℕ

unfoldable pub part_dec : Discrete Part
part_dec = hlevel (ℕ_discrete)

abbrev pub Location : Type 0
Location = List Part

abbrev pub slash : ℕ
slash = 47

abbrev pub dot : Part
dot = 46 ∷ []

abbrev pub dot_dot : Part
dot_dot = 46 ∷ 46 ∷ []

longer : ℕ → List Part → List Part
longer c [] = (c ∷ []) ∷ []
longer c (p ∷ ps) = (c ∷ p) ∷ ps

-- The parts between the separators.
unfoldable pub split_at : ℕ → List ℕ → List Part
unfolding longer
split_at sep [] = [] ∷ []
split_at sep (c ∷ t) =
    let rest = split_at sep t in if decided (ℕ_discrete c sep) then [] ∷ rest else longer c rest

abbrev pub split : List ℕ → List Part
split = split_at slash

abbrev tail : List Part → List Part
tail [] = []
tail (p ∷ ps) = ps

-- One part of a path on the parts before it, the last of them first.
step : List Part → Part → List Part
step stack part =
    if decided (part_dec part []) || decided (part_dec part dot)
    then stack
    else if decided (part_dec part dot_dot)
    then tail stack
    else part ∷ stack

clean_onto : List Part → List Part → List Part
unfolding step
clean_onto stack [] = stack
clean_onto stack (p ∷ ps) = clean_onto (step stack p) ps

-- filepath.Clean of an absolute path
unfoldable pub clean : List ℕ → Location
unfolding clean_onto
clean text = reverse (clean_onto [] (split text))

unfoldable pub is_abs : List ℕ → Bool
is_abs [] = false
is_abs (c ∷ t) = decided (ℕ_discrete c slash)

-- filepath.Abs; there may be no working directory.
unfoldable pub abs : Option (List ℕ) → List ℕ → Option Location
unfolding is_abs
abs cwd text =
    if is_abs text
    then some (clean text)
    else elim cwd [ none ↦ none | some d ↦ some (clean (d ++ (slash ∷ text))) ]

-- One step up for each part.
ups : Location → List Part
ups [] = []
ups (b ∷ bs) = dot_dot ∷ ups bs

-- filepath.Rel of cleaned absolute paths, as parts; no part stands for ".".
unfoldable pub rel : Location → Location → List Part
unfolding ups
rel [] targ = targ
rel (b ∷ bs) [] = ups (b ∷ bs)
rel (b ∷ bs) (t ∷ ts) = if decided (part_dec b t) then rel bs ts else ups (b ∷ bs) ++ t ∷ ts

-- The parts with slashes between them.
unfoldable pub slashed : List Part → List ℕ
slashed [] = []
slashed (p ∷ []) = p
slashed (p ∷ q ∷ ps) = p ++ (slash ∷ slashed (q ∷ ps))

-- The text of what `rel` gives.
unfoldable pub rel_text : List Part → List ℕ
rel_text [] = dot
rel_text (p ∷ ps) = slashed (p ∷ ps)

-- filepath.Join of a cleaned path and parts
unfoldable pub join : Location → List Part → Location
unfolding clean_onto
join base parts = reverse (clean_onto (reverse base) parts)

-- The text of a cleaned path.
unfoldable pub location_text : Location → List ℕ
unfolding slashed
location_text l = slash ∷ slashed l
