-- ===== src/Access/Paths/Laws.antt =====
-- Cleaned paths and the parts between them.
use mathlib.Core.List.{reverse, reverse-cons, reverse-append, reverse-reverse, append_assoc}
use mnemosyne_os.Base.{
  ℕ, ◌≡◌, ◌≢◌, refl, sym, ◌∙◌, ◌⊎◌, inl, inr, List, [], ◌∷◌, ◌++◌, arith, All, All-append, All-mono,
  if◌then◌else◌, decided, ℕ_discrete,
}
use mnemosyne_os.Access.Paths.{
  Part, part_dec, Location, slash, dot, dot_dot, longer, split, split_at, step, clean_onto, clean,
  ups, rel, join,
}

abbrev pub NoSlash : Part → Type 0
NoSlash = All (λ c. c ≢ slash)

-- A part that names a file in its directory.
abbrev pub IsPart : Part → Type 0
IsPart p = (p ≢ []) × (p ≢ dot) × (p ≢ dot_dot) × NoSlash p

abbrev pub IsClean : Location → Type 0
IsClean = All IsPart

longer-NoSlash : (c : ℕ) (ps : List Part) → c ≢ slash → All NoSlash ps → All NoSlash (longer c ps)
unfolding longer
longer-NoSlash c [] n h = ((n, tt), tt)
longer-NoSlash c (p ∷ ps) n h = ((n, h.0), h.1)

split-NoSlash : (text : List ℕ) → All NoSlash (split text)
unfolding split_at
split-NoSlash [] = (tt, tt)
split-NoSlash (c ∷ t) =
    elim (ℕ_discrete c slash)
      as (λ d. All NoSlash (if decided d then [] ∷ split t else longer c (split t))) [
        | yes _ ↦ (tt, split-NoSlash t)
        | no n ↦ longer-NoSlash c (split t) n (split-NoSlash t)
      ]

step-IsClean : (stack : List Part) (p : Part) → IsClean stack → NoSlash p → IsClean (step stack p)
unfolding step
step-IsClean stack p h n = ground arith

clean_onto-IsClean :
    (stack ps : List Part) → IsClean stack → All NoSlash ps → IsClean (clean_onto stack ps)
unfolding clean_onto
clean_onto-IsClean stack [] h n = h
clean_onto-IsClean stack (p ∷ ps) h n =
    clean_onto-IsClean (step stack p) ps (step-IsClean stack p h n.0) n.1

IsClean-reverse : (ps : List Part) → IsClean ps → IsClean (reverse ps)
IsClean-reverse [] h = tt
IsClean-reverse (p ∷ ps) h =
    rw (reverse-cons p ps)
      (All-append IsPart (reverse ps) (p ∷ []) (IsClean-reverse ps h.1) (h.0, tt))

-- Whatever the text, a cleaned path has no step up left in it.
pub clean-IsClean : (text : List ℕ) → IsClean (clean text)
unfolding clean
clean-IsClean text = IsClean-reverse _ (clean_onto-IsClean [] (split text) tt (split-NoSlash text))

-- What follows a directory is the way from it.
pub rel-append : (base rest : Location) → rel base (base ++ rest) ≡ rest
unfolding rel
rel-append [] rest = refl
rel-append (b ∷ bs) rest = ground (arith, rel-append bs rest)

-- The way from a directory goes down, or begins with a step up.
pub rel-cases :
    (base targ : Location)
    → ((rest : Location) × (base ++ rest ≡ targ) × (rel base targ ≡ rest))
      ⊎ ((more : List Part) × (rel base targ ≡ dot_dot ∷ more))
unfolding rel ups
rel-cases [] targ = inl (targ, refl, refl)
rel-cases (b ∷ bs) [] = inr (ups bs, refl)
rel-cases (b ∷ bs) (t ∷ ts) =
    elim (part_dec b t)
      as (λ d.
        ((rest : Location) × (b ∷ (bs ++ rest) ≡ t ∷ ts)
          × ((if decided d then rel bs ts else dot_dot ∷ (ups bs ++ t ∷ ts)) ≡ rest))
        ⊎ ((more : List Part) × ((if decided d then rel bs ts else dot_dot ∷ (ups bs ++ t ∷ ts))
              ≡ dot_dot ∷ more))) [
                | yes same ↦ elim (rel-cases bs ts) [
                  | inl (rest, e, r) ↦ inl (rest, cc, r)
                  | inr (more, r) ↦ inr (more, r)
                ]
                | no _ ↦ inr (ups bs ++ t ∷ ts, refl)
              ]

-- A clean path is put together from its parts.
clean_onto_clean : (stack ps : List Part) → IsClean ps → clean_onto stack ps ≡ reverse ps ++ stack
unfolding clean_onto step
clean_onto_clean stack [] h = refl
clean_onto_clean stack (p ∷ ps) ((some_left, not_dot, not_up, _), h) =
    let stepped : step stack p ≡ p ∷ stack = ground (arith, some_left, not_dot, not_up) in
    rw (stepped, reverse-cons p ps)
      (clean_onto_clean (p ∷ stack) ps h ∙ sym (append_assoc (reverse ps) (p ∷ []) stack))

-- Joining parts to a directory leads below it.
pub join-append : (base rest : Location) → IsClean rest → join base rest ≡ base ++ rest
unfolding join
join-append base rest h =
    rw (clean_onto_clean (reverse base) rest h) (simp (reverse-append, reverse-reverse))

ups-NoSlash : (bs : Location) → All NoSlash (ups bs)
unfolding ups
ups-NoSlash [] = tt
ups-NoSlash (b ∷ bs) = ((omega arith, (omega arith, tt)), ups-NoSlash bs)

rel-NoSlash : (base targ : Location) → All NoSlash targ → All NoSlash (rel base targ)
unfolding rel
rel-NoSlash [] targ h = h
rel-NoSlash (b ∷ bs) [] h = ups-NoSlash (b ∷ bs)
rel-NoSlash (b ∷ bs) (t ∷ ts) h =
    elim (part_dec b t)
      as (λ d. All NoSlash (if decided d then rel bs ts else ups (b ∷ bs) ++ t ∷ ts)) [
        | yes _ ↦ rel-NoSlash bs ts h.1
        | no _ ↦ All-append NoSlash (ups (b ∷ bs)) (t ∷ ts) (ups-NoSlash (b ∷ bs)) h
      ]

pub join-rel-IsClean :
    (base from targ : Location) → IsClean base → IsClean targ → IsClean (join base (rel from targ))
unfolding join
join-rel-IsClean base from targ h k = IsClean-reverse _ (
    clean_onto-IsClean (reverse base) (rel from targ) (IsClean-reverse base h)
      (rel-NoSlash from targ (All-mono IsPart NoSlash targ (λ p q. q.3) k)))
