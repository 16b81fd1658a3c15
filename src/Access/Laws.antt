-- ===== src/Access/Laws.antt =====
-- internal/fsaccess: a path is under a root exactly when its parts begin with those of the root.
use mathlib.Core.List.{reverse}
use mnemosyne_os.Base.{
  ℕ, ◌≡◌, ◌≢◌, refl, sym, subst, ◌⊎◌, ◌↔◌, inl, inr, true, false, List, [], ◌∷◌, ◌++◌, arith, All,
  ℕ_discrete, Option, none, some, Option-cases, Bool-cases,
}
use mathlib.Core.Option.{some-injective}
use mnemosyne_os.Base.Text.{has_prefix}
use mnemosyne_os.Access.{
  System, is_inside, climb, eval_symlinks_in_existing_prefix, or_same, resolved_root,
  path_under_root, trim,
}
use mnemosyne_os.Access.Paths.{
  Part, part_dec, Location, slash, dot_dot, abs, is_abs, rel, rel_text, slashed,
}
use mnemosyne_os.Access.Paths.Laws.{
  IsPart, IsClean, rel-append, rel-cases, clean-IsClean, join-rel-IsClean,
}

-- The text begins with a part and stops there, or goes on after a slash.
slashed_front :
    (p : Part) (ps : List Part)
    → (t : List ℕ) × ((slashed (p ∷ ps) ≡ p) ⊎ (slashed (p ∷ ps) ≡ p ++ (slash ∷ t)))
unfolding slashed
slashed_front p [] = ([], inl refl)
slashed_front p (q ∷ ps) = (slashed (q ∷ ps), inr refl)

step_up_is_out : (more : List Part) → is_inside (rel_text (dot_dot ∷ more)) ≡ false
unfolding is_inside rel_text slashed has_prefix part_dec ℕ_discrete
step_up_is_out [] = refl
step_up_is_out (q ∷ ps) = refl

-- A name that is no step up does not look like one.
part_is_in :
    (p : Part) (t : List ℕ)
    → IsPart p
    → (is_inside p ≡ true) × (is_inside (p ++ (slash ∷ t)) ≡ true)
unfolding is_inside has_prefix
part_is_in [] t h = absurd (h.0 refl)
part_is_in (c ∷ []) t h = ground (arith, h)
part_is_in (c ∷ d ∷ []) t h = ground (arith, h)
part_is_in (c ∷ d ∷ e ∷ p) t h = ground (arith, h)

rest_is_in : (rest : List Part) → IsClean rest → is_inside (rel_text rest) ≡ true
unfolding rel_text part_dec ℕ_discrete
rest_is_in [] h = unfold is_inside in refl
rest_is_in (p ∷ ps) h =
    let (t, front) = slashed_front p ps in
    elim front [
      | inl alone ↦ rw alone (part_is_in p t h.0).0
      | inr longer ↦ rw longer (part_is_in p t h.0).1
    ]

pub All-append_right : {A : Type 0} (P : A → Type 0) (xs ys : List A) → All P (xs ++ ys) → All P ys
All-append_right P [] ys h = h
All-append_right P (x ∷ xs) ys h = All-append_right P xs ys h.1

-- The text says whether the way goes down.
inside_iff :
    (base targ : Location)
    → IsClean targ
    → (is_inside (rel_text (rel base targ)) ≡ true) ↔ ((rest : Location) × (base ++ rest ≡ targ))
inside_iff base targ h = (
  (λ t. elim (rel-cases base targ) [
    | inl (rest, e, _) ↦ (rest, e)
    | inr (more, r) ↦
        let out : is_inside (rel_text (rel base targ)) ≡ false = rw r (step_up_is_out more) in cc
  ]),
  (λ (rest, e).
      rw (← e, rel-append base rest)
        (rest_is_in rest (All-append_right IsPart base rest (subst IsClean (sym e) h)))),
)

abs-IsClean :
    (cwd : Option (List ℕ)) (text : List ℕ) {p : Location} → abs cwd text ≡ some p → IsClean p
unfolding abs
abs-IsClean none text e = elim (Bool-cases (is_abs text)) [
  | inl t ↦ subst IsClean (some-injective _ _ (rw t at e)) (clean-IsClean text)
  | inr f ↦ let no_path = rw f at e in cc
]
abs-IsClean (some d) text e = elim (Bool-cases (is_abs text)) [
  | inl t ↦ subst IsClean (some-injective _ _ (rw t at e)) (clean-IsClean text)
  | inr f ↦ subst IsClean (some-injective _ _ (rw f at e)) (clean-IsClean (d ++ (slash ∷ text)))
]

-- The operating system names files by clean paths.
abbrev pub GivesClean : System → Type 0
GivesClean sys = (p r : Location) → sys.eval_symlinks p ≡ some r → IsClean r

module _ (sys : System) (gives : GivesClean sys) where
  or_same-IsClean :
      (p : Location) (o : Option Location)
      → IsClean p
      → ((r : Location) → o ≡ some r → IsClean r)
      → IsClean (or_same p o)
  or_same-IsClean p none h g = h
  or_same-IsClean p (some r) h g = g r refl

  climb-IsClean : (path up : Location) → IsClean path → IsClean (climb sys path up)
  unfolding climb
  climb-IsClean path [] h = elim (Option-cases (sys.eval_symlinks [])) [
    | inl e ↦ rw (e, climb) h
    | inr (r, e) ↦ rw (e, climb) (join-rel-IsClean r [] path (gives [] r e) h)
  ]
  climb-IsClean path (x ∷ up) h = elim (Option-cases (sys.eval_symlinks (reverse (x ∷ up)))) [
    | inl e ↦ rw (e, climb) (climb-IsClean path up h)
    | inr (r, e) ↦
        rw (e, climb) (join-rel-IsClean r (reverse (x ∷ up)) path (gives (reverse (x ∷ up)) r e) h)
  ]

  -- Where the operating system gives clean paths, a path is under a root that is not blank exactly
  -- when the root's directory, with its links resolved, is the front of the path that is checked.
  pub path_under_root_iff :
      (path root : List ℕ) {d p : Location}
      → trim root ≢ []
      → abs sys.cwd (trim root) ≡ some d
      → abs sys.cwd path ≡ some p
      → (path_under_root sys path root ≡ true) ↔ (
          (rest : Location) × (resolved_root sys d ++ rest
            ≡ eval_symlinks_in_existing_prefix sys p))
  unfolding path_under_root eval_symlinks_in_existing_prefix
  path_under_root_iff path root {d} {p} n e k =
      let test : path_under_root sys path root
          ≡ is_inside (rel_text (rel (resolved_root sys d) (climb sys p (reverse p)))) =
        ground (arith, n, e, k) in
      rw test (
        inside_iff (resolved_root sys d) (climb sys p (reverse p))
          (climb-IsClean p (reverse p) (abs-IsClean sys.cwd path k)))
