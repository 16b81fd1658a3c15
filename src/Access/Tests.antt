-- ===== src/Access/Tests.antt =====
-- The theorems on paths at a small file system, in which a link leads out of the workspace.
use mnemosyne_os.Base.{
  ◌≡◌, ◌↔◌, refl, subst, true, false, Bool, Option, none, some, [], ◌∷◌, ◌++◌, arith, if◌then◌else◌,
  decided, ℕ_discrete,
}
use mathlib.Core.Option.{some-injective}
use mnemosyne_os.Base.Text.{codes, is_space, has_prefix}
use mnemosyne_os.Access.{
  System, path_under_root, resolved_root, eval_symlinks_in_existing_prefix, trim, is_path_allowed,
  extra_roots_from_env, unrestricted_from_env,
}
use mnemosyne_os.Access.Laws.{GivesClean, path_under_root_iff}
use mnemosyne_os.Access.Paths.{
  Location, Part, part_dec, abs, clean, rel_text, rel, split_at, join, slashed,
}
use mnemosyne_os.Access.Paths.Laws.{IsClean, IsPart}
use mnemosyne_os.Access.Policy.{IsPermitted, is_path_allowed-IsPermitted}
use mnemosyne_os.Access.Resolution.{Resolution, eval_symlinks_in_existing_prefix-Resolution}

abbrev w : Part
w = 119 ∷ []

abbrev etc : Part
etc = 101 ∷ 116 ∷ 99 ∷ []

abbrev link : Part
link = 108 ∷ []

-- "/w" is a directory, and "/w/l" a link to "/etc".
abbrev links : Location → Option Location
links [] = some []
links (p ∷ []) = if decided (part_dec p w) then some (w ∷ []) else none
links (p ∷ q ∷ []) =
    if decided (part_dec p w)
    then (if decided (part_dec q link) then some (etc ∷ []) else none)
    else none
links (p ∷ q ∷ r ∷ ps) = none

abbrev box : System
box = record {
  cwd = some (codes "/w");
  eval_symlinks = links;
  home = none;
  temp_dir = codes "/tmp";
  getenv = λ _. "";
  fold = λ c. c;
}

only_if :
    (b : Bool) (l r : Location) → IsClean l → (if b then some l else none) ≡ some r → IsClean r
only_if true l r h e = subst IsClean (some-injective _ _ e) h
only_if false l r h e = absurd (none-ne-some e)
  where
    none-ne-some : ◌≡◌ {A = Option Location} none (some r) → ⊥
    none-ne-some q = cc

only_if_both :
    (b c : Bool) (l r : Location)
    → IsClean l
    → (if b then (if c then some l else none) else none) ≡ some r
    → IsClean r
only_if_both true c l r h e = only_if c l r h e
only_if_both false c l r h e = only_if false l r h e

w-IsPart : IsPart w
w-IsPart = ((λ e. cc), (λ e. ground (arith, e)), (λ e. cc), ((λ e. omega arith), tt))

etc-IsPart : IsPart etc
etc-IsPart = (
  (λ e. cc),
  (λ e. cc),
  (λ e. cc),
  ((λ e. omega arith), ((λ e. omega arith), ((λ e. omega arith), tt))),
)

box-GivesClean : GivesClean box
box-GivesClean [] r e = subst IsClean (some-injective _ _ e) tt
box-GivesClean (p ∷ []) r e = only_if (decided (part_dec p w)) (w ∷ []) r (w-IsPart, tt) e
box-GivesClean (p ∷ q ∷ []) r e =
    only_if_both (decided (part_dec p w)) (decided (part_dec q link)) (etc ∷ []) r (etc-IsPart, tt)
      e
box-GivesClean (p ∷ q ∷ x ∷ ps) r e = cc

path_under_root_iff_example : (path_under_root box (codes "/w/new") (codes "/w") ≡ true) ↔ (
    (rest : Location) × (resolved_root box (w ∷ []) ++ rest
      ≡ eval_symlinks_in_existing_prefix box (w ∷ (codes "new") ∷ [])))
unfolding abs clean trim part_dec ℕ_discrete is_space split_at
path_under_root_iff_example =
    path_under_root_iff box box-GivesClean (codes "/w/new") (codes "/w") (λ e. cc) refl refl

-- The link is followed, so what is under it is not under the workspace.
link_leads_out : path_under_root box (codes "/w/l/passwd") (codes "/w") ≡ false
unfolding path_under_root abs clean trim part_dec ℕ_discrete is_space rel_text rel split_at
    eval_symlinks_in_existing_prefix join slashed has_prefix
link_leads_out = refl

dots_lead_out : path_under_root box (codes "/w/../w2") (codes "/w") ≡ false
unfolding path_under_root abs clean trim part_dec ℕ_discrete is_space rel_text rel split_at
    eval_symlinks_in_existing_prefix join slashed has_prefix
dots_lead_out = refl

eval_symlinks_in_existing_prefix-Resolution_example :
    Resolution box (w ∷ etc ∷ []) (eval_symlinks_in_existing_prefix box (w ∷ etc ∷ []))
eval_symlinks_in_existing_prefix-Resolution_example =
    eval_symlinks_in_existing_prefix-Resolution box (w ∷ etc ∷ []) (w-IsPart, (etc-IsPart, tt))

is_path_allowed-IsPermitted_example :
    IsPermitted box
      (codes "/w/new")
      ((codes "/w" ∷ codes "/r" ∷ box.temp_dir ∷ []) ++ extra_roots_from_env box)
unfolding is_path_allowed path_under_root unrestricted_from_env abs clean trim part_dec ℕ_discrete
    is_space rel_text rel split_at eval_symlinks_in_existing_prefix join slashed has_prefix
is_path_allowed-IsPermitted_example =
    is_path_allowed-IsPermitted box box-GivesClean (codes "/w/new") (codes "/w") (codes "/r") refl
      refl
