-- ===== src/Access.antt =====
-- internal/fsaccess: which paths the file tools may touch.
pub mod Paths
pub mod Laws
pub mod Policy
mod Tests
pub mod Resolution
use mathlib.Core.List.{reverse}
use mnemosyne_os.Base.{
  ℕ, String, Bool, true, false, ◌||◌, ◌&&◌, not, Option, none, some, List, [], ◌∷◌, ◌++◌,
  if◌then◌else◌, decided, str_dec, ltb, ℕ_discrete, map,
}
use mnemosyne_os.Base.Text.{codes, is_space, has_prefix, to_lower}
use mnemosyne_os.Access.Paths.{
  Location, Part, part_dec, dot, dot_dot, slash, clean, is_abs, abs, rel, rel_text, join, split,
  split_at, location_text,
}

-- What the operating system tells: the working directory, filepath.EvalSymlinks, the home
-- directory, os.TempDir and the environment. `fold` is Unicode's table of small letters.
pub record System : Type 0 where
  pub cwd : Option (List ℕ)
  pub eval_symlinks : Location → Option Location
  pub home : Option (List ℕ)
  pub temp_dir : List ℕ
  pub getenv : String → String
  pub fold : ℕ → ℕ

abbrev pub or_same : Location → Option Location → Location
or_same p none = p
or_same p (some r) = r

-- `rel == "."`, or no step up at the front of the text
unfoldable pub is_inside : List ℕ → Bool
is_inside text =
    decided (part_dec text dot)
    || (not (has_prefix (dot_dot ++ slash ∷ []) text) && not (decided (part_dec text dot_dot)))

trim_left : List ℕ → List ℕ
trim_left [] = []
trim_left (c ∷ t) = if is_space c then trim_left t else c ∷ t

-- strings.TrimSpace, on code points
unfoldable pub trim : List ℕ → List ℕ
unfolding trim_left
trim t = reverse (trim_left (reverse (trim_left t)))

-- strings.TrimLeft with the separators
without_slashes : List ℕ → List ℕ
without_slashes [] = []
without_slashes (c ∷ t) =
    if decided (ℕ_discrete c slash) || decided (ℕ_discrete c b'\\')
    then without_slashes t
    else c ∷ t

abbrev tilde : ℕ
tilde = 126

abbrev colon : ℕ
colon = 58

module _ (sys : System) where
  -- The loop of `evalSymlinksInExistingPrefix`, on the parts of `p` from the last one up.
  climb : Location → List Part → Location
  climb path [] = elim (sys.eval_symlinks []) [ none ↦ path | some r ↦ join r (rel [] path) ]
  climb path (x ∷ up) =
      let higher = climb path up in
      elim (sys.eval_symlinks (reverse (x ∷ up))) [
        | none ↦ higher
        | some r ↦ join r (rel (reverse (x ∷ up)) path)
      ]

  unfoldable pub eval_symlinks_in_existing_prefix : Location → Location
  unfolding climb
  eval_symlinks_in_existing_prefix path = climb path (reverse path)

  abbrev pub resolved_root : Location → Location
  resolved_root root = or_same root (sys.eval_symlinks root)

  abbrev under : Option Location → Option Location → Bool
  under none _ = false
  under (some root) none = false
  under (some root) (some path) =
      is_inside (rel_text (rel (resolved_root root) (eval_symlinks_in_existing_prefix path)))

  unfoldable pub path_under_root : List ℕ → List ℕ → Bool
  unfolding is_inside trim
  path_under_root path root =
      if decided (part_dec (trim root) [])
      then false
      else under (abs sys.cwd (trim root)) (abs sys.cwd path)

  -- The switches that an environment variable turns on.
  is_on : String → Bool
  is_on name =
      let v = map (to_lower sys.fold) (trim (codes (sys.getenv name))) in
      decided (part_dec v (codes "1"))
      || decided (part_dec v (codes "true"))
      || decided (part_dec v (codes "yes"))
      || decided (part_dec v (codes "on"))

  unfoldable pub unrestricted_from_env : Bool
  unfolding is_on
  unrestricted_from_env = is_on "MNEMOSYNE_FILESYSTEM_UNRESTRICTED"

  unfoldable pub read_only_strict_from_env : Bool
  unfolding is_on
  read_only_strict_from_env = is_on "MNEMOSYNE_FILESYSTEM_READONLY_STRICT"

  in_home : Option (List ℕ) → List ℕ → Option (List ℕ)
  unfolding without_slashes
  in_home none t = none
  in_home (some home) [] = some home
  in_home (some home) (c ∷ t) =
      some (location_text (join (clean home) (split (without_slashes (c ∷ t)))))

  -- After the tilde: nothing, or a separator.
  after_tilde : List ℕ → Option (List ℕ)
  unfolding in_home
  after_tilde [] = in_home sys.home []
  after_tilde (c ∷ t) = if decided (ℕ_discrete c slash) then in_home sys.home (c ∷ t) else none

  expand_trimmed : List ℕ → Option (List ℕ)
  unfolding after_tilde
  expand_trimmed [] = some []
  expand_trimmed (c ∷ t) =
      let home = after_tilde t in if decided (ℕ_discrete c tilde) then home else some (c ∷ t)

  -- `none` is an error. A home directory is an absolute path.
  unfoldable pub expand_home_dir : List ℕ → Option (List ℕ)
  unfolding expand_trimmed
  expand_home_dir path = expand_trimmed (trim path)

  abbrev has_part : Part → List Part → Bool
  has_part p [] = false
  has_part p (q ∷ qs) = decided (part_dec q p) || has_part p qs

  located : Option Location → Option (List ℕ)
  located none = none
  located (some l) = some (location_text (resolved_root l))

  absolute_only : Option (List ℕ) → Option (List ℕ)
  unfolding located
  absolute_only none = none
  absolute_only (some t) = if is_abs t then located (abs sys.cwd t) else none

  -- One entry of the list: the directory that it names, if it names one.
  extra_root : Part → Option (List ℕ)
  unfolding absolute_only
  extra_root entry =
      if decided (part_dec (trim entry) [])
      then none
      else absolute_only (expand_home_dir (trim entry))

  collect_roots : List (List ℕ) → List Part → List (List ℕ)
  unfolding extra_root
  collect_roots seen [] = []
  collect_roots seen (e ∷ es) = elim (extra_root e) [
    | none ↦ collect_roots seen es
    | some root ↦
        let later = collect_roots (root ∷ seen) es in
        let rest = collect_roots seen es in if has_part root seen then rest else root ∷ later
  ]

  unfoldable pub extra_roots_from_env : List (List ℕ)
  unfolding collect_roots
  extra_roots_from_env =
      let raw = trim (codes (sys.getenv "MNEMOSYNE_FILESYSTEM_EXTRA_ROOTS")) in
      if decided (part_dec raw []) then [] else collect_roots [] (split_at colon raw)

  any_root : List ℕ → List (List ℕ) → Bool
  any_root path [] = false
  any_root path (r ∷ rs) = path_under_root path r || any_root path rs

  unfoldable pub is_path_allowed : List ℕ → List ℕ → List ℕ → Bool
  unfolding any_root
  is_path_allowed path workspace runtime =
      unrestricted_from_env
      || any_root path (workspace ∷ runtime ∷ sys.temp_dir ∷ [])
      || any_root path extra_roots_from_env

  unfoldable pub is_read_path_allowed : List ℕ → List ℕ → List ℕ → Bool
  is_read_path_allowed path workspace runtime =
      is_path_allowed path workspace runtime || (not read_only_strict_from_env && is_abs path)
