-- ===== src/Access/Policy.antt =====
-- internal/fsaccess: a path that may be written is under one of the roots.
use mnemosyne_os.Base.{
  ℕ, ◌≡◌, ◌≢◌, refl, inl, inr, true, false, Bool-cases, List, [], ◌∷◌, ◌++◌, arith, none, some,
  Option-cases,
}
use mnemosyne_os.Base.Contains.{Contains, Contains-left}
use mnemosyne_os.Access.{
  System, eval_symlinks_in_existing_prefix, resolved_root, path_under_root, any_root, trim,
  is_path_allowed, unrestricted_from_env, extra_roots_from_env,
}
use mnemosyne_os.Access.Paths.{Location, abs}
use mnemosyne_os.Access.Laws.{GivesClean, path_under_root_iff}

module _ (sys : System) where
  -- A root that has the path under it, and where both are.
  pub record IsUnder (path root : List ℕ) : Type 0 where
    pub directory : Location
    pub location : Location
    pub beyond : Location
    pub not_blank : trim root ≢ []
    pub root_at : abs sys.cwd (trim root) ≡ some directory
    pub path_at : abs sys.cwd path ≡ some location
    pub below :
        resolved_root sys directory ++ beyond ≡ eval_symlinks_in_existing_prefix sys location

  pub record IsPermitted (path : List ℕ) (roots : List (List ℕ)) : Type 0 where
    pub root : List ℕ
    pub listed : Contains root roots
    pub is_under : IsUnder path root

  module _ (gives : GivesClean sys) where
    no_root :
        (path root : List ℕ)
        → path_under_root sys path root ≡ true
        → abs sys.cwd (trim root) ≡ none
        → ⊥
    unfolding path_under_root
    no_root path root t gone = ground (arith, t, gone)

    no_path :
        (path root : List ℕ) (d : Location)
        → abs sys.cwd (trim root) ≡ some d
        → path_under_root sys path root ≡ true
        → abs sys.cwd path ≡ none
        → ⊥
    unfolding path_under_root
    no_path path root d e t gone = ground (arith, t, e, gone)

    not_blank_of : (path root : List ℕ) → path_under_root sys path root ≡ true → trim root ≢ []
    unfolding path_under_root
    not_blank_of path root t blank = ground (arith, t, blank)

    path_under_root-IsUnder :
        (path root : List ℕ) → path_under_root sys path root ≡ true → IsUnder path root
    path_under_root-IsUnder path root t = elim (Option-cases (abs sys.cwd (trim root))) [
      | inl gone ↦ absurd (no_root path root t gone)
      | inr (d, e) ↦ elim (Option-cases (abs sys.cwd path)) [
        | inl gone ↦ absurd (no_path path root d e t gone)
        | inr (p, k) ↦
            let n : trim root ≢ [] = not_blank_of path root t in
            let (rest, below) = (path_under_root_iff sys gives path root n e k).0 t in
            record {
              directory = d;
              location = p;
              beyond = rest;
              not_blank = n;
              root_at = e;
              path_at = k;
              below = below;
            }
      ]
    ]

    any_root-IsPermitted :
        (path : List ℕ) (roots : List (List ℕ))
        → any_root sys path roots ≡ true
        → IsPermitted path roots
    unfolding any_root
    any_root-IsPermitted path [] t = absurd (cc)
    any_root-IsPermitted path (r ∷ rs) t = elim (Bool-cases (path_under_root sys path r)) [
      | inl hit ↦ record {
        root = r;
        listed = inl refl;
        is_under = path_under_root-IsUnder path r hit;
      }
      | inr miss ↦
          let p = any_root-IsPermitted path rs (rw miss at t) in
          record { root = p.root; listed = inr p.listed; is_under = p.is_under }
    ]

    listed_later :
        (path : List ℕ) (roots more : List (List ℕ))
        → IsPermitted path more
        → IsPermitted path (roots ++ more)
    listed_later path [] more p = p
    listed_later path (r ∷ rs) more p =
        let q = listed_later path rs more p in
        record { root = q.root; listed = inr q.listed; is_under = q.is_under }

    listed_before :
        (path : List ℕ) (roots more : List (List ℕ))
        → IsPermitted path roots
        → IsPermitted path (roots ++ more)
    listed_before path roots more p = record {
      root = p.root;
      listed = Contains-left p.root roots more p.listed;
      is_under = p.is_under;
    }

    -- Where the switch that lifts the restriction is off and the operating system gives clean
    -- paths, a path is allowed to be written only if, with the links of its existing front
    -- resolved, it is under the workspace, the runtime's directory, the directory for temporary
    -- files, or a root that the environment adds.
    pub is_path_allowed-IsPermitted :
        (path workspace runtime : List ℕ)
        → unrestricted_from_env sys ≡ false
        → is_path_allowed sys path workspace runtime ≡ true
        → IsPermitted path ((workspace ∷ runtime ∷ sys.temp_dir ∷ []) ++ extra_roots_from_env sys)
    unfolding is_path_allowed
    is_path_allowed-IsPermitted path workspace runtime off t =
        let three = workspace ∷ runtime ∷ sys.temp_dir ∷ [] in
        elim (Bool-cases (any_root sys path three)) [
          | inl hit ↦
              listed_before path three (extra_roots_from_env sys)
                (any_root-IsPermitted path three hit)
          | inr miss ↦
              listed_later path three (extra_roots_from_env sys) (
                any_root-IsPermitted path (extra_roots_from_env sys) (ground (arith, off, miss, t)))
        ]
