-- ===== src/Access/Resolution.antt =====
-- What `evalSymlinksInExistingPrefix` of internal/fsaccess gives, and the policy on it.
use mathlib.Core.List.{reverse, reverse-cons, reverse-reverse, append_assoc, append-nil}
use mnemosyne_os.Base.{
  ◌≡◌, ◌≢◌, refl, sym, subst, ◌∙◌, inl, inr, [], ◌∷◌, ◌++◌, none, some, Option-cases,
}
use mnemosyne_os.Access.{System, climb, eval_symlinks_in_existing_prefix}
use mnemosyne_os.Access.Paths.{Part, Location, rel, join}
use mnemosyne_os.Access.Paths.Laws.{IsPart, IsClean, rel-append, join-append}
use mnemosyne_os.Access.Laws.{All-append_right}

nil_front : (mid rest : Location) → mid ++ rest ≡ [] → mid ≡ []
nil_front [] rest e = refl
nil_front (y ∷ mid) rest e = cc

regroup :
    (up : Location) (x : Part) (mid : Location) → reverse (x ∷ up) ++ mid ≡ reverse up ++ (x ∷ mid)
regroup up x mid = rw (reverse-cons x up) (append_assoc (reverse up) (x ∷ []) mid)

module _ (sys : System) where
  -- The longest front of the path that exists is resolved and the rest is kept as it is; where no
  -- front exists the path stays.
  pub data Resolution (path : Location) : Location → Type 0 where
    prefix :
        (front back r : Location)
        → front ++ back ≡ path
        → sys.eval_symlinks front ≡ some r
        → ((mid rest : Location)
            → mid ++ rest ≡ back
            → mid ≢ []
            → sys.eval_symlinks (front ++ mid) ≡ none)
        → Resolution path (r ++ back)
    missing :
        ((mid rest : Location) → mid ++ rest ≡ path → sys.eval_symlinks mid ≡ none)
        → Resolution path path

  resolved_here :
      (path front back r : Location)
      → IsClean path
      → front ++ back ≡ path
      → join r (rel front path) ≡ r ++ back
  resolved_here path front back r h e =
      rw (← e, rel-append front back)
        (join-append r back (All-append_right IsPart front back (subst IsClean (sym e) h)))

  -- Going up by one part.
  longer_missing :
      (up back : Location) (x : Part)
      → sys.eval_symlinks (reverse (x ∷ up)) ≡ none
      → ((mid rest : Location)
          → mid ++ rest ≡ back
          → mid ≢ []
          → sys.eval_symlinks (reverse (x ∷ up) ++ mid) ≡ none)
      → (mid rest : Location) → mid ++ rest ≡ x ∷ back
      → mid ≢ []
      → sys.eval_symlinks (reverse up ++ mid) ≡ none
  longer_missing up back x gone none_longer [] rest e n = absurd (n refl)
  longer_missing up back x gone none_longer (y ∷ []) rest e n =
      let same : y ≡ x = cc in rw (same, ← reverse-cons x up) gone
  longer_missing up back x gone none_longer (y ∷ z ∷ mid) rest e n =
      let same : y ≡ x = cc in
      let back_is : (z ∷ mid) ++ rest ≡ back = cc in
      rw (same, ← regroup up x (z ∷ mid)) (none_longer (z ∷ mid) rest back_is (λ q. cc))

  nowhere :
      (back : Location)
      → sys.eval_symlinks [] ≡ none
      → ((mid rest : Location) → mid ++ rest ≡ back → mid ≢ [] → sys.eval_symlinks mid ≡ none)
      → (mid rest : Location) → mid ++ rest ≡ back
      → sys.eval_symlinks mid ≡ none
  nowhere back gone none_longer [] rest e = gone
  nowhere back gone none_longer (y ∷ mid) rest e = none_longer (y ∷ mid) rest e (λ q. cc)

  climb_lem :
      (path up back : Location)
      → IsClean path
      → reverse up ++ back ≡ path
      → ((mid rest : Location)
          → mid ++ rest ≡ back
          → mid ≢ []
          → sys.eval_symlinks (reverse up ++ mid) ≡ none)
      → Resolution path (climb sys path up)
  unfolding climb
  climb_lem path [] back h e none_longer = elim (Option-cases (sys.eval_symlinks [])) [
    | inl gone ↦
        rw (gone, climb)
          (Resolution.missing (λ mid rest q. nowhere back gone none_longer mid rest (q ∙ sym e)))
    | inr (r, found) ↦
        rw (found, climb, resolved_here path [] back r h e)
          (Resolution.prefix [] back r e found none_longer)
  ]
  climb_lem path (x ∷ up) back h e none_longer =
      elim (Option-cases (sys.eval_symlinks (reverse (x ∷ up)))) [
        | inl gone ↦
            rw (gone, climb)
              (climb_lem path up (x ∷ back) h (sym (regroup up x back) ∙ e)
                (longer_missing up back x gone none_longer))
        | inr (r, found) ↦
            rw (found, climb, resolved_here path (reverse (x ∷ up)) back r h e)
              (Resolution.prefix (reverse (x ∷ up)) back r e found none_longer)
      ]

  -- A clean path is checked as its longest existing front, with the links in it resolved, and the
  -- names that do not exist yet after it; where nothing of it exists, as it is.
  pub eval_symlinks_in_existing_prefix-Resolution :
      (path : Location) → IsClean path → Resolution path (eval_symlinks_in_existing_prefix sys path)
  unfolding eval_symlinks_in_existing_prefix
  eval_symlinks_in_existing_prefix-Resolution path h =
      climb_lem path (reverse path) [] h (append-nil _ ∙ reverse-reverse path)
        (λ mid rest e n. absurd (n (nil_front mid rest e)))
