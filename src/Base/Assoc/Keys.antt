-- ===== src/Base/Assoc/Keys.antt =====
-- Association lists whose keys are all different.
use mnemosyne_os.Base.{◌≡◌, ◌≢◌, some, List, [], ◌∷◌, arith, All}
use mnemosyne_os.Base.Assoc.{get, put, All-put}

module _ {ℓ} {K V : Type ℓ} where
  abbrev Fresh : K → List (K × V) → Type ℓ
  Fresh k = All (λ e. k ≢ e.0)

  abbrev pub Distinct : List (K × V) → Type ℓ
  Distinct [] = Unit
  Distinct ((k, _) ∷ m) = Fresh k m × Distinct m

module _ {ℓ} {K V : Type ℓ} (dec : Discrete K) where
  abbrev pub Finds : List (K × V) → K × V → Type ℓ
  Finds m e = get dec e.0 m ≡ some e.1

  pub Distinct-put : (k : K) (v : V) (m : List (K × V)) → Distinct m → Distinct (put dec k v m)
  unfolding put
  Distinct-put k v [] d = (tt, tt)
  Distinct-put k v ((j, w) ∷ m) d =
      ground (arith, Distinct-put k v m d.1, All-put dec (λ e. j ≢ e.0) k v m)

  Finds-later :
      (k : K) (v : V) (m l : List (K × V))
      → Fresh k m
      → All (Finds l) m
      → All (Finds ((k, v) ∷ l)) m
  unfolding get
  Finds-later k v [] l f h = tt
  Finds-later k v ((j, w) ∷ m) l f h = (ground (arith, f.0, h.0), Finds-later k v m l f.1 h.1)

  -- Each entry is the one that its key finds.
  pub All-Finds : (m : List (K × V)) → Distinct m → All (Finds m) m
  unfolding get
  All-Finds [] d = tt
  All-Finds ((k, v) ∷ m) d = (ground arith, Finds-later k v m m d.0 (All-Finds m d.1))
