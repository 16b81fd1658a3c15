-- ===== src/Base/Sort.antt =====
-- `sort.Slice`. The order of elements that neither test puts first is not fixed by Go; here they
-- keep the order that they had.
use mathlib.Core.Bool.{Bool}
use mathlib.Core.List.{List, [], ◌∷◌, Perm}
use mathlib.Core.List.Perm
use mathlib.Core.Logic.{inl, inr}
use native.Mathlib.Omega.{arith}
use mnemosyne_os.Base.Contains.{Contains}
use mnemosyne_os.Base.Tests.{if◌then◌else◌, All, Bool-cases}

module _ {ℓ} {A : Type ℓ} (less : A → A → Bool) where
  insert_by : A → List A → List A
  insert_by x [] = x ∷ []
  insert_by x (y ∷ ys) = if less y x then y ∷ insert_by x ys else x ∷ y ∷ ys

  unfoldable pub sort_by : List A → List A
  unfolding insert_by
  sort_by [] = []
  sort_by (x ∷ xs) = insert_by x (sort_by xs)

  insert_by-perm : (x : A) (xs : List A) → Perm (insert_by x xs) (x ∷ xs)
  unfolding insert_by
  insert_by-perm x [] = Perm.refl _
  insert_by-perm x (y ∷ ys) = elim (Bool-cases (less y x)) [
    | inl e ↦ rw (e, insert_by) (Perm.trans (Perm.cons y (insert_by-perm x ys)) (Perm.swap x y ys))
    | inr e ↦ rw (e, insert_by) (Perm.refl _)
  ]

  pub sort_by-perm : (xs : List A) → Perm (sort_by xs) xs
  unfolding sort_by
  sort_by-perm [] = Perm.refl _
  sort_by-perm (x ∷ xs) = Perm.trans (insert_by-perm x (sort_by xs)) (Perm.cons x (sort_by-perm xs))

  All-insert_by : (P : A → Type ℓ) (x : A) (xs : List A) → P x → All P xs → All P (insert_by x xs)
  unfolding insert_by
  All-insert_by P x [] p h = (p, tt)
  All-insert_by P x (y ∷ ys) p h = ground (arith, All-insert_by P x ys p h.1)

  pub All-sort_by : (P : A → Type ℓ) (xs : List A) → All P xs → All P (sort_by xs)
  unfolding sort_by
  All-sort_by P [] h = tt
  All-sort_by P (x ∷ xs) h = All-insert_by P x (sort_by xs) h.0 (All-sort_by P xs h.1)

module _ {A : Type 0} (less : A → A → Bool) where
  swapped :
      (a x y : A) (ys zs : List A)
      → Contains a (x ∷ y ∷ ys)
      → (Contains a (x ∷ ys) → Contains a zs)
      → Contains a (y ∷ zs)
  swapped a x y ys zs (inl e) f = inr (f (inl e))
  swapped a x y ys zs (inr (inl e)) f = inl e
  swapped a x y ys zs (inr (inr k)) f = inr (f (inr k))

  Contains-insert_by :
      (a x : A) (xs : List A) → Contains a (x ∷ xs) → Contains a (insert_by less x xs)
  unfolding insert_by
  Contains-insert_by a x [] h = h
  Contains-insert_by a x (y ∷ ys) h = elim (Bool-cases (less y x)) [
    | inl e ↦ rw e (swapped a x y ys (insert_by less x ys) h (Contains-insert_by a x ys))
    | inr e ↦ rw e h
  ]

  pub Contains-sort_by : (a : A) (xs : List A) → Contains a xs → Contains a (sort_by less xs)
  unfolding sort_by
  Contains-sort_by a [] h = h
  Contains-sort_by a (x ∷ xs) (inl e) = Contains-insert_by a x (sort_by less xs) (inl e)
  Contains-sort_by a (x ∷ xs) (inr k) =
      Contains-insert_by a x (sort_by less xs) (inr (Contains-sort_by a xs k))
