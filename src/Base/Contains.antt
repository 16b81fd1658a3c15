-- ===== src/Base/Contains.antt =====
-- What a list contains, as a sum that computes on the list.
use mathlib.Core.List.{List, [], ◌∷◌, ◌++◌}
use mathlib.Core.Logic.{◌⊎◌, inl, inr}
use mathlib.Core.Path.{◌≡◌, refl, subst}
use mnemosyne_os.Base.Tests.{All}

abbrev pub Contains : {A : Type 0} → A → List A → Type 0
Contains a [] = ⊥
Contains a (x ∷ xs) = (x ≡ a) ⊎ Contains a xs

module _ {A : Type 0} where
  pub Contains-left : (a : A) (xs ys : List A) → Contains a xs → Contains a (xs ++ ys)
  Contains-left a [] ys h = absurd h
  Contains-left a (x ∷ xs) ys (inl e) = inl e
  Contains-left a (x ∷ xs) ys (inr h) = inr (Contains-left a xs ys h)

  pub Contains-right : (a : A) (xs ys : List A) → Contains a ys → Contains a (xs ++ ys)
  Contains-right a [] ys h = h
  Contains-right a (x ∷ xs) ys h = inr (Contains-right a xs ys h)

  pub All-Contains : (P : A → Type 0) (xs : List A) {a : A} → All P xs → Contains a xs → P a
  All-Contains P [] h k = absurd k
  All-Contains P (x ∷ xs) h (inl e) = subst P e h.0
  All-Contains P (x ∷ xs) h (inr k) = All-Contains P xs h.1 k

  pub All-intro : (P : A → Type 0) (xs : List A) → ((a : A) → Contains a xs → P a) → All P xs
  All-intro P [] f = tt
  All-intro P (x ∷ xs) f = (f x (inl refl), All-intro P xs (λ a h. f a (inr h)))
