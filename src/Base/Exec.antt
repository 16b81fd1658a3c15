-- ===== src/Base/Exec.antt =====
-- Methods that change a store and may fail. What was written before a failure stays written, so
-- the store comes back beside the error too.
use mathlib.Core.Bool.{Bool, true, false}
use mathlib.Core.Path.{◌≡◌, refl, ap, subst}
use mnemosyne_os.Base.Tests.{if◌then◌else◌}
use mnemosyne_os.Base.Result.{Result, ok, err}

abbrev pub Exec : Type 0 → Type 0 → Type 0 → Type 0
Exec S E A = S → Result E A × S

module _ {S E A : Type 0} where
  abbrev pub pure : A → Exec S E A
  pure a s = (ok a, s)

  abbrev pub raise : E → Exec S E A
  raise e s = (err e, s)

  abbrev pub lift : Result E A → Exec S E A
  lift r s = (r, s)

module _ {S E A B : Type 0} where
  abbrev pub continue : Result E A → (A → Exec S E B) → Exec S E B
  continue (ok a) f s = f a s
  continue (err e) f s = (err e, s)

  infixl 5 ◌>>=◌ ◌>>◌
  abbrev pub ◌>>=◌ : Exec S E A → (A → Exec S E B) → Exec S E B
  ◌>>=◌ m f s = continue (m s).0 f (m s).1

  abbrev pub ◌>>◌ : Exec S E A → Exec S E B → Exec S E B
  m >> n = m >>= λ _. n

  -- A sequence returns only if both of its parts do.
  pub >>=-eq-ok :
      (m : Exec S E A) (f : A → Exec S E B) (s : S) {b : B}
      → ((m >>= f) s).0 ≡ ok b
      → (a : A) × ((m s).0 ≡ ok a) × ((m >>= f) s ≡ f a (m s).1)
  >>=-eq-ok m f s {b} h = go (m s).0 refl h
    where
      go :
          (r : Result E A)
          → (m s).0 ≡ r
          → (continue r f (m s).1).0 ≡ ok b
          → (a : A) × ((m s).0 ≡ ok a) × ((m >>= f) s ≡ f a (m s).1)
      go (ok a) e k = (a, e, ap (λ r. continue r f (m s).1) e)
      go (err x) e k = cc

-- `P` survives the method, whether it returns or fails.
pub record Preserves {S E A : Type 0} (P : S → Type 0) (m : Exec S E A) : Type 0 where
  pub after : (s : S) → P s → P (m s).1

module _ {S E A : Type 0} {P : S → Type 0} where
  pub Preserves-pure : (a : A) → Preserves {E = E} P (pure a)
  Preserves-pure a = record { after = λ s h. h }

  pub Preserves-raise : (e : E) → Preserves {A = A} P (raise e)
  Preserves-raise e = record { after = λ s h. h }

  pub Preserves-if :
      (b : Bool) (m n : Exec S E A)
      → Preserves P m
      → Preserves P n
      → Preserves P (if b then m else n)
  Preserves-if true m n h k = h
  Preserves-if false m n h k = k

module _ {S E A B : Type 0} {P : S → Type 0} where
  pub Preserves-bind :
      (m : Exec S E A) (f : A → Exec S E B)
      → Preserves P m
      → ((a : A) → Preserves P (f a))
      → Preserves P (m >>= f)
  Preserves-bind m f h k = record { after = λ s p. go (m s).0 (m s).1 (h.after s p) }
    where
      go : (r : Result E A) (t : S) → P t → P (continue r f t).1
      go (ok a) t p = (k a).after t p
      go (err e) t p = p

pub ruleset preserving = (Preserves-pure, Preserves-raise, Preserves-if, Preserves-bind)

-- From a store with `P`, a method that returns leaves its answer and its store with `Q`.
pub record Triple {S E A : Type 0} (P : S → Type 0) (m : Exec S E A) (Q : A → S → Type 0)
    : Type 0 where
  pub after : (s : S) (a : A) → P s → (m s).0 ≡ ok a → Q a (m s).1

module _ {S E A : Type 0} {P : S → Type 0} {Q : A → S → Type 0} where
  pub Triple-pure : (a : A) → ((s : S) → P s → Q a s) → Triple {E = E} P (pure a) Q
  Triple-pure a h = record { after = λ s b p e. subst (λ x. Q x s) (ok_injective e) (h s p) }
    where
      ok_injective : {b : A} → ◌≡◌ {A = Result E A} (ok a) (ok b) → a ≡ b
      ok_injective e = cc

  pub Triple-raise : (e : E) → Triple P (raise e) Q
  Triple-raise e = record { after = λ s b p q. cc }

  pub Triple-if :
      (b : Bool) (m n : Exec S E A)
      → (b ≡ true → Triple P m Q)
      → (b ≡ false → Triple P n Q)
      → Triple P (if b then m else n) Q
  Triple-if true m n h k = h refl
  Triple-if false m n h k = k refl

module _ {S E A B : Type 0} {P : S → Type 0} {Q : B → S → Type 0} where
  pub Triple-bind :
      (R : A → S → Type 0) (m : Exec S E A) (f : A → Exec S E B)
      → Triple P m R
      → ((a : A) → Triple (R a) (f a) Q)
      → Triple P (m >>= f) Q
  Triple-bind R m f h k = record {
    after = λ s b p e. go s (m s).0 (m s).1 b (λ a q. h.after s a p q) e;
  }
    where
      go :
          (s : S) (r : Result E A) (t : S) (b : B)
          → ((a : A) → r ≡ ok a → R a t)
          → (continue r f t).0 ≡ ok b
          → Q b (continue r f t).1
      go s (ok a) t b g e = (k a).after t b (g a refl) e
      go s (err x) t b g e = cc
