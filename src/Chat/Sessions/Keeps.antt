-- ===== src/Chat/Sessions/Keeps.antt =====
-- What the methods of internal/chat/store.go keep: a sound store.
use mnemosyne_os.Base.{◌≡◌, refl, subst, Bool, true, false, if◌then◌else◌}
use mnemosyne_os.Base.Result.{Result, ok, err}
use mnemosyne_os.Base.Exec.{pure, raise, continue, ◌>>=◌}
use mnemosyne_os.Chat.{Store, Method, Error}
use mnemosyne_os.Chat.Sessions.View.{IsSound}

-- From a sound store a method leaves a sound store, and what it returns satisfies `Q`.
pub record Keeps {Num A : Type 0} (m : Method Num A) (Q : A → Type 0) : Type 0 where
  pub after : (s : Store Num) → IsSound s → IsSound (m s).1 × ((a : A) → (m s).0 ≡ ok a → Q a)

abbrev pub Any : {A : Type 0} → A → Type 0
Any _ = Unit

module _ {Num A B : Type 0} {Q : B → Type 0} where
  pub Keeps-bind :
      (R : A → Type 0) (m : Method Num A) (f : A → Method Num B)
      → Keeps m R
      → ((a : A) → R a → Keeps (f a) Q)
      → Keeps (m >>= f) Q
  Keeps-bind R m f h k = record {
    after = λ s p. go (m s).0 (m s).1 (h.after s p).0 (h.after s p).1;
  }
    where
      go :
          (r : Result Error A) (t : Store Num)
          → IsSound t
          → ((a : A) → r ≡ ok a → R a)
          → IsSound (continue r f t).1 × ((b : B) → (continue r f t).0 ≡ ok b → Q b)
      go (ok a) t p q = (k a (q a refl)).after t p
      go (err e) t p q = (p, λ b e. cc)

module _ {Num A : Type 0} {Q : A → Type 0} where
  pub Keeps-pure : (a : A) → Q a → Keeps {Num = Num} (pure a) Q
  Keeps-pure a q = record { after = λ s h. (h, λ b e. subst Q (ok_injective e) q) }
    where
      ok_injective : {b : A} → ◌≡◌ {A = Result Error A} (ok a) (ok b) → a ≡ b
      ok_injective e = cc

  pub Keeps-raise : (e : Error) → Keeps {Num = Num} (raise e) Q
  Keeps-raise e = record { after = λ s h. (h, λ b p. cc) }

  pub Keeps-if :
      (b : Bool) (m n : Method Num A) → Keeps m Q → Keeps n Q → Keeps (if b then m else n) Q
  Keeps-if true m n h k = h
  Keeps-if false m n h k = k

pub ruleset keeping = (Keeps-bind, Keeps-pure, Keeps-raise, Keeps-if)
