-- ===== src/Base/Assoc.antt =====
-- Go maps as association lists: a key is written in place, or added at the end.
pub mod Keys
use mnemosyne_os.Base.Tests.{All}
use mathlib.Core.Logic.{ite, if_neg}
use mathlib.Core.List.{List, [], ◌∷◌}
use mathlib.Core.Option.{Option, none, some}
use mathlib.Core.Path.{◌≡◌, refl, subst}
use native.Mathlib.Omega.{arith}

module _ {ℓ} {K V : Type ℓ} (dec : Discrete K) where
  unfoldable pub get : K → List (K × V) → Option V
  get k [] = none
  get k ((j, v) ∷ m) = ite (dec j k) (some v) (get k m)

  unfoldable pub put : K → V → List (K × V) → List (K × V)
  put k v [] = (k, v) ∷ []
  put k v ((j, w) ∷ m) = ite (dec j k) ((k, v) ∷ m) ((j, w) ∷ put k v m)

  unfoldable pub del : K → List (K × V) → List (K × V)
  del k [] = []
  del k ((j, w) ∷ m) = let rest = del k m in ite (dec j k) rest ((j, w) ∷ rest)

  pub get-put :
      (k j : K) (v : V) (m : List (K × V)) → get j (put k v m) ≡ ite (dec k j) (some v) (get j m)
  unfolding get put
  get-put k j v [] = refl
  get-put k j v ((i, w) ∷ m) = ground (arith, get-put k j v m)

  pub get-del : (k j : K) (m : List (K × V)) → get j (del k m) ≡ ite (dec k j) none (get j m)
  unfolding get del
  get-del k j [] = ground arith
  get-del k j ((i, w) ∷ m) = ground (arith, get-del k j m)

  -- Writing a key twice is writing it once.
  pub put-put : (k : K) (v w : V) (m : List (K × V)) → put k w (put k v m) ≡ put k w m
  unfolding put
  put-put k v w [] = ground arith
  put-put k v w ((i, u) ∷ m) = ground (arith, put-put k v w m)

  module _ (P : K × V → Type ℓ) where
    pub All-put : (k : K) (v : V) (m : List (K × V)) → P (k, v) → All P m → All P (put k v m)
    unfolding put
    All-put k v [] p h = (p, tt)
    All-put k v ((j, w) ∷ m) p h = ground (arith, All-put k v m p h.1)

    pub All-get : (k : K) (m : List (K × V)) {v : V} → All P m → get k m ≡ some v → P (k, v)
    unfolding get
    All-get k [] h e = cc
    All-get k ((j, w) ∷ m) {v} h e = elim (dec j k) [
      | yes p ↦ subst P (pair p (ground arith)) h.0
      | no p ↦ All-get k m h.1 (rw (if_neg _ p) at e)
    ]
      where
        pair : {a b : K} {x y : V} → a ≡ b → x ≡ y → ◌≡◌ {A = K × V} (a, x) (b, y)
        pair p q i = (p i, q i)
