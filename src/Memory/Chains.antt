-- ===== src/Memory/Chains.antt =====
-- The versions of a card form a chain, through every method that writes (internal/memory/store.go).
use mnemosyne_os.Base.{
  ℕ, suc, ◌+◌, String, ◌≡◌, ◌≢◌, sym, subst, none, some, List, [], ◌∷◌, ◌++◌, arith, str_dec,
  get_last?, All, Option-cases, inl, inr,
}
use mnemosyne_os.Base.Assoc
use mnemosyne_os.Memory.{Card, Graph}
use mnemosyne_os.Memory.Cards.{version_link, versions_of}
use mnemosyne_os.Memory.Cards.Laws.{with_versions}

module _ {Num : Type 0} where
  -- Versions that follow version `n`, which is named `prev`.
  abbrev pub Chain : String → ℕ → String → List (Card Num) → Type 0
  Chain id n prev [] = Unit
  Chain id n prev (c ∷ vs) =
      (c.card_id ≡ id)
      × (c.version ≡ suc n)
      × (c.prev_version ≡ prev)
      × Chain id (suc n) (version_link id (suc n)) vs

  -- The versions of a card: not none, numbered from 1, each naming the one before.
  abbrev pub IsHistory : String → List (Card Num) → Type 0
  IsHistory id vs = Chain id 0 "" vs × (vs ≢ [])

  abbrev pub HasHistory : String × List (Card Num) → Type 0
  HasHistory e = IsHistory e.0 e.1

  abbrev pub IsChained : Graph Num → Type 0
  IsChained g = All HasHistory g.cards

  abbrev pub Follows : Card Num → Card Num → Type 0
  Follows c d =
      (d.card_id ≡ c.card_id)
      × (d.version ≡ c.version + 1)
      × (d.prev_version ≡ version_link c.card_id c.version)

  Chain-append :
      (id : String) (n : ℕ) (prev : String) (vs : List (Card Num)) (c d : Card Num)
      → Chain id n prev vs
      → get_last? vs ≡ some c
      → Follows c d
      → Chain id n prev (vs ++ d ∷ [])
  Chain-append id n prev [] c d h e f = cc
  Chain-append id n prev (x ∷ []) c d h e f = ground (arith, h.0, h.1, h.2, f.0, f.1, f.2)
  Chain-append id n prev (x ∷ y ∷ vs) c d h e f =
      (h.0, h.1, h.2, Chain-append id (suc n) (version_link id (suc n)) (y ∷ vs) c d h.3 e f)

  append_is_some : (vs : List (Card Num)) (d : Card Num) → vs ++ d ∷ [] ≢ []
  append_is_some [] d e = cc
  append_is_some (x ∷ vs) d e = cc

  -- What is found in a chained store is a history.
  pub versions_of-Chain :
      (id : String) (g : Graph Num) → IsChained g → Chain id 0 "" (versions_of id g)
  versions_of-Chain id g h = elim (Option-cases (Assoc.get str_dec id g.cards)) [
    | inl e ↦ subst (λ o. Chain id 0 "" (elim o [ none ↦ [] | some vs ↦ vs ])) (sym e) tt
    | inr (vs, e) ↦
        subst (λ o. Chain id 0 "" (elim o [ none ↦ [] | some vs ↦ vs ])) (sym e)
          (Assoc.All-get str_dec HasHistory id g.cards h e).0
  ]

  pub card_id-get_last? :
      (id : String) (n : ℕ) (prev : String) (vs : List (Card Num)) {c : Card Num}
      → Chain id n prev vs
      → get_last? vs ≡ some c
      → c.card_id ≡ id
  card_id-get_last? id n prev [] h e = absurd (cc)
  card_id-get_last? id n prev (x ∷ []) h e = ground (arith, h.0, e)
  card_id-get_last? id n prev (x ∷ y ∷ vs) h e =
      card_id-get_last? id (suc n) (version_link id (suc n)) (y ∷ vs) h.3 e

  pub append-IsHistory :
      (id : String) (g : Graph Num) (c d : Card Num)
      → IsChained g
      → get_last? (versions_of id g) ≡ some c
      → Follows c d
      → IsHistory id (versions_of id g ++ d ∷ [])
  append-IsHistory id g c d h e f = (
    Chain-append id 0 "" (versions_of id g) c d (versions_of-Chain id g h) e f,
    append_is_some (versions_of id g) d,
  )

  pub with_versions-IsChained :
      (id : String) (vs : List (Card Num)) (g : Graph Num)
      → IsChained g
      → IsHistory id vs
      → IsChained (with_versions id vs g)
  with_versions-IsChained id vs g h k = Assoc.All-put str_dec HasHistory id vs g.cards k h
