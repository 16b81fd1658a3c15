-- ===== src/Base/Disk/Laws.antt =====
-- What the stores may rely on: reads after writes, and predicates on all files.
use mnemosyne_os.Base.{
  String, ◌≡◌, ◌≢◌, refl, sym, subst, inl, inr, Bool-cases, Option-cases, ◌&&◌, none, some, List,
  [], ◌∷◌, arith, All, if_pos, if_neg, if◌then◌else◌, decided, str_dec,
}
use mnemosyne_os.Base.Contains.{Contains}
use mnemosyne_os.Base.Disk.{Entry, is_file, read, remove, list, insert, find_in, write}

-- No two files share a name, in whatever directories they stand.
abbrev pub Absent : {D R : Type 0} → String → List (Entry D R) → Type 0
Absent n = All (λ e. e.name ≢ n)

abbrev pub Distinct : {D R : Type 0} → List (Entry D R) → Type 0
Distinct [] = Unit
Distinct (e ∷ k) = Absent e.name k × Distinct k

module _ {D R : Type 0} (P : Entry D R → Type 0) where
  pub All-insert : (e : Entry D R) (k : List (Entry D R)) → P e → All P k → All P (insert e k)
  unfolding insert
  All-insert e [] p h = (p, tt)
  All-insert e (f ∷ k) p h = ground (arith, All-insert e k p h.1)

module _ {D R : Type 0} where
  pub Distinct-insert :
      (e : Entry D R) (k : List (Entry D R)) → Absent e.name k → Distinct k → Distinct (insert e k)
  unfolding insert
  Distinct-insert e [] a h = (tt, tt)
  Distinct-insert e (f ∷ k) a h = ground (
    arith,
    Distinct-insert e k a.1 h.1,
    All-insert (λ x. x.name ≢ f.name) e k (λ p. a.0 (sym p)) h.0,
  )

module _ {D R : Type 0} (dec : Discrete D) where
  module _ (P : Entry D R → Type 0) where
    pub All-remove :
        (d : D) (n : String) (k : List (Entry D R)) → All P k → All P (remove dec d n k)
    unfolding remove
    All-remove d n [] h = tt
    All-remove d n (e ∷ k) h = ground (arith, All-remove d n k h.1)

    pub All-write :
        (d : D) (n : String) (r : R) (k : List (Entry D R))
        → P (record { dir = d; name = n; body = r })
        → All P k
        → All P (write dec d n r k)
    unfolding write
    All-write d n r k p h = All-insert P _ _ p (All-remove d n k h)

    pub All_at :
        (d : D) (n : String) (k : List (Entry D R)) {r : R}
        → All P k
        → read dec d n k ≡ some r
        → P (record { dir = d; name = n; body = r })
    unfolding read
    All_at d n [] h e = absurd (ground arith)
    All_at d n (f ∷ k) {r} h e = elim (Bool-cases (is_file dec d n f)) [
      | inl here ↦
          let same : f ≡ record { dir = d; name = n; body = r } = ground arith in subst P same h.0
      | inr there ↦ All_at d n k h.1 (ground arith)
    ]

  pub Distinct-remove :
      (d : D) (n : String) (k : List (Entry D R)) → Distinct k → Distinct (remove dec d n k)
  unfolding remove
  Distinct-remove d n [] h = tt
  Distinct-remove d n (e ∷ k) h =
      ground (arith, Distinct-remove d n k h.1, All-remove (λ x. x.name ≢ e.name) d n k h.0)

  pub read_of_Absent :
      (d : D) (n : String) (k : List (Entry D R)) → Absent n k → read dec d n k ≡ none
  unfolding read
  read_of_Absent d n [] h = refl
  read_of_Absent d n (e ∷ k) h = ground (arith, read_of_Absent d n k h.1)

  read_of_Absent_name :
      (d : D) (n : String) (e : Entry D R) (k : List (Entry D R))
      → Absent e.name k
      → e.name ≡ n
      → read dec d n k ≡ none
  read_of_Absent_name d n e k h p = read_of_Absent d n k (rw p at h)

  Absent-remove_step :
      (d : D) (n : String) (e : Entry D R) (k : List (Entry D R))
      → Absent e.name k
      → e.name ≡ n
      → Absent n (remove dec d n k)
  Absent-remove_step d n e k h p = All-remove (λ x. x.name ≢ n) d n k (rw p at h)

  -- Once its file is removed, no file has the name.
  pub Absent-remove :
      (d : D) (n : String) (k : List (Entry D R)) {r : R}
      → Distinct k
      → read dec d n k ≡ some r
      → Absent n (remove dec d n k)
  unfolding read remove
  Absent-remove d n [] h e = absurd (ground arith)
  Absent-remove d n (f ∷ k) {r} h e = ground (
    arith,
    Absent-remove d n k {r = r} h.1,
    Absent-remove_step d n f k h.0,
    read_of_Absent_name d n f k h.0,
  )

  pub read-remove :
      (d c : D) (n m : String) (k : List (Entry D R))
      → read dec c m (remove dec d n k)
        ≡ (if decided (dec d c) && decided (str_dec n m) then none else read dec c m k)
  unfolding read remove
  read-remove d c n m [] = ground arith
  read-remove d c n m (e ∷ k) = ground (arith, read-remove d c n m k)

  read-insert :
      (e : Entry D R) (c : D) (m : String) (k : List (Entry D R))
      → read dec e.dir e.name k ≡ none
      → read dec c m (insert e k) ≡ (if is_file dec c m e then some e.body else read dec c m k)
  unfolding read insert
  read-insert e c m [] h = refl
  read-insert e c m (f ∷ k) h = ground (arith, read-insert e c m k)

  pub read-write :
      (d c : D) (n m : String) (r : R) (k : List (Entry D R))
      → read dec c m (write dec d n r k)
        ≡ (if decided (dec d c) && decided (str_dec n m) then some r else read dec c m k)
  unfolding write
  read-write d c n m r k = ground (
    arith,
    read-insert (record { dir = d; name = n; body = r }) c m (remove dec d n k),
    read-remove d d n n k,
    read-remove d c n m k,
  )

  -- What is written under a new name, or over its own file, keeps the names distinct.
  pub Distinct-write :
      (d : D) (n : String) (r : R) (k : List (Entry D R))
      → Absent n (remove dec d n k)
      → Distinct k
      → Distinct (write dec d n r k)
  unfolding write
  Distinct-write d n r k a h = Distinct-insert _ _ a (Distinct-remove d n k h)

  -- A name leads to one file.
  pub read_unique :
      (d c : D) (n : String) (k : List (Entry D R)) {r q : R}
      → Distinct k
      → read dec d n k ≡ some r
      → read dec c n k ≡ some q
      → d ≡ c
  unfolding read
  read_unique d c n [] h p q = absurd (ground arith)
  read_unique d c n (e ∷ k) {r} {q} h p p' = ground (
    arith,
    read_unique d c n k {r = r} {q = q} h.1,
    read_of_Absent_name d n e k h.0,
    read_of_Absent_name c n e k h.0,
  )

  -- What is found is read from the directory that is named.
  pub read-find_in :
      (ds : List D) (n : String) (k : List (Entry D R)) {d : D} {r : R}
      → find_in dec ds n k ≡ some (d, r)
      → read dec d n k ≡ some r
  unfolding find_in
  read-find_in [] n k e = absurd (ground arith)
  read-find_in (c ∷ ds) n k {d} {r} e = ground (arith, read-find_in ds n k {d = d} {r = r})

  -- A file in one of the directories is found.
  pub find_in_of_read :
      (ds : List D) (d : D) (n : String) (k : List (Entry D R)) {r : R}
      → Contains d ds
      → Distinct k
      → read dec d n k ≡ some r
      → find_in dec ds n k ≡ some (d, r)
  unfolding find_in
  find_in_of_read [] d n k m h e = absurd m
  find_in_of_read (c ∷ ds) d n k {r} (inl p) h e = ground arith
  find_in_of_read (c ∷ ds) d n k {r} (inr m) h e = elim (Option-cases (read dec c n k)) [
    | inl miss ↦ ground (arith, find_in_of_read ds d n k {r = r} m h e)
    | inr (q, hit) ↦ ground (arith, read_unique c d n k {r = q} {q = r} h hit e)
  ]

  pub find_in_of_Absent :
      (ds : List D) (n : String) (k : List (Entry D R)) → Absent n k → find_in dec ds n k ≡ none
  unfolding find_in
  find_in_of_Absent [] n k a = refl
  find_in_of_Absent (c ∷ ds) n k a =
      ground (arith, read_of_Absent c n k a, find_in_of_Absent ds n k a)

  pub All-list :
      (P : Entry D R → Type 0) (d : D) (k : List (Entry D R))
      → All P k
      → All (λ e. P e × (e.dir ≡ d)) (list dec d k)
  unfolding list
  All-list P d [] h = tt
  All-list P d (e ∷ k) h = elim (dec e.dir d) [
    | yes p ↦ rw (if_pos _ p) ((h.0, p), All-list P d k h.1)
    | no p ↦ rw (if_neg _ p) (All-list P d k h.1)
  ]

  All-reads_step :
      (e : Entry D R) (k : List (Entry D R)) (xs : List (Entry D R))
      → Absent e.name xs
      → All (λ x. read dec x.dir x.name k ≡ some x.body) xs
      → All (λ x. read dec x.dir x.name (e ∷ k) ≡ some x.body) xs
  unfolding read
  All-reads_step e k [] a h = tt
  All-reads_step e k (x ∷ xs) a h = ground (arith, All-reads_step e k xs a.1 h.1)

  -- Every file is read under its own name.
  pub All-reads :
      (k : List (Entry D R)) → Distinct k → All (λ x. read dec x.dir x.name k ≡ some x.body) k
  unfolding read
  All-reads [] h = tt
  All-reads (e ∷ k) h = (ground arith, All-reads_step e k k h.0 (All-reads k h.1))

module _ {D : Type 0} (dec : Discrete D) where
  -- The file is in one of the directories.
  abbrev pub IsStored : {R : Type 0} → String → List (Entry D R) → Type 0
  IsStored {R} n k = (d : D) × (r : R) × (read dec d n k ≡ some r)

  -- What was there is there after any file has gone to another directory, or to the same.
  pub moved-IsStored :
      {R : Type 0} (n named : String) (d next : D) (x : R) (k : List (Entry D R))
      → IsStored n k
      → IsStored n (write dec next named x (remove dec d named k))
  moved-IsStored n named d next x k (c, q, held) = elim (str_dec named n) [
    | yes same ↦
        (next, x, ground (arith, same, read-write dec next next named n x (remove dec d named k)))
    | no differ ↦ (
      c,
      q,
      ground (
        arith,
        differ,
        held,
        read-write dec next c named n x (remove dec d named k),
        read-remove dec d c named n k,
      ),
    )
  ]
