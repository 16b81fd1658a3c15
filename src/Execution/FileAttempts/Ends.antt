-- ===== src/Execution/FileAttempts/Ends.antt =====
-- How the attempts of a file action end (internal/execution/executor.go).
use mnemosyne_os.Base.{
  ℕ, ◌+◌, ◌-◌, ◌≤◌, ◌<◌, String, ◌≡◌, refl, ap, subst, ◌∙◌, ◌⊎◌, inl, inr, Bool, true, false, not,
  ◌||◌, Option, none, some, List, [], ◌∷◌, arith, leb, Bool-cases, length, length-append, zero, suc,
  ℕ_discrete,
}
use mnemosyne_os.Base.Result.{ok}
use mnemosyne_os.Execution.{
  ActionKind, file_read, file_write, ActionStatus, completed, failed, io_failure, ActionAttempt,
  ActionRecord, Store, Method,
}
use mnemosyne_os.Execution.Attempts.{should_retry}
use mnemosyne_os.Execution.Attempts.Ends.{move_calm}
use mnemosyne_os.Execution.FileAttempts.{
  Refusal, Access, noted, done_with, refused_with, settle_last, given_up, file_away, settle_access,
  after_refusal, file_attempts, run_file_read, run_file_write, write_report,
}

abbrev pub is_retried : Option Refusal → Bool
is_retried none = false
is_retried (some e) = e.is_retryable

abbrev pub succeeded : Option Refusal → Bool
succeeded none = true
succeeded (some _) = false

-- The end of the attempts from `first` on, where `before` attempts are recorded already.
pub record IsFileEnd (tries : ℕ → Access) (first max before : ℕ) (q : ActionRecord) : Type 0 where
  pub last : ℕ
  pub started : first ≤ last
  pub bounded : last ≤ max
  pub retried : (m : ℕ) → first ≤ m → m < last → is_retried (tries m).refusal ≡ true
  pub numbered : q.attempt ≡ last
  pub recorded : length q.attempt_history + first ≡ before + last + 1
  pub settled : q.retryable ≡ false
  pub outcome :
      ((q.status ≡ completed) × (succeeded (tries last).refusal ≡ true))
      ⊎ ((q.status ≡ failed)
          × (succeeded (tries last).refusal ≡ false)
          × ((last ≡ max) ⊎ (is_retried (tries last).refusal ≡ false)))

file_away_ok :
    (r : ActionRecord) (st : ActionStatus) (s : Store) {q : ActionRecord}
    → (file_away r st s).0 ≡ ok q
    → q ≡ r
unfolding file_away
file_away_ok r st s {q} h = ground arith

file_away_calm :
    (r : ActionRecord) (st : ActionStatus) (s : Store) → s.faults ≡ [] → (file_away r st s).0 ≡ ok r
unfolding file_away
file_away_calm r st s f = ground (arith, move_calm r st s f)

length-settle_last : (entries : List ActionAttempt) → length (settle_last entries) ≡ length entries
unfolding settle_last
length-settle_last [] = refl
length-settle_last (a ∷ []) = refl
length-settle_last (a ∷ b ∷ rest) = omega (arith, length-settle_last (b ∷ rest))

history_grows :
    (n : ℕ) (a : Access) (r : ActionRecord)
    → length (noted n a r).attempt_history ≡ length r.attempt_history + 1
unfolding noted
history_grows n a r = omega (arith, length-append r.attempt_history (_ ∷ []))

-- The two kinds of file actions.
abbrev pub IsFileKind : ActionKind → Type 0
IsFileKind k = (k ≡ file_read) ⊎ (k ≡ file_write)

should_retry_lem :
    (kind : ActionKind) (n max : ℕ)
    → IsFileKind kind
    → should_retry kind io_failure n max ≡ not (leb max n)
unfolding should_retry
should_retry_lem kind n max (inl e) = ground (arith, e)
should_retry_lem kind n max (inr e) = ground (arith, e)

ends_here :
    (tries : ℕ → Access) (n max before : ℕ) (q : ActionRecord)
    → n ≤ max
    → q.attempt ≡ n
    → length q.attempt_history ≡ before + 1
    → q.retryable ≡ false
    → ((q.status ≡ completed) × (succeeded (tries n).refusal ≡ true))
      ⊎ ((q.status ≡ failed)
          × (succeeded (tries n).refusal ≡ false)
          × ((n ≡ max) ⊎ (is_retried (tries n).refusal ≡ false)))
    → IsFileEnd tries n max before q
ends_here tries n max before q h a c s o = record {
  last = n;
  started = omega arith;
  bounded = h;
  retried = λ m p k. absurd (omega arith);
  numbered = a;
  recorded = omega (arith, c);
  settled = s;
  outcome = o;
}

one_more :
    (tries : ℕ → Access) (n max before : ℕ) (q : ActionRecord)
    → is_retried (tries n).refusal ≡ true
    → IsFileEnd tries (suc n) max (before + 1) q
    → IsFileEnd tries n max before q
one_more tries n max before q t h = record {
  last = h.last;
  started = omega (arith, h.started);
  bounded = h.bounded;
  retried = λ m p k. elim (ℕ_discrete n m) [
    | yes e ↦ subst (λ i. is_retried (tries i).refusal ≡ true) e t
    | no e ↦ h.retried m (omega (arith, e)) k
  ];
  numbered = h.numbered;
  recorded = omega (arith, h.recorded);
  settled = h.settled;
  outcome = h.outcome;
}

-- Whether the loop goes round again after a refusal.
again_cases :
    (kind : ActionKind) (n max : ℕ) (e : Refusal)
    → IsFileKind kind
    → n ≤ max
    → ((not e.is_retryable || not (should_retry kind io_failure n max) ≡ false)
        × (n < max)
        × (e.is_retryable ≡ true))
      ⊎ ((not e.is_retryable || not (should_retry kind io_failure n max) ≡ true)
          × ((n ≡ max) ⊎ (e.is_retryable ≡ false)))
again_cases kind n max e k h = elim (Bool-cases e.is_retryable) [
  | inl t ↦ elim (Bool-cases (leb max n)) [
    | inl l ↦ inr (ground (arith, t, l, should_retry_lem kind n max k), inl (ground (arith, l)))
    | inr l ↦ inl (ground (arith, t, l, should_retry_lem kind n max k), ground (arith, l), t)
  ]
  | inr t ↦ inr (ground (arith, t), inr t)
]

-- With no operation refused, the attempts of a file action end, and end as described.
file_attempts-IsFileEnd :
    (kind : ActionKind) (tries : ℕ → Access) (left n max : ℕ) (r : ActionRecord) (s : Store)
    → IsFileKind kind
    → s.faults ≡ []
    → n + left ≡ max + 1
    → n ≤ max
    → (q : ActionRecord) × ((file_attempts kind tries left n max r s).0 ≡ ok q)
      × IsFileEnd tries n max (length r.attempt_history) q
unfolding file_attempts settle_access noted
file_attempts-IsFileEnd kind tries zero n max r s k f e h = absurd (omega arith)
file_attempts-IsFileEnd kind tries (suc left) n max r s k f e h =
    of_refusal (tries n).refusal refl
      (λ u v. file_attempts-IsFileEnd kind tries left (suc n) max u s k f (omega arith) v)
  where
    here : ActionRecord
    here = noted n (tries n) r

    rest : Option Refusal → Method ActionRecord
    rest o = file_attempts kind tries left (suc n) max (after_refusal o here)

    of_refusal :
        (o : Option Refusal)
        → (tries n).refusal ≡ o
        → ((u : ActionRecord)
            → suc n ≤ max
            → (q : ActionRecord) × ((file_attempts kind tries left (suc n) max u s).0 ≡ ok q)
              × IsFileEnd tries (suc n) max (length u.attempt_history) q)
        → (q : ActionRecord) × ((settle_access kind n max o (tries n).output here (rest o) s).0
            ≡ ok q)
          × IsFileEnd tries n max (length r.attempt_history) q
    of_refusal none p ih = (
      done_with (tries n).output here,
      file_away_calm (done_with (tries n).output here) completed s f,
      ends_here tries n max (length r.attempt_history) (done_with (tries n).output here) h
          (ground arith) (history_grows n (tries n) r) refl (inl (refl, ap succeeded p)),
    )
    of_refusal (some x) p ih = elim (again_cases kind n max x k h) [
      | inl (b, l, t) ↦
          let (q, ran, end) = ih (refused_with x here) (omega (arith, l)) in
          (
            q,
            ground (arith, b, ran),
            one_more tries n max (length r.attempt_history) q (ap is_retried p ∙ t)
                (subst (λ i. IsFileEnd tries (suc n) max i q) (history_grows n (tries n) r) end),
          )
      | inr (b, o) ↦
          let q = given_up (refused_with x here) in
          (
            q,
            ground (arith, b, file_away_calm q failed s f),
            ends_here tries n max (length r.attempt_history) q h (ground arith)
                (length-settle_last here.attempt_history ∙ history_grows n (tries n) r) refl
                (inr (
                  refl,
                  ap succeeded p,
                  elim o [ inl i ↦ inl i | inr i ↦ inr (ap is_retried p ∙ i) ],
                )),
          )
    ]

-- With no file operation refused on the actions, the attempts of reading a file end within the
-- bound. Every one but the last met an error that may pass, each is recorded, the record is not
-- marked to be retried, and it is completed when the last succeeded and failed when it did not.
pub run_file_read_ends :
    (tries : ℕ → Access) (max : ℕ) (r : ActionRecord) (s : Store)
    → s.faults ≡ []
    → r.attempt ≤ max
    → (q : ActionRecord) × ((run_file_read tries max r s).0 ≡ ok q)
      × IsFileEnd tries r.attempt max (length r.attempt_history) q
unfolding run_file_read
run_file_read_ends tries max r s f h =
    file_attempts-IsFileEnd file_read tries (max + 1 - r.attempt) r.attempt max r s (inl refl) f
      (omega arith) h

-- With no file operation refused on the actions, the attempts of writing a file end within the
-- bound. Every one but the last met an error that may pass, each is recorded, the record is not
-- marked to be retried, and it is completed when the last succeeded and failed when it did not.
pub run_file_write_ends :
    (content : String) (tries : ℕ → Access) (max : ℕ) (r : ActionRecord) (s : Store)
    → s.faults ≡ []
    → r.attempt ≤ max
    → (q : ActionRecord) × ((run_file_write content tries max r s).0 ≡ ok q)
      × IsFileEnd tries r.attempt max (length r.attempt_history) q
unfolding run_file_write
run_file_write_ends content tries max r s f h =
    let (q, ran, end) =
      file_attempts-IsFileEnd file_write (λ n. record (tries n) { output = write_report content })
        (max + 1 - r.attempt) r.attempt max r s (inr refl) f (omega arith) h in
    (
      q,
      ran,
      record {
        last = end.last;
        started = end.started;
        bounded = end.bounded;
        retried = end.retried;
        numbered = end.numbered;
        recorded = end.recorded;
        settled = end.settled;
        outcome = end.outcome;
      },
    )
