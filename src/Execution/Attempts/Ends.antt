-- ===== src/Execution/Attempts/Ends.antt =====
-- How the attempts of a shell action end (internal/execution/executor.go).
use mnemosyne_os.Base.{
  String, ℕ, ◌+◌, ◌-◌, ◌≤◌, ◌<◌, ◌≡◌, ◌≢◌, refl, ap, subst, ◌⊎◌, inl, inr, true, false, Option,
  none, some, List, [], ◌∷◌, arith, leb, Bool-cases, length, length-append, zero, suc, ℕ_discrete,
  ◌∙◌,
}
use mnemosyne_os.Base.Result.{ok}
use mnemosyne_os.Base.Number.{read_number}
use mnemosyne_os.Base.Text.{codes, trim_space}
use mnemosyne_os.Execution.{
  ℤ, pos, negsuc, shell, ActionStatus, completed, failed, FailureCategory, no_failure, timeout,
  process_exit, io_failure, execution_failure, ActionRecord, Store,
}
use mnemosyne_os.Execution.Actions.{value_of, move, find_locked, replace_found, save}
use mnemosyne_os.Execution.Attempts.{
  Run, is_success, is_timeout, category_of, should_retry, after_attempt, settle, scan_attempt,
  positive_or_one, clear_failure, shell_attempts, run_shell, normalize_attempt,
  normalize_max_attempts,
}

-- The end of the attempts from `first` on, where `before` attempts are recorded already.
pub record IsEnd (runs : ℕ → Run) (first max before : ℕ) (q : ActionRecord) : Type 0 where
  pub last : ℕ
  pub started : first ≤ last
  pub bounded : last ≤ max
  pub timed_out : (m : ℕ) → first ≤ m → m < last → category_of (runs m).ending ≡ timeout
  pub numbered : q.attempt ≡ last
  pub recorded : length q.attempt_history + first ≡ before + last + 1
  pub outcome :
      ((q.status ≡ completed) × (is_success (runs last).ending ≡ true))
      ⊎ ((q.status ≡ failed)
          × (is_success (runs last).ending ≡ false)
          × ((last ≡ max) ⊎ (category_of (runs last).ending ≢ timeout)))

settle_ok :
    (r : ActionRecord) (st : ActionStatus) (s : Store) {q : ActionRecord}
    → (settle r st s).0 ≡ ok q
    → q ≡ record r { status = st }
unfolding settle
settle_ok r st s {q} h = ground arith

is_timeout_iff :
    (c : FailureCategory)
    → (is_timeout c ≡ true → c ≡ timeout) × (is_timeout c ≡ false → c ≢ timeout)
is_timeout_iff no_failure = (λ e. cc, λ e p. cc)
is_timeout_iff timeout = (λ e. refl, λ e p. cc)
is_timeout_iff process_exit = (λ e. cc, λ e p. cc)
is_timeout_iff io_failure = (λ e. cc, λ e p. cc)
is_timeout_iff execution_failure = (λ e. cc, λ e p. cc)

-- Retrying is for a timeout with attempts left.
retry_cases :
    (c : FailureCategory) (n max : ℕ)
    → n ≤ max
    → ((should_retry shell c n max ≡ true) × (n < max) × (c ≡ timeout))
      ⊎ ((should_retry shell c n max ≡ false) × ((n ≡ max) ⊎ (c ≢ timeout)))
unfolding should_retry
retry_cases c n max h = elim (Bool-cases (leb max n)) [
  | inl e ↦ inr (ground arith, inl (ground arith))
  | inr e ↦ elim (Bool-cases (is_timeout c)) [
    | inl t ↦ inl (ground arith, ground arith, (is_timeout_iff c).0 t)
    | inr t ↦ inr (ground arith, inr ((is_timeout_iff c).1 t))
  ]
]

ends_here :
    (runs : ℕ → Run) (n max : ℕ) (r : ActionRecord) (q : ActionRecord)
    → n ≤ max
    → q.attempt ≡ n
    → length q.attempt_history ≡ length r.attempt_history + 1
    → ((q.status ≡ completed) × (is_success (runs n).ending ≡ true))
      ⊎ ((q.status ≡ failed)
          × (is_success (runs n).ending ≡ false)
          × ((n ≡ max) ⊎ (category_of (runs n).ending ≢ timeout)))
    → IsEnd runs n max (length r.attempt_history) q
ends_here runs n max r q h a c o = record {
  last = n;
  started = omega arith;
  bounded = h;
  timed_out = λ m p k. absurd (omega arith);
  numbered = a;
  recorded = omega (arith, c);
  outcome = o;
}

one_more :
    (runs : ℕ → Run) (n max before : ℕ) (q : ActionRecord)
    → category_of (runs n).ending ≡ timeout
    → IsEnd runs (suc n) max (before + 1) q
    → IsEnd runs n max before q
one_more runs n max before q t h = record {
  last = h.last;
  started = omega (arith, h.started);
  bounded = h.bounded;
  timed_out = λ m p k. elim (ℕ_discrete n m) [
    | yes e ↦ subst (λ i. category_of (runs i).ending ≡ timeout) e t
    | no e ↦ h.timed_out m (omega (arith, e)) k
  ];
  numbered = h.numbered;
  recorded = omega (arith, h.recorded);
  outcome = h.outcome;
}

history_grows :
    (n : ℕ) (run : Run) (r : ActionRecord)
    → length (after_attempt n run r).attempt_history ≡ length r.attempt_history + 1
unfolding after_attempt
history_grows n run r = omega (arith, length-append r.attempt_history (_ ∷ []))

shell_attempts-IsEnd :
    (runs : ℕ → Run) (left n max : ℕ) (r : ActionRecord) (s : Store) {q : ActionRecord}
    → n + left ≡ max + 1
    → n ≤ max
    → (shell_attempts runs left n max r s).0 ≡ ok q
    → IsEnd runs n max (length r.attempt_history) q
unfolding shell_attempts after_attempt
shell_attempts-IsEnd runs zero n max r s e h p = absurd (omega arith)
shell_attempts-IsEnd runs (suc left) n max r s {q} e h p =
    elim (Bool-cases (is_success (runs n).ending)) [
      | inl b ↦
          let same : q ≡ record (clear_failure done) { status = completed } =
            settle_ok (clear_failure done) completed s (ground arith) in
          ends_here runs n max r q h (ap (λ x. x.attempt) same ∙ numbered)
            (ap (λ x. length x.attempt_history) same ∙ history_grows n (runs n) r)
            (inl (ap (λ x. x.status) same, b))
      | inr b ↦ elim (retry_cases (category_of (runs n).ending) n max h) [
        | inl (t, k, c) ↦ one_more runs n max (length r.attempt_history) q c (
            subst (λ l. IsEnd runs (suc n) max l q) (history_grows n (runs n) r)
              (shell_attempts-IsEnd runs left (suc n) max done s (omega arith) (omega arith)
                (ground arith)))
        | inr (t, o) ↦
            let same : q ≡ record done { status = failed } =
              settle_ok done failed s (ground arith) in
            ends_here runs n max r q h (ap (λ x. x.attempt) same ∙ numbered)
              (ap (λ x. length x.attempt_history) same ∙ history_grows n (runs n) r)
              (inr (ap (λ x. x.status) same, b, o))
      ]
    ]
  where
    done : ActionRecord
    done = after_attempt n (runs n) r

    numbered : (after_attempt n (runs n) r).attempt ≡ n
    numbered = ground arith

-- With no operation refused, an action is moved.
pub move_calm :
    (r : ActionRecord) (st : ActionStatus) (s : Store) → s.faults ≡ [] → (move r st s).0 ≡ ok tt
unfolding move find_locked replace_found save
move_calm r st s f = ground (arith, f)

settle_calm :
    (r : ActionRecord) (st : ActionStatus) (s : Store)
    → s.faults ≡ []
    → (settle r st s).0 ≡ ok (record r { status = st })
unfolding settle
settle_calm r st s f = ground (arith, move_calm (record r { status = st }) st s f)

shell_attempts_calm :
    (runs : ℕ → Run) (left n max : ℕ) (r : ActionRecord) (s : Store)
    → s.faults ≡ []
    → (q : ActionRecord) × ((shell_attempts runs left n max r s).0 ≡ ok q)
unfolding shell_attempts
shell_attempts_calm runs zero n max r s f = (record r { status = failed }, settle_calm r failed s f)
shell_attempts_calm runs (suc left) n max r s f =
    let done = after_attempt n (runs n) r in
    elim (Bool-cases (is_success (runs n).ending)) [
      | inl b ↦ (
        record (clear_failure done) { status = completed },
        ground (arith, settle_calm (clear_failure done) completed s f),
      )
      | inr b ↦ elim (Bool-cases (should_retry shell (category_of (runs n).ending) n max)) [
        | inl t ↦
            let (q, e) = shell_attempts_calm runs left (suc n) max done s f in
            (q, ground (arith, e))
        | inr t ↦ (record done { status = failed }, ground (arith, settle_calm done failed s f))
      ]
    ]

-- With no file operation refused, the attempts of a shell action end: there is at least one and
-- none after the last that is allowed, every one but the last timed out, each is recorded, and the
-- action is completed when the last succeeded and failed when it did not.
pub run_shell_ends :
    (runs : ℕ → Run) (max : ℕ) (r : ActionRecord) (s : Store)
    → s.faults ≡ []
    → r.attempt ≤ max
    → (q : ActionRecord) × ((run_shell runs max r s).0 ≡ ok q)
      × IsEnd runs r.attempt max (length r.attempt_history) q
unfolding run_shell
run_shell_ends runs max r s f h =
    let (q, e) = shell_attempts_calm runs (max + 1 - r.attempt) r.attempt max r s f in
    (q, e, shell_attempts-IsEnd runs (max + 1 - r.attempt) r.attempt max r s (omega arith) h e)

scan_attempt_positive : (cs : List ℕ) → 1 ≤ scan_attempt cs
unfolding scan_attempt
scan_attempt_positive [] = omega arith
scan_attempt_positive (c ∷ cs) =
    ground (arith, or_one (read_number cs), or_one (read_number (c ∷ cs)))
  where
    or_one : (o : Option ℕ) → 1 ≤ positive_or_one o
    or_one none = omega arith
    or_one (some n) = ground arith

-- The attempts that a request asks for are from 1 on and end no earlier than they start.
pub normalize_max_attempts_bounds :
    (explicit limit : ℤ) (metadata : List (String × String))
    → (1 ≤ normalize_attempt explicit metadata)
      × (normalize_attempt explicit metadata
          ≤ normalize_max_attempts limit (normalize_attempt explicit metadata))
unfolding normalize_attempt normalize_max_attempts
normalize_max_attempts_bounds explicit limit metadata =
    (positive explicit, not_below limit (normalize_attempt explicit metadata))
  where
    positive : (i : ℤ) → 1 ≤ normalize_attempt i metadata
    positive (pos (suc n)) = omega arith
    positive (pos zero) = scan_attempt_positive (codes (trim_space (value_of "attempt" metadata)))
    positive (negsuc n) = scan_attempt_positive (codes (trim_space (value_of "attempt" metadata)))

    not_below : (i : ℤ) (n : ℕ) → n ≤ normalize_max_attempts i n
    not_below (pos (suc m)) n = ground arith
    not_below (pos zero) n = ground arith
    not_below (negsuc m) n = ground arith
