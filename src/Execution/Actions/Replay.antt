-- ===== src/Execution/Actions/Replay.antt =====
-- `tryReplay` of internal/execution/executor.go: an action that was completed before is not run.
use mnemosyne_os.Base.{
  ℕ, String, ◌≡◌, refl, sym, ap, subst, ◌∙◌, inl, inr, Bool, true, some, List, [], ◌∷◌, map, arith,
  All, Bool-cases, if_rule, ◌⊎◌, str_dec, false,
}
use mnemosyne_os.Base.Disk
use mnemosyne_os.Base.Disk.{Entry}
use mnemosyne_os.Base.Disk.Laws.{Distinct, All-list, All-reads, read-write}
use mnemosyne_os.Base.Sort.{sort_by, All-sort_by}
use mnemosyne_os.Base.Result.{Result, ok, err}
use mnemosyne_os.Base.Text.{trim_space, is_blank}
use mnemosyne_os.Base.Exec.{Triple, Triple-pure, Triple-raise, Triple-if, Triple-bind}
use mnemosyne_os.Execution.{
  try_operation, completed, status_dec, Error, action_not_found, io_error, denied, ActionRecord,
  Files, Store,
}
use mnemosyne_os.Execution.Actions.{
  started_later, is_same_action, keep_same, or_none_found, find_completed, read_each,
  read_directory, replay_of, replay_found, try_replay, value_of, save, put_record,
}

read_each_lem : (rs : List ActionRecord) → Triple (λ _. Unit) (read_each rs) (λ xs _. xs ≡ rs)
unfolding read_each
read_each_lem [] = Triple-pure [] (λ s p. refl)
read_each_lem (r ∷ rs) =
    Triple-bind (λ _ _. Unit) try_operation _ (record { after = λ s a p e. tt })
      (λ _.
        Triple-bind (λ xs _. xs ≡ rs) (read_each rs) _ (read_each_lem rs)
          (λ xs. record { after = λ s ys p e. ground (arith, p) }))

abbrev pub Stored : Files → ActionRecord → Type 0
Stored k r = (name : String) × (Disk.read status_dec completed name k ≡ some r)

-- The records of the directory of the completed actions are what its files hold.
listed_Stored :
    (k : Files) → Distinct k → All (Stored k) (map (λ e. e.body) (Disk.list status_dec completed k))
listed_Stored k h = bodies (Disk.list status_dec completed k) (
    All-list status_dec (λ x. Disk.read status_dec x.dir x.name k ≡ some x.body) completed k
      (All-reads status_dec k h))
  where
    bodies :
        (l : Files)
        → All (λ x. (Disk.read status_dec x.dir x.name k ≡ some x.body) × (x.dir ≡ completed)) l
        → All (Stored k) (map (λ e. e.body) l)
    bodies [] p = tt
    bodies (x ∷ l) p = (
      (x.name, subst (λ d. Disk.read status_dec d x.name k ≡ some x.body) p.0.1 p.0.0),
      bodies l p.1,
    )

keep_same-All :
    (P : ActionRecord → Type 0) (test : ActionRecord → Bool) (rs : List ActionRecord)
    → All P rs
    → All (λ r. P r × (test r ≡ true)) (keep_same test rs)
unfolding keep_same
keep_same-All P test [] h = tt
keep_same-All P test (r ∷ rs) h =
    if_rule (All (λ r. P r × (test r ≡ true))) (test r)
      (λ e. ((h.0, e), keep_same-All P test rs h.1)) (λ _. keep_same-All P test rs h.1)

abbrev IsSame : ActionRecord → String → Files → ActionRecord → Type 0
IsSame r fingerprint k old =
    Stored k old
    × (is_same_action r.kind r.execution_profile (trim_space r.idempotency_key) fingerprint old
        ≡ true)

head-All :
    (P : ActionRecord → Type 0) (rs : List ActionRecord) (s : Store) {x : ActionRecord}
    → All P rs
    → (or_none_found rs s).0 ≡ ok x
    → P x
unfolding or_none_found
head-All P [] s h e = absurd (ground arith)
head-All P (r ∷ rs) s {x} h e = subst P (ok_injective e) h.0
  where
    ok_injective : ◌≡◌ {A = Result Error ActionRecord} (ok r) (ok x) → r ≡ x
    ok_injective p = cc

read_directory_lem :
    (k : Files)
    → Triple
        (λ s. s.actions ≡ k)
        (read_directory completed)
        (λ xs _. xs ≡ map (λ e. e.body) (Disk.list status_dec completed k))
unfolding read_directory
read_directory_lem k = record {
  after = λ s xs p e.
      let bodies = map (λ x. x.body) (Disk.list status_dec completed s.actions) in
      (Triple-bind {P = λ _. Unit} {Q = λ ys _. ys ≡ bodies} (λ _ _. Unit) try_operation
          (λ _. read_each bodies) (record { after = λ _ _ _ _. tt })
          (λ _. read_each_lem bodies)).after
        s xs tt e
      ∙ ap (λ l. map (λ x. x.body) (Disk.list status_dec completed l)) p;
}

find_completed_lem :
    (r : ActionRecord) (fingerprint : String) (k : Files)
    → Distinct k
    → Triple
        (λ s. s.actions ≡ k)
        (find_completed r.kind r.execution_profile r.idempotency_key fingerprint)
        (λ old _. IsSame r fingerprint k old)
unfolding find_completed
find_completed_lem r fingerprint k h =
    let test =
      is_same_action r.kind r.execution_profile (trim_space r.idempotency_key) fingerprint in
    Triple-if (is_blank r.idempotency_key) _ _ (λ _. Triple-raise action_not_found)
      (λ _.
        Triple-bind (λ xs _. xs ≡ map (λ e. e.body) (Disk.list status_dec completed k))
          (read_directory completed) _ (read_directory_lem k)
          (λ xs. record {
            after = λ s old p e.
                head-All (IsSame r fingerprint k) (sort_by started_later (keep_same test xs)) s
                  (All-sort_by started_later (IsSame r fingerprint k) (keep_same test xs) (
                    keep_same-All (Stored k) test xs
                      (subst (All (Stored k)) (sym p) (listed_Stored k h))))
                  e;
          }))

-- A stored completed action that does what the new one asks for: it is of the same kind, was run
-- under the same profile, and has the same key and, where one is given, the same fingerprint.
pub record IsRepeat (r : ActionRecord) (fingerprint : String) (k : Files) (old : ActionRecord)
    : Type 0 where
  pub keyed : is_blank r.idempotency_key ≡ false
  pub stored : Stored k old
  pub kind : old.kind ≡ r.kind
  pub profile : old.execution_profile ≡ r.execution_profile
  pub key : trim_space old.idempotency_key ≡ trim_space r.idempotency_key
  pub print :
      (fingerprint ≡ "") ⊎ (trim_space (value_of "request_fingerprint" old.metadata) ≡ fingerprint)

-- The new record is completed with what the old one gave, and says so.
pub record TakesOver (now : ℕ) (old q : ActionRecord) : Type 0 where
  pub completed_now : q.status ≡ completed
  pub replayed : q.replayed ≡ true
  pub named : q.replay_of_action_id ≡ old.action_id
  pub stdout : q.stdout ≡ old.stdout
  pub stderr : q.stderr ≡ old.stderr
  pub exit_code : q.exit_code ≡ old.exit_code
  pub finished : q.finished_at ≡ some now

IsSame-IsRepeat :
    (r : ActionRecord) (fingerprint : String) (k : Files) (old : ActionRecord)
    → is_blank r.idempotency_key ≡ false
    → IsSame r fingerprint k old
    → IsRepeat r fingerprint k old
unfolding is_same_action
IsSame-IsRepeat r fingerprint k old b (stored, same) = record {
  keyed = b;
  stored = stored;
  kind = ground (arith, same);
  profile = ground (arith, same);
  key = ground (arith, same);
  print = elim (str_dec fingerprint "") [ yes e ↦ inl e | no e ↦ inr (ground (arith, e, same)) ];
}

replay_of-TakesOver :
    (now : ℕ) (r old : ActionRecord) {q : ActionRecord}
    → q ≡ replay_of now r old
    → TakesOver now old q
replay_of-TakesOver now r old made = record {
  completed_now = ap (λ x. x.status) made;
  replayed = ap (λ x. x.replayed) made;
  named = ap (λ x. x.replay_of_action_id) made;
  stdout = ap (λ x. x.stdout) made;
  stderr = ap (λ x. x.stderr) made;
  exit_code = ap (λ x. x.exit_code) made;
  finished = ap (λ x. x.finished_at) made;
}

-- The record that comes back has been saved.
replay_found_ok :
    (now : ℕ) (r old q : ActionRecord) (s : Store)
    → (replay_found now r (ok old) s).0 ≡ ok (some q)
    → (q ≡ replay_of now r old)
      × (Disk.read status_dec completed q.action_id (replay_found now r (ok old) s).1.actions
          ≡ some q)
unfolding replay_found save put_record
replay_found_ok now r old q s e =
    let made : q ≡ replay_of now r old = ground arith in
    (
      made,
      ground (
        arith,
        made,
        e,
        read-write status_dec completed completed r.action_id r.action_id (replay_of now r old)
            s.actions,
      ),
    )

replayed_from :
    (now : ℕ) (r : ActionRecord) (fingerprint : String) (s : Store) (q : ActionRecord)
    → Distinct s.actions
    → let find = find_completed r.kind r.execution_profile r.idempotency_key fingerprint in
      (found : Result Error ActionRecord)
      → (find s).0 ≡ found
      → (replay_found now r found (find s).1).0 ≡ ok (some q)
      → (old : ActionRecord) × IsSame r fingerprint s.actions old
        × (q ≡ replay_of now r old)
        × (Disk.read status_dec completed q.action_id
              (replay_found now r found (find s).1).1.actions
            ≡ some q)
unfolding replay_found
replayed_from now r fingerprint s q h (ok old) p k =
    let find = find_completed r.kind r.execution_profile r.idempotency_key fingerprint in
    let (made, kept) = replay_found_ok now r old q (find s).1 k in
    (old, (find_completed_lem r fingerprint s.actions h).after s old refl p, made, kept)
replayed_from now r fingerprint s q h (err action_not_found) p k = absurd (ground arith)
replayed_from now r fingerprint s q h (err io_error) p k = absurd (ground arith)
replayed_from now r fingerprint s q h (err denied) p k = absurd (ground arith)

-- When no two files have one name, what is replayed is a stored completed action of the same kind,
-- profile and key, which is not blank, and of the same fingerprint where one is given; the new
-- record is completed with its output, names it, keeps its own identifier, kind, profile and key,
-- and is stored among the completed actions.
pub try_replay_ok :
    (now : ℕ) (r : ActionRecord) (fingerprint : String) (s : Store) (q : ActionRecord)
    → Distinct s.actions
    → (try_replay now r fingerprint s).0 ≡ ok (some q)
    → ((old : ActionRecord) × IsRepeat r fingerprint s.actions old × TakesOver now old q)
      × (q.action_id ≡ r.action_id)
      × (q.kind ≡ r.kind)
      × (q.execution_profile ≡ r.execution_profile)
      × (q.idempotency_key ≡ r.idempotency_key)
      × (Disk.read status_dec completed q.action_id (try_replay now r fingerprint s).1.actions
          ≡ some q)
unfolding try_replay
try_replay_ok now r fingerprint s q h e = elim (Bool-cases (is_blank r.idempotency_key)) [
  | inl b ↦ absurd (ground (arith, b))
  | inr b ↦
      let find = find_completed r.kind r.execution_profile r.idempotency_key fingerprint in
      let ran : try_replay now r fingerprint s ≡ replay_found now r (find s).0 (find s).1 =
        ground (arith, b) in
      let (old, same, made, kept) =
        replayed_from now r fingerprint s q h (find s).0 refl (rw ran at e) in
      (
        (
          old,
          IsSame-IsRepeat r fingerprint s.actions old b same,
          replay_of-TakesOver now r old made,
        ),
        ap (λ x. x.action_id) made,
        ap (λ x. x.kind) made,
        ap (λ x. x.execution_profile) made,
        ap (λ x. x.idempotency_key) made,
        rw ran kept,
      )
]
