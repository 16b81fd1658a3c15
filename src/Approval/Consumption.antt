-- ===== src/Approval/Consumption.antt =====
-- The file that `Consume` of internal/approval uses up, and what is read afterwards.
use mnemosyne_os.Base.{ℕ, ◌≤◌, String, ◌≡◌, ◌≢◌, refl, true, false, none, some, arith, inl, inr}
use mnemosyne_os.Base.Text.{is_blank, trim_space}
use mnemosyne_os.Base.Result.{ok, err, Result-cases}
use mnemosyne_os.Base.Disk.{Entry, Faults, read, remove, list, write}
use mnemosyne_os.Base.Disk.Laws.{read-remove, read-write}
use mnemosyne_os.Approval.Select.{IsGrant, select_reads}
use mnemosyne_os.Approval.Invariant.{IsTidy}
use mnemosyne_os.Approval.{
  Status, approved, consumed, status_dec, Error, Request, Store, Files, is_expired, write_locked,
  replace, is_match, select, spend, consume_selected, consume,
}

-- The file that a successful `Consume` used up, and what it did to it.
pub record IsConsumption (now : ℕ) (profile token : String) (s t : Store) (r : Request)
    (e : Entry Status Request) : Type 0 where
  pub held : read status_dec approved e.name s.files ≡ some e.body
  pub granted : IsGrant now profile token e.body
  pub result : r ≡ spend now e.body
  pub after : t ≡ record s {
    files =
        write status_dec consumed e.body.approval_id
          (spend now e.body)
          (remove status_dec approved e.name s.files);
  }
  pub presented : is_blank token ≡ false

consume_selected_ok :
    (f : Faults) (now : ℕ) (s : Store) (e : Entry Status Request) {r : Request}
    → (consume_selected f now s (ok e)).1 ≡ ok r
    → (r ≡ spend now e.body)
      × ((consume_selected f now s (ok e)).0 ≡ record s {
        files =
            write status_dec consumed e.body.approval_id
              (spend now e.body)
              (remove status_dec approved e.name s.files);
      })
unfolding consume_selected replace write_locked
consume_selected_ok f now s e h = ground arith

consume_selected_err :
    (f : Faults) (now : ℕ) (s : Store) (x : Error) → (consume_selected f now s (err x)).1 ≡ err x
unfolding consume_selected
consume_selected_err f now s x = refl

-- What the loop selected is what was used up.
pub consume_selects :
    (f : Faults) (now : ℕ) (profile token : String) (s : Store) {r : Request}
    → IsTidy s
    → (consume f now profile token s).1 ≡ ok r
    → (e : Entry Status Request) × IsConsumption now profile token s
        (consume f now profile token s).0
        r
        e
unfolding consume
consume_selects f now profile token s {r} h p =
    elim (Result-cases (select f now profile token (list status_dec approved s.files))) [
      | inl (e, q) ↦
          let (held, granted) = select_reads f now profile token s.files h.distinct q in
          let ran : consume f now profile token s ≡ consume_selected f now s (ok e) =
            ground arith in
          let (result, after) = consume_selected_ok f now s e (rw ran at p) in
          (
            e,
            record {
              held = held;
              granted = granted;
              result = result;
              after = rw ran after;
              presented = ground arith;
            },
          )
      | inr (x, q) ↦ absurd (ground (arith, consume_selected_err f now s x))
    ]

pub token_of_match :
    (profile token : String) (r : Request)
    → is_match profile token r ≡ true
    → trim_space token ≡ r.approval_token
unfolding is_match
token_of_match profile token r h = ground arith

pub profile_of_match :
    (profile token : String) (r : Request)
    → is_match profile token r ≡ true
    → r.execution_profile ≡ trim_space profile
unfolding is_match
profile_of_match profile token r h = ground arith

pub in_time_of :
    (now at : ℕ) (r : Request) → is_expired now r ≡ false → r.expires_at ≡ some at → now ≤ at
unfolding is_expired
in_time_of now at r h e = ground arith

-- Reads after a record went from the approved files to the consumed ones.
pub reads_of_spent :
    (d : Status) (m n : String) (x : Request) (k : Files)
    → (read status_dec approved n (write status_dec consumed n x (remove status_dec approved n k))
        ≡ none)
      × (read status_dec consumed n (write status_dec consumed n x (remove status_dec approved n k))
          ≡ some x)
      × (m ≢ n
          → read status_dec d m (write status_dec consumed n x (remove status_dec approved n k))
            ≡ read status_dec d m k)
unfolding status_dec
reads_of_spent d m n x k =
    let rest = remove status_dec approved n k in
    (
      ground (
        arith,
        read-write status_dec consumed approved n n x rest,
        read-remove status_dec approved approved n n k,
      ),
      ground (arith, read-write status_dec consumed consumed n n x rest),
      λ differ. ground (
        arith,
        differ,
        read-write status_dec consumed d n m x rest,
        read-remove status_dec approved d n m k,
      ),
    )
