-- ===== src/Approval/Invariant.antt =====
-- What holds of the approval files between two calls.
use mnemosyne_os.Base.{
  ℕ, String, ◌≡◌, ◌≢◌, refl, Option, none, some, arith, All, if_rule, ◌||◌, not, decided,
}
use mnemosyne_os.Base.Text.{is_blank}
use mnemosyne_os.Base.Result.{Result, ok, err}
use mnemosyne_os.Base.Disk.{Entry, Faults, read}
use mnemosyne_os.Base.Disk.Laws.{
  Absent, Distinct, All-remove, All-write, All_at, Distinct-write, Distinct-remove, Absent-remove,
  read-find_in,
}
use mnemosyne_os.Approval.Select.{select_reads}
use mnemosyne_os.Approval.{
  Status, pending, approved, status_dec, Error, Request, CreateRequest, Store, Outcome, statuses,
  write_locked, find_locked, approval_id_at, new_request, lacks_fields, create, replace, grant,
  approve_found, approve, revoke, deny_found, deny, spend, consume_selected, consume,
}

-- A file stands in the directory of its record's status, under its record's name, and only an
-- approved request holds a token.
pub record IsPlaced (e : Entry Status Request) : Type 0 where
  pub by_status : e.body.status ≡ e.dir
  pub by_name : e.body.approval_id ≡ e.name
  pub cleared : e.dir ≢ approved → e.body.approval_token ≡ ""

pub record IsTidy (s : Store) : Type 0 where
  pub placed : All IsPlaced s.files
  pub distinct : Distinct s.files

abbrev TidyAfter : Outcome → Type 0
TidyAfter o = IsTidy o.0

-- A record that may be written over what `name` held.
pub record IsSuccessor (name : String) (r : Request) : Type 0 where
  pub same_name : r.approval_id ≡ name
  pub cleared : r.status ≢ approved → r.approval_token ≡ ""

pub write_locked-IsTidy :
    (f : Faults) (r : Request) (s : Store)
    → IsTidy s
    → Absent r.approval_id s.files
    → (r.status ≢ approved → r.approval_token ≡ "")
    → IsTidy (write_locked f r s).0
unfolding write_locked
write_locked-IsTidy f r s h a c =
    if_rule TidyAfter f.write_fails (λ _. h)
      λ _. record {
        placed =
            All-write status_dec IsPlaced r.status r.approval_id r s.files
              (record { by_status = refl; by_name = refl; cleared = c }) h.placed;
        distinct =
            Distinct-write status_dec r.status r.approval_id r s.files
              (All-remove status_dec (λ x. x.name ≢ r.approval_id) _ _ s.files a) h.distinct;
      }

replace-IsTidy :
    (f : Faults) (d : Status) (name : String) (r q : Request) (s : Store)
    → IsTidy s
    → read status_dec d name s.files ≡ some q
    → IsSuccessor name r
    → IsTidy (replace f d name r s).0
unfolding replace
replace-IsTidy f d name r q s h e g =
    if_rule TidyAfter f.remove_fails (λ _. h)
      λ _.
        write_locked-IsTidy f r _
          (record {
            placed = All-remove status_dec IsPlaced d name s.files h.placed;
            distinct = Distinct-remove status_dec d name s.files h.distinct;
          })
          (rw g.same_name (Absent-remove status_dec d name s.files h.distinct e)) g.cleared

pub create-IsTidy :
    (f : Faults) (now : ℕ) (req : CreateRequest) (s : Store)
    → IsTidy s
    → Absent (approval_id_at now) s.files
    → IsTidy (create f now req s).0
unfolding create new_request
create-IsTidy f now req s h a =
    if_rule TidyAfter (lacks_fields req) (λ _. h)
      (λ _. write_locked-IsTidy f (new_request now req) s h a (λ _. refl))

-- What `find_locked` returns is a file under the name.
pub find_locked_reads :
    (f : Faults) (id : String) (s : Store) {d : Status} {r : Request}
    → find_locked f id s ≡ ok (d, r)
    → read status_dec d id s.files ≡ some r
unfolding find_locked
find_locked_reads f id s {d} {r} e =
    ground (arith, read-find_in status_dec statuses id s.files {d = d} {r = r})

pub IsPlaced-at :
    (d : Status) (n : String) (s : Store) {r : Request}
    → IsTidy s
    → read status_dec d n s.files ≡ some r
    → IsPlaced (record { dir = d; name = n; body = r })
IsPlaced-at d n s h e = All_at status_dec IsPlaced d n s.files h.placed e

abbrev Found : Type 0
Found = Result Error (Status × Request)

abbrev IsRead : String → Store → Found → Type 0
IsRead id s found =
    (d : Status) (r : Request) → found ≡ ok (d, r) → read status_dec d id s.files ≡ some r

approve_found-IsTidy :
    (f : Faults) (now : ℕ) (token : Option String) (id by : String) (s : Store) (found : Found)
    → IsTidy s
    → IsRead id s found
    → IsTidy (approve_found f now token id by s found).0
unfolding approve_found
approve_found-IsTidy f now token id by s (err x) h g = h
approve_found-IsTidy f now none id by s (ok (d, r)) h g = ground arith
approve_found-IsTidy f now (some t) id by s (ok (d, r)) h g =
    if_rule TidyAfter (not (decided (status_dec r.status pending))) (λ _. h)
      λ _. replace-IsTidy f d id (grant now s.default_ttl t by r) r s h (g d r refl) (record {
        same_name = (IsPlaced-at d id s h (g d r refl)).by_name;
        cleared = λ p. absurd (p refl);
      })

pub approve-IsTidy :
    (f : Faults) (now : ℕ) (token : Option String) (id by : String) (s : Store)
    → IsTidy s
    → IsTidy (approve f now token id by s).0
unfolding approve
approve-IsTidy f now token id by s h =
    approve_found-IsTidy f now token id by s _ h (λ d r. find_locked_reads f id s)

deny_found-IsTidy :
    (f : Faults) (now : ℕ) (id by reason : String) (s : Store) (found : Found)
    → IsTidy s
    → IsRead id s found
    → IsTidy (deny_found f now id by reason s found).0
unfolding deny_found
deny_found-IsTidy f now id by reason s (err x) h g = h
deny_found-IsTidy f now id by reason s (ok (d, r)) h g =
    if_rule TidyAfter _ (λ _. h)
      λ _.
        replace-IsTidy f d id (revoke now by reason r) r s h (g d r refl)
          (record { same_name = (IsPlaced-at d id s h (g d r refl)).by_name; cleared = λ _. refl })

pub deny-IsTidy :
    (f : Faults) (now : ℕ) (id by reason : String) (s : Store)
    → IsTidy s
    → IsTidy (deny f now id by reason s).0
unfolding deny
deny-IsTidy f now id by reason s h =
    deny_found-IsTidy f now id by reason s _ h (λ d r. find_locked_reads f id s)

consume_selected-IsTidy :
    (f : Faults) (now : ℕ) (s : Store) (found : Result Error (Entry Status Request))
    → IsTidy s
    → ((e : Entry Status Request)
        → found ≡ ok e
        → read status_dec approved e.name s.files ≡ some e.body)
    → IsTidy (consume_selected f now s found).0
unfolding consume_selected
consume_selected-IsTidy f now s (err x) h g = h
consume_selected-IsTidy f now s (ok e) h g =
    replace-IsTidy f approved e.name (spend now e.body) e.body s h (g e refl) (record {
      same_name = (IsPlaced-at approved e.name s h (g e refl)).by_name;
      cleared = λ _. refl;
    })

pub consume-IsTidy :
    (f : Faults) (now : ℕ) (profile token : String) (s : Store)
    → IsTidy s
    → IsTidy (consume f now profile token s).0
unfolding consume
consume-IsTidy f now profile token s h =
    if_rule TidyAfter (is_blank profile || is_blank token) (λ _. h)
      λ _.
        if_rule TidyAfter f.list_fails (λ _. h)
          λ _.
            consume_selected-IsTidy f now s _ h
              λ e p. (select_reads f now profile token s.files h.distinct p).0
