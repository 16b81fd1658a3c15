-- ===== src/Approval/Shrinking.antt =====
-- No call of internal/approval but `Approve` adds to the approved files.
use mnemosyne_os.Base.{
  ℕ, String, ◌≡◌, ◌≢◌, sym, ap, ◌⊎◌, ◌∙◌, some, arith, inl, inr, decided, if_rule, ◌&&◌, ◌||◌, not,
}
use mnemosyne_os.Base.Text.{is_blank}
use mnemosyne_os.Base.Result.{Result, ok, err}
use mnemosyne_os.Base.Disk.{Entry, Faults, read, remove, write}
use mnemosyne_os.Base.Disk.Laws.{read-write, read-remove}
use mnemosyne_os.Approval.Tokens.{TokensDiffer}
use mnemosyne_os.Approval.{
  Status, pending, approved, status_dec, Error, Request, CreateRequest, Files, Store, Outcome,
  new_request, lacks_fields, write_locked, replace, create, revoke, spend, consume_selected,
  consume, deny_found, find_locked, deny,
}

-- Every approved file of the second store is one of the first.
abbrev pub Shrinks : Files → Files → Type 0
Shrinks k l =
    (n : String) (r : Request)
    → read status_dec approved n l ≡ some r
    → read status_dec approved n k ≡ some r

abbrev pub ShrinksTo : Store → Outcome → Type 0
ShrinksTo s o = Shrinks s.files o.0.files

pub TokensDiffer-Shrinks : (s t : Store) → Shrinks s.files t.files → TokensDiffer s → TokensDiffer t
TokensDiffer-Shrinks s t sh u n m r q a b = u n m r q (sh n r a) (sh m q b)

pub remove-Shrinks : (d : Status) (n : String) (k : Files) → Shrinks k (remove status_dec d n k)
remove-Shrinks d n k m r h = ground (arith, read-remove status_dec d approved n m k)

write-Shrinks :
    (d : Status) (n : String) (x : Request) (k : Files)
    → d ≢ approved
    → Shrinks k (write status_dec d n x k)
write-Shrinks d n x k c m r h = ground (arith, read-write status_dec d approved n m x k)

write_locked-Shrinks :
    (f : Faults) (x : Request) (s : Store) → x.status ≢ approved → ShrinksTo s (write_locked f x s)
unfolding write_locked
write_locked-Shrinks f x s c =
    if_rule (ShrinksTo s) f.write_fails (λ _ n r h. h)
      λ _. write-Shrinks x.status x.approval_id x s.files c

replace-Shrinks :
    (f : Faults) (d : Status) (n : String) (x : Request) (s : Store)
    → x.status ≢ approved
    → ShrinksTo s (replace f d n x s)
unfolding replace
replace-Shrinks f d n x s c =
    if_rule (ShrinksTo s) f.remove_fails (λ _ n r h. h)
      λ _ m r h. remove-Shrinks d n s.files m r (write_locked-Shrinks f x _ c m r h)

deny_found-Shrinks :
    (f : Faults) (now : ℕ) (id by reason : String) (s : Store)
    (found : Result Error (Status × Request))
    → ShrinksTo s (deny_found f now id by reason s found)
unfolding deny_found
deny_found-Shrinks f now id by reason s (err x) = λ n r h. h
deny_found-Shrinks f now id by reason s (ok (d, r)) =
    if_rule (ShrinksTo s)
      (not (decided (status_dec r.status pending)) && not (decided (status_dec r.status approved)))
      (λ _ n q h. h) (λ _. replace-Shrinks f d id (revoke now by reason r) s (λ p. cc))

pub deny-Shrinks :
    (f : Faults) (now : ℕ) (id by reason : String) (s : Store)
    → ShrinksTo s (deny f now id by reason s)
unfolding deny
deny-Shrinks f now id by reason s = deny_found-Shrinks f now id by reason s (find_locked f id s)

consume_selected-Shrinks :
    (f : Faults) (now : ℕ) (s : Store) (found : Result Error (Entry Status Request))
    → ShrinksTo s (consume_selected f now s found)
unfolding consume_selected
consume_selected-Shrinks f now s (err x) = λ n r h. h
consume_selected-Shrinks f now s (ok e) =
    replace-Shrinks f approved e.name (spend now e.body) s (λ p. cc)

pub consume-Shrinks :
    (f : Faults) (now : ℕ) (profile token : String) (s : Store)
    → ShrinksTo s (consume f now profile token s)
unfolding consume
consume-Shrinks f now profile token s =
    if_rule (ShrinksTo s) (is_blank profile || is_blank token) (λ _ n q h. h)
      λ _. if_rule (ShrinksTo s) f.list_fails (λ _ n q h. h) λ _. consume_selected-Shrinks f now s _

pub create-Shrinks :
    (f : Faults) (now : ℕ) (req : CreateRequest) (s : Store) → ShrinksTo s (create f now req s)
unfolding create new_request
create-Shrinks f now req s =
    if_rule (ShrinksTo s) (lacks_fields req) (λ _ n q h. h)
      λ _. write_locked-Shrinks f (new_request now req) s (λ p. cc)

-- An approved file after a grant is the granted one or an old one.
granted_or_old :
    (m n id : String) (d : Status) (x : Request) (k : Files) {q : Request}
    → read status_dec approved m (write status_dec approved id x (remove status_dec d n k)) ≡ some q
    → ((id ≡ m) × (x ≡ q)) ⊎ (read status_dec approved m k ≡ some q)
unfolding status_dec
granted_or_old m n id d x k {q} h = ground (
  arith,
  read-write status_dec approved approved id m x (remove status_dec d n k),
  read-remove status_dec d approved n m k,
)

pub grant-TokensDiffer :
    (n id : String) (d : Status) (x : Request) (s : Store)
    → TokensDiffer s
    → ((m : String) (r : Request)
        → read status_dec approved m s.files ≡ some r
        → r.approval_token ≢ x.approval_token)
    → TokensDiffer
        (record s { files = write status_dec approved id x (remove status_dec d n s.files) })
grant-TokensDiffer n id d x s u fresh m l r q hm hl e =
    both (granted_or_old m n id d x s.files hm) (granted_or_old l n id d x s.files hl)
  where
    both :
        ((id ≡ m) × (x ≡ r)) ⊎ (read status_dec approved m s.files ≡ some r)
        → ((id ≡ l) × (x ≡ q)) ⊎ (read status_dec approved l s.files ≡ some q)
        → m ≡ l
    both (inl a) (inl b) = sym a.0 ∙ b.0
    both (inl a) (inr b) = absurd (fresh l q b (sym e ∙ ap (λ z. z.approval_token) (sym a.1)))
    both (inr a) (inl b) = absurd (fresh m r a (e ∙ ap (λ z. z.approval_token) (sym b.1)))
    both (inr a) (inr b) = u m l r q a b e
