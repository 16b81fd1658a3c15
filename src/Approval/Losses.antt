-- ===== src/Approval/Losses.antt =====
-- No call on the approval store loses a request, unless a write is refused after the removal.
use mnemosyne_os.Base.{
  ℕ, String, ◌≡◌, refl, sym, subst, ◌∙◌, false, Option, none, some, arith, decided, if_rule, ◌||◌,
  not,
}
use mnemosyne_os.Base.Text.{is_blank}
use mnemosyne_os.Base.Result.{Result, ok, err}
use mnemosyne_os.Base.Disk.{Entry, Faults, read, remove, write}
use mnemosyne_os.Base.Disk.Laws.{
  Absent, IsStored, moved-IsStored, All_at, read_of_Absent, read-write,
}
use mnemosyne_os.Approval.Invariant.{IsPlaced, IsTidy, find_locked_reads}
use mnemosyne_os.Approval.Select.{select_reads}
use mnemosyne_os.Approval.{
  Status, pending, approved, status_dec, Error, Request, CreateRequest, Store, Outcome,
  approval_id_at, new_request, lacks_fields, write_locked, replace, create, revoke, spend,
  consume_selected, consume, grant, approve_found, approve, deny_found, deny,
}

-- Every request of the first store is in the second.
abbrev pub KeepsRequests : Store → Store → Type 0
KeepsRequests s t = (n : String) → IsStored status_dec n s.files → IsStored status_dec n t.files

abbrev KeptIn : Store → Outcome → Type 0
KeptIn s o = KeepsRequests s o.0

module _ (f : Faults) (writes : f.write_fails ≡ false) (s : Store) (h : IsTidy s) where
  replace-Kept :
      (d : Status) (name : String) (x q : Request)
      → read status_dec d name s.files ≡ some q
      → x.approval_id ≡ q.approval_id
      → KeptIn s (replace f d name x s)
  unfolding replace write_locked
  replace-Kept d name x q held same =
      let named : x.approval_id ≡ name =
        same ∙ (All_at status_dec IsPlaced d name s.files h.placed held).by_name in
      if_rule (KeptIn s) f.remove_fails (λ _ n stored. stored)
        λ _. rw writes (λ n stored.
          subst
            (λ m.
              IsStored status_dec n
                (write status_dec x.status m x (remove status_dec d name s.files)))
            (sym named) (moved-IsStored status_dec n name d x.status x s.files stored))

  approve_found-Kept :
      (now : ℕ) (token : Option String) (id by : String) (found : Result Error (Status × Request))
      → ((d : Status) (r : Request) → found ≡ ok (d, r) → read status_dec d id s.files ≡ some r)
      → KeptIn s (approve_found f now token id by s found)
  unfolding approve_found
  approve_found-Kept now token id by (err e) reads = λ n stored. stored
  approve_found-Kept now none id by (ok (d, r)) reads =
      if_rule (KeptIn s) (not (decided (status_dec r.status pending))) (λ _ n stored. stored)
        (λ _ n stored. stored)
  approve_found-Kept now (some t) id by (ok (d, r)) reads =
      if_rule (KeptIn s) (not (decided (status_dec r.status pending))) (λ _ n stored. stored)
        (λ _. replace-Kept d id (grant now s.default_ttl t by r) r (reads d r refl) refl)

  deny_found-Kept :
      (now : ℕ) (id by reason : String) (found : Result Error (Status × Request))
      → ((d : Status) (r : Request) → found ≡ ok (d, r) → read status_dec d id s.files ≡ some r)
      → KeptIn s (deny_found f now id by reason s found)
  unfolding deny_found
  deny_found-Kept now id by reason (err e) reads = λ n stored. stored
  deny_found-Kept now id by reason (ok (d, r)) reads =
      if_rule (KeptIn s) _ (λ _ n stored. stored)
        (λ _. replace-Kept d id (revoke now by reason r) r (reads d r refl) refl)

  consume_selected-Kept :
      (now : ℕ) (found : Result Error (Entry Status Request))
      → ((e : Entry Status Request)
          → found ≡ ok e
          → read status_dec approved e.name s.files ≡ some e.body)
      → KeptIn s (consume_selected f now s found)
  unfolding consume_selected
  consume_selected-Kept now (err e) reads = λ n stored. stored
  consume_selected-Kept now (ok e) reads =
      replace-Kept approved e.name (spend now e.body) e.body (reads e refl) refl

  pub approve-Kept :
      (now : ℕ) (token : Option String) (id by : String) → KeptIn s (approve f now token id by s)
  unfolding approve
  approve-Kept now token id by =
      approve_found-Kept now token id by _ (λ d r. find_locked_reads f id s)

  pub deny-Kept : (now : ℕ) (id by reason : String) → KeptIn s (deny f now id by reason s)
  unfolding deny
  deny-Kept now id by reason = deny_found-Kept now id by reason _ (λ d r. find_locked_reads f id s)

  pub consume-Kept : (now : ℕ) (profile token : String) → KeptIn s (consume f now profile token s)
  unfolding consume
  consume-Kept now profile token =
      if_rule (KeptIn s) (is_blank profile || is_blank token) (λ _ n stored. stored)
        λ _.
          if_rule (KeptIn s) f.list_fails (λ _ n stored. stored)
            λ _.
              consume_selected-Kept now _
                (λ e p. (select_reads f now profile token s.files h.distinct p).0)

  -- A new request does not replace one that is there.
  pub create-Kept :
      (now : ℕ) (req : CreateRequest)
      → Absent (approval_id_at now) s.files
      → KeptIn s (create f now req s)
  unfolding create write_locked new_request
  create-Kept now req a =
      if_rule (KeptIn s) (lacks_fields req) (λ _ n stored. stored)
        λ _. rw writes (λ n (d, q, held). (
          d,
          q,
          ground (
            arith,
            held,
            read-write status_dec pending d (approval_id_at now) n (new_request now req) s.files,
            read_of_Absent status_dec d (approval_id_at now) s.files a,
          ),
        ))
