-- ===== src/Execution/Actions/Moves.antt =====
-- `Store.Move` of internal/execution/store.go.
use mnemosyne_os.Base.{
  ◌≡◌, ◌≢◌, refl, inl, inr, String, true, none, some, [], ◌∷◌, arith, All, if◌then◌else◌, decided,
}
use mnemosyne_os.Base.Disk
use mnemosyne_os.Base.Disk.{Entry}
use mnemosyne_os.Base.Contains.{Contains}
use mnemosyne_os.Base.Disk.Laws.{
  Absent, Distinct, All-remove, All-write, Distinct-remove, Distinct-write, Absent-remove,
  read_of_Absent, read-remove, find_in_of_read, read-write,
}
use mnemosyne_os.Base.Result.{ok}
use mnemosyne_os.Execution.{
  ActionStatus, pending, running, completed, failed, status_dec, ActionRecord, Files, Store,
}
use mnemosyne_os.Execution.Actions.{
  statuses, save, find_locked, replace_found, move, put_record, drop_record, or_missing,
}

-- A file stands in the directory of its action's status, under its action's name.
pub record IsPlaced (e : Entry ActionStatus ActionRecord) : Type 0 where
  pub by_status : e.body.status ≡ e.dir
  pub by_name : e.body.action_id ≡ e.name

-- No action is in two directories.
pub record IsTidy (k : Files) : Type 0 where
  pub placed : All IsPlaced k
  pub distinct : Distinct k

listed : (d : ActionStatus) → Contains d statuses
listed pending = inl refl
listed running = inr (inl refl)
listed completed = inr (inr (inl refl))
listed failed = inr (inr (inr (inl refl)))

-- In a tidy store and with no operation refused, an action that is found goes to the directory of
-- its new status, with the time at which the stored one started.
pub move_found :
    (r old : ActionRecord) (d next : ActionStatus) (s : Store)
    → IsTidy s.actions
    → s.faults ≡ []
    → Disk.read status_dec d r.action_id s.actions ≡ some old
    → move r next s ≡ (
      ok tt,
      record s {
        actions =
            Disk.write status_dec next r.action_id
              (record r { status = next; started_at = old.started_at })
              (Disk.remove status_dec d r.action_id s.actions);
      },
    )
unfolding move find_locked replace_found save put_record drop_record or_missing
move_found r old d next s h f held = ground (
  arith,
  f,
  find_in_of_read status_dec statuses d r.action_id s.actions {r = old} (listed d) h.distinct held,
)

IsTidy-write :
    (r : ActionRecord) (k : Files)
    → Absent r.action_id k
    → IsTidy k
    → IsTidy (Disk.write status_dec r.status r.action_id r k)
IsTidy-write r k a h = record {
  placed =
      All-write status_dec IsPlaced r.status r.action_id r k
        (record { by_status = refl; by_name = refl }) h.placed;
  distinct =
      Distinct-write status_dec r.status r.action_id r k
        (All-remove status_dec (λ x. x.name ≢ r.action_id) _ _ k a) h.distinct;
}

-- In a tidy store and with no operation refused, moving an action that is found succeeds and leaves
-- the store tidy; the action's file is then in the directory of the new status, with the time at
-- which the stored one started, in no other directory, and every other file is as it was.
pub move-IsTidy :
    (r old : ActionRecord) (d next : ActionStatus) (s : Store)
    → IsTidy s.actions
    → s.faults ≡ []
    → Disk.read status_dec d r.action_id s.actions ≡ some old
    → ((move r next s).0 ≡ ok tt)
      × IsTidy (move r next s).1.actions
      × ((c : ActionStatus)
          → Disk.read status_dec c r.action_id (move r next s).1.actions ≡ (
              if decided (status_dec next c)
              then some (record r { status = next; started_at = old.started_at })
              else none))
      × ((c : ActionStatus) (n : String)
          → n ≢ r.action_id
          → Disk.read status_dec c n (move r next s).1.actions ≡ Disk.read status_dec c n s.actions)
move-IsTidy r old d next s h f held =
    let moved = record r { status = next; started_at = old.started_at } in
    let gone = Absent-remove status_dec d r.action_id s.actions h.distinct held in
    rw (move_found r old d next s h f held) (
      refl,
      IsTidy-write moved (Disk.remove status_dec d r.action_id s.actions) gone (record {
        placed = All-remove status_dec IsPlaced d r.action_id s.actions h.placed;
        distinct = Distinct-remove status_dec d r.action_id s.actions h.distinct;
      }),
      (λ c. ground (
        arith,
        read-write status_dec next c r.action_id r.action_id moved
            (Disk.remove status_dec d r.action_id s.actions),
        read_of_Absent status_dec c r.action_id (Disk.remove status_dec d r.action_id s.actions)
            gone,
      )),
      (λ c n other. ground (
        arith,
        other,
        read-write status_dec next c r.action_id n moved
            (Disk.remove status_dec d r.action_id s.actions),
        read-remove status_dec d c r.action_id n s.actions,
      )),
    )

-- When the stored file of an action cannot be read and nothing else is refused, Move succeeds and
-- leaves that file where it is, so that the action stands in two directories.
pub move_duplicates :
    (r old : ActionRecord) (d next : ActionStatus) (s : Store)
    → IsTidy s.actions
    → s.faults ≡ true ∷ []
    → Disk.read status_dec d r.action_id s.actions ≡ some old
    → d ≢ next
    → ((move r next s).0 ≡ ok tt)
      × (Disk.read status_dec d r.action_id (move r next s).1.actions ≡ some old)
      × (Disk.read status_dec next r.action_id (move r next s).1.actions
          ≡ some (record r { status = next }))
unfolding move find_locked replace_found save put_record or_missing
move_duplicates r old d next s h f held n =
    let found =
      find_in_of_read status_dec statuses d r.action_id s.actions {r = old} (listed d) h.distinct
        held in
    let written : move r next s ≡ (
      ok tt,
      record s {
        actions = Disk.write status_dec next r.action_id (record r { status = next }) s.actions;
        faults = [];
      },
    ) =
      ground (arith, f, found) in
    rw written (
      refl,
      ground (
        arith,
        n,
        held,
        read-write status_dec next d r.action_id r.action_id (record r { status = next }) s.actions,
      ),
      ground (
        arith,
        read-write status_dec next next r.action_id r.action_id (record r { status = next })
            s.actions,
      ),
    )
