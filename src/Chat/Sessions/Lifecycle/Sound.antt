-- ===== src/Chat/Sessions/Lifecycle/Sound.antt =====
-- Every file of a session names its session (internal/chat/store.go), whatever is refused.
use mnemosyne_os.Base.{
  ℕ, String, ◌≡◌, refl, Bool, ◌&&◌, ◌||◌, true, false, Option, none, some, arith, decided,
  if◌then◌else◌, str_dec,
}
use mnemosyne_os.Base.Assoc
use mnemosyne_os.Base.Disk
use mnemosyne_os.Base.Disk.Laws.{read-write, read-remove}
use mnemosyne_os.Base.Result.{Result, ok, err}
use mnemosyne_os.Chat.{
  Transcript, Document, blank, damaged, whole, Folder, history, archive, folder_dec, Store, Method,
  Error, not_exist, invalid, decode_error, io_error, try_operation,
}
use mnemosyne_os.Chat.Sessions.{
  load_locked, load_found, decode, save_locked, put_in, history_exists, append, upsert,
  ensure_session, rename_session,
}
use mnemosyne_os.Chat.Sessions.Lifecycle.{
  archive_session, restore_session, delete_session, archived, remove_file, remove_found, drop_file,
  remove_state, remove_state_found, drop_state, stat, settled, unless_missing, ignored,
  read_archived, decode_strictly,
}
use mnemosyne_os.Chat.Sessions.Keeps.{
  Keeps, Any, Keeps-bind, Keeps-pure, Keeps-raise, Keeps-if, keeping,
}
use mnemosyne_os.Chat.Sessions.View.{
  IsOwn, IsSound, Call, append_call, upsert_call, ensure_call, archive_call, restore_call,
  rename_call, delete_call, perform,
}

module _ {Num : Type 0} where
  IsOwn-if :
      (b : Bool) (id : String) (x y : Option (Document (Transcript Num)))
      → (b ≡ true → IsOwn id x)
      → IsOwn id y
      → IsOwn id (if b then x else y)
  IsOwn-if true id x y p q = p refl
  IsOwn-if false id x y p q = q

  IsSound-write :
      (d : Folder) (id : String) (t : Transcript Num) (s : Store Num)
      → t.session_id ≡ id
      → IsSound s
      → IsSound (record s { transcripts = Disk.write folder_dec d id (whole t) s.transcripts })
  IsSound-write d id t s e h = record {
    own = λ c j. rw (read-write folder_dec d c id j (whole t) s.transcripts) (
        IsOwn-if (decided (folder_dec d c) && decided (str_dec id j)) j (some (whole t)) _
          (λ hit. ground (arith, e, hit)) (h.own c j));
  }

  IsSound-remove :
      (d : Folder) (id : String) (s : Store Num)
      → IsSound s
      → IsSound (record s { transcripts = Disk.remove folder_dec d id s.transcripts })
  IsSound-remove d id s h = record {
    own = λ c j. rw (read-remove folder_dec d c id j s.transcripts) (
        IsOwn-if (decided (folder_dec d c) && decided (str_dec id j)) j none _ (λ _. tt)
          (h.own c j));
  }

module _ {Num : Type 0} where
  try_operation_leaves : (s : Store Num) → (try_operation s).1.transcripts ≡ s.transcripts
  try_operation_leaves s = ground arith

  try_operation-Keeps : Keeps {Num = Num} try_operation Any
  try_operation-Keeps = record {
    after = λ s h. (record { own = λ d id. rw (try_operation_leaves s) (h.own d id) }, λ a e. tt);
  }

  save_locked-Keeps : (t : Transcript Num) → Keeps (save_locked t) Any
  unfolding save_locked put_in
  save_locked-Keeps t =
      Keeps-bind Any try_operation _ try_operation-Keeps (λ _ _. record {
        after = λ s h. (IsSound-write history t.session_id t s refl h, λ a e. tt);
      })

  decode-Keeps :
      (id : String) (doc : Document (Transcript Num))
      → IsOwn id (some doc)
      → Keeps (decode id doc) (λ t. t.session_id ≡ id)
  unfolding decode
  decode-Keeps id blank h = absurd h
  decode-Keeps id damaged h = absurd h
  decode-Keeps id (whole t) h = Keeps-pure _ (ground (arith, h))

  load_found-Keeps :
      (id : String) (doc : Option (Document (Transcript Num)))
      → IsOwn id doc
      → Keeps (load_found id doc) (λ t. t.session_id ≡ id)
  unfolding load_found
  load_found-Keeps id none h = Keeps-pure _ refl
  load_found-Keeps id (some doc) h =
      Keeps-bind Any try_operation _ try_operation-Keeps (λ _ _. decode-Keeps id doc h)

  load_locked-Keeps : (id : String) → Keeps {Num = Num} (load_locked id) (λ t. t.session_id ≡ id)
  unfolding load_locked
  load_locked-Keeps id = record {
    after = λ s h. (load_found-Keeps id _ (h.own history id)).after s h;
  }

  -- A method that leaves the transcripts alone.
  Keeps_of_same :
      {A : Type 0} (m : Method Num A)
      → ((s : Store Num) → (m s).1.transcripts ≡ s.transcripts)
      → Keeps m Any
  Keeps_of_same m e = record {
    after = λ s h. (record { own = λ d id. rw (e s) (h.own d id) }, λ a _. tt);
  }

  history_exists-Keeps : (id : String) → Keeps {Num = Num} (history_exists id) Any
  history_exists-Keeps id =
      Keeps_of_same (history_exists id) (λ s. unfold history_exists in ground arith)

  stat-Keeps : {A : Type 0} (o : Option A) → Keeps {Num = Num} (stat o) Any
  unfolding stat
  stat-Keeps none = Keeps-pure _ tt
  stat-Keeps (some a) = search (keeping, try_operation-Keeps)

  remove_state_leaves :
      (id : String) (s : Store Num) → (remove_state id s).1.transcripts ≡ s.transcripts
  unfolding remove_state remove_state_found drop_state
  remove_state_leaves id s = ground arith

  remove_found-Keeps :
      (d : Folder) (id : String) (o : Option (Document (Transcript Num)))
      → Keeps (remove_found d id o) Any
  unfolding remove_found drop_file
  remove_found-Keeps d id none = Keeps-raise _
  remove_found-Keeps d id (some _) =
      Keeps-bind Any try_operation _ try_operation-Keeps
        (λ _ _. record { after = λ s h. (IsSound-remove d id s h, λ a e. tt) })

  remove_file-Keeps : (d : Folder) (id : String) → Keeps {Num = Num} (remove_file d id) Any
  unfolding remove_file
  remove_file-Keeps d id = record { after = λ s h. (remove_found-Keeps d id _).after s h }

  settled-Keeps : (r : Result Error (Unit {0})) → Keeps {Num = Num} (settled r) Any
  unfolding settled
  settled-Keeps (ok _) = Keeps-pure _ tt
  settled-Keeps (err not_exist) = Keeps-pure _ tt
  settled-Keeps (err invalid) = Keeps-raise _
  settled-Keeps (err decode_error) = Keeps-raise _
  settled-Keeps (err io_error) = Keeps-raise _

  unless_missing-Keeps : (m : Method Num (Unit {0})) → Keeps m Any → Keeps (unless_missing m) Any
  unfolding unless_missing
  unless_missing-Keeps m h = record {
    after = λ s p. (settled-Keeps (m s).0).after (m s).1 (h.after s p).0;
  }

  -- A method that begins by reading the store.
  Keeps-reads :
      {A X : Type 0} (g : Store Num → X) (m : X → Method Num A)
      → ((x : X) → Keeps (m x) Any)
      → Keeps (λ s. m (g s) s) Any
  Keeps-reads g m h = record { after = λ s p. (h (g s)).after s p }

  read_archived-Keeps : (o : Option (Document (Transcript Num))) → Keeps (read_archived o) Any
  unfolding read_archived decode_strictly
  read_archived-Keeps none = Keeps-raise _
  read_archived-Keeps (some blank) = search (keeping, try_operation-Keeps)
  read_archived-Keeps (some damaged) = search (keeping, try_operation-Keeps)
  read_archived-Keeps (some (whole t)) = search (keeping, try_operation-Keeps)

  put_in-Keeps :
      (d : Folder) (id : String) (t : Transcript Num)
      → t.session_id ≡ id
      → Keeps (put_in d id t) Any
  unfolding put_in
  put_in-Keeps d id t own = record { after = λ s h. (IsSound-write d id t s own h, λ a e. tt) }

  archive-Keeps : (now : ℕ) (id : String) → Keeps {Num = Num} (archive_session now id) Any
  unfolding archive_session
  archive-Keeps now id = Keeps-bind Any (history_exists id) _ (history_exists-Keeps id) λ b _.
      Keeps-if b _ _
        (Keeps-bind _ (load_locked id) _ (load_locked-Keeps id) λ t own.
          Keeps-bind Any try_operation _ try_operation-Keeps λ _ _.
            Keeps-bind Any _ _ (put_in-Keeps archive id (archived now t) own) λ _ _.
              Keeps-bind Any _ _
                (Keeps_of_same (ignored (remove_state id)) (remove_state_leaves id))
                (λ _ _. remove_file-Keeps history id))
        (Keeps-raise _)

  restore-Keeps : (now : ℕ) (id : String) → Keeps {Num = Num} (restore_session now id) Any
  unfolding restore_session
  restore-Keeps now id =
      Keeps-bind Any _ _
        (Keeps-reads (λ s. Disk.read folder_dec archive id s.transcripts) read_archived
          read_archived-Keeps)
        (λ t _. Keeps-bind Any _ _ (save_locked-Keeps _) (λ _ _. remove_file-Keeps archive id))

  delete-Keeps : (id : String) → Keeps {Num = Num} (delete_session id) Any
  unfolding delete_session
  delete-Keeps id =
      Keeps-bind Any _ _ (Keeps-reads (λ s. Assoc.get str_dec id s.states) stat stat-Keeps) λ a _.
        Keeps-bind Any _ _
          (Keeps-reads (λ s. Disk.read folder_dec history id s.transcripts) stat stat-Keeps)
          λ b _.
            Keeps-bind Any _ _
              (Keeps-reads (λ s. Disk.read folder_dec archive id s.transcripts) stat stat-Keeps)
              λ c _.
                Keeps-if (a || b || c) _ _
                  (Keeps-bind Any _ _
                    (unless_missing-Keeps _
                      (Keeps_of_same (remove_state id) (remove_state_leaves id)))
                    λ _ _.
                      Keeps-bind Any _ _ (unless_missing-Keeps _ (remove_file-Keeps history id))
                        (λ _ _. unless_missing-Keeps _ (remove_file-Keeps archive id)))
                  (Keeps-raise _)

  perform-Keeps : (c : Call Num) → Keeps (perform c) Any
  unfolding perform append upsert ensure_session rename_session
  perform-Keeps (append_call now id m) = search (keeping, load_locked-Keeps id, save_locked-Keeps)
  perform-Keeps (upsert_call now id m) = search (keeping, load_locked-Keeps id, save_locked-Keeps)
  perform-Keeps (ensure_call now id) =
      Keeps-bind Any (history_exists id) _ (history_exists-Keeps id)
        (λ b _. search (keeping, save_locked-Keeps))
  perform-Keeps (archive_call now id) = archive-Keeps now id
  perform-Keeps (restore_call now id) = restore-Keeps now id
  perform-Keeps (rename_call now id title) =
      Keeps-bind Any (history_exists id) _ (history_exists-Keeps id) (λ b _.
        Keeps-if b _ _
          (Keeps-bind _ (load_locked id) _ (load_locked-Keeps id) (λ t _. save_locked-Keeps _))
          (Keeps-raise _))
  perform-Keeps (delete_call id) = delete-Keeps id

  -- Whichever operations are refused, a call on a session leaves every file of a transcript that
  -- is there under the name of the session that it holds.
  pub perform-IsSound : (c : Call Num) (s : Store Num) → IsSound s → IsSound (perform c s).1
  perform-IsSound c s h = ((perform-Keeps c).after s h).0
