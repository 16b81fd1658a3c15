-- ===== src/Chat/Sessions/Lifecycle/Moving.antt =====
-- Archiving, restoring and deleting a session (internal/chat/store.go), on the view.
use mnemosyne_os.Base.{
  ℕ, String, ◌≡◌, refl, inl, inr, Option-cases, false, none, some, List, [], ◌∷◌, arith, str_dec,
}
use mnemosyne_os.Base.Assoc
use mnemosyne_os.Base.Disk
use mnemosyne_os.Base.Disk.{Entry}
use mnemosyne_os.Base.Disk.Laws.{read-write}
use mnemosyne_os.Base.Result.{ok, err}
use mnemosyne_os.Chat.{
  Transcript, Document, whole, Folder, history, archive, folder_dec, Store, not_exist,
}
use mnemosyne_os.Chat.Sessions.{put_in}
use mnemosyne_os.Chat.Sessions.Lifecycle.{
  archive_session, archived, remove_file, remove_found, drop_file, remove_state, remove_state_found,
  drop_state, unless_missing, read_archived, decode_strictly,
}
use mnemosyne_os.Chat.Sessions.Saving.{load_locked_lem, history_exists_lem}
use mnemosyne_os.Chat.Sessions.View.{view, IsSound, at}

del_missing :
    {V : Type 0} (k : String) (m : List (String × V))
    → Assoc.get str_dec k m ≡ none
    → Assoc.del str_dec k m ≡ m
unfolding Assoc.get Assoc.del
del_missing k [] h = refl
del_missing k ((j, v) ∷ m) h = ground (arith, h, del_missing k m)

remove_missing :
    {R : Type 0} (d : Folder) (n : String) (k : List (Entry Folder R))
    → Disk.read folder_dec d n k ≡ none
    → Disk.remove folder_dec d n k ≡ k
unfolding Disk.read Disk.remove
remove_missing d n [] h = refl
remove_missing d n (e ∷ k) h = ground (arith, h, remove_missing d n k)

module _ {Num : Type 0} where
  -- The store without the file.
  abbrev pub without : Folder → String → Store Num → Store Num
  without d id s = record s { transcripts = Disk.remove folder_dec d id s.transcripts }

  abbrev pub without_state : String → Store Num → Store Num
  without_state id s = record s { states = Assoc.del str_dec id s.states }

  pub remove_file_found :
      (d : Folder) (id : String) (s : Store Num) {doc : Document (Transcript Num)}
      → s.faults ≡ []
      → Disk.read folder_dec d id s.transcripts ≡ some doc
      → remove_file d id s ≡ (ok tt, without d id s)
  unfolding remove_file remove_found drop_file
  remove_file_found d id s f h = rw h (rw f refl)

  pub remove_file_any :
      (d : Folder) (id : String) (s : Store Num)
      → s.faults ≡ []
      → unless_missing (remove_file d id) s ≡ (ok tt, without d id s)
  unfolding unless_missing
  remove_file_any d id s f = elim (Option-cases (Disk.read folder_dec d id s.transcripts)) [
    | inl gone ↦
        let same = remove_missing d id s.transcripts gone in
        let missing : remove_file d id s ≡ (err not_exist, s) =
          unfold remove_file remove_found in rw gone refl in
        rw (missing, same) refl
    | inr (doc, there) ↦ rw (remove_file_found d id s f there) refl
  ]

  pub remove_state_any :
      (id : String) (s : Store Num)
      → s.faults ≡ []
      → unless_missing (remove_state id) s ≡ (ok tt, without_state id s)
  unfolding unless_missing remove_state remove_state_found drop_state
  remove_state_any id s f = elim (Option-cases (Assoc.get str_dec id s.states)) [
    | inl gone ↦ rw (gone, del_missing id s.states gone) refl
    | inr (doc, there) ↦ rw (there, f) refl
  ]

  remove_state_leaves :
      (id : String) (s : Store Num) → s.faults ≡ [] → (remove_state id s).1 ≡ without_state id s
  unfolding remove_state remove_state_found drop_state
  remove_state_leaves id s f = elim (Option-cases (Assoc.get str_dec id s.states)) [
    | inl gone ↦ rw (gone, del_missing id s.states gone) refl
    | inr (doc, there) ↦ rw (there, f) refl
  ]

  pub read_archived_found :
      (t : Transcript Num) (s : Store Num)
      → s.faults ≡ []
      → read_archived (some (whole t)) s ≡ (ok t, s)
  unfolding read_archived decode_strictly
  read_archived_found t s f = rw f refl

  -- The states after the file of one of them is gone.
  pub noted_without :
      (id : String) (s : Store Num) (j : String)
      → (view (without_state id s)).noted j ≡ at id false (view s).noted j
  noted_without id s j = ground (arith, Assoc.get-del str_dec id j s.states)

  unfoldable pub archived_store : ℕ → String → Transcript Num → Store Num → Store Num
  archived_store now id t s = without history id (
      without_state id (record s {
        transcripts = Disk.write folder_dec archive id (whole (archived now t)) s.transcripts;
      }))

  pub archive_session_found :
      (now : ℕ) (id : String) (t : Transcript Num) (s : Store Num)
      → IsSound s
      → s.faults ≡ []
      → Disk.read folder_dec history id s.transcripts ≡ some (whole t)
      → archive_session now id s ≡ (ok tt, archived_store now id t s)
  unfolding archive_session put_in archived_store
  archive_session_found now id t s h f there =
      let s1 : Store Num = record s {
        transcripts = Disk.write folder_dec archive id (whole (archived now t)) s.transcripts;
        faults = [];
      } in
      let still : Disk.read folder_dec history id s1.transcripts ≡ some (whole t) = ground (
        arith,
        there,
        read-write folder_dec archive history id id (whole (archived now t)) s.transcripts,
      ) in
      rw (history_exists_lem id s f, there)
        (rw (load_locked_lem id s h f, there)
          (rw f (
            rw (remove_state_leaves id s1 refl)
              (remove_file_found history id (without_state id s1) refl still))))
