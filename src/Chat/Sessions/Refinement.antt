-- ===== src/Chat/Sessions/Refinement.antt =====
-- The methods of internal/chat/store.go do on the files what is specified on the view.
use mnemosyne_os.Base.{◌≡◌, []}
use mnemosyne_os.Chat.{Store}
use mnemosyne_os.Chat.Sessions.Saving.{
  append-Agrees, upsert-Agrees, ensure_session-Agrees, rename_session-Agrees,
}
use mnemosyne_os.Chat.Sessions.Lifecycle.Agreement.{
  archive_session-Agrees, restore_session-Agrees, delete_session-Agrees,
}
use mnemosyne_os.Chat.Sessions.View.{
  view, IsSound, Call, append_call, upsert_call, ensure_call, archive_call, restore_call,
  rename_call, delete_call, perform, specified, Agrees,
}

module _ {Num : Type 0} where
  -- In a store whose files are transcripts that name their own session, and with no operation
  -- refused, every call on a session does to the messages of each live and archived session what
  -- is specified on them, and a call on a session that is missing fails and changes nothing.
  pub perform_refines :
      (c : Call Num) (s : Store Num)
      → IsSound s
      → s.faults ≡ []
      → Agrees (specified c (view s)) (perform c s) s
  unfolding perform
  perform_refines (append_call now id m) s h f = append-Agrees now id m s h f
  perform_refines (upsert_call now id m) s h f = upsert-Agrees now id m s h f
  perform_refines (ensure_call now id) s h f = ensure_session-Agrees now id s h f
  perform_refines (archive_call now id) s h f = archive_session-Agrees now id s h f
  perform_refines (restore_call now id) s h f = restore_session-Agrees now id s h f
  perform_refines (rename_call now id title) s h f = rename_session-Agrees now id title s h f
  perform_refines (delete_call id) s h f = delete_session-Agrees id s f
