-- ===== src/Chat/Tests.antt =====
-- The theorems on sessions at concrete stores.
use mnemosyne_os.Base.{
  ℕ, String, ◌≡◌, refl, none, some, List, [], ◌∷◌, ◌++◌, ◌&&◌, str_dec, decided, if◌then◌else◌,
}
use mnemosyne_os.Base.Disk
use mnemosyne_os.Base.Disk.{Entry}
use mnemosyne_os.Base.Result.{ok}
use mnemosyne_os.Chat.{Message, Transcript, whole, Folder, history, archive, folder_dec, Store}
use mnemosyne_os.Chat.Sessions.{append, upsert, list_messages}
use mnemosyne_os.Chat.Sessions.Lifecycle.{archive_session, restore_session}
use mnemosyne_os.Chat.Sessions.Lifecycle.RoundTrip.{IsBack, restore_session-archive_session}
use mnemosyne_os.Chat.Sessions.Lifecycle.Sound.{perform-IsSound}
use mnemosyne_os.Chat.Sessions.Refinement.{perform_refines}
use mnemosyne_os.Chat.Sessions.Tail.{
  IsTail, list_messages-append, append_leaves_created_at, created_in, title_in,
}
use mnemosyne_os.Chat.Sessions.View.{
  IsSound, IsOwn, view, or_empty, archive_call, perform, specified, Agrees,
}

abbrev said : String → Message ℕ
said id = record {
  message_id = id;
  session_id = "s1";
  role = "user";
  content = "hello";
  dialogue_act = "";
  intent_kind = "";
  intent_reason = "";
  intent_confidence = 0;
  stage = "";
  task_id = "";
  task_state = "";
  selected_skill = "";
  execution_profile = "";
  links = [];
  actions = [];
  context = none;
  tool_trace = [];
  created_at = some 5;
}

abbrev talk : Transcript ℕ
talk = record {
  session_id = "s1";
  title = "hello";
  created_at = some 5;
  updated_at = some 6;
  archived_at = none;
  messages = said "m1" ∷ [];
}

abbrev empty_store : Store ℕ
empty_store = record { transcripts = []; states = []; faults = [] }

abbrev one_session : Store ℕ
one_session = record empty_store {
  transcripts = record { dir = history; name = "s1"; body = whole talk } ∷ [];
}

talk-IsOwn :
    (d : Folder) (id : String) (x : Dec ("s1" ≡ id))
    → IsOwn id (if decided (folder_dec history d) && decided x then some (whole talk) else none)
unfolding folder_dec
talk-IsOwn history id (yes p) = p
talk-IsOwn history id (no p) = tt
talk-IsOwn archive id x = tt

one_session-IsSound : IsSound one_session
unfolding Disk.read
one_session-IsSound = record { own = λ d id. talk-IsOwn d id (str_dec "s1" id) }

perform_refines_example :
    Agrees
      (specified (archive_call 9 "s1") (view one_session))
      (perform (archive_call 9 "s1") one_session)
      one_session
perform_refines_example = perform_refines (archive_call 9 "s1") one_session one_session-IsSound refl

perform-IsSound_example : IsSound (perform (archive_call 9 "s1") one_session).1
perform-IsSound_example = perform-IsSound (archive_call 9 "s1") one_session one_session-IsSound

restore_session-archive_session_example :
    ((restore_session 12 "s1" (archive_session 9 "s1" one_session).1).0 ≡ ok tt)
    × IsBack 12 "s1" talk one_session
        (restore_session 12 "s1" (archive_session 9 "s1" one_session).1).1
unfolding Disk.read folder_dec str_dec
restore_session-archive_session_example =
    restore_session-archive_session 9 12 "s1" talk one_session one_session-IsSound refl refl

list_messages-append_example :
    (ms : List (Message ℕ)) × ((list_messages "s1" 1 (append 9 "s1" (said "m2") one_session).1).0
      ≡ ok ms)
    × IsTail 1 (or_empty ((view one_session).live "s1") ++ said "m2" ∷ []) ms
list_messages-append_example =
    list_messages-append 9 "s1" (said "m2") 1 one_session one_session-IsSound refl

append_leaves_created_at_example :
    (created_in "s1" (append 9 "s1" (said "m1") empty_store).1 ≡ some none)
    × (created_in "s1" (upsert 9 "s1" (said "m1") empty_store).1 ≡ some none)
    × (title_in "s1" (upsert 9 "s1" (said "m1") empty_store).1 ≡ some "")
unfolding Disk.read
append_leaves_created_at_example =
    append_leaves_created_at 9 "s1" (said "m1") empty_store refl (λ e. cc) refl
