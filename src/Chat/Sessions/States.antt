-- ===== src/Chat/Sessions/States.antt =====
-- internal/chat/store.go: the state of a session.
use mnemosyne_os.Base.{ℕ, String, Option, none, some, [], if◌then◌else◌, decided, str_dec}
use mnemosyne_os.Base.Assoc
use mnemosyne_os.Base.Text.{trim_space, is_blank}
use mnemosyne_os.Base.Exec.{pure, raise, ◌>>◌}
use mnemosyne_os.Chat.{
  SessionState, Document, blank, damaged, whole, invalid, decode_error, Method, try_operation,
}

abbrev pub empty_state : String → SessionState
empty_state id = record {
  session_id = id;
  topic = "";
  focus_task_id = "";
  pending_question = "";
  pending_action = "";
  last_user_act = "";
  last_assistant_act = "";
  working_set = record {
    artifact_paths = [];
    recall_card_ids = [];
    source_refs = [];
    focus_paths = [];
  };
  updated_at = none;
}

abbrev saved_state : ℕ → SessionState → SessionState
saved_state now st = record st { session_id = trim_space st.session_id; updated_at = some now }

module _ {Num : Type 0} where
  decode_state : String → Document SessionState → Method Num SessionState
  decode_state id blank = pure (empty_state id)
  decode_state id damaged = raise decode_error
  decode_state id (whole st) =
      pure (if decided (str_dec st.session_id "") then record st { session_id = id } else st)

  load_state_found : String → Option (Document SessionState) → Method Num SessionState
  unfolding decode_state
  load_state_found id none = pure (empty_state id)
  load_state_found id (some d) = do try_operation; decode_state id d

  -- `loadStateLocked`
  unfoldable pub get_session_state : String → Method Num SessionState
  unfolding load_state_found
  get_session_state id s = load_state_found id (Assoc.get str_dec id s.states) s

  put_state : SessionState → Method Num (Unit {0})
  put_state st s =
      pure tt (record s { states = Assoc.put str_dec st.session_id (whole st) s.states })

  unfoldable pub save_session_state : ℕ → SessionState → Method Num (Unit {0})
  unfolding put_state
  save_session_state now st =
      if is_blank st.session_id
      then raise invalid
      else (do try_operation; put_state (saved_state now st))
