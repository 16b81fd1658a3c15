-- ===== src/Lib.antt =====
-- MnemosyneOS keeps an agent's tasks, approvals and memory in files and moves them between states.
-- This library models the parts of internal/ that do so, and proves what the rest relies on.
--
-- Approval (internal/approval): a request for a privileged action is one file, in the directory of
--   its status. `create`, `approve`, `deny` and `consume` are `Store.Create`, `Store.Approve`,
--   `Store.Deny` and `Store.Consume`; `find_locked`, `write_locked` and `select` are the lookups and
--   the loop in them. Select, Invariant and Consumption have the lemmas, Tokens and Grants what a
--   token is good for, History any sequence of calls, Shrinking what a call adds to the approved
--   files and Losses what it may lose.
-- Runtime (internal/airuntime): a task is one file in the directory of its state, beside the state
--   of the runtime. Tasks has the store (`move_task` is `Store.MoveTask`), Orchestrator the calls
--   `recover`, `submit_task`, `advance`, `approve_task`, `deny_task` and `requeue_task`; the Kept
--   under each says which predicates their operations keep. Skill has the choice of a skill
--   (`suggestSkill`), Counter the counter of the reruns.
-- Memory (internal/memory): cards in versions and edges between them, in memory, in snapshot files
--   and in a journal. Cards has the methods that write (`create_card`, `update_card`, `touch_card`,
--   `create_edge`) and Cards/Writes how what they make is stored, Query those that read, Journal the
--   replay, the integrity report and the rebuild, Governance the decay of scores, Consolidation the
--   promotion of candidates (`promote_candidates`), Files the names of the snapshot files.
-- Execution (internal/execution): an action is one file in the directory of its status. Actions has
--   the store (`move` is `Store.Move`) and the replay of a completed action (`tryReplay`), Attempts
--   the loop of the shell attempts in `executeShellInner`, FileAttempts the loops of
--   `executeFileReadInner` and `executeFileWriteInner`, Profiles `authorizeProfile`, which asks the
--   approvals, and the comparison of tokens.
-- Scheduler (internal/memoryscheduler): `evaluate_and_schedule` is `EvaluateAndSchedule`, the choice
--   to hand candidate memories to a task, over the data of Inputs; Triggers says when it does, Laws
--   what a skip leaves.
-- Chat (internal/chat/store.go): the transcript of a session is one file, among the live ones or the
--   archived ones. Sessions has the methods that load and save (`append`, `upsert`, `list_messages`),
--   Sessions/Lifecycle those that move files (`archive_session`, `restore_session`,
--   `delete_session`), States the state of a session, Listing the summaries, Titles the title that is
--   taken from a message. View has the abstract view that Refinement is about.
-- Access (internal/fsaccess): `is_path_allowed` and `is_read_path_allowed` are the policies,
--   `path_under_root` the test that they share. Paths has what is used of path/filepath, on Unix and
--   for absolute paths, as lists of parts.
-- Recall (internal/recall): `recall` is `Service.Recall` over the cards of the memory, `apply_feedback`
--   `Service.ApplyFeedback`; Snippets has the pieces of text, on bytes, Hits the choice of the hits.
--   A recall is `none` where it panics.
-- Conflicts (internal/memory/conflict.go): `detect_conflicts` is `Store.DetectConflicts`, with the topic
--   of a card (`extractTopic` in internal/memory/upgrade.go); Groups has the cards of each topic.
-- Packets (internal/memoryorchestrator): `build_task_packet` and `build_fast_packet` put together what
--   an answer or a task is given of the memory, within a quota, out of the data and the helpers in
--   Parts, and Feedback has `RecordPacketUse`.
-- Base: what they share. Disk is a directory tree of records, Assoc a Go map, Exec methods that
--   change a store and may fail, Float the operations on float64, which are a parameter, Bytes the
--   bytes of a text, Number and Clock how numbers and times are printed.
--
-- How they interact: the orchestrator works on the tasks through the task store's methods only, the
-- decay works on the cards through the same writes as the other methods of the memory, the
-- authorisation of an action calls `consume` on the approvals, the scheduler queries the memory
-- and submits its task to the orchestrator, and a packet is made of what the recall finds in the
-- memory and of the tasks; its feedback writes to the cards through `touch_card`.
--
-- A mutex makes each method of a store one step, so a method is a function from store to store. The
-- calls of the orchestrator take the store's mutex more than once and are taken one after the other.
-- Each file operation may be refused: approvals take the refusals of a call as an argument
-- (`Faults`), the other stores carry a list that says which operations to come are refused. A file
-- is written whole or not at all. A time is in nanoseconds from 1970 on and is read once in a call.
-- The clock, the random token, how a command ends, and the order in which a Go map is walked are
-- arguments. Every loop goes over a list or counts down to its bound, so no fuel is needed. Integers
-- that count versions stay far below their bound and are natural numbers; the counter of the reruns
-- has its wrap-around at 2 ^ 63 written out.
--
-- Not modelled: the JSON coding, in which a record is taken to be read as it was written (an empty
-- map with `omitempty` comes back nil, which is modelled), directories that cannot be made, the HTTP
-- interface, the console, the language model, the chat service above its store, the connectors and
-- the skills that call them. Of the memory, loading a directory, the upgrade of events to facts and the
-- procedures are not modelled.
pub mod Access
pub mod Approval
pub mod Base
pub mod Chat
pub mod Conflicts
pub mod Execution
pub mod Memory
pub mod Packets
pub mod Recall
pub mod Runtime
pub mod Scheduler
