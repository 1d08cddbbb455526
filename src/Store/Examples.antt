-- ===== src/Store/Examples.antt =====
-- The theorems of the store at a concrete state: one session with a soul session, a turn and a
-- message.
use santi.Base.{here, there, subst, sym, ◌<◌, arith}
use santi.Base.{ℕ, String, ◌≡◌, refl, none, some, [], ◌∷◌}
use santi.Base.Int.{pos}
use santi.Base.Exec.{ok}
use santi.Model.Json
use santi.Model.Message.{account, delete, fix, pending}
use santi.Model.Session.{Turn, TurnTriggerType, TurnStatus, SoulSession, SoulSessionTargetType}
use santi.MessageEvents.Apply.{apply_message_event, apply_payload}
use santi.Store.{Db, empty, SessionRow, MessageRow, SoulSessionRow}
use santi.Store.Mapping.{text_content, map_session_message_row}
use santi.Store.Sessions.{
  AppendSessionMessage, append_message, ApplyMessageEvent, store_message_event,
}
use santi.Store.Souls.{fresh_soul_row}
use santi.Store.Items.{
  append_message_ref, AppendToolCall, append_tool_call, AppendToolResult, append_tool_result,
  AppendCompact, append_compact,
}
use santi.Store.Forks.{forked_row}
use santi.Store.Appends.{append_message-Outcome}
use santi.Store.Appends as Appends
use santi.Store.Deletes.{delete_not_kept}
use santi.Store.Counters.{Numbered, next_in, entry_of}
use santi.Store.Entries.{
  Outcome, append_message_ref-Outcome, append_tool_call-Outcome, append_tool_result-Outcome,
  append_compact-Outcome,
}
use santi.Store.Steps.{Operation, run, initial, step}
use santi.Store.Valid.{Valid}
use santi.Store.Reach.{Reachable-Valid}
use santi.Store.Forked.{Forked}

abbrev session : SessionRow
session = record {
  id = "s";
  parent_session_id = none;
  fork_point = none;
  session_memory = "";
  created_at = "t0";
  updated_at = "t0";
}

abbrev hello : MessageRow
hello = record {
  id = "m1";
  session_id = "s";
  session_seq = 1;
  actor_type = "account";
  actor_id = "user";
  content_text = "hello";
  content_json = some (text_content "hello");
  state = "pending";
  version = 1;
  created_at = "t0";
  updated_at = "t0";
}

abbrev turn : Turn
turn = record {
  id = "turn";
  soul_session_id = "ss";
  trigger_type = TurnTriggerType.session_send;
  trigger_ref = none;
  input_through_session_seq = 1;
  base_soul_session_seq = 0;
  end_soul_session_seq = none;
  status = TurnStatus.running;
  error_text = none;
  created_at = "t0";
  updated_at = "t0";
  finished_at = none;
}

abbrev soul_row : SoulSessionRow
soul_row = fresh_soul_row "t0" "ss" "soul" "s"

abbrev store : Db
store = record (empty "t1") {
  sessions = session ∷ [];
  session_messages = hello ∷ [];
  soul_sessions = soul_row ∷ [];
  turns = turn ∷ [];
}

store-Numbered : Numbered store
store-Numbered e i = elim i [ ]

abbrev second : AppendSessionMessage
second = record {
  session_id = "s";
  message_id = "m2";
  actor_type = account;
  actor_id = "user";
  content = text_content "again";
  state = pending;
}

append_message-Outcome_example : Appends.Outcome second store (append_message second store)
append_message-Outcome_example = append_message-Outcome second store

abbrev deletion : ApplyMessageEvent
deletion = record {
  session_id = "s";
  message_id = "m1";
  actor_type = account;
  actor_id = "user";
  base_version = 1;
  payload = delete none;
}

abbrev deleted_row : MessageRow
deleted_row = record hello { version = 2; updated_at = "t1" }

abbrev deleted : Db
deleted = record store { session_messages = deleted_row ∷ [] }

deletion_accepted :
    store_message_event deletion store ≡ (ok (map_session_message_row deleted_row), deleted)
unfolding store_message_event map_session_message_row apply_message_event apply_payload
deletion_accepted = refl

delete_not_kept_example :
    ((map_session_message_row deleted_row).message.deleted_at ≡ none)
    × ((m' : _) × (s'' : Db) × (store_message_event
            (record deletion {
              base_version = (map_session_message_row deleted_row).message.version;
              payload = fix;
            })
            deleted
          ≡ (ok m', s'')))
delete_not_kept_example =
    delete_not_kept deletion store deleted (map_session_message_row deleted_row) none refl
      deletion_accepted

append_message_ref-Outcome_example : Outcome store (append_message_ref "ss" "m1" store)
append_message_ref-Outcome_example = append_message_ref-Outcome store "ss" "m1" store-Numbered

abbrev bash_call : AppendToolCall
bash_call = record {
  tool_call_id = "call";
  turn_id = "turn";
  tool_name = "bash";
  arguments = Json.null;
}

append_tool_call-Outcome_example : Outcome store (append_tool_call bash_call store)
append_tool_call-Outcome_example = append_tool_call-Outcome store bash_call store-Numbered

abbrev bash_result : AppendToolResult
bash_result = record {
  tool_result_id = "result";
  tool_call_id = "call";
  output = none;
  error_text = none;
}

abbrev pub called : Db
called = record store {
  soul_sessions = record soul_row { next_seq = 2 } ∷ [];
  items = entry_of store "ss" SoulSessionTargetType.tool_call "call" 1 ∷ [];
}

called-Numbered : Numbered called
called-Numbered e (here q) =
    subst (λ x. x.soul_session_seq < next_in x.soul_session_id called.soul_sessions) (sym q)
      (omega arith)
called-Numbered e (there i) = elim i [ ]

append_tool_result-Outcome_example : Outcome called (append_tool_result bash_result called)
append_tool_result-Outcome_example = append_tool_result-Outcome called bash_result called-Numbered

abbrev whole : AppendCompact
whole = record {
  compact_id = "c";
  turn_id = "turn";
  summary = "sum";
  start_session_seq = 1;
  end_session_seq = 1;
}

append_compact-Outcome_example : Outcome store (append_compact whole store)
append_compact-Outcome_example = append_compact-Outcome store whole store-Numbered

Reachable-Valid_example :
    Valid (run (Operation.acquire "soul" "s") (run (Operation.create "s") (empty "t0")))
Reachable-Valid_example =
    Reachable-Valid (run (Operation.acquire "soul" "s") (run (Operation.create "s") (empty "t0")))
      (step (step (initial "t0") (Operation.create "s")) (Operation.acquire "soul" "s"))

abbrev copy_id : ℕ → String
copy_id i = "copy"

abbrev forked : Db
forked = record store {
  sessions =
      session
      ∷ record session {
        id = "f";
        parent_session_id = some "s";
        fork_point = some (pos 1);
        created_at = "t1";
        updated_at = "t1";
      }
      ∷ [];
  session_messages =
      hello
      ∷ record hello { id = "copy"; session_id = "f"; content_json = none; updated_at = "t1" }
      ∷ [];
  soul_sessions = soul_row ∷ forked_row "t1" soul_row none 1 "fs" "f" ∷ [];
}

abbrev child : SoulSession
child = record {
  id = "fs";
  soul_id = "soul";
  session_id = "f";
  session_memory = "";
  provider_state = none;
  next_seq = 2;
  last_seen_session_seq = 0;
  parent_soul_session_id = some "ss";
  fork_point = some (pos 1);
  created_at = "t1";
  updated_at = "t1";
}
