-- ===== src/Send/Ending.antt =====
-- crates/santi-runtime/src/session/send/turn/body.rs, after the loop: the assistant's message is
-- stored, entered, published, and completes the turn.
use santi.Base.{ℕ, String, Bool, Option, none, some, if◌then◌else◌}
use santi.Base.Int.{pos}
use santi.Base.Texts.{is_blank}
use santi.Base.Exec.{Exec, Result, pure, raise, continue, ◌>>=◌, ◌>>◌}
use santi.Model.Json.{Value, Fields}
use santi.Model.Message.{ActorType, MessageState}
use santi.Model.Session.{Turn, SessionMessage, AssemblyItem, ProviderState}
use santi.Store.Mapping.{text_content, option_map}
use santi.Store.Sessions.{append_message}
use santi.Store.Turns.{complete_turn}
use santi.Store.Items.{append_message_ref}
use santi.Runtime.{World, call, publish}
use santi.Runtime.Channel.{SendSessionError, internal}
use santi.Runtime.Watch.{
  SessionWatchEvent, SessionWatchState, SessionWatchMessageChange, SessionWatchActivityKind,
  SessionWatchActivityState,
}
use santi.Send.{
  SessionTurnService, SendIds, TurnExecutionRequest, StartupContext, TurnRunOutput, map_core_error,
}
use santi.Send.Body.{LoopState, run_loop}

-- `format!("{:?}", actor_type).to_lowercase()`.
abbrev pub actor_name : ActorType → String
actor_name ActorType.account = "account"
actor_name ActorType.soul = "soul"
actor_name ActorType.system = "system"

abbrev pub finalized : String → SessionMessage → SessionWatchEvent
finalized session_id message = SessionWatchEvent.message_changed (record {
  session_id = session_id;
  message_id = message.message.id;
  session_seq = message.relation.session_seq;
  change = SessionWatchMessageChange.finalized;
  actor_type = actor_name message.message.actor_type;
})

abbrev pub send_activity : String → SessionWatchActivityState → Option String → SessionWatchEvent
send_activity session_id state label = SessionWatchEvent.activity_changed (record {
  session_id = session_id;
  activity = SessionWatchActivityKind.send;
  state = state;
  label = label;
})

abbrev pub session_state : String → SessionWatchState → SessionWatchEvent
session_state session_id state =
    SessionWatchEvent.state_changed (record { session_id = session_id; state = state })

abbrev pub provider_state_of : AssemblyItem → String → ProviderState
provider_state_of entry response_id = record {
  provider = "openai_compatible";
  basis_soul_session_seq = pos entry.entry.soul_session_seq;
  opaque = Value.object (Fields.field "response_id" (Value.text response_id) Fields.end);
  schema_version = some "phase2";
}

module _ (service : SessionTurnService) (ids : SendIds) (request : TurnExecutionRequest)
    (startup : StartupContext) (turn : Turn) where
  abbrev pub output_of : SessionMessage → Turn → TurnRunOutput
  output_of assistant_message completed_turn = record {
    turn = completed_turn;
    session = startup.session;
    soul_session_id = startup.soul_session_id;
    assistant_message = assistant_message;
  }

  -- From the entry of the message on.
  unfoldable pub complete_with :
      LoopState → SessionMessage → Exec World SendSessionError TurnRunOutput
  unfolding append_message_ref complete_turn publish map_core_error
  complete_with l assistant_message = do
    assistant_entry ←
        call map_core_error
          (append_message_ref startup.soul_session_id assistant_message.message.id)
    completed_turn ← call map_core_error (
        complete_turn (record {
          turn_id = turn.id;
          last_seen_session_seq = assistant_message.relation.session_seq;
          provider_state = option_map (provider_state_of assistant_entry) l.previous_response_id;
        }))
    publish request.session_id
        (send_activity request.session_id SessionWatchActivityState.completed none)
    publish request.session_id (session_state request.session_id SessionWatchState.completed)
    pure (output_of assistant_message completed_turn)

  unfoldable pub end_turn : LoopState → Exec World SendSessionError TurnRunOutput
  unfolding is_blank append_message publish map_core_error complete_with
  end_turn l =
      if is_blank l.assistant_text
      then raise (internal "provider completed without assistant output")
      else (do
        assistant_message ← call map_core_error (
            append_message (record {
              session_id = request.session_id;
              message_id = ids.assistant_id;
              actor_type = ActorType.soul;
              actor_id = service.default_soul_id;
              content = text_content l.assistant_text;
              state = MessageState.fixed;
            }))
        publish request.session_id (finalized request.session_id assistant_message)
        complete_with l assistant_message)

  abbrev pub ended :
      Result SendSessionError LoopState × World → Result SendSessionError TurnRunOutput × World
  ended (r, w) = continue r end_turn w

  abbrev pub start_state : LoopState
  start_state = record {
    assistant_text = "";
    previous_response_id = none;
    function_call_outputs = none;
  }

  unfoldable pub run_turn_body :
      Bool → ℕ → World → Option (Result SendSessionError TurnRunOutput × World)
  unfolding run_loop end_turn
  run_turn_body tx fuel w =
      option_map ended (run_loop service ids tx startup turn fuel 0 start_state w)
