-- ===== src/Send/Startup.antt =====
-- crates/santi-runtime/src/session/send: `build_assembly_items` of assembly.rs and the start-up of
-- turn.rs, which finds the message that a turn answers and what the provider is sent.
use santi.Base.{String, not, Option, none, some, List, [], ◌∷◌, str_eq, if◌then◌else◌}
use santi.Base.Exec.{Exec, Result, ok, err, pure, lift, ok_or, ◌>>=◌, ◌>>◌}
use santi.Model.Message.{ActorType, MessageState, is_fixed}
use santi.Model.Session.{
  Session, SessionMessage, SoulSession, AssemblyItem, AssemblyTarget, SoulSessionTargetType,
  TurnTriggerType,
}
use santi.Assembly.{assembly_to_provider_input}
use santi.Prompt.{build_runtime_prompt}
use santi.Store.Mapping.{text_content}
use santi.Store.Sessions.{get_session, list_messages, get_message, append_message}
use santi.Store.Souls.{acquire_soul_session}
use santi.Store.Items.{append_message_ref}
use santi.Runtime.{World, call}
use santi.Runtime.Channel.{SendSessionError, not_found, internal}
use santi.Tools.{build_context}
use santi.Send.{
  SessionTurnService, SendIds, TurnExecutionRequest, TurnInput, StartupContext, map_core_error,
}
use santi.Send.Instructions.{render_runtime_instructions}

abbrev pub assembly_item : String → SessionMessage → AssemblyItem
assembly_item soul_session_id message = record {
  entry = record {
    soul_session_id = soul_session_id;
    target_type = SoulSessionTargetType.message;
    target_id = message.message.id;
    soul_session_seq = message.relation.session_seq;
    created_at = message.relation.created_at;
  };
  target = AssemblyTarget.message message;
}

-- `else { continue }` of a message that is gone.
abbrev pub with_item : String → Option SessionMessage → List AssemblyItem → List AssemblyItem
with_item soul_session_id none items = items
with_item soul_session_id (some message) items = assembly_item soul_session_id message ∷ items

unfoldable pub items_of_messages :
    String → List SessionMessage → Exec World SendSessionError (List AssemblyItem)
unfolding get_message map_core_error
items_of_messages soul_session_id [] = pure []
items_of_messages soul_session_id (message ∷ messages) = do
  found ← call map_core_error (get_message message.message.id)
  items ← items_of_messages soul_session_id messages
  pure (with_item soul_session_id found items)

unfoldable pub build_assembly_items :
    String → String → Exec World SendSessionError (List AssemblyItem)
unfolding list_messages map_core_error items_of_messages
build_assembly_items session_id soul_session_id = do
  session_messages ← call map_core_error (list_messages session_id none)
  items_of_messages soul_session_id session_messages

unfoldable pub append_trigger_message :
    String → String → ActorType → String → String → Exec World SendSessionError SessionMessage
unfolding append_message map_core_error
append_trigger_message message_id session_id actor_type actor_id text = call map_core_error (
    append_message (record {
      session_id = session_id;
      message_id = message_id;
      actor_type = actor_type;
      actor_id = actor_id;
      content = text_content text;
      state = MessageState.fixed;
    }))

abbrev pub existing_trigger :
    String → Option SessionMessage → Result SendSessionError SessionMessage
existing_trigger session_id none = err not_found
existing_trigger session_id (some message) =
    if not (str_eq message.relation.session_id session_id)
    then err not_found
    else if not (is_fixed message.message.state)
    then err (internal "existing trigger message must be fixed before reply generation")
    else ok message

unfoldable pub trigger_message :
    SendIds → TurnInput → String → Exec World SendSessionError SessionMessage
unfolding append_trigger_message get_message map_core_error
trigger_message ids (TurnInput.user_text text) session_id =
    append_trigger_message ids.trigger_id session_id ActorType.account "account_local" text
trigger_message ids (TurnInput.system_seed actor_id text) session_id =
    append_trigger_message ids.trigger_id session_id ActorType.system actor_id text
trigger_message ids (TurnInput.existing_message message_id) session_id = do
  found ← call map_core_error (get_message message_id)
  lift (existing_trigger session_id found)

abbrev pub trigger_type_of : TurnInput → TurnTriggerType
trigger_type_of (TurnInput.user_text text) = TurnTriggerType.session_send
trigger_type_of (TurnInput.existing_message message_id) = TurnTriggerType.session_send
trigger_type_of (TurnInput.system_seed actor_id text) = TurnTriggerType.system

abbrev pub startup_context :
    SessionTurnService
    → TurnExecutionRequest
    → SoulSession
    → Session
    → SessionMessage
    → List AssemblyItem
    → StartupContext
startup_context service request soul_session session trigger assembly =
    let runtime_context = build_context service.tools request.session_id soul_session.soul_id in
    record {
      session = session;
      provider_input = assembly_to_provider_input assembly;
      instructions =
          render_runtime_instructions
            (build_runtime_prompt (record {
              session_id = some request.session_id;
              soul_id = some soul_session.soul_id;
              soul_memory = none;
              session_memory = some soul_session.session_memory;
              request_instructions = none;
            }))
            runtime_context service.runtime_facts;
      soul_session_id = soul_session.id;
      trigger_type = trigger_type_of request.input;
      input_through_session_seq = trigger.relation.session_seq;
      trigger_message_id = trigger.message.id;
      runtime_context = runtime_context;
    }

unfoldable pub run_turn_startup :
    SessionTurnService → SendIds → TurnExecutionRequest → Exec World SendSessionError StartupContext
unfolding acquire_soul_session get_session map_core_error trigger_message append_message_ref
    build_assembly_items build_context assembly_to_provider_input build_runtime_prompt
    render_runtime_instructions
run_turn_startup service ids request = do
  soul_session ←
      call map_core_error (acquire_soul_session service.default_soul_id request.session_id)
  found ← call map_core_error (get_session request.session_id)
  session ← lift (ok_or found not_found)
  trigger ← trigger_message ids request.input session.id
  call map_core_error (append_message_ref soul_session.id trigger.message.id)
  assembly ← build_assembly_items session.id soul_session.id
  pure (startup_context service request soul_session session trigger assembly)
