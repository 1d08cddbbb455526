-- ===== src/Send.antt =====
-- crates/santi-runtime/src/session/send: the execution of turns. This module has the requests, what
-- a turn is run with, and the mapping of errors; the children follow the files.
pub mod Instructions
pub mod Startup
pub mod Body
pub mod Ending
pub mod Worker
pub mod Streams
pub mod Terminates
pub mod Held
pub mod Closing
pub mod Starting
pub mod Settled
pub mod Released
pub mod Said
pub mod Reply
pub mod Outputs
pub mod Examples
use santi.Base.{
  ℕ, String, Bool, true, Option, some, none, List, [], ◌∷◌, ◌++◌, str_eq, if◌then◌else◌,
}
use santi.Base.Texts.{format}
use santi.Base.Exec.{Exec, Result, ok, err}
use santi.Model.Error.{Error, LockError}
use santi.Model.Session.{Turn, Session, SessionMessage, TurnTriggerType}
use santi.Model.Provider.{ProviderRequest, ProviderEvent}
use santi.Assembly.{ProviderInputMessage}
use santi.Hooks.{HookEvaluator}
use santi.Runtime.{World}
use santi.Runtime.Channel.{SendSessionError, SendSessionEvent, busy, not_found, internal}
use santi.Runtime.HookRuntime.{Services}
use santi.Tools.{ToolExecutor}
use santi.Tools.Types.{ToolRuntimeContext}

pub data TurnInput : Type 0 where
  user_text : String → TurnInput
  system_seed : String → String → TurnInput
  existing_message : String → TurnInput

pub record TurnExecutionRequest : Type 0 where
  pub session_id : String
  pub input : TurnInput
  pub emit_events : Bool
  pub run_hooks : Bool

-- runtime/context.rs
pub record RuntimeSelfFacts : Type 0 where
  pub service_name : String
  pub assembly_mode : String
  pub launch_profile : Option String
  pub bind_addr : Option String
  pub provider_model : String
  pub provider_api : String
  pub provider_gateway_base_url : Option String

-- The service of a turn. The provider is an argument: what it answers to the n-th request of a
-- turn, as the list of what its stream gives.
pub record SessionTurnService : Type 0 where
  pub model : String
  pub default_soul_id : String
  pub provider : ℕ → ProviderRequest → List (Result Error ProviderEvent)
  pub runtime_facts : RuntimeSelfFacts
  pub tools : ToolExecutor

-- The ids that a turn draws; a result of a tool has one for the request and the call.
pub record SendIds : Type 0 where
  pub trigger_id : String
  pub turn_id : String
  pub assistant_id : String
  pub tool_result_id : ℕ → ℕ → String

-- `Option<Arc<HookRuntime>>`: its services and its subscribers.
pub record HookRunner : Type 0 where
  pub services : Services
  pub evaluators : List HookEvaluator

pub record StartupContext : Type 0 where
  pub session : Session
  pub provider_input : List ProviderInputMessage
  pub instructions : Option String
  pub soul_session_id : String
  pub trigger_type : TurnTriggerType
  pub input_through_session_seq : ℕ
  pub trigger_message_id : String
  pub runtime_context : ToolRuntimeContext

pub record TurnRunOutput : Type 0 where
  pub turn : Turn
  pub session : Session
  pub soul_session_id : String
  pub assistant_message : SessionMessage

unfoldable pub map_core_error : Error → SendSessionError
unfolding format
map_core_error (Error.not_found resource) =
    if str_eq resource "session"
    then not_found
    else internal (format (resource ∷ " not found" ∷ []))
map_core_error (Error.busy resource) = busy
map_core_error (Error.invalid_input message) = internal message
map_core_error (Error.upstream message) = internal message
map_core_error (Error.internal message) = internal message

unfoldable pub map_lock_error : LockError → SendSessionError
map_lock_error LockError.busy = busy
map_lock_error LockError.lost = internal "session send lock lost"
map_lock_error (LockError.backend message) = internal message

unfoldable pub render_send_error : SendSessionError → String
render_send_error busy = "session send already in progress"
render_send_error not_found = "session not found"
render_send_error (internal message) = message

-- `tx.send(…)`, if there is a `tx`.
unfoldable pub send :
    {E : Type 0} → Bool → Result SendSessionError SendSessionEvent → Exec World E (Unit {0})
send tx event w = if tx then (ok tt, record w { sent = w.sent ++ event ∷ [] }) else (ok tt, w)
