-- ===== src/Send/Body.antt =====
-- crates/santi-runtime/src/session/send/turn/body.rs: the requests to the provider, the calls of
-- tools between them, and the message that the turn ends with. `loop` runs on fuel, one for each
-- request; it gives none when it has not ended by then.
use santi.Base.{ℕ, zero, suc, String, Bool, Option, none, some, List, [], ◌∷◌, ◌++◌}
use santi.Base.Texts.{format}
use santi.Base.Exec.{Exec, Result, ok, err, pure, raise, ◌>>=◌, ◌>>◌}
use santi.Model.Error.{Error}
use santi.Model.Session.{Turn}
use santi.Model.Provider.{ProviderRequest, ProviderEvent, ProviderFunctionCall, FunctionCallOutput}
use santi.Store.Items.{append_tool_call, append_tool_result}
use santi.Runtime.{World, call}
use santi.Runtime.Channel.{SendSessionError, SendSessionEvent}
use santi.Tools.{dispatch}
use santi.Tools.Catalog.{provider_tools}
use santi.Send.{SessionTurnService, SendIds, StartupContext, map_core_error, send}

-- The variables of the loop.
pub record LoopState : Type 0 where
  pub assistant_text : String
  pub previous_response_id : Option String
  pub function_call_outputs : Option (List FunctionCallOutput)

-- What the events of one stream have given so far.
pub record Streamed : Type 0 where
  pub text : String
  pub previous : Option String
  pub calls : List ProviderFunctionCall
  pub completed_response_id : Option String

abbrev pub input_of : {A : Type 0} → Option String → List A → List A
input_of (some id) input = []
input_of none input = input

abbrev pub provider_request : SessionTurnService → StartupContext → LoopState → ProviderRequest
provider_request service startup l = record {
  model = service.model;
  instructions = startup.instructions;
  input = input_of l.previous_response_id startup.provider_input;
  tools = some provider_tools;
  previous_response_id = l.previous_response_id;
  function_call_outputs = l.function_call_outputs;
}

abbrev pub completed_with : Option String → Option String → Option String
completed_with (some id) before = some id
completed_with none before = before

-- The inner loop. What follows a `Completed` is not read.
unfoldable pub collect :
    Bool → List (Result Error ProviderEvent) → Streamed → Exec World SendSessionError Streamed
unfolding send map_core_error format
collect tx [] r = pure r
collect tx (err e ∷ events) r = raise (map_core_error e)
collect tx (ok (ProviderEvent.output_text_delta delta) ∷ events) r = do
  send tx (ok (SendSessionEvent.output_text_delta delta))
  collect tx events (record r { text = format (r.text ∷ delta ∷ []) })
collect tx (ok (ProviderEvent.function_call_requested requested) ∷ events) r =
    collect tx events
      (record r { previous = some requested.response_id; calls = r.calls ++ requested ∷ [] })
collect tx (ok (ProviderEvent.completed response_id) ∷ events) r =
    pure (record r { completed_response_id = completed_with response_id r.completed_response_id })

unfoldable pub handle_tool_call :
    SessionTurnService
    → StartupContext
    → Turn
    → String
    → ProviderFunctionCall
    → Exec World SendSessionError FunctionCallOutput
unfolding append_tool_call append_tool_result dispatch map_core_error
handle_tool_call service startup turn tool_result_id requested = do
  call map_core_error (
      append_tool_call (record {
        tool_call_id = requested.call_id;
        turn_id = turn.id;
        tool_name = requested.name;
        arguments = requested.arguments;
      }))
  dispatch_result ←
      call SendSessionError.internal (dispatch service.tools startup.runtime_context requested)
  call map_core_error (
      append_tool_result (record {
        tool_result_id = tool_result_id;
        tool_call_id = requested.call_id;
        output = some dispatch_result.tool_output;
        error_text = none;
      }))
  pure dispatch_result.function_call_output

unfoldable pub handle_tool_calls :
    SessionTurnService
    → StartupContext
    → Turn
    → (ℕ → String)
    → ℕ
    → List ProviderFunctionCall
    → Exec World SendSessionError (List FunctionCallOutput)
unfolding handle_tool_call
handle_tool_calls service startup turn ids i [] = pure []
handle_tool_calls service startup turn ids i (requested ∷ calls) = do
  output ← handle_tool_call service startup turn (ids i) requested
  outputs ← handle_tool_calls service startup turn ids (suc i) calls
  pure (output ∷ outputs)

abbrev pub streaming : LoopState → Streamed
streaming l = record {
  text = l.assistant_text;
  previous = l.previous_response_id;
  calls = [];
  completed_response_id = none;
}

-- `if previous_response_id.is_none() { previous_response_id = completed_response_id }`.
abbrev pub last_response : Streamed → LoopState
last_response r = record {
  assistant_text = r.text;
  previous_response_id = completed_with r.previous r.completed_response_id;
  function_call_outputs = none;
}

module _ (service : SessionTurnService) (ids : SendIds) (tx : Bool) (startup : StartupContext)
    (turn : Turn) where
  abbrev pub stream_of : ℕ → LoopState → List (Result Error ProviderEvent)
  stream_of n l = service.provider n (provider_request service startup l)

  abbrev pub next_loop : Streamed → List FunctionCallOutput → LoopState
  next_loop r outputs = record {
    assistant_text = r.text;
    previous_response_id = r.previous;
    function_call_outputs = some outputs;
  }

  -- One turn of the loop: none goes on.
  pub data Round : Type 0 where
    last : LoopState → Round
    more : LoopState → Round

  abbrev pub after_stream :
      ℕ → Streamed → List ProviderFunctionCall → Exec World SendSessionError Round
  after_stream n r [] = pure (last (last_response r))
  after_stream n r (requested ∷ calls) = do
    outputs ← handle_tool_calls service startup turn (ids.tool_result_id n) 0 (requested ∷ calls)
    pure (more (next_loop r outputs))

  unfoldable pub run_round : ℕ → LoopState → Exec World SendSessionError Round
  unfolding collect handle_tool_calls provider_tools
  run_round n l = do r ← collect tx (stream_of n l) (streaming l); after_stream n r r.calls

  abbrev pub go_on :
      (LoopState → World → Option (Result SendSessionError LoopState × World))
      → Result SendSessionError Round × World
      → Option (Result SendSessionError LoopState × World)
  go_on next (err e, w) = some (err e, w)
  go_on next (ok (last l), w) = some (ok l, w)
  go_on next (ok (more l), w) = next l w

  unfoldable pub run_loop :
      ℕ → ℕ → LoopState → World → Option (Result SendSessionError LoopState × World)
  unfolding run_round
  run_loop zero n l w = none
  run_loop (suc fuel) n l w = go_on (run_loop fuel (suc n)) (run_round n l w)
