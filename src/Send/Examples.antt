-- ===== src/Send/Examples.antt =====
-- The theorems of a turn at a concrete session: the provider asks for a tool, then it answers.
use santi.Send.Reply.{Answered, body-Answered}
use santi.Send.Ending.{run_turn_body}
use santi.Send.{StartupContext, TurnRunOutput}
use santi.Model.Session.{TurnTriggerType}
use santi.Store.Souls.{acquire_soul_session}
use santi.Store.Turns.{has_turn_id, start_turn, started_turn}
use santi.Runtime.{send_key}
use santi.Lock.{holds}
use santi.Base.{any, arith}
use santi.Base.{Bool, ℕ, zero, suc, true, false, ◌≡◌, refl, Option, none, some, List, [], ◌∷◌, ◌⊎◌}
use santi.Base.Exec.{Result, ok, err, second}
use santi.Model.Error.{Error}
use santi.Model.Json.{Value, Fields}
use santi.Model.Session.{Turn}
use santi.Model.Provider.{ProviderRequest, ProviderEvent, ProviderFunctionCall}
use santi.Store.{Db, empty}
use santi.Store.Sessions.{create_session}
use santi.Runtime.{World}
use santi.Runtime.Channel.{SendSessionError}
use santi.Tools.{ToolExecutor}
use santi.Send.{SessionTurnService, SendIds, TurnExecutionRequest, TurnInput, RuntimeSelfFacts}
use santi.Send.Worker.{execute}
use santi.Model.Provider.{FunctionCallOutput}
use santi.Base.{String, map, if◌then◌else◌, ◌==◌, ap}
use santi.Base.Exec.{first, second}
use santi.Send.Body.{handle_tool_calls}
use santi.Send.Outputs.{call_ids-handle_tool_calls}
use santi.Send.Terminates.{Ended, execute_ends, Concludes}
use santi.Send.Settled.{Settled, execute-Settled}
use santi.Send.Released.{execute_gives_back}

abbrev tools : ToolExecutor
tools = record {
  runtime_root = "/srv";
  execution_root = "/work";
  default_soul_id = "soul_default";
  run_bash = λ ctx workdir command. err "no bash";
  to_string = λ v. "json";
  describe = λ v. "bad";
}

abbrev tool_call : ProviderFunctionCall
tool_call = record {
  response_id = "r1";
  item_id = none;
  call_id = "call";
  name = "write_session_memory";
  arguments_raw = "…";
  arguments = Value.object (Fields.field "text" (Value.text "note") Fields.end);
}

abbrev provider : ℕ → ProviderRequest → List (Result Error ProviderEvent)
provider zero q =
    ok (ProviderEvent.function_call_requested tool_call) ∷ ok (ProviderEvent.completed none) ∷ []
provider (suc n) q =
    ok (ProviderEvent.output_text_delta "he")
    ∷ ok (ProviderEvent.output_text_delta "llo")
    ∷ ok (ProviderEvent.completed (some "r2"))
    ∷ []

abbrev facts : RuntimeSelfFacts
facts = record {
  service_name = "santi";
  assembly_mode = "standalone";
  launch_profile = none;
  bind_addr = none;
  provider_model = "m";
  provider_api = "a";
  provider_gateway_base_url = none;
}

abbrev pub service : SessionTurnService
service = record {
  model = "m";
  default_soul_id = "soul_default";
  provider = provider;
  runtime_facts = facts;
  tools = tools;
}

abbrev pub ids : SendIds
ids = record {
  trigger_id = "msg_1";
  turn_id = "turn_1";
  assistant_id = "msg_2";
  tool_result_id = λ n i. "tool_result_1";
}

abbrev request : TurnExecutionRequest
request = record {
  session_id = "s";
  input = TurnInput.user_text "hi";
  emit_events = true;
  run_hooks = false;
}

abbrev world : World
unfolding create_session
world = record {
  db = second (create_session "s" (empty "t"));
  held = [];
  published = [];
  sent = [];
}

abbrev result_or : {A : Type 0} → A → Option A → A
result_or d none = d
result_or d (some a) = a

abbrev outcome : Result SendSessionError Turn × World
unfolding execute
outcome =
    result_or (err SendSessionError.busy, world) (execute service ids request none true 2 world)

abbrev is_ok : Result SendSessionError Turn × World → Bool
is_ok (ok t, w) = true
is_ok (err e, w) = false

it_succeeds : is_ok outcome ≡ true
unfolding outcome world
it_succeeds = refl

answers_at_once : Concludes service 1
answers_at_once q = refl

execute_ends_example : Ended (execute service ids request none true 2 world)
execute_ends_example =
    execute_ends service ids request none true 1 2 answers_at_once (omega arith) world

-- What the run gives, and that it gives it.
abbrev ending : Ended (execute service ids request none true 2 world)
ending = execute_ends service ids request none true 1 2 answers_at_once (omega arith) world

abbrev ended_with : Result SendSessionError Turn × World
ended_with = ending.0

execute-Settled_example :
    ((second ended_with).db.turns ≡ world.db.turns) ⊎ Settled "turn_1" ended_with
execute-Settled_example =
    execute-Settled service ids request none true refl 2 world ended_with ending.1

free_key : holds world.held (send_key "s") ≡ false
unfolding world
free_key = refl

new_turn : any (has_turn_id "turn_1") world.db.turns ≡ false
unfolding world
new_turn = refl

execute_gives_back_example : (second ended_with).held ≡ world.held
execute_gives_back_example =
    execute_gives_back service ids request none true tt 2 world ended_with free_key new_turn
      ending.1

abbrev startup : StartupContext
startup = record {
  session = record {
    id = "s";
    parent_session_id = none;
    fork_point = none;
    created_at = "t";
    updated_at = "t";
  };
  provider_input = [];
  instructions = none;
  soul_session_id = "ss";
  trigger_type = TurnTriggerType.session_send;
  input_through_session_seq = 1;
  trigger_message_id = "msg_1";
  runtime_context = record {
    session_id = "s";
    soul_id = "soul_default";
    soul_memory_dir = "/m";
    session_memory_dir = "/n";
    fallback_cwd = "/work";
  };
}

-- A store with the session, its soul session, and the turn.
abbrev begun : Db
unfolding create_session acquire_soul_session start_turn
begun = second (
    start_turn
      (record {
        turn_id = "turn_1";
        soul_session_id = "ss_standalone_s";
        trigger_type = TurnTriggerType.session_send;
        trigger_ref = none;
        input_through_session_seq = 0;
      })
      (second (acquire_soul_session "soul_default" "s" (second (create_session "s" (empty "t"))))))

abbrev running : Turn
running =
    started_turn begun
      (record {
        turn_id = "turn_1";
        soul_session_id = "ss_standalone_s";
        trigger_type = TurnTriggerType.session_send;
        trigger_ref = none;
        input_through_session_seq = 0;
      })
      1

abbrev there : StartupContext
there = record startup { soul_session_id = "ss_standalone_s" }

abbrev before : World
unfolding begun
before = record { db = begun; held = []; published = []; sent = [] }

abbrev body : Option (Result SendSessionError TurnRunOutput × World)
unfolding before run_turn_body
body = run_turn_body service ids request there running true 2 before

abbrev body_ok : Option (Result SendSessionError TurnRunOutput × World) → Bool
body_ok (some (ok o, w)) = true
body_ok _ = false

body_succeeds : body_ok body ≡ true
unfolding body
body_succeeds = refl

given :
    (o : Option (Result SendSessionError TurnRunOutput × World))
    → body_ok o ≡ true
    → (output : TurnRunOutput) × (u : World) × (o ≡ some (ok output, u))
given none h = absurd (ground (arith, h))
given (some (err e, u)) h = absurd (ground (arith, h))
given (some (ok output, u)) h = (output, u, refl)

abbrev answer :
    (output : TurnRunOutput) × (u : World) × (run_turn_body service ids request there running true 2
        before
      ≡ some (ok output, u))
unfolding body
answer = given body body_succeeds

body-Answered_example : Answered service ids request before answer.0 answer.1
body-Answered_example =
    body-Answered service ids request there running 2 before answer.1 answer.0 answer.2

-- Two calls of one answer: of a tool, and of one that does not exist.
abbrev unknown_call : ProviderFunctionCall
unknown_call = record tool_call { call_id = "call_2"; name = "nothing" }

abbrev result_ids : ℕ → String
result_ids i = if i == 0 then "result_1" else "result_2"

abbrev handled : Result SendSessionError (List FunctionCallOutput) × World
unfolding before handle_tool_calls
handled =
    handle_tool_calls service there running result_ids 0 (tool_call ∷ unknown_call ∷ []) before

abbrev outputs : List FunctionCallOutput
outputs =
    record { call_id = "call"; output = "json" }
    ∷ record { call_id = "call_2"; output = "json" }
    ∷ []

both_handled : first handled ≡ ok outputs
unfolding handled
both_handled = refl

call_ids-handle_tool_calls_example :
    map (λ o. o.call_id) outputs ≡ map (λ c. c.call_id) (tool_call ∷ unknown_call ∷ [])
unfolding handle_tool_calls before
call_ids-handle_tool_calls_example =
    call_ids-handle_tool_calls service there running result_ids 0 (tool_call ∷ unknown_call ∷ [])
      before (second handled) outputs (ap (λ r. (r, second handled)) both_handled)
