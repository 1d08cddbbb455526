-- ===== src/Send/Held.antt =====
-- crates/santi-runtime/src/session/send: up to the release of the guard a turn holds and gives back
-- no key, and up to its completion it leaves the turns alone.
use santi.Runtime.Watch.{SessionWatchEvent}
use santi.Store.{MessageRow}
use santi.Store.Untouched.{rows_of}
use santi.Tools.Types.{ToolDispatchResult}
use santi.Store.Items.{AppendToolCall, AppendToolResult}
use santi.Base.{some_inj, ap, arith}
use santi.Base.{
  ℕ, zero, suc, String, Bool, true, false, ◌≡◌, refl, ◌∙◌, Option, none, some, List, [], ◌∷◌,
}
use santi.Base.Exec.{Exec, Result, ok, err, pure, second, ◌>>=◌}
use santi.Base.Preserving.{Preserving, bind-Preserving}
use santi.Model.Error.{Error}
use santi.Model.Session.{Turn}
use santi.Model.Provider.{ProviderEvent, ProviderFunctionCall, FunctionCallOutput}
use santi.Store.{Db}
use santi.Store.Untouched.{turns_of, append_tool_call_rows, append_tool_result_rows}
use santi.Store.Items.{append_tool_call, append_tool_result}
use santi.Runtime.{World, call}
use santi.Runtime.Channel.{SendSessionError}
use santi.Tools.{dispatch}
use santi.Tools.Kept.{dispatch_rows}
use santi.Send.{SessionTurnService, SendIds, StartupContext, send, map_core_error}
use santi.Send.Body.{
  collect, Streamed, handle_tool_call, handle_tool_calls, run_round, run_loop, go_on, LoopState,
  Round, last, more, after_stream, stream_of, streaming, next_loop,
}

-- The keys that are held and the turns.
abbrev pub kept_view : World → List String × List Turn
kept_view w = (w.held, w.db.turns)

abbrev pub Keeping : {E A : Type 0} → Exec World E A → Type 0
Keeping m = Preserving kept_view m

pub call_keeps :
    {F E A : Type 0} (f : F → E) (m : Exec Db F A)
    → Preserving turns_of m
    → Keeping (call {E = E} f m)
call_keeps f m k w = ap (λ ts. (w.held, ts)) (k w.db)

-- What the loop leaves alone: the keys, the turns, the messages and what was published.
abbrev pub loop_view :
    World → List String × (List Turn × List MessageRow) × List (String × SessionWatchEvent)
loop_view w = (w.held, rows_of w.db, w.published)

abbrev pub Looping : {E A : Type 0} → Exec World E A → Type 0
Looping m = Preserving loop_view m

call_loops :
    {F E A : Type 0} (f : F → E) (m : Exec Db F A)
    → Preserving rows_of m
    → Looping (call {E = E} f m)
call_loops f m k w = ap (λ r. (w.held, r, w.published)) (k w.db)

-- A call whose port leaves both tables alone.
pub call_keeps_rows :
    {F E A : Type 0} (f : F → E) (m : Exec Db F A)
    → Preserving rows_of m
    → Keeping (call {E = E} f m)
call_keeps_rows f m k = call_keeps f m (λ s. ap (λ r. r.0) (k s))

collect_keeps :
    (tx : Bool) (events : List (Result Error ProviderEvent)) (r : Streamed)
    → Looping (collect tx events r)
unfolding collect send
collect_keeps tx [] r w = refl
collect_keeps tx (err e ∷ events) r w = refl
collect_keeps tx (ok (ProviderEvent.completed id) ∷ events) r w = refl
collect_keeps tx (ok (ProviderEvent.function_call_requested requested) ∷ events) r w =
    collect_keeps tx events _ w
collect_keeps true (ok (ProviderEvent.output_text_delta delta) ∷ events) r w =
    collect_keeps true events _ _
collect_keeps false (ok (ProviderEvent.output_text_delta delta) ∷ events) r w =
    collect_keeps false events _ w

module _ (service : SessionTurnService) (startup : StartupContext) (turn : Turn) where
  module _ (id : String) (requested : ProviderFunctionCall) where
    abbrev call_row : AppendToolCall
    call_row = record {
      tool_call_id = requested.call_id;
      turn_id = turn.id;
      tool_name = requested.name;
      arguments = requested.arguments;
    }

    abbrev result_row : ToolDispatchResult → AppendToolResult
    result_row result = record {
      tool_result_id = id;
      tool_call_id = requested.call_id;
      output = some result.tool_output;
      error_text = none;
    }

    abbrev finishing : ToolDispatchResult → Exec World SendSessionError FunctionCallOutput
    finishing result = call map_core_error (append_tool_result (result_row result)) >>= λ _.
        pure result.function_call_output

    abbrev dispatching : Exec World SendSessionError ToolDispatchResult
    dispatching =
        call SendSessionError.internal (dispatch service.tools startup.runtime_context requested)

    -- A call keeps what its three parts keep.
    pub tool_call_preserving :
        {X : Type 0} (view : World → X)
        → Preserving view (call map_core_error (append_tool_call call_row))
        → Preserving view dispatching
        → ((result : ToolDispatchResult)
            → Preserving view (call map_core_error (append_tool_result (result_row result))))
        → Preserving view (handle_tool_call service startup turn id requested)
    unfolding handle_tool_call
    tool_call_preserving view h k l =
        bind-Preserving view (call map_core_error (append_tool_call call_row))
          (λ _. dispatching >>= finishing) h
          λ _. bind-Preserving view dispatching finishing k λ result.
            bind-Preserving view (call map_core_error (append_tool_result (result_row result)))
              (λ _. pure result.function_call_output) (l result) (λ item w. refl)

    tool_call_keeps : Looping (handle_tool_call service startup turn id requested)
    tool_call_keeps =
        tool_call_preserving loop_view
          (call_loops map_core_error (append_tool_call call_row) (append_tool_call_rows call_row))
          (call_loops SendSessionError.internal
            (dispatch service.tools startup.runtime_context requested)
            (dispatch_rows service.tools startup.runtime_context requested))
          λ result.
            call_loops map_core_error (append_tool_result (result_row result))
              (append_tool_result_rows (result_row result))

  pub tool_calls_preserving :
      {X : Type 0} (view : World → X)
      → ((id : String) (requested : ProviderFunctionCall)
          → Preserving view (handle_tool_call service startup turn id requested))
      → (ids : ℕ → String) (i : ℕ) (calls : List ProviderFunctionCall)
      → Preserving view (handle_tool_calls service startup turn ids i calls)
  unfolding handle_tool_calls
  tool_calls_preserving view h ids i [] w = refl
  tool_calls_preserving view h ids i (requested ∷ calls) w =
      bind-Preserving view (handle_tool_call service startup turn (ids i) requested)
        (λ output. handle_tool_calls service startup turn ids (suc i) calls >>= λ outputs.
          pure (output ∷ outputs))
        (h (ids i) requested)
        (λ output.
          bind-Preserving view (handle_tool_calls service startup turn ids (suc i) calls)
            (λ outputs. pure (output ∷ outputs)) (tool_calls_preserving view h ids (suc i) calls)
            (λ outputs u. refl))
        w

  module _ (ids : SendIds) (tx : Bool) where
    after_stream_keeps :
        (n : ℕ) (r : Streamed) (calls : List ProviderFunctionCall)
        → Looping (after_stream service ids tx startup turn n r calls)
    after_stream_keeps n r [] w = refl
    after_stream_keeps n r (requested ∷ calls) w =
        bind-Preserving loop_view
          (handle_tool_calls service startup turn (ids.tool_result_id n) 0 (requested ∷ calls))
          (λ outputs. pure (more (next_loop service ids tx startup turn r outputs)))
          (tool_calls_preserving loop_view tool_call_keeps (ids.tool_result_id n) 0
            (requested ∷ calls))
          (λ outputs u. refl) w

    round_keeps : (n : ℕ) (l : LoopState) → Looping (run_round service ids tx startup turn n l)
    unfolding run_round
    round_keeps n l =
        bind-Preserving loop_view
          (collect tx (stream_of service ids tx startup turn n l) (streaming l))
          (λ r. after_stream service ids tx startup turn n r r.calls)
          (collect_keeps tx (stream_of service ids tx startup turn n l) (streaming l))
          (λ r. after_stream_keeps n r r.calls)

    go_on_keeps :
        (next : LoopState → World → Option (Result SendSessionError LoopState × World)) (w : World)
        (x : Result SendSessionError LoopState × World)
        → ((l : LoopState) (u : World) → next l u ≡ some x → loop_view (second x) ≡ loop_view u)
        → (p : Result SendSessionError (Round service ids tx startup turn) × World)
        → loop_view (second p) ≡ loop_view w
        → go_on service ids tx startup turn next p ≡ some x
        → loop_view (second x) ≡ loop_view w
    go_on_keeps next w x f (err e, u) k h =
        ap (λ (y : Result SendSessionError LoopState × World). loop_view (second y)) (some_inj x h)
        ∙ k
    go_on_keeps next w x f (ok (last l), u) k h =
        ap (λ (y : Result SendSessionError LoopState × World). loop_view (second y)) (some_inj x h)
        ∙ k
    go_on_keeps next w x f (ok (more l), u) k h = f l u h ∙ k

    -- What the loop leaves, if it ends.
    pub run_loop_keeps :
        (fuel n : ℕ) (l : LoopState) (w : World) (x : Result SendSessionError LoopState × World)
        → run_loop service ids tx startup turn fuel n l w ≡ some x
        → loop_view (second x) ≡ loop_view w
    unfolding run_loop
    run_loop_keeps zero n l w x h = absurd (ground (arith, h))
    run_loop_keeps (suc fuel) n l w x h =
        go_on_keeps (run_loop service ids tx startup turn fuel (suc n)) w x
          (λ m u g. run_loop_keeps fuel (suc n) m u x g)
          (run_round service ids tx startup turn n l w) (round_keeps n l w) h
