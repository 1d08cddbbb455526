-- ===== src/Send/Streams.antt =====
-- crates/santi-runtime/src/session/send/mod.rs: a turn whose caller follows it by a stream.
use santi.Base.{ℕ, String, true, Option, some}
use santi.Base.Exec.{Result, ok, err, ◌>>◌}
use santi.Lock.{LockGuard, acquire}
use santi.Store.Mapping.{option_map}
use santi.Runtime.{World, lock_call, publish, send_key}
use santi.Runtime.Channel.{SendSessionError}
use santi.Runtime.Watch.{SessionWatchState, SessionWatchActivityState}
use santi.Send.{
  SessionTurnService, SendIds, TurnExecutionRequest, TurnInput, HookRunner, map_lock_error,
  render_send_error, send,
}
use santi.Send.Ending.{session_state, send_activity}
use santi.Send.Worker.{execute_with_guard}

-- The spawned task of `start_turn_stream`: a failure is published and told the caller.
unfoldable pub report_failure : {A : Type 0} → String → Result SendSessionError A × World → World
unfolding publish send render_send_error
report_failure session_id (ok turn, w) = w
report_failure session_id (err e, w) =
    let (r, w') =
      (do
        publish session_id
            (send_activity session_id SessionWatchActivityState.failed (some (render_send_error e)))
        publish session_id (session_state session_id SessionWatchState.failed)
        send true (err e))
        w in
    ignore r w'
  where
    ignore : Result SendSessionError (Unit {0}) → World → World
    ignore r w = w

-- `start_turn_stream`: whether it could start, and the world after its task has run.
abbrev pub spawned :
    SessionTurnService
    → SendIds
    → TurnExecutionRequest
    → Option HookRunner
    → ℕ
    → Result SendSessionError LockGuard × World
    → Option (Result SendSessionError (Unit {0}) × World)
spawned service ids request hooks fuel (err e, w) = some (err e, w)
spawned service ids request hooks fuel (ok guard, w) =
    option_map (λ x. (ok tt, report_failure request.session_id x))
      (execute_with_guard service ids request hooks true guard fuel w)

unfoldable pub start_turn_stream :
    SessionTurnService
    → SendIds
    → TurnExecutionRequest
    → Option HookRunner
    → ℕ
    → World
    → Option (Result SendSessionError (Unit {0}) × World)
unfolding acquire map_lock_error send_key execute_with_guard report_failure
start_turn_stream service ids request hooks fuel w =
    spawned service ids request hooks fuel
      (lock_call map_lock_error (acquire (send_key request.session_id)) w)

-- `SessionSendService::start`.
unfoldable pub start :
    SessionTurnService
    → SendIds
    → Option HookRunner
    → String
    → String
    → ℕ
    → World
    → Option (Result SendSessionError (Unit {0}) × World)
unfolding start_turn_stream
start service ids hooks session_id user_content =
    start_turn_stream service ids
      (record {
        session_id = session_id;
        input = TurnInput.user_text user_content;
        emit_events = true;
        run_hooks = true;
      })
      hooks

unfoldable pub reply_to_session_message :
    SessionTurnService
    → SendIds
    → Option HookRunner
    → String
    → String
    → ℕ
    → World
    → Option (Result SendSessionError (Unit {0}) × World)
unfolding start_turn_stream
reply_to_session_message service ids hooks session_id message_id =
    start_turn_stream service ids
      (record {
        session_id = session_id;
        input = TurnInput.existing_message message_id;
        emit_events = true;
        run_hooks = true;
      })
      hooks
