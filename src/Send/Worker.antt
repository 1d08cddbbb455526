-- ===== src/Send/Worker.antt =====
-- crates/santi-runtime/src/session/send: the life of a turn in turn.rs, from its row to the hooks, and
-- the services of mod.rs around it. A guard is taken before and given back after.
use santi.Base.{ℕ, String, Bool, Option, none, some, List, if◌then◌else◌}
use santi.Base.Exec.{Exec, Result, ok, err, pure, raise, ◌>>=◌, ◌>>◌}
use santi.Lock.{LockGuard, acquire, release}
use santi.Model.Session.{Turn, SoulSession, AssemblyItem}
use santi.Hooks.{TurnCompletedHookInput}
use santi.Store.Mapping.{option_map}
use santi.Store.Souls.{fetch_soul_session}
use santi.Store.Turns.{StartTurn, start_turn, fail_turn}
use santi.Runtime.{World, call, lock_call, publish, send_key}
use santi.Runtime.Channel.{SendSessionError, SendSessionEvent}
use santi.Runtime.Watch.{SessionWatchState, SessionWatchActivityState}
use santi.Runtime.HookRuntime.{ActionRecord, run_turn_completed}
use santi.Send.{
  SessionTurnService, SendIds, TurnExecutionRequest, StartupContext, TurnRunOutput, HookRunner,
  map_core_error, map_lock_error, render_send_error, send,
}
use santi.Send.Startup.{run_turn_startup, build_assembly_items}
use santi.Send.Ending.{run_turn_body, session_state, send_activity}

unfoldable pub publish_turn_started : String → Exec World SendSessionError (Unit {0})
unfolding publish
publish_turn_started session_id = do
  publish session_id (session_state session_id SessionWatchState.running)
  publish session_id (send_activity session_id SessionWatchActivityState.started none)

-- The error of the release wins.
unfoldable pub release_guard_on_error :
    {A : Type 0} → LockGuard → SendSessionError → Exec World SendSessionError A
unfolding release map_lock_error
release_guard_on_error guard error = do lock_call map_lock_error (release guard); raise error

-- What `fail_turn` says is not looked at.
unfoldable pub fail_turn_on_error :
    {A : Type 0} → String → Result SendSessionError A → World → World
unfolding fail_turn map_core_error render_send_error
fail_turn_on_error turn_id (ok output) w = w
fail_turn_on_error turn_id (err e) w =
    let (r, w') = call map_core_error (fail_turn turn_id (render_send_error e)) w in w'

abbrev pub released_with :
    {A : Type 0}
    → Result SendSessionError A
    → Result SendSessionError (Unit {0})
    → Result SendSessionError A
released_with r (ok tt) = r
released_with r (err release_err) = err release_err

unfoldable pub finish_turn_run :
    {A : Type 0} → Result SendSessionError A → LockGuard → Exec World SendSessionError A
unfolding release map_lock_error
finish_turn_run run_result guard w =
    let (release_result, w') = lock_call map_lock_error (release guard) w in
    (released_with run_result release_result, w')

abbrev pub without_records : {E : Type 0} → List ActionRecord × World → Result E (Unit {0}) × World
without_records (rs, w) = (ok tt, w)

abbrev pub hook_input : TurnRunOutput → SoulSession → List AssemblyItem → TurnCompletedHookInput
hook_input output soul_session assembly = record {
  turn = output.turn;
  session = output.session;
  soul_session = soul_session;
  assistant_message = some output.assistant_message;
  assembly_tail = assembly;
}

unfoldable pub run_hooks_on :
    HookRunner → TurnRunOutput → Option SoulSession → Exec World SendSessionError (Unit {0})
unfolding build_assembly_items run_turn_completed
run_hooks_on hooks output none = pure tt
run_hooks_on hooks output (some soul_session) = do
  assembly ← build_assembly_items output.session.id output.soul_session_id
  λ w. without_records (
      run_turn_completed hooks.services hooks.evaluators (hook_input output soul_session assembly)
        w)

abbrev pub run_with_hooks :
    TurnRunOutput → Option HookRunner → Exec World SendSessionError (Unit {0})
run_with_hooks output none = pure tt
run_with_hooks output (some hooks) = do
  soul_session ← call map_core_error (fetch_soul_session output.soul_session_id)
  run_hooks_on hooks output soul_session

unfoldable pub run_turn_completed_hooks :
    TurnExecutionRequest
    → Option HookRunner
    → TurnRunOutput
    → Exec World SendSessionError (Unit {0})
unfolding fetch_soul_session map_core_error run_hooks_on
run_turn_completed_hooks request hooks output =
    if request.run_hooks then run_with_hooks output hooks else pure tt

unfoldable pub emit_turn_completed_event :
    TurnExecutionRequest → Bool → Exec World SendSessionError (Unit {0})
unfolding send
emit_turn_completed_event request tx =
    if request.emit_events then send tx (ok SendSessionEvent.completed) else pure tt

abbrev pub turn_input : SendIds → StartupContext → StartTurn
turn_input ids startup = record {
  turn_id = ids.turn_id;
  soul_session_id = startup.soul_session_id;
  trigger_type = startup.trigger_type;
  trigger_ref = some startup.trigger_message_id;
  input_through_session_seq = startup.input_through_session_seq;
}

module _ (service : SessionTurnService) (ids : SendIds) (request : TurnExecutionRequest)
    (hooks : Option HookRunner) (tx : Bool) where
  -- After the guard was given back.
  unfoldable pub after_turn : TurnRunOutput → Exec World SendSessionError Turn
  unfolding run_turn_completed_hooks emit_turn_completed_event
  after_turn output = do
    run_turn_completed_hooks request hooks output
    emit_turn_completed_event request tx
    pure output.turn

  unfoldable pub close_turn :
      LockGuard → Result SendSessionError TurnRunOutput → Exec World SendSessionError Turn
  unfolding finish_turn_run after_turn
  close_turn guard run_result = do output ← finish_turn_run run_result guard; after_turn output

  abbrev pub closed :
      LockGuard
      → Result SendSessionError TurnRunOutput × World
      → Result SendSessionError Turn × World
  closed guard (run_result, w) =
      close_turn guard run_result (fail_turn_on_error ids.turn_id run_result w)

  -- From the row of the turn on; the guard stays taken when the turn cannot be started.
  abbrev pub run_started :
      StartupContext
      → LockGuard
      → ℕ
      → Result SendSessionError Turn × World
      → Option (Result SendSessionError Turn × World)
  run_started startup guard fuel (err e, w) = some (err e, w)
  run_started startup guard fuel (ok turn, w) =
      option_map (closed guard) (run_turn_body service ids request startup turn tx fuel w)

  unfoldable pub run_turn_worker :
      StartupContext → LockGuard → ℕ → World → Option (Result SendSessionError Turn × World)
  unfolding start_turn map_core_error run_turn_body fail_turn_on_error close_turn
  run_turn_worker startup guard fuel w =
      run_started startup guard fuel (call map_core_error (start_turn (turn_input ids startup)) w)

  abbrev pub after_startup :
      LockGuard
      → ℕ
      → Result SendSessionError StartupContext × World
      → Option (Result SendSessionError Turn × World)
  after_startup guard fuel (err e, w) = some (release_guard_on_error guard e w)
  after_startup guard fuel (ok startup, w) =
      let (r, w') = publish_turn_started request.session_id w in
      run_turn_worker startup guard fuel w'

  unfoldable pub execute_with_guard :
      LockGuard → ℕ → World → Option (Result SendSessionError Turn × World)
  unfolding run_turn_startup release_guard_on_error publish_turn_started run_turn_worker
  execute_with_guard guard fuel w =
      after_startup guard fuel (run_turn_startup service ids request w)

  abbrev pub with_guard :
      ℕ → Result SendSessionError LockGuard × World → Option (Result SendSessionError Turn × World)
  with_guard fuel (err e, w) = some (err e, w)
  with_guard fuel (ok guard, w) = execute_with_guard guard fuel w

  -- `SessionTurnService::execute`.
  unfoldable pub execute : ℕ → World → Option (Result SendSessionError Turn × World)
  unfolding acquire map_lock_error send_key execute_with_guard
  execute fuel w =
      with_guard fuel (lock_call map_lock_error (acquire (send_key request.session_id)) w)
