-- ===== src/Runtime/Handoff.antt =====
-- crates/santi-runtime/src/session/effect.rs: the hand-off of a hook, a fork that is seeded with a
-- text. Its two executors are arguments, as the service holds them behind traits; the drawn id of
-- the effect is one too.
use santi.Base.{String, Option, none, some, [], ◌∷◌, str_eq, if◌then◌else◌}
use santi.Base.Int.{ℤ, decimal_ℤ}
use santi.Base.Texts.{format}
use santi.Base.Exec.{Exec, Result, ok, err, pure, lift, ok_or, map_err, ◌>>=◌, ◌>>◌}
use santi.Model.Error.{Error}
use santi.Model.Session.{SessionEffect}
use santi.Store.Effects.{get_effect, create_effect, update_effect}
use santi.Runtime.{World, call, publish}
use santi.Runtime.Channel.{SendSessionError, busy, not_found, internal}
use santi.Runtime.Forking.{ForkResult, ForkError}
use santi.Runtime.Watch.{SessionWatchEvent, SessionWatchActivityKind, SessionWatchActivityState}

pub record ForkHandoffEffectRequest : Type 0 where
  pub parent_session_id : String
  pub source_hook_id : String
  pub source_turn_id : String
  pub fork_point : ℤ
  pub seed_text : String

-- The executors of forks and of seeded sends.
pub record Executors : Type 0 where
  pub fork : String → ℤ → String → Exec World ForkError ForkResult
  pub seeded_send : String → String → Exec World SendSessionError String

unfoldable pub render_core_error : Error → String
unfolding format
render_core_error (Error.not_found resource) = format (resource ∷ " not found" ∷ [])
render_core_error (Error.busy resource) = format (resource ∷ " busy" ∷ [])
render_core_error (Error.invalid_input message) = message
render_core_error (Error.upstream message) = message
render_core_error (Error.internal message) = message

unfoldable pub render_fork_error : ForkError → String
render_fork_error ForkError.busy = "fork busy"
render_fork_error ForkError.parent_not_found = "parent session not found"
render_fork_error (ForkError.invalid_fork_point message) = message
render_fork_error (ForkError.internal message) = message

unfoldable pub render_send_error : SendSessionError → String
render_send_error busy = "seeded send busy"
render_send_error not_found = "seeded send session not found"
render_send_error (internal message) = message

unfoldable pub effect_type : String
effect_type = "hook_fork_handoff"

unfoldable pub idempotency_key : ForkHandoffEffectRequest → String
unfolding format decimal_ℤ effect_type
idempotency_key request = format (
    effect_type
    ∷ ":"
    ∷ request.source_hook_id
    ∷ ":"
    ∷ request.source_turn_id
    ∷ ":"
    ∷ decimal_ℤ request.fork_point
    ∷ [])

unfoldable pub hook_event : String → SessionWatchActivityState → String → SessionWatchEvent
hook_event session_id state label = SessionWatchEvent.activity_changed (record {
  session_id = session_id;
  activity = SessionWatchActivityKind.hook;
  state = state;
  label = some label;
})

-- What a run gives: the new session, or an error and the session that was made before it.
abbrev pub RunResult : Type 0
RunResult = Result (Option String × String) String

abbrev pub map_failure :
    {E A : Type 0}
    → (E → Option String × String)
    → Exec World E A
    → Exec World (Option String × String) A
map_failure f m w = let (r, w') = m w in (map_err f r, w')

unfoldable pub run_fork_handoff :
    Executors → ForkHandoffEffectRequest → Exec World (Option String × String) String
unfolding render_fork_error render_send_error idempotency_key
run_fork_handoff executors request = do
  fork_result ←
      map_failure (λ e. (none, render_fork_error e))
        (executors.fork request.parent_session_id request.fork_point (idempotency_key request))
  map_failure (λ e. (some fork_result.new_session_id, render_send_error e))
      (executors.seeded_send fork_result.new_session_id request.seed_text)
  pure fork_result.new_session_id

abbrev pub or_else : Option String → Option String → Option String
or_else (some a) b = some a
or_else none b = b

unfoldable pub finish_effect :
    String → String → Option String → RunResult → Exec World String SessionEffect
unfolding publish hook_event update_effect render_core_error
finish_effect session_id effect_id prior_result_ref (ok result_ref) = do
  publish session_id (hook_event session_id SessionWatchActivityState.completed result_ref)
  updated ← call render_core_error (
      update_effect (record {
        effect_id = effect_id;
        status = "completed";
        result_ref = some result_ref;
        error_text = none;
      }))
  lift (ok_or updated "effect disappeared before completion")
finish_effect session_id effect_id prior_result_ref (err (result_ref, message)) = do
  publish session_id (hook_event session_id SessionWatchActivityState.failed message)
  updated ← call render_core_error (
      update_effect (record {
        effect_id = effect_id;
        status = "failed";
        result_ref = or_else result_ref prior_result_ref;
        error_text = some message;
      }))
  lift (ok_or updated message)

-- A run never fails as a whole: its result goes into the effect.
unfoldable pub run_and_finish :
    Executors → ForkHandoffEffectRequest → String → Option String → Exec World String SessionEffect
unfolding run_fork_handoff finish_effect
run_and_finish executors request effect_id prior_result_ref w =
    let (r, w') = run_fork_handoff executors request w in
    finish_effect request.parent_session_id effect_id prior_result_ref r w'

unfoldable pub resume_effect :
    Executors → ForkHandoffEffectRequest → SessionEffect → Exec World String SessionEffect
unfolding run_and_finish
resume_effect executors request existing =
    if str_eq existing.status "completed"
    then pure existing
    else run_and_finish executors request existing.id existing.result_ref

unfoldable pub start_effect :
    Executors → String → ForkHandoffEffectRequest → Exec World String SessionEffect
unfolding create_effect render_core_error publish hook_event run_and_finish effect_type
    idempotency_key
start_effect executors effect_id request = do
  created ← call render_core_error (
      create_effect (record {
        effect_id = effect_id;
        session_id = request.parent_session_id;
        effect_type = effect_type;
        idempotency_key = idempotency_key request;
        status = "started";
        source_hook_id = request.source_hook_id;
        source_turn_id = request.source_turn_id;
        result_ref = none;
        error_text = none;
      }))
  publish request.parent_session_id (
      hook_event request.parent_session_id SessionWatchActivityState.started request.source_hook_id)
  run_and_finish executors request effect_id created.result_ref

abbrev pub resume_or_start :
    Executors
    → String
    → ForkHandoffEffectRequest
    → Option SessionEffect
    → Exec World String SessionEffect
resume_or_start executors effect_id request (some existing) =
    resume_effect executors request existing
resume_or_start executors effect_id request none = start_effect executors effect_id request

unfoldable pub execute_fork_handoff :
    Executors → String → ForkHandoffEffectRequest → Exec World String SessionEffect
unfolding get_effect render_core_error effect_type idempotency_key resume_effect start_effect
execute_fork_handoff executors effect_id request = do
  existing ←
      call render_core_error
        (get_effect request.parent_session_id effect_type (idempotency_key request))
  resume_or_start executors effect_id request existing
