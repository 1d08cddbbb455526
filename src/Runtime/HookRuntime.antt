-- ===== src/Runtime/HookRuntime.antt =====
-- crates/santi-runtime/src/session/hook_runtime.rs. The two services that carry out actions are
-- arguments; `debug` is the derived `{:?}` of an error of the compact service. The subscriber set
-- is the list that its `snapshot` gives.
use santi.Base.{String, Option, none, some, List, [], ◌∷◌, ◌++◌, str_eq, if◌then◌else◌}
use santi.Base.Exec.{Exec, Result, ok, err}
use santi.Base.Int.{pos}
use santi.Model.Session.{Compact, SessionEffect}
use santi.Hooks.{RuntimeAction, HookEvaluator, TurnCompletedHookInput, evaluate_turn_completed}
use santi.Runtime.{World}
use santi.Runtime.Compacts.{CompactRequest, CompactSessionError}
use santi.Runtime.Handoff.{ForkHandoffEffectRequest}

pub data ActionStatus : Type 0 where
  executed skipped failed : ActionStatus

pub record ActionRecord : Type 0 where
  pub hook_id : String
  pub turn_id : String
  pub action_type : String
  pub status : ActionStatus
  pub result_ref : Option String
  pub error_text : Option String

pub record Services : Type 0 where
  pub execute_compact : CompactRequest → Exec World CompactSessionError Compact
  pub execute_fork_handoff : ForkHandoffEffectRequest → Exec World String SessionEffect
  pub debug : CompactSessionError → String

abbrev pub compact_record :
    Services → String → String → Result CompactSessionError Compact → ActionRecord
compact_record services hook_id turn_id (ok compact) = record {
  hook_id = hook_id;
  turn_id = turn_id;
  action_type = "compact";
  status = ActionStatus.executed;
  result_ref = some compact.id;
  error_text = none;
}
compact_record services hook_id turn_id (err e) = record {
  hook_id = hook_id;
  turn_id = turn_id;
  action_type = "compact";
  status = ActionStatus.failed;
  result_ref = none;
  error_text = some (services.debug e);
}

abbrev pub handoff_record : String → String → Result String SessionEffect → ActionRecord
handoff_record hook_id turn_id (ok effect) = record {
  hook_id = hook_id;
  turn_id = turn_id;
  action_type = "fork_handoff";
  status = if str_eq effect.status "failed" then ActionStatus.failed else ActionStatus.executed;
  result_ref = some effect.id;
  error_text = effect.error_text;
}
handoff_record hook_id turn_id (err e) = record {
  hook_id = hook_id;
  turn_id = turn_id;
  action_type = "fork_handoff";
  status = ActionStatus.failed;
  result_ref = none;
  error_text = some e;
}

unfoldable pub execute_action : Services → RuntimeAction → World → ActionRecord × World
execute_action services
      (RuntimeAction.compact session_id _ start_session_seq end_session_seq summary reason hook_id
        turn_id)
      w =
    let (r, w') =
      services.execute_compact
        (record {
          session_id = session_id;
          summary = summary;
          start_session_seq = some start_session_seq;
          end_session_seq = some end_session_seq;
          reason = reason;
        })
        w in
    (compact_record services hook_id turn_id r, w')
execute_action services (RuntimeAction.fork_reserved hook_id turn_id) w = (
  record {
    hook_id = hook_id;
    turn_id = turn_id;
    action_type = "fork";
    status = ActionStatus.skipped;
    result_ref = none;
    error_text = some "fork action reserved but not implemented";
  },
  w,
)
execute_action services (RuntimeAction.fork_handoff session_id fork_point seed_text hook_id turn_id)
      w =
    let (r, w') =
      services.execute_fork_handoff
        (record {
          parent_session_id = session_id;
          source_hook_id = hook_id;
          source_turn_id = turn_id;
          fork_point = pos fork_point;
          seed_text = seed_text;
        })
        w in
    (handoff_record hook_id turn_id r, w')

unfoldable pub execute_actions : Services → List RuntimeAction → World → List ActionRecord × World
unfolding execute_action
execute_actions services [] w = ([], w)
execute_actions services (action ∷ actions) w =
    let (r, w') = execute_action services action w in
    let (rs, u) = execute_actions services actions w' in (r ∷ rs, u)

unfoldable pub run_turn_completed :
    Services → List HookEvaluator → TurnCompletedHookInput → World → List ActionRecord × World
unfolding execute_actions evaluate_turn_completed
run_turn_completed services [] input w = ([], w)
run_turn_completed services (evaluator ∷ evaluators) input w =
    let (rs, w') = execute_actions services (evaluate_turn_completed evaluator input) w in
    let (ss, u) = run_turn_completed services evaluators input w' in (rs ++ ss, u)

-- What an action says that it comes from, and its kind.
abbrev pub action_source : RuntimeAction → String × String × String
action_source (RuntimeAction.compact _ _ _ _ _ _ hook_id turn_id) = (hook_id, turn_id, "compact")
action_source (RuntimeAction.fork_reserved hook_id turn_id) = (hook_id, turn_id, "fork")
action_source (RuntimeAction.fork_handoff _ _ _ hook_id turn_id) =
    (hook_id, turn_id, "fork_handoff")

abbrev pub record_source : ActionRecord → String × String × String
record_source r = (r.hook_id, r.turn_id, r.action_type)

abbrev pub records : List ActionRecord × World → List ActionRecord
records (rs, w) = rs

abbrev pub all_actions : List HookEvaluator → TurnCompletedHookInput → List RuntimeAction
all_actions [] input = []
all_actions (evaluator ∷ evaluators) input =
    evaluate_turn_completed evaluator input ++ all_actions evaluators input
