-- ===== src/Hooks/Examples.antt =====
-- The theorems of the hooks at a concrete turn.
use santi.Base.{◌≡◌, refl, none, some, [], ◌∷◌, In, here, map}
use santi.Base.Exec.{err}
use santi.Model.Message.{soul, text, fixed}
use santi.Model.Session.{
  TurnTriggerType, TurnStatus, SessionMessage, AssemblyItem, AssemblyTarget, SoulSessionTargetType,
}
use santi.Store.{empty}
use santi.Runtime.Compacts.{CompactSessionError}
use santi.Runtime.HookRuntime.{
  Services, run_turn_completed, record_source, records, action_source, all_actions,
}
use santi.Runtime.HookRecords.{sources-run_turn_completed}
use santi.Hooks.{TurnCompletedHookInput, HookEvaluator, RuntimeAction, evaluate_turn_completed}
use santi.Hooks.Sound.{Sound, evaluate_turn_completed-Sound}

abbrev answer : SessionMessage
answer = record {
  relation = record { session_id = "s"; message_id = "m2"; session_seq = 2; created_at = "t" };
  message = record {
    id = "m2";
    actor_type = soul;
    actor_id = "soul";
    content = record { parts = text "hi" ∷ [] };
    state = fixed;
    version = 1;
    deleted_at = none;
    created_at = "t";
    updated_at = "t";
  };
}

abbrev item : AssemblyItem
item = record {
  entry = record {
    soul_session_id = "ss";
    target_type = SoulSessionTargetType.message;
    target_id = "m2";
    soul_session_seq = 2;
    created_at = "t";
  };
  target = AssemblyTarget.message answer;
}

abbrev input : TurnCompletedHookInput
input = record {
  turn = record {
    id = "turn";
    soul_session_id = "ss";
    trigger_type = TurnTriggerType.session_send;
    trigger_ref = none;
    input_through_session_seq = 1;
    base_soul_session_seq = 0;
    end_soul_session_seq = some 2;
    status = TurnStatus.completed;
    error_text = none;
    created_at = "t";
    updated_at = "t";
    finished_at = some "t";
  };
  session = record {
    id = "s";
    parent_session_id = none;
    fork_point = none;
    created_at = "t";
    updated_at = "t";
  };
  soul_session = record {
    id = "ss";
    soul_id = "soul";
    session_id = "s";
    session_memory = "";
    provider_state = none;
    next_seq = 3;
    last_seen_session_seq = 2;
    parent_soul_session_id = none;
    fork_point = none;
    created_at = "t";
    updated_at = "t";
  };
  assistant_message = some answer;
  assembly_tail = item ∷ [];
}

abbrev compacting : HookEvaluator
compacting =
    HookEvaluator.compact_threshold
      (record { id = "c"; min_messages_since_last_compact = 1; summary_template = some "sum" })

abbrev forking : HookEvaluator
forking =
    HookEvaluator.fork_handoff_threshold
      (record { id = "f"; min_messages_since_last_compact = 1; seed_text = some "go on" })

abbrev asked : RuntimeAction
asked = RuntimeAction.fork_handoff "s" 2 "go on" "f" "turn"

asks : In asked (evaluate_turn_completed forking input)
unfolding evaluate_turn_completed
asks = here refl

evaluate_turn_completed-Sound_example : Sound input asked
evaluate_turn_completed-Sound_example = evaluate_turn_completed-Sound input forking asked asks

abbrev services : Services
services = record {
  execute_compact = λ request w. (err CompactSessionError.busy, w);
  execute_fork_handoff = λ request w. (err "fork busy", w);
  debug = λ e. "Busy";
}

sources-run_turn_completed_example :
    map record_source (
      records (
        run_turn_completed services
          (compacting ∷ forking ∷ [])
          input
          (record { db = empty "t"; held = []; published = []; sent = [] })))
    ≡ map action_source (all_actions (compacting ∷ forking ∷ []) input)
sources-run_turn_completed_example =
    sources-run_turn_completed services (compacting ∷ forking ∷ []) input
      (record { db = empty "t"; held = []; published = []; sent = [] })
