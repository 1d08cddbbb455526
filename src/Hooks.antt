-- ===== src/Hooks.antt =====
-- crates/santi-core/src/hook.rs and crates/santi-runtime/src/hooks.rs: the evaluators that a turn's
-- end runs. The reading of their parameters from JSON is serde's, so `parse_…` are arguments.
pub mod Sound
pub mod Examples
use santi.Base.{
  ℕ, ◌+◌, max, String, Bool, true, false, ltb, Option, none, some, List, [], ◌∷◌, filter,
  filter_map, length, if◌then◌else◌,
}
use santi.Base.Texts.{format, decimal}
use santi.Model.Json.{Value}
use santi.Model.Session.{
  Turn, Session, SoulSession, SessionMessage, AssemblyItem, AssemblyTarget, TurnTriggerType,
}
use santi.Runtime.Compacts.{CompactReason, threshold}

pub data HookKind : Type 0 where
  compact_threshold compact_handoff fork_handoff_threshold : HookKind

pub data HookPoint : Type 0 where
  turn_completed : HookPoint

pub record HookSpec : Type 0 where
  pub id : String
  pub enabled : Bool
  pub hook_point : HookPoint
  pub kind : HookKind
  pub params : Value

pub data RuntimeAction : Type 0 where
  compact :
      (session_id soul_session_id : String) (start_session_seq end_session_seq : ℕ)
      (summary : String) (reason : CompactReason) (source_hook_id source_turn_id : String)
      → RuntimeAction
  fork_reserved : (source_hook_id source_turn_id : String) → RuntimeAction
  fork_handoff :
      (session_id : String) (fork_point : ℕ) (seed_text source_hook_id source_turn_id : String)
      → RuntimeAction

pub record TurnCompletedHookInput : Type 0 where
  pub turn : Turn
  pub session : Session
  pub soul_session : SoulSession
  pub assistant_message : Option SessionMessage
  pub assembly_tail : List AssemblyItem

pub record CompactThresholdHook : Type 0 where
  pub id : String
  pub min_messages_since_last_compact : ℕ
  pub summary_template : Option String

pub record CompactHandoffHook : Type 0 where
  pub id : String
  pub summary : String

pub record ForkHandoffThresholdHook : Type 0 where
  pub id : String
  pub min_messages_since_last_compact : ℕ
  pub seed_text : Option String

pub data HookEvaluator : Type 0 where
  compact_threshold : CompactThresholdHook → HookEvaluator
  compact_handoff : CompactHandoffHook → HookEvaluator
  fork_handoff_threshold : ForkHandoffThresholdHook → HookEvaluator

abbrev pub compact_end_of : AssemblyTarget → Option ℕ
compact_end_of (AssemblyTarget.compact c) = some c.end_session_seq
compact_end_of _ = none

-- `iter().max().unwrap_or(0)`; no number is below 0.
abbrev pub maximum : List ℕ → ℕ
maximum [] = 0
maximum (n ∷ ns) = max n (maximum ns)

unfoldable pub last_compact_end : List AssemblyItem → ℕ
last_compact_end items = maximum (filter_map (λ item. compact_end_of item.target) items)

-- A message after the last place that a compact sums up.
abbrev pub is_after : ℕ → AssemblyTarget → Bool
is_after last (AssemblyTarget.message m) = ltb last m.relation.session_seq
is_after last _ = false

unfoldable pub messages_since : ℕ → List AssemblyItem → ℕ
messages_since last items = length (filter (λ item. is_after last item.target) items)

abbrev unwrap_text : Option String → String → String
unwrap_text (some s) d = s
unwrap_text none d = d

unfoldable pub default_summary : ℕ → ℕ → String → String
unfolding format decimal
default_summary start_session_seq end_session_seq turn_id = format (
    "Auto compact for session range "
    ∷ decimal start_session_seq
    ∷ "-"
    ∷ decimal end_session_seq
    ∷ " after turn "
    ∷ turn_id
    ∷ [])

unfoldable pub compact_at :
    CompactThresholdHook → TurnCompletedHookInput → Option SessionMessage → List RuntimeAction
unfolding last_compact_end messages_since default_summary
compact_at hook input none = []
compact_at hook input (some message) =
    let last = last_compact_end input.assembly_tail in
    let end_session_seq = message.relation.session_seq in
    if ltb (messages_since last input.assembly_tail) hook.min_messages_since_last_compact
    then []
    else RuntimeAction.compact input.session.id input.soul_session.id (last + 1) end_session_seq
        (unwrap_text hook.summary_template
          (default_summary (last + 1) end_session_seq input.turn.id))
        threshold hook.id input.turn.id
      ∷ []

unfoldable pub default_seed : String → String → ℕ → String
unfolding format decimal
default_seed hook_id turn_id fork_point = format (
    "Recommend to use compact before continuing. <santi-meta effect=\"hook_fork_handoff\" source_hook_id=\""
    ∷ hook_id
    ∷ "\" source_turn_id=\""
    ∷ turn_id
    ∷ "\" fork_point=\""
    ∷ decimal fork_point
    ∷ "\"></santi-meta>"
    ∷ [])

abbrev pub is_session_send : TurnTriggerType → Bool
is_session_send TurnTriggerType.session_send = true
is_session_send TurnTriggerType.system = false

unfoldable pub hand_off_at :
    ForkHandoffThresholdHook → TurnCompletedHookInput → Option SessionMessage → List RuntimeAction
unfolding last_compact_end messages_since default_seed
hand_off_at hook input none = []
hand_off_at hook input (some message) =
    let last = last_compact_end input.assembly_tail in
    let fork_point = message.relation.session_seq in
    if ltb (messages_since last input.assembly_tail) hook.min_messages_since_last_compact
    then []
    else RuntimeAction.fork_handoff input.session.id fork_point
        (unwrap_text hook.seed_text (default_seed hook.id input.turn.id fork_point)) hook.id
        input.turn.id
      ∷ []

unfoldable pub evaluate_turn_completed : HookEvaluator → TurnCompletedHookInput → List RuntimeAction
unfolding compact_at hand_off_at
evaluate_turn_completed (HookEvaluator.compact_threshold hook) input =
    compact_at hook input input.assistant_message
evaluate_turn_completed (HookEvaluator.compact_handoff hook) input = []
evaluate_turn_completed (HookEvaluator.fork_handoff_threshold hook) input =
    if is_session_send input.turn.trigger_type
    then hand_off_at hook input input.assistant_message
    else []

-- The parameters of the three kinds, as serde reads them.
pub record ParamsReader : Type 0 where
  pub compact_threshold : Value → Option (ℕ × Option String)
  pub compact_handoff : Value → Option String
  pub fork_handoff_threshold : Value → Option (ℕ × Option String)

abbrev with_threshold : String → Option (ℕ × Option String) → Option HookEvaluator
with_threshold id none = none
with_threshold id (some (n, template)) = some (
    HookEvaluator.compact_threshold
      (record { id = id; min_messages_since_last_compact = n; summary_template = template }))

abbrev with_summary : String → Option String → Option HookEvaluator
with_summary id none = none
with_summary id (some summary) =
    some (HookEvaluator.compact_handoff (record { id = id; summary = summary }))

abbrev with_seed : String → Option (ℕ × Option String) → Option HookEvaluator
with_seed id none = none
with_seed id (some (n, seed)) = some (
    HookEvaluator.fork_handoff_threshold
      (record { id = id; min_messages_since_last_compact = n; seed_text = seed }))

abbrev compile_kind : ParamsReader → String → Value → HookKind → Option HookEvaluator
compile_kind reader id params HookKind.compact_threshold =
    with_threshold id (reader.compact_threshold params)
compile_kind reader id params HookKind.compact_handoff =
    with_summary id (reader.compact_handoff params)
compile_kind reader id params HookKind.fork_handoff_threshold =
    with_seed id (reader.fork_handoff_threshold params)

unfoldable pub compile_spec : ParamsReader → HookSpec → Option HookEvaluator
compile_spec reader spec = compile_kind reader spec.id spec.params spec.kind

unfoldable pub compile_hook_specs : ParamsReader → List HookSpec → List HookEvaluator
unfolding compile_spec
compile_hook_specs reader specs =
    filter_map (compile_spec reader) (filter (λ spec. spec.enabled) specs)
