-- ===== src/Runtime/HookRecords.antt =====
-- crates/santi-runtime/src/session/hook_runtime.rs: the records of the actions.
use santi.Base.{String, ◌≡◌, refl, ap, sym, ◌∙◌, List, [], ◌∷◌, ◌++◌, map}
use mathlib.Core.List.{map-append}
use santi.Base.Exec.{Result, ok, err, second}
use santi.Model.Session.{Compact, SessionEffect}
use santi.Runtime.Compacts.{CompactSessionError}
use santi.Hooks.{RuntimeAction, HookEvaluator, TurnCompletedHookInput, evaluate_turn_completed}
use santi.Runtime.{World}
use santi.Runtime.HookRuntime.{
  Services, ActionRecord, execute_action, execute_actions, run_turn_completed, action_source,
  record_source, records, all_actions, compact_record, handoff_record,
}

abbrev record_of : ActionRecord × World → ActionRecord
record_of (r, w) = r

module _ (services : Services) where
  compact_lem :
      (h u : String) (r : Result CompactSessionError Compact)
      → record_source (compact_record services h u r) ≡ (h, u, "compact")
  compact_lem h u (ok c) = refl
  compact_lem h u (err e) = refl

  handoff_lem :
      (h u : String) (r : Result String SessionEffect)
      → record_source (handoff_record h u r) ≡ (h, u, "fork_handoff")
  handoff_lem h u (ok c) = refl
  handoff_lem h u (err e) = refl

  record_source-execute_action :
      (a : RuntimeAction) (w : World)
      → record_source (record_of (execute_action services a w)) ≡ action_source a
  unfolding execute_action
  record_source-execute_action (RuntimeAction.compact s ss a b t r h u) w = compact_lem h u _
  record_source-execute_action (RuntimeAction.fork_reserved h u) w = refl
  record_source-execute_action (RuntimeAction.fork_handoff s p t h u) w = handoff_lem h u _

  sources-execute_actions :
      (actions : List RuntimeAction) (w : World)
      → map record_source (records (execute_actions services actions w)) ≡ map action_source actions
  unfolding execute_actions
  sources-execute_actions [] w = refl
  sources-execute_actions (a ∷ actions) w =
      cons_lem (record_source-execute_action a w)
        (sources-execute_actions actions (second (execute_action services a w)))
    where
      cons_lem :
          {x y : String × String × String} {xs ys : List (String × String × String)}
          → x ≡ y
          → xs ≡ ys
          → x ∷ xs ≡ y ∷ ys
      cons_lem {y = y} {xs = xs} e f = ap (λ v. v ∷ xs) e ∙ ap (λ vs. y ∷ vs) f

  -- The hooks that a turn's end runs leave one record for each action that an evaluator asks for,
  -- in the order of the evaluators and of their actions, with the hook, the turn and the kind of
  -- the action, whether the services that carry it out succeed or fail.
  pub sources-run_turn_completed :
      (evaluators : List HookEvaluator) (input : TurnCompletedHookInput) (w : World)
      → map record_source (records (run_turn_completed services evaluators input w))
        ≡ map action_source (all_actions evaluators input)
  unfolding run_turn_completed
  sources-run_turn_completed [] input w = refl
  sources-run_turn_completed (e ∷ evaluators) input w =
      let actions = evaluate_turn_completed e input in
      let w' = second (execute_actions services actions w) in
      map-append record_source (records (execute_actions services actions w))
        (records (run_turn_completed services evaluators input w'))
      ∙ ap
          (λ xs.
            xs ++ map record_source (records (run_turn_completed services evaluators input w')))
          (sources-execute_actions actions w)
      ∙ ap (λ xs. map action_source actions ++ xs) (sources-run_turn_completed evaluators input w')
      ∙ sym (map-append action_source actions (all_actions evaluators input))
