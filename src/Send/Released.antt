-- ===== src/Send/Released.antt =====
-- crates/santi-runtime/src/session/send: the key of a turn, from its start to its end.
use santi.Base.{
  some_inj, ℕ, String, Bool, false, not, ◌≡◌, refl, ap, ◌∙◌, sym, Option, none, some, List, [], ◌∷◌,
  any, filter, find_by, str_eq, arith, Bool-cases, inl, inr,
}
use santi.Base.Exec.{Result, ok, err, pure, second, ◌>>=◌}
use santi.Base.Preserving.{Preserving, bind-Preserving}
use santi.Model.Session.{Turn, SoulSession}
use santi.Lock.Keys.{taken_and_given_back}
use santi.Lock.{LockGuard, acquire, release, holds}
use santi.Hooks.{HookEvaluator, TurnCompletedHookInput, RuntimeAction, evaluate_turn_completed}
use santi.Store.{SoulSessionRow}
use santi.Store.Mapping.{option_map}
use santi.Store.Souls.{fetch_soul_session, has_soul_id}
use santi.Store.Turns.{has_turn_id, fail_turn}
use santi.Store.Ended.{start_turn_succeeds}
use santi.Runtime.{World, call, after_call, publish, send_key}
use santi.Runtime.Calls.{held_keys}
use santi.Runtime.Channel.{SendSessionError}
use santi.Runtime.Compacts.{CompactRequest}
use santi.Runtime.Handoff.{ForkHandoffEffectRequest}
use santi.Runtime.HookRuntime.{Services, execute_action, execute_actions, run_turn_completed}
use santi.Send.{
  SessionTurnService, SendIds, TurnExecutionRequest, StartupContext, TurnRunOutput, HookRunner,
  map_core_error, send,
}
use santi.Send.Ending.{run_turn_body}
use santi.Send.Held.{kept_view}
use santi.Send.Closing.{BodyOutcome, body-BodyOutcome}
use santi.Send.Startup.{run_turn_startup, build_assembly_items}
use santi.Send.Starting.{startup_keeps, startup-Found, build_assembly_items_reads, Found}
use santi.Send.Worker.{
  turn_input, fail_turn_on_error, finish_turn_run, close_turn, closed, after_turn, run_started,
  run_turn_worker, emit_turn_completed_event, run_turn_completed_hooks, run_with_hooks,
  run_hooks_on, hook_input, without_records, after_startup, execute, execute_with_guard,
  release_guard_on_error, publish_turn_started,
}

-- The services of the hooks give back what they take.
pub record KeepsHeld (services : Services) : Type 0 where
  pub compact_keeps :
      (request : CompactRequest) (w : World)
      → (second (services.execute_compact request w)).held ≡ w.held
  pub handoff_keeps :
      (request : ForkHandoffEffectRequest) (w : World)
      → (second (services.execute_fork_handoff request w)).held ≡ w.held

abbrev pub HooksKeep : Option HookRunner → Type 0
HooksKeep none = Unit {0}
HooksKeep (some hooks) = KeepsHeld hooks.services

module _ (services : Services) (k : KeepsHeld services) where
  action_held :
      (action : RuntimeAction) (w : World)
      → (second (execute_action services action w)).held ≡ w.held
  unfolding execute_action
  action_held (RuntimeAction.compact _ _ _ _ _ _ _ _) w = k.compact_keeps _ w
  action_held (RuntimeAction.fork_reserved _ _) w = refl
  action_held (RuntimeAction.fork_handoff _ _ _ _ _) w = k.handoff_keeps _ w

  actions_held :
      (actions : List RuntimeAction) (w : World)
      → (second (execute_actions services actions w)).held ≡ w.held
  unfolding execute_actions
  actions_held [] w = refl
  actions_held (action ∷ actions) w =
      actions_held actions (second (execute_action services action w)) ∙ action_held action w

  hooks_held :
      (evaluators : List HookEvaluator) (input : TurnCompletedHookInput) (w : World)
      → (second (run_turn_completed services evaluators input w)).held ≡ w.held
  unfolding run_turn_completed
  hooks_held [] input w = refl
  hooks_held (evaluator ∷ evaluators) input w =
      hooks_held evaluators input
        (second (execute_actions services (evaluate_turn_completed evaluator input) w))
      ∙ actions_held (evaluate_turn_completed evaluator input) w

run_hooks_on_held :
    (hooks : HookRunner) (output : TurnRunOutput) (found : Option SoulSession)
    → KeepsHeld hooks.services
    → Preserving held_keys (run_hooks_on hooks output found)
unfolding run_hooks_on
run_hooks_on_held hooks output none k w = refl
run_hooks_on_held hooks output (some soul_session) k w =
    bind-Preserving held_keys (build_assembly_items output.session.id output.soul_session_id)
      (λ assembly u. without_records (
        run_turn_completed hooks.services hooks.evaluators (hook_input output soul_session assembly)
          u))
      (λ u. ap held_keys (build_assembly_items_reads output.session.id output.soul_session_id u))
      (λ assembly u.
        hooks_held hooks.services k hooks.evaluators (hook_input output soul_session assembly) u)
      w

run_with_hooks_held :
    (output : TurnRunOutput) (hooks : Option HookRunner)
    → HooksKeep hooks
    → Preserving held_keys (run_with_hooks output hooks)
unfolding fetch_soul_session
run_with_hooks_held output none k w = refl
run_with_hooks_held output (some hooks) k w =
    bind-Preserving held_keys (call map_core_error (fetch_soul_session output.soul_session_id))
      (run_hooks_on hooks output) (λ u. refl) (λ found. run_hooks_on_held hooks output found k) w

module _ (service : SessionTurnService) (ids : SendIds) (request : TurnExecutionRequest)
    (hooks : Option HookRunner) (tx : Bool) (k : HooksKeep hooks) where
  hooks_run_held :
      (output : TurnRunOutput)
      → Preserving held_keys (run_turn_completed_hooks request hooks output)
  unfolding run_turn_completed_hooks
  hooks_run_held output w = elim (Bool-cases request.run_hooks) [
    | inl e ↦ rw e (run_with_hooks_held output hooks k w)
    | inr e ↦ rw e refl
  ]

  emit_held : Preserving held_keys (emit_turn_completed_event request tx)
  unfolding emit_turn_completed_event send
  emit_held w = elim (Bool-cases request.emit_events) [
    | inr e ↦ rw e refl
    | inl e ↦ elim (Bool-cases tx) [ inl f ↦ rw (e, f) refl | inr f ↦ rw (e, f) refl ]
  ]

  after_turn_held :
      (output : TurnRunOutput)
      → Preserving held_keys (after_turn service ids request hooks tx output)
  unfolding after_turn
  after_turn_held output =
      bind-Preserving held_keys (run_turn_completed_hooks request hooks output)
        (λ _. emit_turn_completed_event request tx >>= λ _. pure output.turn)
        (hooks_run_held output)
        λ _.
          bind-Preserving held_keys (emit_turn_completed_event request tx) (λ _. pure output.turn)
            emit_held (λ _ w. refl)

  -- The keys that are left of those that are held.
  abbrev pub freed : String → List String → List String
  freed key held = filter (λ x. not (str_eq key x)) held

  close_held :
      (guard : LockGuard) (r : Result SendSessionError TurnRunOutput) (w : World)
      → (second (close_turn service ids request hooks tx guard r w)).held ≡ freed guard.key w.held
  unfolding close_turn finish_turn_run release
  close_held guard (err e) w = refl
  close_held guard (ok output) w =
      after_turn_held output (record w { held = freed guard.key w.held })

  closed_held :
      (guard : LockGuard) (turn : Turn) (w : World)
      (x : Result SendSessionError TurnRunOutput × World)
      → BodyOutcome turn.id w x
      → (second (closed service ids request hooks tx guard x)).held ≡ freed guard.key w.held
  unfolding fail_turn_on_error fail_turn
  closed_held guard turn w (ok output, u) (a, _, _) =
      close_held guard (ok output) u ∙ ap (freed guard.key) a
  closed_held guard turn w (err e, u) b =
      close_held guard (err e) (fail_turn_on_error {A = TurnRunOutput} ids.turn_id (err e) u)
      ∙ ap (λ v. freed guard.key v.0) b

  started_held :
      (startup : StartupContext) (guard : LockGuard) (fuel : ℕ) (turn : Turn) (w : World)
      (x : Result SendSessionError Turn × World)
      → run_started service ids request hooks tx startup guard fuel (ok turn, w) ≡ some x
      → (second x).held ≡ freed guard.key w.held
  started_held startup guard fuel turn w x h =
      from_body (run_turn_body service ids request startup turn tx fuel w) refl h
    where
      from_body :
          (o : Option (Result SendSessionError TurnRunOutput × World))
          → run_turn_body service ids request startup turn tx fuel w ≡ o
          → option_map (closed service ids request hooks tx guard) o ≡ some x
          → (second x).held ≡ freed guard.key w.held
      from_body none e g = absurd (ground (arith, g))
      from_body (some y) e g =
          ap (λ (z : Result SendSessionError Turn × World). (second z).held) (some_inj x g)
          ∙ closed_held guard turn w y
              (body-BodyOutcome service ids request startup turn tx fuel w y e)

  -- The turn is started, since its soul session is there and its id is new.
  worker_held :
      (startup : StartupContext) (guard : LockGuard) (fuel : ℕ) (w : World) (row : SoulSessionRow)
      (x : Result SendSessionError Turn × World)
      → find_by (has_soul_id startup.soul_session_id) w.db.soul_sessions ≡ some row
      → any (has_turn_id ids.turn_id) w.db.turns ≡ false
      → run_turn_worker service ids request hooks tx startup guard fuel w ≡ some x
      → (second x).held ≡ freed guard.key w.held
  unfolding run_turn_worker
  worker_held startup guard fuel w row x f n h =
      let (turn, d, e) = start_turn_succeeds (turn_input ids startup) w.db row f n in
      started_held startup guard fuel turn (record w { db = d }) x
        (ap
            (λ p.
              run_started service ids request hooks tx startup guard fuel
                (after_call map_core_error w p))
            (sym e)
          ∙ h)

  startup_held :
      (guard : LockGuard) (fuel : ℕ) (w : World)
      (p : Result SendSessionError StartupContext × World)
      (x : Result SendSessionError Turn × World)
      → kept_view (second p) ≡ kept_view w
      → Found service ids request p
      → any (has_turn_id ids.turn_id) w.db.turns ≡ false
      → after_startup service ids request hooks tx guard fuel p ≡ some x
      → (second x).held ≡ freed guard.key w.held
  unfolding release_guard_on_error release publish_turn_started publish
  startup_held guard fuel w (err e, u) x s f n h =
      ap (λ (z : Result SendSessionError Turn × World). (second z).held) (some_inj x h)
      ∙ ap (λ v. freed guard.key v.0) s
  startup_held guard fuel w (ok startup, u) x s (row, f) n h =
      worker_held startup guard fuel (second (publish_turn_started request.session_id u)) row x f
        (ap (λ v. any (has_turn_id ids.turn_id) v.1) s ∙ n) h
      ∙ ap (λ v. freed guard.key v.0) s

  -- A send whose key is free and whose turn has a new id gives every key back when it ends, on
  -- success and on each of its failures, if the services of its hooks do.
  pub execute_gives_back :
      (fuel : ℕ) (w : World) (x : Result SendSessionError Turn × World)
      → holds w.held (send_key request.session_id) ≡ false
      → any (has_turn_id ids.turn_id) w.db.turns ≡ false
      → execute service ids request hooks tx fuel w ≡ some x
      → (second x).held ≡ w.held
  unfolding execute execute_with_guard acquire
  execute_gives_back fuel w x free n h =
      startup_held (record { key = key }) fuel taken (run_turn_startup service ids request taken) x
        (startup_keeps service ids request taken) (startup-Found service ids request taken) n
        (rw free at h)
      ∙ taken_and_given_back key w.held free
    where
      key : String
      key = send_key request.session_id

      taken : World
      taken = record w { held = key ∷ w.held }
