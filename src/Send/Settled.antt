-- ===== src/Send/Settled.antt =====
-- crates/santi-runtime/src/session/send: the row of a turn that was started, and how its run ended.
use santi.Store.Turns.{has_turn_id}
use santi.Runtime.{publish, send_key}
use santi.Send.Startup.{run_turn_startup}
use santi.Send.Starting.{startup_keeps}
use santi.Send.Worker.{
  turn_input, after_startup, with_guard, execute, execute_with_guard, release_guard_on_error,
  publish_turn_started,
}
use santi.Base.{some_inj, find_by, ◌⊎◌}
use santi.Base.{
  ℕ, String, Bool, false, ◌≡◌, refl, ap, ◌∙◌, subst, sym, Option, none, some, arith, Bool-cases,
  inl, inr,
}
use santi.Base.Exec.{Result, ok, err, second}
use santi.Model.Error.{Error}
use santi.Model.Session.{Turn, TurnStatus}
use santi.Lock.{LockGuard, acquire, release}
use santi.Store.{Db}
use santi.Store.Mapping.{option_map}
use santi.Store.Ended.{turn_in, Started, start_turn-Started, fail_turn_lem}
use santi.Store.Turns.{StartTurn, start_turn, failed_turn}
use santi.Runtime.{World, after_call, lock_call}
use santi.Runtime.Channel.{SendSessionError}
use santi.Send.{
  SessionTurnService, SendIds, TurnExecutionRequest, StartupContext, TurnRunOutput, HookRunner,
  map_core_error, map_lock_error, render_send_error, send,
}
use santi.Send.Ending.{run_turn_body}
use santi.Send.Held.{kept_view}
use santi.Send.Closing.{BodyOutcome, body-BodyOutcome}
use santi.Send.Worker.{
  turn_input, fail_turn_on_error, finish_turn_run, close_turn, closed, after_turn, run_started,
  run_turn_worker, emit_turn_completed_event, run_turn_completed_hooks,
}

-- The row of the turn is completed and is what was returned, or it is failed with the text of the
-- error that was returned.
abbrev pub Settled : String → Result SendSessionError Turn × World → Type 0
Settled id (ok t, u) = (turn_in id u.db ≡ some t) × (t.status ≡ TurnStatus.completed)
Settled id (err e, u) =
    (t : Turn) × (turn_in id u.db ≡ some t)
    × (t.status ≡ TurnStatus.failed)
    × (t.error_text ≡ some (render_send_error e))

module _ (service : SessionTurnService) (ids : SendIds) (request : TurnExecutionRequest)
    (hooks : Option HookRunner) (tx : Bool) (quiet : request.run_hooks ≡ false) where
  close_ok :
      (guard : LockGuard) (output : TurnRunOutput) (w : World)
      → turn_in ids.turn_id w.db ≡ some output.turn
      → output.turn.status ≡ TurnStatus.completed
      → Settled ids.turn_id (close_turn service ids request hooks tx guard (ok output) w)
  unfolding close_turn finish_turn_run after_turn run_turn_completed_hooks emit_turn_completed_event
      send release
  close_ok guard output w a b = elim (Bool-cases request.emit_events) [
    | inr e ↦ rw (quiet, e) (a, b)
    | inl e ↦ elim (Bool-cases tx) [
      | inl f ↦ rw (quiet, e, f) (a, b)
      | inr f ↦ rw (quiet, e, f) (a, b)
    ]
  ]

  close_err :
      (guard : LockGuard) (e : SendSessionError) (w : World) (t : Turn)
      → turn_in ids.turn_id w.db ≡ some t
      → Settled ids.turn_id (
          close_turn service ids request hooks tx guard
            (err e)
            (fail_turn_on_error {A = TurnRunOutput} ids.turn_id (err e) w))
  unfolding close_turn finish_turn_run fail_turn_on_error release
  close_err guard e w t a = (
    failed_turn w.db (render_send_error e) t,
    fail_turn_lem ids.turn_id (render_send_error e) w.db _ _ t a refl,
    refl,
    refl,
  )

  closed-Settled :
      (guard : LockGuard) (turn : Turn) (w : World)
      → turn.id ≡ ids.turn_id
      → turn_in ids.turn_id w.db ≡ some turn
      → (x : Result SendSessionError TurnRunOutput × World) → BodyOutcome turn.id w x
      → Settled ids.turn_id (closed service ids request hooks tx guard x)
  unfolding fail_turn_on_error
  closed-Settled guard turn w q t (ok output, u) (a, b, c) =
      close_ok guard output u (subst (λ id. turn_in id u.db ≡ some output.turn) q b) c
  closed-Settled guard turn w q t (err e, u) k =
      close_err guard e u turn (ap (λ v. find_by (has_turn_id ids.turn_id) v.1) k ∙ t)

  run_started-Settled :
      (startup : StartupContext) (guard : LockGuard) (fuel : ℕ) (input : StartTurn) (w : World)
      (p : Result Error Turn × Db) (x : Result SendSessionError Turn × World)
      → input.turn_id ≡ ids.turn_id
      → Started input w.db p
      → run_started service ids request hooks tx startup guard fuel (after_call map_core_error w p)
        ≡ some x
      → ((second x).db.turns ≡ w.db.turns) ⊎ Settled ids.turn_id x
  run_started-Settled startup guard fuel input w (err e, d) x q s h = inl (
      ap (λ (y : Result SendSessionError Turn × World). (second y).db.turns) (some_inj x h)
      ∙ ap (λ v. v.turns) s)
  run_started-Settled startup guard fuel input w (ok turn, d) x q (a, b, _) h =
      inr (from_body (run_turn_body service ids request startup turn tx fuel u) refl h)
    where
      u : World
      u = record w { db = d }

      from_body :
          (o : Option (Result SendSessionError TurnRunOutput × World))
          → run_turn_body service ids request startup turn tx fuel u ≡ o
          → option_map (closed service ids request hooks tx guard) o ≡ some x
          → Settled ids.turn_id x
      from_body none e g = absurd (ground (arith, g))
      from_body (some y) e g = subst (Settled ids.turn_id) (sym (some_inj x g)) (
          closed-Settled guard turn u (b ∙ q) (subst (λ id. turn_in id d ≡ some turn) q a) y
            (body-BodyOutcome service ids request startup turn tx fuel u y e))

  worker-Settled :
      (startup : StartupContext) (guard : LockGuard) (fuel : ℕ) (w : World)
      (x : Result SendSessionError Turn × World)
      → run_turn_worker service ids request hooks tx startup guard fuel w ≡ some x
      → ((second x).db.turns ≡ w.db.turns) ⊎ Settled ids.turn_id x
  unfolding run_turn_worker
  worker-Settled startup guard fuel w x h =
      run_started-Settled startup guard fuel (turn_input ids startup) w
        (start_turn (turn_input ids startup) w.db) x refl
        (start_turn-Started (turn_input ids startup) w.db) h

  startup-Settled :
      (guard : LockGuard) (fuel : ℕ) (w : World)
      (p : Result SendSessionError StartupContext × World)
      (x : Result SendSessionError Turn × World)
      → kept_view (second p) ≡ kept_view w
      → after_startup service ids request hooks tx guard fuel p ≡ some x
      → ((second x).db.turns ≡ w.db.turns) ⊎ Settled ids.turn_id x
  unfolding release_guard_on_error release publish_turn_started publish
  startup-Settled guard fuel w (err e, u) x k h = inl (
      ap (λ (y : Result SendSessionError Turn × World). (second y).db.turns) (some_inj x h)
      ∙ ap (λ v. v.1) k)
  startup-Settled guard fuel w (ok startup, u) x k h =
      elim (worker-Settled startup guard fuel (second (publish_turn_started request.session_id u)) x
        h) [ inl e ↦ inl (e ∙ ap (λ v. v.1) k) | inr s ↦ inr s ]

  guarded-Settled :
      (fuel : ℕ) (w : World) (p : Result SendSessionError LockGuard × World)
      (x : Result SendSessionError Turn × World)
      → (second p).db ≡ w.db
      → with_guard service ids request hooks tx fuel p ≡ some x
      → ((second x).db.turns ≡ w.db.turns) ⊎ Settled ids.turn_id x
  unfolding execute_with_guard
  guarded-Settled fuel w (err e, u) x k h = inl (
      ap (λ (y : Result SendSessionError Turn × World). (second y).db.turns) (some_inj x h)
      ∙ ap (λ d. d.turns) k)
  guarded-Settled fuel w (ok guard, u) x k h =
      elim (startup-Settled guard fuel u (run_turn_startup service ids request u) x
        (startup_keeps service ids request u) h) [
          | inl e ↦ inl (e ∙ ap (λ d. d.turns) k)
          | inr s ↦ inr s
        ]

  -- A send without hooks that ends either leaves the turns as they were, or the row of its turn is
  -- completed and is the turn that it returns, or that row is failed with the text of the error
  -- that it returns; it is never left running.
  pub execute-Settled :
      (fuel : ℕ) (w : World) (x : Result SendSessionError Turn × World)
      → execute service ids request hooks tx fuel w ≡ some x
      → ((second x).db.turns ≡ w.db.turns) ⊎ Settled ids.turn_id x
  unfolding execute
  execute-Settled fuel w x h =
      guarded-Settled fuel w (lock_call map_lock_error (acquire (send_key request.session_id)) w) x
        refl h
