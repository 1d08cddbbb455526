-- ===== src/Send/Terminates.antt =====
-- crates/santi-runtime/src/session/send/turn/body.rs: the end of the loop over the requests to the provider.
use santi.Base.{
  ℕ, zero, suc, ◌+◌, ◌≤◌, ◌<◌, ◌==◌, String, Bool, true, false, ◌≡◌, refl, sym, ap, ◌∙◌, subst,
  Option, some, none, List, [], ◌∷◌, arith, Bool-cases, inl, inr,
}
use santi.Base.Exec.{Result, ok, err, Result-cases}
use santi.Model.Error.{Error}
use santi.Model.Session.{Turn}
use santi.Model.Provider.{ProviderRequest, ProviderEvent, ProviderFunctionCall}
use santi.Store.Mapping.{option_map}
use santi.Runtime.{World, lock_call, send_key}
use santi.Runtime.Channel.{SendSessionError}
use santi.Lock.{LockGuard, acquire}
use santi.Send.{
  SessionTurnService, SendIds, TurnExecutionRequest, StartupContext, HookRunner, send,
  map_lock_error,
}
use santi.Send.Startup.{run_turn_startup}
use santi.Send.Body.{
  LoopState, Streamed, Round, last, more, collect, run_round, run_loop, go_on, stream_of, streaming,
  after_stream,
}
use santi.Send.Ending.{run_turn_body, start_state, ended}
use santi.Send.Worker.{
  execute, execute_with_guard, with_guard, after_startup, run_turn_worker, run_started, closed,
}

-- No event of a stream asks for a call.
abbrev asks_no_call : List (Result Error ProviderEvent) → Bool
asks_no_call [] = true
asks_no_call (ok (ProviderEvent.function_call_requested requested) ∷ events) = false
asks_no_call (ok (ProviderEvent.output_text_delta delta) ∷ events) = asks_no_call events
asks_no_call (ok (ProviderEvent.completed response_id) ∷ events) = asks_no_call events
asks_no_call (err e ∷ events) = asks_no_call events

-- Whatever the n-th request of a turn is, its answer asks for no call.
abbrev pub Concludes : SessionTurnService → ℕ → Type 0
Concludes service n = (q : ProviderRequest) → asks_no_call (service.provider n q) ≡ true

-- The calls that the events of a stream have asked for.
abbrev CallsOf : Result SendSessionError Streamed × World → List ProviderFunctionCall → Type 0
CallsOf (ok r, w) calls = r.calls ≡ calls
CallsOf (err e, w) calls = Unit {0}

collect_calls :
    (tx : Bool) (events : List (Result Error ProviderEvent)) (r : Streamed) (w : World)
    → asks_no_call events ≡ true
    → CallsOf (collect tx events r w) r.calls
unfolding collect send
collect_calls tx [] r w h = refl
collect_calls tx (err e ∷ events) r w h = tt
collect_calls tx (ok (ProviderEvent.completed id) ∷ events) r w h = refl
collect_calls tx (ok (ProviderEvent.function_call_requested requested) ∷ events) r w h =
    absurd (ground (arith, h))
collect_calls true (ok (ProviderEvent.output_text_delta delta) ∷ events) r w h =
    collect_calls true events _ _ h
collect_calls false (ok (ProviderEvent.output_text_delta delta) ∷ events) r w h =
    collect_calls false events _ _ h

-- A result was given.
abbrev pub Ended : {A : Type 0} → Option A → Type 0
Ended {A} o = (x : A) × (o ≡ some x)

option_map-Ended : {A B : Type 0} (f : A → B) (o : Option A) → Ended o → Ended (option_map f o)
option_map-Ended f o (x, e) = (f x, ap (option_map f) e)

module _ (service : SessionTurnService) (ids : SendIds) (tx : Bool) (startup : StartupContext)
    (turn : Turn) where
  round_result :
      (n : ℕ) (l : LoopState) (w : World)
      → Concludes service n
      → (next : LoopState → World → Option (Result SendSessionError LoopState × World))
      → Ended (go_on service ids tx startup turn next (run_round service ids tx startup turn n l w))
  unfolding run_round
  round_result n l w c next =
      split (collect tx (stream_of service ids tx startup turn n l) (streaming l) w)
        (collect_calls tx (stream_of service ids tx startup turn n l) (streaming l) w (c _))
    where
      split :
          (p : Result SendSessionError Streamed × World)
          → CallsOf p []
          → Ended (
              go_on service ids tx startup turn next (
                let (r, u) = p in
                santi.Base.Exec.continue r
                  (λ s. after_stream service ids tx startup turn n s s.calls)
                  u))
      split (err e, u) h = (_, refl)
      split (ok r, u) h = rw h (_, refl)

  go_on_ends :
      (next : LoopState → World → Option (Result SendSessionError LoopState × World))
      → ((l : LoopState) (w : World) → Ended (next l w))
      → (p : Result SendSessionError (Round service ids tx startup turn) × World)
      → Ended (go_on service ids tx startup turn next p)
  go_on_ends next h (err e, w) = (_, refl)
  go_on_ends next h (ok (last l), w) = (_, refl)
  go_on_ends next h (ok (more l), w) = h l w

  run_loop_ends :
      (fuel n k : ℕ)
      → Concludes service n
      → k ≤ n
      → n < fuel + k
      → (l : LoopState) (w : World) → Ended (run_loop service ids tx startup turn fuel k l w)
  unfolding run_loop
  run_loop_ends zero n k c a b l w = absurd (omega arith)
  run_loop_ends (suc fuel) n k c a b l w = elim (Bool-cases (n == k)) [
    | inl e ↦
        let same : n ≡ k = ground arith in
        round_result k l w (subst (Concludes service) same c)
          (run_loop service ids tx startup turn fuel (suc k))
    | inr e ↦
        go_on_ends (run_loop service ids tx startup turn fuel (suc k))
          (run_loop_ends fuel n (suc k) c (ground arith) (omega arith))
          (run_round service ids tx startup turn k l w)
  ]

module _ (service : SessionTurnService) (ids : SendIds) (request : TurnExecutionRequest)
    (hooks : Option HookRunner) (tx : Bool) (n fuel : ℕ) (c : Concludes service n)
    (enough : n < fuel) where
  started_ends :
      (startup : StartupContext) (guard : LockGuard) (p : Result SendSessionError Turn × World)
      → Ended (run_started service ids request hooks tx startup guard fuel p)
  unfolding run_turn_body
  started_ends startup guard (err e, w) = (_, refl)
  started_ends startup guard (ok turn, w) =
      option_map-Ended (closed service ids request hooks tx guard)
        (run_turn_body service ids request startup turn tx fuel w)
        (option_map-Ended (ended service ids request startup turn)
          (run_loop service ids tx startup turn fuel 0
            (start_state service ids request startup turn) w)
          (run_loop_ends service ids tx startup turn fuel n 0 c (omega arith) (omega arith)
            (start_state service ids request startup turn) w))

  worker_ends :
      (startup : StartupContext) (guard : LockGuard) (w : World)
      → Ended (run_turn_worker service ids request hooks tx startup guard fuel w)
  unfolding run_turn_worker
  worker_ends startup guard w = started_ends startup guard _

  startup_ends :
      (guard : LockGuard) (p : Result SendSessionError StartupContext × World)
      → Ended (after_startup service ids request hooks tx guard fuel p)
  startup_ends guard (err e, w) = (_, refl)
  startup_ends guard (ok startup, w) = worker_ends startup guard _

  guarded_ends :
      (p : Result SendSessionError LockGuard × World)
      → Ended (with_guard service ids request hooks tx fuel p)
  unfolding execute_with_guard
  guarded_ends (err e, w) = (_, refl)
  guarded_ends (ok guard, w) = startup_ends guard (run_turn_startup service ids request w)

  -- If the answer to the n-th request of a turn asks for no call of a tool, whatever the request
  -- is, then a turn ends within n + 1 requests, with a result or an error.
  pub execute_ends : (w : World) → Ended (execute service ids request hooks tx fuel w)
  unfolding execute
  execute_ends w = guarded_ends (lock_call map_lock_error (acquire (send_key request.session_id)) w)
