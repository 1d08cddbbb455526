-- ===== src/Send/Closing.antt =====
-- crates/santi-runtime/src/session/send/turn: from the end of the loop to the release of the guard.
use santi.Base.{
  some_inj, ℕ, String, Bool, ◌≡◌, refl, ap, ◌∙◌, subst, sym, Option, none, some, arith, Bool-cases,
  inl, inr,
}
use santi.Base.Texts.{is_blank}
use santi.Base.Exec.{Exec, Result, ok, err, pure, continue, second, ◌>>=◌}
use santi.Model.Error.{Error}
use santi.Model.Message.{ActorType, MessageState}
use santi.Model.Session.{Turn, TurnStatus, SessionMessage, AssemblyItem}
use santi.Store.{Db}
use santi.Store.Ended.{turn_in, Completion, complete_turn-Completion}
use santi.Store.Mapping.{option_map, text_content}
use santi.Store.Sessions.{append_message, AppendSessionMessage}
use santi.Store.Items.{append_message_ref}
use santi.Store.Turns.{complete_turn, CompleteTurn}
use santi.Store.Untouched.{append_message_turns, append_message_ref_rows}
use santi.Runtime.{World, call, after_call, publish}
use santi.Runtime.Channel.{SendSessionError}
use santi.Runtime.Watch.{SessionWatchActivityState, SessionWatchState}
use santi.Send.{
  SessionTurnService, SendIds, TurnExecutionRequest, StartupContext, TurnRunOutput, map_core_error,
}
use santi.Send.Body.{LoopState, run_loop}
use santi.Send.Ending.{
  complete_with, end_turn, run_turn_body, provider_state_of, finalized, send_activity,
  session_state, output_of, ended, start_state,
}
use santi.Send.Held.{call_keeps_rows, kept_view, Keeping, call_keeps, run_loop_keeps}

-- How a body of a turn leaves the row of the turn: completed as in its output, or as it was.
abbrev pub BodyOutcome : String → World → Result SendSessionError TurnRunOutput × World → Type 0
BodyOutcome id w (ok output, u) =
    (u.held ≡ w.held)
    × (turn_in id u.db ≡ some output.turn)
    × (output.turn.status ≡ TurnStatus.completed)
BodyOutcome id w (err e, u) = kept_view u ≡ kept_view w

moved :
    (id : String) (w u : World) (p : Result SendSessionError TurnRunOutput × World)
    → kept_view u ≡ kept_view w
    → BodyOutcome id u p
    → BodyOutcome id w p
moved id w u (ok output, v) e (a, b, c) = (a ∙ ap (λ x. x.0) e, b, c)
moved id w u (err x, v) e b = b ∙ e

module _ {A : Type 0} (id : String) (m : Exec World SendSessionError A)
    (f : A → Exec World SendSessionError TurnRunOutput) where
  -- The rule: what comes before keeps, so the outcome is that of what follows.
  bind-BodyOutcome :
      Keeping m
      → ((a : A) (u : World) → BodyOutcome id u (f a u))
      → (w : World) → BodyOutcome id w ((m >>= f) w)
  bind-BodyOutcome k h w = split (m w) (k w)
    where
      split :
          (p : Result SendSessionError A × World)
          → kept_view (second p) ≡ kept_view w
          → BodyOutcome id w (let (r, u) = p in continue r f u)
      split (ok a, u) e = moved id w u (f a u) e (h a u)
      split (err x, u) e = e

module _ (service : SessionTurnService) (ids : SendIds) (request : TurnExecutionRequest)
    (startup : StartupContext) (turn : Turn) where
  module _ (l : LoopState) (message : SessionMessage) where
    abbrev pub completion : AssemblyItem → CompleteTurn
    completion entry = record {
      turn_id = turn.id;
      last_seen_session_seq = message.relation.session_seq;
      provider_state = option_map (provider_state_of entry) l.previous_response_id;
    }

    abbrev pub told : Turn → Exec World SendSessionError TurnRunOutput
    told completed_turn =
        publish request.session_id
          (send_activity request.session_id SessionWatchActivityState.completed none)
        >>= λ _.
            publish request.session_id
              (session_state request.session_id SessionWatchState.completed)
            >>= λ _. pure (output_of service ids request startup turn message completed_turn)

    abbrev pub completing : AssemblyItem → Exec World SendSessionError TurnRunOutput
    completing entry = call map_core_error (complete_turn (completion entry)) >>= told

    told-BodyOutcome :
        (u : World) (p : Result Error Turn × Db)
        → Completion turn.id u.db p
        → BodyOutcome turn.id u (let (r, v) = after_call map_core_error u p in continue r told v)
    unfolding publish
    told-BodyOutcome u (ok t, s') (a, b) = (refl, a, b)
    told-BodyOutcome u (err e, s') q = ap (λ d. (u.held, d.turns)) q

    complete_with-BodyOutcome :
        (w : World)
        → BodyOutcome turn.id w (complete_with service ids request startup turn l message w)
    unfolding complete_with
    complete_with-BodyOutcome =
        bind-BodyOutcome turn.id
          (call map_core_error (append_message_ref startup.soul_session_id message.message.id))
          completing
          (call_keeps_rows map_core_error
            (append_message_ref startup.soul_session_id message.message.id)
            (append_message_ref_rows startup.soul_session_id message.message.id))
          λ entry u.
            told-BodyOutcome u (complete_turn (completion entry) u.db)
              (complete_turn-Completion (completion entry) u.db)

  abbrev pub assistant_input : LoopState → AppendSessionMessage
  assistant_input l = record {
    session_id = request.session_id;
    message_id = ids.assistant_id;
    actor_type = ActorType.soul;
    actor_id = service.default_soul_id;
    content = text_content l.assistant_text;
    state = MessageState.fixed;
  }

  abbrev pub announced : LoopState → SessionMessage → Exec World SendSessionError TurnRunOutput
  announced l message = publish request.session_id (finalized request.session_id message) >>= λ _.
      complete_with service ids request startup turn l message

  end_turn-BodyOutcome :
      (l : LoopState) (w : World)
      → BodyOutcome turn.id w (end_turn service ids request startup turn l w)
  unfolding end_turn publish
  end_turn-BodyOutcome l w = elim (Bool-cases (is_blank l.assistant_text)) [
    | inl e ↦ rw e refl
    | inr e ↦ rw e (
        bind-BodyOutcome turn.id (call map_core_error (append_message (assistant_input l)))
          (announced l)
          (call_keeps map_core_error (append_message (assistant_input l))
            (append_message_turns (assistant_input l)))
          (λ message.
            bind-BodyOutcome turn.id
              (publish request.session_id (finalized request.session_id message))
              (λ _. complete_with service ids request startup turn l message) (λ u. refl)
              (λ _. complete_with-BodyOutcome l message))
          w)
  ]

  ended-BodyOutcome :
      (w : World) (x : Result SendSessionError LoopState × World)
      → kept_view (second x) ≡ kept_view w
      → BodyOutcome turn.id w (ended service ids request startup turn x)
  ended-BodyOutcome w (ok l, u) e =
      moved turn.id w u (end_turn service ids request startup turn l u) e (end_turn-BodyOutcome l u)
  ended-BodyOutcome w (err x, u) e = e

  pub body-BodyOutcome :
      (tx : Bool) (fuel : ℕ) (w : World) (x : Result SendSessionError TurnRunOutput × World)
      → run_turn_body service ids request startup turn tx fuel w ≡ some x
      → BodyOutcome turn.id w x
  unfolding run_turn_body
  body-BodyOutcome tx fuel w x h =
      from_loop (run_loop service ids tx startup turn fuel 0 start w) refl h
    where
      start : LoopState
      start = start_state service ids request startup turn

      from_loop :
          (o : Option (Result SendSessionError LoopState × World))
          → run_loop service ids tx startup turn fuel 0 start w ≡ o
          → option_map (ended service ids request startup turn) o ≡ some x
          → BodyOutcome turn.id w x
      from_loop none e g = absurd (ground (arith, g))
      from_loop (some y) e g = subst (BodyOutcome turn.id w) (sym (some_inj x g)) (
          ended-BodyOutcome w y (
            ap (λ v. (v.0, v.1.0)) (run_loop_keeps service startup turn ids tx fuel 0 start w y e)))
