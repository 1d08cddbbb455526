-- ===== src/Api/Submissions.antt =====
-- crates/santi-api/src/handler/stim.rs: the handlers, and what a spawned task does to its reply.
use santi.Api.Operations.{
  apply_create, apply_patch, apply_insert, apply_remove, apply_fix, start_protocol_reply,
}
use santi.Base.{
  ℕ, String, Bool, true, false, not, ◌&&◌, Option, none, some, List, [], ◌∷◌, ◌++◌, map,
  if◌then◌else◌,
}
use santi.Base.Exec.{Exec, Result, ok, err, pure, ◌>>=◌, ◌>>◌}
use santi.Model.Session.{Session}
use santi.Runtime.{World}
use santi.Send.{SessionTurnService, SendIds, HookRunner}
use santi.Api.{ApiError, ErrorResponse, into_error_response}
use santi.Api.Session as Session
use santi.Api.Session.{SessionStreamEvent, stream_event}
use santi.Api.Replies as Replies
use santi.Api.Replies.{
  ReplySnapshot, ReplyEvent, ReplyEventKind, ProtocolReplySubscription, ReplyHandle,
  ProtocolReplyStore, emit_text_delta, complete, fail, subscribe,
}
use santi.Api.Stim.{
  MessageOperation, EnvelopeState, MessageEnvelope, AcknowledgementResult, ProtocolAcknowledgement,
  ProtocolSubmission, AppState, on_world, rejected_ack,
}

abbrev pub is_pending : EnvelopeState → Bool
is_pending EnvelopeState.pending = true
is_pending EnvelopeState.fixed = false

abbrev pub is_fixed : EnvelopeState → Bool
is_fixed EnvelopeState.pending = false
is_fixed EnvelopeState.fixed = true

abbrev pub is_fix : MessageOperation → Bool
is_fix MessageOperation.fix = true
is_fix _ = false

abbrev pub is_applied : AcknowledgementResult → Bool
is_applied AcknowledgementResult.applied = true
is_applied _ = false

unfoldable pub rejected :
    MessageEnvelope → AcknowledgementResult → String → Exec AppState ApiError ProtocolSubmission
unfolding rejected_ack
rejected envelope result detail =
    pure (record { acknowledgement = rejected_ack envelope result (some detail); reply = none })

unfoldable pub apply_operation :
    MessageEnvelope → MessageOperation → Exec AppState ApiError ProtocolAcknowledgement
unfolding apply_create apply_patch apply_insert apply_remove apply_fix
apply_operation envelope MessageOperation.create = apply_create envelope
apply_operation envelope MessageOperation.patch = apply_patch envelope
apply_operation envelope MessageOperation.insert = apply_insert envelope
apply_operation envelope MessageOperation.remove = apply_remove envelope
apply_operation envelope MessageOperation.fix = apply_fix envelope

unfoldable pub reply_for :
    MessageEnvelope → ProtocolAcknowledgement → Exec AppState ApiError (Option ReplyHandle)
unfolding start_protocol_reply
reply_for envelope ack =
    if is_fix envelope.operation && is_applied ack.ack_result
    then start_protocol_reply envelope
    else pure none

-- From the operation on, in a session that is there.
unfoldable pub submit : MessageEnvelope → Exec AppState ApiError ProtocolSubmission
unfolding apply_operation reply_for
submit envelope = do
  ack ← apply_operation envelope envelope.operation
  reply ← reply_for envelope ack
  pure (record { acknowledgement = ack; reply = reply })

unfoldable pub bootstrap : MessageEnvelope → Exec AppState ApiError ProtocolSubmission
unfolding submit Session.create_session_with_id rejected
bootstrap envelope =
    if not envelope.bootstraps
    then rejected envelope AcknowledgementResult.unknown_conversation
        "session bootstrap required for unknown conversation"
    else (do on_world (Session.create_session_with_id envelope.conversation_id); submit envelope)

abbrev pub with_session :
    MessageEnvelope
    → Result ApiError Session × AppState
    → Result ApiError ProtocolSubmission × AppState
with_session envelope (ok session, a) = submit envelope a
with_session envelope (err (ApiError.not_found message), a) = bootstrap envelope a
with_session envelope (err (ApiError.conflict message), a) = (err (ApiError.conflict message), a)
with_session envelope (err (ApiError.validation message), a) =
    (err (ApiError.validation message), a)
with_session envelope (err (ApiError.unsupported message), a) =
    (err (ApiError.unsupported message), a)
with_session envelope (err (ApiError.bad_request message), a) =
    (err (ApiError.bad_request message), a)
with_session envelope (err (ApiError.internal message), a) = (err (ApiError.internal message), a)

unfoldable pub apply_stim_envelope : MessageEnvelope → Exec AppState ApiError ProtocolSubmission
unfolding Session.get_session submit bootstrap rejected
apply_stim_envelope envelope a =
    if not (is_pending envelope.state) && not (is_fixed envelope.state)
    then rejected envelope AcknowledgementResult.invalid_state_transition
        "unsupported message state" a
    else with_session envelope (on_world (Session.get_session envelope.conversation_id) a)

-- A response is its status and its body.
pub data Response (A : Type 0) : Type 0 where
  success : A → Response A
  failure : ℕ → ErrorResponse → Response A

abbrev refused : {A : Type 0} → ℕ × ErrorResponse → Response A
refused (status, body) = failure status body

unfoldable pub respond : {A : Type 0} → Result ApiError A × AppState → Response A × AppState
unfolding into_error_response
respond (ok a, s) = (success a, s)
respond (err e, s) = (refused (into_error_response e), s)

unfoldable pub accept_envelope : MessageEnvelope → AppState → Response ProtocolSubmission × AppState
unfolding apply_stim_envelope respond
accept_envelope envelope a = respond (apply_stim_envelope envelope a)

unfoldable pub or_no_reply : {A : Type 0} → Option A → Response A
unfolding into_error_response
or_no_reply (some a) = success a
or_no_reply none = refused (into_error_response (ApiError.not_found "reply not found"))

unfoldable pub get_reply_snapshot : String → AppState → Response ReplySnapshot
unfolding Replies.snapshot or_no_reply
get_reply_snapshot reply_id a = or_no_reply (Replies.snapshot reply_id a.replies)

abbrev pub done_event : String
done_event = "[DONE]"

abbrev pub is_terminal : ReplyEventKind → Bool
is_terminal (ReplyEventKind.output_text_delta delta) = false
is_terminal ReplyEventKind.completed = true
is_terminal (ReplyEventKind.failed error) = true

module _ (encode_reply_event : ReplyEvent → String) where
  -- The loop over what the receiver gets. After the list it waits for more: the channel is not
  -- closed, since the reply, which is never removed, holds its sender.
  abbrev pub received : List ReplyEvent → List String
  received [] = []
  received (event ∷ later) =
      let rest = received later in
      encode_reply_event event ∷ (if is_terminal event.event then done_event ∷ [] else rest)

  abbrev pub streamed : List ReplyEvent → ProtocolReplySubscription → List String
  streamed later subscription =
      map encode_reply_event subscription.history
      ++ (if subscription.terminal then done_event ∷ [] else received later)

  unfoldable pub streamed_of :
      List ReplyEvent → Option ProtocolReplySubscription → Response (List String)
  unfolding or_no_reply
  streamed_of later found = or_no_reply (mapped found)
    where
      mapped : Option ProtocolReplySubscription → Option (List String)
      mapped none = none
      mapped (some subscription) = some (streamed later subscription)

  -- The events that the receiver gets after the subscription are an argument.
  unfoldable pub stream_reply_events : String → List ReplyEvent → AppState → Response (List String)
  unfolding subscribe streamed_of
  stream_reply_events reply_id later a = streamed_of later (subscribe reply_id a.replies)

-- The task: what the stream of the reply gives goes into the store of replies. `debug` is the
-- derived `{:?}` of an error.
module _ (debug : ApiError → String) (reply_id : String) where
  unfoldable pub forward :
      List (Result ApiError SessionStreamEvent) → ProtocolReplyStore → ProtocolReplyStore
  unfolding emit_text_delta complete fail
  forward [] replies =
      fail reply_id "reply_stream_incomplete" "reply stream ended without completion event" replies
  forward (ok (SessionStreamEvent.output_text_delta delta) ∷ events) replies =
      forward events (emit_text_delta reply_id delta replies)
  forward (ok SessionStreamEvent.completed ∷ events) replies = complete reply_id replies
  forward (err e ∷ events) replies = fail reply_id "reply_runtime_failed" (debug e) replies

  unfoldable pub reply_outcome :
      Result ApiError (List (Result ApiError SessionStreamEvent))
      → ProtocolReplyStore
      → ProtocolReplyStore
  unfolding forward fail
  reply_outcome (ok stream) replies = forward stream replies
  reply_outcome (err e) replies = fail reply_id "reply_start_failed" (debug e) replies

  -- The channel of a stream is its own.
  abbrev pub on_own_channel : World → World
  on_own_channel w = record w { sent = [] }

  abbrev pub run_over : AppState → Option (Result ApiError (Unit {0}) × World) → Option AppState
  run_over a none = none
  run_over a (some (ok u, w)) = some (record a {
    world = record w { sent = a.world.sent };
    replies = reply_outcome (ok (map stream_event w.sent)) a.replies;
  })
  run_over a (some (err e, w)) = some (record a {
    world = record w { sent = a.world.sent };
    replies = reply_outcome (err e) a.replies;
  })

  -- The task from its start to its end; none when the fuel of its turn was not enough.
  unfoldable pub run_reply_task :
      SessionTurnService
      → SendIds
      → Option HookRunner
      → String
      → String
      → ℕ
      → AppState
      → Option AppState
  unfolding Session.reply_to_session_message stream_event reply_outcome
  run_reply_task service ids hooks session_id message_id fuel a = run_over a (
      Session.reply_to_session_message service ids hooks session_id message_id fuel
        (on_own_channel a.world))
