-- ===== src/Api/Submitted.antt =====
-- crates/santi-api/src/handler/stim.rs: when a submission starts a reply.
use santi.Api.Operations.{
  apply_event, apply_create, apply_patch, apply_insert, apply_remove, apply_fix,
  start_protocol_reply, event_of, patches_of, items_of, indexes_of,
}
use santi.Base.{
  String, Bool, true, false, not, ◌&&◌, ◌≡◌, refl, subst, Option, none, some, List, [], ◌∷◌, ◌++◌,
  arith, Bool-cases, inl, inr, if◌then◌else◌,
}
use santi.Base.Exec.{Exec, Result, ok, err, continue, ◌>>=◌, lift, pure, second}
use santi.Base.Preserving.{Preserving, bind-Preserving}
use santi.Model.Session.{Session}
use santi.Model.Message.{ActorType, MessageEventPayload}
use santi.Store.Sessions.{append_message, store_message_event}
use santi.Runtime.{World, call}
use santi.Api.{ApiError}
use santi.Api.Session as Session
use santi.Base.{◌+◌, str_eq, ap, sym}
use santi.Api.Replies.{
  ReplyHandle, ReplyStatus, ReplyRecord, ProtocolReplyStore, create_reply, get_reply,
}
use santi.Api.Replayed.{Reached}
use santi.Api.Later.{get_reply-insert_reply_other}
use santi.Api.Fresh.{reply_name, next_id_unused, get_reply-insert_reply}
use santi.Api.Stim.{
  AcknowledgementResult, after_world, MessageOperation, MessageEnvelope, ProtocolAcknowledgement,
  ProtocolSubmission, ReplyTask, AppState, on_world, rejected_ack, map_core_error, map_content,
  map_state,
}
use santi.Api.Submissions.{
  is_fix, is_applied, is_pending, is_fixed, apply_operation, reply_for, submit, bootstrap,
  with_session, apply_stim_envelope, rejected,
}

abbrev pub reply_view : AppState → ProtocolReplyStore × List ReplyTask
reply_view a = (a.replies, a.spawned)

-- An action that leaves the replies and the spawned tasks alone.
abbrev Quiet : {A : Type 0} → Exec AppState ApiError A → Type 0
Quiet m = Preserving reply_view m

on_world-Quiet : {A : Type 0} (m : Exec World ApiError A) → Quiet (on_world m)
on_world-Quiet m a = refl

lift-Quiet : {A : Type 0} (r : Result ApiError A) → Quiet (lift r)
lift-Quiet r a = refl

module _ (envelope : MessageEnvelope) where
  apply_event-Quiet :
      (payload : MessageEventPayload) (action : String)
      → Quiet (apply_event envelope payload action)
  unfolding apply_event
  apply_event-Quiet payload action =
      bind-Preserving reply_view
        (on_world (call map_core_error (store_message_event (event_of envelope payload)))) _
        (on_world-Quiet (call map_core_error (store_message_event (event_of envelope payload))))
        λ m a. refl

  apply_create-Quiet : Quiet (apply_create envelope)
  unfolding apply_create
  apply_create-Quiet =
      bind-Preserving reply_view (lift (map_content envelope.payload)) _
        (lift-Quiet (map_content envelope.payload))
        λ content.
          let m = call map_core_error (
            append_message (record {
              session_id = envelope.conversation_id;
              message_id = envelope.message_id;
              actor_type = ActorType.account;
              actor_id = envelope.sender_endpoint_id;
              content = content;
              state = map_state envelope.state;
            })) in
          bind-Preserving reply_view (on_world m) _ (on_world-Quiet m) λ x a. refl

  apply_operation-Quiet :
      (operation : MessageOperation) → Quiet (apply_operation envelope operation)
  unfolding apply_operation apply_patch apply_insert apply_remove apply_fix
  apply_operation-Quiet MessageOperation.create = apply_create-Quiet
  apply_operation-Quiet MessageOperation.patch =
      bind-Preserving reply_view (lift (patches_of envelope.payload)) _
        (lift-Quiet (patches_of envelope.payload))
        λ patches. apply_event-Quiet (MessageEventPayload.patch patches) "patch"
  apply_operation-Quiet MessageOperation.insert =
      bind-Preserving reply_view (lift (items_of envelope.payload)) _
        (lift-Quiet (items_of envelope.payload))
        λ items. apply_event-Quiet (MessageEventPayload.insert items) "insert"
  apply_operation-Quiet MessageOperation.remove =
      bind-Preserving reply_view (lift (indexes_of envelope.payload)) _
        (lift-Quiet (indexes_of envelope.payload))
        λ indexes. apply_event-Quiet (MessageEventPayload.remove indexes) "remove"
  apply_operation-Quiet MessageOperation.fix = apply_event-Quiet MessageEventPayload.fix "fix"

-- The replies and the waiting tasks.
abbrev pub View : Type 0
View = ProtocolReplyStore × List ReplyTask

-- The record of a reply of which nothing is known yet.
abbrev pub blank_record : String → MessageEnvelope → ReplyRecord
blank_record reply_id envelope = record {
  snapshot = record {
    reply_id = reply_id;
    conversation_id = envelope.conversation_id;
    message_id = envelope.message_id;
    status = ReplyStatus.pending;
    output_text = "";
    error = none;
  };
  events = [];
  next_sequence = 1;
  sender = [];
  terminal = false;
}

-- A reply was started, `v` being what there was before and `w` what there is now.
pub record Started (envelope : MessageEnvelope) (v w : View) (ack : ProtocolAcknowledgement)
    (handle : ReplyHandle) : Type 0 where
  pub fixes : is_fix envelope.operation && is_applied ack.ack_result ≡ true
  pub unused : get_reply handle.reply_id v.0.replies ≡ none
  pub stored : get_reply handle.reply_id w.0.replies ≡ some (blank_record handle.reply_id envelope)
  pub others :
      (id : String)
      → str_eq handle.reply_id id ≡ false
      → get_reply id w.0.replies ≡ get_reply id v.0.replies
  pub next : w.0.next_reply ≡ v.0.next_reply + 1
  pub pending : handle.status ≡ ReplyStatus.pending
  pub for_conversation : handle.conversation_id ≡ envelope.conversation_id
  pub for_message : handle.message_id ≡ envelope.message_id
  pub waiting :
      w.1
      ≡ v.1
        ++ record {
          reply_id = handle.reply_id;
          session_id = envelope.conversation_id;
          message_id = envelope.message_id;
        }
          ∷ []

create_reply-Started :
    (envelope : MessageEnvelope) (ack : ProtocolAcknowledgement) (a : AppState)
    → Reached a.replies
    → (is_fix envelope.operation && is_applied ack.ack_result ≡ true)
    → (let (handle, replies) =
          create_reply envelope.conversation_id envelope.message_id a.replies in
        let task : ReplyTask = record {
          reply_id = handle.reply_id;
          session_id = envelope.conversation_id;
          message_id = envelope.message_id;
        } in
        Started envelope (reply_view a) (replies, a.spawned ++ task ∷ []) ack handle)
unfolding create_reply
create_reply-Started envelope ack a reached e = record {
  fixes = e;
  unused = next_id_unused a.replies reached;
  stored =
      get_reply-insert_reply (reply_name a.replies.next_reply)
        (blank_record (reply_name a.replies.next_reply) envelope) a.replies.replies;
  others = λ id other.
      get_reply-insert_reply_other id (reply_name a.replies.next_reply)
        (blank_record (reply_name a.replies.next_reply) envelope) a.replies.replies other;
  next = refl;
  pending = refl;
  for_conversation = refl;
  for_message = refl;
  waiting = refl;
}

module _ (envelope : MessageEnvelope) where
  abbrev pub Outcome : View → Result ApiError ProtocolSubmission × AppState → Type 0
  Outcome v (err e, b) = reply_view b ≡ v
  Outcome v (ok submission, b) = replied submission.reply
    where
      replied : Option ReplyHandle → Type 0
      replied none =
          (is_fix envelope.operation && is_applied submission.acknowledgement.ack_result ≡ false)
          × (reply_view b ≡ v)
      replied (some handle) = Started envelope v (reply_view b) submission.acknowledgement handle

  submit-Outcome : (a : AppState) → Reached a.replies → Outcome (reply_view a) (submit envelope a)
  unfolding submit reply_for start_protocol_reply create_reply
  submit-Outcome a reached =
      acknowledged (apply_operation envelope envelope.operation a)
        (apply_operation-Quiet envelope envelope.operation a)
    where
      with_reply : ProtocolAcknowledgement → Exec AppState ApiError ProtocolSubmission
      with_reply ack =
          reply_for envelope ack >>= λ reply. pure (record { acknowledgement = ack; reply = reply })

      acknowledged :
          (p : Result ApiError ProtocolAcknowledgement × AppState)
          → reply_view (second p) ≡ reply_view a
          → Outcome (reply_view a) (let (r, u) = p in continue r with_reply u)
      acknowledged (err e, b) k = k
      acknowledged (ok ack, b) k =
          subst (λ v. Outcome v (with_reply ack b)) k
            (elim (Bool-cases (is_fix envelope.operation && is_applied ack.ack_result)) [
              | inl e ↦ rw e (
                  create_reply-Started envelope ack b
                    (subst Reached (ap (λ v. v.0) (sym k)) reached) e)
              | inr e ↦ rw e (e, refl)
            ])

  rejected-Outcome :
      (result : AcknowledgementResult) (detail : String) (a : AppState)
      → is_applied result ≡ false
      → Outcome (reply_view a) (rejected envelope result detail a)
  unfolding rejected rejected_ack
  rejected-Outcome result detail a h = (ground (arith, h), refl)

  bootstrap-Outcome :
      (a : AppState) → Reached a.replies → Outcome (reply_view a) (bootstrap envelope a)
  unfolding bootstrap
  bootstrap-Outcome a reached = chosen envelope.bootstraps
    where
      unknown : Exec AppState ApiError ProtocolSubmission
      unknown =
          rejected envelope AcknowledgementResult.unknown_conversation
            "session bootstrap required for unknown conversation"

      create : Exec AppState ApiError Session
      create = on_world (Session.create_session_with_id envelope.conversation_id)

      created :
          (p : Result ApiError Session × World)
          → Outcome
              (reply_view a)
              (let (r, u) = after_world a p in continue r (λ _. submit envelope) u)
      created (ok session, w) = submit-Outcome (record a { world = w }) reached
      created (err e, w) = refl

      chosen :
          (b : Bool)
          → Outcome
              (reply_view a)
              ((if not b then unknown else (create >>= λ _. submit envelope)) a)
      chosen true = created (Session.create_session_with_id envelope.conversation_id a.world)
      chosen false =
          rejected-Outcome AcknowledgementResult.unknown_conversation
            "session bootstrap required for unknown conversation" a refl

  with_session-Outcome :
      (p : Result ApiError Session × AppState)
      → Reached (second p).replies
      → Outcome (reply_view (second p)) (with_session envelope p)
  with_session-Outcome (ok session, a) h = submit-Outcome a h
  with_session-Outcome (err (ApiError.not_found message), a) h = bootstrap-Outcome a h
  with_session-Outcome (err (ApiError.conflict message), a) h = refl
  with_session-Outcome (err (ApiError.validation message), a) h = refl
  with_session-Outcome (err (ApiError.unsupported message), a) h = refl
  with_session-Outcome (err (ApiError.bad_request message), a) h = refl
  with_session-Outcome (err (ApiError.internal message), a) h = refl

  -- With replies that the operations reach, an envelope starts a reply exactly when it is a fix that
  -- was applied. The submission then has the handle, pending and for the envelope's message, of a
  -- reply whose id was in use by none; that reply is stored as pending with no text and no event,
  -- every other reply is as it was, and one task waits to fill it. Whatever else becomes of the
  -- envelope, an error included, no reply and no waiting task is touched.
  pub apply_stim_envelope-Outcome :
      (a : AppState) → Reached a.replies → Outcome (reply_view a) (apply_stim_envelope envelope a)
  unfolding apply_stim_envelope
  apply_stim_envelope-Outcome a reached =
      elim (Bool-cases (not (is_pending envelope.state) && not (is_fixed envelope.state))) [
        | inl e ↦ rw e (
            rejected-Outcome AcknowledgementResult.invalid_state_transition
              "unsupported message state" a refl)
        | inr e ↦ rw e (
            with_session-Outcome (on_world (Session.get_session envelope.conversation_id) a)
              reached)
      ]
