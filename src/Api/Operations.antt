-- ===== src/Api/Operations.antt =====
-- crates/santi-api/src/handler/stim.rs: the operations of an envelope, and the start of a reply.
use santi.Base.{ℕ, String, Option, none, some, List, [], ◌∷◌, ◌++◌, map}
use santi.Base.Int.{ℤ, decimal_ℤ}
use santi.Base.Exec.{Exec, Result, ok, err, lift, pure, ◌>>=◌}
use santi.Model.Message as Message
use santi.Model.Message.{
  ActorType, MessagePart, MessageContent, MessagePartPatch, MessageInsertItem, MessageEventPayload,
}
use santi.MessageEvents.Apply.{to_ℤ}
use santi.Store.Sessions.{append_message, ApplyMessageEvent, store_message_event}
use santi.Runtime.{call}
use santi.Api.{ApiError}
use santi.Api.Replies.{ReplyHandle, ProtocolReplyStore, create_reply}
use santi.Api.Stim.{
  PartPatch, PartInsert, MutationPayload, MessageEnvelope, ProtocolAcknowledgement, ReplyTask,
  AppState, on_world, map_core_error, map_state, map_part, collect_results, map_content,
  applied_ack,
}

-- The event of an envelope; a version and an index are cast to an `i64`.
abbrev pub event_of : MessageEnvelope → MessageEventPayload → ApplyMessageEvent
event_of envelope payload = record {
  session_id = envelope.conversation_id;
  message_id = envelope.message_id;
  actor_type = ActorType.account;
  actor_id = envelope.sender_endpoint_id;
  base_version = base envelope.base_version;
  payload = payload;
}
  where
    base : Option ℕ → ℕ
    base none = 0
    base (some version) = version

abbrev pub state_debug : Message.MessageState → String
state_debug Message.MessageState.pending = "Pending"
state_debug Message.MessageState.fixed = "Fixed"

unfoldable pub apply_event :
    MessageEnvelope → MessageEventPayload → String → Exec AppState ApiError ProtocolAcknowledgement
unfolding store_message_event map_core_error applied_ack decimal_ℤ
apply_event envelope payload action = do
  m ← on_world (call map_core_error (store_message_event (event_of envelope payload)))
  pure (
      applied_ack envelope m (
        "santi applied "
        ∷ action
        ∷ " for session "
        ∷ envelope.conversation_id
        ∷ " message "
        ∷ envelope.message_id
        ∷ " version "
        ∷ decimal_ℤ (to_ℤ m.message.version)
        ∷ " state "
        ∷ state_debug m.message.state
        ∷ []))

unfoldable pub apply_create : MessageEnvelope → Exec AppState ApiError ProtocolAcknowledgement
unfolding append_message map_core_error applied_ack decimal_ℤ
apply_create envelope = do
  content ← lift (map_content envelope.payload)
  m ← on_world (
      call map_core_error (
        append_message (record {
          session_id = envelope.conversation_id;
          message_id = envelope.message_id;
          actor_type = ActorType.account;
          actor_id = envelope.sender_endpoint_id;
          content = content;
          state = map_state envelope.state;
        })))
  pure (
      applied_ack envelope m (
        "santi stored create for session "
        ∷ envelope.conversation_id
        ∷ " message "
        ∷ envelope.message_id
        ∷ " version "
        ∷ decimal_ℤ (to_ℤ m.message.version)
        ∷ []))

abbrev part_patch : PartPatch → MessagePartPatch
part_patch p = record { index = to_ℤ p.index; merge = p.merge }

abbrev part_insert : PartInsert → Result ApiError MessageInsertItem
part_insert item = at_index (map_part item.part)
  where
    at_index : Result ApiError MessagePart → Result ApiError MessageInsertItem
    at_index (ok part) = ok (record { index = to_ℤ item.index; part = part })
    at_index (err e) = err e

-- The payload that an operation wants.
abbrev pub patches_of : MutationPayload → Result ApiError (List MessagePartPatch)
patches_of (MutationPayload.patch patches) = ok (map part_patch patches)
patches_of _ = err (ApiError.bad_request "patch payload required")

abbrev pub items_of : MutationPayload → Result ApiError (List MessageInsertItem)
items_of (MutationPayload.insert items) = collect_results part_insert items
items_of _ = err (ApiError.bad_request "insert payload required")

abbrev pub indexes_of : MutationPayload → Result ApiError (List ℤ)
indexes_of (MutationPayload.remove indexes) = ok (map to_ℤ indexes)
indexes_of _ = err (ApiError.bad_request "remove payload required")

unfoldable pub apply_patch : MessageEnvelope → Exec AppState ApiError ProtocolAcknowledgement
unfolding apply_event
apply_patch envelope = do
  patches ← lift (patches_of envelope.payload)
  apply_event envelope (MessageEventPayload.patch patches) "patch"

unfoldable pub apply_insert : MessageEnvelope → Exec AppState ApiError ProtocolAcknowledgement
unfolding apply_event
apply_insert envelope = do
  items ← lift (items_of envelope.payload)
  apply_event envelope (MessageEventPayload.insert items) "insert"

unfoldable pub apply_remove : MessageEnvelope → Exec AppState ApiError ProtocolAcknowledgement
unfolding apply_event
apply_remove envelope = do
  indexes ← lift (indexes_of envelope.payload)
  apply_event envelope (MessageEventPayload.remove indexes) "remove"

unfoldable pub apply_fix : MessageEnvelope → Exec AppState ApiError ProtocolAcknowledgement
unfolding apply_event
apply_fix envelope = apply_event envelope MessageEventPayload.fix "fix"

-- The reply is made and its task spawned; the handle is given at once.
unfoldable pub start_protocol_reply : MessageEnvelope → Exec AppState ApiError (Option ReplyHandle)
unfolding create_reply
start_protocol_reply envelope a =
    started (create_reply envelope.conversation_id envelope.message_id a.replies)
  where
    started : ReplyHandle × ProtocolReplyStore → Result ApiError (Option ReplyHandle) × AppState
    started (handle, replies) =
        let task : ReplyTask = record {
          reply_id = handle.reply_id;
          session_id = envelope.conversation_id;
          message_id = envelope.message_id;
        } in
        (ok (some handle), record a { replies = replies; spawned = a.spawned ++ task ∷ [] })
