-- ===== src/Api/Stim.antt =====
-- crates/santi-api/src/handler/stim.rs: the envelopes of the protocol. The types of stim_proto are as
-- the code reads and fills them; `other` stands for what it does not look into. A task that was
-- spawned waits in `spawned`; it runs to its end at some later time.
use santi.Base.{ℕ, String, Bool, Option, some, List, [], ◌∷◌}
use santi.Base.Texts.{format}
use santi.Base.Exec.{Exec, Result, ok, err}
use santi.Model.Error.{Error}
use santi.Model.Json.{Value}
use santi.Model.Message as Message
use santi.Model.Message.{
  ActorType, MessagePart, MessageContent, MessagePartPatch, MessageInsertItem, MessageEventPayload,
}
use santi.Model.Session.{SessionMessage}
use santi.Runtime.{World}
use santi.Api.{ApiError}
use santi.Api.Replies.{ReplyHandle, ProtocolReplyStore}

pub data MessageOperation : Type 0 where
  create patch insert remove fix : MessageOperation

pub data EnvelopeState : Type 0 where
  pending fixed : EnvelopeState

pub data ContentPart : Type 0 where
  text : String → ContentPart
  other : ContentPart

-- An index of the protocol is unsigned, at most 64 bits wide.
pub record PartPatch : Type 0 where
  pub index : ℕ
  pub merge : Value

pub record PartInsert : Type 0 where
  pub index : ℕ
  pub part : ContentPart

pub data MutationPayload : Type 0 where
  create : List ContentPart → MutationPayload
  patch : List PartPatch → MutationPayload
  insert : List PartInsert → MutationPayload
  remove : List ℕ → MutationPayload
  other : MutationPayload

-- `bootstraps` is whether there is a `session_bootstrap`.
pub record MessageEnvelope : Type 0 where
  pub envelope_id : String
  pub conversation_id : String
  pub message_id : String
  pub sender_endpoint_id : String
  pub operation : MessageOperation
  pub state : EnvelopeState
  pub base_version : Option ℕ
  pub new_version : ℕ
  pub bootstraps : Bool
  pub payload : MutationPayload

pub data AcknowledgementResult : Type 0 where
  applied invalid_state_transition unknown_conversation : AcknowledgementResult

pub record ProtocolAcknowledgement : Type 0 where
  pub ack_envelope_id : String
  pub ack_message_id : String
  pub ack_version : ℕ
  pub ack_result : AcknowledgementResult
  pub detail : Option String

pub record ProtocolSubmission : Type 0 where
  pub acknowledgement : ProtocolAcknowledgement
  pub reply : Option ReplyHandle

-- What a spawned task of `start_protocol_reply` captures.
pub record ReplyTask : Type 0 where
  pub reply_id : String
  pub session_id : String
  pub message_id : String

-- What the handlers reach through the code's `AppState`: the store, the lock and the rest of the
-- services' state, the replies, and the tasks that wait.
pub record AppState : Type 0 where
  pub world : World
  pub replies : ProtocolReplyStore
  pub spawned : List ReplyTask

abbrev pub after_world :
    {A : Type 0} → AppState → Result ApiError A × World → Result ApiError A × AppState
after_world a (r, w) = (r, record a { world = w })

abbrev pub on_world : {A : Type 0} → Exec World ApiError A → Exec AppState ApiError A
on_world m a = after_world a (m a.world)

unfoldable pub map_core_error : Error → ApiError
map_core_error (Error.not_found resource) = ApiError.not_found resource
map_core_error (Error.busy resource) = ApiError.conflict resource
map_core_error (Error.invalid_input message) = ApiError.validation message
map_core_error (Error.upstream message) = ApiError.internal message
map_core_error (Error.internal message) = ApiError.internal message

abbrev pub map_state : EnvelopeState → Message.MessageState
map_state EnvelopeState.pending = Message.MessageState.pending
map_state EnvelopeState.fixed = Message.MessageState.fixed

abbrev pub map_part : ContentPart → Result ApiError MessagePart
map_part (ContentPart.text t) = ok (MessagePart.text t)
map_part ContentPart.other =
    err (ApiError.unsupported "santi stim-proto participation currently supports text content only")

-- `collect::<Result<Vec<_>, _>>`.
abbrev pub collect_results : {E A B : Type 0} → (A → Result E B) → List A → Result E (List B)
collect_results f [] = ok []
collect_results {E} {A} {B} f (x ∷ xs) = first_of (f x) (collect_results f xs)
  where
    first_of : Result E B → Result E (List B) → Result E (List B)
    first_of (err e) rest = err e
    first_of (ok y) (err e) = err e
    first_of (ok y) (ok ys) = ok (y ∷ ys)

abbrev parsed_content : Result ApiError (List MessagePart) → Result ApiError MessageContent
parsed_content (ok parts) = ok (record { parts = parts })
parsed_content (err e) = err e

abbrev pub map_content : MutationPayload → Result ApiError MessageContent
map_content (MutationPayload.create parts) = parsed_content (collect_results map_part parts)
map_content _ = err (ApiError.bad_request "create payload required")

unfoldable pub rejected_ack :
    MessageEnvelope → AcknowledgementResult → Option String → ProtocolAcknowledgement
unfolding format
rejected_ack envelope ack_result detail = record {
  ack_envelope_id = format ("ack-" ∷ envelope.envelope_id ∷ []);
  ack_message_id = envelope.message_id;
  ack_version = envelope.new_version;
  ack_result = ack_result;
  detail = detail;
}

unfoldable pub applied_ack :
    MessageEnvelope → SessionMessage → List String → ProtocolAcknowledgement
unfolding format
applied_ack envelope m detail = record {
  ack_envelope_id = format ("ack-" ∷ envelope.envelope_id ∷ []);
  ack_message_id = envelope.message_id;
  ack_version = m.message.version;
  ack_result = AcknowledgementResult.applied;
  detail = some (format detail);
}
