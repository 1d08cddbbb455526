-- ===== src/Api/Replies.antt =====
-- crates/santi-api/src/http/protocol_reply.rs: the replies that clients of the protocol follow. The
-- types of stim_proto are as the code fills them. The broadcast channel of a reply is the list of
-- what was sent on it; the map is a list of keys with one entry each. The mutex is never poisoned.
use santi.Base.{
  ℕ, suc, ◌+◌, String, Bool, true, false, Option, none, some, List, [], ◌∷◌, ◌++◌, str_eq,
  if◌then◌else◌,
}
use santi.Base.Texts.{format, decimal}

pub data ReplyStatus : Type 0 where
  pending streaming completed failed : ReplyStatus

pub record ReplyFailure : Type 0 where
  pub code : String
  pub message : String

pub record ReplySnapshot : Type 0 where
  pub reply_id : String
  pub conversation_id : String
  pub message_id : String
  pub status : ReplyStatus
  pub output_text : String
  pub error : Option ReplyFailure

pub data ReplyEventKind : Type 0 where
  output_text_delta : String → ReplyEventKind
  completed : ReplyEventKind
  failed : ReplyFailure → ReplyEventKind

pub record ReplyEvent : Type 0 where
  pub reply_id : String
  pub sequence : ℕ
  pub event : ReplyEventKind

pub record ReplyHandle : Type 0 where
  pub reply_id : String
  pub conversation_id : String
  pub message_id : String
  pub status : ReplyStatus

pub record ReplyRecord : Type 0 where
  pub snapshot : ReplySnapshot
  pub events : List ReplyEvent
  pub next_sequence : ℕ
  pub sender : List ReplyEvent
  pub terminal : Bool

pub record ProtocolReplyStore : Type 0 where
  pub next_reply : ℕ
  pub replies : List (String × ReplyRecord)

-- A receiver gets what is sent after the point where it was made.
pub record ProtocolReplySubscription : Type 0 where
  pub history : List ReplyEvent
  pub receiver : ℕ
  pub terminal : Bool

abbrev pub new_store : ProtocolReplyStore
new_store = record { next_reply = 1; replies = [] }

-- `HashMap::insert`, `get` and `get_mut`.
unfoldable pub insert_reply :
    String → ReplyRecord → List (String × ReplyRecord) → List (String × ReplyRecord)
insert_reply id r [] = (id, r) ∷ []
insert_reply id r ((k, x) ∷ replies) =
    let rest = insert_reply id r replies in if str_eq k id then (id, r) ∷ replies else (k, x) ∷ rest

unfoldable pub get_reply : String → List (String × ReplyRecord) → Option ReplyRecord
get_reply id [] = none
get_reply id ((k, x) ∷ replies) =
    let rest = get_reply id replies in if str_eq k id then some x else rest

unfoldable pub change_reply :
    String → (ReplyRecord → ReplyRecord) → List (String × ReplyRecord) → List (String × ReplyRecord)
change_reply id f [] = []
change_reply id f ((k, x) ∷ replies) =
    let rest = change_reply id f replies in
    if str_eq k id then (k, f x) ∷ replies else (k, x) ∷ rest

abbrev pub pending_snapshot : String → String → String → ReplySnapshot
pending_snapshot reply_id conversation_id message_id = record {
  reply_id = reply_id;
  conversation_id = conversation_id;
  message_id = message_id;
  status = ReplyStatus.pending;
  output_text = "";
  error = none;
}

abbrev pub new_record : String → String → String → ReplyRecord
new_record reply_id conversation_id message_id = record {
  snapshot = pending_snapshot reply_id conversation_id message_id;
  events = [];
  next_sequence = 1;
  sender = [];
  terminal = false;
}

unfoldable pub create_reply :
    String → String → ProtocolReplyStore → ReplyHandle × ProtocolReplyStore
unfolding insert_reply format decimal
create_reply conversation_id message_id state =
    let reply_id = format ("reply-" ∷ decimal state.next_reply ∷ []) in
    (
      record {
        reply_id = reply_id;
        conversation_id = conversation_id;
        message_id = message_id;
        status = ReplyStatus.pending;
      },
      record {
        next_reply = state.next_reply + 1;
        replies =
            insert_reply reply_id (new_record reply_id conversation_id message_id) state.replies;
      },
    )

abbrev pub option_of : {A B : Type 0} → (A → B) → Option A → Option B
option_of f none = none
option_of f (some a) = some (f a)

unfoldable pub snapshot : String → ProtocolReplyStore → Option ReplySnapshot
unfolding get_reply
snapshot reply_id state = option_of (λ r. r.snapshot) (get_reply reply_id state.replies)

abbrev pub count : {A : Type 0} → List A → ℕ
count [] = 0
count (x ∷ xs) = suc (count xs)

abbrev pub subscription : ReplyRecord → ProtocolReplySubscription
subscription r = record { history = r.events; receiver = count r.sender; terminal = r.terminal }

unfoldable pub subscribe : String → ProtocolReplyStore → Option ProtocolReplySubscription
unfolding get_reply
subscribe reply_id state = option_of subscription (get_reply reply_id state.replies)

-- What an update does to the record: `mutate` gives the new snapshot, whether the reply has ended,
-- and the event.
abbrev pub Mutation : Type 0
Mutation = ReplySnapshot → ReplySnapshot × Bool × ReplyEventKind

abbrev pub recorded : String → ReplyRecord → ReplySnapshot × Bool × ReplyEventKind → ReplyRecord
recorded reply_id r (new_snapshot, ends, kind) =
    let event : ReplyEvent = record {
      reply_id = reply_id;
      sequence = r.next_sequence;
      event = kind;
    } in
    record {
      snapshot = new_snapshot;
      events = r.events ++ event ∷ [];
      next_sequence = r.next_sequence + 1;
      sender = r.sender ++ event ∷ [];
      terminal = if ends then true else r.terminal;
    }

unfoldable pub update_record : String → Mutation → ReplyRecord → ReplyRecord
update_record reply_id mutate r = if r.terminal then r else recorded reply_id r (mutate r.snapshot)

unfoldable pub update : String → Mutation → ProtocolReplyStore → ProtocolReplyStore
unfolding change_reply update_record
update reply_id mutate state = record state {
  replies = change_reply reply_id (update_record reply_id mutate) state.replies;
}

unfoldable pub emit_text_delta : String → String → ProtocolReplyStore → ProtocolReplyStore
unfolding update format
emit_text_delta reply_id delta = update reply_id λ s. (
  record s { status = ReplyStatus.streaming; output_text = format (s.output_text ∷ delta ∷ []) },
  false,
  ReplyEventKind.output_text_delta delta,
)

unfoldable pub complete : String → ProtocolReplyStore → ProtocolReplyStore
unfolding update
complete reply_id =
    update reply_id
      λ s. (record s { status = ReplyStatus.completed }, true, ReplyEventKind.completed)

unfoldable pub fail : String → String → String → ProtocolReplyStore → ProtocolReplyStore
unfolding update
fail reply_id code message = update reply_id λ s.
    let error : ReplyFailure = record { code = code; message = message } in
    (
      record s { status = ReplyStatus.failed; error = some error },
      true,
      ReplyEventKind.failed error,
    )
