-- ===== src/Api/StimExamples.antt =====
-- The results on the handlers of the protocol: a message that is created and fixed, and its reply.
use santi.Api.Later.{Later}
use santi.Base.{
  ℕ, String, Bool, true, false, ◌≡◌, refl, none, some, Option, List, [], ◌∷◌, arith, length,
}
use santi.Base.Exec.{Result, second}
use santi.Model.Message.{ActorType, MessagePart, MessageState}
use santi.MessageEvents.Apply.{apply_message_event, apply_payload}
use santi.Store.{empty}
use santi.Store.Sessions.{create_session, append_message}
use santi.Runtime.{World}
use santi.Send.Examples.{service, ids}
use santi.Api.{ApiError}
use santi.Api.Session as Session
use santi.Api.Replies.{
  ProtocolReplyStore, ReplyRecord, ReplyEvent, ReplyEventKind, ReplyStatus, get_reply, new_store,
  create_reply, emit_text_delta, complete, update, change_reply, update_record,
}
use santi.Api.Replayed.{Reached}
use santi.Api.Followed.{drop, stream_reply_events-all}
use santi.Api.Session.{stream_event}
use santi.Api.Concluded.{
  spoken, Concluded, given, text_given, status_given, run_reply_task-Concluded,
}
use santi.Api.Submitted.{Outcome, reply_view, apply_stim_envelope-Outcome}
use santi.Api.Stim.{
  MessageOperation, EnvelopeState, MutationPayload, MessageEnvelope, AppState, ProtocolSubmission,
}
use santi.Api.Submissions.{
  apply_stim_envelope, Response, done_event, stream_reply_events, run_reply_task, on_own_channel,
}

abbrev world : World
unfolding create_session
world = record {
  db = second (create_session "s" (empty "t"));
  held = [];
  published = [];
  sent = [];
}

-- A reply that was told one piece.
abbrev begun : ProtocolReplyStore
unfolding create_reply emit_text_delta
begun = emit_text_delta "reply-1" "hel" (second (create_reply "s" "m1" new_store))

begun_is_reached : Reached begun
unfolding begun
begun_is_reached = Reached.told "reply-1" "hel" (Reached.created "s" "m1" Reached.started)

abbrev all_told : ProtocolReplyStore
unfolding begun
all_told = complete "reply-1" (emit_text_delta "reply-1" "lo" begun)

abbrev event : ℕ → ReplyEventKind → ReplyEvent
event n kind = record { reply_id = "reply-1"; sequence = n; event = kind }

abbrev record_of : ReplyStatus → String → List ReplyEvent → ℕ → Bool → ReplyRecord
record_of status text events next terminal = record {
  snapshot = record {
    reply_id = "reply-1";
    conversation_id = "s";
    message_id = "m1";
    status = status;
    output_text = text;
    error = none;
  };
  events = events;
  next_sequence = next;
  sender = events;
  terminal = terminal;
}

abbrev r_begun : ReplyRecord
r_begun =
    record_of ReplyStatus.streaming "hel" (event 1 (ReplyEventKind.output_text_delta "hel") ∷ []) 2
      false

abbrev r_told : ReplyRecord
r_told =
    record_of ReplyStatus.completed "hello"
      (event 1 (ReplyEventKind.output_text_delta "hel")
        ∷ event 2 (ReplyEventKind.output_text_delta "lo")
        ∷ event 3 ReplyEventKind.completed
        ∷ [])
      4 true

found_begun : get_reply "reply-1" begun.replies ≡ some r_begun
unfolding get_reply begun update change_reply update_record
found_begun = refl

found_told : get_reply "reply-1" all_told.replies ≡ some r_told
unfolding get_reply all_told emit_text_delta complete update change_reply update_record
found_told = refl

abbrev app : AppState
unfolding world begun
app = record { world = world; replies = begun; spawned = [] }

stream_reply_events-all_example :
    stream_reply_events (λ e. "event") "reply-1" (drop 1 r_told.sender) app
    ≡ Response.success ("event" ∷ "event" ∷ "event" ∷ done_event ∷ [])
unfolding app all_told
stream_reply_events-all_example =
    stream_reply_events-all (λ e. "event") "reply-1" app all_told r_begun r_told begun_is_reached
      (Later.finished "reply-1" (Later.told "reply-1" "lo" Later.same)) found_begun found_told

-- A session with one message, to which the provider answers "hello" after a call of a tool.
abbrev with_message : World
unfolding world
with_message = record world {
  db = second (
      append_message
        (record {
          session_id = "s";
          message_id = "m1";
          actor_type = ActorType.account;
          actor_id = "me";
          content = record { parts = MessagePart.text "hi" ∷ [] };
          state = MessageState.fixed;
        })
        world.db);
}

abbrev waiting : AppState
unfolding with_message begun
waiting = record { world = with_message; replies = begun; spawned = [] }

abbrev turn : Option (Result ApiError (Unit {0}) × World)
unfolding waiting
turn =
    Session.reply_to_session_message service ids none "s" "m1" 2
      (on_own_channel (λ e. "error") "reply-1" waiting.world)

abbrev is_some : {A : Type 0} → Option A → Bool
is_some none = false
is_some (some a) = true

what : {A : Type 0} (o : Option A) → is_some o ≡ true → (a : A) × (o ≡ some a)
what none h = absurd (ground (arith, h))
what (some a) h = (a, refl)

it_ends : is_some turn ≡ true
unfolding turn Session.reply_to_session_message
it_ends = refl

abbrev text_of : Option (Result ApiError (Unit {0}) × World) → String
text_of none = ""
text_of (some p) = text_given (given p)

it_says_hello : text_of turn ≡ "hello"
unfolding turn stream_event spoken Session.reply_to_session_message
it_says_hello = refl

abbrev its_end : (p : Result ApiError (Unit {0}) × World) × (turn ≡ some p)
unfolding turn
its_end = what turn it_ends

run_reply_task-Concluded_example :
    (b : AppState) × (run_reply_task (λ e. "error") "reply-1" service ids none "s" "m1" 2 waiting
      ≡ some b)
    × Concluded "reply-1" r_begun
        (text_given (given its_end.0))
        (status_given (given its_end.0))
        b.replies
unfolding its_end
run_reply_task-Concluded_example =
    run_reply_task-Concluded (λ e. "error") "reply-1" service ids none "s" "m1" 2 waiting r_begun
      its_end.0 found_begun refl its_end.1

-- A message was created by its sender; the fix of it starts a reply.
abbrev fixing : MessageEnvelope
fixing = record {
  envelope_id = "e1";
  conversation_id = "s";
  message_id = "m1";
  sender_endpoint_id = "me";
  operation = MessageOperation.fix;
  state = EnvelopeState.fixed;
  base_version = some 1;
  new_version = 2;
  bootstraps = false;
  payload = MutationPayload.other;
}

abbrev pending_message : AppState
unfolding world
pending_message = record {
  world = record world {
    db = second (
        append_message
          (record {
            session_id = "s";
            message_id = "m1";
            actor_type = ActorType.account;
            actor_id = "me";
            content = record { parts = MessagePart.text "hi" ∷ [] };
            state = MessageState.pending;
          })
          world.db);
  };
  replies = new_store;
  spawned = [];
}

abbrev task_count : Result ApiError ProtocolSubmission × AppState → ℕ
task_count (r, b) = length b.spawned

one_task_waits : task_count (apply_stim_envelope fixing pending_message) ≡ 1
unfolding apply_stim_envelope pending_message apply_message_event apply_payload
one_task_waits = refl

no_replies : Reached pending_message.replies
unfolding pending_message
no_replies = Reached.started

apply_stim_envelope-Outcome_example :
    Outcome fixing (reply_view pending_message) (apply_stim_envelope fixing pending_message)
apply_stim_envelope-Outcome_example = apply_stim_envelope-Outcome fixing pending_message no_replies
