-- ===== src/Api/Examples.antt =====
-- The results on the replies of the protocol, at a small state.
use santi.Api.Log.{Logged}
use santi.Base.{ℕ, true, ◌≡◌, refl, none, some, List, [], ◌∷◌}
use santi.Base.Exec.{second}
use santi.Api.Replies.{
  ProtocolReplyStore, ReplyRecord, ReplyEvent, ReplyEventKind, ReplyStatus, update, update_record,
  get_reply, change_reply, new_store, create_reply, emit_text_delta, complete,
}
use santi.Api.Replayed.{Reached, get_reply-Logged}

-- A reply of two pieces that was completed, beside one that has not begun.
abbrev two_replies : ProtocolReplyStore
unfolding create_reply
two_replies = complete "reply-1" (
    emit_text_delta "reply-1" "lo" (
      emit_text_delta "reply-1" "hel"
        (second (create_reply "c" "m2" (second (create_reply "c" "m1" new_store))))))

reached : Reached two_replies
unfolding create_reply
reached = Reached.finished "reply-1" (
    Reached.told "reply-1" "lo" (
      Reached.told "reply-1" "hel"
        (Reached.created "c" "m2" (Reached.created "c" "m1" Reached.started))))

abbrev event : ℕ → ReplyEventKind → ReplyEvent
event n kind = record { reply_id = "reply-1"; sequence = n; event = kind }

abbrev log : List ReplyEvent
log =
    event 1 (ReplyEventKind.output_text_delta "hel")
    ∷ event 2 (ReplyEventKind.output_text_delta "lo")
    ∷ event 3 ReplyEventKind.completed
    ∷ []

abbrev reply : ReplyRecord
reply = record {
  snapshot = record {
    reply_id = "reply-1";
    conversation_id = "c";
    message_id = "m1";
    status = ReplyStatus.completed;
    output_text = "hello";
    error = none;
  };
  events = log;
  next_sequence = 4;
  sender = log;
  terminal = true;
}

its_reply : get_reply "reply-1" two_replies.replies ≡ some reply
unfolding get_reply two_replies emit_text_delta complete update change_reply update_record
its_reply = refl

get_reply-Logged_example : Logged "reply-1" reply
get_reply-Logged_example = get_reply-Logged two_replies "reply-1" reply reached its_reply
