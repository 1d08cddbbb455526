-- ===== src/Api/Concluded.antt =====
-- crates/santi-api/src/handler/stim.rs: how the task of a reply ends it.
use santi.Api.Log.{apply_kind}
use santi.Api.Later.{get_reply-change_reply}
use santi.Base.{
  ℕ, String, true, false, ◌≡◌, refl, sym, ap, ◌∙◌, Option, some, List, [], ◌∷◌, map, if◌then◌else◌,
}
use santi.Base.Texts.{format}
use santi.Base.Exec.{Result, ok, err}
use text.Mathlib.TextLemmas.{append-nil as text_append-nil, append_assoc as text_append_assoc}
use santi.Runtime.{World}
use santi.Send.{SessionTurnService, SendIds, HookRunner}
use Prim.Native.String.{◌++◌ as joined}
use santi.Api.{ApiError}
use santi.Api.Session as Session
use santi.Api.Session.{SessionStreamEvent, stream_event}
use santi.Api.Replies.{
  ReplyStatus, ReplyRecord, ReplyEventKind, ProtocolReplyStore, get_reply, update, update_record,
  recorded, emit_text_delta, complete, fail, option_of, Mutation,
}
use santi.Api.Replayed.{mutation}
use santi.Api.Stim.{AppState}
use santi.Api.Submissions.{forward, reply_outcome, run_over, on_own_channel, run_reply_task}

-- A stream up to its end: the text that it gives, and how it ends.
unfoldable pub spoken : List (Result ApiError SessionStreamEvent) → String
spoken [] = ""
spoken (ok (SessionStreamEvent.output_text_delta delta) ∷ events) = joined delta (spoken events)
spoken (ok SessionStreamEvent.completed ∷ events) = ""
spoken (err e ∷ events) = ""

unfoldable pub ending : List (Result ApiError SessionStreamEvent) → ReplyStatus
ending [] = ReplyStatus.failed
ending (ok (SessionStreamEvent.output_text_delta delta) ∷ events) = ending events
ending (ok SessionStreamEvent.completed ∷ events) = ReplyStatus.completed
ending (err e ∷ events) = ReplyStatus.failed

-- What was given by the start of a stream, after its turn.
abbrev pub given :
    Result ApiError (Unit {0}) × World → Result ApiError (List (Result ApiError SessionStreamEvent))
given (ok u, w) = ok (map stream_event w.sent)
given (err e, w) = err e

abbrev pub text_given : Result ApiError (List (Result ApiError SessionStreamEvent)) → String
text_given (ok stream) = spoken stream
text_given (err e) = ""

abbrev pub status_given : Result ApiError (List (Result ApiError SessionStreamEvent)) → ReplyStatus
status_given (ok stream) = ending stream
status_given (err e) = ReplyStatus.failed

-- The reply as the store has it afterwards, if `text` and `status` were given to `r`.
pub record Concluded (id : String) (r : ReplyRecord) (text : String) (status : ReplyStatus)
    (s : ProtocolReplyStore) : Type 0 where
  pub reply : ReplyRecord
  pub found : get_reply id s.replies ≡ some reply
  pub ended : reply.terminal ≡ true
  pub output : reply.snapshot.output_text ≡ joined r.snapshot.output_text text
  pub final : reply.snapshot.status ≡ status

updated_open :
    (id : String) (mutate : Mutation) (s : ProtocolReplyStore) (r : ReplyRecord)
    → get_reply id s.replies ≡ some r
    → r.terminal ≡ false
    → get_reply id (update id mutate s).replies ≡ some (recorded id r (mutate r.snapshot))
unfolding update update_record
updated_open id mutate s r h e =
    get_reply-change_reply id (update_record id mutate) s.replies
    ∙ ap (option_of (update_record id mutate)) h
    ∙ ap (λ b. some (if b then r else recorded id r (mutate r.snapshot))) e

failed_now :
    (id code message : String) (s : ProtocolReplyStore) (r : ReplyRecord)
    → get_reply id s.replies ≡ some r
    → r.terminal ≡ false
    → Concluded id r "" ReplyStatus.failed (fail id code message s)
unfolding fail apply_kind
failed_now id code message s r h e = record {
  reply = _;
  found =
      updated_open id (mutation (ReplyEventKind.failed (record { code = code; message = message })))
        s r h e;
  ended = refl;
  output = sym (text_append-nil r.snapshot.output_text);
  final = refl;
}

module _ (debug : ApiError → String) (id : String) where
  forward-Concluded :
      (stream : List (Result ApiError SessionStreamEvent)) (s : ProtocolReplyStore)
      (r : ReplyRecord)
      → get_reply id s.replies ≡ some r
      → r.terminal ≡ false
      → Concluded id r (spoken stream) (ending stream) (forward debug id stream s)
  unfolding forward spoken ending complete emit_text_delta format apply_kind
  forward-Concluded [] s r h e = failed_now id _ _ s r h e
  forward-Concluded (ok SessionStreamEvent.completed ∷ events) s r h e = record {
    reply = _;
    found = updated_open id (mutation ReplyEventKind.completed) s r h e;
    ended = refl;
    output = sym (text_append-nil r.snapshot.output_text);
    final = refl;
  }
  forward-Concluded (err x ∷ events) s r h e = failed_now id _ _ s r h e
  forward-Concluded (ok (SessionStreamEvent.output_text_delta delta) ∷ events) s r h e =
      let c =
        forward-Concluded events (emit_text_delta id delta s) _
          (updated_open id (mutation (ReplyEventKind.output_text_delta delta)) s r h e) e in
      record {
        reply = c.reply;
        found = c.found;
        ended = c.ended;
        output =
            c.output
            ∙ ap (λ t. joined (joined r.snapshot.output_text t) (spoken events))
                (text_append-nil delta)
            ∙ text_append_assoc r.snapshot.output_text delta (spoken events);
        final = c.final;
      }

  outcome-Concluded :
      (given : Result ApiError (List (Result ApiError SessionStreamEvent))) (s : ProtocolReplyStore)
      (r : ReplyRecord)
      → get_reply id s.replies ≡ some r
      → r.terminal ≡ false
      → Concluded id r (text_given given) (status_given given) (reply_outcome debug id given s)
  unfolding reply_outcome
  outcome-Concluded (ok stream) s r h e = forward-Concluded stream s r h e
  outcome-Concluded (err x) s r h e = failed_now id _ _ s r h e

  -- A task whose turn ended, whatever became of it, ends its reply, if that was open. The reply then
  -- has the text of the deltas that the stream gave before its end, and is completed exactly when
  -- the stream was; it is failed when the stream could not be started, broke off, or stopped
  -- without an end.
  pub run_reply_task-Concluded :
      (service : SessionTurnService) (ids : SendIds) (hooks : Option HookRunner)
      (session_id message_id : String) (fuel : ℕ) (a : AppState) (r : ReplyRecord)
      (p : Result ApiError (Unit {0}) × World)
      → get_reply id a.replies.replies ≡ some r
      → r.terminal ≡ false
      → Session.reply_to_session_message service ids hooks session_id message_id fuel
          (on_own_channel debug id a.world)
        ≡ some p
      → (b : AppState) × (run_reply_task debug id service ids hooks session_id message_id fuel a
          ≡ some b)
        × Concluded id r (text_given (given p)) (status_given (given p)) b.replies
  unfolding run_reply_task
  run_reply_task-Concluded service ids hooks session_id message_id fuel a r p h e turn =
      rw turn (over p)
    where
      over :
          (q : Result ApiError (Unit {0}) × World)
          → (b : AppState) × (run_over debug id a (some q) ≡ some b)
            × Concluded id r (text_given (given q)) (status_given (given q)) b.replies
      over (ok u, w) = (_, refl, outcome-Concluded (ok (map stream_event w.sent)) a.replies r h e)
      over (err x, w) = (_, refl, outcome-Concluded (err x) a.replies r h e)
