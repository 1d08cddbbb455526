-- ===== src/Api/Followed.antt =====
-- crates/santi-api/src/http/protocol_reply.rs with handler/stim.rs: what a follower of a reply gets.
use santi.Api.Log.{ends_last, ends, event_ends}
use santi.Base.{any, false, ◌||◌}
use santi.Base.{
  some_inj, ℕ, zero, suc, String, Bool, true, ◌≡◌, refl, sym, ap, ◌∙◌, subst, some, List, [], ◌∷◌,
  ◌++◌, map, arith, Bool-cases, inl, inr, if◌then◌else◌, append-nil, append_assoc,
}
use santi.Api.Replies.{
  ReplyEvent, ReplyEventKind, ReplyRecord, ProtocolReplyStore, get_reply, count, subscription,
  subscribe,
}
use santi.Api.Replayed.{Reached, get_reply-Logged}
use santi.Api.Stim.{AppState}
use santi.Api.Submissions.{
  Response, or_no_reply, received, streamed, streamed_of, stream_reply_events, done_event,
  is_terminal,
}
use santi.Api.Later.{Later, later-Reached, Grown, later-Found}

-- What a receiver that was made after `n` events gets.
abbrev pub drop : ℕ → List ReplyEvent → List ReplyEvent
drop zero xs = xs
drop (suc n) [] = []
drop (suc n) (x ∷ xs) = drop n xs

drop-append : (xs ys : List ReplyEvent) → drop (count xs) (xs ++ ys) ≡ ys
drop-append [] ys = refl
drop-append (x ∷ xs) ys = drop-append xs ys

ends_last-tail : (xs ys : List ReplyEvent) → ends_last (xs ++ ys) ≡ true → ends_last ys ≡ true
ends_last-tail [] ys h = h
ends_last-tail (x ∷ []) [] h = refl
ends_last-tail (x ∷ []) (y ∷ ys) h = ground (arith, h)
ends_last-tail (x ∷ z ∷ xs) ys h = ends_last-tail (z ∷ xs) ys (ground (arith, h))

map-append :
    (f : ReplyEvent → String) (xs ys : List ReplyEvent) → map f (xs ++ ys) ≡ map f xs ++ map f ys
map-append f [] ys = refl
map-append f (x ∷ xs) ys = ap (◌∷◌ (f x)) (map-append f xs ys)

same_end : (kind : ReplyEventKind) → is_terminal kind ≡ ends kind
same_end (ReplyEventKind.output_text_delta delta) = refl
same_end ReplyEventKind.completed = refl
same_end (ReplyEventKind.failed error) = refl

any-tail :
    (xs ys : List ReplyEvent)
    → any event_ends xs ≡ false
    → any event_ends (xs ++ ys) ≡ any event_ends ys
any-tail [] ys h = refl
any-tail (x ∷ xs) ys h = ground (arith, h, any-tail xs ys)

-- The mark of the end, if there is an end.
abbrev pub mark : Bool → List String
mark b = if b then done_event ∷ [] else []

module _ (encode_reply_event : ReplyEvent → String) where
  received_all :
      (events : List ReplyEvent)
      → ends_last events ≡ true
      → received encode_reply_event events
        ≡ map encode_reply_event events ++ mark (any event_ends events)
  received_all [] h = refl
  received_all (e ∷ []) h =
      rw (same_end e.event) (ap (◌∷◌ (encode_reply_event e)) (either (event_ends e)))
    where
      either : (b : Bool) → (if b then done_event ∷ [] else []) ≡ mark (b || false)
      either true = refl
      either false = refl
  received_all (e ∷ f ∷ events) h =
      let open_yet : event_ends e ≡ false = ground (arith, h) in
      rw (same_end e.event, open_yet)
        (ap (◌∷◌ (encode_reply_event e)) (received_all (f ∷ events) (ground (arith, h))))

  module _ (r r' : ReplyRecord) (g : Grown r r') (ended : r.terminal ≡ any event_ends r.events)
      (ended' : r'.terminal ≡ any event_ends r'.events) (last : ends_last r'.events ≡ true) where
    streamed_all :
        streamed encode_reply_event (drop (count r.sender) r'.sender) (subscription r)
        ≡ map encode_reply_event r'.events ++ mark r'.terminal
    streamed_all = elim (Bool-cases r.terminal) [
      | inl e ↦
          let no_more : r'.events ≡ r.events =
            g.events ∙ ap (λ xs. r.events ++ xs) (g.closed e) ∙ append-nil r.events in
          rw (e, g.ended e) (ap (λ xs. map encode_reply_event xs ++ done_event ∷ []) (sym no_more))
      | inr e ↦
          let same_mark : r'.terminal ≡ any event_ends g.later =
            ended' ∙ ap (any event_ends) g.events ∙ any-tail r.events g.later (sym ended ∙ e) in
          rw e (
            ap (λ xs. map encode_reply_event r.events ++ received encode_reply_event xs)
              (ap (drop (count r.sender)) g.sent ∙ drop-append r.sender g.later)
            ∙ ap (◌++◌ (map encode_reply_event r.events)) (
                received_all g.later
                  (ends_last-tail r.events g.later (ap ends_last (sym g.events) ∙ last)))
            ∙ sym (
                append_assoc (map encode_reply_event r.events) (map encode_reply_event g.later)
                  (mark (any event_ends g.later)))
            ∙ ap (λ xs. xs ++ mark (any event_ends g.later))
                (sym (map-append encode_reply_event r.events g.later)
                  ∙ ap (map encode_reply_event) (sym g.events))
            ∙ ap (λ b. map encode_reply_event r'.events ++ mark b) (sym same_mark))
    ]

  -- Who follows a reply from any reached state on, and keeps up with its channel, has got by a later
  -- state each of the events that the reply then has, once and in order, and after them the mark of
  -- the end if the reply has ended, and no such mark if it is open.
  pub stream_reply_events-all :
      (id : String) (a : AppState) (t : ProtocolReplyStore) (r r' : ReplyRecord)
      → Reached a.replies
      → Later id a.replies t
      → get_reply id a.replies.replies ≡ some r
      → get_reply id t.replies ≡ some r'
      → stream_reply_events encode_reply_event id (drop (count r.sender) r'.sender) a
        ≡ Response.success
            (map encode_reply_event r'.events ++ (if r'.terminal then done_event ∷ [] else []))
  unfolding stream_reply_events subscribe streamed_of or_no_reply
  stream_reply_events-all id a t r r' reached later before after =
      let f = later-Found id a.replies t r reached later before in
      let same_reply : f.reply ≡ r' = some_inj f.reply (sym after ∙ f.found) in
      let u = get_reply-Logged a.replies id r reached before in
      let v = get_reply-Logged t id r' (later-Reached id a.replies t later reached) after in
      rw before (
        ap Response.success
          (streamed_all r r' (subst (Grown r) same_reply f.grown) u.ended v.ended v.last))
