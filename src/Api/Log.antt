-- ===== src/Api/Log.antt =====
-- crates/santi-api/src/http/protocol_reply.rs: the abstract reply, the log of its events.
use santi.Base.{
  ℕ, zero, suc, ◌+◌, String, Bool, true, false, not, ◌&&◌, ◌≡◌, refl, ap, ◌∙◌, some, List, [], ◌∷◌,
  ◌++◌, map, any, arith,
}
use santi.Base.Texts.{format}
use santi.Api.Replies.{
  ReplyStatus, ReplySnapshot, ReplyEventKind, ReplyEvent, ReplyRecord, new_record, pending_snapshot,
  count,
}

-- The abstract reply: what an event makes of a snapshot, and what a log makes of the first one.
unfoldable pub apply_kind : ReplySnapshot → ReplyEventKind → ReplySnapshot
unfolding format
apply_kind s (ReplyEventKind.output_text_delta delta) = record s {
  status = ReplyStatus.streaming;
  output_text = format (s.output_text ∷ delta ∷ []);
}
apply_kind s ReplyEventKind.completed = record s { status = ReplyStatus.completed }
apply_kind s (ReplyEventKind.failed error) = record s {
  status = ReplyStatus.failed;
  error = some error;
}

unfoldable pub replay : ReplySnapshot → List ReplyEvent → ReplySnapshot
unfolding apply_kind
replay s [] = s
replay s (e ∷ events) = replay (apply_kind s e.event) events

abbrev pub ends : ReplyEventKind → Bool
ends (ReplyEventKind.output_text_delta delta) = false
ends ReplyEventKind.completed = true
ends (ReplyEventKind.failed error) = true

abbrev pub event_ends : ReplyEvent → Bool
event_ends e = ends e.event

-- `n` numbers from `k` on.
abbrev pub numbers : ℕ → ℕ → List ℕ
numbers k zero = []
numbers k (suc n) = k ∷ numbers (suc k) n

-- No event but the last ends a reply.
abbrev pub ends_last : List ReplyEvent → Bool
ends_last [] = true
ends_last (e ∷ []) = true
ends_last (e ∷ f ∷ events) = not (event_ends e) && ends_last (f ∷ events)

-- A record that is the log of its events: they are numbered from 1 on, all were sent, the snapshot
-- is their replay, and the reply has ended when one of them, the last, ends it.
pub record Logged (id : String) (r : ReplyRecord) : Type 0 where
  pub conversation_id : String
  pub message_id : String
  pub replayed : r.snapshot ≡ replay (pending_snapshot id conversation_id message_id) r.events
  pub numbered : map (λ e. e.sequence) r.events ≡ numbers 1 (count r.events)
  pub next : r.next_sequence ≡ count r.events + 1
  pub told : r.sender ≡ r.events
  pub ended : r.terminal ≡ any event_ends r.events
  pub last : ends_last r.events ≡ true

pub new_record-Logged : (id c m : String) → Logged id (new_record id c m)
unfolding replay
new_record-Logged id c m = record {
  conversation_id = c;
  message_id = m;
  replayed = refl;
  numbered = refl;
  next = refl;
  told = refl;
  ended = refl;
  last = refl;
}

pub replay-append :
    (s : ReplySnapshot) (xs : List ReplyEvent) (e : ReplyEvent)
    → replay s (xs ++ e ∷ []) ≡ apply_kind (replay s xs) e.event
unfolding replay
replay-append s [] e = refl
replay-append s (x ∷ xs) e = replay-append (apply_kind s x.event) xs e

pub numbers-append : (k n : ℕ) → numbers k n ++ (k + n) ∷ [] ≡ numbers k (suc n)
numbers-append k zero = ap (λ i. i ∷ []) (omega arith)
numbers-append k (suc n) =
    ap (◌∷◌ k) (ap (λ i. numbers (suc k) n ++ i ∷ []) (omega arith) ∙ numbers-append (suc k) n)

pub count-append : (xs : List ReplyEvent) (e : ReplyEvent) → count (xs ++ e ∷ []) ≡ suc (count xs)
count-append [] e = refl
count-append (x ∷ xs) e = ap suc (count-append xs e)

pub sequences-append :
    (xs : List ReplyEvent) (e : ReplyEvent)
    → map (λ x. x.sequence) (xs ++ e ∷ []) ≡ map (λ x. x.sequence) xs ++ e.sequence ∷ []
sequences-append [] e = refl
sequences-append (x ∷ xs) e = ap (◌∷◌ x.sequence) (sequences-append xs e)

pub any-append_last :
    (xs : List ReplyEvent) (e : ReplyEvent)
    → any event_ends xs ≡ false
    → any event_ends (xs ++ e ∷ []) ≡ event_ends e
any-append_last [] e h = ground arith
any-append_last (x ∷ xs) e h = ground (arith, h, any-append_last xs e)

pub ends_last-append :
    (xs : List ReplyEvent) (e : ReplyEvent)
    → any event_ends xs ≡ false
    → ends_last (xs ++ e ∷ []) ≡ true
ends_last-append [] e h = refl
ends_last-append (x ∷ []) e h = ground (arith, h)
ends_last-append (x ∷ y ∷ xs) e h = ground (arith, h, ends_last-append (y ∷ xs) e)
