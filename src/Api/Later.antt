-- ===== src/Api/Later.antt =====
-- crates/santi-api/src/http/protocol_reply.rs: what later operations make of a reply.
use santi.Api.Log.{apply_kind}
use santi.Base.{
  String, true, false, ◌≡◌, refl, sym, ap, ◌∙◌, subst, Option, some, none, List, [], ◌∷◌, ◌++◌,
  str_eq, eq_iff, arith, Bool-cases, inl, inr, if◌then◌else◌, append-nil, append_assoc,
}
use santi.Base.Texts.{format, decimal}
use santi.Base.Exec.{second}
use santi.Api.Replies.{
  ReplyEvent, ReplyEventKind, ReplyRecord, ProtocolReplyStore, insert_reply, get_reply,
  change_reply, option_of, new_record, create_reply, recorded, update_record, update,
  emit_text_delta, complete, fail, Mutation,
}
use santi.Api.Fresh.{next_id_unused}
use santi.Api.Replayed.{Reached, mutation}

abbrev pub next_id : ProtocolReplyStore → String
next_id s = format ("reply-" ∷ decimal s.next_reply ∷ [])

-- The operations that come later.
pub data Later (id : String) (s : ProtocolReplyStore) : ProtocolReplyStore → Type 0 where
  same : Later id s s
  created :
      {t : ProtocolReplyStore} (conversation_id message_id : String)
      → Later id s t
      → Later id s (second (create_reply conversation_id message_id t))
  told :
      {t : ProtocolReplyStore} (reply_id delta : String)
      → Later id s t
      → Later id s (emit_text_delta reply_id delta t)
  finished :
      {t : ProtocolReplyStore} (reply_id : String) → Later id s t → Later id s (complete reply_id t)
  broken :
      {t : ProtocolReplyStore} (reply_id code message : String)
      → Later id s t
      → Later id s (fail reply_id code message t)

pub later-Reached : (id : String) (s t : ProtocolReplyStore) → Later id s t → Reached s → Reached t
later-Reached id s _ same h = h
later-Reached id s _ (created {t} c m l) h = Reached.created c m (later-Reached id s t l h)
later-Reached id s _ (told {t} k d l) h = Reached.told k d (later-Reached id s t l h)
later-Reached id s _ (finished {t} k l) h = Reached.finished k (later-Reached id s t l h)
later-Reached id s _ (broken {t} k c m l) h = Reached.broken k c m (later-Reached id s t l h)

-- What an update makes of the reply with an id.
pub get_reply-change_reply :
    (id : String) (f : ReplyRecord → ReplyRecord) (replies : List (String × ReplyRecord))
    → get_reply id (change_reply id f replies) ≡ option_of f (get_reply id replies)
unfolding get_reply change_reply
get_reply-change_reply id f [] = refl
get_reply-change_reply id f ((k, x) ∷ replies) = elim (Bool-cases (str_eq k id)) [
  | inl e ↦ rw (e, e) refl
  | inr e ↦ rw (e, e) (get_reply-change_reply id f replies)
]

get_reply-change_reply_other :
    (id k : String) (f : ReplyRecord → ReplyRecord) (replies : List (String × ReplyRecord))
    → str_eq k id ≡ false
    → get_reply id (change_reply k f replies) ≡ get_reply id replies
unfolding get_reply change_reply
get_reply-change_reply_other id k f [] h = refl
get_reply-change_reply_other id k f ((j, x) ∷ replies) h = elim (Bool-cases (str_eq j k)) [
  | inl e ↦
      let same_key : j ≡ k = ground (arith, e, eq_iff j k) in
      let away : str_eq j id ≡ false = ap (λ i. str_eq i id) same_key ∙ h in rw (e, away) refl
  | inr e ↦
      rw e (
        ap (λ o. if str_eq j id then some x else o) (get_reply-change_reply_other id k f replies h))
]

pub get_reply-insert_reply_other :
    (id k : String) (r : ReplyRecord) (replies : List (String × ReplyRecord))
    → str_eq k id ≡ false
    → get_reply id (insert_reply k r replies) ≡ get_reply id replies
unfolding get_reply insert_reply
get_reply-insert_reply_other id k r [] h = rw h refl
get_reply-insert_reply_other id k r ((j, x) ∷ replies) h = elim (Bool-cases (str_eq j k)) [
  | inl e ↦
      let same_key : j ≡ k = ground (arith, e, eq_iff j k) in
      let away : str_eq j id ≡ false = ap (λ i. str_eq i id) same_key ∙ h in rw (e, away, h) refl
  | inr e ↦
      rw e (
        ap (λ o. if str_eq j id then some x else o) (get_reply-insert_reply_other id k r replies h))
]

-- What came after `r`: the same was added to the events and sent.
pub record Grown (r r' : ReplyRecord) : Type 0 where
  pub later : List ReplyEvent
  pub events : r'.events ≡ r.events ++ later
  pub sent : r'.sender ≡ r.sender ++ later
  pub closed : r.terminal ≡ true → later ≡ []
  pub ended : r.terminal ≡ true → r'.terminal ≡ true

Grown-same : (r : ReplyRecord) → Grown r r
Grown-same r = record {
  later = [];
  events = sym (append-nil r.events);
  sent = sym (append-nil r.sender);
  closed = λ h. refl;
  ended = λ h. h;
}

-- An update adds one event to a reply that is open.
Grown-update_record :
    (k : String) (mutate : Mutation) (r x : ReplyRecord)
    → Grown r x
    → Grown r (update_record k mutate x)
unfolding update_record
Grown-update_record k mutate r x g = elim (Bool-cases x.terminal) [
  | inl e ↦ subst (λ b. Grown r (if b then x else after)) (sym e) g
  | inr e ↦ subst (λ b. Grown r (if b then x else after)) (sym e) (opened e)
]
  where
    after : ReplyRecord
    after = recorded k x (mutate x.snapshot)

    event : ReplyEvent
    event = record { reply_id = k; sequence = x.next_sequence; event = (mutate x.snapshot).2 }

    opened : x.terminal ≡ false → Grown r after
    opened e = record {
      later = g.later ++ event ∷ [];
      events = ap (λ xs. xs ++ event ∷ []) g.events ∙ append_assoc r.events g.later (event ∷ []);
      sent = ap (λ xs. xs ++ event ∷ []) g.sent ∙ append_assoc r.sender g.later (event ∷ []);
      closed = λ h. absurd (ground (arith, g.ended h, e));
      ended = λ h. absurd (ground (arith, g.ended h, e));
    }

-- The reply as it is found later.
pub record Found (r : ReplyRecord) (o : Option ReplyRecord) : Type 0 where
  pub reply : ReplyRecord
  pub found : o ≡ some reply
  pub grown : Grown r reply

Found-change_reply :
    (id k : String) (mutate : Mutation) (r : ReplyRecord) (replies : List (String × ReplyRecord))
    → Found r (get_reply id replies)
    → Found r (get_reply id (change_reply k (update_record k mutate) replies))
Found-change_reply id k mutate r replies f = elim (Bool-cases (str_eq k id)) [
  | inl e ↦
      let same_key : k ≡ id = ground (arith, e, eq_iff k id) in
      subst (λ i. Found r (get_reply i (change_reply k (update_record k mutate) replies))) same_key
        (record {
          reply = update_record k mutate f.reply;
          found =
              get_reply-change_reply k (update_record k mutate) replies
              ∙ ap (option_of (update_record k mutate))
                  (ap (λ i. get_reply i replies) same_key ∙ f.found);
          grown = Grown-update_record k mutate r f.reply f.grown;
        })
  | inr e ↦
      subst (Found r) (sym (get_reply-change_reply_other id k (update_record k mutate) replies e)) f
]

-- The next reply is none that is there.
another_id :
    (id : String) (t : ProtocolReplyStore) (x : ReplyRecord)
    → Reached t
    → get_reply id t.replies ≡ some x
    → str_eq (next_id t) id ≡ false
another_id id t x reached found = elim (Bool-cases (str_eq (next_id t) id)) [
  | inl e ↦
      let same : next_id t ≡ id = (eq_iff (next_id t) id).0 e in
      let unused : get_reply id t.replies ≡ none =
        subst (λ i. get_reply i t.replies ≡ none) same (next_id_unused t reached) in
      absurd (ground (arith, unused, found))
  | inr e ↦ e
]

pub later-Found :
    (id : String) (s t : ProtocolReplyStore) (r : ReplyRecord)
    → Reached s
    → Later id s t
    → get_reply id s.replies ≡ some r
    → Found r (get_reply id t.replies)
unfolding create_reply emit_text_delta complete fail update apply_kind
later-Found id s _ r reached same h = record { reply = r; found = h; grown = Grown-same r }
later-Found id s _ r reached (created {t} c m l) h =
    let f = later-Found id s t r reached l h in
    subst (Found r)
      (sym (
        get_reply-insert_reply_other id (next_id t) (new_record (next_id t) c m) t.replies
          (another_id id t f.reply (later-Reached id s t l reached) f.found)))
      f
later-Found id s _ r reached (told {t} k d l) h =
    Found-change_reply id k (mutation (ReplyEventKind.output_text_delta d)) r t.replies
      (later-Found id s t r reached l h)
later-Found id s _ r reached (finished {t} k l) h =
    Found-change_reply id k (mutation ReplyEventKind.completed) r t.replies
      (later-Found id s t r reached l h)
later-Found id s _ r reached (broken {t} k c m l) h =
    Found-change_reply id k (mutation (ReplyEventKind.failed (record { code = c; message = m }))) r
      t.replies (later-Found id s t r reached l h)
