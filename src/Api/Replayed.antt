-- ===== src/Api/Replayed.antt =====
-- crates/santi-api/src/http/protocol_reply.rs: replies and the logs of their events.
use santi.Base.{
  String, Bool, true, false, ◌≡◌, refl, sym, ap, ◌∙◌, subst, some, List, [], ◌∷◌, ◌++◌, any, str_eq,
  eq_iff, arith, Bool-cases, inl, inr, if◌then◌else◌,
}
use santi.Base.Exec.{second}
use santi.Api.Replies.{
  ReplyEventKind, ReplyEvent, ReplyRecord, ProtocolReplyStore, new_store, insert_reply, get_reply,
  change_reply, pending_snapshot, create_reply, count, recorded, update_record, update,
  emit_text_delta, complete, fail, Mutation,
}
use santi.Api.Log.{
  apply_kind, ends, event_ends, numbers, Logged, new_record-Logged, replay-append, numbers-append,
  count-append, sequences-append, any-append_last, ends_last-append,
}

-- The mutation that an event stands for.
abbrev pub mutation : ReplyEventKind → Mutation
mutation kind s = (apply_kind s kind, ends kind, kind)

module _ (id other : String) (kind : ReplyEventKind) (r : ReplyRecord) (v : Logged id r) where
  abbrev event_now : ReplyEvent
  event_now = record { reply_id = other; sequence = r.next_sequence; event = kind }

  recorded-Logged : r.terminal ≡ false → Logged id (recorded other r (mutation kind r.snapshot))
  recorded-Logged e =
      let open_log : any event_ends r.events ≡ false = sym v.ended ∙ e in
      record {
        conversation_id = v.conversation_id;
        message_id = v.message_id;
        replayed =
            ap (λ s. apply_kind s kind) v.replayed
            ∙ sym (
                replay-append (pending_snapshot id v.conversation_id v.message_id) r.events
                  event_now);
        numbered =
            sequences-append r.events event_now
            ∙ ap (λ xs. xs ++ r.next_sequence ∷ []) v.numbered
            ∙ ap (λ n. numbers 1 (count r.events) ++ n ∷ []) (omega (arith, v.next))
            ∙ numbers-append 1 (count r.events)
            ∙ ap (numbers 1) (sym (count-append r.events event_now));
        next = omega (arith, v.next, count-append r.events event_now);
        told = ap (λ xs. xs ++ event_now ∷ []) v.told;
        ended =
            ap (λ b. if ends kind then true else b) e
            ∙ as_it_ends (ends kind)
            ∙ sym (any-append_last r.events event_now open_log);
        last = ends_last-append r.events event_now open_log;
      }
    where
      as_it_ends : (b : Bool) → (if b then true else false) ≡ b
      as_it_ends true = refl
      as_it_ends false = refl

  update_record-Logged : Logged id (update_record other (mutation kind) r)
  unfolding update_record
  update_record-Logged = elim (Bool-cases r.terminal) [
    | inl e ↦ subst (Logged id) (ap (branch) (sym e)) v
    | inr e ↦ subst (Logged id) (ap (branch) (sym e)) (recorded-Logged e)
  ]
    where
      branch : Bool → ReplyRecord
      branch b = if b then r else recorded other r (mutation kind r.snapshot)

-- Every record of the map is a log.
abbrev pub AllLogged : List (String × ReplyRecord) → Type 0
AllLogged [] = Unit {0}
AllLogged ((id, r) ∷ replies) = Logged id r × AllLogged replies

insert-AllLogged :
    (id : String) (r : ReplyRecord) (replies : List (String × ReplyRecord))
    → Logged id r
    → AllLogged replies
    → AllLogged (insert_reply id r replies)
unfolding insert_reply
insert-AllLogged id r [] v h = (v, tt)
insert-AllLogged id r ((k, x) ∷ replies) v (a, h) = elim (Bool-cases (str_eq k id)) [
  | inl e ↦ rw e (v, h)
  | inr e ↦ rw e (a, insert-AllLogged id r replies v h)
]

change-AllLogged :
    (id other : String) (kind : ReplyEventKind) (replies : List (String × ReplyRecord))
    → AllLogged replies
    → AllLogged (change_reply id (update_record other (mutation kind)) replies)
unfolding change_reply
change-AllLogged id other kind [] h = tt
change-AllLogged id other kind ((k, x) ∷ replies) (a, h) = elim (Bool-cases (str_eq k id)) [
  | inl e ↦ rw e (update_record-Logged k other kind x a, h)
  | inr e ↦ rw e (a, change-AllLogged id other kind replies h)
]

get-AllLogged :
    (id : String) (r : ReplyRecord) (replies : List (String × ReplyRecord))
    → AllLogged replies
    → get_reply id replies ≡ some r
    → Logged id r
unfolding get_reply
get-AllLogged id r [] h g = absurd (ground (arith, g))
get-AllLogged id r ((k, x) ∷ replies) (a, h) g = elim (Bool-cases (str_eq k id)) [
  | inl e ↦
      let same : k ≡ id = ground (arith, e, eq_iff k id) in
      let found : x ≡ r = ground (arith, rw e at g) in
      subst (λ y. Logged id y) found (subst (λ i. Logged i x) same a)
  | inr e ↦ get-AllLogged id r replies h (rw e at g)
]

-- The states that the operations reach.
pub data Reached : ProtocolReplyStore → Type 0 where
  started : Reached new_store
  created :
      {s : ProtocolReplyStore} (conversation_id message_id : String)
      → Reached s
      → Reached (second (create_reply conversation_id message_id s))
  told :
      {s : ProtocolReplyStore} (reply_id delta : String)
      → Reached s
      → Reached (emit_text_delta reply_id delta s)
  finished :
      {s : ProtocolReplyStore} (reply_id : String) → Reached s → Reached (complete reply_id s)
  broken :
      {s : ProtocolReplyStore} (reply_id code message : String)
      → Reached s
      → Reached (fail reply_id code message s)

reached-AllLogged : (s : ProtocolReplyStore) → Reached s → AllLogged s.replies
unfolding create_reply emit_text_delta complete fail update apply_kind
reached-AllLogged _ started = tt
reached-AllLogged _ (created {s} c m h) =
    insert-AllLogged _ _ s.replies (new_record-Logged _ c m) (reached-AllLogged s h)
reached-AllLogged _ (told {s} id delta h) =
    change-AllLogged id id (ReplyEventKind.output_text_delta delta) s.replies
      (reached-AllLogged s h)
reached-AllLogged _ (finished {s} id h) =
    change-AllLogged id id ReplyEventKind.completed s.replies (reached-AllLogged s h)
reached-AllLogged _ (broken {s} id code message h) =
    change-AllLogged id id (ReplyEventKind.failed (record { code = code; message = message }))
      s.replies (reached-AllLogged s h)

-- In every state that the operations reach, each reply is the log of its events: the snapshot is
-- what replaying them gives, they are numbered from 1 on without a gap, all were sent to its
-- subscribers in order, and the reply has ended exactly when one of them, the last, ends it.
pub get_reply-Logged :
    (s : ProtocolReplyStore) (id : String) (r : ReplyRecord)
    → Reached s
    → get_reply id s.replies ≡ some r
    → Logged id r
get_reply-Logged s id r h g = get-AllLogged id r s.replies (reached-AllLogged s h) g
