-- ===== src/Api/Fresh.antt =====
-- crates/santi-api/src/http/protocol_reply.rs: the ids of the replies.
use santi.Base.{
  ℕ, ◌+◌, ◌<◌, String, ◌≡◌, refl, sym, ◌∙◌, none, some, List, [], ◌∷◌, str_eq, eq_iff, eq_refl,
  arith, Bool-cases, inl, inr,
}
use santi.Base.Texts.{format, decimal}
use santi.Base.Texts.Numbers.{decimal-injective}
use text.Mathlib.TextLemmas.{append-nil as text_append-nil, append_cancel_left}
use santi.Api.Replies.{
  ReplyRecord, ProtocolReplyStore, insert_reply, get_reply, change_reply, create_reply, update,
  emit_text_delta, complete, fail,
}
use santi.Api.Replayed.{Reached}

abbrev pub reply_name : ℕ → String
reply_name n = format ("reply-" ∷ decimal n ∷ [])

reply_name-injective : (n m : ℕ) → reply_name n ≡ reply_name m → n ≡ m
unfolding format
reply_name-injective n m h = decimal-injective n m (
    sym (text_append-nil (decimal n))
    ∙ append_cancel_left "reply-" _ _ h
    ∙ text_append-nil (decimal m))

-- Every key is the name of a number below `n`.
abbrev Below : ℕ → List (String × ReplyRecord) → Type 0
Below n [] = Unit {0}
Below n ((k, x) ∷ replies) = ((m : ℕ) × (k ≡ reply_name m) × (m < n)) × Below n replies

grow-Below :
    (n : ℕ) (replies : List (String × ReplyRecord)) → Below n replies → Below (n + 1) replies
grow-Below n [] h = tt
grow-Below n ((k, x) ∷ replies) ((m, e, l), h) = ((m, e, omega (arith, l)), grow-Below n replies h)

insert_reply-Below :
    (n : ℕ) (r : ReplyRecord) (replies : List (String × ReplyRecord))
    → Below n replies
    → Below (n + 1) (insert_reply (reply_name n) r replies)
unfolding insert_reply
insert_reply-Below n r [] h = ((n, refl, omega arith), tt)
insert_reply-Below n r ((k, x) ∷ replies) ((m, e, l), h) =
    elim (Bool-cases (str_eq k (reply_name n))) [
      | inl b ↦ rw b ((n, refl, omega arith), grow-Below n replies h)
      | inr b ↦ rw b ((m, e, omega (arith, l)), insert_reply-Below n r replies h)
    ]

change_reply-Below :
    (n : ℕ) (id : String) (f : ReplyRecord → ReplyRecord) (replies : List (String × ReplyRecord))
    → Below n replies
    → Below n (change_reply id f replies)
unfolding change_reply
change_reply-Below n id f [] h = tt
change_reply-Below n id f ((k, x) ∷ replies) (a, h) = elim (Bool-cases (str_eq k id)) [
  | inl b ↦ rw b (a, h)
  | inr b ↦ rw b (a, change_reply-Below n id f replies h)
]

reached-Below : (s : ProtocolReplyStore) → Reached s → Below s.next_reply s.replies
unfolding create_reply emit_text_delta complete fail update
reached-Below _ Reached.started = tt
reached-Below _ (Reached.created {s} c m h) =
    insert_reply-Below s.next_reply _ s.replies (reached-Below s h)
reached-Below _ (Reached.told {s} id delta h) =
    change_reply-Below s.next_reply id _ s.replies (reached-Below s h)
reached-Below _ (Reached.finished {s} id h) =
    change_reply-Below s.next_reply id _ s.replies (reached-Below s h)
reached-Below _ (Reached.broken {s} id code message h) =
    change_reply-Below s.next_reply id _ s.replies (reached-Below s h)

get_reply-Below :
    (n : ℕ) (replies : List (String × ReplyRecord))
    → Below n replies
    → get_reply (reply_name n) replies ≡ none
unfolding get_reply
get_reply-Below n [] h = refl
get_reply-Below n ((k, x) ∷ replies) ((m, e, l), h) = elim (Bool-cases (str_eq k (reply_name n))) [
  | inl b ↦
      let same : m ≡ n = reply_name-injective m n (sym e ∙ (eq_iff k (reply_name n)).0 b) in
      absurd (omega (arith, same, l))
  | inr b ↦ rw b (get_reply-Below n replies h)
]

-- The next id of a store that was reached is in use by no reply.
pub next_id_unused :
    (s : ProtocolReplyStore) → Reached s → get_reply (reply_name s.next_reply) s.replies ≡ none
next_id_unused s h = get_reply-Below s.next_reply s.replies (reached-Below s h)

pub get_reply-insert_reply :
    (id : String) (r : ReplyRecord) (replies : List (String × ReplyRecord))
    → get_reply id (insert_reply id r replies) ≡ some r
unfolding get_reply insert_reply
get_reply-insert_reply id r [] = rw (eq_refl id) refl
get_reply-insert_reply id r ((k, x) ∷ replies) = elim (Bool-cases (str_eq k id)) [
  | inl b ↦ rw (b, eq_refl id) refl
  | inr b ↦ rw (b, b) (get_reply-insert_reply id r replies)
]
