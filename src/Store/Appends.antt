-- ===== src/Store/Appends.antt =====
-- crates/santi-db/src/adapter/standalone/session_store.rs: what an appended message does to the
-- lists of messages.
use mathlib.Core.List.{map-append}
use santi.Base.{
  ℕ, ◌+◌, ◌≤◌, String, ◌≡◌, ◌≢◌, refl, sym, ap, ◌∙◌, inl, inr, Bool, false, not, none, some, List,
  [], ◌∷◌, ◌++◌, map, arith, eq_iff, eq_refl, any, filter, All, last?, subst, if◌then◌else◌,
  Bool-cases,
}
use santi.Base.Exec.{Result, ok, err, Result-cases}
use santi.Model.Error.{Error, internal, not_found}
use santi.Base.{◌⊎◌}
use santi.Model.Message.{ActorType, MessageState}
use santi.Model.Session.{SessionMessage}
use santi.Store.{Db, MessageRow}
use santi.Store.Mapping.{map_session_message_row, content_to_text}
use santi.Store.Sessions.{
  AppendSessionMessage, append_message, append_text_message, list_messages, session_rows,
  order_rows, order_row, in_session, max_seq, new_row, conflicts, has_id,
}

-- What `list_messages` returns.
abbrev pub listed : String → Db → List SessionMessage
listed session_id s = map map_session_message_row (session_rows session_id s)

last?-append {ℓ} : {A : Type ℓ} (xs : List A) (x : A) → last? (xs ++ x ∷ []) ≡ some x
last?-append [] x = refl
last?-append (y ∷ []) x = refl
last?-append (y ∷ z ∷ zs) x = last?-append (z ∷ zs) x

filter-append {ℓ} :
    {A : Type ℓ} (p : A → Bool) (xs ys : List A) → filter p (xs ++ ys) ≡ filter p xs ++ filter p ys
filter-append p [] ys = refl
filter-append p (x ∷ xs) ys = ground (arith, filter-append p xs ys)

order_row-append :
    (x row : MessageRow) (ys : List MessageRow)
    → x.session_seq ≤ row.session_seq
    → order_row x (ys ++ row ∷ []) ≡ order_row x ys ++ row ∷ []
unfolding order_row
order_row-append x row [] h = ground arith
order_row-append x row (y ∷ ys) h = ground (arith, order_row-append x row ys h)

order_rows-append :
    (row : MessageRow) (xs : List MessageRow)
    → All (λ x. x.session_seq ≤ row.session_seq) xs
    → order_rows (xs ++ row ∷ []) ≡ order_rows xs ++ row ∷ []
unfolding order_rows
order_rows-append row [] h = refl
order_rows-append row (x ∷ xs) h =
    ap (order_row x) (order_rows-append row xs h.1) ∙ order_row-append x row (order_rows xs) h.0

below_max_seq :
    (session_id : String) (bound : ℕ) (rows : List MessageRow)
    → max_seq session_id rows ≤ bound
    → All (λ x. x.session_seq ≤ bound) (filter (in_session session_id) rows)
unfolding max_seq
below_max_seq session_id bound [] h = tt
below_max_seq session_id bound (row ∷ rows) h = elim (Bool-cases (in_session session_id row)) [
  | inl e ↦ rw e (ground (arith, e), below_max_seq session_id bound rows (ground (arith, e)))
  | inr e ↦ rw e (below_max_seq session_id bound rows (ground (arith, e)))
]

-- A row with a greater number comes last in its session.
session_rows-append :
    (s : Db) (row : MessageRow)
    → max_seq row.session_id s.session_messages ≤ row.session_seq
    → session_rows row.session_id (record s { session_messages = s.session_messages ++ row ∷ [] })
      ≡ session_rows row.session_id s ++ row ∷ []
unfolding session_rows
session_rows-append s row h =
    ap order_rows (filter-append (in_session row.session_id) s.session_messages (row ∷ []))
    ∙ rw (eq_refl row.session_id) (
        order_rows-append row (filter (in_session row.session_id) s.session_messages)
          (below_max_seq row.session_id row.session_seq s.session_messages h))

filter-append_out {ℓ} :
    {A : Type ℓ} (p : A → Bool) (xs : List A) (x : A)
    → p x ≡ false
    → filter p (xs ++ x ∷ []) ≡ filter p xs
filter-append_out p [] x h = rw h
filter-append_out p (y ∷ ys) x h = ground (arith, filter-append_out p ys x h)

session_rows-other :
    (s : Db) (row : MessageRow) (other : String)
    → other ≢ row.session_id
    → session_rows other (record s { session_messages = s.session_messages ++ row ∷ [] })
      ≡ session_rows other s
unfolding session_rows
session_rows-other s row other h = ap order_rows (
    filter-append_out (in_session other) s.session_messages row
      (ground (arith, eq_iff row.session_id other)))

module _ (s : Db) (session_id message_id : String) (actor : ActorType) (actor_id text : String)
    (state : MessageState) where
  abbrev appended_row : MessageRow
  appended_row = new_row s session_id message_id actor actor_id text state

  abbrev appended_db : Db
  appended_db = record s { session_messages = s.session_messages ++ appended_row ∷ [] }

  listed-appended :
      listed session_id appended_db
      ≡ listed session_id s ++ map_session_message_row appended_row ∷ []
  unfolding new_row
  listed-appended =
      ap (map map_session_message_row) (session_rows-append s appended_row (omega arith))
      ∙ map-append map_session_message_row (session_rows session_id s) (appended_row ∷ [])

  -- Every branch: no session, a conflict of keys, or the new message.
  append_text_message-cases :
      append_text_message session_id message_id actor actor_id text state s ≡ (
        if not (any (has_id session_id) s.sessions)
        then (ok none, s)
        else if any (conflicts message_id session_id appended_row.session_seq) s.session_messages
        then (err (internal "session message append failed"), s)
        else (ok (some (map_session_message_row appended_row)), appended_db))
  unfolding append_text_message list_messages
  append_text_message-cases = rw (listed-appended, last?-append) refl

-- What an accepted append does: the new message has the next number of its session, comes last in
-- the session's list, and is in no other list.
pub record Appended (input : AppendSessionMessage) (s : Db) (m : SessionMessage) (s' : Db)
    : Type 0 where
  pub next_number : m.relation.session_seq ≡ max_seq input.session_id s.session_messages + 1
  pub comes_last : listed input.session_id s' ≡ listed input.session_id s ++ m ∷ []
  pub others : (other : String) → other ≢ input.session_id → listed other s' ≡ listed other s

module _ (input : AppendSessionMessage) (s : Db) where
  pub appended_db-Appended :
      (text : String)
      → Appended input s
          (map_session_message_row (
            appended_row s input.session_id input.message_id input.actor_type input.actor_id text
              input.state))
          (appended_db s input.session_id input.message_id input.actor_type input.actor_id text
            input.state)
  unfolding map_session_message_row new_row
  appended_db-Appended text = record {
    next_number = refl;
    comes_last =
        listed-appended s input.session_id input.message_id input.actor_type input.actor_id text
          input.state;
    others = λ other h. ap (map map_session_message_row) (session_rows-other s _ other h);
  }

  abbrev pub row_for : String → MessageRow
  row_for text =
      new_row s input.session_id input.message_id input.actor_type input.actor_id text input.state

  abbrev db_for : String → Db
  db_for text =
      appended_db s input.session_id input.message_id input.actor_type input.actor_id text
        input.state

  abbrev pub outcome : String → Result Error SessionMessage × Db
  outcome text =
      if not (any (has_id input.session_id) s.sessions)
      then (err (not_found "session"), s)
      else if any (conflicts input.message_id input.session_id (row_for text).session_seq)
          s.session_messages
      then (err (internal "session message append failed"), s)
      else (ok (map_session_message_row (row_for text)), db_for text)

  pub append_message-outcome :
      (text : String)
      → content_to_text input.content ≡ ok text
      → append_message input s ≡ outcome text
  unfolding append_message
  append_message-outcome text e = ground (
    arith,
    e,
    append_text_message-cases s input.session_id input.message_id input.actor_type input.actor_id
        text input.state,
  )

  pub append_message-refused :
      (e : Error) → content_to_text input.content ≡ err e → append_message input s ≡ (err e, s)
  unfolding append_message
  append_message-refused e h = ground (arith, h)

  abbrev pub Outcome : Result Error SessionMessage × Db → Type 0
  Outcome (r, s') =
      ((m : SessionMessage) × (r ≡ ok m) × Appended input s m s')
      ⊎ ((e : Error) × (r ≡ err e) × (s' ≡ s))

  outcome-Outcome : (text : String) → Outcome (outcome text)
  outcome-Outcome text = elim (Bool-cases (any (has_id input.session_id) s.sessions)) [
    | inr e ↦ rw e (inr (not_found "session", refl, refl))
    | inl e ↦
        elim (Bool-cases (
          any (conflicts input.message_id input.session_id (row_for text).session_seq)
            s.session_messages)) [
              | inl f ↦ rw (e, f) (inr (internal "session message append failed", refl, refl))
              | inr f ↦
                  rw (e, f)
                    (inl (map_session_message_row (row_for text), refl, appended_db-Appended text))
            ]
  ]

  -- An append that succeeds gives the message the next number of its session and puts it last in
  -- the session's list, and changes no other session's list; one that fails changes nothing.
  pub append_message-Outcome : Outcome (append_message input s)
  append_message-Outcome = elim (Result-cases (content_to_text input.content)) [
    | inl (text, e) ↦ subst Outcome (sym (append_message-outcome text e)) (outcome-Outcome text)
    | inr (f, e) ↦ subst Outcome (sym (append_message-refused f e)) (inr (f, refl, refl))
  ]
