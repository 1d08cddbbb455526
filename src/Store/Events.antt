-- ===== src/Store/Events.antt =====
-- crates/santi-db/src/adapter/standalone/session_store.rs, `apply_message_event` of the ledger: what
-- is written, and what is read back.
use santi.Base.{
  String, ◌≡◌, refl, sym, ap, ◌∙◌, ◌⊎◌, inl, inr, true, Option, none, some, List, [], ◌∷◌, arith,
  find_by, update_where, str_eq, subst, if◌then◌else◌, Bool-cases, Option-cases,
}
use santi.Base.Exec.{Result, ok, err, Result-cases}
use santi.Model.Error.{Error, not_found}
use santi.Model.Message.{Message, MessageState, pending, fixed, ActorType, account, soul, system}
use santi.Model.Session.{SessionMessage}
use santi.MessageEvents.Apply.{apply_message_event}
use santi.Store.{Db, MessageRow}
use mathlib.Core.Logic.{◌≢◌}
use santi.Base.{eq_iff}
use santi.Store.Mapping.{
  content_from, map_session_message_row, content_to_text, option_map, state_db, message_state,
  actor_type, actor_type_db,
}
use santi.Store.Sessions.{
  ApplyMessageEvent, store_message_event, get_message, update_message, save_message, has_message_id,
}

pub message_state-state_db : (st : MessageState) → message_state (state_db st) ≡ st
unfolding message_state state_db
message_state-state_db pending = refl
message_state-state_db fixed = refl

pub actor_type-actor_type_db : (a : ActorType) → actor_type (actor_type_db a) ≡ a
unfolding actor_type actor_type_db
actor_type-actor_type_db account = refl
actor_type-actor_type_db soul = refl
actor_type-actor_type_db system = refl

-- An update that keeps the ids changes the row that a search by id finds.
find_by-update_where :
    (id : String) (f : MessageRow → MessageRow) (rows : List MessageRow)
    → ((row : MessageRow) → (f row).id ≡ row.id)
    → find_by (has_message_id id) (update_where (has_message_id id) f rows)
      ≡ option_map f (find_by (has_message_id id) rows)
find_by-update_where id f [] keep = refl
find_by-update_where id f (row ∷ rows) keep = elim (Bool-cases (has_message_id id row)) [
  | inl e ↦ rw (e, keep row, e) refl
  | inr e ↦ rw (e, e) (find_by-update_where id f rows keep)
]

-- What a row is after `u` was written to it at `now`: its message is that of `u`, and what an event
-- does not change is as it was.
pub record Written (now : String) (u : Message) (text : String) (row after : MessageRow)
    : Type 0 where
  pub content : content_from after.content_json after.content_text ≡ u.content
  pub state : message_state after.state ≡ u.state
  pub version : after.version ≡ u.version
  pub content_text : after.content_text ≡ text
  pub updated_at : after.updated_at ≡ now
  pub same_id : after.id ≡ row.id
  pub same_session : after.session_id ≡ row.session_id
  pub same_seq : after.session_seq ≡ row.session_seq
  pub same_actor_type : after.actor_type ≡ row.actor_type
  pub same_actor_id : after.actor_id ≡ row.actor_id
  pub same_creation : after.created_at ≡ row.created_at

module _ (now : String) (u : Message) (text id : String) where
  -- The rows before and after: those with the id were written, the others are as they were.
  abbrev pub Rewritten : List MessageRow → List MessageRow → Type 0
  Rewritten [] [] = Unit {0}
  Rewritten [] (after ∷ afters) = ⊥
  Rewritten (row ∷ rows) [] = ⊥
  Rewritten (row ∷ rows) (after ∷ afters) =
      (row.id ≡ id → Written now u text row after)
      × (row.id ≢ id → after ≡ row)
      × Rewritten rows afters

save_message-Written :
    (s : Db) (text : String) (u : Message) (row : MessageRow)
    → Written s.now u text row (save_message s text u row)
save_message-Written s text u row = record {
  content = refl;
  state = message_state-state_db u.state;
  version = refl;
  content_text = refl;
  updated_at = refl;
  same_id = refl;
  same_session = refl;
  same_seq = refl;
  same_actor_type = refl;
  same_actor_id = refl;
  same_creation = refl;
}

update_where-Rewritten :
    (s : Db) (text : String) (u : Message) (id : String) (rows : List MessageRow)
    → Rewritten s.now u text id rows (update_where (has_message_id id) (save_message s text u) rows)
update_where-Rewritten s text u id [] = tt
update_where-Rewritten s text u id (row ∷ rows) = elim (Bool-cases (str_eq row.id id)) [
  | inl e ↦ rw e (
    λ h. save_message-Written s text u row,
    λ n. absurd (n (ground (arith, e, eq_iff row.id id))),
    update_where-Rewritten s text u id rows,
  )
  | inr e ↦ rw e (
    λ h. absurd (ground (arith, e, h, eq_iff row.id id)),
    λ n. refl,
    update_where-Rewritten s text u id rows,
  )
]

module _ (input : ApplyMessageEvent) (s : Db) where
  abbrev pub found : Option MessageRow
  found = find_by (has_message_id input.message_id) s.session_messages

  abbrev pub db_with : Message → String → Db
  db_with u text = record s {
    session_messages =
        update_where (has_message_id input.message_id) (save_message s text u) s.session_messages;
  }

  abbrev pub applied : MessageRow → Result Error Message
  applied row =
      apply_message_event (map_session_message_row row).message input.actor_type input.actor_id
        input.base_version input.payload

  -- An accepted event: the row that was found, the message that the event makes of it, the text
  -- of its parts, and the row that is read back.
  pub record Stored (m : SessionMessage) (s' : Db) : Type 0 where
    pub row : MessageRow
    pub updated : Message
    pub content_text : String
    pub was_found : found ≡ some row
    pub in_session : str_eq row.session_id input.session_id ≡ true
    pub was_applied : applied row ≡ ok updated
    pub has_text : content_to_text updated.content ≡ ok content_text
    pub written : s' ≡ db_with updated content_text
    pub read_back : m ≡ map_session_message_row (save_message s content_text updated row)
    pub other_tables : s' ≡ record s { session_messages = s'.session_messages }
    pub rewritten :
        Rewritten s.now updated content_text input.message_id s.session_messages s'.session_messages
    pub returned_content : m.message.content ≡ updated.content
    pub returned_version : m.message.version ≡ updated.version
    pub returned_state : m.message.state ≡ updated.state
    pub returned_id : m.message.id ≡ row.id
    pub returned_seq : m.relation.session_seq ≡ row.session_seq

  abbrev pub EventOutcome : Result Error SessionMessage × Db → Type 0
  EventOutcome (r, s') =
      ((m : SessionMessage) × (r ≡ ok m) × Stored m s') ⊎ ((e : Error) × (r ≡ err e) × (s' ≡ s))

  abbrev pub written_outcome :
      MessageRow → Message → Result Error String → Result Error SessionMessage × Db
  written_outcome row u (ok text) =
      (ok (map_session_message_row (save_message s text u row)), db_with u text)
  written_outcome row u (err e) = (err e, s)

  abbrev pub applied_outcome : MessageRow → Result Error Message → Result Error SessionMessage × Db
  applied_outcome row (ok u) = written_outcome row u (content_to_text u.content)
  applied_outcome row (err e) = (err e, s)

  abbrev pub found_outcome : Option MessageRow → Result Error SessionMessage × Db
  found_outcome none = (err (not_found "message"), s)
  found_outcome (some row) =
      if str_eq row.session_id input.session_id
      then applied_outcome row (applied row)
      else (err (not_found "message"), s)

  pub found-db_with :
      (row : MessageRow) (u : Message) (text : String)
      → found ≡ some row
      → find_by (has_message_id input.message_id) (db_with u text).session_messages
        ≡ some (save_message s text u row)
  found-db_with row u text e =
      find_by-update_where input.message_id (save_message s text u) s.session_messages (λ r. refl)
      ∙ ap (option_map (save_message s text u)) e

  -- Every branch of the operation.
  pub store_message_event-cases : store_message_event input s ≡ found_outcome found
  unfolding store_message_event get_message update_message map_session_message_row
  store_message_event-cases = elim (Option-cases found) [
    | inl e ↦ ground (arith, e)
    | inr (row, e) ↦ elim (Bool-cases (str_eq row.session_id input.session_id)) [
      | inr f ↦ ground (arith, e, f)
      | inl f ↦ elim (Result-cases (applied row)) [
        | inr (x, g) ↦ ground (arith, e, f, g)
        | inl (u, g) ↦ elim (Result-cases (content_to_text u.content)) [
          | inr (x, h) ↦ ground (arith, e, f, g, h)
          | inl (text, h) ↦ ground (arith, e, f, g, h, found-db_with row u text e)
        ]
      ]
    ]
  ]

  written-EventOutcome :
      (row : MessageRow) (u : Message) (r : Result Error String)
      → found ≡ some row
      → str_eq row.session_id input.session_id ≡ true
      → applied row ≡ ok u
      → content_to_text u.content ≡ r
      → EventOutcome (written_outcome row u r)
  unfolding map_session_message_row
  written-EventOutcome row u (err e) f k g h = inr (e, refl, refl)
  written-EventOutcome row u (ok text) f k g h = inl (
    map_session_message_row (save_message s text u row),
    refl,
    record {
      row = row;
      updated = u;
      content_text = text;
      was_found = f;
      in_session = k;
      was_applied = g;
      has_text = h;
      written = refl;
      read_back = refl;
      other_tables = refl;
      rewritten = update_where-Rewritten s text u input.message_id s.session_messages;
      returned_content = refl;
      returned_version = refl;
      returned_state = message_state-state_db u.state;
      returned_id = refl;
      returned_seq = refl;
    },
  )

  applied-EventOutcome :
      (row : MessageRow) (r : Result Error Message)
      → found ≡ some row
      → str_eq row.session_id input.session_id ≡ true
      → applied row ≡ r
      → EventOutcome (applied_outcome row r)
  applied-EventOutcome row (err e) f k g = inr (e, refl, refl)
  applied-EventOutcome row (ok u) f k g =
      written-EventOutcome row u (content_to_text u.content) f k g refl

  found-EventOutcome : (o : Option MessageRow) → found ≡ o → EventOutcome (found_outcome o)
  found-EventOutcome none f = inr (not_found "message", refl, refl)
  found-EventOutcome (some row) f = elim (Bool-cases (str_eq row.session_id input.session_id)) [
    | inl e ↦ rw e (applied-EventOutcome row (applied row) f e refl)
    | inr e ↦ rw e (inr (not_found "message", refl, refl))
  ]

  pub store_message_event-EventOutcome : EventOutcome (store_message_event input s)
  store_message_event-EventOutcome =
      subst EventOutcome (sym store_message_event-cases) (found-EventOutcome found refl)

  pub ok-Stored :
      (m : SessionMessage) (s' : Db) → store_message_event input s ≡ (ok m, s') → Stored m s'
  ok-Stored m s' h = elim (subst EventOutcome h store_message_event-EventOutcome) [
    | inl (n, e, stored) ↦ subst (λ x. Stored x s') (injective n e) stored
    | inr (f, e, _) ↦ absurd (ground arith)
  ]
    where
      injective :
          (n : SessionMessage) → (let r : Result Error SessionMessage = ok m in r ≡ ok n) → n ≡ m
      injective n e = cc
