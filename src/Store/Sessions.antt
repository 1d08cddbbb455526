-- ===== src/Store/Sessions.antt =====
-- crates/santi-db/src/adapter/standalone/session_store.rs.
use santi.Base.{
  ℕ, ◌+◌, String, Bool, ◌&&◌, ◌||◌, not, Option, none, some, List, [], ◌∷◌, ◌++◌, map, max, str_eq,
  any, filter, find_by, update_where, last?, leb, ◌==◌, if◌then◌else◌,
}
use santi.Base.Exec.{Exec, Result, ok, err, pure, lift, ok_or, ◌>>=◌, ◌>>◌}
use santi.Model.Error.{Error, not_found, internal}
use santi.Model.Message.{ActorType, MessageState, MessageContent, Message, MessageEventPayload}
use santi.Model.Session.{Session, SessionMessage}
use santi.MessageEvents.Apply.{apply_message_event}
use santi.Store.{Db, SessionRow, MessageRow}
use santi.Store.Mapping.{
  actor_type_db, state_db, text_content, map_session_message_row, content_to_text, option_map,
}

abbrev pub has_id : String → SessionRow → Bool
has_id id row = str_eq row.id id

abbrev session_of : SessionRow → Session
session_of row = record {
  id = row.id;
  parent_session_id = row.parent_session_id;
  fork_point = row.fork_point;
  created_at = row.created_at;
  updated_at = row.updated_at;
}

unfoldable pub get_session : String → Exec Db Error (Option Session)
get_session session_id s = (ok (option_map session_of (find_by (has_id session_id) s.sessions)), s)

-- The primary key refuses a second row with the id. `expect` on the row that was just inserted
-- cannot fail; a panic is an internal error here.
unfoldable pub create_session : String → Exec Db Error Session
unfolding get_session
create_session session_id s =
    if any (has_id session_id) s.sessions
    then (err (internal "session create failed"), s)
    else (do found ← get_session session_id; lift (ok_or found (internal "just inserted session")))
        (record s { sessions = s.sessions ++ row ∷ [] })
  where
    row : SessionRow
    row = record {
      id = session_id;
      parent_session_id = none;
      fork_point = none;
      session_memory = "";
      created_at = s.now;
      updated_at = s.now;
    }

-- The id, the memory and the time of its change.
abbrev pub MemoryRow : Type 0
MemoryRow = String × String × String

unfoldable pub get_session_memory : String → Exec Db Error (Option MemoryRow)
get_session_memory session_id s = (
  ok (
      option_map (λ row. (row.id, row.session_memory, row.updated_at))
        (find_by (has_id session_id) s.sessions)),
  s,
)

unfoldable pub set_session_memory : String → String → Exec Db Error (Option MemoryRow)
unfolding get_session_memory
set_session_memory session_id memory s =
    if any (has_id session_id) s.sessions
    then get_session_memory session_id (record s {
      sessions =
          update_where (has_id session_id)
            (λ row. record row { session_memory = memory; updated_at = s.now }) s.sessions;
    })
    else (ok none, s)

-- ORDER BY session_seq ASC, created_at ASC; no two rows of a session have the same number.
unfoldable pub order_row : MessageRow → List MessageRow → List MessageRow
order_row x [] = x ∷ []
order_row x (y ∷ ys) = if leb x.session_seq y.session_seq then x ∷ y ∷ ys else y ∷ order_row x ys

unfoldable pub order_rows : List MessageRow → List MessageRow
unfolding order_row
order_rows [] = []
order_rows (x ∷ xs) = order_row x (order_rows xs)

abbrev pub in_session : String → MessageRow → Bool
in_session session_id row = str_eq row.session_id session_id

unfoldable pub session_rows : String → Db → List MessageRow
unfolding order_rows
session_rows session_id s = order_rows (filter (in_session session_id) s.session_messages)

-- The second argument of the port, `after_session_seq`, is not looked at.
unfoldable pub list_messages : String → Option ℕ → Exec Db Error (List SessionMessage)
unfolding session_rows map_session_message_row
list_messages session_id after_session_seq s =
    (ok (map map_session_message_row (session_rows session_id s)), s)

abbrev pub has_message_id : String → MessageRow → Bool
has_message_id message_id row = str_eq row.id message_id

unfoldable pub get_message : String → Exec Db Error (Option SessionMessage)
unfolding map_session_message_row
get_message message_id s = (
  ok (option_map map_session_message_row (find_by (has_message_id message_id) s.session_messages)),
  s,
)

-- COALESCE(MAX(session_seq), 0) over the rows of one session.
unfoldable pub max_seq : String → List MessageRow → ℕ
max_seq session_id [] = 0
max_seq session_id (row ∷ rows) =
    let rest = max_seq session_id rows in
    if in_session session_id row then max row.session_seq rest else rest

-- The primary key and UNIQUE(session_id, session_seq).
abbrev pub conflicts : String → String → ℕ → MessageRow → Bool
conflicts id session_id seq row =
    str_eq row.id id || (str_eq row.session_id session_id && row.session_seq == seq)

unfoldable pub new_row :
    Db → String → String → ActorType → String → String → MessageState → MessageRow
unfolding max_seq actor_type_db state_db
new_row s session_id message_id actor actor_id content_text state = record {
  id = message_id;
  session_id = session_id;
  session_seq = max_seq session_id s.session_messages + 1;
  actor_type = actor_type_db actor;
  actor_id = actor_id;
  content_text = content_text;
  content_json = some (text_content content_text);
  state = state_db state;
  version = 1;
  created_at = s.now;
  updated_at = s.now;
}

unfoldable pub append_text_message :
    String
    → String
    → ActorType
    → String
    → String
    → MessageState
    → Exec Db Error (Option SessionMessage)
unfolding new_row list_messages
append_text_message session_id message_id actor actor_id content_text state s =
    let row = new_row s session_id message_id actor actor_id content_text state in
    if not (any (has_id session_id) s.sessions)
    then (ok none, s)
    else if any (conflicts message_id session_id row.session_seq) s.session_messages
    then (err (internal "session message append failed"), s)
    else (do messages ← list_messages session_id none; pure (last? messages))
        (record s { session_messages = s.session_messages ++ row ∷ [] })

pub record AppendSessionMessage : Type 0 where
  pub session_id : String
  pub message_id : String
  pub actor_type : ActorType
  pub actor_id : String
  pub content : MessageContent
  pub state : MessageState

unfoldable pub append_message : AppendSessionMessage → Exec Db Error SessionMessage
unfolding append_text_message content_to_text
append_message input = do
  content_text ← lift (content_to_text input.content)
  appended ←
      append_text_message input.session_id input.message_id input.actor_type input.actor_id
        content_text input.state
  lift (ok_or appended (not_found "session"))

pub record ApplyMessageEvent : Type 0 where
  pub session_id : String
  pub message_id : String
  pub actor_type : ActorType
  pub actor_id : String
  pub base_version : ℕ
  pub payload : MessageEventPayload

abbrev pub save_message : Db → String → Message → MessageRow → MessageRow
save_message s content_text m row = record row {
  content_text = content_text;
  content_json = some m.content;
  state = state_db m.state;
  version = m.version;
  updated_at = s.now;
}

unfoldable pub update_message : String → Message → String → Exec Db Error (Unit {0})
unfolding state_db
update_message message_id m content_text s = (
  ok tt,
  record s {
    session_messages =
        update_where (has_message_id message_id) (save_message s content_text m) s.session_messages;
  },
)

abbrev same_session : SessionMessage → String → Result Error (Unit {0})
same_session m session_id =
    if str_eq m.relation.session_id session_id then ok tt else err (not_found "message")

unfoldable pub store_message_event : ApplyMessageEvent → Exec Db Error SessionMessage
unfolding get_message content_to_text update_message
store_message_event input = do
  found ← get_message input.message_id
  current ← lift (ok_or found (not_found "message"))
  lift (same_session current input.session_id)
  updated ← lift (
      apply_message_event current.message input.actor_type input.actor_id input.base_version
        input.payload)
  content_text ← lift (content_to_text updated.content)
  update_message input.message_id updated content_text
  again ← get_message input.message_id
  lift (ok_or again (not_found "message"))
