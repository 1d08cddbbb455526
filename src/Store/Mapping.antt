-- ===== src/Store/Mapping.antt =====
-- crates/santi-db/src/adapter/standalone/session_store/mapping.rs.
use santi.Base.{String, Option, none, some, List, [], ◌∷◌, str_eq, if◌then◌else◌}
use santi.Base.Texts.{join}
use santi.Base.Exec.{Result, ok, err, and_then}
use santi.Model.Error.{Error, invalid_input}
use santi.Model.Message.{
  ActorType, account, soul, system, MessageState, pending, fixed, MessagePart, text, image,
  MessageContent,
}
use santi.Model.Session.{SessionMessage}
use santi.Store.{MessageRow}

abbrev pub option_map : {A B : Type 0} → (A → B) → Option A → Option B
option_map f none = none
option_map f (some a) = some (f a)

unfoldable pub actor_type : String → ActorType
actor_type raw = if str_eq raw "soul" then soul else if str_eq raw "system" then system else account

unfoldable pub actor_type_db : ActorType → String
actor_type_db account = "account"
actor_type_db soul = "soul"
actor_type_db system = "system"

unfoldable pub message_state : String → MessageState
message_state raw = if str_eq raw "fixed" then fixed else pending

unfoldable pub state_db : MessageState → String
state_db pending = "pending"
state_db fixed = "fixed"

abbrev pub text_content : String → MessageContent
text_content s = record { parts = text s ∷ [] }

abbrev pub content_from : Option MessageContent → String → MessageContent
content_from (some c) content_text = c
content_from none content_text = text_content content_text

unfoldable pub map_session_message_row : MessageRow → SessionMessage
unfolding actor_type message_state
map_session_message_row row = record {
  relation = record {
    session_id = row.session_id;
    message_id = row.id;
    session_seq = row.session_seq;
    created_at = row.created_at;
  };
  message = record {
    id = row.id;
    actor_type = actor_type row.actor_type;
    actor_id = row.actor_id;
    content = content_from row.content_json row.content_text;
    state = message_state row.state;
    version = row.version;
    deleted_at = none;
    created_at = row.created_at;
    updated_at = row.updated_at;
  };
}

-- The texts of the parts; an image is refused.
unfoldable pub part_texts : List MessagePart → Result Error (List String)
part_texts [] = ok []
part_texts (text s ∷ parts) = and_then (part_texts parts) λ ss. ok (s ∷ ss)
part_texts (image mime_type data_base64 ∷ parts) =
    err (invalid_input "standalone stim message lifecycle supports text parts only")

unfoldable pub content_to_text : MessageContent → Result Error String
unfolding part_texts join
content_to_text c = and_then (part_texts c.parts) λ ss. ok (join "\n\n" ss)
