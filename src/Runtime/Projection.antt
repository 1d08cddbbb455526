-- ===== src/Runtime/Projection.antt =====
-- crates/santi-runtime/src/session/watch: projection.rs, the snapshot of a session, and `watch_session`
-- of mod.rs. `debug` is the derived `{:?}` of an error.
use santi.Base.{
  ℕ, String, Option, none, some, List, [], ◌∷◌, map, last?, filter_map, str_eq, if◌then◌else◌,
}
use santi.Base.Texts.{join}
use santi.Base.Exec.{Exec, pure, lift, map_error, ok_or, ◌>>=◌}
use santi.Model.Error.{Error}
use santi.Model.Message.{ActorType, MessageState, MessagePart}
use santi.Model.Session.{Session, SessionMessage, SessionEffect}
use santi.Store.{Db}
use santi.Store.Listings.{list_effects}
use santi.Runtime.Query.{get_session, list_session_messages}
use santi.Runtime.Watch.{SessionWatchEvent}

pub record SessionWatchMessageSummary : Type 0 where
  pub id : String
  pub actor_type : String
  pub actor_id : String
  pub session_seq : ℕ
  pub content_text : String
  pub state : String
  pub created_at : String

pub record SessionWatchEffectSummary : Type 0 where
  pub id : String
  pub effect_type : String
  pub status : String
  pub source_hook_id : String
  pub result_ref : Option String
  pub error_text : Option String
  pub created_at : String
  pub updated_at : String

pub record SessionWatchSnapshot : Type 0 where
  pub session_id : String
  pub latest_seq : ℕ
  pub messages : List SessionWatchMessageSummary
  pub effects : List SessionWatchEffectSummary

pub data SessionWatchError : Type 0 where
  not_found : SessionWatchError
  internal : String → SessionWatchError

-- `format!("{:?}", …).to_lowercase()`.
abbrev pub actor_name : ActorType → String
actor_name ActorType.account = "account"
actor_name ActorType.soul = "soul"
actor_name ActorType.system = "system"

abbrev pub state_name : MessageState → String
state_name MessageState.pending = "pending"
state_name MessageState.fixed = "fixed"

abbrev pub text_part : MessagePart → Option String
text_part (MessagePart.text s) = some s
text_part (MessagePart.image _ _) = none

unfoldable pub message_summary : SessionMessage → SessionWatchMessageSummary
unfolding join
message_summary m = record {
  id = m.message.id;
  actor_type = actor_name m.message.actor_type;
  actor_id = m.message.actor_id;
  session_seq = m.relation.session_seq;
  content_text = join "\n\n" (filter_map text_part m.message.content.parts);
  state = state_name m.message.state;
  created_at = m.message.created_at;
}

abbrev pub effect_summary : SessionEffect → SessionWatchEffectSummary
effect_summary effect = record {
  id = effect.id;
  effect_type = effect.effect_type;
  status = effect.status;
  source_hook_id = effect.source_hook_id;
  result_ref = effect.result_ref;
  error_text = effect.error_text;
  created_at = effect.created_at;
  updated_at = effect.updated_at;
}

abbrev pub latest : Option SessionMessage → ℕ
latest none = 0
latest (some m) = m.relation.session_seq

abbrev pub snapshot_of : Session → List SessionMessage → List SessionEffect → SessionWatchSnapshot
snapshot_of session messages effects = record {
  session_id = session.id;
  latest_seq = latest (last? messages);
  messages = map message_summary messages;
  effects = map effect_summary effects;
}

abbrev found_snapshot :
    (Error → String) → String → Option Session → Exec Db String (Option SessionWatchSnapshot)
found_snapshot debug session_id none = pure none
found_snapshot debug session_id (some session) = do
  messages ← list_session_messages session_id
  effects ← map_error debug (list_effects session_id)
  pure (some (snapshot_of session messages effects))

unfoldable pub get_session_watch_snapshot :
    (Error → String) → String → Exec Db String (Option SessionWatchSnapshot)
unfolding get_session list_session_messages list_effects message_summary
get_session_watch_snapshot debug session_id =
    get_session session_id >>= found_snapshot debug session_id

-- The events of one session, out of those that are published after the subscription.
abbrev pub events_of : String → List (String × SessionWatchEvent) → List SessionWatchEvent
events_of session_id [] = []
events_of session_id ((id, event) ∷ published) =
    if str_eq id session_id
    then event ∷ events_of session_id published
    else events_of session_id published

abbrev pub watched :
    String → SessionWatchSnapshot → List (String × SessionWatchEvent) → List SessionWatchEvent
watched session_id snapshot later =
    SessionWatchEvent.connected
      (record { session_id = session_id; latest_seq = snapshot.latest_seq })
    ∷ events_of session_id later

-- The stream that a watcher gets, if `later` is published after it subscribed and it does not lag
-- behind by more than the channel holds.
unfoldable pub watch_session :
    (Error → String)
    → String
    → List (String × SessionWatchEvent)
    → Exec Db SessionWatchError (List SessionWatchEvent)
unfolding get_session_watch_snapshot
watch_session debug session_id later = do
  found ← map_error SessionWatchError.internal (get_session_watch_snapshot debug session_id)
  snapshot ← lift (ok_or found SessionWatchError.not_found)
  pure (watched session_id snapshot later)
