-- ===== src/Api/Session.antt =====
-- crates/santi-api/src/surface: session.rs and soul.rs, standalone. What a stream gives is the part of
-- the channel that `stream_event` maps.
use santi.Base.{ℕ, String, Option, none, some, List}
use santi.Base.Int.{ℤ}
use santi.Base.Exec.{Exec, Result, ok, err, lift, pure, raise, ok_or, ◌>>=◌, ◌>>◌}
use santi.Model.Error.{Error}
use santi.Model.Session.{
  Session, SessionMessage, SessionEffect, SoulSession, Compact, ToolActivity, Soul,
}
use santi.Store.Listings.{list_effects}
use santi.Runtime.{World, call}
use santi.Runtime.Channel.{SendSessionError, SendSessionEvent}
use santi.Runtime.Watch.{SessionWatchEvent}
use santi.Runtime.Query as Query
use santi.Runtime.Projection.{SessionWatchSnapshot, SessionWatchError}
use santi.Runtime.Projection as Projection
use santi.Runtime.Memory as Memory
use santi.Runtime.Forking.{ForkIds, ForkResult, ForkError}
use santi.Runtime.Forking as Forking
use santi.Runtime.Compacts.{CompactIds, CompactSessionError}
use santi.Runtime.Compacts as Compacts
use santi.Tools as Tools
use santi.Send.{SessionTurnService, SendIds, HookRunner}
use santi.Send.Streams as Streams
use santi.Api.{ApiError}

-- schema/session.rs
pub record SessionMemoryResponse : Type 0 where
  pub id : String
  pub memory : String
  pub updated_at : String

abbrev pub memory_response : SoulSession → SessionMemoryResponse
memory_response m = record { id = m.id; memory = m.session_memory; updated_at = m.updated_at }

-- schema/session_events.rs
pub data SessionStreamEvent : Type 0 where
  output_text_delta : String → SessionStreamEvent
  completed : SessionStreamEvent

unfoldable pub map_send_error : SendSessionError → ApiError
map_send_error SendSessionError.busy = ApiError.conflict "session send already in progress"
map_send_error SendSessionError.not_found = ApiError.not_found "session not found"
map_send_error (SendSessionError.internal message) = ApiError.internal message

unfoldable pub map_fork_error : ForkError → ApiError
map_fork_error ForkError.busy = ApiError.conflict "session fork already in progress"
map_fork_error ForkError.parent_not_found = ApiError.not_found "parent session not found"
map_fork_error (ForkError.invalid_fork_point message) = ApiError.validation message
map_fork_error (ForkError.internal message) = ApiError.internal message

unfoldable pub map_compact_error : CompactSessionError → ApiError
map_compact_error CompactSessionError.busy = ApiError.conflict "session compact already in progress"
map_compact_error CompactSessionError.not_found = ApiError.not_found "session not found"
map_compact_error (CompactSessionError.invalid message) = ApiError.validation message
map_compact_error (CompactSessionError.internal message) = ApiError.internal message

unfoldable pub map_watch_error : SessionWatchError → ApiError
map_watch_error SessionWatchError.not_found = ApiError.not_found "session not found"
map_watch_error (SessionWatchError.internal message) = ApiError.internal message

-- What a stream makes of an item.
unfoldable pub stream_event :
    Result SendSessionError SendSessionEvent → Result ApiError SessionStreamEvent
unfolding map_send_error
stream_event (ok (SendSessionEvent.output_text_delta text)) =
    ok (SessionStreamEvent.output_text_delta text)
stream_event (ok SendSessionEvent.completed) = ok SessionStreamEvent.completed
stream_event (err e) = err (map_send_error e)

-- The error of a service on the way out.
abbrev pub mapped : {E A : Type 0} → (E → ApiError) → Result E A × World → Result ApiError A × World
mapped f (ok a, w) = (ok a, w)
mapped f (err e, w) = (err (f e), w)

abbrev pub with_api_error : {E A : Type 0} → (E → ApiError) → Exec World E A → Exec World ApiError A
with_api_error f m w = mapped f (m w)

abbrev pub no_session : ApiError
no_session = ApiError.not_found "session not found"

unfoldable pub create_session_with_id : String → Exec World ApiError Session
unfolding Query.create_session_with_id
create_session_with_id session_id = call ApiError.internal (Query.create_session_with_id session_id)

unfoldable pub get_session : String → Exec World ApiError Session
unfolding Query.get_session
get_session session_id = do
  found ← call ApiError.internal (Query.get_session session_id)
  lift (ok_or found no_session)

unfoldable pub list_session_messages : String → Exec World ApiError (List SessionMessage)
unfolding get_session Query.list_session_messages
list_session_messages session_id = do
  get_session session_id
  call ApiError.internal (Query.list_session_messages session_id)

-- `debug` is the derived `{:?}` of an error.
unfoldable pub get_session_watch_snapshot :
    (Error → String) → String → Exec World ApiError SessionWatchSnapshot
unfolding Projection.get_session_watch_snapshot
get_session_watch_snapshot debug session_id = do
  found ← call ApiError.internal (Projection.get_session_watch_snapshot debug session_id)
  lift (ok_or found no_session)

-- The events that are published after the subscription are an argument.
unfoldable pub watch_session :
    (Error → String)
    → String
    → List (String × SessionWatchEvent)
    → Exec World ApiError (List SessionWatchEvent)
unfolding Projection.watch_session map_watch_error
watch_session debug session_id later =
    call map_watch_error (Projection.watch_session debug session_id later)

unfoldable pub list_session_effects :
    (Error → String) → String → Exec World ApiError (List SessionEffect)
unfolding get_session list_effects
list_session_effects debug session_id = do
  get_session session_id
  call (λ e. ApiError.internal (debug e)) (list_effects session_id)

unfoldable pub list_session_compacts : String → Exec World ApiError (List Compact)
unfolding get_session Query.list_session_compacts
list_session_compacts session_id = do
  get_session session_id
  call ApiError.internal (Query.list_session_compacts session_id)

unfoldable pub list_session_tool_activities : String → Exec World ApiError (List ToolActivity)
unfolding get_session Query.list_session_tool_activities
list_session_tool_activities session_id = do
  get_session session_id
  call ApiError.internal (Query.list_session_tool_activities session_id)

abbrev or_no_session : Option SoulSession → Exec World ApiError SessionMemoryResponse
or_no_session none = raise no_session
or_no_session (some m) = pure (memory_response m)

unfoldable pub get_session_memory : String → Exec World ApiError SessionMemoryResponse
unfolding Memory.get_session_memory
get_session_memory session_id = do
  found ← call ApiError.internal (Memory.get_session_memory session_id)
  or_no_session found

unfoldable pub set_session_memory :
    String → String → String → Exec World ApiError SessionMemoryResponse
unfolding Memory.write_session_memory
set_session_memory default_soul_id session_id text = do
  written ← call ApiError.internal (Memory.write_session_memory default_soul_id session_id text)
  or_no_session written

unfoldable pub fork_session :
    (String → String) → ForkIds → String → ℤ → String → Exec World ApiError ForkResult
unfolding get_session Forking.fork_session map_fork_error
fork_session uuid_v5 ids session_id fork_point request_id = do
  get_session session_id
  with_api_error map_fork_error (Forking.fork_session uuid_v5 ids session_id fork_point request_id)

unfoldable pub compact_session : String → CompactIds → String → String → Exec World ApiError Compact
unfolding get_session Compacts.compact_session map_compact_error
compact_session default_soul_id ids session_id summary = do
  get_session session_id
  with_api_error map_compact_error (Compacts.compact_session default_soul_id ids session_id summary)

-- After the session was found, a stream is started; none when its fuel was not enough.
abbrev pub streaming :
    (World → Option (Result SendSessionError (Unit {0}) × World))
    → Result ApiError Session × World
    → Option (Result ApiError (Unit {0}) × World)
streaming start (err e, w) = some (err e, w)
streaming start (ok session, w) = started (start w)
  where
    started :
        Option (Result SendSessionError (Unit {0}) × World)
        → Option (Result ApiError (Unit {0}) × World)
    started none = none
    started (some p) = some (mapped map_send_error p)

unfoldable pub send_session :
    SessionTurnService
    → SendIds
    → Option HookRunner
    → String
    → String
    → ℕ
    → World
    → Option (Result ApiError (Unit {0}) × World)
unfolding get_session Streams.start map_send_error
send_session service ids hooks session_id user_content fuel w =
    streaming (Streams.start service ids hooks session_id user_content fuel)
      (get_session session_id w)

unfoldable pub reply_to_session_message :
    SessionTurnService
    → SendIds
    → Option HookRunner
    → String
    → String
    → ℕ
    → World
    → Option (Result ApiError (Unit {0}) × World)
unfolding get_session Streams.reply_to_session_message map_send_error
reply_to_session_message service ids hooks session_id message_id fuel w =
    streaming (Streams.reply_to_session_message service ids hooks session_id message_id fuel)
      (get_session session_id w)

-- soul.rs
abbrev or_no_soul : Option Soul → Result ApiError Soul
or_no_soul found = ok_or found (ApiError.not_found "soul not found")

unfoldable pub get_default_soul : String → Exec World ApiError Soul
unfolding Query.get_default_soul
get_default_soul default_soul_id = do
  found ← call ApiError.internal (Query.get_default_soul default_soul_id)
  lift (or_no_soul found)

unfoldable pub set_default_soul_memory : String → Exec World ApiError Soul
unfolding Tools.write_soul_memory
set_default_soul_memory text = do
  written ← call ApiError.internal (Tools.write_soul_memory "soul_default" text)
  lift (or_no_soul written)
