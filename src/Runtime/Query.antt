-- ===== src/Runtime/Query.antt =====
-- crates/santi-runtime/src/session/query.rs, whose `render_error` is the same function as that of
-- effect.rs.
use santi.Base.{String, Option, none, some, List, []}
use santi.Base.Exec.{Exec, pure, map_error, ◌>>=◌}
use santi.Model.Session.{Session, SessionMessage, SoulSession, Compact, ToolActivity, Soul}
use santi.Store.{Db}
use santi.Store.Sessions as Sessions
use santi.Store.Sessions.{list_messages}
use santi.Store.Souls.{fetch_session_soul}
use santi.Store.SoulStore.{get_soul}
use santi.Store.Listings.{list_compacts, list_tool_activities}
use santi.Runtime.Handoff.{render_core_error}

-- `create_session` draws the id.
unfoldable pub create_session_with_id : String → Exec Db String Session
unfolding Sessions.create_session render_core_error
create_session_with_id session_id = map_error render_core_error (Sessions.create_session session_id)

unfoldable pub get_session : String → Exec Db String (Option Session)
unfolding Sessions.get_session render_core_error
get_session session_id = map_error render_core_error (Sessions.get_session session_id)

unfoldable pub list_session_messages : String → Exec Db String (List SessionMessage)
unfolding list_messages render_core_error
list_session_messages session_id = map_error render_core_error (list_messages session_id none)

abbrev compacts_of : Option SoulSession → Exec Db String (List Compact)
compacts_of none = pure []
compacts_of (some soul_session) = map_error render_core_error (list_compacts soul_session.id)

unfoldable pub list_session_compacts : String → Exec Db String (List Compact)
unfolding fetch_session_soul list_compacts render_core_error
list_session_compacts session_id =
    map_error render_core_error (fetch_session_soul session_id) >>= compacts_of

abbrev activities_of : Option SoulSession → Exec Db String (List ToolActivity)
activities_of none = pure []
activities_of (some soul_session) =
    map_error render_core_error (list_tool_activities soul_session.id)

unfoldable pub list_session_tool_activities : String → Exec Db String (List ToolActivity)
unfolding fetch_session_soul list_tool_activities render_core_error
list_session_tool_activities session_id =
    map_error render_core_error (fetch_session_soul session_id) >>= activities_of

unfoldable pub get_default_soul : String → Exec Db String (Option Soul)
unfolding get_soul render_core_error
get_default_soul default_soul_id = map_error render_core_error (get_soul default_soul_id)
