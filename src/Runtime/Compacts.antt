-- ===== src/Runtime/Compacts.antt =====
-- crates/santi-runtime/src/session/compact.rs. The ids that the code draws are arguments. A range
-- that a caller gives has numbers that the store counted.
use santi.Base.{ℕ, String, ltb, Option, none, some, [], ◌∷◌, last?, if◌then◌else◌}
use santi.Base.Texts.{format, trim, is_blank}
use santi.Base.Exec.{Exec, pure, raise, lift, ok_or, ◌>>=◌, ◌>>◌}
use santi.Model.Error.{Error, LockError}
use santi.Model.Session.{Compact, TurnTriggerType, AssemblyTarget, SoulSession}
use santi.Lock.{LockGuard, acquire, release}
use santi.Store.Mapping.{option_map}
use santi.Store.Sessions.{get_session, list_messages}
use santi.Store.Souls.{acquire_soul_session}
use santi.Store.Turns.{start_turn, complete_turn}
use santi.Store.Items.{append_compact}
use santi.Runtime.{World, call, lock_call, publish, send_key}
use santi.Runtime.Watch.{SessionWatchEvent, SessionWatchActivityKind, SessionWatchActivityState}

pub data CompactReason : Type 0 where
  manual threshold handoff : CompactReason

pub record CompactRequest : Type 0 where
  pub session_id : String
  pub summary : String
  pub start_session_seq : Option ℕ
  pub end_session_seq : Option ℕ
  pub reason : CompactReason

pub data CompactSessionError : Type 0 where
  busy not_found : CompactSessionError
  invalid internal : String → CompactSessionError

unfoldable pub render_error : Error → CompactSessionError
unfolding format
render_error (Error.not_found resource) = not_found
render_error (Error.busy resource) = internal (format (resource ∷ " busy" ∷ []))
render_error (Error.invalid_input message) = invalid message
render_error (Error.upstream message) = internal message
render_error (Error.internal message) = internal message

unfoldable pub map_lock_error : LockError → CompactSessionError
map_lock_error LockError.busy = busy
map_lock_error LockError.lost = internal "session compact lock lost"
map_lock_error (LockError.backend message) = internal message

-- `{:?}` of a reason.
unfoldable pub debug_reason : CompactReason → String
debug_reason manual = "Manual"
debug_reason threshold = "Threshold"
debug_reason handoff = "Handoff"

abbrev pub unwrap_or : Option ℕ → ℕ → ℕ
unwrap_or (some n) d = n
unwrap_or none d = d

unfoldable pub compact_event : String → SessionWatchActivityState → SessionWatchEvent
compact_event session_id state = SessionWatchEvent.activity_changed (record {
  session_id = session_id;
  activity = SessionWatchActivityKind.compact;
  state = state;
  label = none;
})

-- The two branches that give the guard back before they refuse.
unfoldable pub refuse : {A : Type 0} → LockGuard → String → Exec World CompactSessionError A
unfolding release map_lock_error
refuse guard message = do lock_call map_lock_error (release guard); raise (invalid message)

unfoldable pub announce : String → AssemblyTarget → Exec World CompactSessionError Compact
unfolding publish compact_event
announce session_id (AssemblyTarget.compact compact) = do
  publish session_id (compact_event session_id SessionWatchActivityState.completed)
  pure compact
announce session_id _ = raise (internal "unexpected assembly target while compacting session")

-- The drawn ids: of the turn and of the compact.
pub record CompactIds : Type 0 where
  pub turn_id : String
  pub compact_id : String

unfoldable pub write_compact :
    CompactIds
    → LockGuard
    → CompactRequest
    → SoulSession
    → ℕ
    → ℕ
    → Exec World CompactSessionError Compact
unfolding publish compact_event start_turn append_compact complete_turn render_error map_lock_error
    debug_reason format trim release announce
write_compact ids guard request soul_session start_session_seq end_session_seq = do
  publish request.session_id (compact_event request.session_id SessionWatchActivityState.started)
  turn ← call render_error (
      start_turn (record {
        turn_id = ids.turn_id;
        soul_session_id = soul_session.id;
        trigger_type = TurnTriggerType.system;
        trigger_ref = some (format ("session_compact:" ∷ debug_reason request.reason ∷ []));
        input_through_session_seq = end_session_seq;
      }))
  compact ← call render_error (
      append_compact (record {
        compact_id = ids.compact_id;
        turn_id = turn.id;
        summary = trim request.summary;
        start_session_seq = start_session_seq;
        end_session_seq = end_session_seq;
      }))
  call render_error (
      complete_turn (record {
        turn_id = turn.id;
        last_seen_session_seq = end_session_seq;
        provider_state = none;
      }))
  lock_call map_lock_error (release guard)
  announce request.session_id compact.target

unfoldable pub compact_under :
    String → CompactIds → LockGuard → CompactRequest → Exec World CompactSessionError Compact
unfolding get_session list_messages acquire_soul_session render_error refuse write_compact
compact_under default_soul_id ids guard request = do
  found ← call render_error (get_session request.session_id)
  session ← lift (ok_or found not_found)
  messages ← call render_error (list_messages request.session_id none)
  computed_end_session_seq ← lift (
      ok_or (option_map (λ m. m.relation.session_seq) (last? messages))
        (invalid "cannot compact empty session"))
  soul_session ← call render_error (acquire_soul_session default_soul_id session.id)
  let start_session_seq = unwrap_or request.start_session_seq 1 in
      let end_session_seq = unwrap_or request.end_session_seq computed_end_session_seq in
      if ltb end_session_seq start_session_seq
      then refuse guard "no uncompacted session range"
      else write_compact ids guard request soul_session start_session_seq end_session_seq

unfoldable pub execute_compact :
    String → CompactIds → CompactRequest → Exec World CompactSessionError Compact
unfolding acquire map_lock_error is_blank refuse compact_under send_key
execute_compact default_soul_id ids request = do
  guard ← lock_call map_lock_error (acquire (send_key request.session_id))
  if is_blank request.summary
      then refuse guard "expected non-empty compact summary"
      else compact_under default_soul_id ids guard request

unfoldable pub compact_session :
    String → CompactIds → String → String → Exec World CompactSessionError Compact
unfolding execute_compact
compact_session default_soul_id ids session_id summary =
    execute_compact default_soul_id ids (record {
      session_id = session_id;
      summary = summary;
      start_session_seq = none;
      end_session_seq = none;
      reason = manual;
    })
