-- ===== src/Runtime/Forking.antt =====
-- crates/santi-runtime/src/session/fork.rs. `uuid_v5` is the name-based UUID of a text in the OID
-- namespace; the ids that the code draws are arguments.
use santi.Base.{ℕ, String, Bool, ltb, leb, ◌&&◌, Option, none, some, [], ◌∷◌, str_eq, if◌then◌else◌}
use santi.Base.Int.{ℤ, pos, negsuc, eq_ℤ, decimal_ℤ}
use santi.Base.Texts.{format, decimal}
use santi.Base.Exec.{Exec, pure, raise, lift, ok_or, ◌>>=◌, ◌>>◌}
use santi.Model.Error.{Error, LockError}
use santi.Model.Session.{SoulSession}
use santi.Lock.{LockGuard, acquire, release}
use santi.Store.Souls.{fetch_session_soul}
use santi.Store.Forks.{fork_soul_session}
use santi.Runtime.{World, call, lock_call, publish, send_key}
use santi.Runtime.Watch.{SessionWatchEvent, SessionWatchActivityKind, SessionWatchActivityState}

pub record ForkResult : Type 0 where
  pub new_session_id : String
  pub parent_session_id : String
  pub fork_point : ℤ

pub data ForkError : Type 0 where
  busy parent_not_found : ForkError
  invalid_fork_point internal : String → ForkError

unfoldable pub map_core_error : Error → ForkError
unfolding format
map_core_error (Error.not_found resource) = parent_not_found
map_core_error (Error.busy resource) = internal (format (resource ∷ " busy" ∷ []))
map_core_error (Error.invalid_input message) = invalid_fork_point message
map_core_error (Error.upstream message) = internal message
map_core_error (Error.internal message) = internal message

unfoldable pub map_lock_error : LockError → ForkError
map_lock_error LockError.busy = busy
map_lock_error LockError.lost = internal "fork session lock lost"
map_lock_error (LockError.backend message) = internal message

-- A fork point that is at least 1 and below the parent's next number.
unfoldable pub checked_point : ℤ → ℕ → Option ℕ
checked_point (pos n) next_seq = if leb 1 n && ltb n next_seq then some n else none
checked_point (negsuc n) next_seq = none

unfoldable pub forked_session_id : (String → String) → String → ℤ → String → String
unfolding format decimal_ℤ
forked_session_id uuid_v5 parent_session_id fork_point request_id = format (
    "sess_"
    ∷ uuid_v5 (
        format
          ("santi_fork:" ∷ parent_session_id ∷ ":" ∷ decimal_ℤ fork_point ∷ ":" ∷ request_id ∷ []))
    ∷ [])

unfoldable pub fork_event : String → SessionWatchActivityState → Option String → SessionWatchEvent
fork_event session_id state label = SessionWatchEvent.activity_changed (record {
  session_id = session_id;
  activity = SessionWatchActivityKind.fork;
  state = state;
  label = label;
})

abbrev pub is_parent : String → Option String → Bool
is_parent id none = Bool.false
is_parent id (some parent) = str_eq parent id

abbrev pub is_point : ℤ → Option ℤ → Bool
is_point point none = Bool.false
is_point point (some p) = eq_ℤ p point

-- The soul session with the new id comes from the same fork.
unfoldable pub same_lineage : SoulSession → ℤ → SoulSession → Bool
same_lineage parent fork_point existing =
    is_parent parent.id existing.parent_soul_session_id && is_point fork_point existing.fork_point

unfoldable pub refuse_fork : {A : Type 0} → LockGuard → ForkError → Exec World ForkError A
unfolding release map_lock_error
refuse_fork guard error = do lock_call map_lock_error (release guard); raise error

abbrev pub fork_result : String → String → ℤ → ForkResult
fork_result new_session_id parent_session_id fork_point = record {
  new_session_id = new_session_id;
  parent_session_id = parent_session_id;
  fork_point = fork_point;
}

-- The ids that are drawn: of the soul session and of the copies of the messages.
pub record ForkIds : Type 0 where
  pub soul_session_id : String
  pub message_ids : ℕ → String

unfoldable pub fork_existing :
    LockGuard → String → ℤ → String → SoulSession → SoulSession → Exec World ForkError ForkResult
unfolding release map_lock_error refuse_fork same_lineage
fork_existing guard parent_session_id fork_point new_session_id parent existing =
    if same_lineage parent fork_point existing
    then (do
      lock_call map_lock_error (release guard)
      pure (fork_result new_session_id parent_session_id fork_point))
    else refuse_fork guard (internal "existing fork session id collided with incompatible lineage")

unfoldable pub fork_new :
    ForkIds
    → LockGuard
    → String
    → ℤ
    → String
    → SoulSession
    → Option ℕ
    → Exec World ForkError ForkResult
unfolding release map_lock_error map_core_error refuse_fork fork_event publish fork_soul_session
    format decimal decimal_ℤ
fork_new ids guard parent_session_id fork_point new_session_id parent none = refuse_fork guard (
    invalid_fork_point (
      format (
        "illegal fork_point "
        ∷ decimal_ℤ fork_point
        ∷ ": must be 1 <= fp < "
        ∷ decimal parent.next_seq
        ∷ [])))
fork_new ids guard parent_session_id fork_point new_session_id parent (some point) = do
  publish parent_session_id (fork_event parent_session_id SessionWatchActivityState.started none)
  call map_core_error
      (fork_soul_session ids.message_ids parent.id point ids.soul_session_id new_session_id)
  lock_call map_lock_error (release guard)
  publish parent_session_id
      (fork_event parent_session_id SessionWatchActivityState.completed (some new_session_id))
  pure (fork_result new_session_id parent_session_id fork_point)

unfoldable pub fork_found :
    ForkIds
    → LockGuard
    → String
    → ℤ
    → String
    → SoulSession
    → Option SoulSession
    → Exec World ForkError ForkResult
unfolding fork_existing fork_new checked_point
fork_found ids guard parent_session_id fork_point new_session_id parent (some existing) =
    fork_existing guard parent_session_id fork_point new_session_id parent existing
fork_found ids guard parent_session_id fork_point new_session_id parent none =
    fork_new ids guard parent_session_id fork_point new_session_id parent
      (checked_point fork_point parent.next_seq)

unfoldable pub fork_session :
    (String → String) → ForkIds → String → ℤ → String → Exec World ForkError ForkResult
unfolding acquire map_lock_error map_core_error send_key fetch_session_soul forked_session_id
    fork_found
fork_session uuid_v5 ids parent_session_id fork_point request_id = do
  guard ← lock_call map_lock_error (acquire (send_key parent_session_id))
  found ← call map_core_error (fetch_session_soul parent_session_id)
  parent ← lift (ok_or found parent_not_found)
  existing ←
      call map_core_error
        (fetch_session_soul (forked_session_id uuid_v5 parent_session_id fork_point request_id))
  fork_found ids guard parent_session_id fork_point
      (forked_session_id uuid_v5 parent_session_id fork_point request_id) parent existing
