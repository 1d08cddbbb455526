-- ===== src/Runtime.antt =====
-- crates/santi-runtime: what the services share, in standalone mode. The state is the store, the
-- keys that are held, the events that were published, and what was sent to the caller of a send.
pub mod Watch
pub mod Channel
pub mod Memory
pub mod MemoryExamples
pub mod Compacts
pub mod Compacted
pub mod Writing
pub mod Compacting
pub mod CompactExamples
pub mod Forking
pub mod Reforking
pub mod Handoff
pub mod Finishing
pub mod Handed
pub mod HandoffExamples
pub mod HookRuntime
pub mod HookRecords
pub mod Calls
pub mod Query
pub mod Projection
pub mod Examples
use santi.Base.{String, List, [], ◌∷◌, ◌++◌}
use santi.Base.Texts.{format}
use santi.Base.Exec.{Exec, Result, ok, err, map_err}
use santi.Model.Error.{LockError}
use santi.Lock.{LockGuard, acquire, release}
use santi.Store.{Db}
use santi.Runtime.Watch.{SessionWatchEvent}
use santi.Runtime.Channel.{SendSessionError, SendSessionEvent}

pub record World : Type 0 where
  pub db : Db
  pub held : List String
  pub published : List (String × SessionWatchEvent)
  pub sent : List (Result SendSessionError SendSessionEvent)

abbrev pub after_call : {F E A : Type 0} → (F → E) → World → Result F A × Db → Result E A × World
after_call f w (r, db') = (map_err f r, record w { db = db' })

-- A call of a port, its error mapped by `f`.
abbrev pub call : {F E A : Type 0} → (F → E) → Exec Db F A → Exec World E A
call f m w = after_call f w (m w.db)

abbrev pub after_lock_call :
    {E A : Type 0} → (LockError → E) → World → Result LockError A × List String → Result E A × World
after_lock_call f w (r, held') = (map_err f r, record w { held = held' })

abbrev pub lock_call :
    {E A : Type 0} → (LockError → E) → Exec (List String) LockError A → Exec World E A
lock_call f m w = after_lock_call f w (m w.held)

-- `SessionWatchHub::publish`.
unfoldable pub publish : {E : Type 0} → String → SessionWatchEvent → Exec World E (Unit {0})
publish session_id event w =
    (ok tt, record w { published = w.published ++ (session_id, event) ∷ [] })

unfoldable pub send_key : String → String
unfolding format
send_key session_id = format ("lock:session_send:" ∷ session_id ∷ [])
