-- ===== src/Runtime/Compacted.antt =====
-- crates/santi-runtime/src/session/compact.rs: what a compact that succeeds has done, and what one
-- that fails leaves held.
use santi.Base.{String, false, ◌≡◌, refl, none, ◌∷◌, eq_refl, find_by}
use santi.Base.Texts.{is_blank}
use santi.Base.Exec.{err}
use santi.Lock.{acquire, holds}
use santi.Store.Sessions.{get_session, has_id}
use santi.Runtime.{World, send_key}
use santi.Runtime.Compacts.{
  CompactRequest, CompactIds, CompactSessionError, compact_under, execute_compact, map_lock_error,
}

module _ (soul_id : String) (ids : CompactIds) (request : CompactRequest) (w : World) where
  abbrev key : String
  key = send_key request.session_id

  abbrev pub keeping_key : World
  keeping_key = record w { held = key ∷ w.held }

  -- A request with a summary for a session that is not in the store, when the key is free, is
  -- refused as not found and leaves the key of the session held: each later request for that
  -- session, whatever it asks, is refused as busy and changes nothing.
  pub unknown_session_stays_held :
      is_blank request.summary ≡ false
      → holds w.held key ≡ false
      → find_by (has_id request.session_id) w.db.sessions ≡ none
      → (execute_compact soul_id ids request w ≡ (err CompactSessionError.not_found, keeping_key))
        × ((later : CompactRequest) (later_ids : CompactIds)
            → later.session_id ≡ request.session_id
            → execute_compact soul_id later_ids later keeping_key
              ≡ (err CompactSessionError.busy, keeping_key))
  unfolding execute_compact compact_under acquire get_session map_lock_error
  unknown_session_stays_held b f n =
      (rw (f, b, n) refl, λ later later_ids same. rw (same, eq_refl key) refl)
