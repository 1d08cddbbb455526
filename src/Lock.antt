-- ===== src/Lock.antt =====
-- crates/santi-lock/src/adapter/standalone.rs: the keys that are held in one process. The mutex
-- around the set is never poisoned, since no code panics while it holds it.
pub mod Keys
pub mod Examples
use santi.Base.{String, Bool, not, List, ◌∷◌, any, filter, str_eq, if◌then◌else◌}
use santi.Base.Exec.{Exec, ok, err}
use santi.Model.Error.{LockError, busy}

-- `InProcessLockGuard`: what `release` needs. It has no `Drop`, so a guard that is dropped leaves
-- its key held.
pub record LockGuard : Type 0 where
  pub key : String

abbrev pub holds : List String → String → Bool
holds held key = any (str_eq key) held

unfoldable pub acquire : String → Exec (List String) LockError LockGuard
acquire key held =
    if holds held key then (err busy, held) else (ok (record { key = key }), key ∷ held)

unfoldable pub release : LockGuard → Exec (List String) LockError (Unit {0})
release guard held = (ok tt, filter (λ k. not (str_eq guard.key k)) held)
