-- ===== src/Lock/Examples.antt =====
-- The lock at a concrete run: another key is taken and given back while the first is held.
use santi.Base.{eq_iff}
use santi.Base.{false, true, ◌≡◌, refl, List, [], ◌∷◌, arith}
use santi.Base.Exec.{ok, err}
use santi.Model.Error.{LockError}
use santi.Lock.{LockGuard, acquire, release, holds}
use santi.Lock.Keys.{LockOperation, run_lock, acquire-release_exclusive, left, Spares}

abbrev guard : LockGuard
guard = record { key = "a" }

abbrev others : List LockOperation
others =
    LockOperation.acquiring "b"
    ∷ LockOperation.releasing (record { key = "b" })
    ∷ LockOperation.acquiring "a"
    ∷ []

acquired : acquire "a" [] ≡ (ok guard, "a" ∷ [])
unfolding acquire
acquired = refl

spared : Spares "a" others
spared = ((λ e. absurd (ground (arith, let h : false ≡ true = (eq_iff "b" "a").1 e in h))), tt)

acquire-release_exclusive_example :
    (acquire "a" (run_lock others ("a" ∷ [])) ≡ (err LockError.busy, run_lock others ("a" ∷ [])))
    × (holds (left (release guard (run_lock others ("a" ∷ [])))) "a" ≡ false)
acquire-release_exclusive_example =
    acquire-release_exclusive "a" [] ("a" ∷ []) guard others acquired spared
