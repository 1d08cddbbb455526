-- ===== src/Lock/Keys.antt =====
-- crates/santi-lock/src/adapter/standalone.rs: the guards of a key.
use santi.Base.{
  filter_all, String, Bool, true, false, not, ◌≡◌, ◌≢◌, refl, ◌∙◌, List, [], ◌∷◌, filter, str_eq,
  arith, eq_iff, eq_refl, Bool-cases, inl, inr,
}
use santi.Base.Exec.{Result, ok, err}
use santi.Model.Error.{LockError}
use santi.Lock.{LockGuard, acquire, release, holds}

-- What the holders of other keys may do.
pub data LockOperation : Type 0 where
  acquiring : String → LockOperation
  releasing : LockGuard → LockOperation

abbrev pub left : {A : Type 0} → Result LockError A × List String → List String
left (r, held) = held

unfoldable pub run_lock : List LockOperation → List String → List String
unfolding acquire release
run_lock [] held = held
run_lock (LockOperation.acquiring key ∷ ops) held = run_lock ops (left (acquire key held))
run_lock (LockOperation.releasing guard ∷ ops) held = run_lock ops (left (release guard held))

-- None of the operations releases the key.
abbrev pub Spares : String → List LockOperation → Type 0
Spares key [] = Unit {0}
Spares key (LockOperation.acquiring k ∷ ops) = Spares key ops
Spares key (LockOperation.releasing guard ∷ ops) = (guard.key ≢ key) × Spares key ops

abbrev without : String → String → Bool
without key k = not (str_eq key k)

holds-filter_other :
    (key other : String) (held : List String)
    → key ≢ other
    → holds (filter (without key) held) other ≡ holds held other
holds-filter_other key other [] h = refl
holds-filter_other key other (k ∷ held) h =
    ground (arith, eq_iff key k, eq_iff other k, holds-filter_other key other held h)

holds-filter_same :
    (key : String) (held : List String) → holds (filter (without key) held) key ≡ false
holds-filter_same key [] = refl
holds-filter_same key (k ∷ held) = ground (arith, holds-filter_same key held)

holds-acquire :
    (key k : String) (held : List String)
    → holds held key ≡ true
    → holds (left (acquire k held)) key ≡ true
unfolding acquire
holds-acquire key k held h = elim (Bool-cases (holds held k)) [
  | inl e ↦ rw e h
  | inr e ↦ rw e (ground (arith, h))
]

holds-run :
    (key : String) (ops : List LockOperation) (held : List String)
    → Spares key ops
    → holds held key ≡ true
    → holds (run_lock ops held) key ≡ true
unfolding run_lock release
holds-run key [] held p h = h
holds-run key (LockOperation.acquiring k ∷ ops) held p h =
    holds-run key ops (left (acquire k held)) p (holds-acquire key k held h)
holds-run key (LockOperation.releasing guard ∷ ops) held (n, p) h =
    holds-run key ops (left (release guard held)) p (holds-filter_other guard.key key held n ∙ h)

acquired_is_held :
    (key : String) (held held' : List String) (guard : LockGuard)
    → acquire key held ≡ (ok guard, held')
    → (guard.key ≡ key) × (holds held' key ≡ true)
unfolding acquire
acquired_is_held key held held' guard h = elim (Bool-cases (holds held key)) [
  | inl e ↦ absurd (ground (arith, e, h))
  | inr e ↦ ground (arith, e, h, eq_refl key)
]

-- Between the acquisition of a key and a release of it, whatever is acquired and released besides,
-- every acquisition of that key is refused as busy; once its guard is released it is free again.
pub acquire-release_exclusive :
    (key : String) (held held' : List String) (guard : LockGuard) (ops : List LockOperation)
    → acquire key held ≡ (ok guard, held')
    → Spares key ops
    → (acquire key (run_lock ops held') ≡ (err LockError.busy, run_lock ops held'))
      × (holds (left (release guard (run_lock ops held'))) key ≡ false)
unfolding acquire release
acquire-release_exclusive key held held' guard ops h p =
    let (same, kept) = acquired_is_held key held held' guard h in
    (rw (holds-run key ops held' p kept) refl, rw same (holds-filter_same key (run_lock ops held')))

-- A key that was free, taken and given back.
pub taken_and_given_back :
    (key : String) (held : List String)
    → holds held key ≡ false
    → filter (λ k. not (str_eq key k)) (key ∷ held) ≡ held
taken_and_given_back key held h =
    rw (eq_refl key) (filter_all (str_eq key) (λ k. not (str_eq key k)) held (λ k. refl) h)
