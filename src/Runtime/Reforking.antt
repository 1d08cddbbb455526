-- ===== src/Runtime/Reforking.antt =====
-- crates/santi-runtime/src/session/fork.rs: a fork that is asked for again.
use santi.Base.{
  ℕ, String, true, false, not, ◌≡◌, refl, sym, ap, ◌∙◌, subst, Option, none, some, List, [], ◌∷◌,
  ◌++◌, filter, find_by, str_eq, arith, Bool-cases, Option-cases, inl, inr, eq_refl, filter_all,
  find_by-In, find_by-append_found, find_by-append_last, ltb, leb, ◌&&◌,
}
use santi.Base.Int.{ℤ, pos, negsuc}
use santi.Base.Exec.{Result, ok, err, Result-cases, and_then, second}
use santi.Model.Error.{Error}
use santi.Model.Session.{SoulSession}
use santi.Lock.{acquire, release, holds}
use santi.Store.{Db, SoulSessionRow}
use santi.Store.Souls.{transpose, of_session, has_soul_id, fetch_session_soul, map_soul_session_row}
use santi.Store.Forks.{fork_soul_session, forked_row}
use santi.Store.Forked.{Forked, fork_soul_session-Forked}
use santi.Runtime.{World, publish, send_key}
use santi.Runtime.Watch.{SessionWatchActivityState}
use santi.Runtime.Forking.{
  ForkResult, ForkError, ForkIds, fork_session, fork_found, fork_existing, fork_new, fork_result,
  same_lineage, forked_session_id, checked_point, refuse_fork, fork_event,
}

abbrev soul_at : String → Db → Result Error (Option SoulSession)
soul_at session_id s = transpose (find_by (of_session session_id) s.soul_sessions)

module _ (uuid_v5 : String → String) (parent_session_id : String) (fork_point : ℤ)
    (request_id : String) where
  abbrev key : String
  key = send_key parent_session_id

  abbrev new_id : String
  new_id = forked_session_id uuid_v5 parent_session_id fork_point request_id

  abbrev result : ForkResult
  result = fork_result new_id parent_session_id fork_point

  -- The fork has been made: its key is free, and the soul session with the new id comes from it.
  record Settled (w : World) : Type 0 where
    free : holds w.held key ≡ false
    parent : SoulSession
    child : SoulSession
    has_parent : soul_at parent_session_id w.db ≡ ok (some parent)
    has_child : soul_at new_id w.db ≡ ok (some child)
    lineage : same_lineage parent fork_point child ≡ true

  given_back :
      (held : List String)
      → holds held key ≡ false
      → filter (λ k. not (str_eq key k)) (key ∷ held) ≡ held
  given_back held f =
      rw (eq_refl key) (filter_all (str_eq key) (λ k. not (str_eq key k)) held (λ k. refl) f)

  repeat_lem :
      (ids : ForkIds) (w : World)
      → Settled w
      → fork_session uuid_v5 ids parent_session_id fork_point request_id w ≡ (ok result, w)
  unfolding fork_session acquire release fetch_session_soul fork_found fork_existing
  repeat_lem ids w s =
      rw (s.free, s.has_parent, s.has_child, s.lineage, given_back w.held s.free) refl

  record Made (ids : ForkIds) (w : World) (r : ForkResult) (w' : World) : Type 0 where
    same_result : r ≡ result
    settled : Settled w'

  -- What the store made of the fork.
  abbrev forking : ForkIds → String → ℕ → Db → Result Error SoulSession × Db
  forking ids parent_id point =
      fork_soul_session ids.message_ids parent_id point ids.soul_session_id new_id

  checked_point-some : (p : ℤ) (next : ℕ) (n : ℕ) → checked_point p next ≡ some n → p ≡ pos n
  unfolding checked_point
  checked_point-some (pos m) next n h = elim (Bool-cases (leb 1 m && ltb m next)) [
    | inl e ↦ ground (arith, e, h)
    | inr e ↦ absurd (ground (arith, e, h))
  ]
  checked_point-some (negsuc m) next n h = absurd (ground (arith, h))

  soul_at-row :
      (id : String) (s : Db) (m : SoulSession)
      → soul_at id s ≡ ok (some m)
      → (row : SoulSessionRow) × (find_by (of_session id) s.soul_sessions ≡ some row)
        × (map_soul_session_row row ≡ ok m)
  soul_at-row id s m h = elim (Option-cases (find_by (of_session id) s.soul_sessions)) [
    | inl e ↦ absurd (ground (arith, e, h))
    | inr (row, e) ↦ elim (Result-cases (map_soul_session_row row)) [
      | inr (x, q) ↦ absurd (ground (arith, e, q, h))
      | inl (n, q) ↦ (row, e, ground (arith, e, q, h))
    ]
  ]

  -- The world after a fork that was new.
  abbrev made : World → Db → World
  made w db' = record w {
    db = db';
    published =
        (w.published
          ++ (
            parent_session_id,
            fork_event parent_session_id SessionWatchActivityState.started none,
          )
            ∷ [])
        ++ (
          parent_session_id,
          fork_event parent_session_id SessionWatchActivityState.completed (some new_id),
        )
          ∷ [];
  }

  module _ (ids : ForkIds) (w : World) (parent : SoulSession) (point : ℕ)
      (n : find_by (has_soul_id ids.soul_session_id) w.db.soul_sessions ≡ none)
      (f : holds w.held key ≡ false) (p : soul_at parent_session_id w.db ≡ ok (some parent))
      (c : soul_at new_id w.db ≡ ok none)
      (k : checked_point fork_point parent.next_seq ≡ some point) where
    new_step :
        (child : SoulSession) (db' : Db)
        → forking ids parent.id point w.db ≡ (ok child, db')
        → fork_session uuid_v5 ids parent_session_id fork_point request_id w
          ≡ (ok result, made w db')
    unfolding fork_session acquire release fetch_session_soul fork_found fork_new publish
    new_step child db' g = rw (f, p, c, k, g, given_back w.held f) refl

    still_parent :
        (child : SoulSession) (db' : Db)
        → Forked ids.message_ids parent.id point ids.soul_session_id new_id w.db child db'
        → soul_at parent_session_id db' ≡ ok (some parent)
    still_parent child db' made_fork =
        let (row, e, m) = soul_at-row parent_session_id w.db parent p in
        ap transpose (
          ap (find_by (of_session parent_session_id)) made_fork.new_row
          ∙ find_by-append_found (of_session parent_session_id) row w.db.soul_sessions _ e)
        ∙ ap (λ x. and_then x λ y. ok (some y)) m

    has_new :
        (child : SoulSession) (db' : Db)
        → Forked ids.message_ids parent.id point ids.soul_session_id new_id w.db child db'
        → soul_at new_id db' ≡ ok (some child)
    unfolding forked_row
    has_new child db' made_fork =
        ap transpose (
          ap (find_by (of_session new_id)) made_fork.new_row
          ∙ find_by-append_last (of_session new_id) w.db.soul_sessions _ made_fork.unused
              (eq_refl new_id))
        ∙ ap (λ x. and_then x λ y. ok (some y)) made_fork.child_row

    new_lineage :
        (child : SoulSession) (db' : Db)
        → Forked ids.message_ids parent.id point ids.soul_session_id new_id w.db child db'
        → same_lineage parent fork_point child ≡ true
    unfolding same_lineage
    new_lineage child db' made_fork =
        let (_, q) =
          find_by-In (has_soul_id parent.id) made_fork.parent w.db.soul_sessions
            made_fork.was_found in
        let at : fork_point ≡ pos point = checked_point-some fork_point parent.next_seq point k in
        rw (made_fork.descends.from_parent, made_fork.descends.at_point, q, at) (ground arith)

    new-Settled :
        (child : SoulSession) (db' : Db)
        → forking ids parent.id point w.db ≡ (ok child, db')
        → Settled (made w db')
    new-Settled child db' g =
        let made_fork =
          fork_soul_session-Forked ids.message_ids parent.id point ids.soul_session_id new_id w.db
            db' child n g in
        record {
          free = f;
          parent = parent;
          child = child;
          has_parent = still_parent child db' made_fork;
          has_child = has_new child db' made_fork;
          lineage = new_lineage child db' made_fork;
        }

  -- Both calls end alike: what the first one is equal to decides what it left.
  ends-Made :
      (ids : ForkIds) (w w' u : World) (r : ForkResult)
      → Settled u
      → fork_session uuid_v5 ids parent_session_id fork_point request_id w ≡ (ok result, u)
      → fork_session uuid_v5 ids parent_session_id fork_point request_id w ≡ (ok r, w')
      → Made ids w r w'
  ends-Made ids w w' u r s e h =
      let q : (let x : Result ForkError ForkResult × World = (ok r, w') in x ≡ (ok result, u)) =
        sym h ∙ e in
      record { same_result = ground (arith, q); settled = subst Settled (sym (ap second q)) s }

  module _ (ids : ForkIds) (w w' : World) (r : ForkResult)
      (n : find_by (has_soul_id ids.soul_session_id) w.db.soul_sessions ≡ none)
      (h : fork_session uuid_v5 ids parent_session_id fork_point request_id w ≡ (ok r, w'))
      (f : holds w.held key ≡ false) where
    stored-Made :
        (parent : SoulSession) (point : ℕ) (x : Result Error SoulSession × Db)
        → soul_at parent_session_id w.db ≡ ok (some parent)
        → soul_at new_id w.db ≡ ok none
        → checked_point fork_point parent.next_seq ≡ some point
        → forking ids parent.id point w.db ≡ x
        → Made ids w r w'
    unfolding fork_session acquire release fetch_session_soul fork_found fork_new
    stored-Made parent point (err e, db') p c k g = absurd (ground (arith, rw (f, p, c, k, g) at h))
    stored-Made parent point (ok child, db') p c k g =
        ends-Made ids w w' (made w db') r (new-Settled ids w parent point n f p c k child db' g)
          (new_step ids w parent point n f p c k child db' g) h

    point-Made :
        (parent : SoulSession) (o : Option ℕ)
        → soul_at parent_session_id w.db ≡ ok (some parent)
        → soul_at new_id w.db ≡ ok none
        → checked_point fork_point parent.next_seq ≡ o
        → Made ids w r w'
    unfolding fork_session acquire release fetch_session_soul fork_found fork_new refuse_fork
    point-Made parent none p c k = absurd (ground (arith, rw (f, p, c, k) at h))
    point-Made parent (some point) p c k =
        stored-Made parent point (forking ids parent.id point w.db) p c k refl

    child-Made :
        (parent : SoulSession) (o : Result Error (Option SoulSession))
        → soul_at parent_session_id w.db ≡ ok (some parent)
        → soul_at new_id w.db ≡ o
        → Made ids w r w'
    unfolding fork_session acquire release fetch_session_soul fork_found fork_existing refuse_fork
    child-Made parent (err e) p c = absurd (ground (arith, rw (f, p, c) at h))
    child-Made parent (ok none) p c =
        point-Made parent (checked_point fork_point parent.next_seq) p c refl
    child-Made parent (ok (some child)) p c =
        elim (Bool-cases (same_lineage parent fork_point child)) [
          | inr l ↦ absurd (ground (arith, rw (f, p, c, l) at h))
          | inl l ↦
              let s : Settled w = record {
                free = f;
                parent = parent;
                child = child;
                has_parent = p;
                has_child = c;
                lineage = l;
              } in
              ends-Made ids w w' w r s (repeat_lem ids w s) h
        ]

    parent-Made :
        (o : Result Error (Option SoulSession))
        → soul_at parent_session_id w.db ≡ o
        → Made ids w r w'
    unfolding fork_session acquire fetch_session_soul
    parent-Made (err e) p = absurd (ground (arith, rw (f, p) at h))
    parent-Made (ok none) p = absurd (ground (arith, rw (f, p) at h))
    parent-Made (ok (some parent)) p = child-Made parent (soul_at new_id w.db) p refl

  -- A fork that succeeded, with an unused id for its soul session, may be asked for again: the
  -- same request, whatever ids it draws, gives the same result and changes nothing, neither the
  -- store nor the lock nor the published events.
  pub fork_session_again :
      (ids later_ids : ForkIds) (w w' : World) (r : ForkResult)
      → find_by (has_soul_id ids.soul_session_id) w.db.soul_sessions ≡ none
      → fork_session uuid_v5 ids parent_session_id fork_point request_id w ≡ (ok r, w')
      → fork_session uuid_v5 later_ids parent_session_id fork_point request_id w' ≡ (ok r, w')
  unfolding fork_session acquire
  fork_session_again ids later_ids w w' r n h = elim (Bool-cases (holds w.held key)) [
    | inl f ↦ absurd (ground (arith, rw f at h))
    | inr f ↦
        let m = parent-Made ids w w' r n h f (soul_at parent_session_id w.db) refl in
        repeat_lem later_ids w' m.settled ∙ ap (λ x. (ok x, w')) (sym m.same_result)
  ]
