-- ===== src/Store/Counters.antt =====
-- crates/santi-db/src/adapter/standalone/soul_runtime: the counter `next_seq` of a soul session and
-- the numbers of its entries.
use santi.Base.{
  ℕ, ◌+◌, ◌≤◌, ◌<◌, String, Bool, false, ◌≡◌, refl, ap, sym, subst, Option, none, some, List, [],
  ◌∷◌, ◌++◌, any, find_by, update_where, arith, Bool-cases, inl, inr, In, here, there, any-In,
  append-In, eq_iff,
}
use santi.Model.Session.{SoulSessionEntry, SoulSessionTargetType}
use santi.Store.{Db, SoulSessionRow}
use santi.Store.Souls.{has_soul_id, advance, same_place}

abbrev pub counter : Option SoulSessionRow → ℕ
counter none = 0
counter (some row) = row.next_seq

-- The next number of a soul session, 0 for one that is not in the table.
abbrev pub next_in : String → List SoulSessionRow → ℕ
next_in id rows = counter (find_by (has_soul_id id) rows)

-- Every entry has a number that its soul session has already given out.
abbrev pub Numbered : Db → Type 0
Numbered s =
    (e : SoulSessionEntry)
    → In e s.items
    → e.soul_session_seq < next_in e.soul_session_id s.soul_sessions

-- A change of the table that lowers no counter.
abbrev pub Grows : List SoulSessionRow → List SoulSessionRow → Type 0
Grows rows rows' = (id : String) → next_in id rows ≤ next_in id rows'

pub Numbered-grow :
    (s s' : Db)
    → s'.items ≡ s.items
    → Grows s.soul_sessions s'.soul_sessions
    → Numbered s
    → Numbered s'
Numbered-grow s s' h g n e i = omega (arith, n e (subst (In e) h i), g e.soul_session_id)

-- An update that keeps the ids and lowers no counter.
pub update_where-Grows :
    (p : SoulSessionRow → Bool) (f : SoulSessionRow → SoulSessionRow) (rows : List SoulSessionRow)
    → ((row : SoulSessionRow) → (f row).id ≡ row.id)
    → ((row : SoulSessionRow) → row.next_seq ≤ (f row).next_seq)
    → Grows rows (update_where p f rows)
update_where-Grows p f [] keeps le id = omega arith
update_where-Grows p f (row ∷ rows) keeps le id =
    ground (arith, keeps row, le row, update_where-Grows p f rows keeps le id)

pub append-Grows :
    (rows : List SoulSessionRow) (new : SoulSessionRow) → Grows rows (rows ++ new ∷ [])
append-Grows [] new id = omega arith
append-Grows (row ∷ rows) new id = ground (arith, append-Grows rows new id)

pub advanced :
    (s : Db) (id : String) (rows : List SoulSessionRow) (row : SoulSessionRow)
    → find_by (has_soul_id id) rows ≡ some row
    → next_in id (update_where (has_soul_id id) (advance s) rows) ≡ row.next_seq + 1
advanced s id [] row h = absurd (ground (arith, h))
advanced s id (x ∷ rows) row h = ground (arith, h, advanced s id rows row)

abbrev pub entry_of : Db → String → SoulSessionTargetType → String → ℕ → SoulSessionEntry
entry_of s id target_type target_id seq = record {
  soul_session_id = id;
  target_type = target_type;
  target_id = target_id;
  soul_session_seq = seq;
  created_at = s.now;
}

-- The state after a number was given out and its entry written.
abbrev pub entered : Db → String → SoulSessionTargetType → String → SoulSessionRow → Db
entered s id target_type target_id row = record s {
  soul_sessions = update_where (has_soul_id id) (advance s) s.soul_sessions;
  items = s.items ++ entry_of s id target_type target_id row.next_seq ∷ [];
}

module _ (s : Db) (id : String) (target_type : SoulSessionTargetType) (target_id : String) where
  -- Under the invariant the number that is given out is free.
  pub no_conflict :
      (row : SoulSessionRow)
      → Numbered s
      → find_by (has_soul_id id) s.soul_sessions ≡ some row
      → any (same_place id row.next_seq) s.items ≡ false
  no_conflict row n h = elim (Bool-cases (any (same_place id row.next_seq) s.items)) [
    | inr e ↦ e
    | inl e ↦
        let (x, i, q) = any-In (same_place id row.next_seq) s.items e in
        let same : x.soul_session_id ≡ id = ground (arith, q, eq_iff x.soul_session_id id) in
        let number : x.soul_session_seq ≡ row.next_seq = ground (arith, q) in
        absurd (
          omega (
            arith,
            subst (λ k. x.soul_session_seq < next_in k s.soul_sessions) same (n x i),
            number,
            ap counter h,
          ))
  ]

  pub entered-Numbered :
      (row : SoulSessionRow)
      → find_by (has_soul_id id) s.soul_sessions ≡ some row
      → Numbered s
      → Numbered (entered s id target_type target_id row)
  entered-Numbered row h n e i = elim (append-In e s.items _ i) [
    | inl j ↦ omega (
      arith,
      n e j,
      update_where-Grows (has_soul_id id) (advance s) s.soul_sessions (λ r. refl) (λ r. omega arith)
          e.soul_session_id,
    )
    | inr (here q) ↦
        subst
          (λ x.
            x.soul_session_seq
            < next_in x.soul_session_id (update_where (has_soul_id id) (advance s) s.soul_sessions))
          (sym q) (omega (arith, advanced s id s.soul_sessions row h))
    | inr (there j) ↦ elim j [ ]
  ]
