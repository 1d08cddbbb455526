-- ===== src/Store/Growth.antt =====
-- crates/santi-db/src/adapter/standalone/soul_runtime: the operations that add soul sessions and
-- write turns.
use santi.Base.{
  ℕ, suc, String, ◌≡◌, refl, ◌∙◌, subst, Option, List, [], ◌∷◌, any, find_by, arith, Bool-cases,
  Option-cases, inl, inr, In,
}
use santi.Base.Exec.{Exec, Result, ok, err, ◌>>=◌, continue, lift, ok_or}
use santi.Model.Error.{Error, not_found}
use santi.Model.Json.{Value}
use santi.Model.Session.{SoulSession}
use santi.Store.{Db, transaction, rolled_back, SoulSessionRow, MessageRow}
use santi.Store.Souls.{
  has_soul_id, of_session, map_soul_session_row, acquire_soul_session, ensure_soul_session,
  fetch_session_soul, standalone_soul_session_id, write_session_memory,
}
use santi.Store.Sessions.{has_id, conflicts}
use santi.Store.Forks.{
  fork_soul_session, soul_row, insert_forked_session, messages_up_to, copy_messages, insert_copy,
  forked_state, insert_forked_soul,
}
use santi.Store.Counters.{Grows, append-Grows, update_where-Grows}
use santi.Store.Valid.{Valid}

-- Entries and turns are as before, and no counter is lower.
abbrev pub Keeps : Db → Db → Type 0
Keeps s s' = (s'.items ≡ s.items) × (s'.turns ≡ s.turns) × Grows s.soul_sessions s'.soul_sessions

abbrev pub Kept : {A : Type 0} → Db → Result Error A × Db → Type 0
Kept s (r, s') = Keeps s s'

pub Keeps-Valid : (s s' : Db) → Keeps s s' → Valid s → Valid s'
Keeps-Valid s s' (i, t, g) (n, o) = (
  λ e j. omega (arith, n e (subst (In e) i j), g e.soul_session_id),
  λ e j. let (b, f) = o e (subst (In e) t j) in (omega (arith, b, g e.soul_session_id), f),
)

same : (s : Db) → Keeps s s
same s = (refl, refl, λ id. omega arith)

-- The rules: an action keeps if its parts do.
abbrev pub Keeping : {A : Type 0} → Exec Db Error A → Type 0
Keeping m = (s : Db) → Kept s (m s)

module _ {A B : Type 0} where
  continue-Kept :
      (s : Db) (p : Result Error A × Db) (f : A → Exec Db Error B)
      → Kept s p
      → ((a : A) → Keeping (f a))
      → Kept s (let (r, s') = p in continue r f s')
  continue-Kept s (err e, s') f k h = k
  continue-Kept s (ok a, s') f k h = both (f a s') k (h a s')
    where
      both : (q : Result Error B × Db) → Keeps s s' → Kept s' q → Kept s q
      both (r, u) (i, t, g) (i', t', g') = (i' ∙ i, t' ∙ t, λ id. omega (arith, g id, g' id))

  bind-Keeping :
      (m : Exec Db Error A) (f : A → Exec Db Error B)
      → Keeping m
      → ((a : A) → Keeping (f a))
      → Keeping (m >>= f)
  bind-Keeping m f k h s = continue-Kept s (m s) f (k s) h

module _ {A : Type 0} where
  lift-Keeping : (r : Result Error A) → Keeping (lift r)
  lift-Keeping r s = same s

  rolled_back-Kept :
      (s : Db) (p : Result Error A × Db) → Kept s p → Kept s (let (r, s') = p in rolled_back s r s')
  rolled_back-Kept s (ok a, s') k = k
  rolled_back-Kept s (err e, s') k = same s

  transaction-Keeping : (m : Exec Db Error A) → Keeping m → Keeping (transaction m)
  transaction-Keeping m k s = rolled_back-Kept s (m s) (k s)

ensure_soul_session-Keeping :
    (soul_id session_id : String) → Keeping (ensure_soul_session soul_id session_id)
unfolding ensure_soul_session
ensure_soul_session-Keeping soul_id session_id s =
    elim (Bool-cases (any (of_session session_id) s.soul_sessions)) [
      | inl e ↦ rw e (same s)
      | inr e ↦
          elim (Bool-cases
            (any (has_soul_id (standalone_soul_session_id session_id)) s.soul_sessions)) [
              | inl f ↦ rw (e, f) (same s)
              | inr f ↦ rw (e, f) (refl, refl, append-Grows s.soul_sessions _)
            ]
    ]

abbrev pub found_soul : Option SoulSession → Exec Db Error SoulSession
found_soul found = lift (ok_or found (not_found "standalone_soul_session"))

pub acquire_soul_session-Keeping :
    (soul_id session_id : String) → Keeping (acquire_soul_session soul_id session_id)
unfolding acquire_soul_session fetch_session_soul
acquire_soul_session-Keeping soul_id session_id =
    bind-Keeping (ensure_soul_session soul_id session_id) _
      (ensure_soul_session-Keeping soul_id session_id)
      (λ a.
        bind-Keeping (fetch_session_soul session_id) found_soul (λ s. same s)
          (λ found. lift-Keeping (ok_or found (not_found "standalone_soul_session"))))

pub write_session_memory-Keeping : (id memory : String) → Keeping (write_session_memory id memory)
unfolding write_session_memory
write_session_memory-Keeping id memory s = (
  refl,
  refl,
  update_where-Grows (has_soul_id id) _ s.soul_sessions (λ r. refl) (λ r. omega arith),
)

insert_forked_session-Keeping :
    (id parent : String) (point : ℕ) → Keeping (insert_forked_session id parent point)
unfolding insert_forked_session
insert_forked_session-Keeping id parent point s = elim (Bool-cases (any (has_id id) s.sessions)) [
  | inl e ↦ rw e (same s)
  | inr e ↦ rw e (same s)
]

insert_copy-Keeping :
    (id session_id : String) (row : MessageRow) → Keeping (insert_copy id session_id row)
unfolding insert_copy
insert_copy-Keeping id session_id row s =
    elim (Bool-cases (any (conflicts id session_id row.session_seq) s.session_messages)) [
      | inl e ↦ rw e (same s)
      | inr e ↦ rw e (same s)
    ]

copy_messages-Keeping :
    (fresh : ℕ → String) (i : ℕ) (session_id : String) (rows : List MessageRow)
    → Keeping (copy_messages fresh i session_id rows)
unfolding copy_messages
copy_messages-Keeping fresh i session_id [] = λ s. same s
copy_messages-Keeping fresh i session_id (row ∷ rows) =
    bind-Keeping (insert_copy (fresh i) session_id row) _
      (insert_copy-Keeping (fresh i) session_id row)
      (λ a. copy_messages-Keeping fresh (suc i) session_id rows)

insert_forked_soul-Keeping :
    (parent : SoulSessionRow) (state : Option Value) (point : ℕ) (id session_id : String)
    → Keeping (insert_forked_soul parent state point id session_id)
unfolding insert_forked_soul
insert_forked_soul-Keeping parent state point id session_id s =
    elim (Option-cases (find_by (has_soul_id id) s.soul_sessions)) [
      | inr (row, e) ↦ rw e (same s)
      | inl e ↦ elim (Bool-cases (any (of_session session_id) s.soul_sessions)) [
        | inl f ↦ rw (e, f) (same s)
        | inr f ↦ rw (e, f) (refl, refl, append-Grows s.soul_sessions _)
      ]
    ]

module _ (fresh : ℕ → String) (parent_id : String) (point : ℕ) (id session_id : String) where
  -- The transaction of a fork from its last action to its first.
  abbrev pub adding : SoulSessionRow → Exec Db Error SoulSessionRow
  adding parent = lift (forked_state point parent.provider_state) >>= λ state.
      insert_forked_soul parent state point id session_id

  abbrev pub copying : SoulSessionRow → List MessageRow → Exec Db Error SoulSessionRow
  copying parent messages = copy_messages fresh 0 session_id messages >>= λ _. adding parent

  abbrev pub reading : SoulSessionRow → Exec Db Error SoulSessionRow
  reading parent = messages_up_to parent.session_id point >>= copying parent

  abbrev pub forking : SoulSessionRow → Exec Db Error SoulSessionRow
  forking parent = insert_forked_session session_id parent.session_id point >>= λ _. reading parent

  adding-Keeping : (parent : SoulSessionRow) → Keeping (adding parent)
  adding-Keeping parent =
      bind-Keeping (lift (forked_state point parent.provider_state))
        (λ state. insert_forked_soul parent state point id session_id)
        (lift-Keeping (forked_state point parent.provider_state))
        (λ state. insert_forked_soul-Keeping parent state point id session_id)

  reading-Keeping : (parent : SoulSessionRow) → Keeping (reading parent)
  unfolding messages_up_to
  reading-Keeping parent =
      bind-Keeping (messages_up_to parent.session_id point) (copying parent) (λ s. same s)
        λ messages.
          bind-Keeping (copy_messages fresh 0 session_id messages) (λ _. adding parent)
            (copy_messages-Keeping fresh 0 session_id messages) λ _. adding-Keeping parent

  forking-Keeping : (parent : SoulSessionRow) → Keeping (forking parent)
  forking-Keeping parent =
      bind-Keeping (insert_forked_session session_id parent.session_id point) (λ _. reading parent)
        (insert_forked_session-Keeping session_id parent.session_id point)
        λ _. reading-Keeping parent

  pub fork_soul_session-Keeping : Keeping (fork_soul_session fresh parent_id point id session_id)
  unfolding fork_soul_session soul_row
  fork_soul_session-Keeping =
      bind-Keeping (transaction (soul_row parent_id >>= forking))
        (λ row. lift (map_soul_session_row row))
        (transaction-Keeping (soul_row parent_id >>= forking)
          (bind-Keeping (soul_row parent_id) forking (λ s. same s) forking-Keeping))
        (λ row. lift-Keeping (map_soul_session_row row))
