-- ===== src/Store/ForkSteps.antt =====
-- crates/santi-db/src/adapter/standalone/soul_runtime/fork.rs: what the steps of a fork do.
use santi.Base.{
  ℕ, suc, String, false, ◌≡◌, refl, sym, ap, ◌∙◌, Option, none, List, [], ◌∷◌, ◌++◌, any, find_by,
  arith, Bool-cases, inl, inr, append-nil, append_assoc,
}
use santi.Base.Exec.{Exec, Result, ok, err, bind-ok, second}
use santi.Model.Error.{Error}
use santi.Model.Json.{Value}
use santi.Base.Int.{pos}
use santi.Base.{true, some, ◌⊎◌}
use santi.Store.{Db, SessionRow, MessageRow, SoulSessionRow, transaction, rolled_back}
use santi.Store.Sessions.{has_id, conflicts}
use santi.Store.Souls.{has_soul_id, of_session}
use santi.Store.Forks.{
  insert_forked_session, insert_copy, copy_of, copy_messages, forked_row, insert_forked_soul,
}

pub transaction-ok :
    {A : Type 0} (m : Exec Db Error A) (s : Db) (a : A) (u : Db)
    → transaction m s ≡ (ok a, u)
    → m s ≡ (ok a, u)
transaction-ok m s a u h = split (m s) refl h
  where
    split :
        (p : Result Error _ × Db)
        → m s ≡ p
        → (let (r, t) = p in rolled_back s r t) ≡ (ok a, u)
        → m s ≡ (ok a, u)
    split (ok x, t) e k = e ∙ k
    split (err x, t) e k = absurd (ground (arith, k))

-- The copies of some rows.
abbrev pub copies : String → (ℕ → String) → ℕ → String → List MessageRow → List MessageRow
copies now fresh i session_id [] = []
copies now fresh i session_id (row ∷ rows) =
    copy_of now (fresh i) session_id row ∷ copies now fresh (suc i) session_id rows

-- `s` with other messages.
abbrev pub with_messages : Db → List MessageRow → Db
with_messages s rows = record s { session_messages = rows }

insert_copy-ok :
    (id session_id : String) (row : MessageRow) (s u : Db) (a : Unit {0})
    → insert_copy id session_id row s ≡ (ok a, u)
    → u ≡ with_messages s (s.session_messages ++ copy_of s.now id session_id row ∷ [])
unfolding insert_copy
insert_copy-ok id session_id row s u a h =
    elim (Bool-cases (any (conflicts id session_id row.session_seq) s.session_messages)) [
      | inl e ↦ absurd (ground (arith, e, h))
      | inr e ↦ ground (arith, e, h)
    ]

pub copy_messages-ok :
    (fresh : ℕ → String) (i : ℕ) (session_id : String) (rows : List MessageRow) (s u : Db)
    (a : Unit {0})
    → copy_messages fresh i session_id rows s ≡ (ok a, u)
    → u ≡ with_messages s (s.session_messages ++ copies s.now fresh i session_id rows)
unfolding copy_messages
copy_messages-ok fresh i session_id [] s u a h =
    sym (ap second h) ∙ ap (with_messages s) (sym (append-nil s.session_messages))
copy_messages-ok fresh i session_id (row ∷ rows) s u a h =
    let (b, t, k, l) =
      bind-ok (insert_copy (fresh i) session_id row)
        (λ _. copy_messages fresh (suc i) session_id rows) s a u h in
    let e = insert_copy-ok (fresh i) session_id row s t b k in
    let f = copy_messages-ok fresh (suc i) session_id rows t u a l in
    f
    ∙ ap (λ d. with_messages d (d.session_messages ++ copies d.now fresh (suc i) session_id rows)) e
    ∙ ap (with_messages s) (
        append_assoc s.session_messages (copy_of s.now (fresh i) session_id row ∷ [])
          (copies s.now fresh (suc i) session_id rows))

pub kept :
    (s : Db) {t u : Db}
    → t ≡ u
    → t.soul_sessions ≡ s.soul_sessions
    → t.session_messages ≡ s.session_messages
    → t.now ≡ s.now
    → (u.soul_sessions ≡ s.soul_sessions)
      × (u.session_messages ≡ s.session_messages)
      × (u.now ≡ s.now)
kept s e a b c = (
  ap (λ d. d.soul_sessions) (sym e) ∙ a,
  ap (λ d. d.session_messages) (sym e) ∙ b,
  ap (λ d. d.now) (sym e) ∙ c,
)

pub insert_forked_session-ok :
    (id parent : String) (point : ℕ) (s u : Db) (a : Unit {0})
    → insert_forked_session id parent point s ≡ (ok a, u)
    → (u.soul_sessions ≡ s.soul_sessions)
      × (u.session_messages ≡ s.session_messages)
      × (u.now ≡ s.now)
unfolding insert_forked_session
insert_forked_session-ok id parent point s u a h = elim (Bool-cases (any (has_id id) s.sessions)) [
  | inl e ↦ kept s (ap second (rw e at h)) refl refl refl
  | inr e ↦ kept s (ap second (rw e at h)) refl refl refl
]

-- The session of a fork is there: the one that had the id, or a new one with its lineage.
abbrev pub SessionThere : String → String → ℕ → Db → List SessionRow → Type 0
SessionThere id parent point s sessions =
    ((any (has_id id) s.sessions ≡ true) × (sessions ≡ s.sessions))
    ⊎ ((any (has_id id) s.sessions ≡ false)
        × (sessions
            ≡ s.sessions
              ++ record {
                id = id;
                parent_session_id = some parent;
                fork_point = some (pos point);
                session_memory = "";
                created_at = s.now;
                updated_at = s.now;
              }
                ∷ []))

pub insert_forked_session-there :
    (id parent : String) (point : ℕ) (s u : Db) (a : Unit {0})
    → insert_forked_session id parent point s ≡ (ok a, u)
    → SessionThere id parent point s u.sessions
unfolding insert_forked_session
insert_forked_session-there id parent point s u a h =
    elim (Bool-cases (any (has_id id) s.sessions)) [
      | inl e ↦ inl (e, ap (λ d. d.sessions) (sym (ap second (rw e at h))))
      | inr e ↦ inr (e, ap (λ d. d.sessions) (sym (ap second (rw e at h))))
    ]

-- A copy of a message for another session.
pub record CopyOf (id session_id : String) (row copy : MessageRow) : Type 0 where
  pub new_id : copy.id ≡ id
  pub in_session : copy.session_id ≡ session_id
  pub same_seq : copy.session_seq ≡ row.session_seq
  pub same_actor_type : copy.actor_type ≡ row.actor_type
  pub same_actor_id : copy.actor_id ≡ row.actor_id
  pub same_text : copy.content_text ≡ row.content_text
  pub same_state : copy.state ≡ row.state
  pub first_version : copy.version ≡ 1
  pub same_creation : copy.created_at ≡ row.created_at

-- One copy of each, in the order of the originals.
abbrev pub CopiesOf : (ℕ → String) → ℕ → String → List MessageRow → List MessageRow → Type 0
CopiesOf fresh i session_id [] [] = Unit {0}
CopiesOf fresh i session_id [] (copy ∷ rest) = ⊥
CopiesOf fresh i session_id (row ∷ rows) [] = ⊥
CopiesOf fresh i session_id (row ∷ rows) (copy ∷ rest) =
    CopyOf (fresh i) session_id row copy × CopiesOf fresh (suc i) session_id rows rest

pub copies-CopiesOf :
    (now : String) (fresh : ℕ → String) (i : ℕ) (session_id : String) (rows : List MessageRow)
    → CopiesOf fresh i session_id rows (copies now fresh i session_id rows)
unfolding copy_of
copies-CopiesOf now fresh i session_id [] = tt
copies-CopiesOf now fresh i session_id (row ∷ rows) = (
  record {
    new_id = refl;
    in_session = refl;
    same_seq = refl;
    same_actor_type = refl;
    same_actor_id = refl;
    same_text = refl;
    same_state = refl;
    first_version = refl;
    same_creation = refl;
  },
  copies-CopiesOf now fresh (suc i) session_id rows,
)

pub insert_forked_soul-ok :
    (parent : SoulSessionRow) (state : Option Value) (point : ℕ) (id session_id : String) (s u : Db)
    (row : SoulSessionRow)
    → find_by (has_soul_id id) s.soul_sessions ≡ none
    → insert_forked_soul parent state point id session_id s ≡ (ok row, u)
    → (any (of_session session_id) s.soul_sessions ≡ false)
      × (row ≡ forked_row s.now parent state point id session_id)
      × (u ≡ record s {
        soul_sessions = s.soul_sessions ++ forked_row s.now parent state point id session_id ∷ [];
      })
unfolding insert_forked_soul
insert_forked_soul-ok parent state point id session_id s u row n h =
    elim (Bool-cases (any (of_session session_id) s.soul_sessions)) [
      | inl e ↦ absurd (ground (arith, e, n, h))
      | inr e ↦ (e, ground (arith, e, n, h), sym (ap second (rw (n, e) at h)))
    ]
