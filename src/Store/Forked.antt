-- ===== src/Store/Forked.antt =====
-- crates/santi-db/src/adapter/standalone/soul_runtime/fork.rs: what a fork that succeeds has done.
use santi.Base.{◌+◌, min}
use santi.Base.{
  ℕ, String, false, ◌≡◌, sym, ap, ◌∙◌, subst, Option, none, some, List, [], ◌∷◌, ◌++◌, any, filter,
  find_by, arith, Option-cases, inl, inr, append-nil,
}
use santi.Base.Int.{pos}
use santi.Base.Exec.{Result, ok, lift, ◌>>=◌, bind-ok, Result-cases, second, first}
use santi.Model.Error.{Error}
use santi.Model.Json.{Value}
use santi.Model.Session.{SoulSession}
use santi.Store.{Db, MessageRow, SoulSessionRow, transaction}
use santi.Store.Sessions.{session_rows, order_rows, in_session}
use santi.Store.Souls.{has_soul_id, of_session, decoded, map_soul_session_row}
use santi.Store.Forks.{
  soul_row, insert_forked_session, messages_up_to, up_to, copy_messages, forked_state, forked_row,
  insert_forked_soul, fork_soul_session,
}
use santi.Store.Growth.{adding, copying, reading, forking}
use santi.Store.ForkSteps.{
  SessionThere, insert_forked_session-there, CopiesOf, copies-CopiesOf, transaction-ok, copies,
  with_messages, copy_messages-ok, insert_forked_session-ok, insert_forked_soul-ok,
}

-- What a soul session takes from its parent, and its lineage.
pub record Descends (parent : SoulSessionRow) (point : ℕ) (id session_id : String)
    (child : SoulSession) : Type 0 where
  pub same_id : child.id ≡ id
  pub same_session : child.session_id ≡ session_id
  pub same_soul : child.soul_id ≡ parent.soul_id
  pub same_memory : child.session_memory ≡ parent.session_memory
  pub after_point : child.next_seq ≡ point + 1
  pub seen : child.last_seen_session_seq ≡ min parent.last_seen_session_seq point
  pub from_parent : child.parent_soul_session_id ≡ some parent.id
  pub at_point : child.fork_point ≡ some (pos point)

forked_row-Descends :
    (now : String) (parent : SoulSessionRow) (state : Option Value) (point : ℕ)
    (id session_id : String) (child : SoulSession)
    → map_soul_session_row (forked_row now parent state point id session_id) ≡ ok child
    → Descends parent point id session_id child
unfolding map_soul_session_row forked_row
forked_row-Descends now parent state point id session_id child h =
    elim (Result-cases (decoded state)) [
      | inr (e, d) ↦ absurd (ground (arith, d, h))
      | inl (p, d) ↦
          let q = rw d at h in
          record {
            same_id = ground (arith, q);
            same_session = ground (arith, q);
            same_soul = ground (arith, q);
            same_memory = ground (arith, q);
            after_point = ground (arith, q);
            seen = ground (arith, q);
            from_parent = ground (arith, q);
            at_point = ground (arith, q);
          }
    ]

-- A fork that succeeded: the parent that was found, the provider state that was kept, the new row
-- with its lineage, the session, and the copies of the parent's messages up to the fork point.
pub record Forked (fresh : ℕ → String) (parent_id : String) (point : ℕ) (id session_id : String)
    (s : Db) (child : SoulSession) (s' : Db) : Type 0 where
  pub parent : SoulSessionRow
  pub state : Option Value
  pub was_found : find_by (has_soul_id parent_id) s.soul_sessions ≡ some parent
  pub unused : any (of_session session_id) s.soul_sessions ≡ false
  pub kept_state : forked_state point parent.provider_state ≡ ok state
  pub new_row :
      s'.soul_sessions ≡ s.soul_sessions ++ forked_row s.now parent state point id session_id ∷ []
  pub session_there : SessionThere session_id parent.session_id point s s'.sessions
  pub added : List MessageRow
  pub appended : s'.session_messages ≡ s.session_messages ++ added
  pub copied :
      CopiesOf fresh 0 session_id (filter (up_to point) (session_rows parent.session_id s)) added
  pub child_row :
      map_soul_session_row (forked_row s.now parent state point id session_id) ≡ ok child
  pub descends : Descends parent point id session_id child

soul_row-ok :
    (id : String) (s u : Db) (row : SoulSessionRow)
    → soul_row id s ≡ (ok row, u)
    → (find_by (has_soul_id id) s.soul_sessions ≡ some row) × (s ≡ u)
unfolding soul_row
soul_row-ok id s u row h = elim (Option-cases (find_by (has_soul_id id) s.soul_sessions)) [
  | inl e ↦ absurd (ground (arith, e, h))
  | inr (r, e) ↦ (ground (arith, e, h), ap second h)
]

messages_up_to-ok :
    (session_id : String) (point : ℕ) (s u : Db) (rows : List MessageRow)
    → messages_up_to session_id point s ≡ (ok rows, u)
    → (filter (up_to point) (session_rows session_id s) ≡ rows) × (s ≡ u)
unfolding messages_up_to
messages_up_to-ok session_id point s u rows h = (ground (arith, h), ap second h)

lift-ok :
    {A : Type 0} (r : Result Error A) (s u : Db) (a : A)
    → lift r s ≡ (ok a, u)
    → (r ≡ ok a) × (s ≡ u)
lift-ok r s u a h = (ap first h, ap second h)

module _ (fresh : ℕ → String) (parent_id : String) (point : ℕ) (id session_id : String) where
  -- What the last actions of the transaction wrote, from `s` on.
  record Wrote (parent : SoulSessionRow) (rows : List MessageRow) (s : Db) (row : SoulSessionRow)
      (u : Db) : Type 0 where
    state : Option Value
    unused : any (of_session session_id) s.soul_sessions ≡ false
    kept_state : forked_state point parent.provider_state ≡ ok state
    same_row : row ≡ forked_row s.now parent state point id session_id
    new_row :
        u.soul_sessions ≡ s.soul_sessions ++ forked_row s.now parent state point id session_id ∷ []
    copied : u.session_messages ≡ s.session_messages ++ copies s.now fresh 0 session_id rows
    same_sessions : u.sessions ≡ s.sessions

  adding-Wrote :
      (parent : SoulSessionRow) (s u : Db) (row : SoulSessionRow)
      → find_by (has_soul_id id) s.soul_sessions ≡ none
      → adding fresh parent_id point id session_id parent s ≡ (ok row, u)
      → Wrote parent [] s row u
  adding-Wrote parent s u row n h =
      let (state, t, h1, h2) =
        bind-ok (lift (forked_state point parent.provider_state))
          (λ state. insert_forked_soul parent state point id session_id) s row u h in
      let (e, same) = lift-ok (forked_state point parent.provider_state) s t state h1 in
      let (unused, r, w) = insert_forked_soul-ok parent state point id session_id s u row n (
        subst (λ d. insert_forked_soul parent state point id session_id d ≡ (ok row, u)) (sym same)
          h2) in
      record {
        state = state;
        unused = unused;
        kept_state = e;
        same_row = r;
        new_row = ap (λ d. d.soul_sessions) w;
        copied = ap (λ d. d.session_messages) w ∙ sym (append-nil s.session_messages);
        same_sessions = ap (λ d. d.sessions) w;
      }

  copying-Wrote :
      (parent : SoulSessionRow) (rows : List MessageRow) (s u : Db) (row : SoulSessionRow)
      → find_by (has_soul_id id) s.soul_sessions ≡ none
      → copying fresh parent_id point id session_id parent rows s ≡ (ok row, u)
      → Wrote parent rows s row u
  copying-Wrote parent rows s u row n h =
      let (a, t, h1, h2) =
        bind-ok (copy_messages fresh 0 session_id rows)
          (λ _. adding fresh parent_id point id session_id parent) s row u h in
      let same = copy_messages-ok fresh 0 session_id rows s t a h1 in
      let w =
        adding-Wrote parent
          (with_messages s (s.session_messages ++ copies s.now fresh 0 session_id rows)) u row n
          (subst (λ d. adding fresh parent_id point id session_id parent d ≡ (ok row, u)) same
            h2) in
      record {
        state = w.state;
        unused = w.unused;
        kept_state = w.kept_state;
        same_row = w.same_row;
        new_row = w.new_row;
        copied = w.copied ∙ append-nil (s.session_messages ++ copies s.now fresh 0 session_id rows);
        same_sessions = w.same_sessions;
      }

  child_mapped :
      {now : String} (s : Db) (parent : SoulSessionRow) (state : Option Value)
      (row : SoulSessionRow) (child : SoulSession)
      → row ≡ forked_row now parent state point id session_id
      → now ≡ s.now
      → map_soul_session_row row ≡ ok child
      → map_soul_session_row (forked_row s.now parent state point id session_id) ≡ ok child
  child_mapped s parent state row child same now mapped =
      ap map_soul_session_row
        (ap (λ y. forked_row y parent state point id session_id) (sym now) ∙ sym same)
      ∙ mapped

  rows_same :
      (parent : SoulSessionRow) (s t : Db)
      → t.session_messages ≡ s.session_messages
      → filter (up_to point) (session_rows parent.session_id t)
        ≡ filter (up_to point) (session_rows parent.session_id s)
  unfolding session_rows
  rows_same parent s t e =
      ap (λ ms. filter (up_to point) (order_rows (filter (in_session parent.session_id) ms))) e

  pub fork_soul_session-Forked :
      (s s' : Db) (child : SoulSession)
      → find_by (has_soul_id id) s.soul_sessions ≡ none
      → fork_soul_session fresh parent_id point id session_id s ≡ (ok child, s')
      → Forked fresh parent_id point id session_id s child s'
  unfolding fork_soul_session
  fork_soul_session-Forked s s' child n h =
      let forking' = forking fresh parent_id point id session_id in
      let (row, s5, h0, hm) =
        bind-ok (transaction (soul_row parent_id >>= forking'))
          (λ row. lift (map_soul_session_row row)) s child s' h in
      let (parent, s1, h1, k1) =
        bind-ok (soul_row parent_id) forking' s row s5
          (transaction-ok (soul_row parent_id >>= forking') s row s5 h0) in
      let (found, same1) = soul_row-ok parent_id s s1 parent h1 in
      let (a, s2, h2, k2) =
        bind-ok (insert_forked_session session_id parent.session_id point)
          (λ _. reading fresh parent_id point id session_id parent) s row s5
          (subst (λ d. forking' parent d ≡ (ok row, s5)) (sym same1) k1) in
      let (souls, messages, now) =
        insert_forked_session-ok session_id parent.session_id point s s2 a h2 in
      let (rows, s3, h3, k3) =
        bind-ok (messages_up_to parent.session_id point)
          (copying fresh parent_id point id session_id parent) s2 row s5 k2 in
      let (read, same3) = messages_up_to-ok parent.session_id point s2 s3 rows h3 in
      let w : Wrote parent rows s2 row s5 =
        copying-Wrote parent rows s2 s5 row (ap (find_by (has_soul_id id)) souls ∙ n) (
          subst (λ d. copying fresh parent_id point id session_id parent rows d ≡ (ok row, s5))
            (sym same3) k3) in
      let (mapped, same5) = lift-ok (map_soul_session_row row) s5 s' child hm in
      record {
        parent = parent;
        state = w.state;
        was_found = found;
        unused = ap (any (of_session session_id)) (sym souls) ∙ w.unused;
        kept_state = w.kept_state;
        new_row =
            ap (λ d. d.soul_sessions) (sym same5)
            ∙ w.new_row
            ∙ ap (λ x. x ++ forked_row s2.now parent w.state point id session_id ∷ []) souls
            ∙ ap (λ y. s.soul_sessions ++ forked_row y parent w.state point id session_id ∷ []) now;
        session_there =
            subst (SessionThere session_id parent.session_id point s)
              (sym (w.same_sessions) ∙ ap (λ d. d.sessions) same5)
              (insert_forked_session-there session_id parent.session_id point s s2 a h2);
        added =
            copies s.now fresh 0 session_id
              (filter (up_to point) (session_rows parent.session_id s));
        copied =
            copies-CopiesOf s.now fresh 0 session_id
              (filter (up_to point) (session_rows parent.session_id s));
        appended =
            ap (λ d. d.session_messages) (sym same5)
            ∙ w.copied
            ∙ ap (λ x. x ++ copies s2.now fresh 0 session_id rows) messages
            ∙ ap (λ y. s.session_messages ++ copies y fresh 0 session_id rows) now
            ∙ ap (λ r. s.session_messages ++ copies s.now fresh 0 session_id r)
                (sym read ∙ rows_same parent s s2 messages);
        child_row = child_mapped s parent w.state row child w.same_row now mapped;
        descends =
            forked_row-Descends s.now parent w.state point id session_id child
              (child_mapped s parent w.state row child w.same_row now mapped);
      }
