-- ===== src/Runtime/Memory.antt =====
-- crates/santi-runtime/src/session/memory.rs: the memory that a soul keeps of a session.
use santi.Base.{
  String, true, ◌≡◌, refl, ap, ◌∙◌, subst, Option, none, some, List, [], ◌∷◌, find_by, update_where,
  str_eq, arith, Bool-cases, Option-cases, inl, inr, eq_refl,
}
use santi.Store.Growth.{found_soul}
use santi.Base.Exec.{Exec, bind-ok, first, Result, ok, err, map_error, Result-cases, second, ◌>>=◌}
use santi.Model.Error.{Error}
use santi.Model.Session.{SoulSession}
use santi.Store.{Db, SoulSessionRow}
use santi.Store.Souls.{
  ensure_soul_session, acquire_soul_session, fetch_session_soul, map_soul_session_row, transpose,
  has_soul_id, of_session, decoded,
}
use santi.Store.Souls as Souls
use santi.Runtime.Handoff.{render_core_error}

-- Its `render_error` is the same function as that of effect.rs.
unfoldable pub write_session_memory : String → String → String → Exec Db String (Option SoulSession)
unfolding acquire_soul_session Souls.write_session_memory render_core_error
write_session_memory default_soul_id session_id text = do
  soul_session ← map_error render_core_error (acquire_soul_session default_soul_id session_id)
  map_error render_core_error (Souls.write_session_memory soul_session.id text)

unfoldable pub get_session_memory : String → Exec Db String (Option SoulSession)
unfolding fetch_session_soul render_core_error
get_session_memory session_id = map_error render_core_error (fetch_session_soul session_id)

-- A row with another memory.
abbrev with_memory : String → String → SoulSessionRow → SoulSessionRow
with_memory now text row = record row { session_memory = text; updated_at = now }

updated_row :
    (id session_id now text : String) (rows : List SoulSessionRow) (row : SoulSessionRow)
    → find_by (of_session session_id) rows ≡ some row
    → row.id ≡ id
    → find_by (of_session session_id) (update_where (has_soul_id id) (with_memory now text) rows)
      ≡ some (with_memory now text row)
updated_row id session_id now text [] row h e = absurd (ground (arith, h))
updated_row id session_id now text (x ∷ rows) row h e =
    elim (Bool-cases (of_session session_id x)) [
      | inl f ↦
          let q : x ≡ row = ground (arith, rw f at h) in
          let g : has_soul_id id x ≡ true =
            ap (λ r. str_eq r.id id) q ∙ ap (λ k. str_eq k id) e ∙ eq_refl id in
          rw (g, f) (ap (λ r. some (with_memory now text r)) q)
      | inr f ↦ elim (Bool-cases (has_soul_id id x)) [
        | inl g ↦ rw (g, f) (updated_row id session_id now text rows row (rw f at h) e)
        | inr g ↦ rw (g, f) (updated_row id session_id now text rows row (rw f at h) e)
      ]
    ]

-- The row that an acquisition returns.
acquired_row :
    (soul_id session_id : String) (s s' : Db) (m : SoulSession)
    → acquire_soul_session soul_id session_id s ≡ (ok m, s')
    → (row : SoulSessionRow) × (find_by (of_session session_id) s'.soul_sessions ≡ some row)
      × (map_soul_session_row row ≡ ok m)
unfolding acquire_soul_session fetch_session_soul
acquired_row soul_id session_id s s' m h =
    let (a, s1, _, h1) =
      bind-ok (ensure_soul_session soul_id session_id)
        (λ _. fetch_session_soul session_id >>= found_soul) s m s' h in
    let (o, s2, h2, h3) = bind-ok (fetch_session_soul session_id) found_soul s1 m s' h1 in
    let same1 : s1 ≡ s2 = ap second h2 in
    let same2 : s2 ≡ s' = ap second h3 in
    subst
      (λ d.
        (row : SoulSessionRow) × (find_by (of_session session_id) d.soul_sessions ≡ some row)
        × (map_soul_session_row row ≡ ok m))
      (same1 ∙ same2) (found_row s1 o (ap first h2) (ap first h3))
  where
    found_row :
        (d : Db) (o : Option SoulSession)
        → transpose (find_by (of_session session_id) d.soul_sessions) ≡ ok o
        → first (found_soul o d) ≡ ok m
        → (row : SoulSessionRow) × (find_by (of_session session_id) d.soul_sessions ≡ some row)
          × (map_soul_session_row row ≡ ok m)
    found_row d none p q = absurd (ground (arith, q))
    found_row d (some n) p q =
        elim (Option-cases (find_by (of_session session_id) d.soul_sessions)) [
          | inl e ↦ absurd (ground (arith, e, p))
          | inr (row, e) ↦ elim (Result-cases (map_soul_session_row row)) [
            | inr (x, g) ↦ absurd (ground (arith, e, g, p))
            | inl (k, g) ↦ (row, e, ground (arith, e, g, p, q))
          ]
        ]

abbrev rewritten : String → String → SoulSession → SoulSession
rewritten now text m = record m { session_memory = text; updated_at = now }

remembered :
    (row : SoulSessionRow) (m : SoulSession) (now text : String)
    → map_soul_session_row row ≡ ok m
    → (row.id ≡ m.id)
      × (map_soul_session_row (with_memory now text row) ≡ ok (rewritten now text m))
unfolding map_soul_session_row
remembered row m now text h = elim (Result-cases (decoded row.provider_state)) [
  | inr (x, d) ↦ absurd (ground (arith, rw d at h))
  | inl (p, d) ↦
      let e : (let q : SoulSession = record {
        id = row.id;
        soul_id = row.soul_id;
        session_id = row.session_id;
        session_memory = row.session_memory;
        provider_state = p;
        next_seq = row.next_seq;
        last_seen_session_seq = row.last_seen_session_seq;
        parent_soul_session_id = row.parent_soul_session_id;
        fork_point = row.fork_point;
        created_at = row.created_at;
        updated_at = row.updated_at;
      } in
          q ≡ m) =
        ground (arith, rw d at h) in
      (ap (λ x. x.id) e, rw d (ap (λ x. ok (rewritten now text x)) e))
]

-- A query of the session gives the text.
abbrev pub Remembered : String → String → Db → Type 0
Remembered session_id text d =
    (m : SoulSession) × (get_session_memory session_id d ≡ (ok (some m), d))
    × (m.session_memory ≡ text)

module _ (soul_id session_id text : String) (s s' : Db) (o : Option SoulSession)
    (h : write_session_memory soul_id session_id text s ≡ (ok o, s')) where
  written :
      (x : Result Error SoulSession × Db)
      → acquire_soul_session soul_id session_id s ≡ x
      → Remembered session_id text s'
  unfolding write_session_memory get_session_memory Souls.write_session_memory fetch_session_soul
  written (err e, s1) a = absurd (ground (arith, rw a at h))
  written (ok m, s1) a =
      let (row, f, g) = acquired_row soul_id session_id s s1 m a in
      let (same, stored) = remembered row m s1.now text g in
      let u = updated_row m.id session_id s1.now text s1.soul_sessions row f same in
      subst (Remembered session_id text) (ap second (rw a at h))
        (record m { session_memory = text; updated_at = s1.now }, rw (u, stored) refl, refl)

  -- After the memory of a session was written, whatever memory there was and also if the soul had
  -- not seen the session, a query of the session gives the text that was written.
  pub write_session_memory-get_session_memory : Remembered session_id text s'
  write_session_memory-get_session_memory = written (acquire_soul_session soul_id session_id s) refl
