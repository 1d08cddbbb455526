-- ===== src/Store/Turning.antt =====
-- crates/santi-db/src/adapter/standalone/soul_runtime/runtime_port.rs: the operations on turns.
use santi.Base.{
  ℕ, ◌-◌, String, Bool, ◌≡◌, refl, ap, sym, ◌∙◌, subst, some, List, [], ◌∷◌, any, find_by,
  update_where, arith, Bool-cases, Option-cases, inl, inr, ◌⊎◌, In, here, there, append-In,
}
use santi.Base.Exec.{Result}
use santi.Model.Error.{Error}
use santi.Model.Session.{Turn}
use santi.Store.{Db}
use santi.Store.Souls.{has_soul_id}
use santi.Store.Turns.{
  StartTurn, start_turn, CompleteTurn, complete_turn, mark_seen, fail_turn, has_turn_id,
  completed_turn, failed_turn, last_seq, seen,
}
use santi.Store.Counters.{next_in, update_where-Grows, counter}
use santi.Store.Valid.{Valid, TurnsInOrder, InOrder}
use santi.Store.Growth.{Keeps, Keeps-Valid}
use santi.Store.Steps.{left}

abbrev pub ValidAfter : {A : Type 0} → Result Error A × Db → Type 0
ValidAfter (r, s') = Valid s'

pub start_turn-Valid : (input : StartTurn) (s : Db) → Valid s → ValidAfter (start_turn input s)
unfolding start_turn
start_turn-Valid input s (n, o) =
    elim (Option-cases (find_by (has_soul_id input.soul_session_id) s.soul_sessions)) [
      | inl e ↦ rw e (n, o)
      | inr (row, e) ↦ elim (Bool-cases (any (has_turn_id input.turn_id) s.turns)) [
        | inl f ↦ rw (e, f) (n, o)
        | inr f ↦
            rw (e, f)
              (
                n,
                λ t i. elim (append-In t s.turns _ i) [
                  | inl j ↦ o t j
                  | inr (here q) ↦
                      subst (InOrder s.soul_sessions) (sym q)
                        (omega (arith, ap counter e), λ k h. absurd (ground (arith, h)))
                  | inr (there j) ↦ elim j [ ]
                ],
              )
      ]
    ]

-- The rows of a table after an update: those that do not fit and the changed ones.
update_where-In :
    (p : Turn → Bool) (f : Turn → Turn) (t : Turn) (ts : List Turn)
    → In t (update_where p f ts)
    → In t ts ⊎ ((u : Turn) × In u ts × (t ≡ f u))
update_where-In p f t [] i = elim i [ ]
update_where-In p f t (x ∷ ts) (here q) = elim (Bool-cases (p x)) [
  | inl e ↦ inr (x, here refl, rw e at q)
  | inr e ↦ inl (here (rw e at q))
]
update_where-In p f t (x ∷ ts) (there i) = elim (update_where-In p f t ts i) [
  | inl j ↦ inl (there j)
  | inr (u, j, e) ↦ inr (u, there j, e)
]

-- A turn that ends now ends at the last number given out.
last_seq_lem :
    (id : String) (s : Db) (k : ℕ) → last_seq id s ≡ some k → next_in id s.soul_sessions - 1 ≡ k
last_seq_lem id s k h = elim (Option-cases (find_by (has_soul_id id) s.soul_sessions)) [
  | inl e ↦ absurd (ground (arith, e, h))
  | inr (row, e) ↦ ground (arith, e, h)
]

module _ (s : Db) (f : Turn → Turn)
    (same_base : (t : Turn) → (f t).base_soul_session_seq ≡ t.base_soul_session_seq)
    (same_soul : (t : Turn) → (f t).soul_session_id ≡ t.soul_session_id)
    (ends : (t : Turn) → (f t).end_soul_session_seq ≡ last_seq t.soul_session_id s) where
  ended-InOrder : (t : Turn) → InOrder s.soul_sessions t → InOrder s.soul_sessions (f t)
  ended-InOrder t (b, g) = (
    rw (same_base t, same_soul t) b,
    λ k h.
        let last = last_seq_lem t.soul_session_id s k (sym (ends t) ∙ h) in
        omega (arith, same_base t, b, last),
  )

  ended-TurnsInOrder :
      (p : Turn → Bool) (t : Turn)
      → TurnsInOrder s
      → In t (update_where p f s.turns)
      → InOrder s.soul_sessions t
  ended-TurnsInOrder p t o i = elim (update_where-In p f t s.turns i) [
    | inl j ↦ o t j
    | inr (u, j, e) ↦ subst (InOrder s.soul_sessions) (sym e) (ended-InOrder u (o u j))
  ]

pub fail_turn-Valid : (id text : String) (s : Db) → Valid s → ValidAfter (fail_turn id text s)
unfolding fail_turn
fail_turn-Valid id text s (n, o) = (
  n,
  λ t i.
      ended-TurnsInOrder s (failed_turn s text) (λ u. refl) (λ u. refl) (λ u. refl) (has_turn_id id)
        t o i,
)

mark_seen-Keeps :
    (input : CompleteTurn) (id : String) (s : Db) → Keeps s (left (mark_seen input id) s)
unfolding mark_seen
mark_seen-Keeps input id s = (
  refl,
  refl,
  update_where-Grows (has_soul_id id) (seen s input) s.soul_sessions (λ r. refl) (λ r. omega arith),
)

abbrev completed : CompleteTurn → Db → Db
completed input s = record s {
  turns = update_where (has_turn_id input.turn_id) (completed_turn s) s.turns;
}

completed-Valid : (input : CompleteTurn) (s : Db) → Valid s → Valid (completed input s)
completed-Valid input s (n, o) = (
  n,
  λ t i.
      ended-TurnsInOrder s (completed_turn s) (λ u. refl) (λ u. refl) (λ u. refl)
        (has_turn_id input.turn_id) t o i,
)

pub complete_turn-Valid :
    (input : CompleteTurn) (s : Db) → Valid s → ValidAfter (complete_turn input s)
unfolding complete_turn mark_seen
complete_turn-Valid input s v =
    elim (Option-cases (find_by (has_turn_id input.turn_id) (completed input s).turns)) [
      | inl e ↦ rw e v
      | inr (turn, e) ↦ rw e (
          Keeps-Valid (completed input s)
            (left (mark_seen input turn.soul_session_id) (completed input s))
            (mark_seen-Keeps input turn.soul_session_id (completed input s))
            (completed-Valid input s v))
    ]
