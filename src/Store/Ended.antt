-- ===== src/Store/Ended.antt =====
-- crates/santi-db/src/adapter/standalone/soul_runtime/runtime_port.rs: the row of a turn after it was
-- started, completed or failed.
use santi.Model.Session.{AssemblyItem}
use santi.Store.Sessions.{has_message_id}
use santi.Store.Items.{append_message_ref}
use santi.Store.Souls.{allocate_seq, insert_item, same_place, advance}
use santi.Base.{
  String, false, ◌≡◌, refl, ap, subst, Option, some, any, find_by, Bool-cases, Option-cases, inl,
  inr, updated_found, updated_missing, find_by-append_last, eq_refl,
}
use santi.Base.Exec.{Result, ok, err, second}
use santi.Model.Error.{Error}
use santi.Model.Session.{Turn, TurnStatus}
use santi.Store.{Db, SoulSessionRow}
use santi.Store.Souls.{has_soul_id}
use santi.Store.Turns.{
  StartTurn, start_turn, started_turn, CompleteTurn, complete_turn, mark_seen, fail_turn,
  has_turn_id, completed_turn, failed_turn,
}

-- The row that a search by id finds.
abbrev pub turn_in : String → Db → Option Turn
turn_in id s = find_by (has_turn_id id) s.turns

-- A completion writes the row that it returns, or changes nothing.
abbrev pub Completion : String → Db → Result Error Turn × Db → Type 0
Completion id s (ok t, s') = (turn_in id s' ≡ some t) × (t.status ≡ TurnStatus.completed)
Completion id s (err e, s') = s' ≡ s

pub complete_turn-Completion :
    (input : CompleteTurn) (s : Db) → Completion input.turn_id s (complete_turn input s)
unfolding complete_turn mark_seen
complete_turn-Completion input s = elim (Option-cases (turn_in input.turn_id s)) [
  | inl e ↦
      rw (updated_missing (has_turn_id input.turn_id) (completed_turn s) (λ x. refl) s.turns e) refl
  | inr (t, e) ↦
      let f =
        updated_found (has_turn_id input.turn_id) (completed_turn s) (λ x. refl) t s.turns e in
      rw f (f, refl)
]

pub complete_turn_messages :
    (input : CompleteTurn) (s : Db)
    → (second (complete_turn input s)).session_messages ≡ s.session_messages
unfolding complete_turn mark_seen
complete_turn_messages input s = elim (Option-cases (turn_in input.turn_id s)) [
  | inl e ↦
      rw (updated_missing (has_turn_id input.turn_id) (completed_turn s) (λ x. refl) s.turns e) refl
  | inr (t, e) ↦
      rw (updated_found (has_turn_id input.turn_id) (completed_turn s) (λ x. refl) t s.turns e) refl
]

pub fail_turn_lem :
    (id text : String) (s s' : Db) (r : Result Error Turn) (t : Turn)
    → turn_in id s ≡ some t
    → fail_turn id text s ≡ (r, s')
    → turn_in id s' ≡ some (failed_turn s text t)
unfolding fail_turn
fail_turn_lem id text s s' r t e h =
    subst (λ d. turn_in id d ≡ some (failed_turn s text t)) (ap second h)
      (updated_found (has_turn_id id) (failed_turn s text) (λ x. refl) t s.turns e)

-- A start adds a row with the id, or changes nothing.
abbrev pub Started : StartTurn → Db → Result Error Turn × Db → Type 0
Started input s (ok t, s') =
    (turn_in input.turn_id s' ≡ some t)
    × (t.id ≡ input.turn_id)
    × (any (has_turn_id input.turn_id) s.turns ≡ false)
Started input s (err e, s') = s' ≡ s

pub start_turn-Started : (input : StartTurn) (s : Db) → Started input s (start_turn input s)
unfolding start_turn
start_turn-Started input s =
    elim (Option-cases (find_by (has_soul_id input.soul_session_id) s.soul_sessions)) [
      | inl e ↦ rw e refl
      | inr (row, e) ↦ elim (Bool-cases (any (has_turn_id input.turn_id) s.turns)) [
        | inl f ↦ rw (e, f) refl
        | inr f ↦
            rw (e, f)
              (
                find_by-append_last (has_turn_id input.turn_id) s.turns
                    (started_turn s input row.next_seq) f (eq_refl input.turn_id),
                refl,
                f,
              )
      ]
    ]

-- In a store where the soul session is there and no turn has the id, a start succeeds.
pub start_turn_succeeds :
    (input : StartTurn) (s : Db) (row : SoulSessionRow)
    → find_by (has_soul_id input.soul_session_id) s.soul_sessions ≡ some row
    → any (has_turn_id input.turn_id) s.turns ≡ false
    → (t : Turn) × (s' : Db) × (start_turn input s ≡ (ok t, s'))
unfolding start_turn
start_turn_succeeds input s row e f = rw (e, f) (_, _, refl)

-- A message that was entered into a soul session: the soul session is in the store.
abbrev pub Entered : String → Result Error AssemblyItem × Db → Type 0
Entered id (ok item, s') =
    (row : SoulSessionRow) × (find_by (has_soul_id id) s'.soul_sessions ≡ some row)
Entered id (err e, s') = Unit {0}

pub append_message_ref_row :
    (id message_id : String) (s : Db) → Entered id (append_message_ref id message_id s)
unfolding append_message_ref allocate_seq insert_item
append_message_ref_row id message_id s =
    elim (Option-cases (find_by (has_soul_id id) s.soul_sessions)) [
      | inl e ↦ rw e tt
      | inr (row, e) ↦ elim (Bool-cases (any (same_place id row.next_seq) s.items)) [
        | inl f ↦ rw (e, f) tt
        | inr f ↦ elim (Option-cases (find_by (has_message_id message_id) s.session_messages)) [
          | inl g ↦ rw (e, f, g) tt
          | inr (m, g) ↦
              rw (e, f, g)
                (_, updated_found (has_soul_id id) (advance s) (λ x. refl) row s.soul_sessions e)
        ]
      ]
    ]
