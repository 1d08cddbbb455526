-- ===== src/Store/Valid.antt =====
-- crates/santi-db/src/adapter/standalone: what every reachable state of the store satisfies, and
-- the operations that leave entries, turns and counters as they are.
use santi.Base.{
  ℕ, ◌-◌, ◌≤◌, ◌<◌, String, ◌≡◌, refl, ap, sym, subst, some, List, any, find_by, Bool-cases,
  Option-cases, inl, inr, In,
}
use santi.Base.Exec.{Result, Result-cases}
use santi.Model.Error.{Error}
use santi.Model.Session.{Turn}
use santi.Store.{Db, SoulSessionRow}
use santi.Store.Mapping.{content_to_text}
use santi.Store.Sessions.{
  has_id, create_session, set_session_memory, AppendSessionMessage, append_message,
  ApplyMessageEvent, store_message_event, get_session_memory, conflicts,
}
use santi.Store.Appends.{append_message-outcome, append_message-refused, row_for}
use santi.Store.Events.{store_message_event-EventOutcome}
use santi.Store.Effects.{
  CreateSessionEffect, create_effect, UpdateSessionEffect, update_effect, has_key, has_effect_id,
}
use santi.Store.Counters.{Numbered, next_in}

-- A turn starts at or before the last number that its soul session has given out, and ends at or
-- after its start.
abbrev pub InOrder : List SoulSessionRow → Turn → Type 0
InOrder rows t =
    (t.base_soul_session_seq ≤ next_in t.soul_session_id rows - 1)
    × ((e : ℕ) → t.end_soul_session_seq ≡ some e → t.base_soul_session_seq ≤ e)

abbrev pub TurnsInOrder : Db → Type 0
TurnsInOrder s = (t : Turn) → In t s.turns → InOrder s.soul_sessions t

abbrev pub Valid : Db → Type 0
Valid s = Numbered s × TurnsInOrder s

-- An action that leaves entries, turns and soul sessions as they are.
abbrev pub Untouched : Db → Db → Type 0
Untouched s s' = (s'.items ≡ s.items) × (s'.turns ≡ s.turns) × (s'.soul_sessions ≡ s.soul_sessions)

abbrev pub Leaves : {A : Type 0} → Db → Result Error A × Db → Type 0
Leaves s (r, s') = Untouched s s'

pub Untouched-Valid : (s s' : Db) → Untouched s s' → Valid s → Valid s'
Untouched-Valid s s' (i, t, r) (n, o) = (
  λ e j.
      subst (λ rows. e.soul_session_seq < next_in e.soul_session_id rows) (sym r)
        (n e (subst (In e) i j)),
  λ e j.
      let (b, g) = o e (subst (In e) t j) in
      (subst (λ rows. e.base_soul_session_seq ≤ next_in e.soul_session_id rows - 1) (sym r) b, g),
)

pub create_session-Untouched : (id : String) (s : Db) → Leaves s (create_session id s)
unfolding create_session
create_session-Untouched id s = elim (Bool-cases (any (has_id id) s.sessions)) [
  | inl e ↦ rw e (refl, refl, refl)
  | inr e ↦ rw e (refl, refl, refl)
]

pub set_session_memory-Untouched :
    (id memory : String) (s : Db) → Leaves s (set_session_memory id memory s)
unfolding set_session_memory get_session_memory
set_session_memory-Untouched id memory s = elim (Bool-cases (any (has_id id) s.sessions)) [
  | inl e ↦ rw e (refl, refl, refl)
  | inr e ↦ rw e (refl, refl, refl)
]

pub append_message-Untouched :
    (input : AppendSessionMessage) (s : Db) → Leaves s (append_message input s)
append_message-Untouched input s = elim (Result-cases (content_to_text input.content)) [
  | inr (f, e) ↦ rw (append_message-refused input s f e) (refl, refl, refl)
  | inl (text, e) ↦
      rw (append_message-outcome input s text e)
        elim (Bool-cases (any (has_id input.session_id) s.sessions)) [
          | inr a ↦ rw a (refl, refl, refl)
          | inl a ↦
              elim (Bool-cases (
                any (conflicts input.message_id input.session_id (row_for input s text).session_seq)
                  s.session_messages)) [
                    | inl b ↦ rw (a, b) (refl, refl, refl)
                    | inr b ↦ rw (a, b) (refl, refl, refl)
                  ]
        ]
]

pub create_effect-Untouched :
    (input : CreateSessionEffect) (s : Db) → Leaves s (create_effect input s)
unfolding create_effect
create_effect-Untouched input s =
    elim (Option-cases
      (find_by (has_key input.session_id input.effect_type input.idempotency_key) s.effects)) [
        | inr (x, e) ↦ rw e (refl, refl, refl)
        | inl e ↦ elim (Bool-cases (any (has_effect_id input.effect_id) s.effects)) [
          | inl f ↦ rw (e, f) (refl, refl, refl)
          | inr f ↦ rw (e, f) (refl, refl, refl)
        ]
      ]

pub update_effect-Untouched :
    (input : UpdateSessionEffect) (s : Db) → Leaves s (update_effect input s)
unfolding update_effect
update_effect-Untouched input s = (refl, refl, refl)

pub store_message_event-Untouched :
    (input : ApplyMessageEvent) (s : Db) → Leaves s (store_message_event input s)
store_message_event-Untouched input s = elim (store_message_event-EventOutcome input s) [
  | inl (m, e, stored) ↦ (
    ap (λ x. x.items) stored.written,
    ap (λ x. x.turns) stored.written,
    ap (λ x. x.soul_sessions) stored.written,
  )
  | inr (f, e, h) ↦ (ap (λ x. x.items) h, ap (λ x. x.turns) h, ap (λ x. x.soul_sessions) h)
]
