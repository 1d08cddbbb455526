-- ===== src/Store/Entries.antt =====
-- crates/santi-db/src/adapter/standalone/soul_runtime: what the operations that append an entry
-- do.
use santi.Base.{
  ◌+◌, String, ◌≡◌, refl, ap, sym, subst, some, [], ◌∷◌, ◌++◌, any, find_by, arith, Bool-cases,
  Option-cases, inl, inr, ◌⊎◌, find_by-In, eq_iff,
}
use santi.Base.Exec.{Result, ok, err}
use santi.Model.Error.{Error, not_found}
use santi.Model.Session.{SoulSessionEntry, SoulSessionTargetType, AssemblyItem, AssemblyTarget}
use santi.Store.{Db, SoulSessionRow}
use santi.Store.Souls.{has_soul_id, advance, allocate_seq, insert_item}
use santi.Store.Sessions.{has_message_id}
use santi.Store.Turns.{has_turn_id}
use santi.Store.Counters.{
  Numbered, no_conflict, entered, entered-Numbered, Grows, update_where-Grows, counter, advanced,
  next_in, entry_of,
}
use santi.Store.Items.{
  append_message_ref, append_tool_call, append_tool_result, append_compact, AppendToolCall,
  AppendToolResult, AppendCompact, has_call_id, item_for, tool_call_target, tool_result_target,
  result_conflicts, call_entry, soul_of_call, insert_tool_result, insert_compact, turn_row,
  has_compact_id, compact_row, insert_tool_call, soul_of_turn,
}

-- An entry was appended: it has the next number of its soul session, it comes last, and the
-- number is given out; or the state is as before.
pub record Appended (s : Db) (item : AssemblyItem) (s' : Db) : Type 0 where
  pub next_number : item.entry.soul_session_seq ≡ next_in item.entry.soul_session_id s.soul_sessions
  pub comes_last : s'.items ≡ s.items ++ item.entry ∷ []
  pub given_out :
      next_in item.entry.soul_session_id s'.soul_sessions ≡ item.entry.soul_session_seq + 1
  pub numbered : Numbered s'
  pub turns : s'.turns ≡ s.turns
  pub grows : Grows s.soul_sessions s'.soul_sessions

abbrev pub Outcome : Db → Result Error AssemblyItem × Db → Type 0
Outcome s (r, s') =
    ((item : AssemblyItem) × (r ≡ ok item) × Appended s item s')
    ⊎ ((e : Error) × (r ≡ err e) × (s' ≡ s))

module _ (s : Db) (id : String) (target_type : SoulSessionTargetType) (target_id : String)
    (row : SoulSessionRow) (n : Numbered s)
    (h : find_by (has_soul_id id) s.soul_sessions ≡ some row) where
  abbrev entry : SoulSessionEntry
  entry = entry_of s id target_type target_id row.next_seq

  -- The state that an append leaves, `q` with the two tables changed.
  abbrev after : Db → Db
  after q = record q {
    soul_sessions = (entered s id target_type target_id row).soul_sessions;
    turns = s.turns;
    items = (entered s id target_type target_id row).items;
  }

  entered-Appended :
      (target : AssemblyTarget) (q : Db) → Appended s (item_for entry target) (after q)
  entered-Appended target q = record {
    next_number = sym (ap counter h);
    comes_last = refl;
    given_out = advanced s id s.soul_sessions row h;
    numbered = entered-Numbered s id target_type target_id row h n;
    turns = refl;
    grows =
        update_where-Grows (has_soul_id id) (advance s) s.soul_sessions (λ r. refl)
          (λ r. omega arith);
  }

-- Taking a message into a soul session, in a state whose entries are numbered below their counters, either
-- appends one entry with the next number of its soul session and gives that number out, or it
-- changes nothing.
pub append_message_ref-Outcome :
    (s : Db) (id message_id : String) → Numbered s → Outcome s (append_message_ref id message_id s)
unfolding append_message_ref allocate_seq insert_item
append_message_ref-Outcome s id message_id n =
    elim (Option-cases (find_by (has_soul_id id) s.soul_sessions)) [
      | inl e ↦ rw e (inr (not_found "standalone_soul_session", refl, refl))
      | inr (row, e) ↦
          let free = no_conflict s id SoulSessionTargetType.message message_id row n e in
          elim (Option-cases (find_by (has_message_id message_id) s.session_messages)) [
            | inl f ↦ rw (e, free, f) (inr (not_found "session_message", refl, refl))
            | inr (m, f) ↦
                rw (e, free, f)
                  (inl (
                    _,
                    refl,
                    entered-Appended s id SoulSessionTargetType.message message_id row n e _ s,
                  ))
          ]
    ]

-- Taking a tool call, in a state whose entries are numbered below their counters, either
-- appends one entry with the next number of its soul session and gives that number out, or it
-- changes nothing.
pub append_tool_call-Outcome :
    (s : Db) (input : AppendToolCall) → Numbered s → Outcome s (append_tool_call input s)
unfolding append_tool_call insert_tool_call soul_of_turn allocate_seq insert_item
append_tool_call-Outcome s input n =
    elim (Bool-cases (any (has_call_id input.tool_call_id) s.tool_calls)) [
      | inl c ↦ rw c (inr (_, refl, refl))
      | inr c ↦ elim (Option-cases (find_by (has_turn_id input.turn_id) s.turns)) [
        | inl t ↦ rw (c, t) (inr (_, refl, refl))
        | inr (turn, t) ↦
            elim (Option-cases (find_by (has_soul_id turn.soul_session_id) s.soul_sessions)) [
              | inl e ↦ rw (c, t, e) (inr (_, refl, refl))
              | inr (row, e) ↦
                  rw
                    (
                      c,
                      t,
                      e,
                      no_conflict s turn.soul_session_id SoulSessionTargetType.tool_call
                          input.tool_call_id row n e,
                    )
                    (inl (
                      _,
                      refl,
                      entered-Appended s turn.soul_session_id SoulSessionTargetType.tool_call
                          input.tool_call_id row n e _
                          (record s {
                            tool_calls = s.tool_calls ++ tool_call_target input s.now ∷ [];
                          }),
                    ))
            ]
      ]
    ]

-- Taking a tool result, in a state whose entries are numbered below their counters, either
-- appends one entry with the next number of its soul session and gives that number out, or it
-- changes nothing.
pub append_tool_result-Outcome :
    (s : Db) (input : AppendToolResult) → Numbered s → Outcome s (append_tool_result input s)
unfolding append_tool_result insert_tool_result soul_of_call allocate_seq insert_item
append_tool_result-Outcome s input n =
    elim (Bool-cases (any (result_conflicts input) s.tool_results)) [
      | inl c ↦ rw c (inr (_, refl, refl))
      | inr c ↦ elim (Option-cases (find_by (call_entry input.tool_call_id) s.items)) [
        | inl t ↦ rw (c, t) (inr (_, refl, refl))
        | inr (call, t) ↦
            elim (Option-cases (find_by (has_soul_id call.soul_session_id) s.soul_sessions)) [
              | inl e ↦ rw (c, t, e) (inr (_, refl, refl))
              | inr (row, e) ↦
                  rw
                    (
                      c,
                      t,
                      e,
                      no_conflict s call.soul_session_id SoulSessionTargetType.tool_result
                          input.tool_result_id row n e,
                    )
                    (inl (
                      _,
                      refl,
                      entered-Appended s call.soul_session_id SoulSessionTargetType.tool_result
                          input.tool_result_id row n e _
                          (record s {
                            tool_results = s.tool_results ++ tool_result_target input s.now ∷ [];
                          }),
                    ))
            ]
      ]
    ]

-- The row that a query by id finds is found by its own id.
found_by_id :
    (s : Db) (id : String) (row : SoulSessionRow)
    → find_by (has_soul_id id) s.soul_sessions ≡ some row
    → find_by (has_soul_id row.id) s.soul_sessions ≡ some row
found_by_id s id row e =
    let (i, q) = find_by-In (has_soul_id id) row s.soul_sessions e in
    let same : row.id ≡ id = ground (arith, q, eq_iff row.id id) in
    subst (λ k. find_by (has_soul_id k) s.soul_sessions ≡ some row) (sym same) e

-- Taking a compact, in a state whose entries are numbered below their counters, either
-- appends one entry with the next number of its soul session and gives that number out, or it
-- changes nothing.
pub append_compact-Outcome :
    (s : Db) (input : AppendCompact) → Numbered s → Outcome s (append_compact input s)
unfolding append_compact turn_row insert_compact allocate_seq insert_item
append_compact-Outcome s input n =
    elim (Option-cases (find_by (has_turn_id input.turn_id) s.turns)) [
      | inl t ↦ rw t (inr (_, refl, refl))
      | inr (turn, t) ↦
          elim (Option-cases (find_by (has_soul_id turn.soul_session_id) s.soul_sessions)) [
            | inl e ↦ rw (t, e) (inr (_, refl, refl))
            | inr (row, e) ↦
                let e' = found_by_id s turn.soul_session_id row e in
                let free =
                  no_conflict s row.id SoulSessionTargetType.compact input.compact_id row n e' in
                elim (Bool-cases (any (has_compact_id input.compact_id) s.compacts)) [
                  | inl c ↦ rw (t, e, e', c) (inr (_, refl, refl))
                  | inr c ↦
                      rw (t, e, e', c, free)
                        (inl (
                          _,
                          refl,
                          entered-Appended s row.id SoulSessionTargetType.compact input.compact_id
                              row n e' _
                              (record s {
                                compacts =
                                    s.compacts ++ compact_row input row.session_id s.now ∷ [];
                              }),
                        ))
                ]
          ]
    ]
