-- ===== src/Runtime/Writing.antt =====
-- crates/santi-runtime/src/session/compact.rs: what the writing of a compact that succeeds gives.
use santi.Base.Texts.{format}
use santi.Runtime.Compacts.{debug_reason}
use santi.Model.Session.{TurnTriggerType}
use santi.Store.Turns.{CompleteTurn}
use santi.Store.Turns.{StartTurn}
use santi.Base.{
  ℕ, String, not, ◌≡◌, refl, sym, ap, none, some, [], ◌∷◌, any, filter, find_by, str_eq, arith,
  Bool-cases, Option-cases, inl, inr,
}
use santi.Base.Texts.{trim}
use santi.Base.Exec.{Result, ok, err, second}
use santi.Model.Error.{Error}
use santi.Model.Session.{Compact, AssemblyItem, AssemblyTarget, SoulSession, Turn}
use santi.Lock.{release}
use santi.Store.{Db}
use santi.Store.Souls.{has_soul_id, allocate_seq, insert_item, same_place}
use santi.Store.Turns.{start_turn, complete_turn, has_turn_id}
use santi.Store.Items.{AppendCompact, append_compact, insert_compact, turn_row, has_compact_id}
use santi.Runtime.{World, publish}
use santi.Runtime.Compacts.{CompactRequest, CompactIds, write_compact, announce}

-- What the store makes of a compact.
abbrev made : AppendCompact → String → Compact
made input now = record {
  id = input.compact_id;
  turn_id = input.turn_id;
  summary = input.summary;
  start_session_seq = input.start_session_seq;
  end_session_seq = input.end_session_seq;
  created_at = now;
}

append_compact-ok :
    (input : AppendCompact) (s u : Db) (item : AssemblyItem)
    → append_compact input s ≡ (ok item, u)
    → item.target ≡ AssemblyTarget.compact (made input s.now)
unfolding append_compact turn_row insert_compact allocate_seq insert_item
append_compact-ok input s u item h =
    elim (Option-cases (find_by (has_turn_id input.turn_id) s.turns)) [
      | inl t ↦ absurd (ground (arith, rw t at h))
      | inr (turn, t) ↦
          elim (Option-cases (find_by (has_soul_id turn.soul_session_id) s.soul_sessions)) [
            | inl e ↦ absurd (ground (arith, rw (t, e) at h))
            | inr (row, e) ↦ elim (Option-cases (find_by (has_soul_id row.id) s.soul_sessions)) [
              | inl f ↦ absurd (ground (arith, rw (t, e, f) at h))
              | inr (row', f) ↦
                  elim (Bool-cases (any (has_compact_id input.compact_id) s.compacts)) [
                    | inl c ↦ absurd (ground (arith, rw (t, e, f, c) at h))
                    | inr c ↦ elim (Bool-cases (any (same_place row.id row'.next_seq) s.items)) [
                      | inl d ↦ absurd (ground (arith, rw (t, e, f, c, d) at h))
                      | inr d ↦ let q = rw (t, e, f, c, d) at h in ground (arith, q)
                    ]
                  ]
            ]
          ]
    ]

module _ (ids : CompactIds) (request : CompactRequest) (soul_session : SoulSession) (start end : ℕ)
    (key : String) where
  abbrev pub starting : StartTurn
  starting = record {
    turn_id = ids.turn_id;
    soul_session_id = soul_session.id;
    trigger_type = TurnTriggerType.system;
    trigger_ref = some (format ("session_compact:" ∷ debug_reason request.reason ∷ []));
    input_through_session_seq = end;
  }

  abbrev appending : Turn → AppendCompact
  appending turn = record {
    compact_id = ids.compact_id;
    turn_id = turn.id;
    summary = trim request.summary;
    start_session_seq = start;
    end_session_seq = end;
  }

  abbrev completing : Turn → CompleteTurn
  completing turn = record { turn_id = turn.id; last_seen_session_seq = end; provider_state = none }

  pub record Written (w : World) (c : Compact) (w' : World) : Type 0 where
    pub same_summary : c.summary ≡ trim request.summary
    pub same_start : c.start_session_seq ≡ start
    pub same_end : c.end_session_seq ≡ end
    pub given_back : w'.held ≡ filter (λ k. not (str_eq key k)) w.held

  module _ (w w' : World) (c : Compact)
      (h : write_compact ids (record { key = key }) request soul_session start end w
        ≡ (ok c, w')) where
    announced :
        (now : String) (turn : Turn) (item : AssemblyItem) (db1 db2 db3 : Db) (last : Turn)
        → start_turn starting w.db ≡ (ok turn, db1)
        → append_compact (appending turn) db1 ≡ (ok item, db2)
        → complete_turn (completing turn) db2 ≡ (ok last, db3)
        → item.target ≡ AssemblyTarget.compact (made (appending turn) now)
        → Written w c w'
    unfolding write_compact release publish announce
    announced now turn item db1 db2 db3 last a b d t =
        let q = rw (a, b, d, t) at h in
        let e : c ≡ made (appending turn) now = ground (arith, q) in
        record {
          same_summary = ap (λ x. x.summary) e;
          same_start = ap (λ x. x.start_session_seq) e;
          same_end = ap (λ x. x.end_session_seq) e;
          given_back = ap (λ x. x.held) (sym (ap second q));
        }

    from_complete :
        (turn : Turn) (item : AssemblyItem) (db1 db2 : Db) (x : Result Error Turn × Db)
        → start_turn starting w.db ≡ (ok turn, db1)
        → append_compact (appending turn) db1 ≡ (ok item, db2)
        → complete_turn (completing turn) db2 ≡ x
        → Written w c w'
    unfolding write_compact publish
    from_complete turn item db1 db2 (err e, db3) a b d = absurd (ground (arith, rw (a, b, d) at h))
    from_complete turn item db1 db2 (ok last, db3) a b d =
        announced db1.now turn item db1 db2 db3 last a b d
          (append_compact-ok (appending turn) db1 db2 item b)

    from_append :
        (turn : Turn) (db1 : Db) (x : Result Error AssemblyItem × Db)
        → start_turn starting w.db ≡ (ok turn, db1)
        → append_compact (appending turn) db1 ≡ x
        → Written w c w'
    unfolding write_compact publish
    from_append turn db1 (err e, db2) a b = absurd (ground (arith, rw (a, b) at h))
    from_append turn db1 (ok item, db2) a b =
        from_complete turn item db1 db2 (complete_turn (completing turn) db2) a b refl

    from_start : (x : Result Error Turn × Db) → start_turn starting w.db ≡ x → Written w c w'
    unfolding write_compact publish
    from_start (err e, db1) a = absurd (ground (arith, rw a at h))
    from_start (ok turn, db1) a = from_append turn db1 (append_compact (appending turn) db1) a refl

    pub write_compact-Written : Written w c w'
    write_compact-Written = from_start (start_turn starting w.db) refl
