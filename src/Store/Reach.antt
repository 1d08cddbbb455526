-- ===== src/Store/Reach.antt =====
-- crates/santi-db/src/adapter/standalone: the invariant of every state that the operations reach.
use santi.Store.Growth.{Kept}
use santi.Store.Valid.{Leaves}
use santi.Base.{sym, subst, inl, inr, In, arith}
use santi.Base.Exec.{Result}
use santi.Model.Error.{Error}
use santi.Model.Session.{AssemblyItem}
use santi.Store.{Db}
use santi.Store.Items.{append_message_ref, append_tool_call, append_tool_result, append_compact}
use santi.Store.Entries.{
  Outcome, append_message_ref-Outcome, append_tool_call-Outcome, append_tool_result-Outcome,
  append_compact-Outcome,
}
use santi.Store.Valid.{
  Valid, Untouched-Valid, create_session-Untouched, set_session_memory-Untouched,
  append_message-Untouched, store_message_event-Untouched, create_effect-Untouched,
  update_effect-Untouched,
}
use santi.Store.Growth.{
  Kept, Keeps-Valid, acquire_soul_session-Keeping, write_session_memory-Keeping,
  fork_soul_session-Keeping,
}
use santi.Store.Turning.{start_turn-Valid, complete_turn-Valid, fail_turn-Valid}
use santi.Store.Sessions.{create_session, set_session_memory, append_message, store_message_event}
use santi.Store.Souls.{acquire_soul_session, write_session_memory}
use santi.Store.Forks.{fork_soul_session}
use santi.Store.Effects.{create_effect, update_effect}
use santi.Store.Steps.{Operation, run, Reachable, initial, step}

entry-Valid :
    (s : Db) (p : Result Error AssemblyItem × Db)
    → Outcome s p
    → Valid s
    → Valid (let (r, s') = p in s')
entry-Valid s (r, s') (inr (e, _, h)) v = subst Valid (sym h) v
entry-Valid s (r, s') (inl (item, _, a)) (n, o) = (
  a.numbered,
  λ t i.
      let (b, g) = o t (subst (In t) a.turns i) in (omega (arith, b, a.grows t.soul_session_id), g),
)

module _ {A : Type 0} (s : Db) where
  untouched : (p : Result Error A × Db) → Leaves s p → Valid s → Valid (let (r, s') = p in s')
  untouched (r, s') u v = Untouched-Valid s s' u v

  kept : (p : Result Error A × Db) → Kept s p → Valid s → Valid (let (r, s') = p in s')
  kept (r, s') k v = Keeps-Valid s s' k v

run-Valid : (op : Operation) (s : Db) → Valid s → Valid (run op s)
unfolding run
run-Valid (Operation.create id) s v =
    untouched s (create_session id s) (create_session-Untouched id s) v
run-Valid (Operation.remember id memory) s v =
    untouched s (set_session_memory id memory s) (set_session_memory-Untouched id memory s) v
run-Valid (Operation.append input) s v =
    untouched s (append_message input s) (append_message-Untouched input s) v
run-Valid (Operation.event input) s v =
    untouched s (store_message_event input s) (store_message_event-Untouched input s) v
run-Valid (Operation.acquire soul_id session_id) s v =
    kept s (acquire_soul_session soul_id session_id s)
      (acquire_soul_session-Keeping soul_id session_id s) v
run-Valid (Operation.remember_soul id memory) s v =
    kept s (write_session_memory id memory s) (write_session_memory-Keeping id memory s) v
run-Valid (Operation.start input) s v = start_turn-Valid input s v
run-Valid (Operation.complete input) s v = complete_turn-Valid input s v
run-Valid (Operation.fail id text) s v = fail_turn-Valid id text s v
run-Valid (Operation.refer id message_id) s (n, o) =
    entry-Valid s (append_message_ref id message_id s)
      (append_message_ref-Outcome s id message_id n) (n, o)
run-Valid (Operation.call input) s (n, o) =
    entry-Valid s (append_tool_call input s) (append_tool_call-Outcome s input n) (n, o)
run-Valid (Operation.answer input) s (n, o) =
    entry-Valid s (append_tool_result input s) (append_tool_result-Outcome s input n) (n, o)
run-Valid (Operation.compact input) s (n, o) =
    entry-Valid s (append_compact input s) (append_compact-Outcome s input n) (n, o)
run-Valid (Operation.fork fresh parent point id session_id) s v =
    kept s (fork_soul_session fresh parent point id session_id s)
      (fork_soul_session-Keeping fresh parent point id session_id s) v
run-Valid (Operation.create_handoff input) s v =
    untouched s (create_effect input s) (create_effect-Untouched input s) v
run-Valid (Operation.update_handoff input) s v =
    untouched s (update_effect input s) (update_effect-Untouched input s) v
run-Valid (Operation.tick now) s v = v

-- In every state that operations reach from an empty store, each entry has a number that its soul
-- session has given out, and each turn starts at or before the last number given out and ends at
-- or after its start.
pub Reachable-Valid : (s : Db) → Reachable s → Valid s
Reachable-Valid s (initial now) = (λ e i. elim i [ ], λ t i. elim i [ ])
Reachable-Valid s (step {s = r} reach op) = run-Valid op r (Reachable-Valid r reach)
