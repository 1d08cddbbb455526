-- ===== src/Store/Steps.antt =====
-- crates/santi-db/src/adapter/standalone: the operations of the session store and of the soul
-- runtime as the steps of one machine.
use santi.Base.{ℕ, String}
use santi.Base.Exec.{Exec}
use santi.Model.Error.{Error}
use santi.Store.{Db, empty}
use santi.Store.Sessions.{
  create_session, set_session_memory, AppendSessionMessage, append_message, ApplyMessageEvent,
  store_message_event,
}
use santi.Store.Souls.{acquire_soul_session, write_session_memory}
use santi.Store.Turns.{StartTurn, start_turn, CompleteTurn, complete_turn, fail_turn}
use santi.Store.Items.{
  append_message_ref, AppendToolCall, append_tool_call, AppendToolResult, append_tool_result,
  AppendCompact, append_compact,
}
use santi.Store.Forks.{fork_soul_session}
use santi.Store.Effects.{CreateSessionEffect, create_effect, UpdateSessionEffect, update_effect}

pub data Operation : Type 0 where
  create : String → Operation
  remember : String → String → Operation
  append : AppendSessionMessage → Operation
  event : ApplyMessageEvent → Operation
  acquire : String → String → Operation
  remember_soul : String → String → Operation
  start : StartTurn → Operation
  complete : CompleteTurn → Operation
  fail : String → String → Operation
  refer : String → String → Operation
  call : AppendToolCall → Operation
  answer : AppendToolResult → Operation
  compact : AppendCompact → Operation
  fork : (ℕ → String) → String → ℕ → String → String → Operation
  create_handoff : CreateSessionEffect → Operation
  update_handoff : UpdateSessionEffect → Operation
  tick : String → Operation

-- The state that an action leaves, whether it succeeds or fails.
abbrev pub left : {A : Type 0} → Exec Db Error A → Db → Db
left m s = let (r, s') = m s in s'

unfoldable pub run : Operation → Db → Db
unfolding create_session set_session_memory append_message store_message_event acquire_soul_session
    write_session_memory start_turn complete_turn fail_turn append_message_ref append_tool_call
    append_tool_result append_compact fork_soul_session create_effect update_effect
run (create id) = left (create_session id)
run (remember id memory) = left (set_session_memory id memory)
run (append input) = left (append_message input)
run (event input) = left (store_message_event input)
run (acquire soul_id session_id) = left (acquire_soul_session soul_id session_id)
run (remember_soul id memory) = left (write_session_memory id memory)
run (start input) = left (start_turn input)
run (complete input) = left (complete_turn input)
run (fail id text) = left (fail_turn id text)
run (refer id message_id) = left (append_message_ref id message_id)
run (call input) = left (append_tool_call input)
run (answer input) = left (append_tool_result input)
run (compact input) = left (append_compact input)
run (fork fresh parent point id session_id) =
    left (fork_soul_session fresh parent point id session_id)
run (create_handoff input) = left (create_effect input)
run (update_handoff input) = left (update_effect input)
run (tick now) = λ s. record s { now = now }

-- The states that some sequence of operations reaches from an empty store.
pub data Reachable : Db → Type 0 where
  initial : (now : String) → Reachable (empty now)
  step : {s : Db} → Reachable s → (op : Operation) → Reachable (run op s)
