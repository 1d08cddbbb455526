-- ===== src/Store/Items.antt =====
-- crates/santi-db/src/adapter/standalone/soul_runtime: the entries of a soul session, appended by
-- runtime_port.rs and compact.rs.
use santi.Model.Session.{Compact}
use santi.Base.{
  ℕ, String, Bool, true, false, ◌&&◌, ◌||◌, Option, none, some, [], ◌∷◌, ◌++◌, str_eq, any, find_by,
  if◌then◌else◌,
}
use santi.Base.Exec.{Exec, ok, err, pure, lift, ok_or, ◌>>=◌, ◌>>◌}
use santi.Model.Error.{Error, not_found, internal}
use santi.Model.Json.{Value}
use santi.Model.Session.{
  Turn, ToolCall, ToolResult, SoulSessionEntry, SoulSessionTargetType, AssemblyItem, AssemblyTarget,
}
use santi.Store.{Db, transaction}
use santi.Store.Mapping.{option_map}
use santi.Store.Sessions.{has_message_id}
use santi.Store.{CompactRow}
use santi.Store.Souls.{has_soul_id, allocate_seq, insert_item, map_ref_message_row}
use santi.Store.Turns.{has_turn_id}

abbrev pub item_for : SoulSessionEntry → AssemblyTarget → AssemblyItem
item_for entry target = record { entry = entry; target = target }

-- `append_message_ref(soul_session_id, message_id)`.
unfoldable pub append_message_ref : String → String → Exec Db Error AssemblyItem
unfolding allocate_seq insert_item map_ref_message_row
append_message_ref soul_session_id message_id = transaction do
  seq ← allocate_seq soul_session_id
  entry ← insert_item soul_session_id SoulSessionTargetType.message message_id seq
  message ← λ s.
      lift
        (ok_or (find_by (has_message_id message_id) s.session_messages)
          (not_found "session_message"))
        s
  pure (item_for entry (AssemblyTarget.message (map_ref_message_row message)))

pub record AppendToolCall : Type 0 where
  pub tool_call_id : String
  pub turn_id : String
  pub tool_name : String
  pub arguments : Value

abbrev pub tool_call_target : AppendToolCall → String → ToolCall
tool_call_target input created_at = record {
  id = input.tool_call_id;
  turn_id = input.turn_id;
  tool_name = input.tool_name;
  arguments = input.arguments;
  created_at = created_at;
}

abbrev pub has_call_id : String → ToolCall → Bool
has_call_id id call = str_eq call.id id

unfoldable pub insert_tool_call : AppendToolCall → Exec Db Error (Unit {0})
insert_tool_call input s =
    if any (has_call_id input.tool_call_id) s.tool_calls
    then (err (internal "standalone insert tool call failed"), s)
    else (ok tt, record s { tool_calls = s.tool_calls ++ tool_call_target input s.now ∷ [] })

unfoldable pub soul_of_turn : String → Exec Db Error String
soul_of_turn turn_id s = (
  ok_or (option_map (λ t. t.soul_session_id) (find_by (has_turn_id turn_id) s.turns))
      (not_found "standalone_turn"),
  s,
)

unfoldable pub append_tool_call : AppendToolCall → Exec Db Error AssemblyItem
unfolding insert_tool_call soul_of_turn allocate_seq insert_item
append_tool_call input = transaction do
  insert_tool_call input
  soul_session_id ← soul_of_turn input.turn_id
  seq ← allocate_seq soul_session_id
  entry ← insert_item soul_session_id SoulSessionTargetType.tool_call input.tool_call_id seq
  pure (item_for entry (AssemblyTarget.tool_call (tool_call_target input entry.created_at)))

pub record AppendToolResult : Type 0 where
  pub tool_result_id : String
  pub tool_call_id : String
  pub output : Option Value
  pub error_text : Option String

abbrev pub tool_result_target : AppendToolResult → String → ToolResult
tool_result_target input created_at = record {
  id = input.tool_result_id;
  tool_call_id = input.tool_call_id;
  output = input.output;
  error_text = input.error_text;
  created_at = created_at;
}

-- The primary key and UNIQUE(tool_call_id).
abbrev pub result_conflicts : AppendToolResult → ToolResult → Bool
result_conflicts input row =
    str_eq row.id input.tool_result_id || str_eq row.tool_call_id input.tool_call_id

unfoldable pub insert_tool_result : AppendToolResult → Exec Db Error (Unit {0})
insert_tool_result input s =
    if any (result_conflicts input) s.tool_results
    then (err (internal "standalone insert tool result failed"), s)
    else (ok tt, record s { tool_results = s.tool_results ++ tool_result_target input s.now ∷ [] })

abbrev is_tool_call : SoulSessionTargetType → Bool
is_tool_call SoulSessionTargetType.tool_call = true
is_tool_call _ = false

abbrev pub call_entry : String → SoulSessionEntry → Bool
call_entry id entry = is_tool_call entry.target_type && str_eq entry.target_id id

unfoldable pub soul_of_call : String → Exec Db Error String
soul_of_call tool_call_id s = (
  ok_or (option_map (λ e. e.soul_session_id) (find_by (call_entry tool_call_id) s.items))
      (not_found "tool_call"),
  s,
)

unfoldable pub append_tool_result : AppendToolResult → Exec Db Error AssemblyItem
unfolding insert_tool_result soul_of_call allocate_seq insert_item
append_tool_result input = transaction do
  insert_tool_result input
  soul_session_id ← soul_of_call input.tool_call_id
  seq ← allocate_seq soul_session_id
  entry ← insert_item soul_session_id SoulSessionTargetType.tool_result input.tool_result_id seq
  pure (item_for entry (AssemblyTarget.tool_result (tool_result_target input entry.created_at)))

pub record AppendCompact : Type 0 where
  pub compact_id : String
  pub turn_id : String
  pub summary : String
  pub start_session_seq : ℕ
  pub end_session_seq : ℕ

abbrev pub has_compact_id : String → CompactRow → Bool
has_compact_id id row = str_eq row.id id

abbrev pub compact_row : AppendCompact → String → String → CompactRow
compact_row input session_id now = record {
  id = input.compact_id;
  session_id = session_id;
  turn_id = input.turn_id;
  summary = input.summary;
  start_session_seq = input.start_session_seq;
  end_session_seq = input.end_session_seq;
  created_at = now;
}

unfoldable pub insert_compact : AppendCompact → String → Exec Db Error Compact
insert_compact input session_id s =
    if any (has_compact_id input.compact_id) s.compacts
    then (err (internal "insert standalone compact failed"), s)
    else (
      ok (record {
        id = input.compact_id;
        turn_id = input.turn_id;
        summary = input.summary;
        start_session_seq = input.start_session_seq;
        end_session_seq = input.end_session_seq;
        created_at = s.now;
      }),
      record s { compacts = s.compacts ++ compact_row input session_id s.now ∷ [] },
    )

-- The join of a turn with its soul session: the soul session's id and its session's.
abbrev pub joined : Db → Option Turn → Option (String × String)
joined s none = none
joined s (some turn) =
    option_map (λ row. (row.id, row.session_id))
      (find_by (has_soul_id turn.soul_session_id) s.soul_sessions)

unfoldable pub turn_row : String → Exec Db Error (String × String)
turn_row turn_id s =
    (ok_or (joined s (find_by (has_turn_id turn_id) s.turns)) (not_found "standalone_turn"), s)

unfoldable pub append_compact : AppendCompact → Exec Db Error AssemblyItem
unfolding turn_row allocate_seq insert_compact insert_item
append_compact input = transaction do
  (soul_session_id, session_id) ← turn_row input.turn_id
  seq ← allocate_seq soul_session_id
  compact ← insert_compact input session_id
  entry ← insert_item soul_session_id SoulSessionTargetType.compact input.compact_id seq
  pure (item_for entry (AssemblyTarget.compact compact))
