-- ===== src/Store/Listings.antt =====
-- crates/santi-db/src/adapter/standalone: the lists of effect_ledger.rs, soul_runtime/compact.rs and
-- soul_runtime/query_port.rs. Rows with the same time come in the order of insertion.
use santi.Base.{
  String, Bool, true, false, ◌&&◌, Option, none, some, List, [], ◌∷◌, ◌++◌, map, filter, find_by,
  str_eq, leb, if◌then◌else◌,
}
use santi.Base.Texts.{text_leb}
use santi.Base.Exec.{Exec, ok, ok_or, ◌>>=◌}
use santi.Model.Error.{Error, not_found}
use santi.Model.Session.{
  SessionEffect, Compact, ToolActivity, ToolCall, ToolResult, SoulSessionEntry,
  SoulSessionTargetType,
}
use santi.Store.{Db, CompactRow}
use santi.Store.Mapping.{option_map}
use santi.Store.Souls.{has_soul_id}
use santi.Store.Items.{has_call_id}

-- ORDER BY … ASC by a Boolean order: a row goes before the first one that it does not come after.
unfoldable pub place {ℓ} : {A : Type ℓ} → (A → A → Bool) → A → List A → List A
place before x [] = x ∷ []
place before x (y ∷ ys) =
    let rest = place before x ys in if before x y then x ∷ y ∷ ys else y ∷ rest

unfoldable pub order_by {ℓ} : {A : Type ℓ} → (A → A → Bool) → List A → List A
unfolding place
order_by before [] = []
order_by before (x ∷ xs) = place before x (order_by before xs)

abbrev pub effect_of : String → SessionEffect → Bool
effect_of session_id effect = str_eq effect.session_id session_id

unfoldable pub list_effects : String → Exec Db Error (List SessionEffect)
unfolding order_by text_leb
list_effects session_id s = (
  ok (
      order_by (λ a b. text_leb a.created_at b.created_at)
        (filter (effect_of session_id) s.effects)),
  s,
)

abbrev pub compact_of : String → CompactRow → Bool
compact_of session_id row = str_eq row.session_id session_id

abbrev pub map_compact_row : CompactRow → Compact
map_compact_row row = record {
  id = row.id;
  turn_id = row.turn_id;
  summary = row.summary;
  start_session_seq = row.start_session_seq;
  end_session_seq = row.end_session_seq;
  created_at = row.created_at;
}

abbrev compacts_in : String → Exec Db Error (List Compact)
compacts_in session_id s = (
  ok (
      map map_compact_row (
        order_by (λ a b. text_leb a.created_at b.created_at)
          (filter (compact_of session_id) s.compacts))),
  s,
)

abbrev session_id_of : String → Exec Db Error String
session_id_of soul_session_id s = (
  ok_or (option_map (λ row. row.session_id) (find_by (has_soul_id soul_session_id) s.soul_sessions))
      (not_found "standalone_soul_session"),
  s,
)

unfoldable pub list_compacts : String → Exec Db Error (List Compact)
unfolding order_by text_leb
list_compacts soul_session_id = session_id_of soul_session_id >>= compacts_in

-- query_port.rs: the joins. A call has no result, or its results each with the entries that it has.
abbrev pub is_call : SoulSessionTargetType → Bool
is_call SoulSessionTargetType.tool_call = true
is_call _ = false

abbrev pub is_result : SoulSessionTargetType → Bool
is_result SoulSessionTargetType.tool_result = true
is_result _ = false

abbrev pub concat_map {ℓ κ} : {A : Type ℓ} {B : Type κ} → (A → List B) → List A → List B
concat_map f [] = []
concat_map f (x ∷ xs) = f x ++ concat_map f xs

-- A left join: one row of none when there is nothing to join.
abbrev pub or_none {ℓ} : {A : Type ℓ} → List A → List (Option A)
or_none [] = none ∷ []
or_none (x ∷ xs) = some x ∷ map some xs

abbrev pub call_items : Db → String → List SoulSessionEntry
call_items s soul_session_id =
    order_by (λ a b. leb a.soul_session_seq b.soul_session_seq)
      (filter (λ e. str_eq e.soul_session_id soul_session_id && is_call e.target_type) s.items)

abbrev pub result_items : Db → String → Option ToolResult → List (Option SoulSessionEntry)
result_items s soul_session_id none = none ∷ []
result_items s soul_session_id (some result) = or_none (
    filter
      (λ e.
        str_eq e.soul_session_id soul_session_id
        && is_result e.target_type
        && str_eq e.target_id result.id)
      s.items)

abbrev pub activity :
    SoulSessionEntry → ToolCall → Option ToolResult → Option SoulSessionEntry → ToolActivity
activity item tool_call tool_result result_item = record {
  tool_call = tool_call;
  tool_call_seq = item.soul_session_seq;
  tool_result = tool_result;
  tool_result_seq = option_map (λ e. e.soul_session_seq) result_item;
}

abbrev pub activities_of : Db → SoulSessionEntry → List ToolActivity
activities_of s item =
    concat_map
      (λ tool_call.
        concat_map
          (λ tool_result.
            map (activity item tool_call tool_result)
              (result_items s item.soul_session_id tool_result))
          (or_none (filter (λ r. str_eq r.tool_call_id tool_call.id) s.tool_results)))
      (filter (has_call_id item.target_id) s.tool_calls)

unfoldable pub list_tool_activities : String → Exec Db Error (List ToolActivity)
unfolding order_by
list_tool_activities soul_session_id s =
    (ok (concat_map (activities_of s) (call_items s soul_session_id)), s)
