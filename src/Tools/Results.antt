-- ===== src/Tools/Results.antt =====
-- crates/santi-runtime/src/runtime/tools/dispatch_result.rs: the arguments of a call and its
-- result. The printing of JSON, `to_string`, is an argument.
use santi.Base.{
  ℕ, ◌^◌, String, Bool, true, false, Option, none, some, List, [], ◌∷◌, ltb, if◌then◌else◌,
}
use santi.Base.Int.{pos}
use santi.Base.Texts.{format, decimal}
use santi.Base.Exec.{Result, ok, err}
use santi.Model.Json.{Value, Items, Fields, get}
use santi.Model.Provider.{ProviderFunctionCall}
use santi.Tools.Types.{ToolDispatchResult, BashToolInput}

-- The object with these fields.
abbrev pub fields_of : List (String × Value) → Fields
fields_of [] = Fields.end
fields_of ((k, v) ∷ kvs) = Fields.field k v (fields_of kvs)

abbrev pub object_of : List (String × Value) → Value
object_of kvs = Value.object (fields_of kvs)

-- A count as a JSON number: one that is no `i64` is kept as its text.
abbrev pub number : ℕ → Value
number n = if ltb n (2 ^ 63) then Value.int (pos n) else Value.float (decimal n)

abbrev pub optional_text : Option String → Value
optional_text none = Value.null
optional_text (some s) = Value.text s

-- The derived `Deserialize` of a struct with one text `text`: an object or a list of one.
unfoldable pub text_args : Value → Option String
unfolding get
text_args (Value.object m) = text_of (get "text" m)
  where
    text_of : Option Value → Option String
    text_of (some (Value.text s)) = some s
    text_of _ = none
text_args (Value.array (Items.cons (Value.text s) Items.nil)) = some s
text_args _ = none

-- An `Option<String>` field: one that is missing or null is none.
abbrev optional_arg : Option Value → Option (Option String)
optional_arg none = some none
optional_arg (some Value.null) = some none
optional_arg (some (Value.text s)) = some (some s)
optional_arg (some _) = none

abbrev bash_input : Option Value → Option (Option String) → Option BashToolInput
bash_input (some (Value.text command)) (some cwd) = some (record { command = command; cwd = cwd })
bash_input _ _ = none

unfoldable pub bash_args : Value → Option BashToolInput
unfolding get
bash_args (Value.object m) = bash_input (get "command" m) (optional_arg (get "cwd" m))
bash_args (Value.array (Items.cons command (Items.cons cwd Items.nil))) =
    bash_input (some command) (optional_arg (some cwd))
bash_args _ = none

unfoldable pub build_failed_dispatch_result :
    (Value → String) → String → String → String → ToolDispatchResult
build_failed_dispatch_result to_string tool_name call_id message =
    let tool_output = object_of (
      ("ok", Value.bool false)
      ∷ (
        "error",
        object_of (("type", Value.text "tool_error") ∷ ("message", Value.text message) ∷ []),
      )
      ∷ []) in
    record {
      tool_name = tool_name;
      ok = false;
      tool_output = tool_output;
      function_call_output = record { call_id = call_id; output = to_string tool_output };
    }

-- Of `ToolCallOk { ok }`, which always serializes.
unfoldable pub build_success_dispatch_result :
    (Value → String) → String → String → Bool → Result String ToolDispatchResult
build_success_dispatch_result to_string tool_name call_id success =
    let tool_output = object_of (("ok", Value.bool success) ∷ []) in
    ok (record {
      tool_name = tool_name;
      ok = true;
      tool_output = tool_output;
      function_call_output = record { call_id = call_id; output = to_string tool_output };
    })

-- `describe` is what serde says of a value that does not fit.
abbrev pub parsed_args :
    {A : Type 0}
    → (Value → String)
    → (Value → String)
    → ProviderFunctionCall
    → String
    → Option A
    → Result ToolDispatchResult A
parsed_args to_string describe call tool_name (some args) = ok args
parsed_args to_string describe call tool_name none = err (
    build_failed_dispatch_result to_string call.name call.call_id
      (format ("invalid " ∷ tool_name ∷ " arguments: " ∷ describe call.arguments ∷ [])))

abbrev pub parse_tool_args :
    {A : Type 0}
    → (Value → String)
    → (Value → String)
    → (Value → Option A)
    → ProviderFunctionCall
    → String
    → Result ToolDispatchResult A
parse_tool_args to_string describe parse call tool_name =
    parsed_args to_string describe call tool_name (parse call.arguments)
