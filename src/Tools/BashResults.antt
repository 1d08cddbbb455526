-- ===== src/Tools/BashResults.antt =====
-- crates/santi-runtime/src/runtime/tools/dispatch_result.rs: the results of a run of bash.
use santi.Base.{ℕ, ◌^◌, String, Bool, true, false, not, ◌||◌, [], ◌∷◌, ltb, leb, if◌then◌else◌}
use santi.Base.Texts.{format, decimal, chars_count, take_chars}
use santi.Base.Exec.{Result, ok, err}
use santi.Model.Json.{Value}
use santi.Tools.Types.{ToolDispatchResult, BashToolResultEnvelope, ToolCallFeedbackMsg}
use santi.Tools.Results.{object_of, number, optional_text}

abbrev pub feedback_text : ToolCallFeedbackMsg → String
feedback_text ToolCallFeedbackMsg.normal_tool_call = "normal tool call"
feedback_text ToolCallFeedbackMsg.tool_call_timeout = "tool call timeout"
feedback_text ToolCallFeedbackMsg.tool_output_limit_exceeded = "tool output limit exceeded"

abbrev pub is_normal : ToolCallFeedbackMsg → Bool
is_normal ToolCallFeedbackMsg.normal_tool_call = true
is_normal _ = false

-- `serde_json::to_value(result)`: a `u128` that is no `u64` does not serialize.
unfoldable pub envelope_value : BashToolResultEnvelope → Result String Value
unfolding decimal
envelope_value result =
    let bash = result.bash_result in
    if not (ltb result.duration_ms (2 ^ 64))
    then err "number out of range"
    else ok (
        object_of (
          ("feedback_msg", Value.text (feedback_text result.feedback_msg))
          ∷ ("duration_ms", number result.duration_ms)
          ∷ (
            "bash_result",
            object_of (
                ("exit_code", Value.int bash.exit_code)
                ∷ ("stdout", Value.text bash.stdout)
                ∷ ("stderr", Value.text bash.stderr)
                ∷ ("stdout_chars", number bash.stdout_chars)
                ∷ ("stderr_chars", number bash.stderr_chars)
                ∷ ("stdout_truncated", Value.bool bash.stdout_truncated)
                ∷ ("stderr_truncated", Value.bool bash.stderr_truncated)
                ∷ ("stdout_artifact_path", optional_text bash.stdout_artifact_path)
                ∷ ("stderr_artifact_path", optional_text bash.stderr_artifact_path)
                ∷ []),
          )
          ∷ []))

abbrev pub preview_chars : ℕ
preview_chars = 2000

unfoldable pub preview_for_model : String → String
unfolding format chars_count take_chars
preview_for_model text =
    if leb (chars_count text) preview_chars
    then text
    else format (take_chars preview_chars text ∷ "\n[model-facing preview truncated]" ∷ [])

abbrev pub needs_model_projection : BashToolResultEnvelope → Bool
needs_model_projection result =
    not (is_normal result.feedback_msg)
    || result.bash_result.stdout_truncated
    || result.bash_result.stderr_truncated

abbrev model_projection : Value
model_projection = object_of (
    ("kind", Value.text "bash_output_preview")
    ∷ (
      "note",
      Value.text
          "Large or incomplete bash output is summarized for the model. Use artifact paths with bash if exact content is needed.",
    )
    ∷ [])

unfoldable pub projected_value : BashToolResultEnvelope → Value
unfolding preview_for_model decimal
projected_value result =
    let bash = result.bash_result in
    object_of (
      ("feedback_msg", Value.text (feedback_text result.feedback_msg))
      ∷ ("duration_ms", number result.duration_ms)
      ∷ ("model_projection", model_projection)
      ∷ (
        "bash_result",
        object_of (
            ("exit_code", Value.int bash.exit_code)
            ∷ ("stdout_preview", Value.text (preview_for_model bash.stdout))
            ∷ ("stderr_preview", Value.text (preview_for_model bash.stderr))
            ∷ ("stdout_chars", number bash.stdout_chars)
            ∷ ("stderr_chars", number bash.stderr_chars)
            ∷ ("stdout_truncated", Value.bool bash.stdout_truncated)
            ∷ ("stderr_truncated", Value.bool bash.stderr_truncated)
            ∷ ("stdout_artifact_path", optional_text bash.stdout_artifact_path)
            ∷ ("stderr_artifact_path", optional_text bash.stderr_artifact_path)
            ∷ []),
      )
      ∷ [])

abbrev pub prefixed : String → Result String Value → Result String Value
prefixed what (ok v) = ok v
prefixed what (err message) = err (format (what ∷ message ∷ []))

unfoldable pub bash_model_tool_output : BashToolResultEnvelope → Result String Value
unfolding envelope_value projected_value format
bash_model_tool_output result =
    if not (needs_model_projection result)
    then prefixed "serialize bash model output failed: " (envelope_value result)
    else ok (projected_value result)

abbrev pub bash_dispatch_result :
    (Value → String)
    → String
    → String
    → Bool
    → Result String Value
    → Result String Value
    → Result String ToolDispatchResult
bash_dispatch_result to_string tool_name call_id normal (ok tool_output) (ok model_output) =
    ok (record {
      tool_name = tool_name;
      ok = normal;
      tool_output = tool_output;
      function_call_output = record { call_id = call_id; output = to_string model_output };
    })
bash_dispatch_result to_string tool_name call_id normal (ok tool_output) (err e) = err e
bash_dispatch_result to_string tool_name call_id normal (err e) _ = err e

unfoldable pub build_bash_dispatch_result :
    (Value → String) → String → String → BashToolResultEnvelope → Result String ToolDispatchResult
unfolding envelope_value bash_model_tool_output format
build_bash_dispatch_result to_string tool_name call_id result =
    bash_dispatch_result to_string tool_name call_id (is_normal result.feedback_msg)
      (prefixed "serialize bash tool output failed: " (envelope_value result))
      (bash_model_tool_output result)
