-- ===== src/Tools/Types.antt =====
-- crates/santi-runtime/src/runtime: tools.rs and context.rs, the data of the tools.
use santi.Base.{ℕ, String, Bool, Option}
use santi.Base.Int.{ℤ}
use santi.Model.Json.{Value}
use santi.Model.Provider.{FunctionCallOutput}

-- context.rs; a path is its text.
pub record ToolRuntimeContext : Type 0 where
  pub session_id : String
  pub soul_id : String
  pub soul_memory_dir : String
  pub session_memory_dir : String
  pub fallback_cwd : String

pub record ToolDispatchResult : Type 0 where
  pub tool_name : String
  pub ok : Bool
  pub tool_output : Value
  pub function_call_output : FunctionCallOutput

pub record BashToolInput : Type 0 where
  pub command : String
  pub cwd : Option String

pub data ToolCallFeedbackMsg : Type 0 where
  normal_tool_call tool_call_timeout tool_output_limit_exceeded : ToolCallFeedbackMsg

pub record BashToolResult : Type 0 where
  pub exit_code : ℤ
  pub stdout : String
  pub stderr : String
  pub stdout_chars : ℕ
  pub stderr_chars : ℕ
  pub stdout_truncated : Bool
  pub stderr_truncated : Bool
  pub stdout_artifact_path : Option String
  pub stderr_artifact_path : Option String

pub record BashToolResultEnvelope : Type 0 where
  pub feedback_msg : ToolCallFeedbackMsg
  pub duration_ms : ℕ
  pub bash_result : BashToolResult
