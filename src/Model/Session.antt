-- ===== src/Model/Session.antt =====
-- crates/santi-core/src/model: session.rs, runtime.rs, effect.rs and soul.rs. Sequence numbers are counted
-- up from 1 by the store and kept as plain numbers; `fork_point` is an `i64` that a caller chose.
use santi.Base.{ℕ, String, Option}
use santi.Base.Int.{ℤ}
use santi.Model.Json.{Value}
use santi.Model.Message.{Message}

pub record Session : Type 0 where
  pub id : String
  pub parent_session_id : Option String
  pub fork_point : Option ℤ
  pub created_at : String
  pub updated_at : String

pub record SessionMessageRef : Type 0 where
  pub session_id : String
  pub message_id : String
  pub session_seq : ℕ
  pub created_at : String

pub record SessionMessage : Type 0 where
  pub relation : SessionMessageRef
  pub message : Message

pub record ProviderState : Type 0 where
  pub provider : String
  pub basis_soul_session_seq : ℤ
  pub opaque : Value
  pub schema_version : Option String

pub record SoulSession : Type 0 where
  pub id : String
  pub soul_id : String
  pub session_id : String
  pub session_memory : String
  pub provider_state : Option ProviderState
  pub next_seq : ℕ
  pub last_seen_session_seq : ℕ
  pub parent_soul_session_id : Option String
  pub fork_point : Option ℤ
  pub created_at : String
  pub updated_at : String

pub data TurnTriggerType : Type 0 where
  session_send system : TurnTriggerType

pub data TurnStatus : Type 0 where
  running completed failed : TurnStatus

pub record Turn : Type 0 where
  pub id : String
  pub soul_session_id : String
  pub trigger_type : TurnTriggerType
  pub trigger_ref : Option String
  pub input_through_session_seq : ℕ
  pub base_soul_session_seq : ℕ
  pub end_soul_session_seq : Option ℕ
  pub status : TurnStatus
  pub error_text : Option String
  pub created_at : String
  pub updated_at : String
  pub finished_at : Option String

pub record ToolCall : Type 0 where
  pub id : String
  pub turn_id : String
  pub tool_name : String
  pub arguments : Value
  pub created_at : String

pub record ToolResult : Type 0 where
  pub id : String
  pub tool_call_id : String
  pub output : Option Value
  pub error_text : Option String
  pub created_at : String

pub record Compact : Type 0 where
  pub id : String
  pub turn_id : String
  pub summary : String
  pub start_session_seq : ℕ
  pub end_session_seq : ℕ
  pub created_at : String

pub data SoulSessionTargetType : Type 0 where
  message compact tool_call tool_result : SoulSessionTargetType

pub record SoulSessionEntry : Type 0 where
  pub soul_session_id : String
  pub target_type : SoulSessionTargetType
  pub target_id : String
  pub soul_session_seq : ℕ
  pub created_at : String

pub data AssemblyTarget : Type 0 where
  message : SessionMessage → AssemblyTarget
  compact : Compact → AssemblyTarget
  tool_call : ToolCall → AssemblyTarget
  tool_result : ToolResult → AssemblyTarget

pub record AssemblyItem : Type 0 where
  pub entry : SoulSessionEntry
  pub target : AssemblyTarget

pub record SessionEffect : Type 0 where
  pub id : String
  pub session_id : String
  pub effect_type : String
  pub idempotency_key : String
  pub status : String
  pub source_hook_id : String
  pub source_turn_id : String
  pub result_ref : Option String
  pub error_text : Option String
  pub created_at : String
  pub updated_at : String

pub record Soul : Type 0 where
  pub id : String
  pub memory : String
  pub created_at : String
  pub updated_at : String

pub record ToolActivity : Type 0 where
  pub tool_call : ToolCall
  pub tool_call_seq : ℕ
  pub tool_result : Option ToolResult
  pub tool_result_seq : Option ℕ
