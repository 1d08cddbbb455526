-- ===== src/Model/Provider.antt =====
-- crates/santi-core/src/port/provider.rs: what a provider is asked and what it answers.
use santi.Base.{String, Option, List}
use santi.Model.Json.{Value}
use santi.Assembly.{ProviderInputMessage}

pub record FunctionCallOutput : Type 0 where
  pub call_id : String
  pub output : String

pub record ProviderFunctionTool : Type 0 where
  pub name : String
  pub description : String
  pub parameters : Value

pub data ProviderTool : Type 0 where
  function : ProviderFunctionTool → ProviderTool

pub record ProviderRequest : Type 0 where
  pub model : String
  pub instructions : Option String
  pub input : List ProviderInputMessage
  pub tools : Option (List ProviderTool)
  pub previous_response_id : Option String
  pub function_call_outputs : Option (List FunctionCallOutput)

pub record ProviderFunctionCall : Type 0 where
  pub response_id : String
  pub item_id : Option String
  pub call_id : String
  pub name : String
  pub arguments_raw : String
  pub arguments : Value

pub data ProviderEvent : Type 0 where
  output_text_delta : String → ProviderEvent
  function_call_requested : ProviderFunctionCall → ProviderEvent
  completed : Option String → ProviderEvent
