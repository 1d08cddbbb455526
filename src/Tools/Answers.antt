-- ===== src/Tools/Answers.antt =====
-- crates/santi-runtime/src/runtime/tools.rs: the results of the tools and the calls that asked for them.
use santi.Tools.BashResults.{
  build_bash_dispatch_result, envelope_value, bash_model_tool_output, bash_dispatch_result,
  prefixed, is_normal,
}
use santi.Base.{String, Bool, ◌≡◌, refl, Option, some, none, str_eq, Bool-cases, inl, inr}
use santi.Base.Exec.{Exec, Result, ok, err}
use santi.Model.Json.{Value}
use santi.Model.Provider.{ProviderFunctionCall}
use santi.Store.{Db}
use santi.Tools.{
  ToolExecutor, dispatch, dispatch_write_soul_memory, dispatch_write_session_memory, dispatch_bash,
  dispatch_memory, dispatch_bash_args, soul_memory_tool, session_memory_tool, memory_result,
  bash_result, resolve_cwd,
}
use santi.Tools.Types.{
  ToolRuntimeContext, ToolDispatchResult, BashToolInput, BashToolResultEnvelope,
}
use santi.Tools.Results.{
  text_args, bash_args, parsed_args, build_failed_dispatch_result, build_success_dispatch_result,
}

abbrev pub Answers : ProviderFunctionCall → Result String ToolDispatchResult × Db → Type 0
Answers call (ok r, s) = r.function_call_output.call_id ≡ call.call_id
Answers call (err e, s) = Unit {0}

module _ (tools : ToolExecutor) (call : ProviderFunctionCall) where
  memory_result-Answers :
      (r : Result String Bool) (s : Db) → Answers call (memory_result tools call r, s)
  unfolding build_success_dispatch_result build_failed_dispatch_result
  memory_result-Answers (ok b) s = refl
  memory_result-Answers (err e) s = refl

  bash_parts-Answers :
      (normal : Bool) (a b : Result String Value) (s : Db)
      → Answers call (bash_dispatch_result tools.to_string call.name call.call_id normal a b, s)
  bash_parts-Answers normal (ok a) (ok b) s = refl
  bash_parts-Answers normal (ok a) (err e) s = tt
  bash_parts-Answers normal (err e) b s = tt

  bash_result-Answers :
      (r : Result String BashToolResultEnvelope) (s : Db)
      → Answers call (bash_result tools call r, s)
  unfolding build_bash_dispatch_result build_failed_dispatch_result
  bash_result-Answers (ok r) s =
      bash_parts-Answers (is_normal r.feedback_msg)
        (prefixed "serialize bash tool output failed: " (envelope_value r))
        (bash_model_tool_output r) s
  bash_result-Answers (err e) s = refl

  -- What refuses the arguments of a call is a result for it.
  abbrev Refuses : {A : Type 0} → Result ToolDispatchResult A → Type 0
  Refuses (err r) = r.function_call_output.call_id ≡ call.call_id
  Refuses (ok a) = Unit {0}

  parsed-Refuses :
      {A : Type 0} (tool_name : String) (o : Option A)
      → Refuses (parsed_args tools.to_string tools.describe call tool_name o)
  unfolding build_failed_dispatch_result
  parsed-Refuses tool_name (some a) = tt
  parsed-Refuses tool_name none = refl

  memory-Answers :
      (tool : String → Exec Db String Bool) (r : Result ToolDispatchResult String) (s : Db)
      → Refuses r
      → Answers call (dispatch_memory tools call tool r s)
  memory-Answers tool (err r) s h = h
  memory-Answers tool (ok text) s h = ran (tool text s)
    where
      ran :
          (p : Result String Bool × Db)
          → Answers call (let (r, u) = p in (memory_result tools call r, u))
      ran (r, u) = memory_result-Answers r u

  module _ (ctx : ToolRuntimeContext) where
    bash-Answers :
        (r : Result ToolDispatchResult BashToolInput) (s : Db)
        → Refuses r
        → Answers call (dispatch_bash_args tools ctx call r, s)
    unfolding resolve_cwd
    bash-Answers (err r) s h = h
    bash-Answers (ok input) s h =
        bash_result-Answers (tools.run_bash ctx (resolve_cwd ctx input.cwd) input.command) s

    -- A tool that gives a result gives it for the call that it was asked for, whether it ran, it
    -- failed, its arguments were refused, or there is no such tool.
    pub dispatch-Answers : (s : Db) → Answers call (dispatch tools ctx call s)
    unfolding dispatch dispatch_write_soul_memory dispatch_write_session_memory dispatch_bash
        build_failed_dispatch_result
    dispatch-Answers s = elim (Bool-cases (str_eq call.name "write_soul_memory")) [
      | inl e ↦ rw e (
          memory-Answers (soul_memory_tool ctx) _ s
            (parsed-Refuses "write_soul_memory" (text_args call.arguments)))
      | inr e ↦ elim (Bool-cases (str_eq call.name "write_session_memory")) [
        | inl f ↦
            rw (e, f)
              (memory-Answers (session_memory_tool tools ctx) _ s
                (parsed-Refuses "write_session_memory" (text_args call.arguments)))
        | inr f ↦ elim (Bool-cases (str_eq call.name "bash")) [
          | inl g ↦
              rw (e, f, g) (bash-Answers _ s (parsed-Refuses "bash" (bash_args call.arguments)))
          | inr g ↦ rw (e, f, g) refl
        ]
      ]
    ]
