-- ===== src/Tools.antt =====
-- crates/santi-runtime/src/runtime: tools.rs, the tools that a provider may call. A run of bash and
-- the printing of JSON are arguments.
pub mod Types
pub mod Results
pub mod BashResults
pub mod Catalog
pub mod Kept
pub mod Answers
pub mod Capture
pub mod Captured
pub mod Examples
use santi.Tools.BashResults.{build_bash_dispatch_result}
use santi.Base.{String, Bool, true, Option, none, some, [], ◌∷◌, str_eq, if◌then◌else◌}
use santi.Base.Texts.{format, join_path, is_absolute}
use santi.Base.Exec.{Exec, Result, ok, err, pure, lift, ok_or, map_error, ◌>>=◌, ◌>>◌}
use santi.Model.Json.{Value}
use santi.Model.Session.{Soul}
use santi.Model.Provider.{ProviderFunctionCall}
use santi.Store.{Db}
use santi.Store.SoulStore as SoulStore
use santi.Runtime.Handoff.{render_core_error}
use santi.Runtime.Memory as Memory
use santi.Tools.Types.{
  ToolRuntimeContext, ToolDispatchResult, BashToolInput, BashToolResultEnvelope,
}
use santi.Tools.Results.{
  text_args, bash_args, parse_tool_args, build_failed_dispatch_result,
  build_success_dispatch_result,
}

-- The directories, the soul of the memory service, and the parts that are arguments: a run of
-- bash in a directory, the printing of JSON, and serde's words on a value that does not fit.
pub record ToolExecutor : Type 0 where
  pub runtime_root : String
  pub execution_root : String
  pub default_soul_id : String
  pub run_bash : ToolRuntimeContext → String → String → Result String BashToolResultEnvelope
  pub to_string : Value → String
  pub describe : Value → String

unfoldable pub build_context : ToolExecutor → String → String → ToolRuntimeContext
unfolding join_path
build_context tools session_id soul_id = record {
  session_id = session_id;
  soul_id = soul_id;
  soul_memory_dir = join_path (join_path (join_path tools.runtime_root "souls") soul_id) "memory";
  session_memory_dir =
      join_path (join_path (join_path tools.runtime_root "sessions") session_id) "memory";
  fallback_cwd = tools.execution_root;
}

unfoldable pub resolve_cwd : ToolRuntimeContext → Option String → String
unfolding join_path
resolve_cwd ctx none = ctx.fallback_cwd
resolve_cwd ctx (some path) = if is_absolute path then path else join_path ctx.fallback_cwd path

-- session/memory.rs, whose `render_error` is the same function as that of effect.rs.
unfoldable pub write_soul_memory : String → String → Exec Db String (Option Soul)
unfolding SoulStore.write_soul_memory render_core_error
write_soul_memory soul_id text =
    map_error render_core_error (SoulStore.write_soul_memory soul_id text)

-- What is left of `ToolCallOk` is its field.
unfoldable pub soul_memory_tool : ToolRuntimeContext → String → Exec Db String Bool
unfolding write_soul_memory
soul_memory_tool ctx text = do
  soul ← write_soul_memory ctx.soul_id text
  lift (ok_or soul "soul not found")
  pure true

unfoldable pub session_memory_tool :
    ToolExecutor → ToolRuntimeContext → String → Exec Db String Bool
unfolding Memory.write_session_memory
session_memory_tool tools ctx text = do
  soul_session ← Memory.write_session_memory tools.default_soul_id ctx.session_id text
  lift (ok_or soul_session "session not found")
  pure true

abbrev bash :
    ToolExecutor → ToolRuntimeContext → BashToolInput → Result String BashToolResultEnvelope
bash tools ctx input = tools.run_bash ctx (resolve_cwd ctx input.cwd) input.command

abbrev pub memory_result :
    ToolExecutor → ProviderFunctionCall → Result String Bool → Result String ToolDispatchResult
memory_result tools call (ok success) =
    build_success_dispatch_result tools.to_string call.name call.call_id success
memory_result tools call (err e) =
    ok (build_failed_dispatch_result tools.to_string call.name call.call_id e)

abbrev pub bash_result :
    ToolExecutor
    → ProviderFunctionCall
    → Result String BashToolResultEnvelope
    → Result String ToolDispatchResult
bash_result tools call (ok result) =
    build_bash_dispatch_result tools.to_string call.name call.call_id result
bash_result tools call (err e) =
    ok (build_failed_dispatch_result tools.to_string call.name call.call_id e)

abbrev pub dispatch_memory :
    ToolExecutor
    → ProviderFunctionCall
    → (String → Exec Db String Bool)
    → Result ToolDispatchResult String
    → Exec Db String ToolDispatchResult
dispatch_memory tools call tool (err refused) s = (ok refused, s)
dispatch_memory tools call tool (ok text) s =
    let (r, s') = tool text s in (memory_result tools call r, s')

unfoldable pub dispatch_write_soul_memory :
    ToolExecutor → ToolRuntimeContext → ProviderFunctionCall → Exec Db String ToolDispatchResult
unfolding soul_memory_tool build_success_dispatch_result build_failed_dispatch_result text_args
    format
dispatch_write_soul_memory tools ctx call =
    dispatch_memory tools call (soul_memory_tool ctx)
      (parse_tool_args tools.to_string tools.describe text_args call "write_soul_memory")

unfoldable pub dispatch_write_session_memory :
    ToolExecutor → ToolRuntimeContext → ProviderFunctionCall → Exec Db String ToolDispatchResult
unfolding session_memory_tool build_success_dispatch_result build_failed_dispatch_result text_args
    format
dispatch_write_session_memory tools ctx call =
    dispatch_memory tools call (session_memory_tool tools ctx)
      (parse_tool_args tools.to_string tools.describe text_args call "write_session_memory")

abbrev pub dispatch_bash_args :
    ToolExecutor
    → ToolRuntimeContext
    → ProviderFunctionCall
    → Result ToolDispatchResult BashToolInput
    → Result String ToolDispatchResult
dispatch_bash_args tools ctx call (err refused) = ok refused
dispatch_bash_args tools ctx call (ok input) = bash_result tools call (bash tools ctx input)

unfoldable pub dispatch_bash :
    ToolExecutor → ToolRuntimeContext → ProviderFunctionCall → Exec Db String ToolDispatchResult
unfolding resolve_cwd build_bash_dispatch_result build_failed_dispatch_result bash_args format
dispatch_bash tools ctx call = lift (
    dispatch_bash_args tools ctx call
      (parse_tool_args tools.to_string tools.describe bash_args call "bash"))

unfoldable pub dispatch :
    ToolExecutor → ToolRuntimeContext → ProviderFunctionCall → Exec Db String ToolDispatchResult
unfolding dispatch_write_soul_memory dispatch_write_session_memory dispatch_bash
    build_failed_dispatch_result format
dispatch tools ctx call =
    if str_eq call.name "write_soul_memory"
    then dispatch_write_soul_memory tools ctx call
    else if str_eq call.name "write_session_memory"
    then dispatch_write_session_memory tools ctx call
    else if str_eq call.name "bash"
    then dispatch_bash tools ctx call
    else pure (
        build_failed_dispatch_result tools.to_string call.name call.call_id
          (format ("unsupported tool: " ∷ call.name ∷ [])))
