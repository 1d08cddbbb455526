-- ===== src/Tools/Kept.antt =====
-- crates/santi-runtime/src/runtime/tools.rs: what the tools do to the turns and the messages.
use santi.Base.{String, Bool, refl, str_eq, true, Bool-cases, inl, inr}
use santi.Base.Exec.{Exec, Result, ok, err, pure, lift, ok_or, map_error, ◌>>=◌}
use santi.Base.Preserving.{Preserving, bind-Preserving}
use santi.Model.Provider.{ProviderFunctionCall}
use santi.Store.{Db}
use santi.Store.Souls as Souls
use santi.Store.Souls.{acquire_soul_session}
use santi.Store.Untouched.{
  rows_of, acquire_soul_session_rows, write_soul_memory_rows, write_session_memory_rows,
}
use santi.Runtime.Handoff.{render_core_error}
use santi.Runtime.Memory as Memory
use santi.Tools.{
  ToolExecutor, dispatch, dispatch_write_soul_memory, dispatch_write_session_memory, dispatch_bash,
  dispatch_memory, soul_memory_tool, session_memory_tool, write_soul_memory,
}
use santi.Tools.Types.{ToolRuntimeContext, ToolDispatchResult}
use santi.Tools.Results.{text_args, parse_tool_args}

session_memory_rows :
    (soul_id session_id text : String)
    → Preserving rows_of (Memory.write_session_memory soul_id session_id text)
unfolding Memory.write_session_memory
session_memory_rows soul_id session_id text =
    bind-Preserving rows_of (map_error render_core_error (acquire_soul_session soul_id session_id))
      (λ m. map_error render_core_error (Souls.write_session_memory m.id text))
      (λ s. acquire_soul_session_rows soul_id session_id s)
      (λ m s. write_session_memory_rows m.id text s)

module _ (tools : ToolExecutor) (ctx : ToolRuntimeContext) where
  soul_tool_rows : (text : String) → Preserving rows_of (soul_memory_tool ctx text)
  unfolding soul_memory_tool write_soul_memory
  soul_tool_rows text =
      bind-Preserving rows_of (write_soul_memory ctx.soul_id text)
        (λ soul. lift (ok_or soul "soul not found") >>= λ _. pure true)
        (λ s. write_soul_memory_rows ctx.soul_id text s)
        λ soul.
          bind-Preserving rows_of (lift (ok_or soul "soul not found")) (λ _. pure true) (λ s. refl)
            (λ a s. refl)

  session_tool_rows : (text : String) → Preserving rows_of (session_memory_tool tools ctx text)
  unfolding session_memory_tool
  session_tool_rows text =
      bind-Preserving rows_of
        (Memory.write_session_memory tools.default_soul_id ctx.session_id text)
        (λ m. lift (ok_or m "session not found") >>= λ _. pure true)
        (session_memory_rows tools.default_soul_id ctx.session_id text)
        λ m.
          bind-Preserving rows_of (lift (ok_or m "session not found")) (λ _. pure true) (λ s. refl)
            (λ a s. refl)

  memory_rows :
      (call : ProviderFunctionCall) (tool : String → Exec Db String Bool)
      (r : Result ToolDispatchResult String)
      → ((text : String) → Preserving rows_of (tool text))
      → Preserving rows_of (dispatch_memory tools call tool r)
  memory_rows call tool (err refused) h s = refl
  memory_rows call tool (ok text) h s = h text s

  pub dispatch_rows : (call : ProviderFunctionCall) → Preserving rows_of (dispatch tools ctx call)
  unfolding dispatch dispatch_write_soul_memory dispatch_write_session_memory dispatch_bash
  dispatch_rows call s = elim (Bool-cases (str_eq call.name "write_soul_memory")) [
    | inl e ↦ rw e (
        memory_rows call (soul_memory_tool ctx)
          (parse_tool_args tools.to_string tools.describe text_args call "write_soul_memory")
          soul_tool_rows s)
    | inr e ↦ elim (Bool-cases (str_eq call.name "write_session_memory")) [
      | inl f ↦
          rw (e, f)
            (memory_rows call (session_memory_tool tools ctx)
              (parse_tool_args tools.to_string tools.describe text_args call "write_session_memory")
              session_tool_rows s)
      | inr f ↦ elim (Bool-cases (str_eq call.name "bash")) [
        | inl g ↦ rw (e, f, g) refl
        | inr g ↦ rw (e, f, g) refl
      ]
    ]
  ]
