-- ===== src/Send/Outputs.antt =====
-- crates/santi-runtime/src/session/send/turn/body.rs: the outputs of a list of calls.
use santi.Base.{
  arith, ℕ, suc, String, some, none, ◌≡◌, refl, ap, ◌∙◌, sym, subst, List, [], ◌∷◌, map,
}
use santi.Base.Exec.{Exec, Result, ok, err, ok_inj, bind-ok, pure, first, ◌>>=◌, ◌>>◌}
use santi.Model.Session.{Turn}
use santi.Model.Provider.{ProviderFunctionCall, FunctionCallOutput}
use santi.Store.{Db}
use santi.Runtime.{World, call, after_call}
use santi.Runtime.Channel.{SendSessionError}
use santi.Tools.{dispatch}
use santi.Tools.Types.{ToolDispatchResult}
use santi.Tools.Answers.{Answers, dispatch-Answers}
use santi.Model.Session.{AssemblyItem}
use santi.Store.Items.{append_tool_call, append_tool_result}
use santi.Send.{map_core_error, SessionTurnService, StartupContext}
use santi.Send.Body.{handle_tool_call, handle_tool_calls}

call-ok :
    {F E A : Type 0} (f : F → E) (m : Exec Db F A) (w u : World) (a : A)
    → call f m w ≡ (ok a, u)
    → (t : Db) × (m w.db ≡ (ok a, t))
call-ok {F} {E} {A} f m w u a h = split (m w.db) refl h
  where
    split :
        (p : Result F A × Db)
        → m w.db ≡ p
        → after_call f w p ≡ (ok a, u)
        → (t : Db) × (m w.db ≡ (ok a, t))
    split (ok b, t) e k = (t, e ∙ ap (λ x. (ok x, t)) (ok_inj (ap first k)))
    split (err x, t) e k = absurd (ground (arith, k))

module _ (service : SessionTurnService) (startup : StartupContext) (turn : Turn) where
  module _ (id : String) (requested : ProviderFunctionCall) where
    abbrev call_recorded : Exec World SendSessionError AssemblyItem
    call_recorded = call map_core_error (
        append_tool_call (record {
          tool_call_id = requested.call_id;
          turn_id = turn.id;
          tool_name = requested.name;
          arguments = requested.arguments;
        }))

    abbrev result_recorded : ToolDispatchResult → Exec World SendSessionError AssemblyItem
    result_recorded r = call map_core_error (
        append_tool_result (record {
          tool_result_id = id;
          tool_call_id = requested.call_id;
          output = some r.tool_output;
          error_text = none;
        }))

    abbrev given_out : ToolDispatchResult → Exec World SendSessionError FunctionCallOutput
    given_out r = result_recorded r >> pure r.function_call_output

    abbrev dispatched : Exec World SendSessionError ToolDispatchResult
    dispatched =
        call SendSessionError.internal (dispatch service.tools startup.runtime_context requested)

    handle_tool_call-Answers :
        (w u : World) (output : FunctionCallOutput)
        → handle_tool_call service startup turn id requested w ≡ (ok output, u)
        → output.call_id ≡ requested.call_id
    unfolding handle_tool_call
    handle_tool_call-Answers w u output h =
        let (a, w1, h1, k1) = bind-ok call_recorded (λ _. dispatched >>= given_out) w output u h in
        let (r, w2, h2, k2) = bind-ok dispatched given_out w1 output u k1 in
        let (b, w3, h3, k3) =
          bind-ok (result_recorded r) (λ _. pure r.function_call_output) w2 output u k2 in
        let (s, e) =
          call-ok SendSessionError.internal
            (dispatch service.tools startup.runtime_context requested) w1 w2 r h2 in
        ap (λ o. o.call_id) (sym (ok_inj (ap first k3)))
        ∙ subst (Answers requested) e
            (dispatch-Answers service.tools requested startup.runtime_context w1.db)

  -- Outputs are there only for a list of calls that were all handled, and they answer these calls
  -- one by one in the order in which the model asked for them.
  pub call_ids-handle_tool_calls :
      (ids : ℕ → String) (i : ℕ) (calls : List ProviderFunctionCall) (w u : World)
      (outputs : List FunctionCallOutput)
      → handle_tool_calls service startup turn ids i calls w ≡ (ok outputs, u)
      → map (λ o. o.call_id) outputs ≡ map (λ c. c.call_id) calls
  unfolding handle_tool_calls
  call_ids-handle_tool_calls ids i [] w u outputs h =
      ap (map (λ o. o.call_id)) (sym (ok_inj (ap first h)))
  call_ids-handle_tool_calls ids i (requested ∷ calls) w u outputs h =
      let next = handle_tool_calls service startup turn ids (suc i) calls in
      let (o, w1, h1, k1) =
        bind-ok (handle_tool_call service startup turn (ids i) requested)
          (λ x. next >>= λ xs. pure (x ∷ xs)) w outputs u h in
      let (os, w2, h2, k2) = bind-ok next (λ xs. pure (o ∷ xs)) w1 outputs u k1 in
      ap (map (λ x. x.call_id)) (sym (ok_inj (ap first k2)))
      ∙ ap (λ x. x ∷ map (λ x. x.call_id) os) (handle_tool_call-Answers (ids i) requested w w1 o h1)
      ∙ ap (λ xs. requested.call_id ∷ xs) (call_ids-handle_tool_calls ids (suc i) calls w1 w2 os h2)
