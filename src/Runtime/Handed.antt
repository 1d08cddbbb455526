-- ===== src/Runtime/Handed.antt =====
-- crates/santi-runtime/src/session/effect.rs: a hand-off that is asked for again.
use santi.Base.{
  String, true, false, ◌≡◌, refl, sym, ap, ◌∙◌, Option, none, some, [], ◌∷◌, ◌++◌, find_by, any,
  arith, eq_refl,
}
use santi.Base.Exec.{Result, ok, first, second}
use santi.Runtime.Watch.{SessionWatchActivityState}
use santi.Model.Session.{SessionEffect}
use santi.Store.{Db}
use santi.Store.Effects.{
  has_key, has_effect_id, updated_effect, UpdateSessionEffect, get_effect, create_effect,
  effect_row,
}
use santi.Runtime.{World, publish}
use santi.Runtime.Handoff.{
  ForkHandoffEffectRequest, Executors, execute_fork_handoff, effect_type, idempotency_key,
  resume_effect, start_effect, run_and_finish, run_fork_handoff, hook_event, RunResult,
}
use santi.Runtime.Finishing.{
  KeepsEffects, run-KeepsEffects, finish-last, finished, find_by-last, none-any,
}

abbrev pub effect_at : ForkHandoffEffectRequest → Db → Option SessionEffect
effect_at request s =
    find_by (has_key request.parent_session_id effect_type (idempotency_key request)) s.effects

-- A completed hand-off is not run again: whatever the executors would do, the request returns the
-- effect that the ledger has for it and changes nothing.
completed_is_final :
    (executors : Executors) (effect_id : String) (request : ForkHandoffEffectRequest) (w : World)
    (effect : SessionEffect)
    → effect_at request w.db ≡ some effect
    → effect.status ≡ "completed"
    → execute_fork_handoff executors effect_id request w ≡ (ok effect, w)
unfolding execute_fork_handoff get_effect resume_effect
completed_is_final executors effect_id request w effect h c = rw (h, c) refl

module _ (executors : Executors) (id : String) (request : ForkHandoffEffectRequest) (w : World)
    (keeps : KeepsEffects executors) (no_id : any (has_effect_id id) w.db.effects ≡ false)
    (no_key : effect_at request w.db ≡ none) where
  abbrev row : SessionEffect
  row = effect_row w.db.now (record {
    effect_id = id;
    session_id = request.parent_session_id;
    effect_type = effect_type;
    idempotency_key = idempotency_key request;
    status = "started";
    source_hook_id = request.source_hook_id;
    source_turn_id = request.source_turn_id;
    result_ref = none;
    error_text = none;
  })

  -- The world in which the run starts.
  abbrev begun : World
  begun = record w {
    db = record w.db { effects = w.db.effects ++ row ∷ [] };
    published =
        w.published
        ++ (
          request.parent_session_id,
          hook_event request.parent_session_id SessionWatchActivityState.started
              request.source_hook_id,
        )
          ∷ [];
  }

  begun_step :
      execute_fork_handoff executors id request w ≡ run_and_finish executors request id none begun
  unfolding execute_fork_handoff get_effect start_effect create_effect publish effect_row
  begun_step = rw (no_key, no_key, no_id) refl

  row_keyed :
      (u : UpdateSessionEffect) (now : String)
      → has_key request.parent_session_id effect_type
          (idempotency_key request)
          (updated_effect now u row)
        ≡ true
  unfolding effect_row
  row_keyed u now =
      rw (eq_refl request.parent_session_id, eq_refl effect_type, eq_refl (idempotency_key request))
        refl

  abbrev run : RunResult × World
  run = run_fork_handoff executors request begun

  -- The row that the whole hand-off leaves and returns.
  abbrev final : SessionEffect
  final = updated_effect (second run).db.now (finished none (first run) id) row

  run_left : (second run).db.effects ≡ w.db.effects ++ row ∷ []
  run_left = run-KeepsEffects executors request keeps begun

  ended :
      (first (run_and_finish executors request id none begun) ≡ ok final)
      × ((second (run_and_finish executors request id none begun)).db.effects
          ≡ w.db.effects ++ final ∷ [])
  unfolding run_and_finish effect_row
  ended =
      finish-last request.parent_session_id id none w.db.effects row no_id refl (first run)
        (second run) run_left

  -- A hand-off that the ledger does not know, with an unused id and executors that leave the
  -- ledger alone, is recorded under its key with the effect that it returns. If that effect is
  -- completed, then each later request for the same hand-off, whatever its executors would do,
  -- returns it and changes nothing.
  pub handed_off_once :
      (effect : SessionEffect) (w' : World)
      → execute_fork_handoff executors id request w ≡ (ok effect, w')
      → (effect_at request w'.db ≡ some effect)
        × (effect.status ≡ "completed"
            → (others : Executors) (later_id : String)
            → execute_fork_handoff others later_id request w' ≡ (ok effect, w'))
  handed_off_once effect w' h =
      let (a, b) = ended in
      let e = sym begun_step ∙ h in
      let same : effect ≡ final = ok_same (sym (ap first e) ∙ a) in
      let kept : effect_at request w'.db ≡ some effect =
        ap (λ x. effect_at request x.db) (sym (ap second e))
        ∙ ap (find_by (has_key request.parent_session_id effect_type (idempotency_key request))) b
        ∙ find_by-last (has_key request.parent_session_id effect_type (idempotency_key request))
            w.db.effects final
            (none-any (has_key request.parent_session_id effect_type (idempotency_key request))
              w.db.effects no_key)
            (row_keyed (finished none (first run) id) (second run).db.now)
        ∙ ap some (sym same) in
      (kept, λ c others later_id. completed_is_final others later_id request w' effect kept c)
    where
      ok_same : (let x : Result String SessionEffect = ok effect in x ≡ ok final) → effect ≡ final
      ok_same q = ground (arith, q)
