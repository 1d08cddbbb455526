-- ===== src/Runtime/Finishing.antt =====
-- crates/santi-runtime/src/session/effect.rs: what `run_fork_handoff` leaves alone and what
-- `finish_effect` writes.
use santi.Base.{
  String, Bool, true, false, ◌≡◌, refl, ap, ◌∙◌, Option, none, some, List, [], ◌∷◌, ◌++◌, find_by,
  update_where, any, str_eq, arith, eq_refl, find_by-append_last,
}
use santi.Base.Int.{ℤ}
use santi.Base.Exec.{Exec, Result, ok, err, pure, continue, ◌>>=◌, first, second}
use santi.Runtime.Forking.{ForkResult}
use santi.Model.Session.{SessionEffect}
use santi.Store.Effects.{has_effect_id, updated_effect, UpdateSessionEffect, update_effect}
use santi.Runtime.{World, publish}
use santi.Runtime.Handoff.{
  ForkHandoffEffectRequest, Executors, idempotency_key, finish_effect, run_fork_handoff, RunResult,
  map_failure, render_fork_error, render_send_error, or_else,
}

-- The executors leave the ledger of effects alone.
pub record KeepsEffects (executors : Executors) : Type 0 where
  pub fork_keeps :
      (id : String) (point : ℤ) (request_id : String) (w : World)
      → (second (executors.fork id point request_id w)).db.effects ≡ w.db.effects
  pub send_keeps :
      (id text : String) (w : World)
      → (second (executors.seeded_send id text w)).db.effects ≡ w.db.effects

abbrev Keeping : {E A : Type 0} → Exec World E A → Type 0
Keeping m = (w : World) → (second (m w)).db.effects ≡ w.db.effects

module _ {E A B : Type 0} where
  bind-Keeping :
      (m : Exec World E A) (f : A → Exec World E B)
      → Keeping m
      → ((a : A) → Keeping (f a))
      → Keeping (m >>= f)
  bind-Keeping m f k h w = split (m w) (k w)
    where
      split :
          (p : Result E A × World)
          → (second p).db.effects ≡ w.db.effects
          → (second (let (r, u) = p in continue r f u)).db.effects ≡ w.db.effects
      split (ok a, u) e = h a u ∙ e
      split (err x, u) e = e

pub run-KeepsEffects :
    (executors : Executors) (request : ForkHandoffEffectRequest)
    → KeepsEffects executors
    → Keeping (run_fork_handoff executors request)
unfolding run_fork_handoff
run-KeepsEffects executors request k =
    bind-Keeping forked seeded
      (λ w. k.fork_keeps request.parent_session_id request.fork_point (idempotency_key request) w)
      (λ r.
        bind-Keeping (seed r) (λ _. pure r.new_session_id)
          (λ w. k.send_keeps r.new_session_id request.seed_text w) (λ a w. refl))
  where
    forked : Exec World (Option String × String) ForkResult
    forked =
        map_failure (λ e. (none, render_fork_error e))
          (executors.fork request.parent_session_id request.fork_point (idempotency_key request))

    seed : ForkResult → Exec World (Option String × String) String
    seed r =
        map_failure (λ e. (some r.new_session_id, render_send_error e))
          (executors.seeded_send r.new_session_id request.seed_text)

    seeded : ForkResult → Exec World (Option String × String) String
    seeded r = seed r >>= λ _. pure r.new_session_id

-- An update by id of a table whose last row alone has the id.
update_where-last :
    (id : String) (f : SessionEffect → SessionEffect) (xs : List SessionEffect) (x : SessionEffect)
    → any (has_effect_id id) xs ≡ false
    → x.id ≡ id
    → update_where (has_effect_id id) f (xs ++ x ∷ []) ≡ xs ++ f x ∷ []
update_where-last id f [] x h e = ground (arith, e, eq_refl id)
update_where-last id f (y ∷ xs) x h e = ground (arith, h, update_where-last id f xs x)

-- What the finish of a run writes into the effect.
abbrev pub finished : Option String → RunResult → String → UpdateSessionEffect
finished prior (ok result_ref) id = record {
  effect_id = id;
  status = "completed";
  result_ref = some result_ref;
  error_text = none;
}
finished prior (err (result_ref, message)) id = record {
  effect_id = id;
  status = "failed";
  result_ref = or_else result_ref prior;
  error_text = some message;
}

pub find_by-last :
    (p : SessionEffect → Bool) (xs : List SessionEffect) (x : SessionEffect)
    → any p xs ≡ false
    → p x ≡ true
    → find_by p (xs ++ x ∷ []) ≡ some x
find_by-last p xs x h q = find_by-append_last p xs x h q

pub none-any :
    (p : SessionEffect → Bool) (xs : List SessionEffect) → find_by p xs ≡ none → any p xs ≡ false
none-any p [] h = refl
none-any p (x ∷ xs) h = ground (arith, h, none-any p xs)

module _ (session_id id : String) (prior : Option String) (xs : List SessionEffect)
    (x : SessionEffect) (h : any (has_effect_id id) xs ≡ false) (same : x.id ≡ id) where
  changed :
      (u : UpdateSessionEffect) (w : World)
      → w.db.effects ≡ xs ++ x ∷ []
      → update_where (has_effect_id id) (updated_effect w.db.now u) w.db.effects
        ≡ xs ++ updated_effect w.db.now u x ∷ []
  changed u w e =
      ap (update_where (has_effect_id id) (updated_effect w.db.now u)) e
      ∙ update_where-last id (updated_effect w.db.now u) xs x h same

  found :
      (u : UpdateSessionEffect) (w : World)
      → find_by (has_effect_id id) (xs ++ updated_effect w.db.now u x ∷ [])
        ≡ some (updated_effect w.db.now u x)
  found u w =
      find_by-last (has_effect_id id) xs (updated_effect w.db.now u x) h
        (ap (λ k. str_eq k id) same ∙ eq_refl id)

  -- A finish on a ledger whose last row has the id changes that row alone and returns it.
  pub finish-last :
      (r : RunResult) (w : World)
      → w.db.effects ≡ xs ++ x ∷ []
      → (first (finish_effect session_id id prior r w)
          ≡ ok (updated_effect w.db.now (finished prior r id) x))
        × ((second (finish_effect session_id id prior r w)).db.effects
            ≡ xs ++ updated_effect w.db.now (finished prior r id) x ∷ [])
  unfolding finish_effect update_effect publish
  finish-last (ok ref) w e = (
    rw (changed (finished prior (ok ref) id) w e, found (finished prior (ok ref) id) w) refl,
    changed (finished prior (ok ref) id) w e,
  )
  finish-last (err (ref, message)) w e = (
    rw
        (
          changed (finished prior (err (ref, message)) id) w e,
          found (finished prior (err (ref, message)) id) w,
        )
        refl,
    changed (finished prior (err (ref, message)) id) w e,
  )
