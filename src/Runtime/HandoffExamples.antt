-- ===== src/Runtime/HandoffExamples.antt =====
-- The theorems of the hand-off at a concrete request, with executors that always succeed.
use santi.Base.{String, ◌≡◌, refl, none, some, []}
use santi.Base.Int.{pos}
use santi.Base.Exec.{ok, second}
use santi.Model.Session.{SessionEffect}
use santi.Store.{empty}
use santi.Runtime.{World}
use santi.Runtime.Forking.{fork_result}
use santi.Runtime.Handoff.{ForkHandoffEffectRequest, Executors, execute_fork_handoff}
use santi.Runtime.Finishing.{KeepsEffects}
use santi.Runtime.Handed.{effect_at, handed_off_once}

abbrev executors : Executors
executors = record {
  fork = λ id point request_id w. (ok (fork_result "f" id point), w);
  seeded_send = λ id text w. (ok "turn", w);
}

executors-KeepsEffects : KeepsEffects executors
executors-KeepsEffects = record {
  fork_keeps = λ id point request_id w. refl;
  send_keeps = λ id text w. refl;
}

abbrev request : ForkHandoffEffectRequest
request = record {
  parent_session_id = "s";
  source_hook_id = "hook";
  source_turn_id = "turn";
  fork_point = pos 2;
  seed_text = "go on";
}

abbrev quiet : World
quiet = record { db = empty "t"; held = []; published = []; sent = [] }

abbrev done : SessionEffect
done = record {
  id = "e";
  session_id = "s";
  effect_type = "hook_fork_handoff";
  idempotency_key = "hook_fork_handoff:hook:turn:2";
  status = "completed";
  source_hook_id = "hook";
  source_turn_id = "turn";
  result_ref = some "f";
  error_text = none;
  created_at = "t";
  updated_at = "t";
}

abbrev after : World
unfolding execute_fork_handoff
after = second (execute_fork_handoff executors "e" request quiet)

handed_off : execute_fork_handoff executors "e" request quiet ≡ (ok done, after)
unfolding execute_fork_handoff
handed_off = refl

handed_off_once_example :
    (effect_at request after.db ≡ some done)
    × (done.status ≡ "completed"
        → (others : Executors) (later_id : String)
        → execute_fork_handoff others later_id request after ≡ (ok done, after))
handed_off_once_example =
    handed_off_once executors "e" request quiet executors-KeepsEffects refl refl done after
      handed_off
