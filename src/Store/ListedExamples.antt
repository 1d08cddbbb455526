-- ===== src/Store/ListedExamples.antt =====
-- The list of the effects of a session, where the ledger has a newer one first, and one of another
-- session.
use mathlib.Core.List.{Perm}
use santi.Base.{String, ◌≡◌, refl, none, List, [], ◌∷◌, filter, str_eq}
use santi.Base.Exec.{ok}
use santi.Model.Session.{SessionEffect}
use santi.Store.{Db, empty}
use santi.Store.Listings.{list_effects}
use santi.Store.Listed.{Ordered, older, list_effects-Ordered}

abbrev effect : String → String → String → SessionEffect
effect id session_id created_at = record {
  id = id;
  session_id = session_id;
  effect_type = "hook_fork_handoff";
  idempotency_key = id;
  status = "started";
  source_hook_id = "hook";
  source_turn_id = "turn";
  result_ref = none;
  error_text = none;
  created_at = created_at;
  updated_at = created_at;
}

abbrev ledger : Db
ledger = record (empty "t") {
  effects =
      effect "e1" "s" "2024-02-01"
      ∷ effect "e2" "other" "2024-01-02"
      ∷ effect "e3" "s" "2024-01-01"
      ∷ [];
}

oldest_first :
    list_effects "s" ledger
    ≡ (ok (effect "e3" "s" "2024-01-01" ∷ effect "e1" "s" "2024-02-01" ∷ []), ledger)
unfolding list_effects
oldest_first = refl

list_effects-Ordered_example :
    (effects : List SessionEffect) × (list_effects "s" ledger ≡ (ok effects, ledger))
    × Perm effects (filter (λ e. str_eq e.session_id "s") ledger.effects)
    × Ordered older effects
list_effects-Ordered_example = list_effects-Ordered "s" ledger
