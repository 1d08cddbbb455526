-- ===== src/Store/Effects.antt =====
-- crates/santi-db/src/adapter/standalone/effect_ledger.rs. All rows have the form that
-- `map_session_effect_row` reads, so the map is the identity.
use santi.Base.{
  String, Bool, ◌&&◌, Option, none, some, [], ◌∷◌, ◌++◌, any, find_by, update_where, str_eq,
  if◌then◌else◌,
}
use santi.Base.Exec.{Exec, ok, err}
use santi.Model.Error.{Error, internal}
use santi.Model.Session.{SessionEffect}
use santi.Store.{Db}

pub record CreateSessionEffect : Type 0 where
  pub effect_id : String
  pub session_id : String
  pub effect_type : String
  pub idempotency_key : String
  pub status : String
  pub source_hook_id : String
  pub source_turn_id : String
  pub result_ref : Option String
  pub error_text : Option String

pub record UpdateSessionEffect : Type 0 where
  pub effect_id : String
  pub status : String
  pub result_ref : Option String
  pub error_text : Option String

abbrev pub has_key : String → String → String → SessionEffect → Bool
has_key session_id effect_type idempotency_key effect =
    str_eq effect.session_id session_id
    && str_eq effect.effect_type effect_type
    && str_eq effect.idempotency_key idempotency_key

abbrev pub has_effect_id : String → SessionEffect → Bool
has_effect_id id effect = str_eq effect.id id

unfoldable pub get_effect : String → String → String → Exec Db Error (Option SessionEffect)
get_effect session_id effect_type idempotency_key s =
    (ok (find_by (has_key session_id effect_type idempotency_key) s.effects), s)

unfoldable pub effect_row : String → CreateSessionEffect → SessionEffect
effect_row now input = record {
  id = input.effect_id;
  session_id = input.session_id;
  effect_type = input.effect_type;
  idempotency_key = input.idempotency_key;
  status = input.status;
  source_hook_id = input.source_hook_id;
  source_turn_id = input.source_turn_id;
  result_ref = input.result_ref;
  error_text = input.error_text;
  created_at = now;
  updated_at = now;
}

-- A conflict on the key gives the row that is there; one on the primary key alone is an error.
abbrev create_on : CreateSessionEffect → Option SessionEffect → Exec Db Error SessionEffect
create_on input (some existing) s = (ok existing, s)
create_on input none s =
    if any (has_effect_id input.effect_id) s.effects
    then (err (internal "standalone effect create failed"), s)
    else (
      ok (effect_row s.now input),
      record s { effects = s.effects ++ effect_row s.now input ∷ [] },
    )

unfoldable pub create_effect : CreateSessionEffect → Exec Db Error SessionEffect
unfolding effect_row
create_effect input s =
    create_on input
      (find_by (has_key input.session_id input.effect_type input.idempotency_key) s.effects) s

abbrev pub updated_effect : String → UpdateSessionEffect → SessionEffect → SessionEffect
updated_effect now input effect = record effect {
  status = input.status;
  result_ref = input.result_ref;
  error_text = input.error_text;
  updated_at = now;
}

unfoldable pub update_effect : UpdateSessionEffect → Exec Db Error (Option SessionEffect)
update_effect input s =
    let effects =
      update_where (has_effect_id input.effect_id) (updated_effect s.now input) s.effects in
    (ok (find_by (has_effect_id input.effect_id) effects), record s { effects = effects })
