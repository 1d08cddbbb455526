-- ===== src/Store/SoulStore.antt =====
-- crates/santi-db/src/adapter/standalone/soul_store.rs: the one soul of a standalone service.
use santi.Base.{
  String, Bool, not, Option, none, some, List, [], ◌∷◌, ◌++◌, str_eq, any, find_by, update_where,
  if◌then◌else◌,
}
use santi.Base.Exec.{Exec, Result, ok, pure, ok_or, ◌>>=◌}
use santi.Model.Error.{Error, internal}
use santi.Model.Session.{Soul}
use santi.Store.{Db}

abbrev pub default_soul : String
default_soul = "soul_default"

abbrev pub is_soul : String → Soul → Bool
is_soul id soul = str_eq soul.id id

abbrev new_soul : String → String → Soul
new_soul now memory = record {
  id = default_soul;
  memory = memory;
  created_at = now;
  updated_at = now;
}

-- The row, which is inserted when it is missing. The reload of a row that was just inserted
-- finds it; `fetch_one` without a row is an internal error.
unfoldable pub get_default_soul : Exec Db Error Soul
get_default_soul s = found (find_by (is_soul default_soul) s.souls)
  where
    reloaded : List Soul → Result Error Soul
    reloaded souls = ok_or (find_by (is_soul default_soul) souls) (internal "soul reload failed")

    found : Option Soul → Result Error Soul × Db
    found (some soul) = (ok soul, s)
    found none =
        let souls = s.souls ++ new_soul s.now "" ∷ [] in
        (reloaded souls, record s { souls = souls })

abbrev remember : String → String → Soul → Soul
remember now memory soul = record soul { memory = memory; updated_at = now }

-- INSERT … ON CONFLICT(id) DO UPDATE.
abbrev pub upserted : String → Db → Db
upserted memory s = record s {
  souls =
      if any (is_soul default_soul) s.souls
      then update_where (is_soul default_soul) (remember s.now memory) s.souls
      else s.souls ++ new_soul s.now memory ∷ [];
}

unfoldable pub set_default_soul_memory : String → Exec Db Error Soul
unfolding get_default_soul
set_default_soul_memory memory s = get_default_soul (upserted memory s)

unfoldable pub get_soul : String → Exec Db Error (Option Soul)
unfolding get_default_soul
get_soul soul_id =
    if not (str_eq soul_id default_soul)
    then pure none
    else (do soul ← get_default_soul; pure (some soul))

unfoldable pub write_soul_memory : String → String → Exec Db Error (Option Soul)
unfolding set_default_soul_memory
write_soul_memory soul_id text =
    if not (str_eq soul_id default_soul)
    then pure none
    else (do soul ← set_default_soul_memory text; pure (some soul))
