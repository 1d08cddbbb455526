-- ===== src/Store/Souls.antt =====
-- crates/santi-db/src/adapter/standalone/soul_runtime: bootstrap.rs, helpers.rs, mod.rs and
-- runtime_port.rs. A row of `standalone_turns` is kept in the form that `map_turn_row` reads.
use santi.Base.{
  ℕ, ◌+◌, String, Bool, ◌&&◌, Option, none, some, [], ◌∷◌, ◌++◌, str_eq, any, find_by, update_where,
  ◌==◌, if◌then◌else◌,
}
use santi.Base.Texts.{format}
use santi.Base.Exec.{Exec, Result, ok, err, lift, ok_or, and_then, ◌>>=◌, ◌>>◌}
use santi.Model.Error.{Error, not_found, internal}
use santi.Model.Json
use santi.Model.Json.{Value, object, field, end, int, null, get, as_object, as_str, as_i64}
use santi.Model.Session.{
  ProviderState, SoulSession, SessionMessage, SoulSessionEntry, SoulSessionTargetType,
}
use santi.Store.{Db, SoulSessionRow, MessageRow}
use santi.Store.Mapping.{text_content, map_session_message_row}

-- helpers.rs
abbrev text_value : Option String → Value
text_value none = null
text_value (some s) = Json.text s

unfoldable pub encode_provider_state : ProviderState → Value
encode_provider_state state = object (
    field "provider" (Json.text state.provider) (
      field "basis_soul_session_seq" (int state.basis_soul_session_seq) (
        field "opaque" state.opaque
          (field "schema_version" (text_value state.schema_version) end))))

abbrev bind {ℓ} : {A B : Type ℓ} → Option A → (A → Option B) → Option B
bind none f = none
bind (some a) f = f a

unfoldable pub decode_provider_state : Value → Result Error ProviderState
unfolding get
decode_provider_state value =
    and_then (ok_or (as_object value) (internal "provider_state must be an object")) λ obj.
      and_then
        (ok_or (bind (get "provider" obj) as_str) (internal "provider_state.provider missing"))
        λ provider.
          and_then
            (ok_or (bind (get "basis_soul_session_seq" obj) as_i64)
              (internal "provider_state.basis_soul_session_seq missing"))
            λ basis.
              and_then (ok_or (get "opaque" obj) (internal "provider_state.opaque missing"))
                λ opaque. ok (record {
                  provider = provider;
                  basis_soul_session_seq = basis;
                  opaque = opaque;
                  schema_version = bind (get "schema_version" obj) as_str;
                })

abbrev pub decoded : Option Value → Result Error (Option ProviderState)
decoded none = ok none
decoded (some v) = and_then (decode_provider_state v) λ p. ok (some p)

unfoldable pub map_soul_session_row : SoulSessionRow → Result Error SoulSession
map_soul_session_row row = and_then (decoded row.provider_state) λ provider_state. ok (record {
  id = row.id;
  soul_id = row.soul_id;
  session_id = row.session_id;
  session_memory = row.session_memory;
  provider_state = provider_state;
  next_seq = row.next_seq;
  last_seen_session_seq = row.last_seen_session_seq;
  parent_soul_session_id = row.parent_soul_session_id;
  fork_point = row.fork_point;
  created_at = row.created_at;
  updated_at = row.updated_at;
})

-- This adapter reads a message as one text part, at version 1.
unfoldable pub map_ref_message_row : MessageRow → SessionMessage
unfolding map_session_message_row
map_ref_message_row row =
    let m = map_session_message_row row in
    record m {
      message = record m.message {
        content = text_content row.content_text;
        version = 1;
        updated_at = row.created_at;
      };
    }

-- bootstrap.rs
abbrev pub has_soul_id : String → SoulSessionRow → Bool
has_soul_id id row = str_eq row.id id

abbrev pub of_session : String → SoulSessionRow → Bool
of_session session_id row = str_eq row.session_id session_id

unfoldable pub standalone_soul_session_id : String → String
unfolding format
standalone_soul_session_id session_id = format ("ss_standalone_" ∷ session_id ∷ [])

abbrev pub fresh_soul_row : String → String → String → String → SoulSessionRow
fresh_soul_row now id soul_id session_id = record {
  id = id;
  soul_id = soul_id;
  session_id = session_id;
  session_memory = "";
  provider_state = none;
  next_seq = 1;
  last_seen_session_seq = 0;
  parent_soul_session_id = none;
  fork_point = none;
  created_at = now;
  updated_at = now;
}

-- A conflict on `session_id` changes nothing; one on the primary key alone is an error.
unfoldable pub ensure_soul_session : String → String → Exec Db Error (Unit {0})
unfolding standalone_soul_session_id
ensure_soul_session soul_id session_id s =
    let id = standalone_soul_session_id session_id in
    if any (of_session session_id) s.soul_sessions
    then (ok tt, s)
    else if any (has_soul_id id) s.soul_sessions
    then (err (internal "ensure standalone soul_session failed"), s)
    else (
      ok tt,
      record s {
        soul_sessions = s.soul_sessions ++ fresh_soul_row s.now id soul_id session_id ∷ [];
      },
    )

abbrev pub transpose : Option SoulSessionRow → Result Error (Option SoulSession)
transpose none = ok none
transpose (some row) = and_then (map_soul_session_row row) λ m. ok (some m)

unfoldable pub fetch_soul_session : String → Exec Db Error (Option SoulSession)
unfolding map_soul_session_row
fetch_soul_session id s = (transpose (find_by (has_soul_id id) s.soul_sessions), s)

unfoldable pub fetch_session_soul : String → Exec Db Error (Option SoulSession)
unfolding map_soul_session_row
fetch_session_soul session_id s = (transpose (find_by (of_session session_id) s.soul_sessions), s)

-- mod.rs, `ensure_acquired_soul_session`.
unfoldable pub acquire_soul_session : String → String → Exec Db Error SoulSession
unfolding ensure_soul_session fetch_session_soul
acquire_soul_session soul_id session_id = do
  ensure_soul_session soul_id session_id
  found ← fetch_session_soul session_id
  lift (ok_or found (not_found "standalone_soul_session"))

-- runtime_port.rs
unfoldable pub write_session_memory : String → String → Exec Db Error (Option SoulSession)
unfolding map_soul_session_row
write_session_memory id memory s =
    let rows =
      update_where (has_soul_id id)
        (λ row. record row { session_memory = memory; updated_at = s.now }) s.soul_sessions in
    (transpose (find_by (has_soul_id id) rows), record s { soul_sessions = rows })

abbrev pub advance : Db → SoulSessionRow → SoulSessionRow
advance s row = record row { next_seq = row.next_seq + 1; updated_at = s.now }

abbrev allocate_on : String → Option SoulSessionRow → Exec Db Error ℕ
allocate_on id none s = (err (not_found "standalone_soul_session"), s)
allocate_on id (some row) s = (
  ok row.next_seq,
  record s { soul_sessions = update_where (has_soul_id id) (advance s) s.soul_sessions },
)

-- UPDATE … SET next_seq = next_seq + 1 … RETURNING next_seq - 1.
unfoldable pub allocate_seq : String → Exec Db Error ℕ
allocate_seq id s = allocate_on id (find_by (has_soul_id id) s.soul_sessions) s

-- The primary key (soul_session_id, soul_session_seq).
abbrev pub same_place : String → ℕ → SoulSessionEntry → Bool
same_place id seq entry = str_eq entry.soul_session_id id && entry.soul_session_seq == seq

unfoldable pub insert_item :
    String → SoulSessionTargetType → String → ℕ → Exec Db Error SoulSessionEntry
insert_item id target_type target_id seq s =
    let entry : SoulSessionEntry = record {
      soul_session_id = id;
      target_type = target_type;
      target_id = target_id;
      soul_session_seq = seq;
      created_at = s.now;
    } in
    if any (same_place id seq) s.items
    then (err (internal "standalone item insert failed"), s)
    else (ok entry, record s { items = s.items ++ entry ∷ [] })
