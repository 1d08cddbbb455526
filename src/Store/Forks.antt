-- ===== src/Store/Forks.antt =====
-- crates/santi-db/src/adapter/standalone/soul_runtime/fork.rs. The only caller has checked that
-- the fork point is at least 1, so it is a plain number here. `fresh` gives the ids of the copies,
-- by their place.
use santi.Base.{
  ℕ, suc, ◌+◌, min, leb, String, Bool, Option, none, some, List, [], ◌∷◌, ◌++◌, any, filter,
  find_by, if◌then◌else◌,
}
use santi.Base.Int.{pos, leb_ℤ}
use santi.Base.Exec.{Exec, Result, ok, err, lift, pure, and_then, ok_or, ◌>>=◌, ◌>>◌}
use santi.Model.Error.{Error, not_found, internal}
use santi.Model.Json.{Value}
use santi.Model.Session.{ProviderState, SoulSession}
use santi.Store.{Db, MessageRow, SoulSessionRow, transaction}
use santi.Store.Sessions.{has_id, conflicts, session_rows}
use santi.Store.Souls.{
  has_soul_id, of_session, decoded, encode_provider_state, decode_provider_state,
  map_soul_session_row,
}

unfoldable pub soul_row : String → Exec Db Error SoulSessionRow
soul_row id s = (ok_or (find_by (has_soul_id id) s.soul_sessions) (not_found "soul_session"), s)

-- INSERT INTO sessions … ON CONFLICT(id) DO NOTHING.
unfoldable pub insert_forked_session : String → String → ℕ → Exec Db Error (Unit {0})
insert_forked_session id parent_session_id fork_point s =
    if any (has_id id) s.sessions then (ok tt, s) else (
      ok tt,
      record s {
        sessions =
            s.sessions
            ++ record {
              id = id;
              parent_session_id = some parent_session_id;
              fork_point = some (pos fork_point);
              session_memory = "";
              created_at = s.now;
              updated_at = s.now;
            }
              ∷ [];
      },
    )

abbrev pub up_to : ℕ → MessageRow → Bool
up_to fork_point row = leb row.session_seq fork_point

-- The messages up to the fork point, in order.
unfoldable pub messages_up_to : String → ℕ → Exec Db Error (List MessageRow)
unfolding session_rows
messages_up_to session_id fork_point s =
    (ok (filter (up_to fork_point) (session_rows session_id s)), s)

-- What a copy keeps of a row; the columns that the INSERT does not name have their defaults.
unfoldable pub copy_of : String → String → String → MessageRow → MessageRow
copy_of now id session_id row = record {
  id = id;
  session_id = session_id;
  session_seq = row.session_seq;
  actor_type = row.actor_type;
  actor_id = row.actor_id;
  content_text = row.content_text;
  content_json = none;
  state = row.state;
  version = 1;
  created_at = row.created_at;
  updated_at = now;
}

unfoldable pub insert_copy : String → String → MessageRow → Exec Db Error (Unit {0})
unfolding copy_of
insert_copy id session_id row s =
    if any (conflicts id session_id row.session_seq) s.session_messages
    then (err (internal "copy standalone forked session message failed"), s)
    else (
      ok tt,
      record s { session_messages = s.session_messages ++ copy_of s.now id session_id row ∷ [] },
    )

unfoldable pub copy_messages :
    (ℕ → String) → ℕ → String → List MessageRow → Exec Db Error (Unit {0})
unfolding insert_copy
copy_messages fresh i session_id [] = pure tt
copy_messages fresh i session_id (row ∷ rows) = do
  insert_copy (fresh i) session_id row
  copy_messages fresh (suc i) session_id rows

-- The provider's state is kept if it does not reach past the fork point.
unfoldable pub kept_state : ℕ → Option ProviderState → Option ProviderState
kept_state fork_point none = none
kept_state fork_point (some state) =
    if leb_ℤ state.basis_soul_session_seq (pos fork_point) then some state else none

abbrev encoded : Option ProviderState → Option Value
encoded none = none
encoded (some state) = some (encode_provider_state state)

unfoldable pub forked_state : ℕ → Option Value → Result Error (Option Value)
unfolding kept_state encode_provider_state decode_provider_state
forked_state fork_point state =
    and_then (decoded state) λ decoded_state. ok (encoded (kept_state fork_point decoded_state))

unfoldable pub forked_row :
    String → SoulSessionRow → Option Value → ℕ → String → String → SoulSessionRow
forked_row now parent state fork_point id session_id = record {
  id = id;
  soul_id = parent.soul_id;
  session_id = session_id;
  session_memory = parent.session_memory;
  provider_state = state;
  next_seq = fork_point + 1;
  last_seen_session_seq = min parent.last_seen_session_seq fork_point;
  parent_soul_session_id = some parent.id;
  fork_point = some (pos fork_point);
  created_at = now;
  updated_at = now;
}

-- A conflict on the primary key gives the row that is there; one on `session_id` is an error.
abbrev insert_on : SoulSessionRow → Option SoulSessionRow → Exec Db Error SoulSessionRow
insert_on row (some existing) s = (ok existing, s)
insert_on row none s =
    if any (of_session row.session_id) s.soul_sessions
    then (err (internal "insert standalone forked soul session failed"), s)
    else (ok row, record s { soul_sessions = s.soul_sessions ++ row ∷ [] })

unfoldable pub insert_forked_soul :
    SoulSessionRow → Option Value → ℕ → String → String → Exec Db Error SoulSessionRow
unfolding forked_row
insert_forked_soul parent state fork_point id session_id s =
    insert_on (forked_row s.now parent state fork_point id session_id)
      (find_by (has_soul_id id) s.soul_sessions) s

unfoldable pub fork_soul_session :
    (ℕ → String) → String → ℕ → String → String → Exec Db Error SoulSession
unfolding soul_row insert_forked_session messages_up_to copy_messages forked_state
    insert_forked_soul map_soul_session_row
fork_soul_session fresh parent_id fork_point new_soul_session_id new_session_id = do
  row ← transaction do
    parent ← soul_row parent_id
    insert_forked_session new_session_id parent.session_id fork_point
    messages ← messages_up_to parent.session_id fork_point
    copy_messages fresh 0 new_session_id messages
    state ← lift (forked_state fork_point parent.provider_state)
    insert_forked_soul parent state fork_point new_soul_session_id new_session_id
  lift (map_soul_session_row row)
