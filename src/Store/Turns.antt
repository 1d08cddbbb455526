-- ===== src/Store/Turns.antt =====
-- crates/santi-db/src/adapter/standalone/soul_runtime/runtime_port.rs: the turns of a soul session.
use santi.Base.{
  ℕ, ◌-◌, String, Bool, Option, none, some, [], ◌∷◌, ◌++◌, str_eq, any, find_by, update_where,
  if◌then◌else◌,
}
use santi.Base.Exec.{Exec, ok, err, pure, ok_or, ◌>>=◌, ◌>>◌}
use santi.Model.Error.{Error, not_found, internal}
use santi.Model.Session.{ProviderState, Turn, TurnTriggerType, TurnStatus}
use santi.Store.{Db, SoulSessionRow, transaction}
use santi.Store.Mapping.{option_map}
use santi.Store.Souls.{has_soul_id, encode_provider_state}

pub record StartTurn : Type 0 where
  pub turn_id : String
  pub soul_session_id : String
  pub trigger_type : TurnTriggerType
  pub trigger_ref : Option String
  pub input_through_session_seq : ℕ

abbrev pub has_turn_id : String → Turn → Bool
has_turn_id id turn = str_eq turn.id id

abbrev pub started_turn : Db → StartTurn → ℕ → Turn
started_turn s input next_seq = record {
  id = input.turn_id;
  soul_session_id = input.soul_session_id;
  trigger_type = input.trigger_type;
  trigger_ref = input.trigger_ref;
  input_through_session_seq = input.input_through_session_seq;
  base_soul_session_seq = next_seq - 1;
  end_soul_session_seq = none;
  status = TurnStatus.running;
  error_text = none;
  created_at = s.now;
  updated_at = s.now;
  finished_at = none;
}

abbrev pub start_on : StartTurn → Option SoulSessionRow → Exec Db Error Turn
start_on input none s = (err (not_found "standalone_soul_session"), s)
start_on input (some row) s =
    if any (has_turn_id input.turn_id) s.turns
    then (err (internal "standalone turn start failed"), s)
    else (
      ok (started_turn s input row.next_seq),
      record s { turns = s.turns ++ started_turn s input row.next_seq ∷ [] },
    )

unfoldable pub start_turn : StartTurn → Exec Db Error Turn
start_turn input s = start_on input (find_by (has_soul_id input.soul_session_id) s.soul_sessions) s

-- (SELECT next_seq - 1 FROM standalone_soul_sessions WHERE id = …), NULL if there is no row.
abbrev pub last_seq : String → Db → Option ℕ
last_seq soul_session_id s =
    option_map (λ row. row.next_seq - 1) (find_by (has_soul_id soul_session_id) s.soul_sessions)

abbrev pub completed_turn : Db → Turn → Turn
completed_turn s turn = record turn {
  end_soul_session_seq = last_seq turn.soul_session_id s;
  status = TurnStatus.completed;
  updated_at = s.now;
  finished_at = some s.now;
}

abbrev pub failed_turn : Db → String → Turn → Turn
failed_turn s error_text turn = record turn {
  end_soul_session_seq = last_seq turn.soul_session_id s;
  status = TurnStatus.failed;
  error_text = some error_text;
  updated_at = s.now;
  finished_at = some s.now;
}

-- UPDATE standalone_turns … WHERE id = … RETURNING …
abbrev pub update_turn : String → (Db → Turn → Turn) → Exec Db Error Turn
update_turn turn_id f s =
    let turns = update_where (has_turn_id turn_id) (f s) s.turns in
    (
      ok_or (find_by (has_turn_id turn_id) turns) (not_found "standalone_turn"),
      record s { turns = turns },
    )

pub record CompleteTurn : Type 0 where
  pub turn_id : String
  pub last_seen_session_seq : ℕ
  pub provider_state : Option ProviderState

abbrev pub seen : Db → CompleteTurn → SoulSessionRow → SoulSessionRow
seen s input row = record row {
  last_seen_session_seq = input.last_seen_session_seq;
  provider_state = option_map encode_provider_state input.provider_state;
  updated_at = s.now;
}

unfoldable pub mark_seen : CompleteTurn → String → Exec Db Error (Unit {0})
unfolding encode_provider_state
mark_seen input soul_session_id s = (
  ok tt,
  record s {
    soul_sessions = update_where (has_soul_id soul_session_id) (seen s input) s.soul_sessions;
  },
)

unfoldable pub complete_turn : CompleteTurn → Exec Db Error Turn
unfolding mark_seen
complete_turn input = transaction do
  turn ← update_turn input.turn_id completed_turn
  mark_seen input turn.soul_session_id
  pure turn

unfoldable pub fail_turn : String → String → Exec Db Error Turn
fail_turn turn_id error_text = update_turn turn_id (λ s. failed_turn s error_text)
