-- ===== src/Runtime/CompactExamples.antt =====
-- A compact of a session with one message, which succeeds.
use santi.Base.{◌≡◌, refl, none, []}
use santi.Base.Exec.{ok, second}
use santi.Model.Session.{Compact}
use santi.Store.Examples.{called}
use santi.Runtime.{World}
use santi.Runtime.Compacts.{CompactRequest, CompactIds, manual, execute_compact}
use santi.Runtime.Compacting.{Done, execute_compact-Done}

abbrev stored : World
stored = record { db = called; held = []; published = []; sent = [] }

abbrev request : CompactRequest
request = record {
  session_id = "s";
  summary = " sum ";
  start_session_seq = none;
  end_session_seq = none;
  reason = manual;
}

abbrev ids : CompactIds
ids = record { turn_id = "turn2"; compact_id = "compact" }

abbrev compact : Compact
compact = record {
  id = "compact";
  turn_id = "turn2";
  summary = "sum";
  start_session_seq = 1;
  end_session_seq = 1;
  created_at = "t1";
}

abbrev after : World
unfolding execute_compact
after = second (execute_compact "soul" ids request stored)

compacted : execute_compact "soul" ids request stored ≡ (ok compact, after)
unfolding execute_compact
compacted = refl

execute_compact-Done_example : Done "soul" ids request stored compact after
execute_compact-Done_example =
    execute_compact-Done "soul" ids request stored after compact compacted
