-- ===== src/Runtime/Examples.antt =====
-- The theorems of the services at a concrete state.
use santi.Base.{String}
use santi.Base.{false, ◌≡◌, refl, none, []}
use santi.Base.Exec.{ok, err, second}
use santi.Base.Int.{pos}
use santi.Store.Examples.{called}
use santi.Runtime.Forking.{ForkIds, ForkResult, fork_result, fork_session}
use santi.Runtime.Reforking.{fork_session_again}
use santi.Base.Texts.{is_blank}
use santi.Store.{empty}
use santi.Runtime.{World}
use santi.Runtime.Compacts.{
  CompactRequest, CompactIds, CompactSessionError, manual, execute_compact,
}
use santi.Runtime.Compacted.{keeping_key, unknown_session_stays_held}

abbrev quiet : World
quiet = record { db = empty "t"; held = []; published = []; sent = [] }

abbrev request : CompactRequest
request = record {
  session_id = "s";
  summary = "sum";
  start_session_seq = none;
  end_session_seq = none;
  reason = manual;
}

abbrev ids : CompactIds
ids = record { turn_id = "turn"; compact_id = "compact" }

not_blank : is_blank "sum" ≡ false
unfolding is_blank
not_blank = refl

unknown_session_stays_held_example :
    (execute_compact "soul" ids request quiet
      ≡ (err CompactSessionError.not_found, keeping_key "soul" ids request quiet))
    × ((later : CompactRequest) (later_ids : CompactIds)
        → later.session_id ≡ "s"
        → execute_compact "soul" later_ids later (keeping_key "soul" ids request quiet)
          ≡ (err CompactSessionError.busy, keeping_key "soul" ids request quiet))
unknown_session_stays_held_example =
    unknown_session_stays_held "soul" ids request quiet not_blank refl refl

abbrev name_itself : String → String
name_itself s = s

abbrev first_ids : ForkIds
first_ids = record { soul_session_id = "fs"; message_ids = λ i. "copy" }

abbrev later_ids : ForkIds
later_ids = record { soul_session_id = "other"; message_ids = λ i. "other" }

abbrev stored : World
stored = record { db = called; held = []; published = []; sent = [] }

abbrev forked : ForkResult
forked = fork_result "sess_santi_fork:s:1:q" "s" (pos 1)

abbrev after_fork : World
unfolding fork_session
after_fork = second (fork_session name_itself first_ids "s" (pos 1) "q" stored)

fork_succeeds : fork_session name_itself first_ids "s" (pos 1) "q" stored ≡ (ok forked, after_fork)
unfolding fork_session
fork_succeeds = refl

fork_session_again_example :
    fork_session name_itself later_ids "s" (pos 1) "q" after_fork ≡ (ok forked, after_fork)
fork_session_again_example =
    fork_session_again name_itself "s" (pos 1) "q" first_ids later_ids stored after_fork forked refl
      fork_succeeds
