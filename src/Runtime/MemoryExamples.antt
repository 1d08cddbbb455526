-- ===== src/Runtime/MemoryExamples.antt =====
-- The memory of a session that the soul has not seen before.
use santi.Base.{◌≡◌, refl, some}
use santi.Base.Exec.{ok, second}
use santi.Model.Session.{SoulSession}
use santi.Base.{none}
use santi.Store.{Db, empty}
use santi.Runtime.Memory.{Remembered, write_session_memory, write_session_memory-get_session_memory}

abbrev remembered : SoulSession
remembered = record {
  id = "ss_standalone_s";
  soul_id = "soul";
  session_id = "s";
  session_memory = "likes tea";
  provider_state = none;
  next_seq = 1;
  last_seen_session_seq = 0;
  parent_soul_session_id = none;
  fork_point = none;
  created_at = "t";
  updated_at = "t";
}

abbrev after : Db
unfolding write_session_memory
after = second (write_session_memory "soul" "s" "likes tea" (empty "t"))

written : write_session_memory "soul" "s" "likes tea" (empty "t") ≡ (ok (some remembered), after)
unfolding write_session_memory
written = refl

write_session_memory-get_session_memory_example : Remembered "s" "likes tea" after
write_session_memory-get_session_memory_example =
    write_session_memory-get_session_memory "soul" "s" "likes tea" (empty "t") after
      (some remembered) written
