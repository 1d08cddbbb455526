-- ===== src/Store.antt =====
-- The tables of the standalone store (crates/santi-db/src/adapter/standalone). A table is the list
-- of its rows in the order of insertion; a JSON column holds the value that its text stands for;
-- `now` is CURRENT_TIMESTAMP. The text that SQLite adds to an error message is left out.
pub mod Mapping
pub mod Sessions
pub mod Souls
pub mod Turns
pub mod Items
pub mod Appends
pub mod Events
pub mod Deletes
pub mod Counters
pub mod Forks
pub mod Entries
pub mod Effects
pub mod SoulStore
pub mod Listings
pub mod Listed
pub mod ListedExamples
pub mod Steps
pub mod Valid
pub mod Growth
pub mod Untouched
pub mod Ended
pub mod Turning
pub mod ForkSteps
pub mod Forked
pub mod Examples
pub mod Reach
use santi.Base.{ℕ, String, Bool, Option, List, [], find_by, any, if◌then◌else◌}
use santi.Base.Int.{ℤ}
use santi.Base.Exec.{Exec, Result, ok, err}
use santi.Model.Json.{Value}
use santi.Model.Error.{Error}
use santi.Model.Message.{MessageContent}
use santi.Model.Session.{Soul, Turn, SoulSessionEntry, ToolCall, ToolResult, SessionEffect}

pub record SessionRow : Type 0 where
  pub id : String
  pub parent_session_id : Option String
  pub fork_point : Option ℤ
  pub session_memory : String
  pub created_at : String
  pub updated_at : String

pub record MessageRow : Type 0 where
  pub id : String
  pub session_id : String
  pub session_seq : ℕ
  pub actor_type : String
  pub actor_id : String
  pub content_text : String
  pub content_json : Option MessageContent
  pub state : String
  pub version : ℕ
  pub created_at : String
  pub updated_at : String

pub record SoulSessionRow : Type 0 where
  pub id : String
  pub soul_id : String
  pub session_id : String
  pub session_memory : String
  pub provider_state : Option Value
  pub next_seq : ℕ
  pub last_seen_session_seq : ℕ
  pub parent_soul_session_id : Option String
  pub fork_point : Option ℤ
  pub created_at : String
  pub updated_at : String

pub record CompactRow : Type 0 where
  pub id : String
  pub session_id : String
  pub turn_id : String
  pub summary : String
  pub start_session_seq : ℕ
  pub end_session_seq : ℕ
  pub created_at : String

pub record Db : Type 0 where
  pub now : String
  pub sessions : List SessionRow
  pub session_messages : List MessageRow
  pub soul_sessions : List SoulSessionRow
  pub turns : List Turn
  pub items : List SoulSessionEntry
  pub tool_calls : List ToolCall
  pub tool_results : List ToolResult
  pub compacts : List CompactRow
  pub effects : List SessionEffect
  pub souls : List Soul

abbrev pub empty : String → Db
empty now = record {
  now = now;
  sessions = [];
  session_messages = [];
  soul_sessions = [];
  turns = [];
  items = [];
  tool_calls = [];
  tool_results = [];
  compacts = [];
  effects = [];
  souls = [];
}

abbrev pub rolled_back : {A : Type 0} → Db → Result Error A → Db → Result Error A × Db
rolled_back s (ok a) s' = (ok a, s')
rolled_back s (err e) s' = (err e, s)

-- `pool.begin()` … `tx.commit()`: an error on the way undoes what was written.
abbrev pub transaction : {A : Type 0} → Exec Db Error A → Exec Db Error A
transaction m s = let (r, s') = m s in rolled_back s r s'
