-- ===== src/Runtime/Watch.antt =====
-- crates/santi-runtime/src/session/watch/shapes.rs: the events of a session.
use santi.Base.{ℕ, String, Option}

pub data SessionWatchState : Type 0 where
  idle running completed failed conflicted : SessionWatchState

pub data SessionWatchMessageChange : Type 0 where
  created delta finalized : SessionWatchMessageChange

pub data SessionWatchActivityKind : Type 0 where
  send tool hook compact fork : SessionWatchActivityKind

pub data SessionWatchActivityState : Type 0 where
  started progress completed failed : SessionWatchActivityState

pub record SessionWatchConnected : Type 0 where
  pub session_id : String
  pub latest_seq : ℕ

pub record SessionWatchStateChanged : Type 0 where
  pub session_id : String
  pub state : SessionWatchState

pub record SessionWatchMessageChanged : Type 0 where
  pub session_id : String
  pub message_id : String
  pub session_seq : ℕ
  pub change : SessionWatchMessageChange
  pub actor_type : String

pub record SessionWatchActivityChanged : Type 0 where
  pub session_id : String
  pub activity : SessionWatchActivityKind
  pub state : SessionWatchActivityState
  pub label : Option String

pub data SessionWatchEvent : Type 0 where
  connected : SessionWatchConnected → SessionWatchEvent
  state_changed : SessionWatchStateChanged → SessionWatchEvent
  message_changed : SessionWatchMessageChanged → SessionWatchEvent
  activity_changed : SessionWatchActivityChanged → SessionWatchEvent
