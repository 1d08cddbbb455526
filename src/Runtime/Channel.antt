-- ===== src/Runtime/Channel.antt =====
-- crates/santi-runtime/src/session/send/mod.rs: what the caller of a send is told.
use santi.Base.{String}

pub data SendSessionError : Type 0 where
  busy not_found : SendSessionError
  internal : String → SendSessionError

pub data SendSessionEvent : Type 0 where
  output_text_delta : String → SendSessionEvent
  completed : SendSessionEvent
