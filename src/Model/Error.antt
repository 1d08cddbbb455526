-- ===== src/Model/Error.antt =====
-- crates/santi-core/src/error.rs
use santi.Base.{String}

pub data Error : Type 0 where
  not_found : String → Error
  busy : String → Error
  invalid_input : String → Error
  upstream : String → Error
  internal : String → Error

pub data LockError : Type 0 where
  busy lost : LockError
  backend : String → LockError
