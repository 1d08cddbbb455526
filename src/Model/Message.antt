-- ===== src/Model/Message.antt =====
-- crates/santi-core/src/model/message.rs. A `version` is the bit pattern of an `i64`, below 2 ^ 64.
use santi.Base.{ℕ, String, Bool, true, false, Option, List}
use santi.Base.Int.{ℤ}
use santi.Model.Json.{Value}

pub data ActorType : Type 0 where
  account soul system : ActorType

pub data MessageState : Type 0 where
  pending fixed : MessageState

pub data MessagePart : Type 0 where
  text : String → MessagePart
  image : String → String → MessagePart

pub record MessageContent : Type 0 where
  pub parts : List MessagePart

pub record Message : Type 0 where
  pub id : String
  pub actor_type : ActorType
  pub actor_id : String
  pub content : MessageContent
  pub state : MessageState
  pub version : ℕ
  pub deleted_at : Option String
  pub created_at : String
  pub updated_at : String

pub record MessagePartPatch : Type 0 where
  pub index : ℤ
  pub merge : Value

pub record MessageInsertItem : Type 0 where
  pub index : ℤ
  pub part : MessagePart

pub data MessageEventPayload : Type 0 where
  patch : List MessagePartPatch → MessageEventPayload
  insert : List MessageInsertItem → MessageEventPayload
  remove : List ℤ → MessageEventPayload
  fix : MessageEventPayload
  delete : Option String → MessageEventPayload

-- The derived `PartialEq`.
abbrev pub eq_actor : ActorType → ActorType → Bool
eq_actor account account = true
eq_actor soul soul = true
eq_actor system system = true
eq_actor _ _ = false

abbrev pub is_fixed : MessageState → Bool
is_fixed pending = false
is_fixed fixed = true
