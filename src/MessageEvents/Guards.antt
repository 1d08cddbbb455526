-- ===== src/MessageEvents/Guards.antt =====
-- crates/santi-db/src/message_events.rs: who may change a message, and when. The guards of
-- `apply_message_event` in front of the payload.
use santi.Base.{ℕ, ◌<◌, ◌^◌, String, ◌≡◌, ◌↔◌, ◌⊎◌, inl, inr, true, Option, none, arith, eq_iff}
use santi.Base.Exec.{ok, err, Result-cases}
use santi.Model.Error.{Error}
use santi.Model.Message.{
  ActorType, Message, MessageEventPayload, patch, fix, delete, pending, eq_actor,
}
use santi.MessageEvents.Apply.{apply_payload, apply_message_event, next_version}

-- The message may be changed by this actor at this version.
pub record Allows (m : Message) (actor_type : ActorType) (actor_id : String) (base_version : ℕ)
    : Type 0 where
  pub same_type : m.actor_type ≡ actor_type
  pub same_id : m.actor_id ≡ actor_id
  pub same_version : m.version ≡ base_version
  pub not_deleted : m.deleted_at ≡ none
  pub is_pending : m.state ≡ pending

eq_actor_iff : (a b : ActorType) → (eq_actor a b ≡ true) ↔ (a ≡ b)
eq_actor_iff a b = ground arith

-- An accepted event changes neither the author nor the version before the final increment.
pub record KeepsAuthor (m m' : Message) : Type 0 where
  pub id : m'.id ≡ m.id
  pub actor_type : m'.actor_type ≡ m.actor_type
  pub actor_id : m'.actor_id ≡ m.actor_id
  pub version : m'.version ≡ m.version

pub apply_payload-KeepsAuthor :
    (m m' : Message) (p : MessageEventPayload) → apply_payload m p ≡ ok m' → KeepsAuthor m m'
unfolding apply_payload
apply_payload-KeepsAuthor m m' (patch ps) h = ground arith
apply_payload-KeepsAuthor m m' _ h = ground arith

module _ (m m' : Message) (a : ActorType) (i : String) (v : ℕ) (p : MessageEventPayload) where
  accepted-Allows : apply_message_event m a i v p ≡ ok m' → Allows m a i v
  unfolding apply_message_event
  accepted-Allows h = ground (arith, eq_iff m.actor_id i, eq_actor_iff m.actor_type a)

  accepted-payload :
      apply_message_event m a i v p ≡ ok m'
      → (c : Message) × (apply_payload m p ≡ ok c)
        × (m' ≡ record c { version = next_version c.version })
  unfolding apply_message_event
  accepted-payload h = ground arith

  Allows-accepted :
      (c : Message)
      → Allows m a i v
      → apply_payload m p ≡ ok c
      → m' ≡ record c { version = next_version c.version }
      → apply_message_event m a i v p ≡ ok m'
  unfolding apply_message_event
  Allows-accepted c h e f = ground (arith, eq_iff m.actor_id i, eq_actor_iff m.actor_type a)

  -- An event is accepted exactly when its author wrote the message, its base version is the
  -- message's, the message is neither deleted nor fixed, and the payload applies; the result is
  -- what the payload makes of the message, one version later.
  pub accepted_iff : (apply_message_event m a i v p ≡ ok m') ↔ (
      Allows m a i v
      × ((c : Message) × (apply_payload m p ≡ ok c)
          × (m' ≡ record c { version = next_version c.version })))
  accepted_iff =
      (λ h. (accepted-Allows h, accepted-payload h), λ h. Allows-accepted h.1.0 h.0 h.1.1 h.1.2)

  accepted-KeepsAuthor :
      apply_message_event m a i v p ≡ ok m'
      → (m'.id ≡ m.id) × (m'.actor_id ≡ m.actor_id) × (m'.version ≡ next_version m.version)
  accepted-KeepsAuthor h =
      let (c, e, f) = accepted-payload h in
      let k = apply_payload-KeepsAuthor m c p e in ground (arith, k.id, k.actor_id, k.version)

-- After an accepted event, every further event that names the same base version is refused,
-- provided that the version is below 2 ^ 64.
pub stale_version_refused :
    (m m' : Message) (a a' : ActorType) (i i' : String) (v : ℕ) (p p' : MessageEventPayload)
    → m.version < 2 ^ 64
    → apply_message_event m a i v p ≡ ok m'
    → (e : Error) × (apply_message_event m' a' i' v p' ≡ err e)
stale_version_refused m m' a a' i i' v p p' bound h =
    elim (Result-cases (apply_message_event m' a' i' v p')) [
      | inl (m'', accepted) ↦ absurd (
          omega (
            arith,
            (accepted-Allows m' m'' a' i' v p' accepted).same_version,
            (accepted-Allows m m' a i v p h).same_version,
            (accepted-KeepsAuthor m m' a i v p h).2,
          ))
      | inr refused ↦ refused
    ]

-- A message that was fixed or deleted refuses every later event, whoever sends it.
pub terminal_refused :
    (m m' : Message) (a a' : ActorType) (i i' : String) (v v' : ℕ) (p p' : MessageEventPayload)
    → (p ≡ fix) ⊎ ((r : Option String) × (p ≡ delete r))
    → apply_message_event m a i v p ≡ ok m'
    → (e : Error) × (apply_message_event m' a' i' v' p' ≡ err e)
unfolding apply_payload
terminal_refused m m' a a' i i' v v' p p' t h =
    elim (Result-cases (apply_message_event m' a' i' v' p')) [
      | inl (m'', accepted) ↦
          let (c, e, f) = accepted-payload m m' a i v p h in
          let k = accepted-Allows m' m'' a' i' v' p' accepted in
          absurd (ground (arith, k.not_deleted, k.is_pending))
      | inr refused ↦ refused
    ]
