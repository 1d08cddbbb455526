-- ===== src/Store/Deletes.antt =====
-- crates/santi-db/src/adapter/standalone/session_store.rs: the `Delete` event in the standalone
-- ledger, whose table has no column for it.
use santi.Base.{String, ◌≡◌, refl, ap, ◌∙◌, Option, some, none, arith, subst}
use santi.Base.Exec.{ok}
use santi.Model.Message.{Message, delete, fix, fixed, pending}
use santi.Model.Session.{SessionMessage}
use santi.MessageEvents.Apply.{apply_message_event, apply_payload, next_version}
use santi.MessageEvents.Guards.{Allows, accepted_iff}
use santi.Store.{Db, MessageRow}
use santi.Store.Mapping.{map_session_message_row}
use santi.Store.Sessions.{ApplyMessageEvent, store_message_event, save_message}
use santi.Store.Events.{
  Stored, store_message_event-cases, found, db_with, found-db_with, found_outcome, ok-Stored,
  message_state-state_db,
}

module _ (input : ApplyMessageEvent) (s : Db) (m : SessionMessage) (s' : Db)
    (reason : Option String) (is_delete : input.payload ≡ delete reason)
    (stored : Stored input s m s') where
  open stored use {row, updated, content_text}

  abbrev message_of : Message
  message_of = (map_session_message_row row).message

  row-Allows : Allows message_of input.actor_type input.actor_id input.base_version
  row-Allows =
      ((accepted_iff message_of updated input.actor_type input.actor_id input.base_version
          input.payload).0
        stored.was_applied).0

  -- The row was pending, and deleting changes neither its parts nor its state.
  delete-content : (updated.content ≡ message_of.content) × (updated.state ≡ pending)
  unfolding apply_payload
  delete-content =
      let (h, p) =
        (accepted_iff message_of updated input.actor_type input.actor_id input.base_version
            input.payload).0
          stored.was_applied in
      let e : apply_payload message_of (delete reason) ≡ ok p.0 =
        subst (λ q. apply_payload message_of q ≡ ok p.0) is_delete p.1 in
      (ground (arith, e, p.2), ground (arith, e, p.2, h.is_pending))

  abbrev saved : MessageRow
  saved = save_message s content_text updated row

  abbrev fixed_message : Message
  fixed_message = record (map_session_message_row saved).message {
    state = fixed;
    version = next_version updated.version;
  }

  -- The row that is read back allows the same author to go on.
  saved-Allows :
      Allows (map_session_message_row saved).message input.actor_type input.actor_id updated.version
  unfolding map_session_message_row
  saved-Allows = record {
    same_type = row-Allows.same_type;
    same_id = row-Allows.same_id;
    same_version = refl;
    not_deleted = refl;
    is_pending = message_state-state_db updated.state ∙ delete-content.1;
  }

  saved-fixed :
      apply_message_event
        (map_session_message_row saved).message
        input.actor_type
        input.actor_id
        updated.version
        fix
      ≡ ok fixed_message
  unfolding apply_payload map_session_message_row
  saved-fixed =
      (accepted_iff (map_session_message_row saved).message fixed_message input.actor_type
          input.actor_id updated.version fix).1
        (
          saved-Allows,
          (record (map_session_message_row saved).message { state = fixed }, refl, refl),
        )

  abbrev again : ApplyMessageEvent
  again = record input { base_version = updated.version; payload = fix }

  again-found : found again (db_with input s updated content_text) ≡ some saved
  again-found = found-db_with input s row updated content_text stored.was_found

  abbrev again_message : SessionMessage
  again_message =
      map_session_message_row
        (save_message (db_with input s updated content_text) content_text fixed_message saved)

  abbrev again_db : Db
  again_db = db_with again (db_with input s updated content_text) fixed_message content_text

  again-accepted :
      store_message_event again (db_with input s updated content_text)
      ≡ (ok again_message, again_db)
  unfolding map_session_message_row
  again-accepted =
      store_message_event-cases again (db_with input s updated content_text)
      ∙ ap (found_outcome again (db_with input s updated content_text)) again-found
      ∙ ground (arith, stored.in_session, saved-fixed, stored.has_text)

-- The standalone ledger does not keep a deletion: a message whose `Delete` event was accepted is
-- read back as not deleted, and the same author's `Fix` event at the new version is accepted.
pub delete_not_kept :
    (input : ApplyMessageEvent) (s s' : Db) (m : SessionMessage) (reason : Option String)
    → input.payload ≡ delete reason
    → store_message_event input s ≡ (ok m, s')
    → (m.message.deleted_at ≡ none)
      × ((m' : SessionMessage) × (s'' : Db) × (store_message_event
              (record input { base_version = m.message.version; payload = fix })
              s'
            ≡ (ok m', s'')))
unfolding map_session_message_row
delete_not_kept input s s' m reason d h =
    let stored = ok-Stored input s m s' h in
    (
      ap (λ x. x.message.deleted_at) stored.read_back,
      (
        again_message input s m s' reason d stored,
        again_db input s m s' reason d stored,
        (λ k.
              store_message_event
                (record input {
                  base_version = (stored.read_back k).message.version;
                  payload = fix;
                })
                (stored.written k))
            ∙ again-accepted input s m s' reason d stored,
      ),
    )
