-- ===== src/Send/Starting.antt =====
-- crates/santi-runtime/src/session/send/turn.rs: what the start-up does to the keys, the turns and the soul session.
use santi.Runtime.{after_call}
use santi.Model.Error.{Error}
use santi.Base.Exec.{continue}
use santi.Base.{find_by}
use santi.Store.Souls.{has_soul_id}
use santi.Store.{SoulSessionRow}
use santi.Store.Ended.{Entered, append_message_ref_row}
use santi.Base.{String, ◌≡◌, refl, ap, ◌∙◌, Option, none, some, List, [], ◌∷◌}
use santi.Base.Exec.{Exec, Result, ok, err, pure, lift, ok_or, ◌>>=◌, second}
use santi.Base.Preserving.{Preserving, bind-Preserving}
use santi.Model.Message.{ActorType, MessageState}
use santi.Model.Session.{Session, SessionMessage, SoulSession, AssemblyItem}
use santi.Store.{Db}
use santi.Store.Mapping.{text_content}
use santi.Store.Sessions.{
  get_session, list_messages, get_message, append_message, AppendSessionMessage,
}
use santi.Store.Souls.{acquire_soul_session}
use santi.Store.Items.{append_message_ref}
use santi.Store.Untouched.{acquire_soul_session_rows, append_message_turns, append_message_ref_rows}
use santi.Runtime.{World, call}
use santi.Runtime.Channel.{SendSessionError, not_found}
use santi.Send.{
  SessionTurnService, SendIds, TurnExecutionRequest, TurnInput, StartupContext, map_core_error,
}
use santi.Send.Startup.{
  run_turn_startup, build_assembly_items, items_of_messages, append_trigger_message,
  trigger_message, existing_trigger, startup_context, with_item,
}
use santi.Send.Held.{call_keeps_rows, kept_view, Keeping, call_keeps}

abbrev whole : World → World
whole w = w

-- The items are read; nothing is written.
items_read :
    (id : String) (messages : List SessionMessage)
    → Preserving whole (items_of_messages id messages)
unfolding items_of_messages get_message
items_read id [] w = refl
items_read id (message ∷ messages) w =
    bind-Preserving whole (call map_core_error (get_message message.message.id))
      (λ found. items_of_messages id messages >>= λ items. pure (with_item id found items))
      (λ u. refl)
      (λ found.
        bind-Preserving whole (items_of_messages id messages)
          (λ items. pure (with_item id found items)) (items_read id messages) (λ items u. refl))
      w

pub build_assembly_items_reads :
    (session_id soul_session_id : String)
    → Preserving whole (build_assembly_items session_id soul_session_id)
unfolding build_assembly_items list_messages
build_assembly_items_reads session_id soul_session_id =
    bind-Preserving whole (call map_core_error (list_messages session_id none))
      (items_of_messages soul_session_id) (λ w. refl) (items_read soul_session_id)

build_assembly_items_keep :
    (session_id soul_session_id : String)
    → Keeping (build_assembly_items session_id soul_session_id)
build_assembly_items_keep session_id soul_session_id w =
    ap kept_view (build_assembly_items_reads session_id soul_session_id w)

abbrev trigger_input : String → String → ActorType → String → String → AppendSessionMessage
trigger_input message_id session_id actor_type actor_id text = record {
  session_id = session_id;
  message_id = message_id;
  actor_type = actor_type;
  actor_id = actor_id;
  content = text_content text;
  state = MessageState.fixed;
}

append_trigger_keeps :
    (message_id session_id : String) (actor_type : ActorType) (actor_id text : String)
    → Keeping (append_trigger_message message_id session_id actor_type actor_id text)
unfolding append_trigger_message
append_trigger_keeps message_id session_id actor_type actor_id text =
    call_keeps map_core_error
      (append_message (trigger_input message_id session_id actor_type actor_id text))
      (append_message_turns (trigger_input message_id session_id actor_type actor_id text))

trigger_keeps :
    (ids : SendIds) (input : TurnInput) (session_id : String)
    → Keeping (trigger_message ids input session_id)
unfolding trigger_message get_message
trigger_keeps ids (TurnInput.user_text text) session_id w =
    append_trigger_keeps ids.trigger_id session_id ActorType.account "account_local" text w
trigger_keeps ids (TurnInput.system_seed actor_id text) session_id w =
    append_trigger_keeps ids.trigger_id session_id ActorType.system actor_id text w
trigger_keeps ids (TurnInput.existing_message message_id) session_id w =
    bind-Preserving kept_view (call map_core_error (get_message message_id))
      (λ found. lift (existing_trigger session_id found)) (λ u. refl) (λ found u. refl) w

module _ (service : SessionTurnService) (ids : SendIds) (request : TurnExecutionRequest) where
  abbrev assembling :
      SoulSession → Session → SessionMessage → Exec World SendSessionError StartupContext
  assembling soul_session session trigger =
      build_assembly_items session.id soul_session.id >>= λ assembly.
      pure (startup_context service request soul_session session trigger assembly)

  abbrev entering :
      SoulSession → Session → SessionMessage → Exec World SendSessionError StartupContext
  entering soul_session session trigger =
      call map_core_error (append_message_ref soul_session.id trigger.message.id) >>= λ _.
      assembling soul_session session trigger

  abbrev triggering : SoulSession → Session → Exec World SendSessionError StartupContext
  triggering soul_session session =
      trigger_message ids request.input session.id >>= entering soul_session session

  abbrev checking : SoulSession → Option Session → Exec World SendSessionError StartupContext
  checking soul_session found = lift (ok_or found not_found) >>= triggering soul_session

  abbrev looking_up : SoulSession → Exec World SendSessionError StartupContext
  looking_up soul_session =
      call map_core_error (get_session request.session_id) >>= checking soul_session

  entering_keeps :
      (soul_session : SoulSession) (session : Session) (trigger : SessionMessage)
      → Keeping (entering soul_session session trigger)
  entering_keeps soul_session session trigger =
      bind-Preserving kept_view
        (call map_core_error (append_message_ref soul_session.id trigger.message.id))
        (λ _. assembling soul_session session trigger)
        (call_keeps_rows map_core_error (append_message_ref soul_session.id trigger.message.id)
          (append_message_ref_rows soul_session.id trigger.message.id))
        λ _.
          bind-Preserving kept_view (build_assembly_items session.id soul_session.id)
            (λ assembly.
              pure (startup_context service request soul_session session trigger assembly))
            (build_assembly_items_keep session.id soul_session.id) (λ assembly w. refl)

  looking_up_keeps : (soul_session : SoulSession) → Keeping (looking_up soul_session)
  unfolding get_session
  looking_up_keeps soul_session =
      bind-Preserving kept_view (call map_core_error (get_session request.session_id))
        (checking soul_session) (λ w. refl)
        λ found.
          bind-Preserving kept_view (lift (ok_or found not_found)) (triggering soul_session)
            (λ w. refl)
            λ session.
              bind-Preserving kept_view (trigger_message ids request.input session.id)
                (entering soul_session session) (trigger_keeps ids request.input session.id)
                (entering_keeps soul_session session)

  pub startup_keeps : Keeping (run_turn_startup service ids request)
  unfolding run_turn_startup
  startup_keeps =
      bind-Preserving kept_view
        (call map_core_error (acquire_soul_session service.default_soul_id request.session_id))
        looking_up
        (call_keeps_rows map_core_error
          (acquire_soul_session service.default_soul_id request.session_id)
          (acquire_soul_session_rows service.default_soul_id request.session_id))
        looking_up_keeps

  -- The soul session of a start-up that succeeded is in the store.
  abbrev pub Found : Result SendSessionError StartupContext × World → Type 0
  Found (ok startup, u) =
      (row : SoulSessionRow) × (find_by (has_soul_id startup.soul_session_id) u.db.soul_sessions
        ≡ some row)
  Found (err e, u) = Unit {0}

  bind-Found :
      {A : Type 0} (m : Exec World SendSessionError A)
      (f : A → Exec World SendSessionError StartupContext)
      → ((a : A) (u : World) → Found (f a u))
      → (w : World) → Found ((m >>= f) w)
  bind-Found {A} m f h w = split (m w)
    where
      split : (p : Result SendSessionError A × World) → Found (let (r, u) = p in continue r f u)
      split (ok a, u) = h a u
      split (err e, u) = tt

  module _ (soul_session : SoulSession) (session : Session) (trigger : SessionMessage) where
    assembling-Found :
        (u : World)
        → ((row : SoulSessionRow) × (find_by (has_soul_id soul_session.id) u.db.soul_sessions
              ≡ some row))
        → Found (assembling soul_session session trigger u)
    assembling-Found u (row, e) =
        split (build_assembly_items session.id soul_session.id u)
          (build_assembly_items_reads session.id soul_session.id u)
      where
        split :
            (p : Result SendSessionError (List AssemblyItem) × World)
            → second p ≡ u
            → Found (
                let (r, v) = p in
                continue r
                  (λ assembly.
                    pure (startup_context service request soul_session session trigger assembly))
                  v)
        split (ok items, v) q =
            (row, ap (λ d. find_by (has_soul_id soul_session.id) d.db.soul_sessions) q ∙ e)
        split (err x, v) q = tt

    entering-Found : (w : World) → Found (entering soul_session session trigger w)
    entering-Found w =
        split (append_message_ref soul_session.id trigger.message.id w.db)
          (append_message_ref_row soul_session.id trigger.message.id w.db)
      where
        split :
            (p : Result Error AssemblyItem × Db)
            → Entered soul_session.id p
            → Found (
                let (r, v) = after_call map_core_error w p in
                continue r (λ _. assembling soul_session session trigger) v)
        split (ok item, d) q = assembling-Found (record w { db = d }) q
        split (err x, d) q = tt

  pub startup-Found : (w : World) → Found (run_turn_startup service ids request w)
  unfolding run_turn_startup
  startup-Found =
      bind-Found
        (call map_core_error (acquire_soul_session service.default_soul_id request.session_id))
        looking_up
        λ soul_session.
          bind-Found (call map_core_error (get_session request.session_id)) (checking soul_session)
            λ found. bind-Found (lift (ok_or found not_found)) (triggering soul_session) λ session.
              bind-Found (trigger_message ids request.input session.id)
                (entering soul_session session) (entering-Found soul_session session)
