-- ===== src/Send/Reply.antt =====
-- crates/santi-runtime/src/session/send/turn/body.rs: what a body that succeeds has written, published
-- and told.
use santi.Base.Exec.{second}
use santi.Send.Held.{run_loop_keeps, loop_view}
use santi.Store.Ended.{complete_turn_messages}
use santi.Store.Untouched.{append_message_ref_rows, rows_of}
use santi.Base.{some_inj, filter, map}
use santi.Store.Sessions.{session_rows, order_rows, in_session}
use santi.Send.Closing.{told, completing, announced, completion}
use santi.Store.Appends.{appended_db-Appended}
use santi.Base.Texts.{join}
use santi.Store.Sessions.{new_row}
use santi.Store.Mapping.{actor_type, message_state, actor_type_db, state_db}
use santi.Base.{
  ℕ, String, true, false, ◌≡◌, refl, ap, ◌∙◌, subst, sym, Option, none, some, List, [], ◌∷◌, ◌++◌,
  arith, any, Bool-cases, inl, inr, append_assoc,
}
use santi.Base.Texts.{is_blank}
use Prim.Native.String.append
use santi.Base.Exec.{Result, ok, err, continue, second}
use santi.Model.Error.{Error}
use santi.Model.Message.{ActorType, MessageState}
use santi.Model.Session.{Turn, SessionMessage, AssemblyItem}
use santi.Store.{Db}
use santi.Store.Appends.{listed, append_message-outcome, row_for}
use santi.Store.Mapping.{
  option_map, text_content, content_to_text, part_texts, map_session_message_row,
}
use santi.Store.Sessions.{append_message, AppendSessionMessage, has_id, conflicts}
use santi.Store.Items.{append_message_ref}
use santi.Store.Turns.{complete_turn}
use santi.Runtime.{World, after_call, publish}
use santi.Runtime.Channel.{SendSessionError, SendSessionEvent}
use santi.Runtime.Watch.{SessionWatchEvent, SessionWatchState, SessionWatchActivityState}
use santi.Send.{
  SessionTurnService, SendIds, TurnExecutionRequest, StartupContext, TurnRunOutput, map_core_error,
}
use santi.Send.Body.{LoopState, run_loop}
use santi.Send.Ending.{
  complete_with, end_turn, run_turn_body, finalized, ended, start_state, session_state,
  send_activity,
}
use santi.Send.Closing.{assistant_input}
use santi.Send.Said.{said, Told, run_loop-Told}

module _ (service : SessionTurnService) (ids : SendIds) (request : TurnExecutionRequest) where
  -- The message of the assistant is new, last in its session, and says the text.
  pub record Written (text : String) (s : Db) (m : SessionMessage) (s' : Db) : Type 0 where
    pub same_id : m.message.id ≡ ids.assistant_id
    pub same_content : m.message.content ≡ text_content text
    pub same_actor : m.message.actor_type ≡ ActorType.soul
    pub same_state : m.message.state ≡ MessageState.fixed
    pub comes_last : listed request.session_id s' ≡ listed request.session_id s ++ m ∷ []

  abbrev ended_activity : String × SessionWatchEvent
  ended_activity = (
    request.session_id,
    send_activity request.session_id SessionWatchActivityState.completed none,
  )

  abbrev ended_state : String × SessionWatchEvent
  ended_state = (request.session_id, session_state request.session_id SessionWatchState.completed)

  abbrev Appending : String → Db → Result Error SessionMessage × Db → Type 0
  Appending text s (ok m, s') = Written text s m s'
  Appending text s (err e, s') = Unit {0}

  module _ (startup : StartupContext) (turn : Turn) (l : LoopState) where
    abbrev input : AppendSessionMessage
    input = assistant_input service ids request startup turn l

    append_lem : (s : Db) → Appending l.assistant_text s (append_message input s)
    unfolding content_to_text part_texts map_session_message_row actor_type message_state new_row
        actor_type_db state_db join
    append_lem s =
        subst (Appending l.assistant_text s)
          (sym (append_message-outcome input s l.assistant_text refl))
          (elim (Bool-cases (any (has_id input.session_id) s.sessions)) [
            | inr e ↦ rw e tt
            | inl e ↦
                elim (Bool-cases (
                  any
                    (conflicts input.message_id input.session_id
                      (row_for input s l.assistant_text).session_seq)
                    s.session_messages)) [
                      | inl f ↦ rw (e, f) tt
                      | inr f ↦
                          rw (e, f)
                            (record {
                              same_id = refl;
                              same_content = refl;
                              same_actor = refl;
                              same_state = refl;
                              comes_last =
                                  (appended_db-Appended input s l.assistant_text).comes_last;
                            })
                    ]
          ])

    -- A body that succeeded, from the end of its loop on.
    pub record Replied (w : World) (output : TurnRunOutput) (u : World) : Type 0 where
      pub not_blank : is_blank l.assistant_text ≡ false
      pub written : Written l.assistant_text w.db output.assistant_message u.db
      pub published :
          u.published
          ≡ w.published
            ++ (request.session_id, finalized request.session_id output.assistant_message)
              ∷ ended_activity
              ∷ ended_state
              ∷ []
      pub sent : u.sent ≡ w.sent

    abbrev After : World → Result SendSessionError TurnRunOutput × World → Type 0
    After w (ok output, u) = Replied w output u
    After w (err e, u) = Unit {0}

    module _ (w : World) (not_blank : is_blank l.assistant_text ≡ false) (m : SessionMessage)
        (s : Db) (written : Written l.assistant_text w.db m s) where
      -- After the message was announced.
      abbrev announced_world : World
      announced_world = record w {
        db = s;
        published = w.published ++ (request.session_id, finalized request.session_id m) ∷ [];
      }

      told-After :
          (entry : AssemblyItem) (v : World)
          → v.db.session_messages ≡ s.session_messages
          → v.published ≡ announced_world.published
          → v.sent ≡ w.sent
          → (p : Result Error Turn × Db) → (second p).session_messages ≡ v.db.session_messages
          → After w (
              let (r, x) = after_call map_core_error v p in
              continue r (told service ids request startup turn l m) x)
      unfolding publish session_rows
      told-After entry v a b c (err e, d) q = tt
      told-After entry v a b c (ok t, d) q = record {
        not_blank = not_blank;
        written = record {
          same_id = written.same_id;
          same_content = written.same_content;
          same_actor = written.same_actor;
          same_state = written.same_state;
          comes_last =
              ap
                (λ ms.
                  map map_session_message_row
                    (order_rows (filter (in_session request.session_id) ms)))
                (q ∙ a)
              ∙ written.comes_last;
        };
        published =
            ap (λ ps. (ps ++ ended_activity ∷ []) ++ ended_state ∷ []) b
            ∙ append_assoc announced_world.published (ended_activity ∷ []) (ended_state ∷ [])
            ∙ append_assoc w.published ((request.session_id, finalized request.session_id m) ∷ [])
                (ended_activity ∷ ended_state ∷ []);
        sent = c;
      }

      complete_with-After :
          After w (complete_with service ids request startup turn l m announced_world)
      unfolding complete_with
      complete_with-After =
          split (append_message_ref startup.soul_session_id m.message.id s)
            (append_message_ref_rows startup.soul_session_id m.message.id s)
        where
          split :
              (p : Result Error AssemblyItem × Db)
              → rows_of (second p) ≡ rows_of s
              → After w (
                  let (r, v) = after_call map_core_error announced_world p in
                  continue r (completing service ids request startup turn l m) v)
          split (err e, d) k = tt
          split (ok entry, d) k =
              told-After entry (record announced_world { db = d }) (ap (λ r. r.1) k) refl refl
                (complete_turn (completion service ids request startup turn l m entry) d)
                (complete_turn_messages (completion service ids request startup turn l m entry) d)

    end_turn-After : (w : World) → After w (end_turn service ids request startup turn l w)
    unfolding end_turn publish
    end_turn-After w = elim (Bool-cases (is_blank l.assistant_text)) [
      | inl e ↦ rw e tt
      | inr e ↦ rw e (split e (append_message input w.db) (append_lem w.db))
    ]
      where
        split :
            is_blank l.assistant_text ≡ false
            → (p : Result Error SessionMessage × Db) → Appending l.assistant_text w.db p
            → After w (
                let (r, v) = after_call map_core_error w p in
                continue r (announced service ids request startup turn l) v)
        split e (err x, d) k = tt
        split e (ok m, d) k = complete_with-After w e m d k

  -- What a turn that succeeded has said, in the world that it left.
  pub record Answered (w : World) (output : TurnRunOutput) (u : World) : Type 0 where
    pub events : List (Result SendSessionError SendSessionEvent)
    pub told : u.sent ≡ w.sent ++ events
    pub not_blank : is_blank (said events) ≡ false
    pub written : Written (said events) w.db output.assistant_message u.db
    pub published :
        u.published
        ≡ w.published
          ++ (request.session_id, finalized request.session_id output.assistant_message)
            ∷ ended_activity
            ∷ ended_state
            ∷ []

  module _ (startup : StartupContext) (turn : Turn) where
    -- A body that succeeds has told its caller some deltas; together they are not blank and are the
    -- text of a new, fixed message of the soul, which is the last of its session; that message, and
    -- then the end of the turn, is all that is published.
    pub body-Answered :
        (fuel : ℕ) (w u : World) (output : TurnRunOutput)
        → run_turn_body service ids request startup turn true fuel w ≡ some (ok output, u)
        → Answered w output u
    unfolding run_turn_body session_rows
    body-Answered fuel w u output h =
        from_loop (run_loop service ids true startup turn fuel 0 start w) refl h
      where
        start : LoopState
        start = start_state service ids request startup turn

        from_end :
            (l : LoopState) (v : World)
            → Told w "" v l.assistant_text
            → loop_view v ≡ loop_view w
            → end_turn service ids request startup turn l v ≡ (ok output, u)
            → Answered w output u
        from_end l v (events, p, q) k e =
            let r = subst (After startup turn l v) e (end_turn-After startup turn l v) in
            let t = q ∙ append.nil (said events) in
            record {
              events = events;
              told = r.sent ∙ p;
              not_blank = ap is_blank (sym t) ∙ r.not_blank;
              written = record {
                same_id = r.written.same_id;
                same_content = r.written.same_content ∙ ap text_content t;
                same_actor = r.written.same_actor;
                same_state = r.written.same_state;
                comes_last =
                    r.written.comes_last
                    ∙ ap
                        (λ ms.
                          map map_session_message_row
                            (order_rows (filter (in_session request.session_id) ms))
                          ++ output.assistant_message ∷ [])
                        (ap (λ x. x.1.1) k);
              };
              published =
                  r.published
                  ∙ ap
                      (λ ps.
                        ps
                        ++ (
                          request.session_id,
                          finalized request.session_id output.assistant_message,
                        )
                          ∷ ended_activity
                          ∷ ended_state
                          ∷ [])
                      (ap (λ x. x.2) k);
            }

        from_loop :
            (o : Option (Result SendSessionError LoopState × World))
            → run_loop service ids true startup turn fuel 0 start w ≡ o
            → option_map (ended service ids request startup turn) o ≡ some (ok output, u)
            → Answered w output u
        from_loop none e g = absurd (ground (arith, g))
        from_loop (some (err x, v)) e g = absurd (ground (arith, some_inj (ok output, u) g))
        from_loop (some (ok l, v)) e g =
            from_end l v (run_loop-Told service startup turn ids fuel 0 start l w v e)
              (run_loop_keeps service startup turn ids true fuel 0 start w (ok l, v) e)
              (sym (some_inj (ok output, u) g))
