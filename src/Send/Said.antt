-- ===== src/Send/Said.antt =====
-- crates/santi-runtime/src/session/send/turn/body.rs: the text of a turn and what its caller was sent.
use santi.Base.{
  some_inj, ℕ, zero, suc, String, true, ◌≡◌, refl, ap, ◌∙◌, sym, subst, Option, some, List, [], ◌∷◌,
  ◌++◌, arith, append-nil, append_assoc,
}
use Prim.Native.String.{◌++◌ as joined}
use Prim.Native.String.append
use text.Mathlib.TextLemmas.{append-nil as text_append-nil, append_assoc as text_append_assoc}
use santi.Base.Exec.{Result, ok, err, pure, continue, second}
use santi.Base.Preserving.{Preserving}
use santi.Model.Error.{Error}
use santi.Model.Session.{Turn}
use santi.Model.Provider.{ProviderEvent, ProviderFunctionCall, FunctionCallOutput}
use santi.Runtime.{World}
use santi.Runtime.Channel.{SendSessionError, SendSessionEvent}
use santi.Send.{SessionTurnService, SendIds, StartupContext, send}
use santi.Send.Body.{
  collect, Streamed, handle_tool_calls, run_round, run_loop, go_on, LoopState, Round, last, more,
  after_stream, stream_of, streaming, next_loop,
}
use santi.Send.Held.{tool_calls_preserving, tool_call_preserving}

-- The deltas of what was sent, one after the other.
unfoldable pub said : List (Result SendSessionError SendSessionEvent) → String
said [] = ""
said (ok (SendSessionEvent.output_text_delta delta) ∷ events) = joined delta (said events)
said (ok SendSessionEvent.completed ∷ events) = said events
said (err e ∷ events) = said events

abbrev sent_of : World → List (Result SendSessionError SendSessionEvent)
sent_of w = w.sent

-- From a text and what was sent to a later text and what was sent then: the text has grown by what
-- was said in between.
abbrev pub Told : World → String → World → String → Type 0
Told w before u after =
    (events : List (Result SendSessionError SendSessionEvent)) × (u.sent ≡ w.sent ++ events)
    × (after ≡ joined before (said events))

nothing_said : (w : World) (text : String) → Told w text w text
unfolding said
nothing_said w text = ([], sym (append-nil w.sent), sym (text_append-nil text))

said-append :
    (xs ys : List (Result SendSessionError SendSessionEvent))
    → said (xs ++ ys) ≡ joined (said xs) (said ys)
unfolding said
said-append [] ys = sym (append.nil (said ys))
said-append (ok (SendSessionEvent.output_text_delta delta) ∷ xs) ys =
    ap (joined delta) (said-append xs ys) ∙ sym (text_append_assoc delta (said xs) (said ys))
said-append (ok SendSessionEvent.completed ∷ xs) ys = said-append xs ys
said-append (err e ∷ xs) ys = said-append xs ys

said_twice : (w u v : World) (a b c : String) → Told w a u b → Told u b v c → Told w a v c
said_twice w u v a b c (xs, p, q) (ys, r, s) = (
  xs ++ ys,
  r ∙ ap (λ l. l ++ ys) p ∙ append_assoc w.sent xs ys,
  s
      ∙ ap (λ t. joined t (said ys)) q
      ∙ text_append_assoc a (said xs) (said ys)
      ∙ ap (joined a) (sym (said-append xs ys)),
)

abbrev Collected : World → String → Result SendSessionError Streamed × World → Type 0
Collected w before (ok r, u) = Told w before u r.text
Collected w before (err e, u) = Unit {0}

collect-Collected :
    (events : List (Result Error ProviderEvent)) (r : Streamed) (w : World)
    → Collected w r.text (collect true events r w)
unfolding collect send said
collect-Collected [] r w = nothing_said w r.text
collect-Collected (err e ∷ events) r w = tt
collect-Collected (ok (ProviderEvent.completed id) ∷ events) r w = nothing_said w r.text
collect-Collected (ok (ProviderEvent.function_call_requested requested) ∷ events) r w =
    collect-Collected events _ w
collect-Collected (ok (ProviderEvent.output_text_delta delta) ∷ events) r w =
    grown (collect true events r' u) (collect-Collected events r' u)
  where
    event : Result SendSessionError SendSessionEvent
    event = ok (SendSessionEvent.output_text_delta delta)

    u : World
    u = record w { sent = w.sent ++ event ∷ [] }

    r' : Streamed
    r' = record r { text = joined r.text (joined delta "") }

    grown :
        (p : Result SendSessionError Streamed × World)
        → Collected u r'.text p
        → Collected w r.text p
    grown (err e, v) h = tt
    grown (ok s, v) h = said_twice w u v r.text r'.text s.text (event ∷ [], refl, refl) h

module _ (service : SessionTurnService) (startup : StartupContext) (turn : Turn) where
  tool_calls_sent :
      (ids : ℕ → String) (i : ℕ) (calls : List ProviderFunctionCall)
      → Preserving sent_of (handle_tool_calls service startup turn ids i calls)
  tool_calls_sent = tool_calls_preserving service startup turn sent_of λ id requested.
      tool_call_preserving service startup turn id requested sent_of (λ w. refl) (λ w. refl)
        (λ result w. refl)

  module _ (ids : SendIds) where
    abbrev RoundTold :
        World
        → String
        → Result SendSessionError (Round service ids true startup turn) × World
        → Type 0
    RoundTold w before (ok (last l), u) = Told w before u l.assistant_text
    RoundTold w before (ok (more l), u) = Told w before u l.assistant_text
    RoundTold w before (err e, u) = Unit {0}

    abbrev LoopTold : World → String → Result SendSessionError LoopState × World → Type 0
    LoopTold w before (ok l, u) = Told w before u l.assistant_text
    LoopTold w before (err e, u) = Unit {0}

    calls-RoundTold :
        (n : ℕ) (r : Streamed) (calls : List ProviderFunctionCall) (w u : World) (before : String)
        → Told w before u r.text
        → RoundTold w before (after_stream service ids true startup turn n r calls u)
    calls-RoundTold n r [] w u before h = h
    calls-RoundTold n r (requested ∷ calls) w u before (events, p, q) =
        split
          (handle_tool_calls service startup turn (ids.tool_result_id n) 0 (requested ∷ calls) u)
          (tool_calls_sent (ids.tool_result_id n) 0 (requested ∷ calls) u)
      where
        split :
            (x : Result SendSessionError (List FunctionCallOutput) × World)
            → sent_of (second x) ≡ sent_of u
            → RoundTold w before (
                let (y, v) = x in
                continue y
                  (λ outputs. pure (more (next_loop service ids true startup turn r outputs)))
                  v)
        split (ok outputs, v) e = (events, e ∙ p, q)
        split (err z, v) e = tt

    run_round-RoundTold :
        (n : ℕ) (l : LoopState) (w : World)
        → RoundTold w l.assistant_text (run_round service ids true startup turn n l w)
    unfolding run_round
    run_round-RoundTold n l w =
        split (collect true (stream_of service ids true startup turn n l) (streaming l) w)
          (collect-Collected (stream_of service ids true startup turn n l) (streaming l) w)
      where
        split :
            (p : Result SendSessionError Streamed × World)
            → Collected w l.assistant_text p
            → RoundTold w l.assistant_text (
                let (r, u) = p in
                continue r (λ s. after_stream service ids true startup turn n s s.calls) u)
        split (ok r, u) h = calls-RoundTold n r r.calls w u l.assistant_text h
        split (err e, u) h = tt

    go_on-Told :
        (next : LoopState → World → Option (Result SendSessionError LoopState × World)) (w : World)
        (before : String) (m : LoopState) (v : World)
        → ((l : LoopState) (u : World)
            → next l u ≡ some (ok m, v)
            → Told u l.assistant_text v m.assistant_text)
        → (p : Result SendSessionError (Round service ids true startup turn) × World)
        → RoundTold w before p
        → go_on service ids true startup turn next p ≡ some (ok m, v)
        → Told w before v m.assistant_text
    go_on-Told next w before m v f (err e, u) k h = absurd (ground (arith, some_inj (ok m, v) h))
    go_on-Told next w before m v f (ok (last l), u) k h =
        subst (LoopTold w before) (sym (some_inj (ok m, v) h)) k
    go_on-Told next w before m v f (ok (more l), u) k h =
        said_twice w u v before l.assistant_text m.assistant_text k (f l u h)

    -- A loop that ends has told its caller what its text has grown by.
    pub run_loop-Told :
        (fuel n : ℕ) (l m : LoopState) (w v : World)
        → run_loop service ids true startup turn fuel n l w ≡ some (ok m, v)
        → Told w l.assistant_text v m.assistant_text
    unfolding run_loop
    run_loop-Told zero n l m w v h = absurd (ground (arith, h))
    run_loop-Told (suc fuel) n l m w v h =
        go_on-Told (run_loop service ids true startup turn fuel (suc n)) w l.assistant_text m v
          (λ l' u g. run_loop-Told fuel (suc n) l' m u v g)
          (run_round service ids true startup turn n l w) (run_round-RoundTold n l w) h
