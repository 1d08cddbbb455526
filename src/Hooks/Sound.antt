-- ===== src/Hooks/Sound.antt =====
-- crates/santi-runtime/src/hooks.rs: what an action of a hook asks for.
use santi.Base.{
  ℕ, ◌<◌, ◌≤◌, true, ltb, ◌≡◌, refl, sym, ap, subst, Option, none, some, List, [], ◌∷◌, filter_map,
  In, here, there, In-filter_map, Bool-cases, inl, inr, arith,
}
use santi.Model.Session.{SessionMessage, AssemblyItem, AssemblyTarget, Compact, TurnTriggerType}
use santi.Hooks.{
  RuntimeAction, TurnCompletedHookInput, HookEvaluator, CompactThresholdHook,
  ForkHandoffThresholdHook, evaluate_turn_completed, compact_at, hand_off_at, last_compact_end,
  messages_since, maximum, compact_end_of, is_session_send,
}

In-le-maximum : (n : ℕ) (ns : List ℕ) → In n ns → n ≤ maximum ns
In-le-maximum n [] i = elim i [ ]
In-le-maximum n (m ∷ ns) (here e) = omega (arith, e)
In-le-maximum n (m ∷ ns) (there i) = omega (arith, In-le-maximum n ns i)

-- Every compact of the tail ends at or before the last end.
pub compact-le-last :
    (items : List AssemblyItem) (item : AssemblyItem) (c : Compact)
    → In item items
    → item.target ≡ AssemblyTarget.compact c
    → c.end_session_seq ≤ last_compact_end items
unfolding last_compact_end
compact-le-last items item c i e =
    In-le-maximum c.end_session_seq (filter_map (λ x. compact_end_of x.target) items) (
      In-filter_map (λ x. compact_end_of x.target) item c.end_session_seq items i
        (ap compact_end_of e))

-- The action is about the turn that ended and its assistant message. A compact starts after every
-- compact of the tail; a hand-off comes only from a turn that a user's message started.
abbrev pub Sound : TurnCompletedHookInput → RuntimeAction → Type 0
Sound input (RuntimeAction.compact session_id _ start end _ _ _ turn_id) =
    (m : SessionMessage) × (input.assistant_message ≡ some m)
    × (end ≡ m.relation.session_seq)
    × (session_id ≡ input.session.id)
    × (turn_id ≡ input.turn.id)
    × ((item : AssemblyItem) (c : Compact)
        → In item input.assembly_tail
        → item.target ≡ AssemblyTarget.compact c
        → c.end_session_seq < start)
Sound input (RuntimeAction.fork_reserved _ _) = ⊥
Sound input (RuntimeAction.fork_handoff session_id point _ _ turn_id) =
    (m : SessionMessage) × (input.assistant_message ≡ some m)
    × (point ≡ m.relation.session_seq)
    × (session_id ≡ input.session.id)
    × (turn_id ≡ input.turn.id)
    × (input.turn.trigger_type ≡ TurnTriggerType.session_send)

module _ (input : TurnCompletedHookInput) where
  compact_at-Sound :
      (hook : CompactThresholdHook) (o : Option SessionMessage) (a : RuntimeAction)
      → input.assistant_message ≡ o
      → In a (compact_at hook input o)
      → Sound input a
  unfolding compact_at
  compact_at-Sound hook none a e i = elim i [ ]
  compact_at-Sound hook (some m) a e i =
      elim (Bool-cases (
        ltb (messages_since (last_compact_end input.assembly_tail) input.assembly_tail)
          hook.min_messages_since_last_compact)) [
            | inl b ↦ elim (rw b at i) [ ]
            | inr b ↦ elim (rw b at i) [
              | here q ↦ subst (Sound input) (sym q) (
                m,
                e,
                refl,
                refl,
                refl,
                λ item c j t. omega (arith, compact-le-last input.assembly_tail item c j t),
              )
              | there j ↦ elim j [ ]
            ]
          ]

  hand_off_at-Sound :
      (hook : ForkHandoffThresholdHook) (o : Option SessionMessage) (a : RuntimeAction)
      → input.assistant_message ≡ o
      → input.turn.trigger_type ≡ TurnTriggerType.session_send
      → In a (hand_off_at hook input o)
      → Sound input a
  unfolding hand_off_at
  hand_off_at-Sound hook none a e t i = elim i [ ]
  hand_off_at-Sound hook (some m) a e t i =
      elim (Bool-cases (
        ltb (messages_since (last_compact_end input.assembly_tail) input.assembly_tail)
          hook.min_messages_since_last_compact)) [
            | inl b ↦ elim (rw b at i) [ ]
            | inr b ↦ elim (rw b at i) [
              | here q ↦ subst (Sound input) (sym q) (m, e, refl, refl, refl, t)
              | there j ↦ elim j [ ]
            ]
          ]

  sends : (t : TurnTriggerType) → is_session_send t ≡ true → t ≡ TurnTriggerType.session_send
  sends TurnTriggerType.session_send e = refl
  sends TurnTriggerType.system e = absurd (ground (arith, e))

  -- Every action of an evaluator is about the turn that ended, its session and its assistant
  -- message; a compact starts after the end of every compact of the tail, a hand-off comes only
  -- from a turn that a user's message started, and no action is a reserved fork.
  pub evaluate_turn_completed-Sound :
      (evaluator : HookEvaluator) (a : RuntimeAction)
      → In a (evaluate_turn_completed evaluator input)
      → Sound input a
  unfolding evaluate_turn_completed
  evaluate_turn_completed-Sound (HookEvaluator.compact_threshold hook) a i =
      compact_at-Sound hook input.assistant_message a refl i
  evaluate_turn_completed-Sound (HookEvaluator.compact_handoff hook) a i = elim i [ ]
  evaluate_turn_completed-Sound (HookEvaluator.fork_handoff_threshold hook) a i =
      elim (Bool-cases (is_session_send input.turn.trigger_type)) [
        | inl b ↦
            hand_off_at-Sound hook input.assistant_message a refl (sends input.turn.trigger_type b)
              (rw b at i)
        | inr b ↦ elim (rw b at i) [ ]
      ]
