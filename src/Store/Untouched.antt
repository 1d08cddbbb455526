-- ===== src/Store/Untouched.antt =====
-- crates/santi-db/src/adapter/standalone: the operations that leave the tables
-- of turns and of messages alone.
use santi.Store.Souls.{
  ensure_soul_session, fetch_session_soul, of_session, standalone_soul_session_id,
}
use santi.Base.{
  ℕ, String, ◌≡◌, refl, Option, some, List, any, find_by, Bool-cases, Option-cases, inl, inr,
  str_eq,
}
use santi.Base.Exec.{Exec, Result, ok, err, lift, pure, ok_or, second, ◌>>=◌}
use santi.Base.Preserving.{Preserving, bind-Preserving}
use santi.Model.Error.{Error, not_found}
use santi.Model.Message.{ActorType, MessageState}
use santi.Model.Session.{
  SessionMessage, Turn, SoulSessionEntry, SoulSessionTargetType, AssemblyItem, AssemblyTarget,
}
use santi.Store.{Db, MessageRow, transaction, rolled_back}
use santi.Store.Souls.{
  acquire_soul_session, allocate_seq, insert_item, has_soul_id, same_place, map_ref_message_row,
}
use santi.Store.Souls as Souls
use santi.Store.SoulStore.{
  write_soul_memory, set_default_soul_memory, get_default_soul, is_soul, default_soul, upserted,
}
use santi.Store.Sessions.{
  append_message, list_messages, append_text_message, AppendSessionMessage, new_row, has_id,
  conflicts, has_message_id,
}
use santi.Store.Items.{
  append_message_ref, append_tool_call, AppendToolCall, insert_tool_call, soul_of_turn,
  append_tool_result, AppendToolResult, insert_tool_result, soul_of_call, has_call_id,
  result_conflicts, tool_call_target, tool_result_target, item_for,
}
use santi.Store.Mapping.{content_to_text}
use santi.Store.Growth.{found_soul}

abbrev pub turns_of : Db → List Turn
turns_of s = s.turns

-- The tables of turns and of messages.
abbrev pub rows_of : Db → List Turn × List MessageRow
rows_of s = (s.turns, s.session_messages)

module _ {X : Type 0} (view : Db → X) where
  pub rolled_back-Preserving :
      {A : Type 0} (s : Db) (p : Result Error A × Db)
      → view (second p) ≡ view s
      → view (second (let (r, u) = p in rolled_back s r u)) ≡ view s
  rolled_back-Preserving s (ok a, u) e = e
  rolled_back-Preserving s (err x, u) e = refl

  pub transaction-Preserving :
      {A : Type 0} (m : Exec Db Error A) → Preserving view m → Preserving view (transaction m)
  transaction-Preserving m k s = rolled_back-Preserving s (m s) (k s)

allocate_seq_rows : (id : String) → Preserving rows_of (allocate_seq id)
unfolding allocate_seq
allocate_seq_rows id s = elim (Option-cases (find_by (has_soul_id id) s.soul_sessions)) [
  | inl e ↦ rw e refl
  | inr (row, e) ↦ rw e refl
]

insert_item_rows :
    (id : String) (target_type : SoulSessionTargetType) (target_id : String) (seq : ℕ)
    → Preserving rows_of (insert_item id target_type target_id seq)
unfolding insert_item
insert_item_rows id target_type target_id seq s =
    elim (Bool-cases (any (same_place id seq) s.items)) [ inl e ↦ rw e refl | inr e ↦ rw e refl ]

-- A number is given out and an entry is inserted with it.
entering :
    {A : Type 0} (id : String) (target_type : SoulSessionTargetType) (target_id : String)
    (f : SoulSessionEntry → Exec Db Error A)
    → ((entry : SoulSessionEntry) → Preserving rows_of (f entry))
    → Preserving rows_of (allocate_seq id >>= λ seq. insert_item id target_type target_id seq >>= f)
entering id target_type target_id f h =
    bind-Preserving rows_of (allocate_seq id)
      (λ seq. insert_item id target_type target_id seq >>= f) (allocate_seq_rows id)
      λ seq.
        bind-Preserving rows_of (insert_item id target_type target_id seq) f
          (insert_item_rows id target_type target_id seq) h

module _ (id message_id : String) where
  abbrev found_message : Exec Db Error MessageRow
  found_message s =
      lift
        (ok_or (find_by (has_message_id message_id) s.session_messages)
          (not_found "session_message"))
        s

  abbrev referred : SoulSessionEntry → Exec Db Error AssemblyItem
  referred entry = found_message >>= λ message.
      pure (item_for entry (AssemblyTarget.message (map_ref_message_row message)))

  pub append_message_ref_rows : Preserving rows_of (append_message_ref id message_id)
  unfolding append_message_ref
  append_message_ref_rows =
      transaction-Preserving rows_of
        (allocate_seq id >>= λ seq.
          insert_item id SoulSessionTargetType.message message_id seq >>= referred)
        (entering id SoulSessionTargetType.message message_id referred λ entry.
          bind-Preserving rows_of found_message
            (λ message.
              pure (item_for entry (AssemblyTarget.message (map_ref_message_row message))))
            (λ s. refl) (λ message s. refl))

module _ (input : AppendToolCall) where
  insert_tool_call_rows : Preserving rows_of (insert_tool_call input)
  unfolding insert_tool_call
  insert_tool_call_rows s = elim (Bool-cases (any (has_call_id input.tool_call_id) s.tool_calls)) [
    | inl e ↦ rw e refl
    | inr e ↦ rw e refl
  ]

  abbrev called : SoulSessionEntry → Exec Db Error AssemblyItem
  called entry =
      pure (item_for entry (AssemblyTarget.tool_call (tool_call_target input entry.created_at)))

  abbrev entering_call : String → Exec Db Error AssemblyItem
  entering_call id = allocate_seq id >>= λ seq.
      insert_item id SoulSessionTargetType.tool_call input.tool_call_id seq >>= called

  pub append_tool_call_rows : Preserving rows_of (append_tool_call input)
  unfolding append_tool_call soul_of_turn
  append_tool_call_rows =
      transaction-Preserving rows_of
        (insert_tool_call input >>= λ _. soul_of_turn input.turn_id >>= entering_call)
        (bind-Preserving rows_of (insert_tool_call input)
          (λ _. soul_of_turn input.turn_id >>= entering_call) insert_tool_call_rows
          λ _.
            bind-Preserving rows_of (soul_of_turn input.turn_id) entering_call (λ s. refl)
              λ id.
                entering id SoulSessionTargetType.tool_call input.tool_call_id called
                  (λ entry s. refl))

module _ (input : AppendToolResult) where
  insert_tool_result_rows : Preserving rows_of (insert_tool_result input)
  unfolding insert_tool_result
  insert_tool_result_rows s = elim (Bool-cases (any (result_conflicts input) s.tool_results)) [
    | inl e ↦ rw e refl
    | inr e ↦ rw e refl
  ]

  abbrev resulting : SoulSessionEntry → Exec Db Error AssemblyItem
  resulting entry =
      pure (item_for entry (AssemblyTarget.tool_result (tool_result_target input entry.created_at)))

  abbrev entering_result : String → Exec Db Error AssemblyItem
  entering_result id = allocate_seq id >>= λ seq.
      insert_item id SoulSessionTargetType.tool_result input.tool_result_id seq >>= resulting

  pub append_tool_result_rows : Preserving rows_of (append_tool_result input)
  unfolding append_tool_result soul_of_call
  append_tool_result_rows =
      transaction-Preserving rows_of
        (insert_tool_result input >>= λ _. soul_of_call input.tool_call_id >>= entering_result)
        (bind-Preserving rows_of (insert_tool_result input)
          (λ _. soul_of_call input.tool_call_id >>= entering_result) insert_tool_result_rows
          λ _.
            bind-Preserving rows_of (soul_of_call input.tool_call_id) entering_result (λ s. refl)
              λ id.
                entering id SoulSessionTargetType.tool_result input.tool_result_id resulting
                  (λ entry s. refl))

ensure_soul_session_rows :
    (soul_id session_id : String) → Preserving rows_of (ensure_soul_session soul_id session_id)
unfolding ensure_soul_session
ensure_soul_session_rows soul_id session_id s =
    elim (Bool-cases (any (of_session session_id) s.soul_sessions)) [
      | inl e ↦ rw e refl
      | inr e ↦
          elim (Bool-cases
            (any (has_soul_id (standalone_soul_session_id session_id)) s.soul_sessions)) [
              | inl f ↦ rw (e, f) refl
              | inr f ↦ rw (e, f) refl
            ]
    ]

pub acquire_soul_session_rows :
    (soul_id session_id : String) → Preserving rows_of (acquire_soul_session soul_id session_id)
unfolding acquire_soul_session fetch_session_soul
acquire_soul_session_rows soul_id session_id =
    bind-Preserving rows_of (ensure_soul_session soul_id session_id)
      (λ _. fetch_session_soul session_id >>= found_soul)
      (ensure_soul_session_rows soul_id session_id)
      λ _.
        bind-Preserving rows_of (fetch_session_soul session_id) found_soul (λ s. refl)
          (λ found s. refl)

append_text_message_turns :
    (session_id message_id : String) (actor : ActorType) (actor_id text : String)
    (state : MessageState)
    → Preserving turns_of (append_text_message session_id message_id actor actor_id text state)
unfolding append_text_message list_messages
append_text_message_turns session_id message_id actor actor_id text state s =
    elim (Bool-cases (any (has_id session_id) s.sessions)) [
      | inr e ↦ rw e refl
      | inl e ↦
          elim (Bool-cases (
            any
              (conflicts message_id session_id
                (new_row s session_id message_id actor actor_id text state).session_seq)
              s.session_messages)) [ inl f ↦ rw (e, f) refl | inr f ↦ rw (e, f) refl ]
    ]

module _ (input : AppendSessionMessage) where
  abbrev appending : String → Exec Db Error (Option SessionMessage)
  appending text =
      append_text_message input.session_id input.message_id input.actor_type input.actor_id text
        input.state

  abbrev session_there : Option SessionMessage → Exec Db Error SessionMessage
  session_there appended = lift (ok_or appended (not_found "session"))

  pub append_message_turns : Preserving turns_of (append_message input)
  unfolding append_message
  append_message_turns =
      bind-Preserving turns_of (lift (content_to_text input.content))
        (λ text. appending text >>= session_there) (λ s. refl)
        λ text.
          bind-Preserving turns_of (appending text) session_there
            (append_text_message_turns input.session_id input.message_id input.actor_type
              input.actor_id text input.state)
            (λ appended s. refl)

get_default_soul_rows : Preserving rows_of get_default_soul
unfolding get_default_soul
get_default_soul_rows s = elim (Option-cases (find_by (is_soul default_soul) s.souls)) [
  | inl e ↦ rw e refl
  | inr (soul, e) ↦ rw e refl
]

pub write_soul_memory_rows : (id text : String) → Preserving rows_of (write_soul_memory id text)
unfolding write_soul_memory set_default_soul_memory
write_soul_memory_rows id text s = elim (Bool-cases (str_eq id default_soul)) [
  | inr e ↦ rw e refl
  | inl e ↦ rw e (
      bind-Preserving rows_of (set_default_soul_memory text) (λ soul. pure (some soul))
        (λ u. get_default_soul_rows (upserted text u)) (λ soul u. refl) s)
]

pub write_session_memory_rows :
    (id text : String) → Preserving rows_of (Souls.write_session_memory id text)
unfolding Souls.write_session_memory
write_session_memory_rows id text s = refl
