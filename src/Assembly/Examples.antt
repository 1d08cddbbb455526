-- ===== src/Assembly/Examples.antt =====
-- Tests of the provider input, and its theorems at a concrete assembly.
use santi.Base.{subst, sym}
use santi.Base.{
  ℕ, ◌≡◌, refl, none, List, [], ◌∷◌, ◌++◌, arith, any, filter_map, In, here, there, not-In-nil,
}
use santi.Base.Texts.{is_blank}
use santi.Model.Message.{account, text, fixed}
use santi.Model.Session.{
  AssemblyItem, AssemblyTarget, SessionMessage, Compact, SoulSessionTargetType,
}
use santi.Assembly.{
  assembly_to_provider_input, effective_compact_indexes, message_is_compacted,
  compact_to_input_message, to_input_message, content_of,
}
use santi.Assembly.Hidden.{covers, hidden-eq-covered}
use santi.Assembly.Input.{full_compact_alone, WithinTarget}

abbrev message_at : ℕ → SessionMessage
message_at n = record {
  relation = record { session_id = "s"; message_id = "m"; session_seq = n; created_at = "t" };
  message = record {
    id = "m";
    actor_type = account;
    actor_id = "user";
    content = record { parts = text "hello" ∷ [] };
    state = fixed;
    version = 1;
    deleted_at = none;
    created_at = "t";
    updated_at = "t";
  };
}

abbrev item_of : AssemblyTarget → AssemblyItem
item_of t = record {
  entry = record {
    soul_session_id = "ss";
    target_type = SoulSessionTargetType.message;
    target_id = "m";
    soul_session_seq = 1;
    created_at = "t";
  };
  target = t;
}

abbrev compact_of : ℕ → ℕ → Compact
compact_of a b = record {
  id = "c";
  turn_id = "t";
  summary = "sum";
  start_session_seq = a;
  end_session_seq = b;
  created_at = "t";
}

abbrev two_messages : List AssemblyItem
two_messages =
    item_of (AssemblyTarget.message (message_at 1))
    ∷ item_of (AssemblyTarget.compact (compact_of 1 1))
    ∷ item_of (AssemblyTarget.message (message_at 2))
    ∷ []

abbrev full_compact : AssemblyItem
full_compact = item_of (AssemblyTarget.compact (compact_of 1 2))

first_is_summed_up :
    assembly_to_provider_input two_messages
    ≡ record { role = "system"; content = "[compact 1-1]\nsum" }
      ∷ record { role = "user"; content = "hello" }
      ∷ []
unfolding assembly_to_provider_input to_input_message compact_to_input_message content_of is_blank
first_is_summed_up = refl

hidden-eq-covered_example :
    message_is_compacted 1 two_messages (effective_compact_indexes two_messages)
    ≡ any (covers 1) two_messages
hidden-eq-covered_example = hidden-eq-covered 1 two_messages

two_messages-within :
    (item : AssemblyItem) → In item two_messages → WithinTarget (compact_of 1 2) item.target
two_messages-within item (here e) =
    subst (λ x. WithinTarget (compact_of 1 2) x.target) (sym e) (omega arith)
two_messages-within item (there (here e)) =
    subst (λ x. WithinTarget (compact_of 1 2) x.target) (sym e) (omega arith)
two_messages-within item (there (there (here e))) =
    subst (λ x. WithinTarget (compact_of 1 2) x.target) (sym e) (omega arith)
two_messages-within item (there (there (there i))) = absurd (not-In-nil item i)

full_compact_alone_example :
    assembly_to_provider_input (two_messages ++ full_compact ∷ [])
    ≡ filter_map compact_to_input_message (compact_of 1 2 ∷ [])
full_compact_alone_example =
    full_compact_alone two_messages full_compact (compact_of 1 2) refl two_messages-within
