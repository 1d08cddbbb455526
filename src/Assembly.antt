-- ===== src/Assembly.antt =====
-- What a provider is sent: crates/santi-core/src/service/session/kernel/transcript.rs and
-- crates/santi-runtime/src/session/send/assembly.rs.
pub mod Ranges
pub mod Hidden
pub mod Input
pub mod Examples
use santi.Base.{
  ℕ, suc, String, Bool, ◌&&◌, not, true, false, Option, none, some, List, [], ◌∷◌, map, any, filter,
  filter_map, leb, ltb, ◌==◌, if◌then◌else◌,
}
use santi.Base.Texts.{format, join, is_blank, decimal}
use santi.Model.Message.{ActorType, account, soul, system, MessagePart, text, image}
use santi.Model.Session.{SessionMessage, Compact, AssemblyTarget, AssemblyItem}

pub record ProviderInputMessage : Type 0 where
  pub role : String
  pub content : String

abbrev pub role_of : ActorType → String
role_of account = "user"
role_of soul = "assistant"
role_of system = "system"

abbrev text_part : MessagePart → Option String
text_part (text s) = some s
text_part (image mime_type data_base64) = none

-- The text parts of a message, joined.
unfoldable pub content_of : SessionMessage → String
unfolding join
content_of m = join "\n\n" (filter_map text_part m.message.content.parts)

unfoldable pub to_input_message : SessionMessage → Option ProviderInputMessage
to_input_message m =
    if is_blank (content_of m)
    then none
    else some (record { role = role_of m.message.actor_type; content = content_of m })

unfoldable pub compact_to_input_message : Compact → Option ProviderInputMessage
unfolding format decimal
compact_to_input_message c =
    if is_blank c.summary
    then none
    else some (record {
      role = "system";
      content = format (
          "[compact "
          ∷ decimal c.start_session_seq
          ∷ "-"
          ∷ decimal c.end_session_seq
          ∷ "]\n"
          ∷ c.summary
          ∷ []);
    })

-- `iter().enumerate()`, from a number on.
abbrev pub enumerate {ℓ} : {A : Type ℓ} → ℕ → List A → List (ℕ × A)
enumerate k [] = []
enumerate k (x ∷ xs) = (k, x) ∷ enumerate (suc k) xs

-- The place of a compact among the items, and the range of `session_seq` that it sums up.
pub record Range : Type 0 where
  pub index : ℕ
  pub start : ℕ
  pub end : ℕ

abbrev pub target_range : ℕ → AssemblyTarget → Option Range
target_range index (AssemblyTarget.compact c) =
    some (record { index = index; start = c.start_session_seq; end = c.end_session_seq })
target_range index _ = none

abbrev pub item_range : ℕ × AssemblyItem → Option Range
item_range (index, item) = target_range index item.target

unfoldable pub compact_ranges : List AssemblyItem → List Range
compact_ranges items = filter_map item_range (enumerate 0 items)

-- A later range that holds this one whole.
abbrev pub replaces : Range → Range → Bool
replaces r other = ltb r.index other.index && (leb other.start r.start && leb r.end other.end)

unfoldable pub effective_ranges : List Range → List Range
effective_ranges ranges = filter (λ r. not (any (replaces r) ranges)) ranges

unfoldable pub effective_compact_indexes : List AssemblyItem → List ℕ
unfolding compact_ranges effective_ranges
effective_compact_indexes items = map (λ r. r.index) (effective_ranges (compact_ranges items))

-- `BTreeSet::contains`.
abbrev pub contains : List ℕ → ℕ → Bool
contains indexes k = any (◌==◌ k) indexes

abbrev pub target_covers : ℕ → AssemblyTarget → Bool
target_covers seq (AssemblyTarget.compact c) =
    leb c.start_session_seq seq && leb seq c.end_session_seq
target_covers seq _ = false

unfoldable pub message_is_compacted : ℕ → List AssemblyItem → List ℕ → Bool
message_is_compacted seq items indexes =
    any (λ (index, item). if contains indexes index then target_covers seq item.target else false)
      (enumerate 0 items)

-- What one item contributes, given all items and the compacts that count.
unfoldable pub target_input :
    List AssemblyItem → List ℕ → ℕ → AssemblyTarget → Option ProviderInputMessage
target_input items indexes index (AssemblyTarget.message m) =
    if message_is_compacted m.relation.session_seq items indexes then none else to_input_message m
target_input items indexes index (AssemblyTarget.compact c) =
    if contains indexes index then compact_to_input_message c else none
target_input items indexes index _ = none

unfoldable pub assembly_to_provider_input : List AssemblyItem → List ProviderInputMessage
unfolding target_input effective_compact_indexes message_is_compacted
assembly_to_provider_input items =
    filter_map
      (λ (index, item). target_input items (effective_compact_indexes items) index item.target)
      (enumerate 0 items)
