-- ===== src/MessageEvents/Apply.antt =====
-- crates/santi-db/src/message_events.rs, `apply_message_event`.
use santi.Base.{
  ℕ, zero, suc, ◌+◌, ◌-◌, ◌%◌, ◌^◌, String, Bool, ◌||◌, not, true, false, Option, none, some, List,
  [], ◌∷◌, str_eq, length, insert_at, remove_at, leb, ltb, ◌==◌, if◌then◌else◌,
}
use santi.Base.Int.{ℤ, pos, negsuc, leb_ℤ, eq_ℤ, decimal_ℤ}
use santi.Base.Texts.{format}
use santi.Base.Exec.{Result, ok, err, and_then}
use santi.Model.Error.{Error, invalid_input}
use santi.Model.Message.{
  ActorType, Message, MessagePart, MessagePartPatch, MessageInsertItem, MessageEventPayload, patch,
  insert, remove, fix, delete, fixed, eq_actor, is_fixed,
}
use santi.MessageEvents.Merge.{merge_message_part}

-- `valid_index`: `raw < 0 || raw as usize >= len` is refused.
unfoldable pub valid_index : ℕ → ℤ → String → Result Error ℕ
valid_index len (pos i) action =
    if leb len i
    then err (invalid_input (format (action ∷ " index out of bounds: " ∷ decimal_ℤ (pos i) ∷ [])))
    else ok i
valid_index len (negsuc i) action =
    err (invalid_input (format (action ∷ " index out of bounds: " ∷ decimal_ℤ (negsuc i) ∷ [])))

-- `valid_insert_index`: one more place is allowed, the end.
unfoldable pub valid_insert_index : ℕ → ℤ → Result Error ℕ
valid_insert_index len (pos i) =
    if ltb len i
    then err (invalid_input (format ("insert index out of bounds: " ∷ decimal_ℤ (pos i) ∷ [])))
    else ok i
valid_insert_index len (negsuc i) =
    err (invalid_input (format ("insert index out of bounds: " ∷ decimal_ℤ (negsuc i) ∷ [])))

-- `parts[index] = merge_message_part(&parts[index], merge)?` at an index in range.
unfoldable pub patch_at : List MessagePart → ℕ → MessagePartPatch → Result Error (List MessagePart)
patch_at [] i p = ok []
patch_at (x ∷ xs) zero p = and_then (merge_message_part x p.merge) λ y. ok (y ∷ xs)
patch_at (x ∷ xs) (suc i) p = and_then (patch_at xs i p) λ ys. ok (x ∷ ys)

unfoldable pub apply_patches :
    List MessagePart → List MessagePartPatch → Result Error (List MessagePart)
unfolding valid_index patch_at
apply_patches parts [] = ok parts
apply_patches parts (p ∷ ps) =
    and_then (valid_index (length parts) p.index "patch")
      λ i. and_then (patch_at parts i p) λ parts'. apply_patches parts' ps

-- `sort_by_key(|item| item.index)`, a stable sort.
unfoldable pub sort_item : MessageInsertItem → List MessageInsertItem → List MessageInsertItem
sort_item x [] = x ∷ []
sort_item x (y ∷ ys) = if leb_ℤ x.index y.index then x ∷ y ∷ ys else y ∷ sort_item x ys

unfoldable pub sort_items : List MessageInsertItem → List MessageInsertItem
unfolding sort_item
sort_items [] = []
sort_items (x ∷ xs) = sort_item x (sort_items xs)

unfoldable pub insert_items :
    List MessagePart → List MessageInsertItem → Result Error (List MessagePart)
unfolding valid_insert_index
insert_items parts [] = ok parts
insert_items parts (item ∷ items) =
    and_then (valid_insert_index (length parts) item.index)
      λ i. insert_items (insert_at parts i item.part) items

-- `sort_unstable` and `dedup`: of equal indexes one is kept.
unfoldable pub sort_index : ℤ → List ℤ → List ℤ
sort_index x [] = x ∷ []
sort_index x (y ∷ ys) =
    if eq_ℤ x y then y ∷ ys else if leb_ℤ x y then x ∷ y ∷ ys else y ∷ sort_index x ys

unfoldable pub unique_indexes : List ℤ → List ℤ
unfolding sort_index
unique_indexes [] = []
unique_indexes (x ∷ xs) = sort_index x (unique_indexes xs)

-- Every index is checked before the first part is removed.
unfoldable pub valid_indexes : ℕ → List ℤ → Result Error (List ℕ)
unfolding valid_index
valid_indexes len [] = ok []
valid_indexes len (x ∷ xs) =
    and_then (valid_index len x "remove") λ i. and_then (valid_indexes len xs) λ is. ok (i ∷ is)

-- `for index in unique_indexes.into_iter().rev() { parts.remove(index) }`.
unfoldable pub remove_rev : List ℕ → List MessagePart → List MessagePart
remove_rev [] parts = parts
remove_rev (i ∷ is) parts = remove_at (remove_rev is parts) i

unfoldable pub remove_parts : List MessagePart → List ℤ → Result Error (List MessagePart)
unfolding unique_indexes valid_indexes remove_rev
remove_parts parts indexes =
    and_then (valid_indexes (length parts) (unique_indexes indexes)) λ is. ok (remove_rev is parts)

abbrev with_parts : Message → List MessagePart → Message
with_parts m parts = record m { content = record { parts = parts } }

-- The match on the payload.
unfoldable pub apply_payload : Message → MessageEventPayload → Result Error Message
unfolding apply_patches sort_items insert_items remove_parts
apply_payload m (patch patches) =
    and_then (apply_patches m.content.parts patches) λ parts. ok (with_parts m parts)
apply_payload m (insert items) =
    and_then (insert_items m.content.parts (sort_items items)) λ parts. ok (with_parts m parts)
apply_payload m (remove indexes) =
    and_then (remove_parts m.content.parts indexes) λ parts. ok (with_parts m parts)
apply_payload m fix = ok (record m { state = fixed })
apply_payload m (delete reason) = ok (record m { deleted_at = some "" })

abbrev is_some {ℓ} : {A : Type ℓ} → Option A → Bool
is_some none = false
is_some (some a) = true

-- `message.version += 1` on the bit pattern of an `i64`.
abbrev pub next_version : ℕ → ℕ
next_version v = (v + 1) % 2 ^ 64

-- The `i64` of a bit pattern.
abbrev pub to_ℤ : ℕ → ℤ
to_ℤ v = if ltb v (2 ^ 63) then pos v else negsuc (2 ^ 64 - 1 - v)

unfoldable pub version_mismatch : ℕ → ℕ → String
version_mismatch version base_version = format (
    "message version mismatch: expected "
    ∷ decimal_ℤ (to_ℤ version)
    ∷ ", got "
    ∷ decimal_ℤ (to_ℤ base_version)
    ∷ [])

unfoldable pub apply_message_event :
    Message → ActorType → String → ℕ → MessageEventPayload → Result Error Message
apply_message_event m actor_type actor_id base_version payload =
    if not (eq_actor m.actor_type actor_type) || not (str_eq m.actor_id actor_id)
    then err (invalid_input "only the original actor may mutate a message")
    else if not (m.version == base_version)
    then err (invalid_input (version_mismatch m.version base_version))
    else if is_some m.deleted_at
    then err (invalid_input "deleted messages cannot be mutated")
    else if is_fixed m.state
    then err (invalid_input "fixed messages cannot be mutated")
    else and_then (apply_payload m payload)
        λ m'. ok (record m' { version = next_version m'.version })
