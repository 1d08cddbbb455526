-- ===== src/MessageEvents/Examples.antt =====
-- Tests of the message events, and their theorems at a concrete message.
use mathlib.Core.List.{Perm}
use santi.Base.{◌≡◌, refl, ◌↔◌, inl, none, List, [], ◌∷◌, ◌++◌, arith, All, length}
use santi.Base.Int.{pos, negsuc, decimal_ℤ}
use santi.Base.Texts.{format}
use santi.Base.Exec.{ok, err}
use santi.Model.Error.{Error, invalid_input}
use santi.Model.Json
use santi.Model.Json.{object, field, end}
use santi.Model.Message.{
  account, soul, Message, MessagePart, text, image, MessagePartPatch, MessageInsertItem, remove,
  fix, delete, pending, fixed,
}
use santi.MessageEvents.Merge.{merge_message_part, to_fields, merge-to_fields}
use santi.MessageEvents.Apply.{
  apply_message_event, version_mismatch, apply_payload, apply_patches, insert_items, sort_items,
  remove_parts, next_version,
}
use santi.MessageEvents.Guards.{Allows, accepted_iff, stale_version_refused, terminal_refused}
use santi.MessageEvents.Remove.{IsIndex, keep_others, remove-keep_others}
use santi.MessageEvents.Insert.{item_parts, insert-perm}
use santi.MessageEvents.Patch.{Patched, apply_patches-Patched}

abbrev three : List MessagePart
three = text "a" ∷ text "b" ∷ text "c" ∷ []

abbrev draft : Message
draft = record {
  id = "m1";
  actor_type = account;
  actor_id = "user";
  content = record { parts = three };
  state = pending;
  version = 1;
  deleted_at = none;
  created_at = "t0";
  updated_at = "t0";
}

abbrev draft_fixed : Message
draft_fixed = record draft { state = fixed; version = 2 }

fix_draft : apply_message_event draft account "user" 1 fix ≡ ok draft_fixed
unfolding apply_message_event apply_payload
fix_draft = refl

other_author :
    apply_message_event draft soul "user" 1 fix
    ≡ err (invalid_input "only the original actor may mutate a message")
unfolding apply_message_event
other_author = refl

wrong_version :
    apply_message_event draft account "user" 7 fix
    ≡ err (invalid_input "message version mismatch: expected 1, got 7")
unfolding apply_message_event version_mismatch format decimal_ℤ
wrong_version = refl

remove_two : remove_parts three (pos 2 ∷ pos 0 ∷ pos 2 ∷ []) ≡ ok (text "b" ∷ [])
unfolding remove_parts
remove_two = refl

remove_negative :
    remove_parts three (pos 0 ∷ negsuc 0 ∷ [])
    ≡ err (invalid_input "remove index out of bounds: -1")
unfolding remove_parts format decimal_ℤ
remove_negative = refl

abbrev new_items : List MessageInsertItem
new_items =
    record { index = pos 4; part = text "z" } ∷ record { index = pos 0; part = text "y" } ∷ []

insert_two :
    insert_items three (sort_items new_items)
    ≡ ok (text "y" ∷ text "a" ∷ text "b" ∷ text "c" ∷ text "z" ∷ [])
unfolding insert_items sort_items
insert_two = refl

abbrev new_patches : List MessagePartPatch
new_patches = record { index = pos 1; merge = object (field "text" (Json.text "B") end) } ∷ []

patch_one : apply_patches three new_patches ≡ ok (text "a" ∷ text "B" ∷ text "c" ∷ [])
unfolding apply_patches merge_message_part
patch_one = refl

accepted_iff_example : (apply_message_event draft account "user" 1 fix ≡ ok draft_fixed) ↔ (
    Allows draft account "user" 1
    × ((c : Message) × (apply_payload draft fix ≡ ok c)
        × (draft_fixed ≡ record c { version = next_version c.version })))
accepted_iff_example = accepted_iff draft draft_fixed account "user" 1 fix

stale_version_refused_example :
    (e : Error) × (apply_message_event draft_fixed account "user" 1 (delete none) ≡ err e)
stale_version_refused_example =
    stale_version_refused draft draft_fixed account account "user" "user" 1 fix (delete none)
      (omega arith) fix_draft

terminal_refused_example :
    (e : Error) × (apply_message_event draft_fixed soul "x" 2 (remove []) ≡ err e)
terminal_refused_example =
    terminal_refused draft draft_fixed account soul "user" "x" 1 2 fix (remove []) (inl refl)
      fix_draft

remove-keep_others_example : (remove_parts three (pos 2 ∷ pos 0 ∷ []) ≡ ok (text "b" ∷ [])) ↔ (
    All (IsIndex (length three)) (pos 2 ∷ pos 0 ∷ [])
    × (text "b" ∷ [] ≡ keep_others (pos 2 ∷ pos 0 ∷ []) 0 three))
remove-keep_others_example = remove-keep_others three (pos 2 ∷ pos 0 ∷ []) (text "b" ∷ [])

insert-perm_example :
    Perm (text "y" ∷ text "a" ∷ text "b" ∷ text "c" ∷ text "z" ∷ []) (item_parts new_items ++ three)
insert-perm_example = insert-perm new_items three _ insert_two

apply_patches-Patched_example : Patched new_patches three (text "a" ∷ text "B" ∷ text "c" ∷ [])
apply_patches-Patched_example = apply_patches-Patched new_patches three _ patch_one

merge-to_fields_example :
    merge_message_part (text "a") (object (to_fields (image "image/png" "AA==")))
    ≡ ok (image "image/png" "AA==")
merge-to_fields_example = merge-to_fields (text "a") (image "image/png" "AA==")
