-- ===== src/MessageEvents/Merge.antt =====
-- crates/santi-db/src/message_events.rs, `merge_message_part`, and the derived JSON form of
-- `MessagePart` in crates/santi-core/src/model/message.rs.
use santi.Base.{String, ◌≡◌, refl, Option, none, some, str_eq, if◌then◌else◌}
use santi.Base.Exec.{Result, ok, ok_or, and_then}
use santi.Model.Json.{Value, Fields, object, end, field, get, insert, as_object, as_str}
use santi.Model.Json
use santi.Model.Error.{Error, invalid_input}
use santi.Model.Message.{MessagePart, text, image}

-- `serde_json::to_value` of a part: tagged by "type", which always gives an object.
unfoldable pub to_fields : MessagePart → Fields
to_fields (text s) = field "type" (Json.text "text") (field "text" (Json.text s) end)
to_fields (image mime_type data_base64) =
    field "type" (Json.text "image")
      (field "mime_type" (Json.text mime_type) (field "data_base64" (Json.text data_base64) end))

abbrev text_field : String → Fields → Option String
text_field k m = elim (get k m) [ none ↦ none | some v ↦ as_str v ]

abbrev image_of : Option String → Option String → Option MessagePart
image_of (some mime_type) (some data_base64) = some (image mime_type data_base64)
image_of _ _ = none

abbrev text_of : Option String → Option MessagePart
text_of (some s) = some (text s)
text_of none = none

abbrev part_of : Option String → Fields → Option MessagePart
part_of none m = none
part_of (some tag) m =
    if str_eq tag "text"
    then text_of (text_field "text" m)
    else if str_eq tag "image"
    then image_of (text_field "mime_type" m) (text_field "data_base64" m)
    else none

-- `serde_json::from_value` of a part: keys that the tag does not know are passed over.
unfoldable pub from_fields : Fields → Option MessagePart
unfolding get
from_fields m = part_of (text_field "type" m) m

-- Every key of the second object is put into the first.
unfoldable pub merge_json_object : Fields → Fields → Fields
unfolding insert
merge_json_object base end = base
merge_json_object base (field key value merge) = merge_json_object (insert key value base) merge

unfoldable pub merge_message_part : MessagePart → Value → Result Error MessagePart
unfolding to_fields merge_json_object from_fields
merge_message_part part merge =
    and_then (ok_or (as_object merge) (invalid_input "patch merge must be an object"))
      λ merge_object.
        ok_or (from_fields (merge_json_object (to_fields part) merge_object))
          (invalid_input "patch produced invalid message part")

-- A patch with the whole JSON form of a part replaces any part by it, also one of the other type.
pub merge-to_fields : (p q : MessagePart) → merge_message_part p (object (to_fields q)) ≡ ok q
unfolding merge_message_part
merge-to_fields (text s) (text t) = refl
merge-to_fields (text s) (image m d) = refl
merge-to_fields (image n e) (text t) = refl
merge-to_fields (image n e) (image m d) = refl
