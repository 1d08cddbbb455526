-- ===== src/Model/Json.antt =====
-- `serde_json::Value`, as far as the program looks into it: objects are maps by key. A number that
-- is no `i64` is kept as its text.
use santi.Base.{String, Bool, Option, none, some, str_eq, if◌then◌else◌}
use santi.Base.Int.{ℤ}

mutual
  pub data Value : Type 0 where
    null : Value
    bool : Bool → Value
    int : ℤ → Value
    float : String → Value
    text : String → Value
    array : Items → Value
    object : Fields → Value

  pub data Items : Type 0 where
    nil : Items
    cons : Value → Items → Items

  pub data Fields : Type 0 where
    end : Fields
    field : String → Value → Fields → Fields

-- `Map::get`.
unfoldable pub get : String → Fields → Option Value
get k end = none
get k (field j v m) = if str_eq j k then some v else get k m

-- `Map::insert`: a key that is there gets the new value.
unfoldable pub insert : String → Value → Fields → Fields
insert k v end = field k v end
insert k v (field j w m) = if str_eq j k then field j v m else field j w (insert k v m)

-- `Value::as_object`.
abbrev pub as_object : Value → Option Fields
as_object (object m) = some m
as_object _ = none

-- `Value::as_str`.
abbrev pub as_str : Value → Option String
as_str (text s) = some s
as_str _ = none

-- `Value::as_i64`.
abbrev pub as_i64 : Value → Option ℤ
as_i64 (int n) = some n
as_i64 _ = none
