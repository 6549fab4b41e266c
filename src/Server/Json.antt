-- ===== src/Server/Json.antt =====
-- The values of the JSON library that src/server.rs reads and edits, in the order of their fields.
-- A number is an integer that fits an `i64`, or another number, of which the code asks nothing.
use local_api_relay.Common.{Bool, true, false, Option, none, some, List, [], ◌∷◌, if◌then◌else◌}
use local_api_relay.Common.Int.{ℤ}
use local_api_relay.Common.Text.{Text, text_eq}

mutual
  pub data Json : Type 0 where
    null : Json
    boolean : Bool → Json
    number : ℤ → Json
    other_number : Json
    string : Text → Json
    array : Items → Json
    object : Fields → Json

  pub data Items : Type 0 where
    nil : Items
    item : Json → Items → Items

  pub data Fields : Type 0 where
    end : Fields
    entry : Text → Json → Fields → Fields

abbrev pub items : Items → List Json
items nil = []
items (item v vs) = v ∷ items vs

unfoldable pub field : Text → Fields → Option Json
field key end = none
field key (entry k v fs) = if text_eq k key then some v else field key fs

-- `Map::insert`: the value of a key that is there is replaced in its place.
unfoldable pub insert : Text → Json → Fields → Fields
insert key v end = entry key v end
insert key v (entry k w fs) = if text_eq k key then entry k v fs else entry k w (insert key v fs)

-- `Value::get`
abbrev pub get : Text → Json → Option Json
get key (object fs) = field key fs
get key _ = none

abbrev pub as_str : Json → Option Text
as_str (string s) = some s
as_str _ = none

abbrev pub as_i64 : Json → Option ℤ
as_i64 (number z) = some z
as_i64 _ = none

abbrev pub as_array : Json → Option (List Json)
as_array (array vs) = some (items vs)
as_array _ = none

abbrev pub is_object : Json → Bool
is_object (object fs) = true
is_object _ = false

abbrev pub is_null : Json → Bool
is_null null = true
is_null _ = false
