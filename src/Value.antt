-- ===== src/Value.antt =====
-- The values of type `interface{}` that the program handles: decoded JSON, and the Go integers and
-- string slices that its own code puts into maps.
pub mod Float
use ktsu.Prelude.{
  ℕ, zero, suc, String, Bool, true, false, Option, none, some, List, [], ◌∷◌, str_eq, if◌then◌else◌,
}
use ktsu.Prelude.Map.{Map}
use ktsu.Value.Float.{Float64}

mutual
  pub data Value : Type 0 where
    null : Value
    bool : Bool → Value
    float : Float64 → Value
    int : ℕ → Value
    str : String → Value
    strs : List String → Value
    arr : Values → Value
    obj : Fields → Value

  pub data Values : Type 0 where
    nil : Values
    cons : Value → Values → Values

  pub data Fields : Type 0 where
    end : Fields
    field : String → Value → Fields → Fields

-- A nested map and list as the map and list of the prelude, and back.
unfoldable pub entries : Fields → Map Value
entries end = []
entries (field k v fs) = (k, v) ∷ entries fs

unfoldable pub fields : Map Value → Fields
fields [] = end
fields ((k, v) ∷ m) = field k v (fields m)

unfoldable pub items : Values → List Value
items nil = []
items (cons v vs) = v ∷ items vs

unfoldable pub values : List Value → Values
values [] = nil
values (v ∷ vs) = cons v (values vs)

-- The type assertions v.(bool), v.(string), v.(float64), v.([]interface{}) and
-- v.(map[string]interface{}); `none` is ok == false.
abbrev pub as_bool : Value → Option Bool
as_bool (bool b) = some b
as_bool _ = none

abbrev pub as_string : Value → Option String
as_string (str s) = some s
as_string _ = none

abbrev pub as_float : Value → Option Float64
as_float (float f) = some f
as_float _ = none

abbrev pub as_slice : Value → Option (List Value)
as_slice (arr vs) = some (items vs)
as_slice _ = none

abbrev pub as_map : Value → Option (Map Value)
as_map (obj fs) = some (entries fs)
as_map _ = none

abbrev pub or_else {ℓ} : {A : Type ℓ} → Option A → A → A
or_else none a = a
or_else (some b) a = b

-- m[k] on a map with values of type interface{}: nil where the key is missing.
abbrev pub or_null : Option Value → Value
or_null none = null
or_null (some v) = v
