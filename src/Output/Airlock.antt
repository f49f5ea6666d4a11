-- ===== src/Output/Airlock.antt =====
-- internal/orchestrator/airlock/airlock.go
use Prim.Native.String.{◌++◌ as append}
use ktsu.Prelude.{String, Option, none, some, List, [], ◌∷◌, if◌then◌else◌}
use ktsu.Prelude.Map.{Map, lookup, is_some}
use ktsu.Prelude.Strings.{has_prefix}
use ktsu.Value.{Value, as_string, as_slice, or_else, or_null}
use ktsu.Output.Reserved.{ReservedFields, reserved_prefix}

pub data Verdict : Type 0 where
  valid : Verdict
  missing_field : String → Verdict
  reserved_field : String → Verdict

-- The text of an error of the air-lock, for a field without characters that %q escapes.
abbrev pub airlock_message : Verdict → String
airlock_message valid = ""
airlock_message (missing_field k) = append "output missing required field \"" (append k "\"")
airlock_message (reserved_field k) = append "output contains reserved field \"" (append k "\"")

-- for key := range output { if strings.HasPrefix(key, ReservedPrefix) { … } }
unfoldable pub find_reserved : Map Value → Option String
find_reserved [] = none
find_reserved ((k, v) ∷ output) =
    let rest = find_reserved output in if has_prefix k reserved_prefix then some k else rest

-- for _, r := range required { field, _ := r.(string); … }: what is no string stands for "".
unfoldable pub check_required : Map Value → List Value → Verdict
check_required output [] = valid
check_required output (r ∷ required) =
    let rest = check_required output required in
    let name = or_else (as_string r) "" in
    if is_some (lookup name output) then rest else missing_field name

-- `if required, ok := schema["required"].([]interface{}); ok`, where a nil schema is `none`.
unfoldable pub required_of : Option (Map Value) → List Value
required_of none = []
required_of (some schema) = or_else (as_slice (or_null (lookup "required" schema))) []

-- ValidateInput(input, schema). It shares the verdict of Validate; the text of its error reads "input missing
-- required field" in place of "output missing required field", and no text of it is modelled.
unfoldable pub validate_input : Map Value → Option (Map Value) → Verdict
validate_input input schema = check_required input (required_of schema)

-- Validate(output, schema, reserved); the last argument is not read.
unfoldable pub validate : Map Value → Option (Map Value) → Option ReservedFields → Verdict
validate output schema reserved = elim (find_reserved output) [
  | none ↦ check_required output (required_of schema)
  | some k ↦ reserved_field k
]
