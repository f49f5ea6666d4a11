-- ===== src/Agent/Policy.antt =====
-- findApprovalRule, checkFatalReservedFields and shouldReflect of internal/runtime/agent/loop.go.
use ktsu.Prelude.{
  String, Bool, true, false, not, ◌||◌, Option, none, some, List, [], ◌∷◌, if◌then◌else◌,
}
use ktsu.Prelude.Map.{Map, lookup, is_some}
use ktsu.Value.{Value, as_bool, as_map, as_float, or_else}
use ktsu.Value.Float.{Float64, float_lt, is_zero, zero_float}
use ktsu.Agent.Records.{ToolApprovalRule}
use ktsu.Agent.Text.{matches_pattern}

unfoldable pub find_approval_rule : String → List ToolApprovalRule → Option ToolApprovalRule
find_approval_rule name [] = none
find_approval_rule name (r ∷ rules) =
    let rest = find_approval_rule name rules in
    if matches_pattern name r.pattern_ then some r else rest

-- The test of one field: what is there and is not the value false is fatal.
abbrev pub fatal_value : Option Value → Bool
fatal_value none = false
fatal_value (some v) = or_else (as_bool v) true

unfoldable pub is_fatal : String → Map Value → Bool
is_fatal key output = fatal_value (lookup key output)

-- The text of the error, `none` for no error.
unfoldable pub check_fatal_reserved_fields : Map Value → Option String
check_fatal_reserved_fields output =
    if is_fatal "ktsu_injection_attempt" output
    then some "injection attempt detected"
    else if is_fatal "ktsu_untrusted_content" output
    then some "untrusted content detected"
    else if is_fatal "ktsu_low_quality" output
    then some "low quality output"
    else if is_fatal "ktsu_needs_human" output
    then some "needs_human_review"
    else none

abbrev unsure : Option Value → Float64 → Bool
unsure none threshold = true
unsure (some v) threshold = elim (as_float v) [ none ↦ true | some f ↦ float_lt f threshold ]

abbrev reflect_props : Option (Map Value) → Map Value → Float64 → Bool
reflect_props none output threshold = true
reflect_props (some props) output threshold =
    if not (is_some (lookup "ktsu_confidence" props))
    then true
    else if float_lt threshold zero_float || is_zero threshold
    then true
    else unsure (lookup "ktsu_confidence" output) threshold

abbrev object_in : Option Value → Option (Map Value)
object_in none = none
object_in (some v) = as_map v

unfoldable pub should_reflect : Map Value → Map Value → Float64 → Bool
should_reflect output schema threshold =
    reflect_props (object_in (lookup "properties" schema)) output threshold
