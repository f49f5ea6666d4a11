-- ===== src/Output/Examples.antt =====
-- Outputs of steps, and what the checks make of them.
use ktsu.Prelude.{
  String, ◌≡◌, ◌≢◌, refl, true, false, ◌&&◌, Option, none, some, [], ◌∷◌, if◌then◌else◌, ◌↔◌, In,
  here, there,
}
use ktsu.Prelude.Map.{Map, lookup, is_some, filter_keys}
use ktsu.Prelude.Strings.{has_prefix}
use ktsu.Value.{Value, bool, str, float, arr, cons, nil, items, as_string, or_else}
use ktsu.Value.Float.{Float64, from_bits, float_lt, zero_float}
use ktsu.Output.Reserved.{
  reserved_prefix, ReservedFields, clean, refused, low_confidence, untrusted, is_flagged,
  confidence_of, string_of, flags_of, strip_reserved, extracted, process_reserved,
}
use ktsu.Output.Airlock.{
  valid, missing_field, find_reserved, check_required, required_of, validate_input, validate,
}
use ktsu.Output.Clean.{
  lookup-process, validate-process, process-accepts_iff, validate_iff, required_reserved_fails,
}

-- 0.5 and 0.75.
abbrev half : Float64
half = from_bits 4602678819172646912

abbrev three_quarters : Float64
three_quarters = from_bits 4604930618986332160

abbrev draft : Map Value
draft =
    ("category", str "bug")
    ∷ ("ktsu_confidence", float half)
    ∷ ("ktsu_rationale", str "seen before")
    ∷ []

program : Unit {0}
unfolding process_reserved is_flagged confidence_of string_of flags_of strip_reserved lookup
    filter_keys has_prefix float_lt find_reserved check_required required_of validate validate_input
    items
program = tt

abbrev kept : Map Value
kept = ("category", str "bug") ∷ []

process_draft : process_reserved draft half ≡ clean kept (extracted draft) ""
unfolding program
process_draft = refl

process_unsure : process_reserved draft three_quarters ≡ refused low_confidence
unfolding program
process_unsure = refl

process_flagged :
    process_reserved (("ktsu_untrusted_content", bool true) ∷ draft) half ≡ refused untrusted
unfolding program
process_flagged = refl

-- required: [category, ktsu_confidence]
abbrev schema : Option (Map Value)
schema = some (("required", arr (cons (str "category") (cons (str "ktsu_confidence") nil))) ∷ [])

validate-kept : validate kept schema none ≡ missing_field "ktsu_confidence"
unfolding program
validate-kept = refl

lookup-process_example :
    lookup "category" kept
    ≡ (if has_prefix "category" reserved_prefix then none else lookup "category" draft)
lookup-process_example =
    lookup-process draft half kept (extracted draft) "" process_draft "category"

validate-process_example :
    validate kept schema (some (extracted draft)) ≡ validate_input kept schema
validate-process_example =
    validate-process draft half kept (extracted draft) "" schema process_draft

process-accepts_iff_example :
    ((out : Map Value) × (r : ReservedFields) × (s : String) × (process_reserved draft half
        ≡ clean out r s))
    ↔ ((lookup "ktsu_injection_attempt" draft ≢ some (bool true))
        × (lookup "ktsu_untrusted_content" draft ≢ some (bool true))
        × (lookup "ktsu_low_quality" draft ≢ some (bool true))
        × (lookup "ktsu_needs_human" draft ≢ some (bool true))
        × ((float_lt zero_float half && float_lt (confidence_of draft) half) ≡ false))
process-accepts_iff_example = process-accepts_iff draft half

validate_iff_example : (validate kept schema none ≡ valid) ↔ (
    ((k : String) → is_some (lookup k kept) ≡ true → has_prefix k reserved_prefix ≡ false)
    × ((v : Value)
        → In v (required_of schema)
        → is_some (lookup (or_else (as_string v) "") kept) ≡ true))
validate_iff_example = validate_iff kept schema none

confidence_is_reserved : has_prefix "ktsu_confidence" reserved_prefix ≡ true
unfolding program
confidence_is_reserved = refl

confidence_asked : In (str "ktsu_confidence") (required_of schema)
unfolding program lookup
confidence_asked = there (here refl)

required_reserved_fails_example : validate kept schema (some (extracted draft)) ≢ valid
required_reserved_fails_example =
    required_reserved_fails draft half kept (extracted draft) "" "ktsu_confidence" schema
      process_draft confidence_is_reserved confidence_asked
