-- ===== src/Output/Reserved.antt =====
-- ProcessReservedFields of internal/orchestrator/runner/runner.go, with the record ReservedFields of
-- pkg/types/reserved.go.
use ktsu.Prelude.{String, Bool, false, not, ◌&&◌, none, some, List, [], ◌∷◌, if◌then◌else◌}
use ktsu.Prelude.Map.{Map, lookup, filter_keys}
use ktsu.Prelude.Strings.{has_prefix}
use ktsu.Value.{Value, strs, arr, items, as_bool, as_string, as_float, or_else}
use ktsu.Value.Float.{Float64, float_lt, zero_float}

abbrev pub reserved_prefix : String
reserved_prefix = "ktsu_"

pub record ReservedFields : Type 0 where
  pub injection_attempt : Bool
  pub untrusted_content : Bool
  pub confidence : Float64
  pub low_quality : Bool
  pub skip_reason : String
  pub needs_human : Bool
  pub flags : List String
  pub rationale : String

-- The errors, one for each message.
pub data ReservedError : Type 0 where
  injection untrusted low_quality needs_human low_confidence : ReservedError

-- The text of an error of ProcessReservedFields.
abbrev pub reserved_message : ReservedError → String
reserved_message injection = "injection attempt detected"
reserved_message untrusted = "untrusted content detected"
reserved_message low_quality = "low quality output"
reserved_message needs_human = "needs_human_review"
reserved_message low_confidence = "confidence below threshold"

pub data Processed : Type 0 where
  clean : (output : Map Value) (reserved : ReservedFields) (skip_reason : String) → Processed
  refused : ReservedError → Processed

-- if v, ok := raw[key]; ok { if b, ok := v.(bool); ok && b { … } }
unfoldable pub is_flagged : String → Map Value → Bool
is_flagged key raw = elim (lookup key raw) [ none ↦ false | some v ↦ or_else (as_bool v) false ]

-- var confidence float64, overwritten by a value of type float64.
unfoldable pub confidence_of : Map Value → Float64
confidence_of raw = elim (lookup "ktsu_confidence" raw) [
  | none ↦ zero_float
  | some v ↦ or_else (as_float v) zero_float
]

-- The string under a key, or "".
unfoldable pub string_of : String → Map Value → String
string_of key raw = elim (lookup key raw) [ none ↦ "" | some v ↦ or_else (as_string v) "" ]

abbrev pub strings_among : List Value → List String
strings_among [] = []
strings_among (v ∷ vs) =
    let rest = strings_among vs in elim (as_string v) [ none ↦ rest | some s ↦ s ∷ rest ]

abbrev pub flag_list : Value → List String
flag_list (strs flags) = flags
flag_list (arr vs) = strings_among (items vs)
flag_list _ = []

unfoldable pub flags_of : Map Value → List String
flags_of raw = elim (lookup "ktsu_flags" raw) [ none ↦ [] | some v ↦ flag_list v ]

-- The copy of the output without its reserved keys.
unfoldable pub strip_reserved : Map Value → Map Value
strip_reserved raw = filter_keys (λ k. not (has_prefix k reserved_prefix)) raw

abbrev pub extracted : Map Value → ReservedFields
extracted raw = record {
  injection_attempt = false;
  untrusted_content = false;
  confidence = confidence_of raw;
  low_quality = false;
  skip_reason = string_of "ktsu_skip_reason" raw;
  needs_human = false;
  flags = flags_of raw;
  rationale = string_of "ktsu_rationale" raw;
}

-- ProcessReservedFields(rawOutput, threshold)
unfoldable pub process_reserved : Map Value → Float64 → Processed
process_reserved raw threshold =
    if is_flagged "ktsu_injection_attempt" raw
    then refused injection
    else if is_flagged "ktsu_untrusted_content" raw
    then refused untrusted
    else if is_flagged "ktsu_low_quality" raw
    then refused low_quality
    else if is_flagged "ktsu_needs_human" raw
    then refused needs_human
    else if float_lt zero_float threshold && float_lt (confidence_of raw) threshold
    then refused low_confidence
    else clean (strip_reserved raw) (extracted raw) (string_of "ktsu_skip_reason" raw)
