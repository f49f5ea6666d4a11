-- ===== src/Agent/Drafts.antt =====
-- The check of a draft before its reflection, next to the check of the final output:
-- checkFatalReservedFields of internal/runtime/agent/loop.go and ProcessReservedFields.
use ktsu.Prelude.{String, ◌≡◌, refl, false, Option, none, some, arith}
use ktsu.Prelude.Map.{Map, lookup}
use ktsu.Value.{Value, bool, as_bool, or_else}
use ktsu.Value.Float.{Float64}
use ktsu.Output.Reserved.{ReservedError, low_confidence, refused, is_flagged, process_reserved}
use ktsu.Agent.Policy.{is_fatal, fatal_value, check_fatal_reserved_fields}

flag_value :
    (o : Option Value)
    → fatal_value o ≡ false
    → (elim o [ none ↦ false | some v ↦ or_else (as_bool v) false ]) ≡ false
flag_value none h = refl
flag_value (some (bool b)) h = h
flag_value (some v) h = ground (arith, h)

unflagged : (key : String) (out : Map Value) → is_fatal key out ≡ false → is_flagged key out ≡ false
unfolding is_fatal is_flagged
unflagged key out h = flag_value (lookup key out) h

-- A draft that passes the check before the reflection raises no flag: the check of the output can
-- refuse it only for its confidence.
pub fatal_before_process :
    (out : Map Value) (t : Float64) (e : ReservedError)
    → check_fatal_reserved_fields out ≡ none
    → process_reserved out t ≡ refused e
    → e ≡ low_confidence
unfolding check_fatal_reserved_fields process_reserved
fatal_before_process out t e passed h = ground (
  arith,
  passed,
  h,
  unflagged "ktsu_injection_attempt" out,
  unflagged "ktsu_untrusted_content" out,
  unflagged "ktsu_low_quality" out,
  unflagged "ktsu_needs_human" out,
)
