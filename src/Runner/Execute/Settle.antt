-- ===== src/Runner/Execute/Settle.antt =====
-- Conditions of steps, and what becomes of a raw output (internal/orchestrator/runner/runner.go).
use Prim.Native.String.{String}
use ktsu.Prelude.{
  zero, suc, Bool, true, false, not, Option, none, some, [], ◌∷◌, str_eq, if◌then◌else◌,
}
use ktsu.Prelude.Map.{Map, lookup}
use ktsu.Prelude.Answer.{Answer, got, failed}
use ktsu.Value.{Value, null, bool, float, int, str, strs, arr, obj, as_bool, or_else, or_null}
use ktsu.Value.Float.{is_zero}
use ktsu.Output.Reserved.{reserved_message, Processed, clean, refused, process_reserved}
use ktsu.Output.Airlock.{airlock_message, Verdict, valid, validate}
use ktsu.Runner.Expr.{Library, evaluate, strip_template}
use ktsu.Runner.Steps.{PipelineStep, OutputSpec}

-- isFalsy(v)
unfoldable pub is_falsy : Value → Bool
is_falsy null = true
is_falsy (bool b) = not b
is_falsy (str s) = str_eq s ""
is_falsy (float f) = is_zero f
is_falsy (int zero) = true
is_falsy (int (suc n)) = false
is_falsy (strs ss) = false
is_falsy (arr vs) = false
is_falsy (obj fs) = false

abbrev pub falsy_answer : Answer Value → Bool
falsy_answer (failed e) = true
falsy_answer (got v) = is_falsy v

-- A condition that is there and is an error or false.
unfoldable pub is_off : Library → String → Map Value → Bool
is_off lib condition ctx =
    if str_eq condition ""
    then false
    else falsy_answer (evaluate lib (strip_template condition) ctx)

abbrev pub condition_false : Map Value
condition_false = ("skipped", bool true) ∷ ("reason", str "condition_false") ∷ []

-- What becomes of a raw output: the step is complete with an output, skipped with one, or failed.
pub data Settled : Type 0 where
  complete : Map Value → Settled
  skipped : Map Value → Settled
  broken : String → Settled

abbrev pub by_verdict : Verdict → Map Value → Settled
by_verdict valid out = complete out
by_verdict v out = broken (airlock_message v)

abbrev pub by_processed : Processed → Option (Map Value) → Settled
by_processed (refused e) schema = broken (reserved_message e)
by_processed (clean out reserved reason) schema =
    if str_eq reason "" then by_verdict (validate out schema (some reserved)) out else skipped out

abbrev pub schema_of : Option OutputSpec → Option (Map Value)
schema_of none = none
schema_of (some spec) = spec.schema

unfoldable pub is_skipped : Map Value → Bool
is_skipped raw = or_else (as_bool (or_null (lookup "skipped" raw))) false

unfoldable pub settle : PipelineStep → Map Value → Settled
settle step raw =
    if is_skipped raw
    then skipped raw
    else by_processed (process_reserved raw step.confidence_threshold) (schema_of step.output)
