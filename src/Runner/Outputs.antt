-- ===== src/Runner/Outputs.antt =====
-- What the steps of a workflow hand on as outputs (internal/orchestrator/runner/runner.go).
use ktsu.Prelude.{
  String, ◌≡◌, ◌≢◌, refl, sym, ap, ◌∙◌, true, false, ◌&&◌, ◌↔◌, Option, some, arith, str_eq, eq_iff,
  Bool-cases, inl, inr, In,
}
use ktsu.Prelude.Map.{Map, lookup, is_some}
use ktsu.Prelude.Strings.{has_prefix}
use ktsu.Value.{Value, bool, as_string, or_else}
use ktsu.Value.Float.{Float64, float_lt, zero_float}
use ktsu.Output.Reserved.{
  reserved_prefix, ReservedFields, Processed, clean, refused, confidence_of, string_of,
  process_reserved,
}
use ktsu.Output.Airlock.{Verdict, valid, missing_field, reserved_field, required_of, validate}
use ktsu.Output.Clean.{process-accepts_iff, process-clean, lookup-process, validate_iff}
use ktsu.Runner.Steps.{PipelineStep}
use ktsu.Runner.Execute.{complete, skipped, by_verdict, by_processed, schema_of, is_skipped, settle}

-- None of the four flags is raised, and the confidence reaches the threshold.
pub record IsTrusted (raw : Map Value) (t : Float64) : Type 0 where
  pub injection : lookup "ktsu_injection_attempt" raw ≢ some (bool true)
  pub untrusted : lookup "ktsu_untrusted_content" raw ≢ some (bool true)
  pub low_quality : lookup "ktsu_low_quality" raw ≢ some (bool true)
  pub needs_human : lookup "ktsu_needs_human" raw ≢ some (bool true)
  pub confidence : (float_lt zero_float t && float_lt (confidence_of raw) t) ≡ false

-- The name that an entry of `required` asks for.
abbrev pub asked : Value → String
asked v = or_else (as_string v) ""

by_verdict-complete :
    (v : Verdict) (o out : Map Value) → by_verdict v o ≡ complete out → (v ≡ valid) × (o ≡ out)
by_verdict-complete valid o out h = (refl, cc)
by_verdict-complete (missing_field k) o out h = absurd cc
by_verdict-complete (reserved_field k) o out h = absurd cc

by_processed-complete :
    (x : Processed) (schema : Option (Map Value)) (out : Map Value)
    → by_processed x schema ≡ complete out
    → (r : ReservedFields) × (x ≡ clean out r "") × (validate out schema (some r) ≡ valid)
by_processed-complete (refused e) schema out h = absurd cc
by_processed-complete (clean o r reason) schema out h = elim (Bool-cases (str_eq reason "")) [
  | inl e ↦
      let k : by_verdict (validate o schema (some r)) o ≡ complete out = rw e at h in
      let (ok, same) = by_verdict-complete (validate o schema (some r)) o out k in
      (r, rw (same, (eq_iff reason "").0 e) refl, rw (sym same) ok)
  | inr e ↦ let k : skipped o ≡ complete out = rw e at h in absurd cc
]

module _ (raw : Map Value) (t : Float64) (out : Map Value) (r : ReservedFields) (reason : String)
    (h : process_reserved raw t ≡ clean out r reason) where
  field_kept :
      (k : String)
      → is_some (lookup k out) ≡ true
      → (has_prefix k reserved_prefix ≡ false) × (is_some (lookup k raw) ≡ true)
  field_kept k e = ground (arith, lookup-process raw t out r reason h k)

  kept_field :
      (k : String)
      → has_prefix k reserved_prefix ≡ false
      → is_some (lookup k raw) ≡ true
      → is_some (lookup k out) ≡ true
  kept_field k plain e = ground (arith, lookup-process raw t out r reason h k)

  clean-IsTrusted : IsTrusted raw t
  clean-IsTrusted =
      let (a, b, c, d, e) = (process-accepts_iff raw t).0 (out, r, reason, h) in
      record { injection = a; untrusted = b; low_quality = c; needs_human = d; confidence = e }

  clean_valid :
      (schema : Option (Map Value))
      → ((v : Value)
          → In v (required_of schema)
          → (has_prefix (asked v) reserved_prefix ≡ false)
            × (is_some (lookup (asked v) raw) ≡ true))
      → validate out schema (some r) ≡ valid
  clean_valid schema met =
      (validate_iff out schema (some r)).1
        (λ k e. (field_kept k e).0, λ v m. kept_field (asked v) (met v m).0 (met v m).1)

settle-unskipped :
    (step : PipelineStep) (raw out : Map Value)
    → settle step raw ≡ complete out
    → (is_skipped raw ≡ false)
      × (by_processed (process_reserved raw step.confidence_threshold) (schema_of step.output)
          ≡ complete out)
unfolding settle
settle-unskipped step raw out h = elim (Bool-cases (is_skipped raw)) [
  | inl e ↦ let k : skipped raw ≡ complete out = rw e at h in absurd cc
  | inr e ↦ (e, rw e at h)
]

-- A raw output makes a step complete exactly if it does not say `skipped`, raises no flag, has the
-- confidence asked for, gives no reason for a skip, and has every required field, none of which may be
-- a reserved one.
pub settle_completes_iff :
    (step : PipelineStep) (raw : Map Value)
    → ((out : Map Value) × (settle step raw ≡ complete out)) ↔ (
        (is_skipped raw ≡ false)
        × IsTrusted raw step.confidence_threshold
        × (string_of "ktsu_skip_reason" raw ≡ "")
        × ((v : Value)
            → In v (required_of (schema_of step.output))
            → (has_prefix (asked v) reserved_prefix ≡ false)
              × (is_some (lookup (asked v) raw) ≡ true)))
unfolding settle
settle_completes_iff step raw = (
  λ (out, h).
      let t = step.confidence_threshold in
      let schema = schema_of step.output in
      let (shown, k) = settle-unskipped step raw out h in
      let (r, e, ok) = by_processed-complete (process_reserved raw t) schema out k in
      (
        shown,
        clean-IsTrusted raw t out r "" e,
        sym (process-clean raw t e).2,
        λ v m.
            field_kept raw t out r "" e (asked v) (((validate_iff out schema (some r)).0 ok).1 v m),
      ),
  λ (shown, trusted, unreasoned, met).
      let t = step.confidence_threshold in
      let schema = schema_of step.output in
      let (out, r, reason, e) = (process-accepts_iff raw t).1 (
        trusted.injection, trusted.untrusted, trusted.low_quality, trusted.needs_human,
        trusted.confidence,
      ) in
      let plain : reason ≡ "" = (process-clean raw t e).2 ∙ unreasoned in
      (
        out,
        rw (shown, e, plain)
            (ap (λ v. by_verdict v out) (clean_valid raw t out r reason e schema met)),
      ),
)
