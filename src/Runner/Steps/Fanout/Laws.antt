-- ===== src/Runner/Steps/Fanout/Laws.antt =====
-- When a fan-out fails, and what it gives otherwise (executeFanout of
-- internal/orchestrator/runner/runner.go).
use Prim.Native.String.{String}
use ktsu.Prelude.{
  ℕ, zero, suc, ◌≤◌, ◌≡◌, ◌≢◌, refl, ◌↔◌, Option, none, some, List, [], ◌∷◌, arith, length,
  if◌then◌else◌, Option-cases, inl, inr,
}
use ktsu.Prelude.Map.{is_some}
use ktsu.Runner.Expr.{Library}
use ktsu.Runner.Steps.{Dispatched, no_metrics}
use ktsu.Runner.Steps.Fanout.{
  total_of, outputs_of, fail_count, or_later, first_failure, fail_fast, fanout_error, results_map,
  collect,
}

-- The failures that the step bears: as many as it names, or any number.
abbrev pub IsTolerated : Option ℕ → List Dispatched → Type 0
IsTolerated none rs = Unit
IsTolerated (some n) rs = fail_count rs ≤ n

or_later-none :
    (o : Option String) (i n : ℕ) (later : Option (ℕ × String))
    → (later ≡ none) ↔ (n ≡ 0)
    → (or_later o i later ≡ none) ↔ ((if is_some o then suc n else n) ≡ 0)
or_later-none none i n later rest = rest
or_later-none (some e) i n later rest = (λ h. absurd cc, λ h. absurd (omega (arith, h)))

fail_fast-none :
    (lib : Library) (first : Option (ℕ × String)) (rs : List Dispatched)
    → (fail_fast lib first rs ≡ none) ↔ (first ≡ none)
fail_fast-none lib none rs = (λ h. refl, λ h. refl)
fail_fast-none lib (some f) rs = (λ h. absurd cc, λ h. absurd cc)

first_failure-none :
    (i : ℕ) (rs : List Dispatched) → (first_failure i rs ≡ none) ↔ (fail_count rs ≡ 0)
unfolding first_failure fail_count
first_failure-none i [] = (λ h. refl, λ h. refl)
first_failure-none i (r ∷ rs) =
    or_later-none r.error i (fail_count rs) (first_failure (suc i) rs)
      (first_failure-none (suc i) rs)

fanout_error-none :
    (lib : Library) (most : Option ℕ) (rs : List Dispatched)
    → (fanout_error lib most rs ≡ none) ↔ IsTolerated most rs
unfolding fanout_error
fanout_error-none lib none rs = (λ h. tt, λ h. refl)
fanout_error-none lib (some zero) rs =
    let (shown, hidden) = fail_fast-none lib (first_failure 0 rs) rs in
    let (zero_, back) = first_failure-none 0 rs in
    (λ h. omega (arith, zero_ (shown h)), λ h. hidden (back (omega (arith, h))))
fanout_error-none lib (some (suc n)) rs = ground arith

length-outputs_of : (i : ℕ) (rs : List Dispatched) → length (outputs_of i rs) ≡ length rs
unfolding outputs_of
length-outputs_of i [] = refl
length-outputs_of i (r ∷ rs) = omega (arith, length-outputs_of (suc i) rs)

-- A fan-out fails exactly if more of its items failed than it bears: none for 0, any number for a
-- negative number. Without a failure its output is the list of its results, one for each item; with
-- one it has no output. Its metrics are the totals either way.
pub collect_lem :
    (lib : Library) (most : Option ℕ) (rs : List Dispatched)
    → let x = collect lib most rs in
      ((x.error ≡ none) ↔ IsTolerated most rs)
      × (x.error ≡ none
          → (x.output ≡ results_map (outputs_of 0 rs)) × (length (outputs_of 0 rs) ≡ length rs))
      × (x.error ≢ none → x.output ≡ [])
      × (x.metrics ≡ total_of rs no_metrics)
unfolding collect
collect_lem lib most rs = elim (Option-cases (fanout_error lib most rs)) [
  | inl e ↦
      rw (e, collect)
        (
          (λ h. (fanout_error-none lib most rs).0 e, λ h. refl),
          λ h. (refl, length-outputs_of 0 rs),
          λ h. absurd (h refl),
          refl,
        )
  | inr (m, e) ↦
      rw (e, collect)
        (
          (λ h. absurd cc, λ h. absurd (let k = (fanout_error-none lib most rs).1 h in cc)),
          λ h. absurd cc,
          λ h. refl,
          refl,
        )
]
