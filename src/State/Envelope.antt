-- ===== src/State/Envelope.antt =====
-- GetEnvelope of internal/orchestrator/state/mem_store.go, with the records of
-- pkg/types/envelope.go.
pub mod Totals
use ktsu.Prelude.{
  ℕ, ◌+◌, ◌-◌, ◌/◌, String, Bool, true, false, ◌||◌, Option, none, some, List, [], ◌∷◌, ◌++◌,
  str_eq, if◌then◌else◌,
}
use ktsu.Prelude.Map.{Map, lookup}
use ktsu.Value.{Value}
use ktsu.Value.Float.{float_add, zero_float}
use ktsu.State.Records.{StepMetrics, RunTotals, Run, Step}
use ktsu.State.Status
use ktsu.State.MemStore.{MemStore, Result, ok, err, run_not_found, or_empty, steps_of, Range}

-- A StepEntry, with the fields of its StepOutput.
pub record StepEntry : Type 0 where
  pub id : String
  pub output : Map Value
  pub metrics : StepMetrics
  pub timestamp : Option ℕ
  pub status : String
  pub error : String

pub record Envelope : Type 0 where
  pub run_id : String
  pub workflow : String
  pub status : String
  pub error : String
  pub payload : Option (Map Value)
  pub steps : List StepEntry
  pub totals : RunTotals

abbrev pub no_totals : RunTotals
no_totals = record {
  duration_ms = 0;
  tokens_in = 0;
  tokens_out = 0;
  cost_usd = zero_float;
  llm_calls = 0;
  tool_calls = 0;
}

-- The test that passes a step over; a step that waits for an approval is reported.
unfoldable pub is_unfinished : Step → Bool
is_unfinished step = str_eq step.status Status.running || str_eq step.status Status.pending

-- The metrics with the duration between the two times, where both are there. Both are readings of
-- one monotonic clock, the start first, so the difference is no less than 0.
abbrev pub timed_metrics : Option ℕ → Option ℕ → StepMetrics → StepMetrics
timed_metrics none ended metrics = metrics
timed_metrics (some s) none metrics = metrics
timed_metrics (some s) (some e) metrics = record metrics { duration_ms = (e - s) / 1000000 }

unfoldable pub entry_of : Step → StepEntry
entry_of step = record {
  id = step.id;
  output = or_empty step.output;
  metrics = timed_metrics step.started_at step.ended_at step.metrics;
  timestamp = step.ended_at;
  status = step.status;
  error = step.error;
}

-- env.Totals.X += metrics.X
unfoldable pub add_totals : RunTotals → StepMetrics → RunTotals
add_totals t metrics = record {
  duration_ms = t.duration_ms + metrics.duration_ms;
  tokens_in = t.tokens_in + metrics.tokens_in;
  tokens_out = t.tokens_out + metrics.tokens_out;
  cost_usd = float_add t.cost_usd metrics.cost_usd;
  llm_calls = t.llm_calls + metrics.llm_calls;
  tool_calls = t.tool_calls + metrics.tool_calls;
}

-- The body of the loop, on the entries and totals so far.
unfoldable pub add_step : Step → Envelope → Envelope
add_step step env = if is_unfinished step then env else record env {
  steps = env.steps ++ entry_of step ∷ [];
  totals = add_totals env.totals (entry_of step).metrics;
}

unfoldable pub add_steps : List Step → Envelope → Envelope
add_steps [] env = env
add_steps (step ∷ steps) env = add_steps steps (add_step step env)

abbrev pub empty_envelope : String → Run → Envelope
empty_envelope run_id run = record {
  run_id = run_id;
  workflow = run.workflow_name;
  status = run.status;
  error = run.error;
  payload = run.payload;
  steps = [];
  totals = no_totals;
}

-- GetEnvelope(runID), with the order in which its loop visits the steps.
unfoldable pub get_envelope : {R : Type 0} → Range Step → String → MemStore R → Result Envelope
get_envelope range run_id m = elim (lookup run_id m.runs) [
  | none ↦ err run_not_found
  | some run ↦ ok (add_steps (range (steps_of run_id m)) (empty_envelope run_id run))
]
