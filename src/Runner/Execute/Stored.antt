-- ===== src/Runner/Execute/Stored.antt =====
-- The calls of the store with their errors, the clock, and the record of a step
-- (internal/orchestrator/runner/runner.go).
use Prim.Native.String.{String}
use ktsu.Prelude.{ℕ, ◌+◌, Option, none, some}
use ktsu.State.Records.{absent, Run, Step}
use ktsu.State.MemStore.{
  Result, ok, err, StoreError, run_not_found, run_already_exists, step_not_found,
  step_already_exists, approval_not_found, approval_already_exists, update_run, create_step,
  update_step,
}
use ktsu.Runner.Steps.{PipelineStep, World, Services, no_metrics}

abbrev pub store_message : StoreError → String
store_message run_not_found = "run not found"
store_message run_already_exists = "run already exists"
store_message step_not_found = "step not found"
store_message step_already_exists = "step already exists"
store_message approval_not_found = "approval not found"
store_message approval_already_exists = "approval already exists"

-- time.Now()
abbrev pub now : Services → World → ℕ
now sv w = sv.clock w.readings

abbrev pub ticked : World → World
ticked w = record w { readings = w.readings + 1 }

-- The calls of the store, with their error.
abbrev pub error_of : Result (Unit {0}) → Option String
error_of (ok u) = none
error_of (err e) = some (store_message e)

abbrev pub stored_run : Run → World → World
stored_run run w = record w { store = (update_run run w.store).1 }

abbrev pub stored_step : Step → World → World
stored_step rec w = record w { store = (update_step rec w.store).1 }

abbrev pub new_step : Step → World → World
new_step rec w = record w { store = (create_step rec w.store).1 }

pub data Kind : Type 0 where
  workflow agent transform webhook : Kind

abbrev pub kind_text : Kind → String
kind_text workflow = "workflow"
kind_text agent = "agent"
kind_text transform = "transform"
kind_text webhook = "webhook"

abbrev pub started : String → Kind → String → ℕ → PipelineStep → Step
started run_id kind status at step = record {
  id = step.id;
  run_id = run_id;
  name = step.id;
  kind = kind_text kind;
  status = status;
  started_at = some at;
  ended_at = none;
  error = "";
  output = none;
  metrics = no_metrics;
  reflected = none;
  messages = absent;
}
