-- ===== src/Runner/Sub.antt =====
-- executeSubWorkflow of internal/orchestrator/runner/runner.go. Workflows name one another without a bound, so the
-- depth of nesting is fuel.
pub mod Body
unfoldable pub use ktsu.Runner.Sub.Body.{sub_step}
pub use ktsu.Runner.Sub.Body.{
  SubProgress, sub_kind, is_webhook, add_metrics, failing, skip_step, update_error, complete_step,
  by_settled, by_error, after_run, after_create, created, suppressed, suppress_step,
}
use Prim.Native.String.{String, ◌++◌ as append}
use ktsu.Prelude.{
  ℕ, zero, suc, ◌+◌, Bool, true, false, not, ◌&&◌, ◌||◌, Option, none, some, List, [], ◌∷◌, flatten,
  str_eq, if◌then◌else◌,
}
use ktsu.Prelude.Map.{Map, insert, is_some}
use ktsu.Prelude.Answer.{Answer, got, failed}
use ktsu.Value.{Value, null, bool}
use ktsu.Value.Float.{float_add}
use ktsu.State.Records.{Run, Step, StepMetrics}
use ktsu.State.Status
use ktsu.State.MemStore.{create_run, update_run, create_step, update_step}
use ktsu.Dag.{Resolution, resolved, cycle_at, out_of_fuel, resolve}
use ktsu.Runner.Expr.{Library, evaluate, strip_template}
use ktsu.Runner.Steps.{PipelineStep, OutputSpec, World, Dispatched, Services, no_metrics, fails}
use ktsu.Runner.Execute.{
  now, ticked, error_of, stored_run, stored_step, new_step, Kind, workflow, agent, transform,
  webhook, started, is_off, condition_false, Settled, complete, skipped, broken, settle, Invocation,
  SubStep, carry_out, fail_run, agent_flag, context_of, step_by_id, nodes_of,
}
use ktsu.Runner.Root.{new_run, completed}
use ktsu.Runner.Nested.{SubCall, execute_workflow}

abbrev pub at_step :
    (PipelineStep → SubProgress → Option String × SubProgress)
    → Option PipelineStep
    → SubProgress
    → Option String × SubProgress
at_step run none p = (none, p)
at_step run (some step) p = run step p

abbrev pub and_step :
    Option String × SubProgress
    → (SubProgress → Option String × SubProgress)
    → Option String × SubProgress
and_step (some e, p) k = (some e, p)
and_step (none, p) k = k p

unfoldable pub run_sub_ids :
    (PipelineStep → SubProgress → Option String × SubProgress)
    → List PipelineStep
    → List String
    → SubProgress
    → Option String × SubProgress
run_sub_ids run steps [] p = (none, p)
run_sub_ids run steps (id ∷ ids) p =
    and_step (at_step run (step_by_id steps id) p) (λ q. run_sub_ids run steps ids q)

abbrev put_mapped : String → Answer Value → Map Value → Map Value
put_mapped k (failed e) mapped = mapped
put_mapped k (got null) mapped = mapped
put_mapped k (got v) mapped = insert k v mapped

-- The loop over output.map: what is an error or nil is left out.
unfoldable pub map_output : Library → Map Value → Map String → Map Value → Map Value
map_output lib ctx [] mapped = mapped
map_output lib ctx ((k, expr) ∷ rest) mapped =
    map_output lib ctx rest (put_mapped k (evaluate lib (strip_template expr) ctx) mapped)

abbrev map_fields : Option OutputSpec → Map String
map_fields none = []
map_fields (some spec) = spec.map_

abbrev or_mapped : Library → Map Value → Map String → Map Value → Map Value
or_mapped lib ctx [] final = final
or_mapped lib ctx (f ∷ fs) final = map_output lib ctx (f ∷ fs) []

unfoldable pub final_output : Services → SubCall → Invocation → SubProgress → Map Value
final_output sv call inv p =
    or_mapped sv.library (context_of inv p.outputs) (map_fields call.workflow.output) p.final

abbrev closed : Option String → Dispatched → Dispatched
closed none r = r
closed (some e) r = fails (append "update sub-run: " e)

abbrev pub finish_sub :
    Services → SubCall → Invocation → Option String × SubProgress → Dispatched × World
finish_sub sv call inv (some e, p) = (fails e, p.world)
finish_sub sv call inv (none, p) =
    let done = completed inv.run (now sv p.world) in
    let w = ticked p.world in
    (
      closed (error_of (update_run done w.store).0)
          (record { output = final_output sv call inv p; metrics = p.metrics; error = none }),
      stored_run done w,
    )

abbrev pub sub_layers :
    Services → SubStep → SubCall → Invocation → Resolution → World → Dispatched × World
sub_layers sv sub call inv (resolved ls) w = finish_sub sv call inv (
    run_sub_ids (sub_step sv sub call.suppress inv) call.workflow.pipeline (flatten ls)
      (record { world = w; outputs = []; metrics = no_metrics; final = [] }))
sub_layers sv sub call inv (cycle_at id) w =
    (fails (append "dag resolve: cycle detected at node \"" (append id "\"")), w)
sub_layers sv sub call inv out_of_fuel w = (fails "dag resolve", w)

abbrev pub and_created : Option String → (World → Dispatched × World) → World → Dispatched × World
and_created (some e) k w = (fails (append "create sub-run: " e), w)
and_created none k w = k w

abbrev pub sub_invocation : Run → SubCall → Invocation
sub_invocation run call = record {
  run = run;
  params = some call.params;
  rich = some call.rich;
  env = none;
  scrub = [];
}

-- executeSubWorkflow for one call, with the workflow steps inside as a parameter.
unfoldable pub run_sub : Services → SubStep → SubCall → World → Dispatched × World
run_sub sv sub call w =
    let run = new_run call.run_id call.workflow.name (some call.input) (now sv w) in
    let v = ticked w in
    and_created (error_of (create_run run v.store).0)
      (λ u.
        sub_layers sv sub call (sub_invocation run call) (resolve (nodes_of call.workflow.pipeline))
          u)
      (record v { store = (create_run run v.store).1 })

-- The workflow steps with so many levels of workflows below them.
unfoldable pub nested : ℕ → Services → SubStep
nested zero sv step outputs inv w = (fails "too deep", w)
nested (suc depth) sv step outputs inv w =
    execute_workflow sv (λ call v. run_sub sv (nested depth sv) call v) step outputs inv w
