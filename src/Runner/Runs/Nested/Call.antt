-- ===== src/Runner/Runs/Nested/Call.antt =====
-- How a workflow step calls its workflow (executeWorkflow of internal/orchestrator/runner/runner.go).
use Prim.Native.String.{String, ◌++◌ as append}
use ktsu.Prelude.{ℕ, suc, ◌≤◌, refl, Option, none, some, [], arith}
use ktsu.Prelude.Map.{Map}
use ktsu.Prelude.Answer.{Answer, got, failed}
use ktsu.Value.{Value}
use ktsu.Config.Values.{parse_params_schema}
use ktsu.Runner.Template.{text_length}
use ktsu.Runner.Steps.{PipelineStep, WorkflowConfig, World, Dispatched, Services}
use ktsu.Runner.Execute.{Invocation, context_of}
use ktsu.Runner.Nested.{
  Resolved, SubCall, add_missing, suppresses, resolve_params, missing_param, workflow_input,
  prepare_call, sub_failed, call_sub, execute_workflow, by_missing, call_with, by_resolved,
  by_workflow,
}
use ktsu.Runner.Runs.{Keeps, Keeps-same, text_length-append}

slash_longer :
    (n : ℕ) (s t : String) → n ≤ suc (text_length s) → n ≤ text_length (append s (append "/" t))
slash_longer n s t le = omega (arith, text_length-append s (append "/" t), text_length-append "/" t)

module _ (n : ℕ) (sv : Services) (run : SubCall → World → Dispatched × World) (inv : Invocation)
    (w : World) (le : n ≤ suc (text_length inv.run.id))
    (h : (call : SubCall) → n ≤ text_length call.run_id → Keeps n w (run call w).1)
    (step : PipelineStep) where
  sub_failed-Keeps : (x : Dispatched × World) → Keeps n w x.1 → Keeps n w (sub_failed step x).1
  sub_failed-Keeps (r, v) k = k

  call_with-Keeps :
      (wf : WorkflowConfig) (r : Resolved) (x : Answer (Map Value))
      → Keeps n w (call_sub run step (call_with inv step wf r x) w).1
  call_with-Keeps wf r (failed e) = Keeps-same n w w refl
  call_with-Keeps wf r (got input) =
      let call : SubCall = record {
        workflow = wf;
        run_id = append inv.run.id (append "/" step.id);
        input = input;
        params = r.params;
        rich = add_missing input r.rich;
        suppress = suppresses wf step;
      } in
      sub_failed-Keeps (run call w) (h call (slash_longer n inv.run.id step.id le))

  by_missing-Keeps :
      (o : Option String) (c : Answer SubCall)
      → Keeps n w (call_sub run step c w).1
      → Keeps n w (call_sub run step (by_missing o step c) w).1
  by_missing-Keeps none c k = k
  by_missing-Keeps (some name) c k = Keeps-same n w w refl

  by_resolved-Keeps :
      (ctx : Map Value) (wf : WorkflowConfig) (x : Answer Resolved)
      → Keeps n w (call_sub run step (by_resolved sv inv ctx step wf x) w).1
  by_resolved-Keeps ctx wf (failed e) = Keeps-same n w w refl
  by_resolved-Keeps ctx wf (got r) =
      let input = workflow_input sv.library ctx step step.workflow_input [] in
      by_missing-Keeps (missing_param (parse_params_schema wf.params_schema) r.params)
        (call_with inv step wf r input) (call_with-Keeps wf r input)

  by_workflow-Keeps :
      (outputs : Map (Map Value)) (x : Answer WorkflowConfig)
      → Keeps n w (call_sub run step (by_workflow sv inv outputs step x) w).1
  by_workflow-Keeps outputs (failed e) = Keeps-same n w w refl
  by_workflow-Keeps outputs (got wf) = by_resolved-Keeps (context_of inv outputs) wf (
      resolve_params sv inv (context_of inv outputs) step step.params
        (record { params = []; rich = [] }))

  pub execute_workflow-Keeps :
      (outputs : Map (Map Value)) → Keeps n w (execute_workflow sv run step outputs inv w).1
  unfolding execute_workflow prepare_call
  execute_workflow-Keeps outputs = by_workflow-Keeps outputs (sv.load_workflow step.workflow)
