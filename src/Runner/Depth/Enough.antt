-- ===== src/Runner/Depth/Enough.antt =====
-- The depth of nesting that a workflow needs (executeWorkflow and executeSubWorkflow of
-- internal/orchestrator/runner/runner.go).
use Prim.Native.String.{String, ◌++◌ as append}
use ktsu.Prelude.{ℕ, zero, suc, ◌<◌, ◌≡◌, refl, ap, Option, none, some, [], arith}
use ktsu.Prelude.Map.{Map}
use ktsu.Prelude.Answer.{Answer, got, failed}
use ktsu.Value.{Value}
use ktsu.Config.Values.{parse_params_schema}
use ktsu.Runner.Steps.{PipelineStep, WorkflowConfig, World, Dispatched, Services}
use ktsu.Runner.Execute.{Invocation, context_of}
use ktsu.Runner.Nested.{
  Resolved, SubCall, add_missing, suppresses, resolve_params, missing_param, workflow_input,
  prepare_call, sub_failed, call_sub, execute_workflow, by_missing, call_with, by_resolved,
  by_workflow,
}
use ktsu.Runner.Sub.{run_sub, nested}
use ktsu.Runner.Depth.{IsRanked, run_sub_same}

module _ (sv : Services) (run other : SubCall → World → Dispatched × World) (inv : Invocation)
    (w : World) (step : PipelineStep)
    (h : (call : SubCall)
      → sv.load_workflow step.workflow ≡ got call.workflow
      → run call w ≡ other call w) where
  call_with_same :
      (wf : WorkflowConfig)
      → sv.load_workflow step.workflow ≡ got wf
      → (r : Resolved) (x : Answer (Map Value))
      → call_sub run step (call_with inv step wf r x) w
        ≡ call_sub other step (call_with inv step wf r x) w
  call_with_same wf e r (failed m) = refl
  call_with_same wf e r (got input) =
      let call : SubCall = record {
        workflow = wf;
        run_id = append inv.run.id (append "/" step.id);
        input = input;
        params = r.params;
        rich = add_missing input r.rich;
        suppress = suppresses wf step;
      } in
      ap (λ x. sub_failed step x) (h call e)

  by_missing_same :
      (o : Option String) (c : Answer SubCall)
      → call_sub run step c w ≡ call_sub other step c w
      → call_sub run step (by_missing o step c) w ≡ call_sub other step (by_missing o step c) w
  by_missing_same none c k = k
  by_missing_same (some name) c k = refl

  by_resolved_same :
      (ctx : Map Value) (wf : WorkflowConfig)
      → sv.load_workflow step.workflow ≡ got wf
      → (x : Answer Resolved)
      → call_sub run step (by_resolved sv inv ctx step wf x) w
        ≡ call_sub other step (by_resolved sv inv ctx step wf x) w
  by_resolved_same ctx wf e (failed m) = refl
  by_resolved_same ctx wf e (got r) =
      let input = workflow_input sv.library ctx step step.workflow_input [] in
      by_missing_same (missing_param (parse_params_schema wf.params_schema) r.params)
        (call_with inv step wf r input) (call_with_same wf e r input)

  by_workflow_same :
      (outputs : Map (Map Value)) (x : Answer WorkflowConfig)
      → sv.load_workflow step.workflow ≡ x
      → call_sub run step (by_workflow sv inv outputs step x) w
        ≡ call_sub other step (by_workflow sv inv outputs step x) w
  by_workflow_same outputs (failed m) e = refl
  by_workflow_same outputs (got wf) e = by_resolved_same (context_of inv outputs) wf e (
      resolve_params sv inv (context_of inv outputs) step step.params
        (record { params = []; rich = [] }))

  execute_workflow_same :
      (outputs : Map (Map Value))
      → execute_workflow sv run step outputs inv w ≡ execute_workflow sv other step outputs inv w
  unfolding execute_workflow prepare_call
  execute_workflow_same outputs = by_workflow_same outputs (sv.load_workflow step.workflow) refl

-- If every workflow names only workflows of a lower rank, a step that names a workflow has the same
-- result with every bound on the nesting above its rank.
pub nested_enough :
    (sv : Services) (rank : String → ℕ)
    → IsRanked sv rank
    → (d e : ℕ) (step : PipelineStep) (outputs : Map (Map Value)) (inv : Invocation) (w : World)
    → rank step.workflow < d
    → rank step.workflow < e
    → nested d sv step outputs inv w ≡ nested e sv step outputs inv w
unfolding nested
nested_enough sv rank ranked zero e step outputs inv w low high = absurd (omega (arith, low))
nested_enough sv rank ranked (suc d) zero step outputs inv w low high = absurd (omega (arith, high))
nested_enough sv rank ranked (suc d) (suc e) step outputs inv w low high =
    execute_workflow_same sv (λ call v. run_sub sv (nested d sv) call v)
      (λ call v. run_sub sv (nested e sv) call v) inv w step
      (λ call loaded. run_sub_same sv (nested d sv) (nested e sv) call w record {
        same = λ s o i v member named.
            let below = ranked.lower step.workflow call.workflow s loaded member named in
            nested_enough sv rank ranked d e s o i v (omega (arith, low, below))
              (omega (arith, high, below));
      })
      outputs
