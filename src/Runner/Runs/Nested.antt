-- ===== src/Runner/Runs/Nested.antt =====
-- Which runs a sub-workflow leaves alone (executeWorkflow and executeSubWorkflow of
-- internal/orchestrator/runner/runner.go).
pub mod Call
use ktsu.Runner.Runs.Nested.Call.{execute_workflow-Keeps}
use Prim.Native.String.{String, ◌++◌ as append}
use ktsu.Prelude.{
  ℕ, zero, suc, ◌≤◌, refl, Bool, ◌&&◌, Option, none, some, List, [], ◌∷◌, flatten, arith,
  Bool-cases, inl, inr,
}
use ktsu.Prelude.Map.{Map, insert}
use ktsu.Prelude.Answer.{Answer, got, failed}
use ktsu.Value.{Value}
use ktsu.State.Records.{Step}
use ktsu.State.Status
use ktsu.State.MemStore.{create_run, create_step}
use ktsu.Dag.{Resolution, resolved, cycle_at, out_of_fuel, resolve}
use ktsu.Config.Values.{parse_params_schema}
use ktsu.Runner.Template.{text_length}
use ktsu.Runner.Steps.{PipelineStep, WorkflowConfig, World, Dispatched, Services, no_metrics}
use ktsu.Runner.Execute.{
  now, ticked, error_of, new_step, Kind, webhook, started, is_off, condition_false, Settled,
  complete, skipped, broken, settle, Invocation, SubStep, carry_out, agent_flag, context_of,
  step_by_id, nodes_of,
}
use ktsu.Runner.Root.{new_run, completed}
use ktsu.Runner.Nested.{
  Resolved, SubCall, add_missing, suppresses, resolve_params, missing_param, workflow_input,
  prepare_call, sub_failed, call_sub, execute_workflow, by_missing, call_with, by_resolved,
  by_workflow,
}
use ktsu.Runner.Sub.{
  SubProgress, sub_kind, is_webhook, add_metrics, skip_step, by_settled, by_error, after_run,
  after_create, created, suppressed, suppress_step, sub_step, at_step, and_step, run_sub_ids,
  finish_sub, sub_layers, and_created, sub_invocation, run_sub, nested,
}
use ktsu.Runner.Runs.Carried.{carry_out-Keeps}
use ktsu.Runner.Runs.{
  Keeps, IsOrderly, Keeps-then, Keeps-same, Keeps-stored_run, Keeps-create_run, Keeps-ticked,
  Keeps-stored_step, Keeps-new_step, Keeps-fail_run, text_length-append,
}

-- The step's body; its loop; and the whole of a sub-workflow, whose own workflow steps are left to a hypothesis.
module _ (n : ℕ) (sv : Services) (sub : SubStep) (orderly : IsOrderly sv)
    (h : (step : PipelineStep) (outputs : Map (Map Value)) (inv : Invocation) (w : World)
      → n ≤ suc (text_length inv.run.id)
      → Keeps n w (sub step outputs inv w).1) where
  skip_step-Keeps :
      (step : PipelineStep) (rec : Step) (out : Map Value) (p : SubProgress) (w : World)
      → Keeps n w (skip_step sv step rec out p w).1.world
  skip_step-Keeps step rec out p w = Keeps-then (Keeps-ticked n w) (
      Keeps-stored_step n (record rec { status = Status.skipped; ended_at = some (now sv w) })
        (ticked w))

  by_settled-Keeps :
      (inv : Invocation) (step : PipelineStep) (rec : Step) (x : Settled) (p : SubProgress)
      (w : World)
      → n ≤ text_length inv.run.id
      → Keeps n w (by_settled sv inv step rec x p w).1.world
  by_settled-Keeps inv step rec (broken e) p w le = Keeps-fail_run n sv inv rec e w le
  by_settled-Keeps inv step rec (skipped out) p w le = skip_step-Keeps step rec out p w
  by_settled-Keeps inv step rec (complete out) p w le =
      let done = record rec {
        status = Status.complete;
        output = some out;
        ended_at = some (now sv w);
        reflected = agent_flag step rec.metrics;
      } in
      Keeps-then (Keeps-ticked n w) (Keeps-stored_step n done (ticked w))

  by_error-Keeps :
      (inv : Invocation) (step : PipelineStep) (rec : Step) (x : Option String) (raw : Map Value)
      (p : SubProgress) (w : World)
      → n ≤ text_length inv.run.id
      → Keeps n w (by_error sv inv step rec x raw p w).1.world
  by_error-Keeps inv step rec (some e) raw p w le = Keeps-fail_run n sv inv rec e w le
  by_error-Keeps inv step rec none raw p w le =
      by_settled-Keeps inv step rec (settle step raw) p w le

  after_run-Keeps :
      (inv : Invocation) (step : PipelineStep) (rec : Step) (p : SubProgress)
      (x : Dispatched × World)
      → n ≤ text_length inv.run.id
      → Keeps n x.1 (after_run sv inv step rec p x).1.world
  after_run-Keeps inv step rec p (r, w) le =
      by_error-Keeps inv step (record rec { metrics = r.metrics }) r.error r.output
        (record p { metrics = add_metrics p.metrics r.metrics }) w le

  after_create-Keeps :
      (inv : Invocation) (kind : Kind) (step : PipelineStep) (rec : Step) (p : SubProgress)
      (w : World)
      → n ≤ text_length inv.run.id
      → Keeps n w (after_create sv sub inv kind step rec p w).1.world
  after_create-Keeps inv kind step rec p w le =
      elim (Bool-cases (is_off sv.library step.condition (context_of inv p.outputs))) [
        | inl e ↦ rw e (skip_step-Keeps step rec condition_false p w)
        | inr e ↦
            let x = carry_out sv sub kind step p.outputs inv w in
            rw e (
              Keeps-then
                (carry_out-Keeps n sv sub orderly h kind step p.outputs inv w (omega (arith, le)))
                (after_run-Keeps inv step rec p x le))
      ]

  created-Keeps :
      (what : String) (o : Option String) (step : PipelineStep) (w : World)
      (k : World → Option String × SubProgress) (p : SubProgress)
      → Keeps n w (k w).1.world
      → Keeps n w (created what o step w k p).1.world
  created-Keeps what (some e) step w k p h = Keeps-same n w w refl
  created-Keeps what none step w k p h = h

  suppress_step-Keeps :
      (inv : Invocation) (step : PipelineStep) (p : SubProgress)
      → Keeps n p.world (suppress_step sv inv step p).1.world
  suppress_step-Keeps inv step p =
      let w = ticked p.world in
      let rec : Step = record (started inv.run.id webhook Status.skipped (now sv p.world) step) {
        ended_at = some (now sv w);
      } in
      let v = ticked w in
      Keeps-then (Keeps-ticked n p.world) (
        Keeps-then (Keeps-ticked n w) (
          Keeps-then (Keeps-new_step n rec v) (
            created-Keeps "create skipped webhook step " (error_of (create_step rec v.store).0) step
              (new_step rec v)
              (λ u. (none, record p { world = u; outputs = insert step.id suppressed p.outputs })) p
              (Keeps-same n (new_step rec v) (new_step rec v) refl))))

  sub_step-Keeps :
      (suppress : Bool) (inv : Invocation) (step : PipelineStep) (p : SubProgress)
      → n ≤ text_length inv.run.id
      → Keeps n p.world (sub_step sv sub suppress inv step p).1.world
  unfolding sub_step
  sub_step-Keeps suppress inv step p le =
      elim (Bool-cases (suppress && is_webhook (sub_kind step))) [
        | inl e ↦ rw e (suppress_step-Keeps inv step p)
        | inr e ↦
            let rec = started inv.run.id (sub_kind step) Status.running (now sv p.world) step in
            let w = ticked p.world in
            rw e (
              Keeps-then (Keeps-ticked n p.world) (
                Keeps-then (Keeps-new_step n rec w) (
                  created-Keeps "create step " (error_of (create_step rec w.store).0) step
                    (new_step rec w) (λ v. after_create sv sub inv (sub_kind step) step rec p v) p
                    (after_create-Keeps inv (sub_kind step) step rec p (new_step rec w) le))))
      ]

  at_step-Keeps :
      (suppress : Bool) (inv : Invocation) (o : Option PipelineStep) (p : SubProgress)
      → n ≤ text_length inv.run.id
      → Keeps n p.world (at_step (sub_step sv sub suppress inv) o p).1.world
  at_step-Keeps suppress inv none p le = Keeps-same n p.world p.world refl
  at_step-Keeps suppress inv (some step) p le = sub_step-Keeps suppress inv step p le

  and_step-Keeps :
      (w : World) (x : Option String × SubProgress) (k : SubProgress → Option String × SubProgress)
      → Keeps n w x.1.world
      → ((p : SubProgress) → Keeps n p.world (k p).1.world)
      → Keeps n w (and_step x k).1.world
  and_step-Keeps w (some e, p) k h g = h
  and_step-Keeps w (none, p) k h g = Keeps-then h (g p)

  run_sub_ids-Keeps :
      (suppress : Bool) (inv : Invocation) (steps : List PipelineStep) (ids : List String)
      (p : SubProgress)
      → n ≤ text_length inv.run.id
      → Keeps n p.world (run_sub_ids (sub_step sv sub suppress inv) steps ids p).1.world
  unfolding run_sub_ids
  run_sub_ids-Keeps suppress inv steps [] p le = Keeps-same n p.world p.world refl
  run_sub_ids-Keeps suppress inv steps (id ∷ ids) p le =
      and_step-Keeps p.world (at_step (sub_step sv sub suppress inv) (step_by_id steps id) p)
        (λ q. run_sub_ids (sub_step sv sub suppress inv) steps ids q)
        (at_step-Keeps suppress inv (step_by_id steps id) p le)
        (λ q. run_sub_ids-Keeps suppress inv steps ids q le)

  finish_sub-Keeps :
      (call : SubCall) (inv : Invocation) (w : World) (x : Option String × SubProgress)
      → n ≤ text_length inv.run.id
      → Keeps n w x.1.world
      → Keeps n w (finish_sub sv call inv x).1
  finish_sub-Keeps call inv w (some e, p) le k = k
  finish_sub-Keeps call inv w (none, p) le k = Keeps-then k (
      Keeps-then (Keeps-ticked n p.world)
        (Keeps-stored_run n (completed inv.run (now sv p.world)) (ticked p.world) le))

  sub_layers-Keeps :
      (call : SubCall) (inv : Invocation) (x : Resolution) (w : World)
      → n ≤ text_length inv.run.id
      → Keeps n w (sub_layers sv sub call inv x w).1
  sub_layers-Keeps call inv (cycle_at id) w le = Keeps-same n w w refl
  sub_layers-Keeps call inv out_of_fuel w le = Keeps-same n w w refl
  sub_layers-Keeps call inv (resolved ls) w le =
      let p : SubProgress = record { world = w; outputs = []; metrics = no_metrics; final = [] } in
      finish_sub-Keeps call inv w
        (run_sub_ids (sub_step sv sub call.suppress inv) call.workflow.pipeline (flatten ls) p) le
        (run_sub_ids-Keeps call.suppress inv call.workflow.pipeline (flatten ls) p le)

  and_created-Keeps :
      (o : Option String) (k : World → Dispatched × World) (w : World)
      → Keeps n w (k w).1
      → Keeps n w (and_created o k w).1
  and_created-Keeps (some e) k w h = Keeps-same n w w refl
  and_created-Keeps none k w h = h

  run_sub-Keeps :
      (call : SubCall) (w : World)
      → n ≤ text_length call.run_id
      → Keeps n w (run_sub sv sub call w).1
  unfolding run_sub
  run_sub-Keeps call w le =
      let run = new_run call.run_id call.workflow.name (some call.input) (now sv w) in
      let v = ticked w in
      let u : World = record v { store = (create_run run v.store).1 } in
      Keeps-then (Keeps-ticked n w) (
        Keeps-then (Keeps-create_run n run v le) (
          and_created-Keeps (error_of (create_run run v.store).0)
            (λ t.
              sub_layers sv sub call (sub_invocation run call)
                (resolve (nodes_of call.workflow.pipeline)) t)
            u
            (sub_layers-Keeps call (sub_invocation run call)
              (resolve (nodes_of call.workflow.pipeline)) u le)))

-- A workflow step changes no run but the ones below its own, whatever the depth.
pub nested-Keeps :
    (n depth : ℕ) (sv : Services)
    → IsOrderly sv
    → (step : PipelineStep) (outputs : Map (Map Value)) (inv : Invocation) (w : World)
    → n ≤ suc (text_length inv.run.id)
    → Keeps n w (nested depth sv step outputs inv w).1
unfolding nested
nested-Keeps n zero sv orderly step outputs inv w le = Keeps-same n w w refl
nested-Keeps n (suc depth) sv orderly step outputs inv w le =
    execute_workflow-Keeps n sv (λ call v. run_sub sv (nested depth sv) call v) inv w le
      (λ call more.
        run_sub-Keeps n sv (nested depth sv) orderly
          (λ s o i v. nested-Keeps n depth sv orderly s o i v) call w more)
      step outputs
