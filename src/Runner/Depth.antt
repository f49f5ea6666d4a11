-- ===== src/Runner/Depth.antt =====
-- How two ways to run the steps of a sub-workflow compare (executeSubWorkflow of
-- internal/orchestrator/runner/runner.go).
pub mod Enough
pub mod Root
use Prim.Native.String.{String}
use ktsu.Prelude.{
  ℕ, zero, suc, ◌<◌, ◌≡◌, refl, sym, ap, subst, ◌∙◌, Bool, true, false, not, ◌&&◌, Option, none,
  some, List, [], ◌∷◌, flatten, arith, str_eq, if◌then◌else◌, Bool-cases, Option-cases, inl, inr,
  In, here, there,
}
use ktsu.Prelude.Map.{Map, insert, is_some}
use ktsu.Prelude.Answer.{Answer, got, failed}
use ktsu.Value.{Value}
use ktsu.State.Records.{Run, Step}
use ktsu.State.Status
use ktsu.State.MemStore.{Result, create_run, update_run, create_step, update_step}
use ktsu.Dag.{Resolution, resolved, cycle_at, out_of_fuel, resolve}
use ktsu.Config.Values.{parse_params_schema}
use ktsu.Runner.Steps.{PipelineStep, WorkflowConfig, World, Dispatched, Services, no_metrics}
use ktsu.Runner.Execute.{
  now, ticked, error_of, new_step, Kind, workflow, agent, transform, webhook, started, is_off,
  Invocation, SubStep, carry_out, context_of, step_by_id, later, nodes_of,
}
use ktsu.Runner.Root.{new_run}
use ktsu.Runner.Nested.{
  Resolved, SubCall, add_missing, suppresses, resolve_params, missing_param, workflow_input,
  prepare_call, sub_failed, call_sub, execute_workflow, by_missing, call_with, by_resolved,
  by_workflow,
}
use ktsu.Runner.Sub.{
  SubProgress, sub_kind, is_webhook, after_run, after_create, created, sub_step, at_step, and_step,
  run_sub_ids, finish_sub, sub_layers, and_created, sub_invocation, run_sub, nested,
}

-- Each workflow names workflows of a lower rank only.
pub record IsRanked (sv : Services) (rank : String → ℕ) : Type 0 where
  pub lower :
      (name : String) (wf : WorkflowConfig) (s : PipelineStep)
      → sv.load_workflow name ≡ got wf
      → In s wf.pipeline
      → str_eq s.workflow "" ≡ false
      → rank s.workflow < rank name

pub step_by_id-In :
    (steps : List PipelineStep) (id : String) (s : PipelineStep)
    → step_by_id steps id ≡ some s
    → In s steps
step_by_id-In [] id s e = absurd cc
step_by_id-In (t ∷ steps) id s e = elim (Option-cases (step_by_id steps id)) [
  | inl absent ↦
      let h : (if str_eq t.id id then some t else none) ≡ some s =
        sym (ap (λ o. later o t id) absent) ∙ e in
      here (ground (arith, h))
  | inr (found, at_) ↦
      let h : some found ≡ some s = sym (ap (λ o. later o t id) at_) ∙ e in
      let same : found ≡ s = cc in there (step_by_id-In steps id s (at_ ∙ h))
]

sub_kind-workflow :
    (step : PipelineStep) → sub_kind step ≡ workflow → str_eq step.workflow "" ≡ false
sub_kind-workflow step e = ground (arith, e)

-- Two ways to run the workflow steps of a workflow, with the same results.
pub record Agrees (steps : List PipelineStep) (sub other : SubStep) : Type 0 where
  pub same :
      (step : PipelineStep) (outputs : Map (Map Value)) (inv : Invocation) (w : World)
      → In step steps
      → str_eq step.workflow "" ≡ false
      → sub step outputs inv w ≡ other step outputs inv w

module _ (sv : Services) (sub other : SubStep) where
  pub carry_out_same :
      (kind : Kind) (step : PipelineStep) (outputs : Map (Map Value)) (inv : Invocation) (w : World)
      → (kind ≡ workflow → sub step outputs inv w ≡ other step outputs inv w)
      → carry_out sv sub kind step outputs inv w ≡ carry_out sv other kind step outputs inv w
  unfolding carry_out
  carry_out_same workflow step outputs inv w h = h refl
  carry_out_same agent step outputs inv w h = refl
  carry_out_same transform step outputs inv w h = refl
  carry_out_same webhook step outputs inv w h = refl

  after_create_same :
      (inv : Invocation) (kind : Kind) (step : PipelineStep) (rec : Step) (p : SubProgress)
      (w : World)
      → (kind ≡ workflow → sub step p.outputs inv w ≡ other step p.outputs inv w)
      → after_create sv sub inv kind step rec p w ≡ after_create sv other inv kind step rec p w
  after_create_same inv kind step rec p w h =
      elim (Bool-cases (is_off sv.library step.condition (context_of inv p.outputs))) [
        | inl e ↦ rw e refl
        | inr e ↦
            rw e
              (ap (λ x. after_run sv inv step rec p x) (carry_out_same kind step p.outputs inv w h))
      ]

  created_same :
      (what : String) (o : Option String) (step : PipelineStep) (w : World)
      (k l : World → Option String × SubProgress) (p : SubProgress)
      → k w ≡ l w
      → created what o step w k p ≡ created what o step w l p
  created_same what (some e) step w k l p h = refl
  created_same what none step w k l p h = h

  sub_step_same :
      (suppress : Bool) (inv : Invocation) (step : PipelineStep) (p : SubProgress)
      → (str_eq step.workflow "" ≡ false
          → (outputs : Map (Map Value)) (w : World)
          → sub step outputs inv w ≡ other step outputs inv w)
      → sub_step sv sub suppress inv step p ≡ sub_step sv other suppress inv step p
  unfolding sub_step
  sub_step_same suppress inv step p h = elim (Bool-cases (suppress && is_webhook (sub_kind step))) [
    | inl e ↦ rw e refl
    | inr e ↦
        let rec = started inv.run.id (sub_kind step) Status.running (now sv p.world) step in
        let w = ticked p.world in
        rw e (
          created_same "create step " (error_of (create_step rec w.store).0) step (new_step rec w)
            (λ v. after_create sv sub inv (sub_kind step) step rec p v)
            (λ v. after_create sv other inv (sub_kind step) step rec p v) p
            (after_create_same inv (sub_kind step) step rec p (new_step rec w)
              (λ k. h (sub_kind-workflow step k) p.outputs (new_step rec w))))
  ]

  at_step_same :
      (suppress : Bool) (inv : Invocation) (steps : List PipelineStep) (o : Option PipelineStep)
      (p : SubProgress)
      → Agrees steps sub other
      → ((s : PipelineStep) → o ≡ some s → In s steps)
      → at_step (sub_step sv sub suppress inv) o p ≡ at_step (sub_step sv other suppress inv) o p
  at_step_same suppress inv steps none p h among = refl
  at_step_same suppress inv steps (some step) p h among =
      sub_step_same suppress inv step p
        (λ k outputs w. h.same step outputs inv w (among step refl) k)

  and_step_same :
      (x y : Option String × SubProgress) (k l : SubProgress → Option String × SubProgress)
      → x ≡ y
      → ((p : SubProgress) → k p ≡ l p)
      → and_step x k ≡ and_step y l
  and_step_same x y k l e h = subst (λ z. and_step x k ≡ and_step z l) e (go x)
    where
      go : (z : Option String × SubProgress) → and_step z k ≡ and_step z l
      go (some m, p) = refl
      go (none, p) = h p

  run_sub_ids_same :
      (suppress : Bool) (inv : Invocation) (steps : List PipelineStep) (ids : List String)
      (p : SubProgress)
      → Agrees steps sub other
      → run_sub_ids (sub_step sv sub suppress inv) steps ids p
        ≡ run_sub_ids (sub_step sv other suppress inv) steps ids p
  unfolding run_sub_ids
  run_sub_ids_same suppress inv steps [] p h = refl
  run_sub_ids_same suppress inv steps (id ∷ ids) p h =
      and_step_same (at_step (sub_step sv sub suppress inv) (step_by_id steps id) p)
        (at_step (sub_step sv other suppress inv) (step_by_id steps id) p)
        (λ q. run_sub_ids (sub_step sv sub suppress inv) steps ids q)
        (λ q. run_sub_ids (sub_step sv other suppress inv) steps ids q)
        (at_step_same suppress inv steps (step_by_id steps id) p h
          (λ s e. step_by_id-In steps id s e))
        (λ q. run_sub_ids_same suppress inv steps ids q h)

  sub_layers_same :
      (call : SubCall) (inv : Invocation) (x : Resolution) (w : World)
      → Agrees call.workflow.pipeline sub other
      → sub_layers sv sub call inv x w ≡ sub_layers sv other call inv x w
  sub_layers_same call inv (cycle_at id) w h = refl
  sub_layers_same call inv out_of_fuel w h = refl
  sub_layers_same call inv (resolved ls) w h =
      ap (λ x. finish_sub sv call inv x)
        (run_sub_ids_same call.suppress inv call.workflow.pipeline (flatten ls)
          (record { world = w; outputs = []; metrics = no_metrics; final = [] }) h)

  and_created_same :
      (o : Option String) (k l : World → Dispatched × World) (w : World)
      → k w ≡ l w
      → and_created o k w ≡ and_created o l w
  and_created_same (some e) k l w h = refl
  and_created_same none k l w h = h

  pub run_sub_same :
      (call : SubCall) (w : World)
      → Agrees call.workflow.pipeline sub other
      → run_sub sv sub call w ≡ run_sub sv other call w
  unfolding run_sub
  run_sub_same call w h =
      let run = new_run call.run_id call.workflow.name (some call.input) (now sv w) in
      let v = ticked w in
      let u : World = record v { store = (create_run run v.store).1 } in
      let r = resolve (nodes_of call.workflow.pipeline) in
      and_created_same (error_of (create_run run v.store).0)
        (λ t. sub_layers sv sub call (sub_invocation run call) r t)
        (λ t. sub_layers sv other call (sub_invocation run call) r t) u
        (sub_layers_same call (sub_invocation run call) r u h)
