-- ===== src/Runner/Depth/Root.antt =====
-- The depth of nesting that the steps of Execute need (internal/orchestrator/runner/runner.go).
use Prim.Native.String.{String}
use ktsu.Prelude.{
  ℕ, ◌<◌, ◌≡◌, refl, ap, subst, false, Option, none, some, List, [], ◌∷◌, flatten, arith, str_eq,
  Bool-cases, inl, inr, In,
}
use ktsu.Prelude.Map.{Map}
use ktsu.Value.{Value}
use ktsu.State.Records.{Step}
use ktsu.State.Status
use ktsu.State.MemStore.{create_run, create_step}
use ktsu.Dag.{Resolution, resolved, cycle_at, out_of_fuel, resolve}
use ktsu.Runner.Steps.{PipelineStep, WorkflowConfig, World, Services}
use ktsu.Runner.Execute.{
  now, ticked, error_of, new_step, Kind, workflow, started, is_off, Invocation, SubStep, context_of,
  step_by_id, nodes_of, Progress, after_run, after_create, created, root_kind, root_step, at_step,
  and_step, run_ids,
}
use ktsu.Runner.Root.{new_run, root_invocation, finish_run, by_layers, and_created, execute}
use ktsu.Runner.Sub.{nested}
use ktsu.Runner.Depth.{IsRanked, Agrees, step_by_id-In, carry_out_same}
use ktsu.Runner.Depth.Enough.{nested_enough}

root_kind-workflow :
    (step : PipelineStep) → root_kind step ≡ workflow → str_eq step.workflow "" ≡ false
root_kind-workflow step e = ground (arith, e)

module _ (sv : Services) (sub other : SubStep) (inv : Invocation) where
  after_create_same :
      (kind : Kind) (step : PipelineStep) (rec : Step) (outputs : Map (Map Value)) (w : World)
      → (kind ≡ workflow → sub step outputs inv w ≡ other step outputs inv w)
      → after_create sv sub inv kind step rec outputs w
        ≡ after_create sv other inv kind step rec outputs w
  after_create_same kind step rec outputs w h =
      elim (Bool-cases (is_off sv.library step.condition (context_of inv outputs))) [
        | inl e ↦ rw e refl
        | inr e ↦ rw e (
            ap (λ x. after_run sv inv step rec outputs x)
              (carry_out_same sv sub other kind step outputs inv w h))
      ]

  created_same :
      (o : Option String) (step : PipelineStep) (w : World) (k l : World → Option String × Progress)
      (outputs : Map (Map Value))
      → k w ≡ l w
      → created o step w k outputs ≡ created o step w l outputs
  created_same (some e) step w k l outputs h = refl
  created_same none step w k l outputs h = h

  root_step_same :
      (steps : List PipelineStep) (step : PipelineStep) (p : Progress)
      → Agrees steps sub other
      → In step steps
      → root_step sv sub inv step p ≡ root_step sv other inv step p
  unfolding root_step
  root_step_same steps step p h member =
      let rec = started inv.run.id (root_kind step) Status.running (now sv p.world) step in
      let w = ticked p.world in
      created_same (error_of (create_step rec w.store).0) step (new_step rec w)
        (λ v. after_create sv sub inv (root_kind step) step rec p.outputs v)
        (λ v. after_create sv other inv (root_kind step) step rec p.outputs v) p.outputs
        (after_create_same (root_kind step) step rec p.outputs (new_step rec w)
          (λ k. h.same step p.outputs inv (new_step rec w) member (root_kind-workflow step k)))

  at_step_same :
      (steps : List PipelineStep) (o : Option PipelineStep) (p : Progress)
      → Agrees steps sub other
      → ((s : PipelineStep) → o ≡ some s → In s steps)
      → at_step (root_step sv sub inv) o p ≡ at_step (root_step sv other inv) o p
  at_step_same steps none p h among = refl
  at_step_same steps (some step) p h among = root_step_same steps step p h (among step refl)

  and_step_same :
      (x y : Option String × Progress) (k l : Progress → Option String × Progress)
      → x ≡ y
      → ((p : Progress) → k p ≡ l p)
      → and_step x k ≡ and_step y l
  and_step_same x y k l e h = subst (λ z. and_step x k ≡ and_step z l) e (go x)
    where
      go : (z : Option String × Progress) → and_step z k ≡ and_step z l
      go (some m, p) = refl
      go (none, p) = h p

  run_ids_same :
      (steps : List PipelineStep) (ids : List String) (p : Progress)
      → Agrees steps sub other
      → run_ids (root_step sv sub inv) steps ids p ≡ run_ids (root_step sv other inv) steps ids p
  unfolding run_ids
  run_ids_same steps [] p h = refl
  run_ids_same steps (id ∷ ids) p h =
      and_step_same (at_step (root_step sv sub inv) (step_by_id steps id) p)
        (at_step (root_step sv other inv) (step_by_id steps id) p)
        (λ q. run_ids (root_step sv sub inv) steps ids q)
        (λ q. run_ids (root_step sv other inv) steps ids q)
        (at_step_same steps (step_by_id steps id) p h (λ s e. step_by_id-In steps id s e))
        (λ q. run_ids_same steps ids q h)

  by_layers_same :
      (wf : WorkflowConfig) (x : Resolution) (w : World)
      → Agrees wf.pipeline sub other
      → by_layers sv sub wf inv x w ≡ by_layers sv other wf inv x w
  by_layers_same wf (cycle_at id) w h = refl
  by_layers_same wf out_of_fuel w h = refl
  by_layers_same wf (resolved ls) w h =
      ap (λ x. finish_run sv inv.run x)
        (run_ids_same wf.pipeline (flatten ls) (record { world = w; outputs = [] }) h)

and_created_same :
    (o : Option String) (k l : World → Option String × World) (w : World)
    → k w ≡ l w
    → and_created o k w ≡ and_created o l w
and_created_same (some e) k l w h = refl
and_created_same none k l w h = h

-- If every workflow names only workflows of a lower rank, Execute has the same result with every bound on the
-- nesting of workflows above the ranks of those that its own steps name.
pub execute_enough :
    (sv : Services) (rank : String → ℕ) (d e : ℕ) (name run_id : String) (wf : WorkflowConfig)
    (input : Option (Map Value)) (params : Option (Map String)) (w : World)
    → IsRanked sv rank
    → ((s : PipelineStep)
        → In s wf.pipeline
        → str_eq s.workflow "" ≡ false
        → (rank s.workflow < d) × (rank s.workflow < e))
    → execute sv (nested d sv) name run_id wf input params w
      ≡ execute sv (nested e sv) name run_id wf input params w
unfolding execute
execute_enough sv rank d e name run_id wf input params w ranked above =
    let run = new_run run_id name input (now sv w) in
    let v = ticked w in
    let u : World = record v { store = (create_run run v.store).1 } in
    let inv = root_invocation sv run wf input params in
    let r = resolve (nodes_of wf.pipeline) in
    and_created_same (error_of (create_run run v.store).0)
      (λ t. by_layers sv (nested d sv) wf inv r t) (λ t. by_layers sv (nested e sv) wf inv r t) u
      (by_layers_same sv (nested d sv) (nested e sv) inv wf r u record {
        same = λ s outputs i t member named.
            nested_enough sv rank ranked d e s outputs i t (above s member named).0
              (above s member named).1;
      })
