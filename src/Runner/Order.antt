-- ===== src/Runner/Order.antt =====
-- The order in which Execute of internal/orchestrator/runner/runner.go runs its steps.
pub mod Placed
pub mod Done
pub mod Loop
use ktsu.Runner.Order.Loop.{step_by_id_absent, step_by_id_known, run_ids-HasOutput, run_ids-append}
use ktsu.Runner.Order.Done.{Puts, root_step-Puts}
use ktsu.Runner.Order.Placed.{split_append, placed_before}
use Prim.Native.String.{String}
use ktsu.Prelude.{
  ◌≡◌, ◌⊎◌, refl, sym, ap, subst, ◌∙◌, true, false, Option, none, some, List, [], ◌∷◌, ◌++◌,
  flatten, arith, str_eq, eq_iff, Bool-cases, inl, inr, contains, contains-append, In, here, there,
}
use mathlib.Core.List.{append_assoc}
use ktsu.Prelude.Map.{Map, lookup, insert, lookup-insert, is_some}
use ktsu.Value.{Value}
use ktsu.State.Records.{Step}
use ktsu.State.Status
use ktsu.State.MemStore.{create_step}
use ktsu.Dag.{resolved, resolve}
use ktsu.Dag.Graph.{Node, ids}
use ktsu.Dag.Layers.Order.{AllPlaced, AreLayers, AreLayers-IsBacked}
use ktsu.Dag.Correct.{resolve-AreLayers, no-IsBacked}
use ktsu.Runner.Steps.{PipelineStep, World, Dispatched, Services}
use ktsu.Runner.Execute.{
  now, ticked, error_of, new_step, Kind, started, is_off, condition_false, Settled, complete,
  skipped, broken, settle, Invocation, SubStep, carry_out, fail_run, agent_flag, context_of,
  step_by_id, nodes_of, Progress, finish_step, by_settled, by_error, after_run, after_create,
  created, root_kind, root_step, at_step, and_step, run_ids,
}

nodes_of-In :
    (steps : List PipelineStep) (s : PipelineStep)
    → In s steps
    → In (record { id = s.id; depends = s.depends_on }) (nodes_of steps)
nodes_of-In [] s m = elim m [ ]
nodes_of-In (t ∷ steps) s (here e) =
    here (ap (λ (x : PipelineStep). record { id = x.id; depends = x.depends_on }) e)
nodes_of-In (t ∷ steps) s (there m) = there (nodes_of-In steps s m)

-- Where Resolve gives layers, a step stands in them behind some ids, and the loop over these ids ends
-- without an error: the whole loop goes on from there with the step, and has an output for each of its
-- dependencies.
pub run_ids_ordered :
    (sv : Services) (sub : SubStep) (inv : Invocation) (steps : List PipelineStep)
    (ls : List (List String)) (before after : List String) (s : PipelineStep) (d : String)
    (p : Progress)
    → resolve (nodes_of steps) ≡ resolved ls
    → flatten ls ≡ before ++ s.id ∷ after
    → In s steps
    → In d s.depends_on
    → (run_ids (root_step sv sub inv) steps before p).0 ≡ none
    → let q = (run_ids (root_step sv sub inv) steps before p).1 in
      (run_ids (root_step sv sub inv) steps (flatten ls) p
        ≡ run_ids (root_step sv sub inv) steps (s.id ∷ after) q)
      × (is_some (lookup d q.outputs) ≡ true)
run_ids_ordered sv sub inv steps ls before after s d p e split member needs ends =
    let run : PipelineStep → Progress → Option String × Progress = root_step sv sub inv in
    let layered = resolve-AreLayers (nodes_of steps) ls e in
    let placed : contains before d ≡ true =
      placed_before (nodes_of steps) ls [] before after s.id layered split
        (record { id = s.id; depends = s.depends_on }) (nodes_of-In steps s member) refl d needs in
    let all : contains (flatten ls) d ≡ true =
      ap (λ l. contains l d) split ∙ contains-append before (s.id ∷ after) d ∙ rw placed in
    let known = (AreLayers-IsBacked (nodes_of steps) ls [] layered no-IsBacked d all).0 in
    (
      ap (λ l. run_ids run steps l p) split
          ∙ run_ids-append run (λ t q. root_step-Puts sv inv t sub q) steps d before (s.id ∷ after)
              p ends,
      run_ids-HasOutput run (λ t q. root_step-Puts sv inv t sub q) steps d before p known ends
          (inl placed),
    )
