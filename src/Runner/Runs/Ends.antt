-- ===== src/Runner/Runs/Ends.antt =====
-- The run that Execute of internal/orchestrator/runner/runner.go leaves in the store, on every path.
use Prim.Native.String.{String, ◌++◌ as append}
use ktsu.Prelude.{
  ℕ, ◌≡◌, ◌⊎◌, refl, sym, subst, Option, none, some, List, [], flatten, arith, eq_iff, inl, inr,
}
use ktsu.Prelude.Map.{Map, lookup, lookup-insert}
use ktsu.Value.{Value}
use ktsu.State.Records.{Run}
use ktsu.State.Status
use ktsu.State.MemStore.{ok, create_run, copy_run}
use ktsu.Dag.{resolve}
use ktsu.Dag.Graph.{Node, Path⁺}
use ktsu.Dag.Correct.{resolve_decides}
use ktsu.Runner.Steps.{WorkflowConfig, World, Services}
use ktsu.Runner.Execute.{
  now, ticked, stored_run, Invocation, Progress, root_step, run_ids, nodes_of,
}
use ktsu.Runner.Root.{new_run, root_invocation, completed, finish_run, by_layers, execute}
use ktsu.Runner.Sub.{nested}
use ktsu.Runner.Runs.{IsOrderly}
use ktsu.Runner.Runs.Whole.{
  Holds, IsStoreError, HasFailed, IsSound, update_run-stored, update_run-error, root_step-IsSound,
  run_ids-IsSound,
}

pub record HasCompleted (id : String) (w : World) : Type 0 where
  pub run : Run
  pub stored : lookup id w.store.runs ≡ some run
  pub status : run.status ≡ Status.complete
  pub completed_at : run.completed_at ≡ some run.updated_at

pub record IsRunning (id : String) (w : World) : Type 0 where
  pub run : Run
  pub stored : lookup id w.store.runs ≡ some run
  pub status : run.status ≡ Status.running

-- The error for a step that depends on itself through others.
pub record IsGraphError (nodes : List Node) (e : String) : Type 0 where
  pub id : String
  pub text : e ≡ append "dag resolve: cycle detected at node \"" (append id "\"")
  pub loop : Path⁺ nodes id id

-- What an error, or none, says of the run.
abbrev pub IsEnded : List Node → String → Option String → World → Type 0
IsEnded nodes id none w = HasCompleted id w
IsEnded nodes id (some e) w =
    HasFailed id e w ⊎ (IsRunning id w × (IsStoreError e ⊎ IsGraphError nodes e))

Holds-IsRunning : (r : Run) (w : World) → r.status ≡ Status.running → Holds r w → IsRunning r.id w
Holds-IsRunning r w e h = record {
  run = copy_run r;
  stored = h.held;
  status = unfold copy_run in e;
}

finish_run-IsEnded :
    (nodes : List Node) (sv : Services) (r : Run) (x : Option String × Progress)
    → r.status ≡ Status.running
    → IsSound r x.0 x.1.world
    → IsEnded nodes r.id (finish_run sv r x).0 (finish_run sv r x).1
finish_run-IsEnded nodes sv r (some e, p) running (inl failed) = inl failed
finish_run-IsEnded nodes sv r (some e, p) running (inr (h, store)) =
    inr (Holds-IsRunning r p.world running h, inl store)
finish_run-IsEnded nodes sv r (none, p) running h =
    let done = completed r (now sv p.world) in
    let w = ticked p.world in
    let v = stored_run done w in
    subst (λ e. IsEnded nodes r.id e v) (sym (update_run-error done (copy_run r) w h.held))
      record {
        run = copy_run done;
        stored = update_run-stored done (copy_run r) w h.held;
        status = unfold copy_run in refl;
        completed_at = unfold copy_run in refl;
      }

module _ (sv : Services) (orderly : IsOrderly sv) (depth : ℕ) (wf : WorkflowConfig)
    (inv : Invocation) where
  by_layers-IsEnded :
      (w : World)
      → inv.run.status ≡ Status.running
      → Holds inv.run w
      → let x = by_layers sv (nested depth sv) wf inv (resolve (nodes_of wf.pipeline)) w in
        IsEnded (nodes_of wf.pipeline) inv.run.id x.0 x.1
  by_layers-IsEnded w running h = elim (resolve_decides (nodes_of wf.pipeline)) [
    | inl (ls, e, acyclic) ↦
        let p : Progress = record { world = w; outputs = [] } in
        rw e (
          finish_run-IsEnded (nodes_of wf.pipeline) sv inv.run
            (run_ids (root_step sv (nested depth sv) inv) wf.pipeline (flatten ls) p) running
            (run_ids-IsSound sv inv (root_step sv (nested depth sv) inv)
              (λ step q held. root_step-IsSound sv orderly depth inv step q held) wf.pipeline
              (flatten ls) p h))
    | inr (id, e, loop) ↦ rw e (
        inr
          (Holds-IsRunning inv.run w running h, inr (record { id = id; text = refl; loop = loop })))
  ]

create_run-fresh :
    (r : Run) (w : World)
    → lookup r.id w.store.runs ≡ none
    → ((create_run r w.store).0 ≡ ok tt)
      × (lookup r.id (create_run r w.store).1.runs ≡ some (copy_run r))
      × ((create_run r w.store).1.steps ≡ w.store.steps)
unfolding create_run
create_run-fresh r w h =
    ground (arith, h, lookup-insert r.id r.id (copy_run r) w.store.runs, eq_iff r.id r.id)

-- If the store has no run of the id and the dispatcher changes no run, Execute, with any bound on the
-- nesting of workflows, leaves a run of that id. Without an error it is complete, with its last update
-- as its completion. With an error it has failed with that very text, or it is still running; then the
-- error reads `create step …: …` or `update step …: …`, or is the one of Resolve for a step that
-- depends on itself through others.
pub execute-IsEnded :
    (sv : Services) (depth : ℕ) (name run_id : String) (wf : WorkflowConfig)
    (input : Option (Map Value)) (params : Option (Map String)) (w : World)
    → IsOrderly sv
    → lookup run_id w.store.runs ≡ none
    → let x = execute sv (nested depth sv) name run_id wf input params w in
      IsEnded (nodes_of wf.pipeline) run_id x.0 x.1
unfolding execute
execute-IsEnded sv depth name run_id wf input params w orderly fresh =
    let run = new_run run_id name input (now sv w) in
    let v = ticked w in
    let (made, held, same) = create_run-fresh run v fresh in
    rw made (
      by_layers-IsEnded sv orderly depth wf (root_invocation sv run wf input params)
        (record v { store = (create_run run v.store).1 }) refl (record { held = held }))

-- If the store has no run of the id and some step depends on itself through others, Execute returns an
-- error for such a step; it starts no step, sends no request, and leaves its run in the store as running.
pub execute_cyclic :
    (sv : Services) (depth : ℕ) (name run_id a : String) (wf : WorkflowConfig)
    (input : Option (Map Value)) (params : Option (Map String)) (w : World)
    → lookup run_id w.store.runs ≡ none
    → Path⁺ (nodes_of wf.pipeline) a a
    → let x = execute sv (nested depth sv) name run_id wf input params w in
      ((e : String) × (x.0 ≡ some e) × IsGraphError (nodes_of wf.pipeline) e)
      × IsRunning run_id x.1
      × (x.1.store.steps ≡ w.store.steps)
      × (x.1.sent ≡ w.sent)
unfolding execute
execute_cyclic sv depth name run_id a wf input params w fresh loop =
    elim (resolve_decides (nodes_of wf.pipeline)) [
      | inl (ls, e, acyclic) ↦ absurd (acyclic a loop)
      | inr (id, e, path) ↦
          let run = new_run run_id name input (now sv w) in
          let (made, held, same) = create_run-fresh run (ticked w) fresh in
          rw (made, e)
            (
              (_, refl, record { id = id; text = refl; loop = path }),
              Holds-IsRunning run _ refl (record { held = held }),
              same,
              refl,
            )
    ]
