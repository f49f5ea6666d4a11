-- ===== src/Runner/Root.antt =====
-- Execute of internal/orchestrator/runner/runner.go, with the workflows of its steps as a parameter.
use Prim.Native.String.{String, ◌++◌ as append}
use ktsu.Prelude.{ℕ, Option, none, some, List, [], ◌∷◌, flatten, str_eq, if◌then◌else◌}
use ktsu.Prelude.Map.{Map, insert}
use ktsu.Value.{Value}
use ktsu.State.Records.{Run}
use ktsu.State.Status
use ktsu.State.MemStore.{create_run, update_run}
use ktsu.Dag.{Resolution, resolved, cycle_at, out_of_fuel, resolve}
use ktsu.Runner.Steps.{EnvVarDecl, WorkflowConfig, World, Services}
use ktsu.Runner.Execute.{
  now, ticked, error_of, stored_run, SubStep, Invocation, Progress, root_step, run_ids, nodes_of,
}

abbrev pub new_run : String → String → Option (Map Value) → ℕ → Run
new_run id name payload at = record {
  id = id;
  workflow_name = name;
  status = Status.running;
  created_at = at;
  updated_at = at;
  completed_at = none;
  error = "";
  metadata = none;
  payload = payload;
}

abbrev env_value : Option String → Option String → String
env_value (some v) d = v
env_value none (some d) = d
env_value none none = ""

-- The env context of the declared variables: the loop, with the map so far.
unfoldable pub env_vars : Services → List EnvVarDecl → Map String → Map String
env_vars sv [] vars = vars
env_vars sv (d ∷ decls) vars =
    env_vars sv decls (insert d.name (env_value (sv.getenv d.name) d.default_) vars)

-- The values of the secret variables that are set. A default is not among them.
abbrev add_secret : Option String → List String → List String
add_secret none rest = rest
add_secret (some v) rest = if str_eq v "" then rest else v ∷ rest

unfoldable pub scrub_set : Services → List EnvVarDecl → List String
scrub_set sv [] = []
scrub_set sv (d ∷ decls) =
    let rest = scrub_set sv decls in if d.secret then add_secret (sv.getenv d.name) rest else rest

abbrev pub root_invocation :
    Services → Run → WorkflowConfig → Option (Map Value) → Option (Map String) → Invocation
root_invocation sv run wf input params = record {
  run = run;
  params = params;
  rich = input;
  env = some (env_vars sv wf.env []);
  scrub = scrub_set sv wf.env;
}

-- Behind the loop: the run is complete.
abbrev pub completed : Run → ℕ → Run
completed run at = record run { status = Status.complete; updated_at = at; completed_at = some at }

abbrev pub finish_run : Services → Run → Option String × Progress → Option String × World
finish_run sv run (some e, p) = (some e, p.world)
finish_run sv run (none, p) =
    let w = ticked p.world in
    let done = completed run (now sv p.world) in
    (error_of (update_run done w.store).0, stored_run done w)

abbrev pub by_layers :
    Services → SubStep → WorkflowConfig → Invocation → Resolution → World → Option String × World
by_layers sv sub wf inv (resolved ls) w =
    finish_run sv inv.run
      (run_ids (root_step sv sub inv) wf.pipeline (flatten ls) record { world = w; outputs = [] })
by_layers sv sub wf inv (cycle_at id) w =
    (some (append "dag resolve: cycle detected at node \"" (append id "\"")), w)
by_layers sv sub wf inv out_of_fuel w = (some "dag resolve", w)

abbrev pub and_created :
    Option String → (World → Option String × World) → World → Option String × World
and_created (some e) k w = (some (append "create run: " e), w)
and_created none k w = k w

-- Execute(workflowName, runID, wf, input, invocationParams)
unfoldable pub execute :
    Services
    → SubStep
    → String
    → String
    → WorkflowConfig
    → Option (Map Value)
    → Option (Map String)
    → World
    → Option String × World
execute sv sub name run_id wf input params w =
    let run = new_run run_id name input (now sv w) in
    let v = ticked w in
    and_created (error_of (create_run run v.store).0)
      (λ u.
        by_layers sv sub wf (root_invocation sv run wf input params)
          (resolve (nodes_of wf.pipeline)) u)
      (record v { store = (create_run run v.store).1 })
