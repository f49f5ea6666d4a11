-- ===== src/Runner/Examples.antt =====
-- Two steps of which the second needs the first, and expressions, templates and transforms at work.
pub mod Nesting
pub mod Results
pub mod Data
use Prim.Native.String.{String}
use ktsu.Prelude.{
  ◌≡◌, refl, sym, ap, true, Option, none, some, List, [], ◌∷◌, flatten, here, contains,
}
use ktsu.Prelude.Map.{Map, lookup, insert, filter_keys, is_some}
use ktsu.Prelude.Strings.{has_prefix, cut_prefix}
use ktsu.Prelude.Answer.{Answer, got, failed}
use ktsu.Agent.Text.{trim_left, trim_right, trim_space}
use ktsu.Value.{Value, null, str, obj, entries, items}
use ktsu.Value.Float.{from_bits, float_lt}
use ktsu.State.MemStore.{new_mem_store, create_run, update_run, create_step, update_step}
use ktsu.Dag.{resolved, resolve}
use ktsu.Dag.Graph.{Path⁺, one, more, adj}
use ktsu.Dag.Cycle.{detect_cycle, visit, visit_each, paint}
use ktsu.Dag.Layers.{
  layers, rounds, layer_of, place, release, release_depends, mark_placed, count_nodes,
  count_depends, put,
}
use ktsu.Output.Reserved.{
  is_flagged, confidence_of, string_of, flags_of, strip_reserved, process_reserved,
}
use ktsu.Output.Airlock.{find_reserved, check_required, required_of, validate}
use ktsu.Config.Params.{template_of, before_braces}
use ktsu.Runner.Expr.{
  Library, word_length, tail_length, drop_chars, ident_length, literal_length, quoted_length,
  rewrite_from, sanitize_expr, strip_template,
}
use ktsu.Runner.Steps.{
  PipelineStep, WorkflowConfig, World, Dispatched, Services, gives, execute_agent,
  resolve_agent_templates, agent_params,
}
use ktsu.Runner.Execute.{
  Invocation, Progress, root_step, run_ids, nodes_of, settle, is_skipped, is_off, carry_out,
}
use ktsu.Runner.Root.{new_run, env_vars, scrub_set, root_invocation, execute}
use ktsu.Runner.Sub.{nested}
use ktsu.Runner.Runs.{IsOrderly}
use ktsu.Runner.Runs.Ends.{IsEnded, IsRunning, IsGraphError, execute-IsEnded, execute_cyclic}
use ktsu.Runner.Order.{run_ids_ordered}

-- An expression names a key of the context.
abbrev field_of : Option Value → Answer Value
field_of none = got null
field_of (some v) = got v

abbrev search_key : String → Value → Answer Value
search_key e (obj fs) = field_of (lookup e (entries fs))
search_key e v = got null

abbrev show_text : Value → String
show_text (str s) = s
show_text v = "?"

abbrev pub library : Library
library = record { search = search_key; show = show_text }

abbrev summary : String → String → PipelineStep → Map Value → World → Dispatched × World
summary run_id id step input w = (gives (("summary", str id) ∷ []), w)

abbrev pub services : Services
services = record {
  library = library;
  dispatch = some summary;
  http = λ sent request timeout. failed "unreachable";
  getenv = λ name. none;
  clock = λ n. n;
  load_workflow = λ name. failed "no file";
}

services-IsOrderly : IsOrderly services
services-IsOrderly = record {
  keeps_runs = λ d e run_id id step input w.
      let same : summary ≡ d = cc in ap (λ f. (f run_id id step input w).1.store.runs) (sym same);
}

abbrev pub agent_step : String → List String → PipelineStep
agent_step id depends_on = record {
  id = id;
  agent = "writer";
  transform = none;
  webhook = none;
  workflow = "";
  workflow_input = [];
  workflow_webhooks = "";
  params = [];
  for_each = none;
  depends_on = depends_on;
  condition = "";
  confidence_threshold = from_bits 0;
  output = none;
}

abbrev pub workflow_of : List PipelineStep → WorkflowConfig
workflow_of steps = record {
  name = "digest";
  webhooks = "";
  env = [];
  params_schema = [];
  pipeline = steps;
  output = none;
}

abbrev pub first : PipelineStep
first = agent_step "collect" []

abbrev second : PipelineStep
second = agent_step "digest" ("collect" ∷ [])

abbrev digest : WorkflowConfig
digest = workflow_of (second ∷ first ∷ [])

abbrev looping : WorkflowConfig
looping = workflow_of (agent_step "collect" ("digest" ∷ []) ∷ second ∷ [])

abbrev pub start : World
start = record { store = new_mem_store; sent = []; readings = 0 }

execute-IsEnded_example :
    let x = execute services (nested 2 services) "digest" "r1" digest none none start in
    IsEnded (nodes_of digest.pipeline) "r1" x.0 x.1
execute-IsEnded_example =
    execute-IsEnded services 2 "digest" "r1" digest none none start services-IsOrderly
      (unfold lookup in refl)

loop : Path⁺ (nodes_of looping.pipeline) "collect" "collect"
unfolding adj
loop = more (one (here refl)) (here refl)

execute_cyclic_example :
    let x = execute services (nested 2 services) "digest" "r1" looping none none start in
    ((e : String) × (x.0 ≡ some e) × IsGraphError (nodes_of looping.pipeline) e)
    × IsRunning "r1" x.1
    × (x.1.store.steps ≡ start.store.steps)
    × (x.1.sent ≡ start.sent)
execute_cyclic_example =
    execute_cyclic services 2 "digest" "r1" "collect" looping none none start
      (unfold lookup in refl) loop

program : Unit {0}
unfolding resolve detect_cycle visit visit_each paint layers rounds layer_of place release
    release_depends mark_placed count_nodes count_depends put contains adj
program = tt

digest_layers :
    resolve (nodes_of digest.pipeline) ≡ resolved (("collect" ∷ []) ∷ ("digest" ∷ []) ∷ [])
unfolding program
digest_layers = refl

abbrev pub collecting : Invocation
collecting = root_invocation services (new_run "r1" "digest" none 0) digest none none

abbrev created : Progress
created = record {
  world = record start { store = (create_run collecting.run start.store).1; readings = 1 };
  outputs = [];
}

abbrev run_step : PipelineStep → Progress → Option String × Progress
run_step = root_step services (nested 2 services) collecting

collect_ends : (run_ids run_step digest.pipeline ("collect" ∷ []) created).0 ≡ none
unfolding run_ids root_step create_run create_step update_step lookup insert execute_agent
    resolve_agent_templates agent_params settle is_skipped is_off carry_out process_reserved
    is_flagged confidence_of string_of flags_of strip_reserved filter_keys has_prefix float_lt
    find_reserved check_required required_of validate items
collect_ends = refl

run_ids_ordered_example :
    let q = (run_ids run_step digest.pipeline ("collect" ∷ []) created).1 in
    (run_ids run_step digest.pipeline (flatten (("collect" ∷ []) ∷ ("digest" ∷ []) ∷ [])) created
      ≡ run_ids run_step digest.pipeline (second.id ∷ []) q)
    × (is_some (lookup "collect" q.outputs) ≡ true)
run_ids_ordered_example =
    run_ids_ordered services (nested 2 services) collecting digest.pipeline
      (("collect" ∷ []) ∷ ("digest" ∷ []) ∷ []) ("collect" ∷ []) [] second "collect" created
      digest_layers (unfold flatten in refl) (here refl) (here refl) collect_ends

pub expressions : Unit {0}
unfolding word_length tail_length drop_chars ident_length literal_length quoted_length rewrite_from
    sanitize_expr strip_template trim_left trim_right trim_space has_prefix cut_prefix lookup
    entries template_of before_braces
expressions = tt

sanitize_hyphens : sanitize_expr "search-hn.repos" ≡ "\"search-hn\".repos"
unfolding expressions
sanitize_hyphens = refl

sanitize_quoted : sanitize_expr "\"search-hn\".a || `1-2`" ≡ "\"search-hn\".a || `1-2`"
unfolding expressions
sanitize_quoted = refl

sanitize_underscore : sanitize_expr "a_b-c" ≡ "a_\"b-c\""
unfolding expressions
sanitize_underscore = refl

strip_braces : strip_template " {{ params.key }} " ≡ "params.key"
unfolding expressions
strip_braces = refl

digest_completes :
    (execute services (nested 2 services) "digest" "r1" digest none none start).0 ≡ none
unfolding program run_ids root_step create_run create_step update_step update_run lookup insert
    execute_agent resolve_agent_templates agent_params settle is_skipped is_off carry_out
    process_reserved is_flagged confidence_of string_of flags_of strip_reserved filter_keys
    has_prefix float_lt find_reserved check_required required_of validate items execute env_vars
    scrub_set flatten
digest_completes = refl
