-- ===== src/Runner/Steps/Fanout.antt =====
-- executeFanout of internal/orchestrator/runner/runner.go. The goroutines of the items are run in
-- the order of the items: nothing but the dispatcher sees their order.
pub mod Laws
pub mod Results
use Prim.Native.String.{String, ◌++◌ as append}
use ktsu.Prelude.{
  ℕ, zero, suc, ◌+◌, ◌||◌, Option, none, some, List, [], ◌∷◌, ltb, take, if◌then◌else◌,
}
use ktsu.Prelude.Map.{Map, insert, is_some}
use ktsu.Prelude.Answer.{Answer, got, failed}
use ktsu.Value.{Value, int, str, arr, obj, items, fields, values}
use ktsu.Value.Float.{float_add}
use ktsu.State.Records.{StepMetrics}
use ktsu.Runner.Expr.{Library, sanitize_expr, as_objects}
use ktsu.Runner.Transform.{type_name}
use ktsu.Runner.Steps.{
  ForEachSpec, PipelineStep, World, Dispatched, Services, no_metrics, gives, fails,
}

abbrev pub search_ctx : Map (Map Value) → Option (Map Value) → Map Value
search_ctx outputs none = as_objects outputs
search_ctx outputs (some rich) = insert "params" (obj (fields rich)) (as_objects outputs)

-- The input of one item.
abbrev pub item_input : Map (Map Value) → Value → ℕ → Map Value
item_input outputs item i = insert "item_index" (int i) (insert "item" item (as_objects outputs))

abbrev pub Dispatch : Type 0
Dispatch = String → String → PipelineStep → Map Value → World → Dispatched × World

-- The results of the items from index `i` on.
unfoldable pub run_items :
    (String → Map Value → World → Dispatched × World)
    → (ℕ → String)
    → Map (Map Value)
    → ℕ
    → List Value
    → World
    → List Dispatched × World
run_items send name outputs i [] w = ([], w)
run_items send name outputs i (item ∷ rest) w =
    let (r, v) = send (name i) (item_input outputs item i) w in
    let (rs, u) = run_items send name outputs (suc i) rest v in (r ∷ rs, u)

abbrev add_metrics : StepMetrics → StepMetrics → StepMetrics
add_metrics t m = record t {
  tokens_in = t.tokens_in + m.tokens_in;
  tokens_out = t.tokens_out + m.tokens_out;
  cost_usd = float_add t.cost_usd m.cost_usd;
  llm_calls = t.llm_calls + m.llm_calls;
  tool_calls = t.tool_calls + m.tool_calls;
  reflect_calls = t.reflect_calls + m.reflect_calls;
  reflected = m.reflected || t.reflected;
}

-- The loop over the results: its totals, and the outputs with the failures in their places.
unfoldable pub total_of : List Dispatched → StepMetrics → StepMetrics
total_of [] t = t
total_of (r ∷ rs) t = total_of rs (add_metrics t r.metrics)

abbrev pub output_of : Option String → Map Value → ℕ → Value
output_of none out i = obj (fields out)
output_of (some e) out i = obj (fields (("ktsu_error", str e) ∷ ("item_index", int i) ∷ []))

unfoldable pub outputs_of : ℕ → List Dispatched → List Value
outputs_of i [] = []
outputs_of i (r ∷ rs) = output_of r.error r.output i ∷ outputs_of (suc i) rs

unfoldable pub fail_count : List Dispatched → ℕ
fail_count [] = 0
fail_count (r ∷ rs) = if is_some r.error then suc (fail_count rs) else fail_count rs

-- The first failure, with its index.
abbrev pub or_later : Option String → ℕ → Option (ℕ × String) → Option (ℕ × String)
or_later (some e) i later = some (i, e)
or_later none i later = later

unfoldable pub first_failure : ℕ → List Dispatched → Option (ℕ × String)
first_failure i [] = none
first_failure i (r ∷ rs) = or_later r.error i (first_failure (suc i) rs)

abbrev pub results_map : List Value → Map Value
results_map vs = ("results", arr (values vs)) ∷ []

abbrev pub item_failed : Library → ℕ × String → String
item_failed lib (i, e) = append "fanout item " (append (lib.show (int i)) (append ": " e))

abbrev pub too_many : Library → ℕ → ℕ → String
too_many lib failures most = append "fanout: " (
    append (lib.show (int failures))
      (append " items failed (max_failures: " (append (lib.show (int most)) ")")))

abbrev pub fail_fast : Library → Option (ℕ × String) → List Dispatched → Option String
fail_fast lib none rs = none
fail_fast lib (some first) rs = some (item_failed lib first)

-- The error of the whole step: at the first failure, above a number of failures, or never.
unfoldable pub fanout_error : Library → Option ℕ → List Dispatched → Option String
fanout_error lib none rs = none
fanout_error lib (some zero) rs = fail_fast lib (first_failure 0 rs) rs
fanout_error lib (some (suc n)) rs =
    if ltb (suc n) (fail_count rs) then some (too_many lib (fail_count rs) (suc n)) else none

unfoldable pub collect : Library → Option ℕ → List Dispatched → Dispatched
collect lib most rs = elim (fanout_error lib most rs) [
  | some e ↦ record { output = []; metrics = total_of rs no_metrics; error = some e }
  | none ↦ record {
    output = results_map (outputs_of 0 rs);
    metrics = total_of rs no_metrics;
    error = none;
  }
]

-- if spec.MaxItems > 0 && len(items) > spec.MaxItems { items = items[:spec.MaxItems] }
unfoldable pub limited : ℕ → List Value → List Value
limited zero xs = xs
limited (suc n) xs = take (suc n) xs

abbrev collected : Library → Option ℕ → List Dispatched × World → Dispatched × World
collected lib most (rs, w) = (collect lib most rs, w)

unfoldable pub fan_out :
    Services
    → Dispatch
    → ForEachSpec
    → PipelineStep
    → Map (Map Value)
    → String
    → List Value
    → World
    → Dispatched × World
fan_out sv dispatch spec step outputs run_id [] w = (gives (results_map []), w)
fan_out sv dispatch spec step outputs run_id (x ∷ xs) w = collected sv.library spec.max_failures (
    run_items (λ id input v. dispatch run_id id step input v)
      (λ i. append step.id (append "." (sv.library.show (int i)))) outputs 0 (x ∷ xs) w)

abbrev for_each_error : String → String → Dispatched
for_each_error from_ e = fails (append "for_each from \"" (append from_ (append "\": " e)))

abbrev pub over_items :
    Services
    → Dispatch
    → ForEachSpec
    → PipelineStep
    → Map (Map Value)
    → String
    → Answer Value
    → World
    → Dispatched × World
over_items sv dispatch spec step outputs run_id (failed e) w = (for_each_error spec.from_ e, w)
over_items sv dispatch spec step outputs run_id (got (arr vs)) w =
    fan_out sv dispatch spec step outputs run_id (limited spec.max_items (items vs)) w
over_items sv dispatch spec step outputs run_id (got v) w =
    (for_each_error spec.from_ (append "expected array, got " (type_name v)), w)

abbrev pub dispatch_items :
    Services
    → Option Dispatch
    → ForEachSpec
    → PipelineStep
    → Map (Map Value)
    → String
    → Option (Map Value)
    → World
    → Dispatched × World
dispatch_items sv none spec step outputs run_id rich w = (gives (results_map []), w)
dispatch_items sv (some dispatch) spec step outputs run_id rich w =
    over_items sv dispatch spec step outputs run_id
      (sv.library.search (sanitize_expr spec.from_) (obj (fields (search_ctx outputs rich)))) w

-- executeFanout(step, stepOutputs, runID, richParams), for its spec.
unfoldable pub execute_fanout :
    Services
    → ForEachSpec
    → PipelineStep
    → Map (Map Value)
    → String
    → Option (Map Value)
    → World
    → Dispatched × World
execute_fanout sv spec step outputs run_id rich w =
    dispatch_items sv sv.dispatch spec step outputs run_id rich w
