-- ===== src/Runner/Examples/Results.antt =====
-- A step that succeeds, and fan-outs with a failing item.
use Prim.Native.String.{String, ◌++◌ as append}
use ktsu.Prelude.{
  ℕ, ◌+◌, ◌<◌, ◌≡◌, ◌≢◌, ◌↔◌, refl, true, false, none, some, List, [], ◌∷◌, arith, In, length,
}
use ktsu.Prelude.Map.{Map, lookup, filter_keys, is_some}
use ktsu.Prelude.Strings.{has_prefix}
use ktsu.Value.{Value, str, int, arr, items, values}
use ktsu.Runner.Expr.{Library}
use ktsu.Prelude.Answer.{got}
use ktsu.Value.Float.{float_lt}
use ktsu.Output.Reserved.{
  reserved_prefix, confidence_of, string_of, is_flagged, flags_of, strip_reserved, process_reserved,
}
use ktsu.Output.Airlock.{required_of, validate, find_reserved, check_required}
use ktsu.Runner.Steps.{ForEachSpec, Dispatched, Services, gives, fails, no_metrics}
use ktsu.Runner.Steps.Fanout.{
  Dispatch, fan_out, run_items, fanout_error, execute_fanout, limited, collect, total_of,
  outputs_of, fail_count, results_map,
}
use ktsu.Runner.Steps.Fanout.Laws.{IsTolerated, collect_lem}
use ktsu.Runner.Steps.Fanout.Results.{at, item_count, IsAnswered, execute_fanout_lem}
use ktsu.Runner.Execute.{complete, schema_of, is_skipped, settle}
use ktsu.Runner.Outputs.{IsTrusted, asked, settle_completes_iff}
use ktsu.Runner.Examples.{services, first, start}

abbrev summary : Map Value
summary = ("summary", str "fine") ∷ ("ktsu_rationale", str "short") ∷ []

settle_completes_iff_example : ((out : Map Value) × (settle first summary ≡ complete out)) ↔ (
    (is_skipped summary ≡ false)
    × IsTrusted summary first.confidence_threshold
    × (string_of "ktsu_skip_reason" summary ≡ "")
    × ((v : Value)
        → In v (required_of (schema_of first.output))
        → (has_prefix (asked v) reserved_prefix ≡ false)
          × (is_some (lookup (asked v) summary) ≡ true)))
settle_completes_iff_example = settle_completes_iff first summary

settle-summary : settle first summary ≡ complete (("summary", str "fine") ∷ [])
unfolding settle is_skipped lookup process_reserved is_flagged confidence_of string_of flags_of
    strip_reserved filter_keys has_prefix float_lt find_reserved check_required required_of validate
    items
settle-summary = refl

abbrev one_failed : List Dispatched
one_failed = gives summary ∷ fails "timeout" ∷ []

collect_lem_example :
    let x = collect services.library (some 1) one_failed in
    ((x.error ≡ none) ↔ IsTolerated (some 1) one_failed)
    × (x.error ≡ none
        → (x.output ≡ results_map (outputs_of 0 one_failed))
          × (length (outputs_of 0 one_failed) ≡ length one_failed))
    × (x.error ≢ none → x.output ≡ [])
    × (x.metrics ≡ total_of one_failed no_metrics)
collect_lem_example = collect_lem services.library (some 1) one_failed

one_tolerated : (collect services.library (some 1) one_failed).error ≡ none
unfolding fail_count
one_tolerated = (collect_lem services.library (some 1) one_failed).0.1 (omega arith)

abbrev over_two : ForEachSpec
over_two = record { from_ = "items"; max_items = 2; max_failures = none }

-- The answer repeats the item.
abbrev echo : String → Map Value → Dispatched
echo id input = gives (("id", str id) ∷ input)

abbrev echo_dispatch : Dispatch
echo_dispatch run_id id step input w = (echo id input, record w { readings = w.readings + 1 })

abbrev three : List Value
three = str "a" ∷ str "b" ∷ str "c" ∷ []

-- Every expression gives the three items.
abbrev lists : Library
lists = record services.library { search = λ e v. got (arr (values three)) }

abbrev echoing : Services
echoing = record services { dispatch = some echo_dispatch }

abbrev listing : Services
listing = record echoing { library = lists }

abbrev given : Map (Map Value)
given = ("items", ("first", int 1) ∷ []) ∷ []

echo_ends : (execute_fanout listing over_two first given "r1" none start).0.error ≡ none
unfolding execute_fanout fan_out run_items collect fanout_error limited items values
echo_ends = refl

execute_fanout_lem_example :
    (vs : List Value) × ((execute_fanout listing over_two first given "r1" none start).0.output
      ≡ ("results", arr (values vs)) ∷ [])
    × (length vs ≡ item_count 2 (length (items (values three))))
    × ((j : ℕ) (x : Value)
        → at (items (values three)) j ≡ some x
        → j < item_count 2 (length (items (values three)))
        → (y : Value) × (at vs j ≡ some y)
          × IsAnswered
              (λ id input v. echo_dispatch "r1" id first input v)
              (λ i. append first.id (append "." (services.library.show (int i))))
              given
              j
              x
              y)
execute_fanout_lem_example =
    execute_fanout_lem listing echo_dispatch over_two first given "r1" none (values three) start
      refl refl echo_ends
