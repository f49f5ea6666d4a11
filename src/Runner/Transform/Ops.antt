-- ===== src/Runner/Transform/Ops.antt =====
-- The operations of executeTransform in internal/orchestrator/runner/runner.go.
use Prim.Native.String.{String, compare, ◌++◌ as append}
use Prim.Native.Nat.{Ordering}
use ktsu.Prelude.{
  Bool, true, false, not, Option, none, some, List, [], ◌∷◌, ◌++◌, contains, str_eq, if◌then◌else◌,
}
use ktsu.Prelude.Map.{Map, lookup}
use ktsu.Prelude.Answer.{Answer, got, failed}
use ktsu.Value.{
  Value, null, float, int, arr, obj, entries, fields, items, values, as_string, or_else,
}
use ktsu.Value.Float.{Float64, float_lt, from_ℕ}
use ktsu.Runner.Transform.{type_name, deep_merge, TransformSpec, inputs_of}
use ktsu.Runner.Expr.{Library, sanitize_expr}

-- `id, _ := v.(string)` on a value of an op.
abbrev pub text_of : Value → String
text_of v = or_else (as_string v) ""

abbrev merge_step : Value → Option (Map Value) → Value
merge_step current none = current
merge_step current (some out) = deep_merge current (obj (fields out))

unfoldable pub apply_merge : Value → List Value → Map (Map Value) → Value
apply_merge current [] outputs = current
apply_merge current (id ∷ ids) outputs =
    apply_merge (merge_step current (lookup (text_of id) outputs)) ids outputs

-- The array that filter and map work on.
abbrev pub as_items : Value → List Value
as_items (arr vs) = items vs
as_items null = []
as_items v = v ∷ []

abbrev described : String → Answer Value → Answer Value
described what (failed e) = failed (append what (append ": " e))
described what (got v) = got v

unfoldable pub apply_filter : Library → Value → String → Answer Value
apply_filter lib current expr =
    described (append "jmespath filter [?" (append expr "]"))
      (lib.search (append "[?" (append (sanitize_expr expr) "]")) (arr (values (as_items current))))

abbrev extracted : Answer Value → Value
extracted (failed e) = null
extracted (got v) = v

-- extractField(item, field)
unfoldable pub extract_field : Library → Value → String → Value
extract_field lib item name = extracted (lib.search (sanitize_expr name) item)

abbrev pub to_float64 : Value → Option Float64
to_float64 (float f) = some f
to_float64 (int n) = some (from_ℕ n)
to_float64 _ = none

-- s < t on texts: by code points, which is the order of their UTF-8 bytes.
abbrev pub text_lt : String → String → Bool
text_lt s t = elim (compare s t) [ Ordering.lt ↦ true | _ ↦ false ]

abbrev pub less_by : Option Float64 → Option Float64 → String → String → Bool
less_by (some f) (some g) s t = float_lt f g
less_by none g s t = text_lt s t
less_by (some f) none s t = text_lt s t

abbrev pub is_null : Value → Bool
is_null null = true
is_null _ = false

-- compareValues(a, b)
unfoldable pub compare_values : Library → Value → Value → Bool
compare_values lib a b =
    if is_null a
    then false
    else if is_null b
    then true
    else less_by (to_float64 a) (to_float64 b) (lib.show a) (lib.show b)

-- The order that SliceStable is given.
unfoldable pub comes_before : Library → String → String → Value → Value → Bool
comes_before lib name order x y =
    let less = compare_values lib (extract_field lib x name) (extract_field lib y name) in
    if str_eq order "desc" then not less else less

-- sort.SliceStable as the insertion sort that it is on up to 20 elements, and agrees with wherever `before` is
-- an order; the sorted part is kept last element first.
unfoldable pub insert_back : (Value → Value → Bool) → Value → List Value → List Value
insert_back before x [] = x ∷ []
insert_back before x (y ∷ ys) =
    let further = insert_back before x ys in if before x y then y ∷ further else x ∷ y ∷ ys

unfoldable pub insert_each : (Value → Value → Bool) → List Value → List Value → List Value
insert_each before [] back = back
insert_each before (x ∷ xs) back = insert_each before xs (insert_back before x back)

abbrev pub reversed : List Value → List Value → List Value
reversed [] acc = acc
reversed (x ∷ xs) acc = reversed xs (x ∷ acc)

unfoldable pub slice_stable : (Value → Value → Bool) → List Value → List Value
slice_stable before xs = reversed (insert_each before xs []) []

unfoldable pub apply_sort : Library → Value → String → String → Answer Value
apply_sort lib (arr vs) name order =
    got (arr (values (slice_stable (comes_before lib name order) (items vs))))
apply_sort lib v name order = failed (append "sort: expected []interface{}, got " (type_name v))

abbrev cons_answer : Answer Value → Answer (List Value) → Answer (List Value)
cons_answer (failed e) rest = failed e
cons_answer (got v) (failed e) = failed e
cons_answer (got v) (got vs) = got (v ∷ vs)

-- The loop of applyMap: the first error ends it. Its %q is a text in quotes here, as it is where nothing
-- in it is escaped.
unfoldable pub map_items : Library → String → List Value → Answer (List Value)
map_items lib expr [] = got []
map_items lib expr (x ∷ xs) =
    cons_answer
      (described (append "jmespath map \"" (append expr "\"")) (lib.search (sanitize_expr expr) x))
      (map_items lib expr xs)

abbrev as_array : Answer (List Value) → Answer Value
as_array (failed e) = failed e
as_array (got vs) = got (arr (values vs))

unfoldable pub apply_map : Library → Value → String → Answer Value
apply_map lib current expr = as_array (map_items lib expr (as_items current))

abbrev pub spread : Value → List Value
spread (arr vs) = items vs
spread v = v ∷ []

unfoldable pub flatten_items : List Value → List Value
flatten_items [] = []
flatten_items (x ∷ xs) = spread x ++ flatten_items xs

unfoldable pub apply_flatten : Value → Value
apply_flatten (arr vs) = arr (values (flatten_items (items vs)))
apply_flatten v = v

-- The loop of applyDeduplicate, with the keys seen.
unfoldable pub dedupe : (Value → String) → List String → List Value → List Value
dedupe key seen [] = []
dedupe key seen (x ∷ xs) =
    let again = dedupe key seen xs in
    let first = dedupe key (key x ∷ seen) xs in if contains seen (key x) then again else x ∷ first

abbrev pub dedupe_key : Library → String → Value → String
dedupe_key lib name x = lib.show (extract_field lib x name)

unfoldable pub apply_deduplicate : Library → Value → String → Value
apply_deduplicate lib (arr vs) name = arr (values (dedupe (dedupe_key lib name) [] (items vs)))
apply_deduplicate lib v name = v

abbrev pub op_text : String → Map Value → String
op_text key op = elim (lookup key op) [ none ↦ "" | some v ↦ text_of v ]

abbrev with_slice : String → Value → (List Value → Answer Value) → Answer Value
with_slice name (arr vs) k = k (items vs)
with_slice name v k = failed (append name (append ": expected []interface{}, got " (type_name v)))

abbrev with_map : String → Value → (Map Value → Answer Value) → Answer Value
with_map name (obj fs) k = k (entries fs)
with_map name v k = failed (append name (append ": expected map, got " (type_name v)))

-- applyOp(opName, opVal, currentData, stepOutputs)
unfoldable pub apply_op : Library → String → Value → Value → Map (Map Value) → Answer Value
apply_op lib name op current outputs =
    if str_eq name "merge"
    then with_slice name op (λ ids. got (apply_merge current ids outputs))
    else if str_eq name "filter"
    then with_map name op (λ m. apply_filter lib current (op_text "expr" m))
    else if str_eq name "sort"
    then with_map name op (λ m. apply_sort lib current (op_text "field" m) (op_text "order" m))
    else if str_eq name "map"
    then with_map name op (λ m. apply_map lib current (op_text "expr" m))
    else if str_eq name "flatten"
    then got (apply_flatten current)
    else if str_eq name "deduplicate"
    then with_map name op (λ m. got (apply_deduplicate lib current (op_text "field" m)))
    else failed (append "unknown op: " name)

abbrev and_op : String → Answer Value → (Value → Answer Value) → Answer Value
and_op name (failed e) k = failed (append "op " (append name (append ": " e)))
and_op name (got v) k = k v

-- The loop over the ops; an op with several names runs them in the order of its entries.
unfoldable pub apply_ops : Library → Map Value → Value → Map (Map Value) → Answer Value
apply_ops lib [] current outputs = got current
apply_ops lib ((name, op) ∷ ops) current outputs =
    and_op name (apply_op lib name op current outputs) (λ v. apply_ops lib ops v outputs)

abbrev pub joined : List (Map Value) → Map Value
joined [] = []
joined (m ∷ ms) = m ++ joined ms

abbrev result_map : Answer Value → Answer (Map Value)
result_map (failed e) = failed e
result_map (got v) = got (("result", v) ∷ [])

-- executeTransform(step, stepOutputs), for a step with a transform.
unfoldable pub execute_transform : Library → TransformSpec → Map (Map Value) → Answer (Map Value)
execute_transform lib spec outputs =
    result_map (apply_ops lib (joined spec.ops) (inputs_of spec.inputs outputs) outputs)
