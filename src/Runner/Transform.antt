-- ===== src/Runner/Transform.antt =====
-- executeTransform and its operations of internal/orchestrator/runner/runner.go.
use Prim.Native.String.{String, compare, ◌++◌ as append}
use Prim.Native.Nat.{Ordering}
pub mod Ops
pub mod Order
pub mod Sorted
pub mod Merged
use ktsu.Prelude.{
  ℕ, zero, suc, Bool, true, false, not, ◌&&◌, Option, none, some, List, [], ◌∷◌, ◌++◌, contains,
  str_eq, if◌then◌else◌,
}
use ktsu.Prelude.Map.{Map, lookup, insert}
use ktsu.Prelude.Answer.{Answer, got, failed}
use ktsu.Value.{
  Value, Values, Fields, null, bool, float, int, str, strs, arr, obj, nil, cons, end, field,
  entries, fields, items, values, as_string, or_else,
}
use ktsu.Value.Float.{Float64, float_lt, from_ℕ, is_zero}
use ktsu.Runner.Expr.{Library, sanitize_expr}

-- %T
abbrev pub type_name : Value → String
type_name null = "<nil>"
type_name (bool b) = "bool"
type_name (float f) = "float64"
type_name (int n) = "int"
type_name (str s) = "string"
type_name (strs ss) = "[]string"
type_name (arr vs) = "[]interface {}"
type_name (obj fs) = "map[string]interface {}"

-- TransformSpec: the ids of the inputs, and the ops, each a map from names to arguments.
pub record TransformSpec : Type 0 where
  pub inputs : List String
  pub ops : List (Map Value)

-- for k, v := range out { merged[k] = v }
unfoldable pub insert_all : Map Value → Map Value → Map Value
insert_all [] merged = merged
insert_all ((k, v) ∷ m) merged = insert_all m (insert k v merged)

abbrev merge_output : Option (Map Value) → Map Value → Map Value
merge_output none merged = merged
merge_output (some out) merged = insert_all out merged

unfoldable pub merge_inputs : List String → Map (Map Value) → Map Value → Map Value
merge_inputs [] outputs merged = merged
merge_inputs (id ∷ ids) outputs merged =
    merge_inputs ids outputs (merge_output (lookup id outputs) merged)

-- A nil map is an empty one.
abbrev pub map_or_empty : Option (Map Value) → Map Value
map_or_empty none = []
map_or_empty (some m) = m

unfoldable pub inputs_of : List String → Map (Map Value) → Value
inputs_of [] outputs = null
inputs_of (id ∷ []) outputs = obj (fields (map_or_empty (lookup id outputs)))
inputs_of (id ∷ other ∷ ids) outputs = obj (fields (merge_inputs (id ∷ other ∷ ids) outputs []))

abbrev pub find_field : String → Fields → Option Value
find_field k end = none
find_field k (field j v fs) = let rest = find_field k fs in if str_eq j k then some v else rest

abbrev pub put_field : String → Value → Fields → Fields
put_field k v end = field k v end
put_field k v (field j w fs) =
    let rest = put_field k v fs in if str_eq j k then field k v fs else field j w rest

abbrev pub append_values : Values → Values → Values
append_values nil ys = ys
append_values (cons x xs) ys = cons x (append_values xs ys)

-- deepMerge(a, b), and its loop over the fields of b with the fields of the result so far. The
-- loop reads each key of b once, so what it finds is a's.
unfoldable mutual
  pub deep_merge : Value → Value → Value
  deep_merge a (obj fs) = elim a [ obj gs ↦ obj (merge_fields gs fs) | _ ↦ obj fs ]
  deep_merge a (arr ys) = elim a [ arr xs ↦ arr (append_values xs ys) | _ ↦ arr ys ]
  deep_merge a null = null
  deep_merge a (bool b) = bool b
  deep_merge a (float f) = float f
  deep_merge a (int n) = int n
  deep_merge a (str s) = str s
  deep_merge a (strs ss) = strs ss

  pub merge_fields : Fields → Fields → Fields
  merge_fields gs end = gs
  merge_fields gs (field k v fs) =
      merge_fields (put_field k (elim (find_field k gs) [ none ↦ v | some w ↦ deep_merge w v ]) gs)
        fs
