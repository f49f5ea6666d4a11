-- ===== src/Runner/Steps/Fanout/Results.antt =====
-- The results of a fan-out, place by place (executeFanout of internal/orchestrator/runner/runner.go).
use Prim.Native.String.{String, ◌++◌ as append}
use ktsu.Prelude.{
  ℕ, zero, suc, ◌+◌, ◌<◌, ◌==◌, take, min, subst, false, str_eq, ◌≡◌, refl, sym, ap, ◌∙◌, Option,
  none, some, List, [], ◌∷◌, arith, length, if◌then◌else◌,
}
use ktsu.Prelude.Map.{Map, lookup, insert, lookup-insert}
use ktsu.Prelude.Answer.{got}
use ktsu.Value.{Value, Values, int, str, arr, obj, fields, items, values}
use ktsu.Runner.Expr.{as_objects, sanitize_expr}
use ktsu.Runner.Steps.{ForEachSpec, PipelineStep, World, Dispatched, Services}
use ktsu.Runner.Steps.Fanout.{
  Dispatch, item_input, run_items, outputs_of, results_map, limited, fan_out, output_of, search_ctx,
  execute_fanout,
}
use ktsu.Runner.Steps.Fanout.Laws.{collect_lem}

abbrev pub at {ℓ} : {A : Type ℓ} → List A → ℕ → Option A
at [] i = none
at (x ∷ xs) zero = some x
at (x ∷ xs) (suc i) = at xs i

-- The result of an item: the output of its answer, or its error with its place.
abbrev pub IsResultOf : ℕ → Dispatched → Value → Type 0
IsResultOf i answer y =
    (answer.error ≡ none → y ≡ obj (fields answer.output))
    × ((e : String)
        → answer.error ≡ some e
        → y ≡ obj (fields (("ktsu_error", str e) ∷ ("item_index", int i) ∷ [])))

-- The input of an item: the item, its place, and the outputs of the steps under the other names.
abbrev pub IsInputOf : Map (Map Value) → ℕ → Value → Map Value → Type 0
IsInputOf outputs i x input =
    (lookup "item" input ≡ some x)
    × (lookup "item_index" input ≡ some (int i))
    × ((k : String)
        → str_eq "item" k ≡ false
        → str_eq "item_index" k ≡ false
        → lookup k input ≡ lookup k (as_objects outputs))

-- The dispatcher answered the item `x` at the place `i` with what `y` shows.
abbrev pub IsAnswered :
    (String → Map Value → World → Dispatched × World)
    → (ℕ → String)
    → Map (Map Value)
    → ℕ
    → Value
    → Value
    → Type 0
IsAnswered send name outputs i x y =
    (input : Map Value) × (v : World) × IsInputOf outputs i x input
    × IsResultOf i (send (name i) input v).0 y

output_of-IsResultOf :
    (i : ℕ) (answer : Dispatched) → IsResultOf i answer (output_of answer.error answer.output i)
output_of-IsResultOf i answer = (λ h. rw h refl, λ e h. rw h refl)

item_input-IsInputOf :
    (outputs : Map (Map Value)) (i : ℕ) (x : Value) → IsInputOf outputs i x (item_input outputs x i)
item_input-IsInputOf outputs i x =
    let inner = insert "item" x (as_objects outputs) in
    (
      lookup-insert "item_index" "item" (int i) inner
          ∙ lookup-insert "item" "item" x (as_objects outputs),
      lookup-insert "item_index" "item_index" (int i) inner,
      λ k other place.
          lookup-insert "item_index" k (int i) inner
          ∙ rw (place, lookup-insert "item" k x (as_objects outputs), other) refl,
    )

at-append : (i j : ℕ) → i + suc j ≡ suc i + j
at-append i j = omega arith

module _ (send : String → Map Value → World → Dispatched × World) (name : ℕ → String)
    (outputs : Map (Map Value)) where
  run_items-at :
      (i : ℕ) (xs : List Value) (w : World) (j : ℕ) (x : Value)
      → at xs j ≡ some x
      → (y : Value) × (at (outputs_of i (run_items send name outputs i xs w).0) j ≡ some y)
        × IsAnswered send name outputs (i + j) x y
  unfolding run_items outputs_of
  run_items-at i [] w j x h = absurd cc
  run_items-at i (z ∷ xs) w zero x h =
      let answer = (send (name i) (item_input outputs z i) w).0 in
      let same : z ≡ x = cc in
      let start : i ≡ i + 0 = omega arith in
      (
        output_of answer.error answer.output i,
        refl,
        subst (λ k. IsAnswered send name outputs k x (output_of answer.error answer.output i)) start
            (
              item_input outputs z i,
              w,
              subst (λ u. IsInputOf outputs i u (item_input outputs z i)) same
                  (item_input-IsInputOf outputs i z),
              output_of-IsResultOf i answer,
            ),
      )
  run_items-at i (z ∷ xs) w (suc j) x h =
      let v = (send (name i) (item_input outputs z i) w).1 in
      let (y, stands, answered) = run_items-at (suc i) xs v j x h in
      (y, stands, subst (λ k. IsAnswered send name outputs k x y) (sym (at-append i j)) answered)

  length-run_items :
      (i : ℕ) (xs : List Value) (w : World)
      → length (run_items send name outputs i xs w).0 ≡ length xs
  unfolding run_items
  length-run_items i [] w = refl
  length-run_items i (z ∷ xs) w =
      let v = (send (name i) (item_input outputs z i) w).1 in
      omega (arith, length-run_items (suc i) xs v)

length-take : (n : ℕ) (xs : List Value) → length (take n xs) ≡ min n (length xs)
length-take zero xs = ground arith
length-take (suc n) [] = ground arith
length-take (suc n) (x ∷ xs) = ground (arith, length-take n xs)

at-take :
    (n : ℕ) (xs : List Value) (j : ℕ) (x : Value)
    → at xs j ≡ some x
    → j < n
    → at (take n xs) j ≡ some x
at-take zero xs j x h less = absurd (omega (arith, less))
at-take (suc n) [] j x h less = h
at-take (suc n) (z ∷ xs) zero x h less = h
at-take (suc n) (z ∷ xs) (suc j) x h less = at-take n xs j x h (omega (arith, less))

-- How many items a fan-out runs: all for 0, else at most `max_items`.
abbrev pub item_count : ℕ → ℕ → ℕ
item_count most all = if most == 0 then all else min most all

limited-count :
    (most : ℕ) (xs : List Value) → length (limited most xs) ≡ item_count most (length xs)
unfolding limited
limited-count zero xs = refl
limited-count (suc n) xs = ground (arith, length-take (suc n) xs)

limited-at :
    (most : ℕ) (xs : List Value) (j : ℕ) (x : Value)
    → at xs j ≡ some x
    → j < item_count most (length xs)
    → at (limited most xs) j ≡ some x
unfolding limited
limited-at zero xs j x h less = h
limited-at (suc n) xs j x h less = at-take (suc n) xs j x h (ground (arith, less))

-- What `fan_out` gives for the items that it is handed.
abbrev IsFannedOut :
    Services → Dispatch → PipelineStep → Map (Map Value) → String → List Value → Dispatched → Type 0
IsFannedOut sv d step outputs run_id ys r =
    (vs : List Value) × (r.output ≡ results_map vs)
    × (length vs ≡ length ys)
    × ((j : ℕ) (x : Value)
        → at ys j ≡ some x
        → (y : Value) × (at vs j ≡ some y)
          × IsAnswered (λ id input v. d run_id id step input v)
              (λ i. append step.id (append "." (sv.library.show (int i)))) outputs j x y)

fan_out-IsFannedOut :
    (sv : Services) (d : Dispatch) (spec : ForEachSpec) (step : PipelineStep)
    (outputs : Map (Map Value)) (run_id : String) (ys : List Value) (w : World)
    → (fan_out sv d spec step outputs run_id ys w).0.error ≡ none
    → IsFannedOut sv d step outputs run_id ys (fan_out sv d spec step outputs run_id ys w).0
unfolding fan_out
fan_out-IsFannedOut sv d spec step outputs run_id [] w good = ([], refl, refl, λ j x h. absurd cc)
fan_out-IsFannedOut sv d spec step outputs run_id (z ∷ ys) w good =
    let send : String → Map Value → World → Dispatched × World =
      λ id input v. d run_id id step input v in
    let name : ℕ → String = λ i. append step.id (append "." (sv.library.show (int i))) in
    let rs = (run_items send name outputs 0 (z ∷ ys) w).0 in
    let (_, given, _, _) = collect_lem sv.library spec.max_failures rs in
    let (out, count) = given good in
    (
      outputs_of 0 rs,
      out,
      count ∙ length-run_items send name outputs 0 (z ∷ ys) w,
      λ j x h.
          let (y, stands, answered) = run_items-at send name outputs 0 (z ∷ ys) w j x h in
          let place : 0 + j ≡ j = omega arith in
          (y, stands, subst (λ k. IsAnswered send name outputs k x y) place answered),
    )

-- With a dispatcher, a fan-out whose expression gives an array, and that does not fail, has as its output the list of its results:
-- one for each of the first `max_items` items, for all with 0. The result at a place is what the
-- dispatcher answered, in some state, under the id of the step, a dot and the place, for an input
-- with the item of this place, the place, and the outputs of the other steps: the output of
-- this answer, or its error with the place.
pub execute_fanout_lem :
    (sv : Services) (d : Dispatch) (spec : ForEachSpec) (step : PipelineStep)
    (outputs : Map (Map Value)) (run_id : String) (rich : Option (Map Value)) (xs : Values)
    (w : World)
    → sv.dispatch ≡ some d
    → sv.library.search (sanitize_expr spec.from_) (obj (fields (search_ctx outputs rich)))
      ≡ got (arr xs)
    → (execute_fanout sv spec step outputs run_id rich w).0.error ≡ none
    → (vs : List Value) × ((execute_fanout sv spec step outputs run_id rich w).0.output
        ≡ ("results", arr (values vs)) ∷ [])
      × (length vs ≡ item_count spec.max_items (length (items xs)))
      × ((j : ℕ) (x : Value)
          → at (items xs) j ≡ some x
          → j < item_count spec.max_items (length (items xs))
          → (y : Value) × (at vs j ≡ some y)
            × IsAnswered
                (λ id input v. d run_id id step input v)
                (λ i. append step.id (append "." (sv.library.show (int i))))
                outputs
                j
                x
                y)
unfolding execute_fanout
execute_fanout_lem sv d spec step outputs run_id rich xs w has_one found good =
    let ys = limited spec.max_items (items xs) in
    let whole : execute_fanout sv spec step outputs run_id rich w
        ≡ fan_out sv d spec step outputs run_id ys w =
      rw (has_one, found) refl in
    let (vs, out, count, each) =
      fan_out-IsFannedOut sv d spec step outputs run_id ys w
        (ap (λ (r : Dispatched × World). r.0.error) (sym whole) ∙ good) in
    (
      vs,
      ap (λ (r : Dispatched × World). r.0.output) whole ∙ out,
      count ∙ limited-count spec.max_items (items xs),
      λ j x h less. each j x (limited-at spec.max_items (items xs) j x h less),
    )
