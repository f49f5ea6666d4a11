-- ===== src/Dag/Layers.antt =====
-- The loop of Resolve in internal/orchestrator/dag/dag.go: layers of steps whose dependencies are
-- placed, by in-degrees.
pub mod Levels
pub mod Refine
pub mod Order
pub mod Ends
pub mod Complete
use ktsu.Prelude.{
  ℕ, zero, suc, ◌+◌, String, Bool, true, false, Option, none, some, List, [], ◌∷◌, str_eq,
  if◌then◌else◌, length, contains,
}
use ktsu.Dag.Graph.{Node}

-- Go's `int`, as far as the loop goes: `negsuc n` is -(n + 1).
pub data ℤ : Type 0 where
  pos : ℕ → ℤ
  negsuc : ℕ → ℤ

abbrev pub inc : ℤ → ℤ
inc (pos n) = pos (suc n)
inc (negsuc zero) = pos 0
inc (negsuc (suc n)) = negsuc n

abbrev pub dec : ℤ → ℤ
dec (pos zero) = negsuc 0
dec (pos (suc n)) = pos n
dec (negsuc n) = negsuc (suc n)

abbrev pub is_zero : ℤ → Bool
is_zero (pos zero) = true
is_zero (pos (suc n)) = false
is_zero (negsuc n) = false

-- inDegree, where a missing key reads as 0.
abbrev pub Degrees : Type 0
Degrees = String → ℤ

unfoldable pub put : String → ℤ → Degrees → Degrees
put id d deg j = if str_eq id j then d else deg j

-- for _, dep := range n.Depends { inDegree[n.ID]++ }
unfoldable pub count_depends : String → List String → Degrees → Degrees
count_depends id [] deg = deg
count_depends id (d ∷ ds) deg = count_depends id ds (put id (inc (deg id)) deg)

-- The loop that builds the in-degrees.
unfoldable pub count_nodes : List Node → Degrees → Degrees
count_nodes [] deg = deg
count_nodes (n ∷ nodes) deg = count_nodes nodes (count_depends n.id n.depends deg)

-- The nodes with in-degree 0.
unfoldable pub layer_of : List Node → Degrees → List String
layer_of [] deg = []
layer_of (n ∷ nodes) deg =
    let rest = layer_of nodes deg in if is_zero (deg n.id) then n.id ∷ rest else rest

-- for _, id := range layer { inDegree[id] = -1 }
unfoldable pub mark_placed : List String → Degrees → Degrees
mark_placed [] deg = deg
mark_placed (id ∷ rest) deg = mark_placed rest (put id (negsuc 0) deg)

-- for _, dep := range n.Depends { if done[dep] { inDegree[n.ID]-- } }
unfoldable pub release_depends : List String → String → List String → Degrees → Degrees
release_depends done id [] deg = deg
release_depends done id (d ∷ ds) deg =
    release_depends done id ds (if contains done d then put id (dec (deg id)) deg else deg)

-- The loop that decrements the dependents of the nodes in `done`.
unfoldable pub release : List String → List Node → Degrees → Degrees
release done [] deg = deg
release done (n ∷ nodes) deg =
    release done nodes (if contains done n.id then deg else release_depends done n.id n.depends deg)

-- The body of the loop behind `layers = append(layers, layer)`.
unfoldable pub place : List Node → List String → Degrees → Degrees
place nodes layer deg = release layer nodes (mark_placed layer deg)

-- `for { ... }`, on fuel.
unfoldable pub rounds : ℕ → List Node → Degrees → Option (List (List String))
rounds zero nodes deg = none
rounds (suc fuel) nodes deg = elim (layer_of nodes deg) [
  | [] ↦ some []
  | id ∷ rest ↦ elim (rounds fuel nodes (place nodes (id ∷ rest) deg)) [
    | none ↦ none
    | some ls ↦ some ((id ∷ rest) ∷ ls)
  ]
]

abbrev pub no_degrees : Degrees
no_degrees id = pos 0

unfoldable pub layers : List Node → Option (List (List String))
layers nodes = rounds (suc (length nodes)) nodes (count_nodes nodes no_degrees)
