-- ===== src/Dag/Layers/Levels.antt =====
-- What the in-degrees stand for: the layers of a graph by the set of placed ids alone.
use ktsu.Prelude.{
  ℕ, zero, suc, ◌+◌, String, not, ◌&&◌, Option, none, some, List, [], ◌∷◌, ◌++◌, str_eq,
  if◌then◌else◌, contains, ◌==◌,
}
use ktsu.Dag.Graph.{Node}

-- How many entries of a dependency list are in a set, and how many are not.
abbrev pub inside : List String → List String → ℕ
inside layer [] = 0
inside layer (d ∷ ds) = (if contains layer d then 1 else 0) + inside layer ds

abbrev pub outside : List String → List String → ℕ
outside placed [] = 0
outside placed (d ∷ ds) = (if contains placed d then 0 else 1) + outside placed ds

-- The same for all nodes of an id together.
abbrev pub hits : List String → String → List Node → ℕ
hits layer id [] = 0
hits layer id (n ∷ nodes) =
    (if str_eq n.id id then inside layer n.depends else 0) + hits layer id nodes

abbrev pub missing : List String → String → List Node → ℕ
missing placed id [] = 0
missing placed id (n ∷ nodes) =
    (if str_eq n.id id then outside placed n.depends else 0) + missing placed id nodes

-- The ids of `rest` that are not placed and miss no dependency.
unfoldable pub ready : List Node → List String → List Node → List String
ready nodes placed [] = []
ready nodes placed (n ∷ rest) =
    let later = ready nodes placed rest in
    if not (contains placed n.id) && (missing placed n.id nodes == 0) then n.id ∷ later else later

unfoldable pub levels : ℕ → List Node → List String → Option (List (List String))
levels zero nodes placed = none
levels (suc fuel) nodes placed = elim (ready nodes placed nodes) [
  | [] ↦ some []
  | id ∷ rest ↦ elim (levels fuel nodes (placed ++ (id ∷ rest))) [
    | none ↦ none
    | some ls ↦ some ((id ∷ rest) ∷ ls)
  ]
]
