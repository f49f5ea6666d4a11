-- ===== src/Dag/Graph.antt =====
-- internal/orchestrator/dag/dag.go: the nodes, and the dependencies that they stand for.
pub mod Paths
use ktsu.Prelude.{String, ◌≡◌, List, [], ◌∷◌, str_eq, if◌then◌else◌, In}

-- A step of the graph.
pub record Node : Type 0 where
  pub id : String
  pub depends : List String

-- adj[id] after `adj[n.ID] = n.Depends` for each node: the last node of an id counts, and a missing
-- key reads as no dependencies.
abbrev pub last_depends : List String → String → List Node → List String
last_depends found id [] = found
last_depends found id (n ∷ nodes) =
    last_depends (if str_eq n.id id then n.depends else found) id nodes

unfoldable pub adj : List Node → String → List String
adj nodes id = last_depends [] id nodes

-- The ids of the nodes, in their order.
unfoldable pub ids : List Node → List String
ids [] = []
ids (n ∷ nodes) = n.id ∷ ids nodes

-- `d` is a dependency of `id`.
abbrev pub Edge : List Node → String → String → Type 0
Edge nodes id d = In d (adj nodes id)

-- A chain of one dependency or more leads from one id to the other.
pub data Path⁺ (nodes : List Node) (a : String) : String → Type 0 where
  one : {b : String} → Edge nodes a b → Path⁺ nodes a b
  more : {b c : String} → Path⁺ nodes a b → Edge nodes b c → Path⁺ nodes a c
