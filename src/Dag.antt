-- ===== src/Dag.antt =====
-- internal/orchestrator/dag/dag.go: the steps of a workflow are ordered into layers.
pub mod Graph
pub mod Cycle
pub mod Layers
pub mod Correct
mod Examples
use ktsu.Prelude.{String, Option, none, some, List, [], ◌∷◌}
use ktsu.Dag.Graph.{Node}
use ktsu.Dag.Cycle.{Outcome, passed, cyclic, exhausted, detect_cycle}
use ktsu.Dag.Layers.{layers}

pub data Resolution : Type 0 where
  resolved : List (List String) → Resolution
  cycle_at : String → Resolution
  out_of_fuel : Resolution

abbrev pub arrange : List Node → Outcome → Resolution
arrange nodes (passed _) = elim (layers nodes) [ none ↦ out_of_fuel | some ls ↦ resolved ls ]
arrange nodes (cyclic id) = cycle_at id
arrange nodes exhausted = out_of_fuel

-- Resolve(nodes)
unfoldable pub resolve : List Node → Resolution
resolve [] = resolved []
resolve (n ∷ nodes) = arrange (n ∷ nodes) (detect_cycle (n ∷ nodes))
