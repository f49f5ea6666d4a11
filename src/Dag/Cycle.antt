-- ===== src/Dag/Cycle.antt =====
-- detectCycle of internal/orchestrator/dag/dag.go: depth-first search with three colours.
pub mod Marks
pub mod Acyclic
pub mod Found
pub mod Fuel
use ktsu.Prelude.{ℕ, zero, suc, ◌+◌, String, List, [], ◌∷◌, str_eq, if◌then◌else◌, length}
use ktsu.Dag.Graph.{Node, adj}

-- 0, 1 and 2 of the map `color`; a missing key reads as 0.
pub data Color : Type 0 where
  white gray black : Color

abbrev pub Colors : Type 0
Colors = String → Color

-- color[id] = c
unfoldable pub paint : String → Color → Colors → Colors
paint id c color j = if str_eq id j then c else color j

pub data Outcome : Type 0 where
  passed : Colors → Outcome
  cyclic : String → Outcome
  exhausted : Outcome

-- `if err != nil { return err }`
abbrev pub and_then : Outcome → (Colors → Outcome) → Outcome
and_then (passed color) k = k color
and_then (cyclic id) k = cyclic id
and_then exhausted k = exhausted

-- for _, id := range ids { if err := visit(id); err != nil { return err } }
unfoldable pub visit_each : (String → Colors → Outcome) → List String → Colors → Outcome
visit_each visit [] color = passed color
visit_each visit (d ∷ rest) color = and_then (visit d color) (visit_each visit rest)

-- `color[id] = 2`, behind the loop over the dependencies.
abbrev pub blacken : String → Outcome → Outcome
blacken id result = and_then result (λ color. passed (paint id black color))

-- visit(id); the fuel bounds the depth of the recursion.
unfoldable pub visit : List Node → ℕ → String → Colors → Outcome
visit nodes zero id color = exhausted
visit nodes (suc fuel) id color = elim (color id) [
  | black ↦ passed color
  | gray ↦ cyclic id
  | white ↦ blacken id (visit_each (visit nodes fuel) (adj nodes id) (paint id gray color))
]

abbrev pub all_white : Colors
all_white id = white

abbrev pub visit_nodes : List Node → ℕ → List Node → Colors → Outcome
visit_nodes nodes fuel [] color = passed color
visit_nodes nodes fuel (n ∷ rest) color =
    and_then (visit nodes fuel n.id color) (visit_nodes nodes fuel rest)

-- detectCycle(nodes)
unfoldable pub detect_cycle : List Node → Outcome
detect_cycle nodes = visit_nodes nodes (length nodes + 2) nodes all_white
