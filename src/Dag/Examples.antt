-- ===== src/Dag/Examples.antt =====
-- Small graphs, and what Resolve makes of them.
use ktsu.Prelude.{
  String, ◌≡◌, refl, sym, ◌∙◌, inl, inr, false, List, [], ◌∷◌, flatten, contains, here, there, ◌⊎◌,
}
use ktsu.Dag.{resolved, cycle_at, resolve}
use ktsu.Dag.Graph.{Node, ids, adj, Path⁺}
use ktsu.Dag.Cycle.{detect_cycle, visit, visit_each, paint}
use ktsu.Dag.Layers.{
  layers, rounds, layer_of, place, release, release_depends, mark_placed, count_nodes,
  count_depends, put,
}
use ktsu.Dag.Layers.Order.{AreLayers}
use ktsu.Dag.Layers.Complete.{IsUnique, IsClosed}
use ktsu.Dag.Correct.{
  resolve_decides, resolve-AreLayers, resolve_places_all, unknown_dependency_drops,
}

abbrev node : String → List String → Node
node id depends = record { id = id; depends = depends }

abbrev diamond : List Node
diamond = node "d" ("b" ∷ "c" ∷ []) ∷ node "b" ("a" ∷ []) ∷ node "c" ("a" ∷ []) ∷ node "a" [] ∷ []

abbrev diamond_layers : List (List String)
diamond_layers = ("a" ∷ []) ∷ ("b" ∷ "c" ∷ []) ∷ ("d" ∷ []) ∷ []

program : Unit {0}
unfolding resolve detect_cycle visit visit_each paint layers rounds layer_of place release
    release_depends mark_placed count_nodes count_depends put contains adj
program = tt

resolve-diamond : resolve diamond ≡ resolved diamond_layers
unfolding program
resolve-diamond = refl

resolve_loop : resolve (node "a" ("b" ∷ []) ∷ node "b" ("a" ∷ []) ∷ []) ≡ cycle_at "a"
unfolding program
resolve_loop = refl

-- A misspelt dependency.
abbrev dangling : List Node
dangling = node "a" [] ∷ node "b" ("aa" ∷ []) ∷ []

resolve-dangling : resolve dangling ≡ resolved (("a" ∷ []) ∷ [])
unfolding program
resolve-dangling = refl

resolve_decides_example :
    ((ls : List (List String)) × (resolve diamond ≡ resolved ls)
      × ((id : String) → ¬ Path⁺ diamond id id))
    ⊎ ((id : String) × (resolve diamond ≡ cycle_at id) × Path⁺ diamond id id)
resolve_decides_example = resolve_decides diamond

resolve-AreLayers_example : AreLayers diamond [] diamond_layers
resolve-AreLayers_example = resolve-AreLayers diamond diamond_layers resolve-diamond

diamond-IsUnique : IsUnique diamond
unfolding contains ids
diamond-IsUnique = (refl, (refl, (refl, (refl, tt))))

diamond-IsClosed : IsClosed diamond diamond
unfolding contains ids
diamond-IsClosed = ((refl, (refl, tt)), ((refl, tt), ((refl, tt), (tt, tt))))

resolve_places_all_example : contains (flatten diamond_layers) "c" ≡ contains (ids diamond) "c"
resolve_places_all_example =
    resolve_places_all diamond diamond_layers diamond-IsUnique diamond-IsClosed resolve-diamond "c"

aa_unknown : contains (ids dangling) "aa" ≡ false
unfolding contains ids
aa_unknown = refl

dangling-acyclic : (id : String) → ¬ Path⁺ dangling id id
dangling-acyclic id loop = elim (resolve_decides dangling) [
  | inl (ls, _, free) ↦ free id loop
  | inr (bad, e, _) ↦ let same = sym resolve-dangling ∙ e in absurd cc
]

unknown_dependency_drops_example :
    (ls : List (List String)) × (resolve dangling ≡ resolved ls)
    × (contains (flatten ls) "b" ≡ false)
    × ((a : String) → Path⁺ dangling a "b" → contains (flatten ls) a ≡ false)
unknown_dependency_drops_example =
    unknown_dependency_drops dangling (node "b" ("aa" ∷ [])) "aa" dangling-acyclic
      (there (here refl)) (here refl) aa_unknown
