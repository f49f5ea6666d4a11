-- ===== src/Runner/Order/Placed.antt =====
-- Where the dependencies of an id stand in the layers of Resolve (internal/orchestrator/dag/dag.go).
use Prim.Native.String.{String}
use ktsu.Prelude.{
  ◌≡◌, ◌⊎◌, refl, ◌∙◌, true, List, [], ◌∷◌, ◌++◌, flatten, arith, eq_iff, inl, inr, contains,
  contains-append,
}
use mathlib.Core.List.{append_assoc}
use ktsu.Dag.Graph.{Node}
use ktsu.Dag.Layers.Order.{AllPlaced, AreLayers}

-- Where an element stands in two lists one after the other.
pub split_append :
    (xs ys before after : List String) (a : String)
    → xs ++ ys ≡ before ++ a ∷ after
    → ((more : List String) × (before ≡ xs ++ more) × (ys ≡ more ++ a ∷ after))
      ⊎ (contains xs a ≡ true)
split_append [] ys before after a e = inl (before, refl, e)
split_append (x ∷ xs) ys [] after a e =
    let same : x ≡ a = cc in inr (unfold contains in ground (arith, eq_iff x a))
split_append (x ∷ xs) ys (b ∷ before) after a e =
    let same : x ≡ b = cc in
    let rest : xs ++ ys ≡ before ++ a ∷ after = cc in
    elim (split_append xs ys before after a rest) [
      | inl (more, p, q) ↦ inl (more, cc, q)
      | inr found ↦ inr (unfold contains in ground (arith, found))
    ]

-- The dependencies of an id stand before it.
pub placed_before :
    (nodes : List Node) (ls : List (List String)) (placed before after : List String) (id : String)
    → AreLayers nodes placed ls
    → flatten ls ≡ before ++ id ∷ after
    → AllPlaced nodes (placed ++ before) id
unfolding flatten
placed_before nodes [] placed [] after id h e = absurd cc
placed_before nodes [] placed (b ∷ before) after id h e = absurd cc
placed_before nodes (layer ∷ rest) placed before after id (is_layer, h) e =
    elim (split_append layer (flatten rest) before after id e) [
      | inl (more, p, q) ↦
          rw (p, ← append_assoc placed layer more)
            (placed_before nodes rest (placed ++ layer) more after id h q)
      | inr found ↦ λ n m named d mem.
          let all = ((is_layer id).0 found).2 in
          contains-append placed before d ∙ rw (all n m named d mem)
    ]
