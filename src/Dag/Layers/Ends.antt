-- ===== src/Dag/Layers/Ends.antt =====
-- The fuel of `layers` is enough: every round places a node.
use ktsu.Prelude.{
  ℕ, zero, suc, ◌+◌, ◌<◌, ◌≤◌, String, ◌≡◌, ◌≢◌, refl, sym, ap, ◌∙◌, true, false, none, List, [],
  ◌∷◌, ◌++◌, arith, str_eq, eq_iff, if◌then◌else◌, contains, contains-append, length, Bool-cases,
  inl, inr, ◌⊎◌,
}
use ktsu.Dag.Graph.{Node, ids}
use ktsu.Dag.Layers.{layers}
use ktsu.Dag.Layers.Levels.{ready, levels}
use ktsu.Dag.Layers.Refine.{layers-levels}
use ktsu.Dag.Layers.Order.{ready-IsLayer}

unplaced : List String → List Node → ℕ
unplaced placed [] = 0
unplaced placed (n ∷ nodes) = (if contains placed n.id then 0 else 1) + unplaced placed nodes

unplaced_le : (placed : List String) (nodes : List Node) → unplaced placed nodes ≤ length nodes
unfolding unplaced
unplaced_le placed [] = omega arith
unplaced_le placed (n ∷ nodes) = ground (arith, unplaced_le placed nodes)

unplaced-append_le :
    (placed layer : List String) (nodes : List Node)
    → unplaced (placed ++ layer) nodes ≤ unplaced placed nodes
unfolding unplaced
unplaced-append_le placed layer [] = omega arith
unplaced-append_le placed layer (n ∷ nodes) =
    ground (arith, contains-append placed layer n.id, unplaced-append_le placed layer nodes)

-- One new id of a node makes the number fall.
unplaced-append_lt :
    (placed layer : List String) (id : String) (nodes : List Node)
    → contains layer id ≡ true
    → contains placed id ≡ false
    → contains (ids nodes) id ≡ true
    → unplaced (placed ++ layer) nodes < unplaced placed nodes
unfolding unplaced contains ids
unplaced-append_lt placed layer id [] new old m = absurd (ground arith)
unplaced-append_lt placed layer id (n ∷ nodes) new old m = elim (Bool-cases (str_eq n.id id)) [
  | inl same ↦
      let p : n.id ≡ id = (eq_iff n.id id).0 same in
      ground (
        arith,
        ap (contains placed) p,
        ap (contains layer) p,
        contains-append placed layer n.id,
        unplaced-append_le placed layer nodes,
      )
  | inr other ↦
      ground
        (arith, contains-append placed layer n.id, unplaced-append_lt placed layer id nodes new old)
]

List-cases :
    (xs : List String) → (xs ≡ []) ⊎ ((x : String) × (rest : List String) × (xs ≡ x ∷ rest))
List-cases [] = inl refl
List-cases (x ∷ xs) = inr (x, xs, refl)

contains_head : (id : String) (rest : List String) → contains (id ∷ rest) id ≡ true
unfolding contains
contains_head id rest = ground (arith, eq_iff id id)

levels-none :
    (fuel : ℕ) (nodes : List Node) (placed : List String)
    → levels (suc fuel) nodes placed ≡ none
    → (ready nodes placed nodes ≢ [])
      × (levels fuel nodes (placed ++ ready nodes placed nodes) ≡ none)
unfolding levels
levels-none fuel nodes placed h = ground arith

levels-ends :
    (fuel : ℕ) (nodes : List Node) (placed : List String)
    → unplaced placed nodes < fuel
    → levels fuel nodes placed ≢ none
levels-ends zero nodes placed u h = absurd (omega arith)
levels-ends (suc fuel) nodes placed u h =
    let (some_ready, stuck) = levels-none fuel nodes placed h in
    let layer = ready nodes placed nodes in
    elim (List-cases layer) [
      | inl e ↦ some_ready e
      | inr (id, rest, e) ↦
          let in_layer : contains layer id ≡ true = rw e (contains_head id rest) in
          let (known, fresh, all) = (ready-IsLayer nodes placed id).0 in_layer in
          levels-ends fuel nodes (placed ++ layer)
            (omega (arith, unplaced-append_lt placed layer id nodes in_layer fresh known)) stuck
    ]

pub layers_end : (nodes : List Node) → layers nodes ≢ none
layers_end nodes h =
    levels-ends (suc (length nodes)) nodes [] (omega (arith, unplaced_le [] nodes))
      (sym (layers-levels nodes) ∙ h)
