-- ===== src/Dag/Cycle/Fuel.antt =====
-- The fuel of `detect_cycle` bounds every depth of the search.
use ktsu.Prelude.{
  ℕ, zero, suc, ◌+◌, ◌<◌, ◌≤◌, String, ◌≡◌, ◌≢◌, refl, ap, Bool, true, false, List, [], ◌∷◌, arith,
  str_eq, eq_iff, inl, inr, Bool-cases, if◌then◌else◌, length, contains,
}
use ktsu.Dag.Graph.{Node, adj, ids}
use ktsu.Dag.Graph.Paths.{adj_absent}
use ktsu.Dag.Cycle.{
  white, gray, black, Color, Colors, paint, Outcome, exhausted, visit_each, visit, visit_nodes,
  all_white, detect_cycle,
}
use ktsu.Dag.Cycle.Marks.{
  and_then-exhausted, blacken-exhausted, Later, visit-Later, Visited, was_black, was_gray,
  was_white, visit-Visited,
}

abbrev is_white : Color → Bool
is_white white = true
is_white gray = false
is_white black = false

-- The number of nodes whose id is white.
whites : List Node → Colors → ℕ
whites [] c = 0
whites (n ∷ nodes) c = (if is_white (c n.id) then 1 else 0) + whites nodes c

is_white→ : (k : Color) → is_white k ≡ true → k ≡ white
is_white→ white h = refl
is_white→ gray h = cc
is_white→ black h = cc

is_white_le :
    (a b : Color)
    → (b ≡ white → a ≡ white)
    → (if is_white b then 1 else 0) ≤ (if is_white a then 1 else 0)
is_white_le a white h = rw (h refl) (omega arith)
is_white_le a gray h = omega arith
is_white_le a black h = omega arith

whites-Later : (nodes : List Node) (a b : Colors) → Later a b → whites nodes b ≤ whites nodes a
unfolding whites
whites-Later [] a b l = omega arith
whites-Later (n ∷ nodes) a b l =
    omega (arith, whites-Later nodes a b l, is_white_le (a n.id) (b n.id) (l.white_before n.id))

whites_le_length : (nodes : List Node) (c : Colors) → whites nodes c ≤ length nodes
unfolding whites
whites_le_length [] c = omega arith
whites_le_length (n ∷ nodes) c = ground (arith, whites_le_length nodes c)

whites-paint_le :
    (nodes : List Node) (id : String) (c : Colors) → whites nodes (paint id gray c) ≤ whites nodes c
unfolding whites paint
whites-paint_le [] id c = omega arith
whites-paint_le (n ∷ nodes) id c = ground (arith, whites-paint_le nodes id c)

-- Painting the id of a node takes it from the white ones.
whites-paint :
    (nodes : List Node) (id : String) (c : Colors)
    → c id ≡ white
    → contains (ids nodes) id ≡ true
    → whites nodes (paint id gray c) < whites nodes c
unfolding whites paint contains ids
whites-paint [] id c e m = absurd (ground arith)
whites-paint (n ∷ nodes) id c e m = elim (Bool-cases (str_eq n.id id)) [
  | inl same ↦
      let p : n.id ≡ id = (eq_iff n.id id).0 same in
      ground (arith, p, ap c p, eq_iff id n.id, whites-paint_le nodes id c)
  | inr other ↦ ground (arith, eq_iff n.id id, eq_iff id n.id, whites-paint nodes id c e)
]

module _ (nodes : List Node) where
  visit_each-ends :
      (fuel : ℕ)
      → ((d : String) (c : Colors) → whites nodes c < fuel → visit nodes fuel d c ≢ exhausted)
      → (ds : List String) (c : Colors) → whites nodes c < fuel
      → visit_each (visit nodes fuel) ds c ≢ exhausted
  unfolding visit_each
  visit_each-ends fuel ih [] c w h = cc
  visit_each-ends fuel ih (d ∷ ds) c w h =
      elim (and_then-exhausted (visit nodes fuel d c) (visit_each (visit nodes fuel) ds) h) [
        | inl first ↦ ih d c w first
        | inr (b, first, rest) ↦
            visit_each-ends fuel ih ds b
              (omega (arith, whites-Later nodes c b (visit-Later nodes fuel d c b first))) rest
      ]

  Visited-ends :
      (fuel : ℕ) (id : String) (c : Colors) {o : Outcome}
      → ((d : String) (a : Colors) → whites nodes a < fuel → visit nodes fuel d a ≢ exhausted)
      → Visited nodes fuel id c o
      → whites nodes c < suc fuel
      → o ≢ exhausted
  unfolding visit_each
  Visited-ends fuel id c ih (was_black e) w h = cc
  Visited-ends fuel id c ih (was_gray e) w h = cc
  Visited-ends fuel id c ih (was_white e) w h = elim (Bool-cases (contains (ids nodes) id)) [
    | inl known ↦
        visit_each-ends fuel ih (adj nodes id) (paint id gray c)
          (omega (arith, whites-paint nodes id c e known)) (blacken-exhausted id _ h)
    | inr unknown ↦
        let none_left : visit_each (visit nodes fuel) [] (paint id gray c) ≡ exhausted =
          rw (adj_absent nodes id unknown) at (blacken-exhausted id _ h) in
        cc
  ]

  visit-ends :
      (fuel : ℕ) (id : String) (c : Colors)
      → whites nodes c < fuel
      → visit nodes fuel id c ≢ exhausted
  visit-ends zero id c w h = absurd (omega arith)
  visit-ends (suc fuel) id c w h =
      Visited-ends fuel id c (visit-ends fuel) (visit-Visited nodes fuel id c) w h

  visit_nodes-ends :
      (fuel : ℕ) (rest : List Node) (c : Colors)
      → whites nodes c < fuel
      → visit_nodes nodes fuel rest c ≢ exhausted
  visit_nodes-ends fuel [] c w h = cc
  visit_nodes-ends fuel (n ∷ rest) c w h =
      elim (and_then-exhausted (visit nodes fuel n.id c) (visit_nodes nodes fuel rest) h) [
        | inl first ↦ visit-ends fuel n.id c w first
        | inr (b, first, last) ↦
            visit_nodes-ends fuel rest b
              (omega (arith, whites-Later nodes c b (visit-Later nodes fuel n.id c b first))) last
      ]

pub detect_cycle_ends : (nodes : List Node) → detect_cycle nodes ≢ exhausted
unfolding detect_cycle
detect_cycle_ends nodes =
    visit_nodes-ends nodes (length nodes + 2) nodes all_white
      (omega (arith, whites_le_length nodes all_white))
