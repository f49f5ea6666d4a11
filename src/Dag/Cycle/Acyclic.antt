-- ===== src/Dag/Cycle/Acyclic.antt =====
-- A search that passes has met no cycle.
use ktsu.Prelude.{
  ℕ, zero, suc, String, ◌≡◌, subst, List, [], ◌∷◌, arith, str_eq, eq_iff, inl, inr, Bool-cases, All,
  In-All,
}
use ktsu.Dag.Graph.{Node, adj, Edge}
use ktsu.Dag.Cycle.{
  gray, black, Colors, paint, Outcome, passed, visit_each, visit, visit_nodes, all_white,
}
use ktsu.Dag.Cycle.Marks.{
  and_then-passed, blacken-passed, passed-injective, Visited, was_black, was_gray, was_white,
  visit-Visited,
}

-- A property that an id has as soon as its dependencies have it. A passed search shows it.
module _ (nodes : List Node) (Q : String → Type 0)
    (closed : (id : String) → ((d : String) → Edge nodes id d → Q d) → Q id) where
  abbrev IsSettled : Colors → Type 0
  IsSettled c = (j : String) → c j ≡ black → Q j

  IsSettled-paint_gray : (id : String) (c : Colors) → IsSettled c → IsSettled (paint id gray c)
  unfolding paint
  IsSettled-paint_gray id c s j e = s j (ground (arith, eq_iff id j))

  IsSettled-paint_black :
      (id : String) (c : Colors) → IsSettled c → Q id → IsSettled (paint id black c)
  unfolding paint
  IsSettled-paint_black id c s q j e = elim (Bool-cases (str_eq id j)) [
    | inl same ↦ subst Q ((eq_iff id j).0 same) q
    | inr other ↦ s j (rw other at e)
  ]

  visit_each-settles :
      (v : String → Colors → Outcome)
      → ((id : String) (c c' : Colors) → v id c ≡ passed c' → IsSettled c → IsSettled c' × Q id)
      → (ds : List String) (c c' : Colors) → visit_each v ds c ≡ passed c'
      → IsSettled c
      → IsSettled c' × All Q ds
  unfolding visit_each
  visit_each-settles v step [] c c' h s = (subst IsSettled (passed-injective h) s, tt)
  visit_each-settles v step (d ∷ ds) c c' h s =
      let (b, first, rest) = and_then-passed (v d c) (visit_each v ds) h in
      let (s', q) = step d c b first s in
      let (s'', qs) = visit_each-settles v step ds b c' rest s' in (s'', (q, qs))

  Visited-settles :
      (fuel : ℕ) (id : String) (c : Colors) {o : Outcome}
      → ((d : String) (a b : Colors)
          → visit nodes fuel d a ≡ passed b
          → IsSettled a
          → IsSettled b × Q d)
      → Visited nodes fuel id c o
      → (c' : Colors) → o ≡ passed c'
      → IsSettled c
      → IsSettled c' × Q id
  Visited-settles fuel id c ih (was_black e) c' h s =
      (subst IsSettled (passed-injective h) s, s id e)
  Visited-settles fuel id c ih (was_gray e) c' h s = cc
  Visited-settles fuel id c ih (was_white e) c' h s =
      let (b, each, last) = blacken-passed id _ h in
      let (s', qs) =
        visit_each-settles (visit nodes fuel) ih (adj nodes id) _ b each
          (IsSettled-paint_gray id c s) in
      let q = closed id (λ d m. In-All Q qs m) in
      (subst IsSettled last (IsSettled-paint_black id b s' q), q)

  visit-settles :
      (fuel : ℕ) (id : String) (c c' : Colors)
      → visit nodes fuel id c ≡ passed c'
      → IsSettled c
      → IsSettled c' × Q id
  visit-settles zero id c c' h s = unfold visit in cc
  visit-settles (suc fuel) id c c' h s =
      Visited-settles fuel id c (visit-settles fuel) (visit-Visited nodes fuel id c) c' h s

  visit_nodes-settles :
      (fuel : ℕ) (rest : List Node) (c c' : Colors)
      → visit_nodes nodes fuel rest c ≡ passed c'
      → IsSettled c
      → All (λ (n : Node). Q n.id) rest
  visit_nodes-settles fuel [] c c' h s = tt
  visit_nodes-settles fuel (n ∷ rest) c c' h s =
      let (b, first, last) =
        and_then-passed (visit nodes fuel n.id c) (visit_nodes nodes fuel rest) h in
      let (s', q) = visit-settles fuel n.id c b first s in
      (q, visit_nodes-settles fuel rest b c' last s')

-- Every node of a graph that passes has each such property.
pub visit_nodes-induction :
    (nodes : List Node) (Q : String → Type 0)
    → ((id : String) → ((d : String) → Edge nodes id d → Q d) → Q id)
    → (fuel : ℕ) (c : Colors) → visit_nodes nodes fuel nodes all_white ≡ passed c
    → All (λ (n : Node). Q n.id) nodes
visit_nodes-induction nodes Q closed fuel c h =
    visit_nodes-settles nodes Q closed fuel nodes all_white c h (λ j e. cc)
