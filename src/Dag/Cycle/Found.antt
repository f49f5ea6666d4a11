-- ===== src/Dag/Cycle/Found.antt =====
-- A cycle that a search reports is there.
use ktsu.Prelude.{
  ℕ, zero, suc, String, ◌≡◌, refl, subst, List, [], ◌∷◌, str_eq, eq_iff, inl, inr, Bool-cases, In,
  here, there,
}
use ktsu.Dag.Graph.{Node, adj, Edge, Path⁺, one, more}
use ktsu.Dag.Cycle.{gray, Colors, paint, Outcome, cyclic, visit_each, visit, visit_nodes, all_white}
use ktsu.Dag.Cycle.Marks.{
  and_then-cyclic, blacken-cyclic, Later, visit-Later, Visited, was_black, was_gray, was_white,
  visit-Visited,
}

-- The gray ids are those on the way to `id`.
abbrev LeadsTo : List Node → Colors → String → Type 0
LeadsTo nodes c id = (g : String) → c g ≡ gray → Path⁺ nodes g id

LeadsTo-paint_gray :
    (nodes : List Node) (c : Colors) (id d : String)
    → LeadsTo nodes c id
    → Edge nodes id d
    → LeadsTo nodes (paint id gray c) d
unfolding paint
LeadsTo-paint_gray nodes c id d up e g h = elim (Bool-cases (str_eq id g)) [
  | inl same ↦ one (subst (λ x. Edge nodes x d) ((eq_iff id g).0 same) e)
  | inr other ↦ more (up g (rw other at h)) e
]

module _ (nodes : List Node) (found : String) where
  LeadsTo-Later : (a b : Colors) (id : String) → Later a b → LeadsTo nodes a id → LeadsTo nodes b id
  LeadsTo-Later a b id l up g h = up g (l.gray_before g h)

  visit_each-cyclic :
      (fuel : ℕ)
      → ((d : String) (c : Colors)
          → LeadsTo nodes c d
          → visit nodes fuel d c ≡ cyclic found
          → Path⁺ nodes found found)
      → (ds : List String) (c : Colors) → ((d : String) → In d ds → LeadsTo nodes c d)
      → visit_each (visit nodes fuel) ds c ≡ cyclic found
      → Path⁺ nodes found found
  unfolding visit_each
  visit_each-cyclic fuel ih [] c up h = cc
  visit_each-cyclic fuel ih (d ∷ ds) c up h =
      elim (and_then-cyclic (visit nodes fuel d c) (visit_each (visit nodes fuel) ds) h) [
        | inl first ↦ ih d c (up d (here refl)) first
        | inr (b, first, rest) ↦
            let later = visit-Later nodes fuel d c b first in
            visit_each-cyclic fuel ih ds b (λ x m. LeadsTo-Later c b x later (up x (there m))) rest
      ]

  Visited-cyclic :
      (fuel : ℕ) (id : String) (c : Colors) {o : Outcome}
      → ((d : String) (a : Colors)
          → LeadsTo nodes a d
          → visit nodes fuel d a ≡ cyclic found
          → Path⁺ nodes found found)
      → Visited nodes fuel id c o
      → LeadsTo nodes c id
      → o ≡ cyclic found
      → Path⁺ nodes found found
  Visited-cyclic fuel id c ih (was_black e) up h = cc
  Visited-cyclic fuel id c ih (was_gray e) up h =
      let same : id ≡ found = cc in subst (λ x. Path⁺ nodes x x) same (up id e)
  Visited-cyclic fuel id c ih (was_white e) up h =
      visit_each-cyclic fuel ih (adj nodes id) (paint id gray c)
        (λ d m. LeadsTo-paint_gray nodes c id d up m) (blacken-cyclic id _ h)

  visit-cyclic :
      (fuel : ℕ) (id : String) (c : Colors)
      → LeadsTo nodes c id
      → visit nodes fuel id c ≡ cyclic found
      → Path⁺ nodes found found
  visit-cyclic zero id c up h = unfold visit in cc
  visit-cyclic (suc fuel) id c up h =
      Visited-cyclic fuel id c (visit-cyclic fuel) (visit-Visited nodes fuel id c) up h

  visit_nodes-finds :
      (fuel : ℕ) (rest : List Node) (c : Colors)
      → ((g : String) → ¬ (c g ≡ gray))
      → visit_nodes nodes fuel rest c ≡ cyclic found
      → Path⁺ nodes found found
  visit_nodes-finds fuel [] c clear h = cc
  visit_nodes-finds fuel (n ∷ rest) c clear h =
      elim (and_then-cyclic (visit nodes fuel n.id c) (visit_nodes nodes fuel rest) h) [
        | inl first ↦ visit-cyclic fuel n.id c (λ g e. absurd (clear g e)) first
        | inr (b, first, last) ↦
            let later = visit-Later nodes fuel n.id c b first in
            visit_nodes-finds fuel rest b (λ g e. clear g (later.gray_before g e)) last
      ]

-- The reported id depends on itself, through one step or more.
pub visit_nodes-cyclic :
    (nodes : List Node) (fuel : ℕ) (found : String)
    → visit_nodes nodes fuel nodes all_white ≡ cyclic found
    → Path⁺ nodes found found
visit_nodes-cyclic nodes fuel found h =
    visit_nodes-finds nodes found fuel nodes all_white (λ g e. cc) h
