-- ===== src/Dag/Graph/Paths.antt =====
-- Chains of dependencies.
use ktsu.Prelude.{
  String, ◌≡◌, refl, sym, subst, ◌⊎◌, inl, inr, false, List, [], ◌∷◌, arith, str_eq, contains,
  Bool-cases, Bool-cases,
}
use ktsu.Dag.Graph.{Node, last_depends, adj, ids, Edge, Path⁺, one, more}

module _ {nodes : List Node} where
  -- A chain begins with a dependency of its first id.
  pub Path⁺-head :
      {a c : String} → Path⁺ nodes a c → (d : String) × Edge nodes a d × ((d ≡ c) ⊎ Path⁺ nodes d c)
  Path⁺-head (one {b = c} e) = (c, e, inl refl)
  Path⁺-head (more {b = b} {c = c} p e) =
      let (d, first, rest) = Path⁺-head p in
      (
        d,
        first,
        elim rest [
          | inl same ↦ inr (one (subst (λ x. Edge nodes x c) (sym same) e))
          | inr q ↦ inr (more q e)
        ],
      )

-- `a` and all that it depends on, directly or not, are on no chain to themselves.
abbrev pub IsAcyclicBelow : List Node → String → Type 0
IsAcyclicBelow nodes a = (b : String) → (a ≡ b) ⊎ Path⁺ nodes a b → ¬ Path⁺ nodes b b

-- What only acyclic dependencies lead to is acyclic.
pub IsAcyclicBelow-step :
    (nodes : List Node) (a : String)
    → ((d : String) → Edge nodes a d → IsAcyclicBelow nodes d)
    → IsAcyclicBelow nodes a
IsAcyclicBelow-step nodes a below b (inl same) loop =
    let (d, first, rest) = Path⁺-head (subst (λ x. Path⁺ nodes x b) (sym same) loop) in
    below d first b rest loop
IsAcyclicBelow-step nodes a below b (inr p) loop =
    let (d, first, rest) = Path⁺-head p in below d first b rest loop

-- An id that no node has reads as no dependencies.
pub last_depends_absent :
    (found : List String) (id : String) (nodes : List Node)
    → contains (ids nodes) id ≡ false
    → last_depends found id nodes ≡ found
unfolding contains ids
last_depends_absent found id [] h = refl
last_depends_absent found id (n ∷ nodes) h = elim (Bool-cases (str_eq n.id id)) [
  | inl e ↦ absurd (ground arith)
  | inr e ↦ rw e (last_depends_absent found id nodes (ground arith))
]

pub adj_absent :
    (nodes : List Node) (id : String) → contains (ids nodes) id ≡ false → adj nodes id ≡ []
unfolding adj
adj_absent nodes id h = last_depends_absent [] id nodes h
