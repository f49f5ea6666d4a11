-- ===== src/Dag/Layers/Complete.antt =====
-- In an acyclic graph with distinct ids and known dependencies every node is placed.
use ktsu.Prelude.{
  String, ◌≡◌, sym, ap, subst, ◌∙◌, true, false, List, [], ◌∷◌, arith, str_eq, eq_iff,
  if◌then◌else◌, contains, Bool-cases, inl, inr, In, here, there, All, In-All,
}
use ktsu.Dag.Graph.{Node, ids, adj, last_depends, Edge}
use ktsu.Dag.Graph.Paths.{last_depends_absent}
use ktsu.Dag.Layers.Levels.{ready}
use ktsu.Dag.Layers.Order.{AllPlaced, contains-ready, missing_all}

-- No two nodes share an id.
abbrev pub IsUnique : List Node → Type 0
IsUnique [] = Unit
IsUnique (n ∷ nodes) = (contains (ids nodes) n.id ≡ false) × IsUnique nodes

-- Every dependency is the id of a node of `all`.
abbrev pub IsClosed : List Node → List Node → Type 0
IsClosed all [] = Unit
IsClosed all (n ∷ nodes) =
    All (λ (d : String). contains (ids all) d ≡ true) n.depends × IsClosed all nodes

contains-ids : {n : Node} {nodes : List Node} → In n nodes → contains (ids nodes) n.id ≡ true
unfolding contains ids
contains-ids {n} (here {x = x} e) = ground (arith, eq_iff x.id n.id, ap (λ (k : Node). k.id) e)
contains-ids (there m) = ground (arith, contains-ids m)

-- With distinct ids the last node of an id is the only one.
last_depends_unique :
    (found : List String) (n : Node) (nodes : List Node)
    → IsUnique nodes
    → In n nodes
    → last_depends found n.id nodes ≡ n.depends
last_depends_unique found n [] u m = elim m [ ]
last_depends_unique found n (x ∷ nodes) u (here e) =
    let named : n.id ≡ x.id = ap (λ (k : Node). k.id) e in
    last_depends_absent (if str_eq x.id n.id then x.depends else found) n.id nodes (rw named u.0)
    ∙ ground (arith, eq_iff x.id n.id, named, ap (λ (k : Node). k.depends) e)
last_depends_unique found n (x ∷ nodes) u (there m) =
    last_depends_unique (if str_eq x.id n.id then x.depends else found) n nodes u.1 m

pub adj_unique :
    (n : Node) (nodes : List Node) → IsUnique nodes → In n nodes → adj nodes n.id ≡ n.depends
unfolding adj
adj_unique n nodes u m = last_depends_unique [] n nodes u m

IsClosed-In :
    (all : List Node) {n : Node} {nodes : List Node} {d : String}
    → IsClosed all nodes
    → In n nodes
    → In d n.depends
    → contains (ids all) d ≡ true
IsClosed-In all {n} {d = d} h (here e) k =
    In-All (λ d. contains (ids all) d ≡ true) h.0 (subst (λ (x : Node). In d x.depends) e k)
IsClosed-In all h (there m) k = IsClosed-In all h.1 m k

-- Where no id is ready, an id is placed as soon as its dependencies are.
pub placed_step :
    (nodes : List Node) (placed : List String)
    → IsUnique nodes
    → IsClosed nodes nodes
    → ready nodes placed nodes ≡ []
    → (id : String)
    → ((d : String) → Edge nodes id d → contains (ids nodes) d ≡ true → contains placed d ≡ true)
    → contains (ids nodes) id ≡ true
    → contains placed id ≡ true
placed_step nodes placed unique closed final id below known =
    elim (Bool-cases (contains placed id)) [
      | inl h ↦ h
      | inr h ↦
          let all : AllPlaced nodes placed id = λ n m named d k.
            below d
              (subst (λ (ds : List String). In d ds)
                (sym (adj_unique n nodes unique m) ∙ ap (adj nodes) named) k)
              (IsClosed-In nodes closed m k) in
          let found : contains (ready nodes placed nodes) id ≡ true =
            contains-ready nodes placed nodes id
            ∙ ground (arith, missing_all placed id nodes all) in
          absurd (unfold contains in ground (arith, rw final at found))
    ]
