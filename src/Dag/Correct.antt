-- ===== src/Dag/Correct.antt =====
-- Resolve as a whole: which graphs it refuses, and what its layers are.
use ktsu.Prelude.{
  suc, ◌+◌, String, ◌≡◌, refl, sym, subst, ◌∙◌, Bool, true, false, Option, none, some, List, [],
  ◌∷◌, flatten, ◌⊎◌, inl, inr, contains, length, Bool-cases, All, In, here, there, if◌then◌else◌,
  arith, str_eq, eq_iff,
}
use ktsu.Dag.Graph.{Node, ids, Edge, Path⁺, one, more, last_depends, adj}
use ktsu.Dag.Graph.Paths.{Path⁺-head, IsAcyclicBelow, IsAcyclicBelow-step, adj_absent}
use ktsu.Dag.Cycle.{Colors, Outcome, passed, cyclic, exhausted, detect_cycle}
use ktsu.Dag.Cycle.Acyclic.{visit_nodes-induction}
use ktsu.Dag.Cycle.Found.{visit_nodes-cyclic}
use ktsu.Dag.Cycle.Fuel.{detect_cycle_ends}
use ktsu.Dag.Layers.{layers, rounds, layer_of}
use ktsu.Dag.Layers.Levels.{ready}
use ktsu.Dag.Layers.Refine.{layers-levels}
use ktsu.Dag.Layers.Order.{AreLayers, IsBacked, levels-AreLayers, levels-final, AreLayers-IsBacked}
use ktsu.Dag.Layers.Ends.{layers_end}
use ktsu.Dag.Layers.Complete.{IsUnique, IsClosed, placed_step}
use ktsu.Dag.{resolved, cycle_at, arrange, resolve}

no_members {ℓ} : {A : Type ℓ} {a : A} → In a [] → ⊥
no_members m = elim m [ ]

Bool-ext : (a b : Bool) → (a ≡ true → b ≡ true) → (b ≡ true → a ≡ true) → a ≡ b
Bool-ext true b f g = sym (f refl)
Bool-ext false true f g = g refl
Bool-ext false false f g = refl

pub no-IsBacked : {nodes : List Node} → IsBacked nodes []
unfolding contains
no-IsBacked id h = cc

-- What holds at every node holds at every id.
ids_all :
    (nodes : List Node) (P : String → Type 0)
    → All (λ (n : Node). P n.id) nodes
    → (id : String) → contains (ids nodes) id ≡ true
    → P id
unfolding contains ids
ids_all [] P h id m = cc
ids_all (n ∷ nodes) P h id m = elim (Bool-cases (str_eq n.id id)) [
  | inl same ↦ subst P ((eq_iff n.id id).0 same) h.0
  | inr other ↦ ids_all nodes P h.1 id (ground arith)
]

-- The early return on no nodes is the general case.
resolve-arrange : (nodes : List Node) → resolve nodes ≡ arrange nodes (detect_cycle nodes)
unfolding resolve detect_cycle layers rounds layer_of
resolve-arrange [] = refl
resolve-arrange (n ∷ nodes) = refl

arrange-resolved :
    (nodes : List Node) (o : Outcome) (ls : List (List String))
    → arrange nodes o ≡ resolved ls
    → (c : Colors) × (o ≡ passed c) × (layers nodes ≡ some ls)
arrange-resolved nodes (passed c) ls h = (c, refl, ground arith)
arrange-resolved nodes (cyclic id) ls h = cc
arrange-resolved nodes exhausted ls h = cc

resolve-resolved :
    (nodes : List Node) (ls : List (List String))
    → resolve nodes ≡ resolved ls
    → (c : Colors) × (detect_cycle nodes ≡ passed c) × (layers nodes ≡ some ls)
resolve-resolved nodes ls h =
    arrange-resolved nodes (detect_cycle nodes) ls (sym (resolve-arrange nodes) ∙ h)

passed-acyclic :
    (nodes : List Node) (c : Colors)
    → detect_cycle nodes ≡ passed c
    → (id : String) → ¬ Path⁺ nodes id id
unfolding detect_cycle
passed-acyclic nodes c h id loop =
    let below : All (λ (n : Node). IsAcyclicBelow nodes n.id) nodes =
      visit_nodes-induction nodes (IsAcyclicBelow nodes) (IsAcyclicBelow-step nodes)
        (length nodes + 2) c h in
    elim (Bool-cases (contains (ids nodes) id)) [
      | inl known ↦ ids_all nodes (λ a. IsAcyclicBelow nodes a) below id known id (inl refl) loop
      | inr unknown ↦
          let (d, first, _) = Path⁺-head loop in
          no_members (rw (adj_absent nodes id unknown) at first)
    ]

-- Resolve ends on every graph: with layers, and then no id depends on itself through any chain of
-- dependencies; or with the error for an id that depends on itself.
pub resolve_decides :
    (nodes : List Node)
    → ((ls : List (List String)) × (resolve nodes ≡ resolved ls)
        × ((id : String) → ¬ Path⁺ nodes id id))
      ⊎ ((id : String) × (resolve nodes ≡ cycle_at id) × Path⁺ nodes id id)
resolve_decides nodes = decide (detect_cycle nodes) refl (layers nodes) refl
  where
    decide :
        (o : Outcome)
        → detect_cycle nodes ≡ o
        → (found : Option (List (List String))) → layers nodes ≡ found
        → ((ls : List (List String)) × (resolve nodes ≡ resolved ls)
            × ((id : String) → ¬ Path⁺ nodes id id))
          ⊎ ((id : String) × (resolve nodes ≡ cycle_at id) × Path⁺ nodes id id)
    decide (passed c) e none l = absurd (layers_end nodes l)
    decide (passed c) e (some ls) l =
        inl (ls, resolve-arrange nodes ∙ rw e (rw (l, arrange)), passed-acyclic nodes c e)
    decide (cyclic id) e found l = inr (
      id,
      resolve-arrange nodes ∙ rw e,
      visit_nodes-cyclic nodes (length nodes + 2) id (unfold detect_cycle in e),
    )
    decide exhausted e found l = absurd (detect_cycle_ends nodes e)

-- Each layer holds exactly the ids of nodes that no earlier layer holds and whose dependencies all
-- stand in earlier layers.
pub resolve-AreLayers :
    (nodes : List Node) (ls : List (List String))
    → resolve nodes ≡ resolved ls
    → AreLayers nodes [] ls
resolve-AreLayers nodes ls h =
    let (c, e, l) = resolve-resolved nodes ls h in
    levels-AreLayers nodes (suc (length nodes)) [] ls (sym (layers-levels nodes) ∙ l)

-- If the ids are distinct and every dependency is the id of a node, the layers hold every id of a
-- node and no other.
pub resolve_places_all :
    (nodes : List Node) (ls : List (List String))
    → IsUnique nodes
    → IsClosed nodes nodes
    → resolve nodes ≡ resolved ls
    → (id : String) → contains (flatten ls) id ≡ contains (ids nodes) id
resolve_places_all nodes ls unique closed h id =
    let (c, e, l) = resolve-resolved nodes ls h in
    let final : ready nodes (flatten ls) nodes ≡ [] =
      levels-final nodes (suc (length nodes)) [] ls (sym (layers-levels nodes) ∙ l) in
    let all : All
        (λ (n : Node). contains (ids nodes) n.id ≡ true → contains (flatten ls) n.id ≡ true) nodes =
      visit_nodes-induction nodes
        (λ a. contains (ids nodes) a ≡ true → contains (flatten ls) a ≡ true)
        (placed_step nodes (flatten ls) unique closed final) (length nodes + 2) c
        (unfold detect_cycle in e) in
    Bool-ext _ _
      (λ t. (AreLayers-IsBacked nodes ls [] (resolve-AreLayers nodes ls h) no-IsBacked id t).0)
      (λ t.
        ids_all nodes (λ a. contains (ids nodes) a ≡ true → contains (flatten ls) a ≡ true) all id t
          t)

last_depends-In :
    (nodes : List Node) (found : List String) (id d : String)
    → In d (last_depends found id nodes)
    → In d found ⊎ ((n : Node) × In n nodes × (n.id ≡ id) × In d n.depends)
last_depends-In [] found id d m = inl m
last_depends-In (n ∷ nodes) found id d m =
    elim (last_depends-In nodes (if str_eq n.id id then n.depends else found) id d m) [
      | inl old ↦ elim (Bool-cases (str_eq n.id id)) [
        | inl e ↦ inr (
          n,
          here refl,
          (eq_iff n.id id).0 e,
          subst (λ b. In d (if b then n.depends else found)) e old,
        )
        | inr e ↦ inl (subst (λ b. In d (if b then n.depends else found)) e old)
      ]
      | inr (k, member, same, needs) ↦ inr (k, there member, same, needs)
    ]

adj-In :
    (nodes : List Node) {a b : String}
    → Edge nodes a b
    → (n : Node) × In n nodes × (n.id ≡ a) × In b n.depends
unfolding adj
adj-In nodes {a} {b} e = elim (last_depends-In nodes [] a b e) [
  | inl m ↦ absurd (no_members m)
  | inr found ↦ found
]

-- What a placed id depends on through others is placed too.
module _ (nodes : List Node) (placed : List String) (backed : IsBacked nodes placed) where
  placed_next :
      (a b : String) → Edge nodes a b → contains placed a ≡ true → contains placed b ≡ true
  placed_next a b e h =
      let (k, member, same, needs) = adj-In nodes e in (backed a h).1 k member same b needs

  placed_below :
      {a b : String} → Path⁺ nodes a b → contains placed a ≡ true → contains placed b ≡ true
  placed_below (one e) h = placed_next _ _ e h
  placed_below (more p e) h = placed_next _ _ e (placed_below p h)

-- Where no id depends on itself, Resolve reports no error for a dependency that no node has: it gives layers, and
-- they hold neither the node with that dependency nor any id that depends on this node through others.
pub unknown_dependency_drops :
    (nodes : List Node) (n : Node) (d : String)
    → ((id : String) → ¬ Path⁺ nodes id id)
    → In n nodes
    → In d n.depends
    → contains (ids nodes) d ≡ false
    → (ls : List (List String)) × (resolve nodes ≡ resolved ls)
      × (contains (flatten ls) n.id ≡ false)
      × ((a : String) → Path⁺ nodes a n.id → contains (flatten ls) a ≡ false)
unknown_dependency_drops nodes n d acyclic m k unknown = elim (resolve_decides nodes) [
  | inr (id, e, loop) ↦ absurd (acyclic id loop)
  | inl (ls, h, free) ↦
      let backed = AreLayers-IsBacked nodes ls [] (resolve-AreLayers nodes ls h) no-IsBacked in
      let dropped : contains (flatten ls) n.id ≡ false =
        elim (Bool-cases (contains (flatten ls) n.id)) [
          | inl placed ↦
              let known = (backed d ((backed n.id placed).1 n m refl d k)).0 in
              absurd (ground arith)
          | inr absent ↦ absent
        ] in
      (
        ls,
        h,
        dropped,
        λ a path. elim (Bool-cases (contains (flatten ls) a)) [
          | inl placed ↦
              let reached = placed_below nodes (flatten ls) backed path placed in
              absurd (ground arith)
          | inr absent ↦ absent
        ],
      )
]
