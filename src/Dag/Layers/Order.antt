-- ===== src/Dag/Layers/Order.antt =====
-- What the layers by placed ids keep: order, freshness, completeness, and enough fuel.
use ktsu.Prelude.{
  ℕ, zero, suc, String, ◌≡◌, refl, sym, subst, ap, ◌∙◌, Bool, true, false, not, ◌&&◌, some, List,
  [], ◌∷◌, ◌++◌, flatten, arith, str_eq, eq_iff, contains, contains-append, ◌==◌, Bool-cases, inl,
  inr, ◌⊎◌, ◌↔◌, In, here, there,
}
use mathlib.Core.List.{append_assoc, append-nil}
use ktsu.Dag.Graph.{Node, ids}
use ktsu.Dag.Layers.Levels.{outside, missing, ready, levels}

-- Every dependency of every node of `id` is in `placed`.
abbrev pub AllPlaced : List Node → List String → String → Type 0
AllPlaced nodes placed id =
    (n : Node) → In n nodes → n.id ≡ id → (d : String) → In d n.depends → contains placed d ≡ true

outside_zero :
    (placed ds : List String)
    → outside placed ds ≡ 0
    → {d : String} → In d ds
    → contains placed d ≡ true
outside_zero placed [] e m = elim m [ ]
outside_zero placed (d ∷ ds) e (here {x = x} same) = rw same (ground arith)
outside_zero placed (d ∷ ds) e (there m) = outside_zero placed ds (ground arith) m

missing_zero :
    (placed : List String) (id : String) (nodes : List Node)
    → missing placed id nodes ≡ 0
    → AllPlaced nodes placed id
missing_zero placed id [] e n m named d mem = elim m [ ]
missing_zero placed id (x ∷ nodes) e n (here same) named d m =
    outside_zero placed x.depends
      (let p : x.id ≡ id = ap (λ (k : Node). k.id) (sym same) ∙ named in
        ground (arith, eq_iff x.id id))
      (subst (λ (k : Node). In d k.depends) same m)
missing_zero placed id (x ∷ nodes) e n (there m) named d mem =
    missing_zero placed id nodes (ground arith) n m named d mem

outside_all :
    (placed ds : List String)
    → ((d : String) → In d ds → contains placed d ≡ true)
    → outside placed ds ≡ 0
outside_all placed [] h = refl
outside_all placed (d ∷ ds) h =
    ground (arith, h d (here refl), outside_all placed ds (λ x m. h x (there m)))

pub missing_all :
    (placed : List String) (id : String) (nodes : List Node)
    → AllPlaced nodes placed id
    → missing placed id nodes ≡ 0
missing_all placed id [] h = refl
missing_all placed id (n ∷ nodes) h = elim (Bool-cases (str_eq n.id id)) [
  | inl same ↦ ground (
    arith,
    outside_all placed n.depends (h n (here refl) ((eq_iff n.id id).0 same)),
    missing_all placed id nodes (λ k m. h k (there m)),
  )
  | inr other ↦ ground (arith, missing_all placed id nodes (λ k m. h k (there m)))
]

-- The test of `ready`.
abbrev pub is_ready : List Node → List String → String → Bool
is_ready nodes placed id = not (contains placed id) && (missing placed id nodes == 0)

pub contains-ready :
    (nodes : List Node) (placed : List String) (rest : List Node) (id : String)
    → contains (ready nodes placed rest) id ≡ (contains (ids rest) id && is_ready nodes placed id)
unfolding ready contains ids
contains-ready nodes placed [] id = refl
contains-ready nodes placed (n ∷ rest) id = elim (Bool-cases (str_eq n.id id)) [
  | inl same ↦
      let p : n.id ≡ id = (eq_iff n.id id).0 same in
      let q : is_ready nodes placed n.id ≡ is_ready nodes placed id =
        ap (is_ready nodes placed) p in
      ground (arith, p, q, contains-ready nodes placed rest id)
  | inr other ↦ ground (arith, contains-ready nodes placed rest id)
]

-- A layer is the set of those ids of nodes that are not placed and whose dependencies all are.
abbrev pub IsLayer : List Node → List String → List String → Type 0
IsLayer nodes placed layer =
    (id : String)
    → (contains layer id ≡ true) ↔ (
        (contains (ids nodes) id ≡ true) × (contains placed id ≡ false) × AllPlaced nodes placed id)

abbrev pub AreLayers : List Node → List String → List (List String) → Type 0
AreLayers nodes placed [] = Unit
AreLayers nodes placed (layer ∷ rest) =
    IsLayer nodes placed layer × AreLayers nodes (placed ++ layer) rest

pub ready-IsLayer :
    (nodes : List Node) (placed : List String) → IsLayer nodes placed (ready nodes placed nodes)
ready-IsLayer nodes placed id = (
  λ h.
      let t : (contains (ids nodes) id && is_ready nodes placed id) ≡ true =
        sym (contains-ready nodes placed nodes id) ∙ h in
      (ground arith, ground arith, missing_zero placed id nodes (ground arith)),
  λ (known, fresh, all).
      contains-ready nodes placed nodes id ∙ ground (arith, missing_all placed id nodes all),
)

module _ (nodes : List Node) where
  -- The two outcomes of a round.
  levels-cases :
      (fuel : ℕ) (placed : List String) (ls : List (List String))
      → levels (suc fuel) nodes placed ≡ some ls
      → ((ready nodes placed nodes ≡ []) × (ls ≡ []))
        ⊎ ((rest : List (List String)) × (levels fuel nodes (placed ++ ready nodes placed nodes)
              ≡ some rest)
            × (ls ≡ ready nodes placed nodes ∷ rest))
  unfolding levels
  levels-cases fuel placed ls h = ground arith

  pub levels-AreLayers :
      (fuel : ℕ) (placed : List String) (ls : List (List String))
      → levels fuel nodes placed ≡ some ls
      → AreLayers nodes placed ls
  levels-AreLayers zero placed ls h = unfold levels in cc
  levels-AreLayers (suc fuel) placed ls h = elim (levels-cases fuel placed ls h) [
    | inl (e, done) ↦ rw done tt
    | inr (rest, more, grown) ↦ rw grown (
      ready-IsLayer nodes placed,
      levels-AreLayers fuel (placed ++ ready nodes placed nodes) rest more,
    )
  ]

  -- At the end no id is ready.
  pub levels-final :
      (fuel : ℕ) (placed : List String) (ls : List (List String))
      → levels fuel nodes placed ≡ some ls
      → ready nodes (placed ++ flatten ls) nodes ≡ []
  unfolding flatten
  levels-final zero placed ls h = unfold levels in cc
  levels-final (suc fuel) placed ls h = elim (levels-cases fuel placed ls h) [
    | inl (e, done) ↦ rw (done, append-nil placed) e
    | inr (rest, more, grown) ↦
        let layer = ready nodes placed nodes in
        rw (grown, ← append_assoc placed layer (flatten rest))
          (levels-final fuel (placed ++ layer) rest more)
  ]

  -- Every placed id is an id of the graph, and its dependencies are placed.
  abbrev pub IsBacked : List String → Type 0
  IsBacked placed =
      (id : String)
      → contains placed id ≡ true
      → (contains (ids nodes) id ≡ true) × AllPlaced nodes placed id

  IsBacked-append :
      (placed layer : List String)
      → IsBacked placed
      → IsLayer nodes placed layer
      → IsBacked (placed ++ layer)
  IsBacked-append placed layer backed is_layer id h = elim (Bool-cases (contains placed id)) [
    | inl old ↦ (
      (backed id old).0,
      λ n m named d mem. contains-append placed layer d ∙ rw ((backed id old).1 n m named d mem),
    )
    | inr new ↦
        let in_layer : contains layer id ≡ true = ground (arith, contains-append placed layer id) in
        let (known, fresh, all) = (is_layer id).0 in_layer in
        (known, λ n m named d mem. contains-append placed layer d ∙ rw (all n m named d mem))
  ]

  pub AreLayers-IsBacked :
      (ls : List (List String)) (placed : List String)
      → AreLayers nodes placed ls
      → IsBacked placed
      → IsBacked (placed ++ flatten ls)
  unfolding flatten
  AreLayers-IsBacked [] placed h backed = rw (append-nil placed) backed
  AreLayers-IsBacked (layer ∷ rest) placed h backed =
      rw (← append_assoc placed layer (flatten rest))
        (AreLayers-IsBacked rest (placed ++ layer) h.1 (IsBacked-append placed layer backed h.0))
