-- ===== src/Dag/Layers/Refine.antt =====
-- The loop over in-degrees computes the layers by the placed ids.
use ktsu.Prelude.{
  ℕ, zero, suc, ◌+◌, String, ◌≡◌, refl, subst, ap, ◌∙◌, Bool, true, false, not, ◌&&◌, Option, none,
  some, List, [], ◌∷◌, ◌++◌, arith, str_eq, eq_iff, if◌then◌else◌, contains, contains-append, ◌==◌,
  length, Bool-cases, inl, inr,
}
use ktsu.Dag.Graph.{Node}
use ktsu.Dag.Layers.{
  ℤ, pos, negsuc, inc, dec, is_zero, Degrees, put, count_depends, count_nodes, layer_of,
  mark_placed, release_depends, release, place, rounds, no_degrees, layers,
}
use ktsu.Dag.Layers.Levels.{inside, outside, hits, missing, ready, levels}

abbrev is_neg : ℤ → Bool
is_neg (pos n) = false
is_neg (negsuc n) = true

-- k decrements.
abbrev lower : ℕ → ℤ → ℤ
lower zero z = z
lower (suc k) z = lower k (dec z)

lower_neg : (k : ℕ) (z : ℤ) → is_neg z ≡ true → is_neg (lower k z) ≡ true
lower_neg zero z h = h
lower_neg (suc k) (pos n) h = cc
lower_neg (suc k) (negsuc n) h = lower_neg k (negsuc (suc n)) refl

lower_pos : (k m n : ℕ) → n ≡ k + m → lower k (pos n) ≡ pos m
lower_pos zero m n e = ap pos (omega arith)
lower_pos (suc k) m zero e = absurd (omega arith)
lower_pos (suc k) m (suc n) e = lower_pos k m n (omega arith)

lower-eq : (a b : ℕ) (z : ℤ) → a ≡ b → lower a z ≡ lower b z
lower-eq a b z e = ap (λ (k : ℕ). lower k z) e

pos-eq : (a b : ℕ) → a ≡ b → pos a ≡ pos b
pos-eq a b e = ap pos e

lower-add : (a b : ℕ) (z : ℤ) → lower b (lower a z) ≡ lower (a + b) z
lower-add zero b z = lower-eq b (0 + b) z (omega arith)
lower-add (suc a) b z = lower-add a b (dec z) ∙ lower-eq (suc (a + b)) (suc a + b) z (omega arith)

count_depends-other :
    (id j : String) (ds : List String) (deg : Degrees)
    → str_eq id j ≡ false
    → count_depends id ds deg j ≡ deg j
unfolding count_depends put
count_depends-other id j [] deg h = refl
count_depends-other id j (d ∷ ds) deg h =
    count_depends-other id j ds (put id (inc (deg id)) deg) h ∙ rw h

outside_nil : (ds : List String) → outside [] ds ≡ length ds
unfolding contains
outside_nil [] = refl
outside_nil (d ∷ ds) = omega (arith, outside_nil ds)

count_depends_self :
    (id : String) (ds : List String) (deg : Degrees) (k : ℕ)
    → deg id ≡ pos k
    → count_depends id ds deg id ≡ pos (k + length ds)
unfolding count_depends put
count_depends_self id [] deg k h = h ∙ pos-eq k (k + 0) (omega arith)
count_depends_self id (d ∷ ds) deg k h =
    count_depends_self id ds (put id (inc (deg id)) deg) (suc k) (ground (arith, eq_iff id id))
    ∙ pos-eq _ _ (omega arith)

count_depends_at :
    (id j : String) (ds : List String) (deg : Degrees) (k : ℕ)
    → str_eq id j ≡ true
    → deg j ≡ pos k
    → count_depends id ds deg j ≡ pos (k + length ds)
count_depends_at id j ds deg k same =
    subst (λ x. deg x ≡ pos k → count_depends id ds deg x ≡ pos (k + length ds))
      ((eq_iff id j).0 same) (count_depends_self id ds deg k)

count_nodes_lem :
    (nodes : List Node) (deg : Degrees) (j : String) (k : ℕ)
    → deg j ≡ pos k
    → count_nodes nodes deg j ≡ pos (k + missing [] j nodes)
unfolding count_nodes
count_nodes_lem [] deg j k h = h ∙ pos-eq k (k + 0) (omega arith)
count_nodes_lem (n ∷ nodes) deg j k h = elim (Bool-cases (str_eq n.id j)) [
  | inl same ↦ rw same (
      count_nodes_lem nodes (count_depends n.id n.depends deg) j (k + length n.depends)
        (count_depends_at n.id j n.depends deg k same h)
      ∙ pos-eq _ _ (omega (arith, outside_nil n.depends)))
  | inr other ↦ rw other (
      count_nodes_lem nodes (count_depends n.id n.depends deg) j k
        (count_depends-other n.id j n.depends deg other ∙ h)
      ∙ pos-eq _ _ (omega arith))
]

mark_placed_lem :
    (layer : List String) (deg : Degrees) (j : String)
    → mark_placed layer deg j ≡ (if contains layer j then negsuc 0 else deg j)
unfolding mark_placed put contains
mark_placed_lem [] deg j = refl
mark_placed_lem (id ∷ rest) deg j =
    mark_placed_lem rest (put id (negsuc 0) deg) j ∙ ground (arith, eq_iff id j)

release_depends-other :
    (done : List String) (id j : String) (ds : List String) (deg : Degrees)
    → str_eq id j ≡ false
    → release_depends done id ds deg j ≡ deg j
unfolding release_depends put
release_depends-other done id j [] deg h = refl
release_depends-other done id j (d ∷ ds) deg h =
    release_depends-other done id j ds (if contains done d then put id (dec (deg id)) deg else deg)
      h
    ∙ ground arith

put_self : (id : String) (d : ℤ) (deg : Degrees) → put id d deg id ≡ d
unfolding put
put_self id d deg = ground (arith, eq_iff id id)

release_depends_self :
    (done : List String) (id : String) (ds : List String) (deg : Degrees)
    → release_depends done id ds deg id ≡ lower (inside done ds) (deg id)
unfolding release_depends put
release_depends_self done id [] deg = refl
release_depends_self done id (d ∷ ds) deg = elim (Bool-cases (contains done d)) [
  | inl hit ↦ rw hit (
      release_depends_self done id ds (put id (dec (deg id)) deg)
      ∙ ap (lower (inside done ds)) (put_self id (dec (deg id)) deg)
      ∙ lower-eq (suc (inside done ds)) (1 + inside done ds) (deg id) (omega arith))
  | inr miss ↦ rw miss (
      release_depends_self done id ds deg
      ∙ lower-eq (inside done ds) (0 + inside done ds) (deg id) (omega arith))
]

release_depends_at :
    (done : List String) (id j : String) (ds : List String) (deg : Degrees)
    → str_eq id j ≡ true
    → release_depends done id ds deg j ≡ lower (inside done ds) (deg j)
release_depends_at done id j ds deg same =
    subst (λ x. release_depends done id ds deg x ≡ lower (inside done ds) (deg x))
      ((eq_iff id j).0 same) (release_depends_self done id ds deg)

release_node :
    (done : List String) (id j : String) (ds : List String) (deg : Degrees)
    → (if contains done id then deg else release_depends done id ds deg) j ≡ (
        if contains done j
        then deg j
        else lower (if str_eq id j then inside done ds else 0) (deg j))
release_node done id j ds deg = elim (Bool-cases (str_eq id j)) [
  | inl same ↦
      let p = (eq_iff id j).0 same in
      ground (arith, p, same, ap (contains done) p, release_depends_at done id j ds deg same)
  | inr other ↦ rw other (ground (arith, release_depends-other done id j ds deg other))
]

release_lem :
    (done : List String) (nodes : List Node) (deg : Degrees) (j : String)
    → release done nodes deg j
      ≡ (if contains done j then deg j else lower (hits done j nodes) (deg j))
unfolding release
release_lem done [] deg j = ground arith
release_lem done (n ∷ nodes) deg j =
    let after : Degrees =
      if contains done n.id then deg else release_depends done n.id n.depends deg in
    let here = release_node done n.id j n.depends deg in
    let rest = release_lem done nodes after j in
    elim (Bool-cases (contains done j)) [
      | inl placed ↦ rest ∙ rw placed (rw placed at here)
      | inr waits ↦
          rest
          ∙ rw waits (
              ap (lower (hits done j nodes)) (rw waits at here)
              ∙ lower-add (if str_eq n.id j then inside done n.depends else 0) (hits done j nodes)
                  (deg j))
    ]

-- What the in-degrees say of a set of placed ids.
abbrev AgreesAt : List Node → List String → ℤ → String → Type 0
AgreesAt nodes placed z id =
    (contains placed id ≡ true → is_neg z ≡ true)
    × (contains placed id ≡ false → z ≡ pos (missing placed id nodes))

abbrev Agrees : List Node → List String → Degrees → Type 0
Agrees nodes placed deg = (id : String) → AgreesAt nodes placed (deg id) id

-- At the start nothing is placed.
Agrees-start : (nodes : List Node) → Agrees nodes [] (count_nodes nodes no_degrees)
unfolding contains
Agrees-start nodes id =
    (λ h. cc, λ h. count_nodes_lem nodes no_degrees id 0 refl ∙ pos-eq _ _ (omega arith))

is_zero_agrees :
    (nodes : List Node) (placed : List String) (z : ℤ) (id : String)
    → AgreesAt nodes placed z id
    → is_zero z ≡ (not (contains placed id) && (missing placed id nodes == 0))
is_zero_agrees nodes placed z id (old, new) = elim (Bool-cases (contains placed id)) [
  | inl h ↦ ground (arith, h, old h)
  | inr h ↦ rw (h, new h) (ground arith)
]

layer_of-ready :
    (nodes : List Node) (placed : List String) (deg : Degrees)
    → Agrees nodes placed deg
    → (rest : List Node) → layer_of rest deg ≡ ready nodes placed rest
unfolding layer_of ready
layer_of-ready nodes placed deg agrees [] = refl
layer_of-ready nodes placed deg agrees (n ∷ rest) =
    rw (is_zero_agrees nodes placed (deg n.id) n.id (agrees n.id))
      (rw (layer_of-ready nodes placed deg agrees rest))

-- The dependencies that a layer settles were missing before it, if none of it was placed.
abbrev IsFresh : List String → List String → Type 0
IsFresh placed layer = (d : String) → contains layer d ≡ true → contains placed d ≡ false

outside_split :
    (placed layer : List String)
    → IsFresh placed layer
    → (ds : List String) → outside placed ds ≡ inside layer ds + outside (placed ++ layer) ds
outside_split placed layer fresh [] = omega arith
outside_split placed layer fresh (d ∷ ds) =
    ground (arith, contains-append placed layer d, fresh d, outside_split placed layer fresh ds)

missing_split :
    (placed layer : List String)
    → IsFresh placed layer
    → (id : String) (nodes : List Node)
    → missing placed id nodes ≡ hits layer id nodes + missing (placed ++ layer) id nodes
missing_split placed layer fresh id [] = omega arith
missing_split placed layer fresh id (n ∷ nodes) =
    ground
      (arith, outside_split placed layer fresh n.depends, missing_split placed layer fresh id nodes)

place_value :
    (nodes : List Node) (layer : List String) (deg : Degrees) (id : String)
    → place nodes layer deg id
      ≡ (if contains layer id then negsuc 0 else lower (hits layer id nodes) (deg id))
unfolding place
place_value nodes layer deg id =
    let marked = mark_placed_lem layer deg id in
    elim (Bool-cases (contains layer id)) [
      | inl h ↦ release_lem layer nodes (mark_placed layer deg) id ∙ rw h (rw h at marked)
      | inr h ↦
          release_lem layer nodes (mark_placed layer deg) id
          ∙ rw h (ap (lower (hits layer id nodes)) (rw h at marked))
    ]

Agrees-place :
    (nodes : List Node) (placed layer : List String) (deg : Degrees)
    → IsFresh placed layer
    → Agrees nodes placed deg
    → Agrees nodes (placed ++ layer) (place nodes layer deg)
Agrees-place nodes placed layer deg fresh agrees id =
    rw (place_value nodes layer deg id, contains-append placed layer id)
      (elim (Bool-cases (contains layer id)) [
        | inl h ↦ rw h (λ _. refl, λ e. ground arith)
        | inr h ↦ rw h (
          λ e. lower_neg (hits layer id nodes) (deg id) ((agrees id).0 (ground arith)),
          λ e.
              ap (lower (hits layer id nodes)) ((agrees id).1 (ground arith))
              ∙ lower_pos (hits layer id nodes) (missing (placed ++ layer) id nodes)
                  (missing placed id nodes) (missing_split placed layer fresh id nodes),
        )
      ])

ready-IsFresh :
    (nodes : List Node) (placed : List String) (rest : List Node)
    → IsFresh placed (ready nodes placed rest)
unfolding ready contains
ready-IsFresh nodes placed [] d h = absurd (ground arith)
ready-IsFresh nodes placed (n ∷ rest) d h =
    ground (arith, eq_iff n.id d, ready-IsFresh nodes placed rest d)

rounds_step :
    (fuel : ℕ) (nodes : List Node) (placed : List String) (deg : Degrees)
    → ((p : List String) (d : Degrees)
        → Agrees nodes p d
        → rounds fuel nodes d ≡ levels fuel nodes p)
    → Agrees nodes placed deg
    → (layer : List String) → IsFresh placed layer
    → Path
        (Option (List (List String)))
        (elim layer [
          | [] ↦ some []
          | id ∷ rest ↦ elim (rounds fuel nodes (place nodes (id ∷ rest) deg)) [
            | none ↦ none
            | some ls ↦ some ((id ∷ rest) ∷ ls)
          ]
        ])
        (elim layer [
          | [] ↦ some []
          | id ∷ rest ↦ elim (levels fuel nodes (placed ++ (id ∷ rest))) [
            | none ↦ none
            | some ls ↦ some ((id ∷ rest) ∷ ls)
          ]
        ])
rounds_step fuel nodes placed deg ih agrees [] fresh = refl
rounds_step fuel nodes placed deg ih agrees (id ∷ rest) fresh = rw (
    ih (placed ++ (id ∷ rest)) (place nodes (id ∷ rest) deg)
      (Agrees-place nodes placed (id ∷ rest) deg fresh agrees))

rounds-levels :
    (fuel : ℕ) (nodes : List Node) (placed : List String) (deg : Degrees)
    → Agrees nodes placed deg
    → rounds fuel nodes deg ≡ levels fuel nodes placed
unfolding rounds levels
rounds-levels zero nodes placed deg agrees = refl
rounds-levels (suc fuel) nodes placed deg agrees =
    rw (layer_of-ready nodes placed deg agrees nodes, rounds)
      (rounds_step fuel nodes placed deg (rounds-levels fuel nodes) agrees
        (ready nodes placed nodes) (ready-IsFresh nodes placed nodes))

-- The layers by in-degrees are the layers by placed ids, on the same fuel.
pub layers-levels : (nodes : List Node) → layers nodes ≡ levels (suc (length nodes)) nodes []
unfolding layers
layers-levels nodes =
    rounds-levels (suc (length nodes)) nodes [] (count_nodes nodes no_degrees) (Agrees-start nodes)
