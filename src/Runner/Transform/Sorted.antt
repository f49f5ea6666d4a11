-- ===== src/Runner/Transform/Sorted.antt =====
-- The elements of a sorted list and their order (applySort of
-- internal/orchestrator/runner/runner.go).
use Prim.Native.String.{String}
use mathlib.Core.List.{Perm, perm_middle, append-nil}
use mathlib.Core.List.Perm
use ktsu.Prelude.{
  ◌≡◌, refl, subst, Bool, true, false, List, [], ◌∷◌, ◌++◌, arith, str_eq, if◌then◌else◌,
  Bool-cases, inl, inr,
}
use ktsu.Prelude.Answer.{got}
use ktsu.Value.{Value, Values, arr, items, values}
use ktsu.Runner.Expr.{Library}
use ktsu.Runner.Transform.Ops.{
  extract_field, compare_values, comes_before, insert_back, insert_each, reversed, slice_stable,
  apply_sort,
}
use ktsu.Runner.Transform.Order.{compare_values-asymmetric}

-- No two neighbours are out of order.
abbrev pub Follows : (Value → Value → Bool) → Value → List Value → Type 0
Follows wrong x [] = Unit
Follows wrong x (y ∷ ys) = wrong x y ≡ false

abbrev pub InOrder : (Value → Value → Bool) → List Value → Type 0
InOrder wrong [] = Unit
InOrder wrong (x ∷ xs) = Follows wrong x xs × InOrder wrong xs

module _ (before wrong : Value → Value → Bool)
    (right : (x y : Value) → before x y ≡ true → wrong x y ≡ false)
    (left : (x y : Value) → before x y ≡ false → wrong y x ≡ false) where
  -- The same for a list that is kept last element first.
  abbrev IsAbove : Value → List Value → Type 0
  IsAbove y [] = Unit
  IsAbove y (z ∷ zs) = wrong z y ≡ false

  abbrev Backwards : List Value → Type 0
  Backwards [] = Unit
  Backwards (y ∷ ys) = IsAbove y ys × Backwards ys

  insert_back-IsAbove :
      (x y : Value) (ys : List Value)
      → wrong x y ≡ false
      → IsAbove y ys
      → IsAbove y (insert_back before x ys)
  unfolding insert_back
  insert_back-IsAbove x y [] h above = h
  insert_back-IsAbove x y (z ∷ zs) h above = elim (Bool-cases (before x z)) [
    | inl e ↦ rw e above
    | inr e ↦ rw e h
  ]

  insert_back-Backwards :
      (x : Value) (ys : List Value) → Backwards ys → Backwards (insert_back before x ys)
  unfolding insert_back
  insert_back-Backwards x [] h = (tt, tt)
  insert_back-Backwards x (y ∷ ys) (above, h) = elim (Bool-cases (before x y)) [
    | inl e ↦ rw e (insert_back-IsAbove x y ys (right x y e) above, insert_back-Backwards x ys h)
    | inr e ↦ rw e (left x y e, (above, h))
  ]

  insert_each-Backwards :
      (xs back : List Value) → Backwards back → Backwards (insert_each before xs back)
  unfolding insert_each
  insert_each-Backwards [] back h = h
  insert_each-Backwards (x ∷ xs) back h =
      insert_each-Backwards xs (insert_back before x back) (insert_back-Backwards x back h)

  reversed-InOrder :
      (x : Value) (xs acc : List Value)
      → Backwards (x ∷ xs)
      → InOrder wrong (x ∷ acc)
      → InOrder wrong (reversed xs (x ∷ acc))
  reversed-InOrder x [] acc h k = k
  reversed-InOrder x (y ∷ ys) acc (above, h) k = reversed-InOrder y ys (x ∷ acc) h (above, k)

  back-InOrder : (ys : List Value) → Backwards ys → InOrder wrong (reversed ys [])
  back-InOrder [] h = tt
  back-InOrder (y ∷ ys) h = reversed-InOrder y ys [] h (tt, tt)

  slice_stable-InOrder : (xs : List Value) → InOrder wrong (slice_stable before xs)
  unfolding slice_stable
  slice_stable-InOrder xs = back-InOrder (insert_each before xs []) (insert_each-Backwards xs [] tt)

module _ (before : Value → Value → Bool) where
  insert_back-Perm : (x : Value) (ys : List Value) → Perm (insert_back before x ys) (x ∷ ys)
  unfolding insert_back
  insert_back-Perm x [] = Perm.refl (x ∷ [])
  insert_back-Perm x (y ∷ ys) = elim (Bool-cases (before x y)) [
    | inl e ↦ rw e (Perm.trans (Perm.cons y (insert_back-Perm x ys)) (Perm.swap x y ys))
    | inr e ↦ rw e (Perm.refl (x ∷ y ∷ ys))
  ]

  insert_each-Perm : (xs back : List Value) → Perm (insert_each before xs back) (xs ++ back)
  unfolding insert_each
  insert_each-Perm [] back = Perm.refl back
  insert_each-Perm (x ∷ xs) back =
      Perm.trans (insert_each-Perm xs (insert_back before x back))
        (Perm.trans (Perm.append_left xs (insert_back-Perm x back)) (perm_middle xs back))

  reversed-Perm : (xs acc : List Value) → Perm (reversed xs acc) (xs ++ acc)
  reversed-Perm [] acc = Perm.refl acc
  reversed-Perm (x ∷ xs) acc = Perm.trans (reversed-Perm xs (x ∷ acc)) (perm_middle xs acc)

  slice_stable-Perm : (xs : List Value) → Perm (slice_stable before xs) xs
  unfolding slice_stable
  slice_stable-Perm xs =
      let back = insert_each before xs [] in
      let spun : Perm (reversed back []) back =
        subst (λ l. Perm (reversed back []) l) (append-nil back) (reversed-Perm back []) in
      let same : Perm back xs = subst (λ l. Perm back l) (append-nil xs) (insert_each-Perm xs []) in
      Perm.trans spun same

-- Whether an element may not stand right before another: the later field is smaller than the earlier one, or in
-- descending order the earlier one smaller than the later.
abbrev pub is_wrong : Library → String → String → Value → Value → Bool
is_wrong lib name order x y =
    if str_eq order "desc"
    then compare_values lib (extract_field lib x name) (extract_field lib y name)
    else compare_values lib (extract_field lib y name) (extract_field lib x name)

-- The sort of a list gives a list of the same elements, of which no neighbours are out of order: by the
-- named field, a field is never smaller than the one before, and in descending order never greater.
pub apply_sort_lem :
    (lib : Library) (vs : Values) (name order : String)
    → (ys : List Value) × (apply_sort lib (arr vs) name order ≡ got (arr (values ys)))
      × Perm ys (items vs)
      × InOrder (is_wrong lib name order) ys
unfolding apply_sort comes_before
apply_sort_lem lib vs name order =
    let field : Value → Value = λ x. extract_field lib x name in
    (
      slice_stable (comes_before lib name order) (items vs),
      refl,
      slice_stable-Perm (comes_before lib name order) (items vs),
      slice_stable-InOrder (comes_before lib name order) (is_wrong lib name order)
          (λ x y e. ground (arith, compare_values-asymmetric lib (field x) (field y)))
          (λ x y e. ground (arith, compare_values-asymmetric lib (field x) (field y))) (items vs),
    )
