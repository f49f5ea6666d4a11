-- ===== src/Runner/Transform/Merged.antt =====
-- What the merge and the deduplication of a transform keep (deepMerge and applyDeduplicate of
-- internal/orchestrator/runner/runner.go).
use Prim.Native.String.{String}
use mathlib.Core.List.{Sublist}
use mathlib.Core.List.Sublist
use ktsu.Prelude.{
  ◌≡◌, refl, sym, ap, ◌∙◌, Bool, true, false, not, ◌&&◌, Option, none, some, List, [], ◌∷◌, arith,
  str_eq, eq_iff, contains, ◌++◌, subst, false, if◌then◌else◌, Bool-cases, inl, inr,
}
use ktsu.Value.{
  Value, null, bool, float, int, str, strs, Values, nil, cons, Fields, end, field, arr, obj, items,
  values,
}
use ktsu.Runner.Expr.{Library}
use ktsu.Runner.Transform.{find_field, put_field, append_values, deep_merge, merge_fields}
use ktsu.Runner.Transform.Ops.{dedupe, dedupe_key, apply_deduplicate}

find-put :
    (k j : String) (v : Value) (fs : Fields)
    → find_field j (put_field k v fs) ≡ (if str_eq k j then some v else find_field j fs)
find-put k j v end = refl
find-put k j v (field i w fs) =
    ground (arith, find-put k j v fs, eq_iff i k, eq_iff i j, eq_iff k j)

-- Every key of the fields comes once.
abbrev AreDistinct : Fields → Type 0
AreDistinct end = Unit
AreDistinct (field k v fs) = (find_field k fs ≡ none) × AreDistinct fs

abbrev pub is_obj : Value → Bool
is_obj (obj fs) = true
is_obj _ = false

abbrev pub is_arr : Value → Bool
is_arr (arr vs) = true
is_arr _ = false

-- Both values merged, or the one that there is.
abbrev merged : Option Value → Option Value → Option Value
merged g none = g
merged none (some v) = some v
merged (some w) (some v) = some (deep_merge w v)

merged_into :
    (g : Option Value) (v : Value)
    → some (elim g [ none ↦ v | some w ↦ deep_merge w v ]) ≡ merged g (some v)
merged_into none v = refl
merged_into (some w) v = refl

merge_fields-find :
    (gs fs : Fields)
    → AreDistinct fs
    → (k : String) → find_field k (merge_fields gs fs) ≡ merged (find_field k gs) (find_field k fs)
unfolding merge_fields
merge_fields-find gs end h k = refl
merge_fields-find gs (field j v fs) (fresh, h) k =
    let u : Value = elim (find_field j gs) [ none ↦ v | some w ↦ deep_merge w v ] in
    merge_fields-find (put_field j u gs) fs h k
    ∙ rw (find-put j k u gs) (elim (Bool-cases (str_eq j k)) [
      | inl e ↦
          let same : k ≡ j = sym ((eq_iff j k).0 e) in
          rw (e, same, fresh) (merged_into (find_field j gs) v)
      | inr e ↦ rw e refl
    ])

-- What the merge of two values promises. Objects: a key of both has its values merged, a key of one
-- has its value, no other key is there. Arrays: the items of the first one, then those of
-- the second. Any other two values: the second one.
mutual
  pub data IsMerge : Value → Value → Value → Type 0 where
    of_objects :
        {gs fs hs : Fields}
        → ((k : String) → IsMergeAt (find_field k gs) (find_field k fs) (find_field k hs))
        → IsMerge (obj gs) (obj fs) (obj hs)
    of_arrays :
        {xs ys zs : Values} → items zs ≡ items xs ++ items ys → IsMerge (arr xs) (arr ys) (arr zs)
    second_wins :
        {a b : Value}
        → (is_obj b && is_obj a) ≡ false
        → (is_arr b && is_arr a) ≡ false
        → IsMerge a b b

  pub data IsMergeAt : Option Value → Option Value → Option Value → Type 0 where
    in_neither : IsMergeAt none none none
    in_first : {a : Value} → IsMergeAt (some a) none (some a)
    in_second : {b : Value} → IsMergeAt none (some b) (some b)
    in_both : {a b c : Value} → IsMerge a b c → IsMergeAt (some a) (some b) (some c)

unfoldable mutual
  -- An object has every key once, and so have the objects inside it at any depth, those in arrays
  -- aside.
  pub IsDistinct : Value → Type 0
  IsDistinct (obj fs) = AreAllDistinct fs
  IsDistinct _ = Unit

  pub AreAllDistinct : Fields → Type 0
  AreAllDistinct end = Unit
  AreAllDistinct (field k v fs) = (find_field k fs ≡ none) × IsDistinct v × AreAllDistinct fs

AreAllDistinct-AreDistinct : (fs : Fields) → AreAllDistinct fs → AreDistinct fs
unfolding AreAllDistinct
AreAllDistinct-AreDistinct end h = tt
AreAllDistinct-AreDistinct (field k v fs) (fresh, _, h) = (fresh, AreAllDistinct-AreDistinct fs h)

items-append_values : (xs ys : Values) → items (append_values xs ys) ≡ items xs ++ items ys
unfolding items
items-append_values nil ys = refl
items-append_values (cons x xs) ys = ap (λ zs. x ∷ zs) (items-append_values xs ys)

mutual
  unfolding IsDistinct AreAllDistinct deep_merge

  deep_merge-IsMerge : (a b : Value) → IsDistinct b → IsMerge a b (deep_merge a b)
  deep_merge-IsMerge (obj gs) (obj fs) h = of_objects (λ k.
      subst (IsMergeAt (find_field k gs) (find_field k fs))
        (sym (merge_fields-find gs fs (AreAllDistinct-AreDistinct fs h) k))
        (merged-IsMergeAt (find_field k gs) fs h k))
  deep_merge-IsMerge (arr xs) (arr ys) h = of_arrays (items-append_values xs ys)
  deep_merge-IsMerge _ (obj fs) h = second_wins refl refl
  deep_merge-IsMerge _ (arr ys) h = second_wins refl refl
  deep_merge-IsMerge a null h = second_wins refl refl
  deep_merge-IsMerge a (bool b) h = second_wins refl refl
  deep_merge-IsMerge a (float f) h = second_wins refl refl
  deep_merge-IsMerge a (int n) h = second_wins refl refl
  deep_merge-IsMerge a (str s) h = second_wins refl refl
  deep_merge-IsMerge a (strs ss) h = second_wins refl refl

  merged-IsMergeAt :
      (g : Option Value) (fs : Fields)
      → AreAllDistinct fs
      → (k : String) → IsMergeAt g (find_field k fs) (merged g (find_field k fs))
  merged-IsMergeAt none end h k = in_neither
  merged-IsMergeAt (some w) end h k = in_first
  merged-IsMergeAt none (field j v fs) (_, inner, h) k = elim (Bool-cases (str_eq j k)) [
    | inl e ↦ rw e in_second
    | inr e ↦ rw e (merged-IsMergeAt none fs h k)
  ]
  merged-IsMergeAt (some w) (field j v fs) (_, inner, h) k = elim (Bool-cases (str_eq j k)) [
    | inl e ↦ rw e (in_both (deep_merge-IsMerge w v inner))
    | inr e ↦ rw e (merged-IsMergeAt (some w) fs h k)
  ]

-- The merge of two values: objects are merged key by key, a key of both with its values merged in the
-- same way and a key of one with its value; two arrays are appended, the first one's items
-- first; of any other two values the second one is the result. The second value
-- and every object that it reaches through objects have every key once.
pub deep_merge_lem : (a b : Value) → IsDistinct b → IsMerge a b (deep_merge a b)
deep_merge_lem = deep_merge-IsMerge

abbrev pub keys : (Value → String) → List Value → List String
keys key [] = []
keys key (x ∷ xs) = key x ∷ keys key xs

-- No key comes twice.
abbrev pub AllDistinct : List String → Type 0
AllDistinct [] = Unit
AllDistinct (k ∷ ks) = (contains ks k ≡ false) × AllDistinct ks

module _ (key : Value → String) where
  same_seen :
      (seen : List String) (x : Value) (k : String)
      → str_eq (key x) k ≡ true
      → contains seen k ≡ contains seen (key x)
  same_seen seen x k h = ap (contains seen) (sym ((eq_iff (key x) k).0 h))

  keys-dedupe :
      (seen : List String) (xs : List Value) (k : String)
      → contains (keys key (dedupe key seen xs)) k
        ≡ (contains (keys key xs) k && not (contains seen k))
  unfolding dedupe contains
  keys-dedupe seen [] k = refl
  keys-dedupe seen (x ∷ xs) k = elim (Bool-cases (contains seen (key x))) [
    | inl e ↦ rw e (ground (arith, keys-dedupe seen xs k, e, same_seen seen x k))
    | inr e ↦ rw e (ground (arith, keys-dedupe (key x ∷ seen) xs k, e, same_seen seen x k))
  ]

  dedupe-AllDistinct :
      (seen : List String) (xs : List Value) → AllDistinct (keys key (dedupe key seen xs))
  unfolding dedupe
  dedupe-AllDistinct seen [] = tt
  dedupe-AllDistinct seen (x ∷ xs) = elim (Bool-cases (contains seen (key x))) [
    | inl e ↦ rw e (dedupe-AllDistinct seen xs)
    | inr e ↦ rw e (
      keys-dedupe (key x ∷ seen) xs (key x)
          ∙ unfold contains in ground (arith, eq_iff (key x) (key x)),
      dedupe-AllDistinct (key x ∷ seen) xs,
    )
  ]

  dedupe-Sublist : (seen : List String) (xs : List Value) → Sublist (dedupe key seen xs) xs
  unfolding dedupe
  dedupe-Sublist seen [] = Sublist.refl []
  dedupe-Sublist seen (x ∷ xs) = elim (Bool-cases (contains seen (key x))) [
    | inl e ↦ rw e (Sublist.cons x (dedupe-Sublist seen xs))
    | inr e ↦ rw e (Sublist.cons-cons x (dedupe-Sublist (key x ∷ seen) xs))
  ]

-- Deduplicating a list keeps some of its elements in their order, exactly one for every value of the key.
pub apply_deduplicate_lem :
    (lib : Library) (vs : Values) (name : String)
    → (ys : List Value) × (apply_deduplicate lib (arr vs) name ≡ arr (values ys))
      × Sublist ys (items vs)
      × AllDistinct (keys (dedupe_key lib name) ys)
      × ((k : String)
          → contains (keys (dedupe_key lib name) ys) k
            ≡ contains (keys (dedupe_key lib name) (items vs)) k)
unfolding apply_deduplicate
apply_deduplicate_lem lib vs name =
    let key : Value → String = dedupe_key lib name in
    (
      dedupe key [] (items vs),
      refl,
      dedupe-Sublist key [] (items vs),
      dedupe-AllDistinct key [] (items vs),
      λ k. keys-dedupe key [] (items vs) k ∙ unfold contains in ground arith,
    )
