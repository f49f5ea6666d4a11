-- ===== src/State/Json.antt =====
-- json.Unmarshal behind json.Marshal, as copyRun applies them to a payload: every number comes back
-- as a float64 and every slice as []interface{}; NaN and the infinities have no encoding.
use ktsu.Prelude.{String, true, false, Option, none, some, List, [], ◌∷◌}
use ktsu.Prelude.Map.{Map}
use ktsu.Value.{
  Value, null, bool, float, int, str, strs, arr, obj, Values, nil, cons, Fields, end, field,
  entries, fields,
}
use ktsu.Value.Float.{is_finite, from_ℕ}

abbrev texts : List String → Values
texts [] = nil
texts (s ∷ ss) = cons (str s) (texts ss)

abbrev join {ℓ} : {A B C : Type ℓ} → (A → B → C) → Option A → Option B → Option C
join f none b = none
join f (some a) none = none
join f (some a) (some b) = some (f a b)

unfoldable mutual
  pub reencode : Value → Option Value
  reencode null = some null
  reencode (bool b) = some (bool b)
  reencode (float f) = elim (is_finite f) [ true ↦ some (float f) | false ↦ none ]
  reencode (int n) = some (float (from_ℕ n))
  reencode (str s) = some (str s)
  reencode (strs ss) = some (arr (texts ss))
  reencode (arr vs) = elim (reencode_items vs) [ none ↦ none | some ws ↦ some (arr ws) ]
  reencode (obj fs) = elim (reencode_fields fs) [ none ↦ none | some gs ↦ some (obj gs) ]

  pub reencode_items : Values → Option Values
  reencode_items nil = some nil
  reencode_items (cons v vs) = join cons (reencode v) (reencode_items vs)

  pub reencode_fields : Fields → Option Fields
  reencode_fields end = some end
  reencode_fields (field k v fs) = join (field k) (reencode v) (reencode_fields fs)

-- The payload of a copied run: a nil payload stays nil, and one without an encoding stays as it is.
unfoldable pub copy_payload : Option (Map Value) → Option (Map Value)
copy_payload none = none
copy_payload (some m) = elim (reencode_fields (fields m)) [
  | none ↦ some m
  | some fs ↦ some (entries fs)
]
