-- ===== src/Prelude/Map.antt =====
-- Go's `map[string]V` as a list of entries: the first entry of a key counts.
use Prim.Native.String.{String}
use mathlib.Core.Path.{◌≡◌, refl}
use mathlib.Core.Bool.{Bool, true, false}
use mathlib.Core.Option.{Option, none, some}
use mathlib.Core.List.{List, [], ◌∷◌}
use native.Mathlib.Omega.{arith}
use text.Mathlib.Text.{◌==◌ as str_eq}
use text.Mathlib.TextEquality.{eq_iff}
use ktsu.Prelude.Tests.{if◌then◌else◌}

abbrev pub Map {ℓ} : Type ℓ → Type ℓ
Map V = List (String × V)

abbrev pub is_some {ℓ} : {A : Type ℓ} → Option A → Bool
is_some none = false
is_some (some a) = true

module _ {ℓ} {V : Type ℓ} where
  -- v, ok := m[k]
  unfoldable pub lookup : String → Map V → Option V
  lookup k [] = none
  lookup k ((j, v) ∷ m) = if str_eq j k then some v else lookup k m

  -- m[key] = value
  unfoldable pub insert : String → V → Map V → Map V
  insert key value [] = (key, value) ∷ []
  insert key value ((old, was) ∷ others) =
      if str_eq old key then (key, value) ∷ others else (old, was) ∷ insert key value others

  -- for k, v := range m { if keep(k) { out[k] = v } }
  unfoldable pub filter_keys : (String → Bool) → Map V → Map V
  filter_keys keep [] = []
  filter_keys keep ((j, v) ∷ m) =
      let rest = filter_keys keep m in if keep j then (j, v) ∷ rest else rest

  pub lookup-insert :
      (key wanted : String) (value : V) (entries : Map V)
      → lookup wanted (insert key value entries)
        ≡ (if str_eq key wanted then some value else lookup wanted entries)
  unfolding insert lookup
  lookup-insert key wanted value [] = refl
  lookup-insert key wanted value ((old, was) ∷ others) =
      let rest = lookup-insert key wanted value others in
      ground (arith, rest, eq_iff old key, eq_iff old wanted, eq_iff key wanted)

  pub lookup-filter_keys :
      (keep : String → Bool) (k : String) (m : Map V)
      → lookup k (filter_keys keep m) ≡ (if keep k then lookup k m else none)
  unfolding lookup filter_keys
  lookup-filter_keys keep k [] = ground arith
  lookup-filter_keys keep k ((j, v) ∷ m) = ground (arith, eq_iff j k, lookup-filter_keys keep k m)
