-- ===== src/Runner/Transform/Order.antt =====
-- The comparison of two values both ways round (compareValues of internal/orchestrator/runner/runner.go).
use Prim.Native.Nat.{Ordering, compare as compare_ℕ}
use Prim.Native.Nat.compare.{zero-suc, suc-zero, suc-suc}
use Prim.Native.Char.{code}
use Prim.Native.String.{String, then, compare}
use Prim.Native.String.compare.{nil-cons, cons-nil, cons-cons}
use ktsu.Prelude.{ℕ, zero, suc, ◌≡◌, refl, true, false, Option, none, some, arith}
use ktsu.Value.{Value}
use ktsu.Value.Float.{Float64, float_lt}
use ktsu.Runner.Expr.{Library}
use ktsu.Runner.Transform.Ops.{to_float64, text_lt, less_by, compare_values}

abbrev flip : Ordering → Ordering
flip Ordering.lt = Ordering.gt
flip Ordering.eq = Ordering.eq
flip Ordering.gt = Ordering.lt

compare_ℕ-flip : (m n : ℕ) → compare_ℕ n m ≡ flip (compare_ℕ m n)
compare_ℕ-flip zero zero = refl
compare_ℕ-flip zero (suc n) = rw (zero-suc n, suc-zero n) refl
compare_ℕ-flip (suc m) zero = rw (zero-suc m, suc-zero m) refl
compare_ℕ-flip (suc m) (suc n) = rw (suc-suc m n, suc-suc n m) (compare_ℕ-flip m n)

then-flip : (o p : Ordering) → then (flip o) (flip p) ≡ flip (then o p)
then-flip Ordering.lt p = refl
then-flip Ordering.eq p = refl
then-flip Ordering.gt p = refl

compare-flip : (s t : String) → compare t s ≡ flip (compare s t)
compare-flip String.[] String.[] = refl
compare-flip String.[] (String.◌∷◌ d t) = rw (cons-nil d t, nil-cons d t) refl
compare-flip (String.◌∷◌ c s) String.[] = rw (cons-nil c s, nil-cons c s) refl
compare-flip (String.◌∷◌ c s) (String.◌∷◌ d t) =
    rw (cons-cons c d s t, cons-cons d c t s, compare_ℕ-flip (code c) (code d), compare-flip s t)
      (then-flip (compare_ℕ (code c) (code d)) (compare s t))

flip-asymmetric :
    (o p : Ordering)
    → p ≡ flip o
    → (elim o [ Ordering.lt ↦ true | _ ↦ false ]) ≡ true
    → (elim p [ Ordering.lt ↦ true | _ ↦ false ]) ≡ false
flip-asymmetric Ordering.lt p e h = rw e refl
flip-asymmetric Ordering.eq p e h = absurd cc
flip-asymmetric Ordering.gt p e h = absurd cc

text_lt-asymmetric : (s t : String) → text_lt s t ≡ true → text_lt t s ≡ false
text_lt-asymmetric s t h = flip-asymmetric (compare s t) (compare t s) (compare-flip s t) h

float_lt-asymmetric : (f g : Float64) → float_lt f g ≡ true → float_lt g f ≡ false
unfolding float_lt
float_lt-asymmetric f g h = ground arith

less_by-asymmetric :
    (f g : Option Float64) (s t : String) → less_by f g s t ≡ true → less_by g f t s ≡ false
less_by-asymmetric (some f) (some g) s t h = float_lt-asymmetric f g h
less_by-asymmetric (some f) none s t h = text_lt-asymmetric s t h
less_by-asymmetric none (some g) s t h = text_lt-asymmetric s t h
less_by-asymmetric none none s t h = text_lt-asymmetric s t h

-- compareValues never holds both ways round.
pub compare_values-asymmetric :
    (lib : Library) (a b : Value) → compare_values lib a b ≡ true → compare_values lib b a ≡ false
unfolding compare_values
compare_values-asymmetric lib a b h =
    ground (arith, less_by-asymmetric (to_float64 a) (to_float64 b) (lib.show a) (lib.show b))
