-- ===== src/Value/Float.antt =====
-- Go's float64, as its 64 bits, with the comparisons of IEEE 754.
use ktsu.Prelude.{
  ℕ, zero, suc, ◌+◌, ◌-◌, ◌*◌, ◌/◌, ◌%◌, ◌^◌, min, Bool, true, false, not, ◌&&◌, ◌||◌, ◌≡◌, refl,
  ltb, ◌==◌, if◌then◌else◌,
}

pub data Float64 : Type 0 where
  from_bits : ℕ → Float64

abbrev bits : Float64 → ℕ
bits (from_bits b) = b

-- The sign bit, and the exponent and fraction as one number.
is_negative : Float64 → Bool
is_negative f = (bits f / 9223372036854775808) % 2 == 1

magnitude : Float64 → ℕ
magnitude f = bits f % 9223372036854775808

is_nan : Float64 → Bool
unfolding magnitude
is_nan f = ltb 9218868437227405312 (magnitude f)

-- a < b
unfoldable pub float_lt : Float64 → Float64 → Bool
unfolding is_negative magnitude is_nan
float_lt a b =
    if is_nan a || is_nan b
    then false
    else if is_negative a
    then (if is_negative b
        then ltb (magnitude b) (magnitude a)
        else not (magnitude a == 0 && magnitude b == 0))
    else (if is_negative b then false else ltb (magnitude a) (magnitude b))

-- f == 0
unfoldable pub is_zero : Float64 → Bool
unfolding magnitude
is_zero f = magnitude f == 0

abbrev pub zero_float : Float64
zero_float = from_bits 0

-- The magnitude of a finite number in units of 2 ^ -1074.
scaled : ℕ → ℕ
scaled m =
    if m / 4503599627370496 == 0
    then m
    else (4503599627370496 + m % 4503599627370496) * 2 ^ (m / 4503599627370496 - 1)

-- The number of low bits beyond the 53 that a significand keeps.
excess : ℕ → ℕ → ℕ → ℕ
excess zero m k = k
excess (suc fuel) m k = let more = excess fuel m (k + 1) in if ltb m (2 ^ (53 + k)) then k else more

-- Round to nearest, ties to even: `q` significand bits, and `r` of `k` bits dropped.
round_half_even : ℕ → ℕ → ℕ → ℕ
round_half_even q r k = if ltb (2 ^ k) (2 * r) || (2 * r == 2 ^ k && q % 2 == 1) then q + 1 else q

-- The magnitude bits nearest to a number of such units; what is too large is infinite.
from_scaled : ℕ → ℕ
unfolding excess round_half_even
from_scaled m =
    let k = excess 2100 m 0 in
    min 9218868437227405312
      (k * 4503599627370496 + (if k == 0 then m else round_half_even (m / 2 ^ k) (m % 2 ^ k) k))

abbrev signed : Bool → ℕ → Float64
signed negative m = from_bits (if negative then 9223372036854775808 + m else m)

add_finite : Bool → ℕ → Bool → ℕ → Float64
unfolding from_scaled
add_finite true a true b = signed true (from_scaled (a + b))
add_finite false a false b = signed false (from_scaled (a + b))
add_finite true a false b =
    if ltb b a then signed true (from_scaled (a - b)) else signed false (from_scaled (b - a))
add_finite false a true b =
    if ltb a b then signed true (from_scaled (b - a)) else signed false (from_scaled (a - b))

is_infinite : Float64 → Bool
unfolding magnitude
is_infinite f = magnitude f == 9218868437227405312

pub is_finite : Float64 → Bool
unfolding is_nan is_infinite magnitude
is_finite f = not (is_nan f || is_infinite f)

same_sign : Float64 → Float64 → Bool
unfolding is_negative
same_sign a b = if is_negative a then is_negative b else not (is_negative b)

-- a + b
unfoldable pub float_add : Float64 → Float64 → Float64
unfolding is_nan is_infinite same_sign is_negative magnitude scaled add_finite
float_add a b =
    if is_nan a || is_nan b
    then from_bits 9221120237041090560
    else if is_infinite a && is_infinite b
    then (if same_sign a b then a else from_bits 9221120237041090560)
    else if is_infinite a
    then a
    else if is_infinite b
    then b
    else add_finite (is_negative a) (scaled (magnitude a)) (is_negative b) (scaled (magnitude b))

-- float64(n) of an integer n.
unfoldable pub from_ℕ : ℕ → Float64
unfolding from_scaled
from_ℕ n = from_bits (from_scaled (n * 2 ^ 1074))

-- 0.5 < 0.75, and -1.5 < 0.5.
float_lt_runs : float_lt (from_bits 4602678819172646912) (from_bits 4604930618986332160) ≡ true
unfolding float_lt
float_lt_runs = refl

float_lt_signs : float_lt (from_bits 13832806255468478464) (from_bits 4602678819172646912) ≡ true
unfolding float_lt
float_lt_signs = refl

-- 0.1 + 0.2 is 0.30000000000000004.
float_add_runs :
    float_add (from_bits 4591870180066957722) (from_bits 4596373779694328218)
    ≡ from_bits 4599075939470750516
unfolding float_add
float_add_runs = refl

-- 1 + 2 is 3, and 3 + -3 is 0.
float_add_small : float_add (from_ℕ 1) (from_ℕ 2) ≡ from_bits 4613937818241073152
unfolding float_add from_ℕ
float_add_small = refl

float_add_cancels : float_add (from_ℕ 3) (from_bits 13837309855095848960) ≡ zero_float
unfolding float_add from_ℕ
float_add_cancels = refl
