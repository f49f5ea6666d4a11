-- ===== src/Output/Clean.antt =====
-- What leaves the two checks: no reserved field, everything else unchanged, the required fields there.
use ktsu.Prelude.{
  String, ◌≡◌, ◌≢◌, refl, ap, ◌∙◌, true, false, not, ◌&&◌, Option, none, some, List, [], ◌∷◌, arith,
  str_eq, eq_iff, if◌then◌else◌, Bool-cases, inl, inr, ◌↔◌, In, here, there,
}
use ktsu.Prelude.Map.{Map, lookup, is_some, filter_keys, lookup-filter_keys}
use ktsu.Prelude.Strings.{has_prefix}
use ktsu.Value.{Value, bool, str, as_bool, as_string, or_else}
use ktsu.Value.Float.{Float64, float_lt, zero_float}
use ktsu.Output.Reserved.{
  reserved_prefix, ReservedFields, clean, is_flagged, confidence_of, string_of, strip_reserved,
  extracted, process_reserved,
}
use ktsu.Output.Airlock.{
  valid, find_reserved, check_required, required_of, validate_input, validate,
}

-- Exactly the value `true` is a raised flag.
flagged_value :
    (o : Option Value)
    → ((elim o [ none ↦ false | some v ↦ or_else (as_bool v) false ]) ≡ true)
      ↔ (o ≡ some (bool true))
flagged_value none = ground arith
flagged_value (some (bool b)) = ground arith
flagged_value (some _) = ground arith

pub is_flagged_iff :
    (key : String) (raw : Map Value)
    → (is_flagged key raw ≡ true) ↔ (lookup key raw ≡ some (bool true))
unfolding is_flagged
is_flagged_iff key raw = flagged_value (lookup key raw)

pub process-clean :
    (raw : Map Value) (t : Float64) {out : Map Value} {r : ReservedFields} {s : String}
    → process_reserved raw t ≡ clean out r s
    → (out ≡ strip_reserved raw) × (r ≡ extracted raw) × (s ≡ string_of "ktsu_skip_reason" raw)
unfolding process_reserved
process-clean raw t h = ground arith

-- The accepted output maps no reserved key, and every other key to its value in the raw output.
pub lookup-process :
    (raw : Map Value) (t : Float64) (out : Map Value) (r : ReservedFields) (s : String)
    → process_reserved raw t ≡ clean out r s
    → (k : String) → lookup k out ≡ (if has_prefix k reserved_prefix then none else lookup k raw)
unfolding strip_reserved
lookup-process raw t out r s h k =
    rw (process-clean raw t h).0
      (lookup-filter_keys (λ j. not (has_prefix j reserved_prefix)) k raw ∙ ground arith)

find_reserved-strip : (raw : Map Value) → find_reserved (strip_reserved raw) ≡ none
unfolding find_reserved strip_reserved filter_keys
find_reserved-strip [] = refl
find_reserved-strip ((k, v) ∷ raw) = elim (Bool-cases (has_prefix k reserved_prefix)) [
  | inl e ↦ rw (e) (find_reserved-strip raw)
  | inr e ↦ rw e (rw e (find_reserved-strip raw))
]

-- Behind `process_reserved` the air-lock's test of reserved keys finds nothing: it decides as the check of the
-- required fields alone.
pub validate-process :
    (raw : Map Value) (t : Float64) (out : Map Value) (r : ReservedFields) (s : String)
    (schema : Option (Map Value))
    → process_reserved raw t ≡ clean out r s
    → validate out schema (some r) ≡ validate_input out schema
unfolding validate validate_input
validate-process raw t out r s schema h =
    let none_found : find_reserved out ≡ none =
      rw (process-clean raw t h).0 (find_reserved-strip raw) in
    rw (none_found, validate)

-- The output is accepted exactly if none of the four flags is `true` and the confidence, 0 where it
-- is no number, is not below a positive threshold.
pub process-accepts_iff :
    (raw : Map Value) (t : Float64)
    → ((out : Map Value) × (r : ReservedFields) × (s : String) × (process_reserved raw t
          ≡ clean out r s))
      ↔ ((lookup "ktsu_injection_attempt" raw ≢ some (bool true))
          × (lookup "ktsu_untrusted_content" raw ≢ some (bool true))
          × (lookup "ktsu_low_quality" raw ≢ some (bool true))
          × (lookup "ktsu_needs_human" raw ≢ some (bool true))
          × ((float_lt zero_float t && float_lt (confidence_of raw) t) ≡ false))
unfolding process_reserved
process-accepts_iff raw t = (
  λ (out, r, s, h). (
    λ e. ground (arith, is_flagged_iff "ktsu_injection_attempt" raw),
    λ e. ground (arith, is_flagged_iff "ktsu_untrusted_content" raw),
    λ e. ground (arith, is_flagged_iff "ktsu_low_quality" raw),
    λ e. ground (arith, is_flagged_iff "ktsu_needs_human" raw),
    ground arith,
  ),
  λ (a, b, c, d, e). (
    strip_reserved raw,
    extracted raw,
    string_of "ktsu_skip_reason" raw,
    ground (
      arith,
      is_flagged_iff "ktsu_injection_attempt" raw,
      is_flagged_iff "ktsu_untrusted_content" raw,
      is_flagged_iff "ktsu_low_quality" raw,
      is_flagged_iff "ktsu_needs_human" raw,
    ),
  ),
)

find_reserved-none :
    (m : Map Value)
    → find_reserved m ≡ none
    → (k : String) → is_some (lookup k m) ≡ true
    → has_prefix k reserved_prefix ≡ false
unfolding find_reserved lookup
find_reserved-none [] h k e = cc
find_reserved-none ((j, v) ∷ m) h k e = elim (Bool-cases (str_eq j k)) [
  | inl same ↦
      let p : j ≡ k = (eq_iff j k).0 same in
      ground (arith, ap (λ x. has_prefix x reserved_prefix) p)
  | inr other ↦ find_reserved-none m (ground arith) k (ground arith)
]

none-find_reserved :
    (m : Map Value)
    → ((k : String) → is_some (lookup k m) ≡ true → has_prefix k reserved_prefix ≡ false)
    → find_reserved m ≡ none
unfolding find_reserved lookup
none-find_reserved [] h = refl
none-find_reserved ((j, v) ∷ m) h =
    let rest = none-find_reserved m (λ k e. h k (ground arith)) in
    let first : has_prefix j reserved_prefix ≡ false = h j (ground (arith, eq_iff j j)) in
    rw first rest

check_required-valid :
    (out : Map Value) (required : List Value)
    → check_required out required ≡ valid
    → {v : Value} → In v required
    → is_some (lookup (or_else (as_string v) "") out) ≡ true
unfolding check_required
check_required-valid out [] h m = elim m [ ]
check_required-valid out (r ∷ required) h (here e) = rw e (ground arith)
check_required-valid out (r ∷ required) h (there m) =
    check_required-valid out required (ground arith) m

valid-check_required :
    (out : Map Value) (required : List Value)
    → ((v : Value) → In v required → is_some (lookup (or_else (as_string v) "") out) ≡ true)
    → check_required out required ≡ valid
unfolding check_required
valid-check_required out [] h = refl
valid-check_required out (r ∷ required) h =
    rw (h r (here refl)) (valid-check_required out required (λ v m. h v (there m)))

validate-valid :
    (out : Map Value) (schema : Option (Map Value)) (reserved : Option ReservedFields)
    → validate out schema reserved ≡ valid
    → (find_reserved out ≡ none) × (check_required out (required_of schema) ≡ valid)
unfolding validate
validate-valid out schema reserved h = ground arith

-- The air-lock accepts exactly the outputs without a reserved key that have every required field;
-- an entry of `required` that is no string asks for the key "".
pub validate_iff :
    (out : Map Value) (schema : Option (Map Value)) (reserved : Option ReservedFields)
    → (validate out schema reserved ≡ valid) ↔ (
        ((k : String) → is_some (lookup k out) ≡ true → has_prefix k reserved_prefix ≡ false)
        × ((v : Value)
            → In v (required_of schema)
            → is_some (lookup (or_else (as_string v) "") out) ≡ true))
unfolding validate
validate_iff out schema reserved = (
  λ h.
      let (clear, met) = validate-valid out schema reserved h in
      (find_reserved-none out clear, λ v m. check_required-valid out (required_of schema) met m),
  λ (clear, met).
      rw (none-find_reserved out clear, validate)
        (valid-check_required out (required_of schema) met),
)

-- A reserved field among the required ones can never be met: the run of the two checks fails.
pub required_reserved_fails :
    (raw : Map Value) (t : Float64) (out : Map Value) (r : ReservedFields) (s k : String)
    (schema : Option (Map Value))
    → process_reserved raw t ≡ clean out r s
    → has_prefix k reserved_prefix ≡ true
    → In (str k) (required_of schema)
    → validate out schema (some r) ≢ valid
required_reserved_fails raw t out r s k schema h reserved asked ok_ =
    let found = ((validate_iff out schema (some r)).0 ok_).1 (str k) asked in
    ground (arith, lookup-process raw t out r s h k)
