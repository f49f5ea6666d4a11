-- ===== src/Runner/Template.antt =====
-- interpolateTemplates of internal/orchestrator/runner/expr.go, with its regular expression
-- \{\{\s*(.+?)\s*\}\} as a scanner, and scrubString of runner.go.
use Prim.Native.Char.{code}
use Prim.Native.String.{String, ◌++◌ as append}
use ktsu.Prelude.{
  ℕ, zero, suc, ◌+◌, ◌-◌, ◌==◌, Bool, ◌||◌, Option, none, some, List, [], ◌∷◌, str_eq,
  if◌then◌else◌,
}
use ktsu.Prelude.Map.{Map}
use ktsu.Prelude.Strings.{cut_prefix, has_prefix}
use ktsu.Prelude.Answer.{Answer, got, failed}
use ktsu.Value.{Value, null}
use ktsu.Runner.Expr.{Library, evaluate, drop_chars}

abbrev pub text_length : String → ℕ
text_length String.[] = 0
text_length (String.◌∷◌ c s) = suc (text_length s)

-- \s of package regexp.
abbrev is_blank : ℕ → Bool
is_blank c = c == 32 || c == 9 || c == 10 || c == 12 || c == 13

unfoldable pub blanks : String → ℕ
blanks String.[] = 0
blanks (String.◌∷◌ c s) = let rest = blanks s in if is_blank (code c) then suc rest else 0

-- The length of \s*\}\} at the head, 0 for no match.
abbrev closing : String → ℕ
closing s = if has_prefix (drop_chars (blanks s) s) "}}" then blanks s + 2 else 0

-- The shortest text without a line break that is not empty and that a closing follows: what it
-- is, and the length with the closing.
abbrev add_char : String → Option (String × ℕ) → Option (String × ℕ)
add_char c none = none
add_char c (some (inner, n)) = some (append c inner, suc n)

unfoldable pub shortest : String → Option (String × ℕ)
shortest String.[] = none
shortest (String.◌∷◌ c s) =
    let first = String.◌∷◌ c String.[] in
    let longer = add_char first (shortest s) in
    if code c == 10 then none else if closing s == 0 then longer else some (first, suc (closing s))

-- With all blanks skipped or, where that gives no match, all but the last that is no line break.
abbrev matched : ℕ → Option (String × ℕ) → Option (String × ℕ) → Option (String × ℕ)
matched n (some (inner, m)) other = some (inner, n + m)
matched n none other = other

unfoldable pub last_blank : ℕ → String → Option (String × ℕ)
last_blank n String.[] = none
last_blank n (String.◌∷◌ c s) =
    let later = last_blank (suc n) s in
    let here_ =
      if code c == 10 || closing s == 0
      then none
      else some (String.◌∷◌ c String.[], n + suc (closing s)) in
    if is_blank (code c) then matched 0 later here_ else none

unfoldable pub template_body : String → Option (String × ℕ)
template_body s = matched (blanks s) (shortest (drop_chars (blanks s) s)) (last_blank 0 s)

abbrev and_body : Option String → Option (String × ℕ)
and_body none = none
and_body (some rest) = template_body rest

-- A template at the head: its expression, and the length behind the first brace.
unfoldable pub template_at : String → Option (String × ℕ)
template_at s = and_body (cut_prefix s "{{")

-- The text so far, and the error of the last expression that failed.
abbrev shown : Library → Answer Value → String × Option String → String × Option String
shown lib (failed e) (text, none) = (text, some e)
shown lib (failed e) (text, some later) = (text, some later)
shown lib (got null) (text, e) = (text, e)
shown lib (got v) (text, e) = (append (lib.show v) text, e)

abbrev kept_char : String → String × Option String → String × Option String
kept_char c (text, e) = (append c text, e)

abbrev replaced :
    Library
    → Map Value
    → Option (String × ℕ)
    → String
    → (ℕ → String × Option String)
    → String × Option String
replaced lib ctx none c rest = kept_char c (rest 0)
replaced lib ctx (some (expr, n)) c rest = shown lib (evaluate lib expr ctx) (rest (suc n))

-- `left` characters of a match are still to be passed over.
unfoldable pub interpolate_from : Library → Map Value → ℕ → String → String × Option String
interpolate_from lib ctx left String.[] = (String.[], none)
interpolate_from lib ctx (suc left) (String.◌∷◌ c s) = interpolate_from lib ctx left s
interpolate_from lib ctx zero (String.◌∷◌ c s) =
    replaced lib ctx (template_at (String.◌∷◌ c s)) (String.◌∷◌ c String.[])
      (λ n. interpolate_from lib ctx n s)

abbrev or_error : String × Option String → Answer String
or_error (text, none) = got text
or_error (text, some e) = failed e

-- interpolateTemplates(s, ctx)
unfoldable pub interpolate_templates : Library → String → Map Value → Answer String
interpolate_templates lib s ctx = or_error (interpolate_from lib ctx 0 s)

-- strings.ReplaceAll(s, old, "[REDACTED]") for an `old` that is not empty.
unfoldable pub redact_from : ℕ → String → String → String
redact_from left old String.[] = String.[]
redact_from (suc left) old (String.◌∷◌ c s) = redact_from left old s
redact_from zero old (String.◌∷◌ c s) =
    let keep = redact_from zero old s in
    let skip = redact_from (text_length old - 1) old s in
    if has_prefix (String.◌∷◌ c s) old then append "[REDACTED]" skip else String.◌∷◌ c keep

-- scrubString(s, secrets)
unfoldable pub scrub_string : String → List String → String
scrub_string s [] = s
scrub_string s (secret ∷ secrets) =
    scrub_string (if str_eq secret "" then s else redact_from 0 secret s) secrets
