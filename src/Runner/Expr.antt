-- ===== src/Runner/Expr.antt =====
-- internal/orchestrator/runner/expr.go. The JMESPath library and the formats of package fmt are
-- parameters.
use Prim.Native.Char.{code}
use Prim.Native.String.{String, ◌++◌ as append}
use ktsu.Prelude.{
  ℕ, zero, suc, ◌+◌, ◌-◌, ◌==◌, Bool, true, false, ◌&&◌, ◌||◌, Option, none, some, [], ◌∷◌, leb,
  ltb, if◌then◌else◌,
}
use ktsu.Prelude.Map.{Map, insert}
use ktsu.Prelude.Answer.{Answer}
use ktsu.Value.{Value, str, obj, fields}
use ktsu.Agent.Text.{trim_space}
use ktsu.Config.Params.{template_of}

-- jmespath.Search(expr, data), and fmt.Sprintf("%v", v).
pub record Library : Type 0 where
  pub search : String → Value → Answer Value
  pub show : Value → String

abbrev is_letter : ℕ → Bool
is_letter c = (leb 65 c && leb c 90) || (leb 97 c && leb c 122)

abbrev is_word : ℕ → Bool
is_word c = is_letter c || (leb 48 c && leb c 57)

-- The length of [a-zA-Z0-9]* at the head.
unfoldable pub word_length : String → ℕ
word_length String.[] = 0
word_length (String.◌∷◌ c s) = let rest = word_length s in if is_word (code c) then suc rest else 0

-- Whether a hyphen and a word character stand at the head.
abbrev hyphen_word : String → Bool
hyphen_word String.[] = false
hyphen_word (String.◌∷◌ c String.[]) = false
hyphen_word (String.◌∷◌ c (String.◌∷◌ d s)) = code c == 45 && is_word (code d)

-- The length of (-[a-zA-Z0-9]+)* at the head, where `inside` holds behind a hyphen or a word character.
unfoldable pub tail_length : Bool → String → ℕ
tail_length inside String.[] = 0
tail_length inside (String.◌∷◌ c s) =
    let word = suc (tail_length true s) in
    let hyphen = suc (tail_length true s) in
    if inside && is_word (code c) then word else if hyphen_word (String.◌∷◌ c s) then hyphen else 0

unfoldable pub drop_chars : ℕ → String → String
drop_chars zero s = s
drop_chars (suc n) String.[] = String.[]
drop_chars (suc n) (String.◌∷◌ c s) = drop_chars n s

-- [a-zA-Z][a-zA-Z0-9]*(-[a-zA-Z0-9]+)+ at the head: its length, 0 for no match.
abbrev with_tail : ℕ → ℕ → ℕ
with_tail n zero = 0
with_tail n (suc m) = n + suc m

unfoldable pub ident_length : String → ℕ
ident_length String.[] = 0
ident_length (String.◌∷◌ c s) =
    let n = suc (word_length s) in
    if is_letter (code c) then with_tail n (tail_length false (drop_chars (word_length s) s)) else 0

-- The length up to the closing mark, which is counted; 0 for none. Behind a backslash, where it
-- escapes, any character but a line break is passed over.
abbrev longer : ℕ → ℕ
longer zero = 0
longer (suc n) = suc (suc n)

unfoldable pub literal_length : String → ℕ
literal_length String.[] = 0
literal_length (String.◌∷◌ c s) =
    let rest = literal_length s in if code c == 96 then 1 else longer rest

unfoldable pub quoted_length : Bool → String → ℕ
quoted_length escaped String.[] = 0
quoted_length true (String.◌∷◌ c s) =
    let rest = quoted_length false s in if code c == 10 then 0 else longer rest
quoted_length false (String.◌∷◌ c s) =
    let plain = quoted_length false s in
    let behind = quoted_length true s in
    if code c == 34 then 1 else if code c == 92 then longer behind else longer plain

-- What the expression matches at the head: how long it is, and whether it is an identifier to quote.
abbrev match_at : String → ℕ × Bool
match_at String.[] = (0, false)
match_at (String.◌∷◌ c s) =
    if code c == 34
    then (longer (quoted_length false s), false)
    else if code c == 96
    then (longer (literal_length s), false)
    else (ident_length (String.◌∷◌ c s), true)

abbrev quote : Bool → String → String
quote true s = append "\"" s
quote false s = s

-- ReplaceAllStringFunc: `left` characters of a match are still to be copied.
unfoldable pub rewrite_from : ℕ → Bool → String → String
rewrite_from left ident String.[] = String.[]
rewrite_from (suc zero) ident (String.◌∷◌ c s) = String.◌∷◌ c (quote ident (rewrite_from 0 false s))
rewrite_from (suc (suc left)) ident (String.◌∷◌ c s) =
    String.◌∷◌ c (rewrite_from (suc left) ident s)
rewrite_from zero ident (String.◌∷◌ c s) =
    let n = (match_at (String.◌∷◌ c s)).0 in
    let is_ident = (match_at (String.◌∷◌ c s)).1 in
    let single = rewrite_from 0 false s in
    let inside = rewrite_from (n - 1) is_ident s in
    if ltb n 2 then String.◌∷◌ c single else quote is_ident (String.◌∷◌ c inside)

unfoldable pub sanitize_expr : String → String
sanitize_expr expr = rewrite_from 0 false expr

abbrev or_whole : Option String → String → String
or_whole none s = s
or_whole (some inner) s = trim_space inner

-- stripTemplate(s)
unfoldable pub strip_template : String → String
strip_template s = or_whole (template_of s) (trim_space s)

-- A map of maps as a map of values.
abbrev pub as_objects : Map (Map Value) → Map Value
as_objects [] = []
as_objects ((k, m) ∷ rest) = (k, obj (fields m)) ∷ as_objects rest

abbrev pub as_strings : Map String → Map Value
as_strings [] = []
as_strings ((k, s) ∷ rest) = (k, str s) ∷ as_strings rest

abbrev with_params : Option (Map Value) → Map Value → Map Value
with_params none m = m
with_params (some params) m = insert "params" (obj (fields params)) m

abbrev with_env : Option (Map String) → Map Value → Map Value
with_env none m = m
with_env (some env) m = insert "env" (obj (fields (as_strings env))) m

-- buildExprContext(stepOutputs, richParams, envVars)
unfoldable pub build_expr_context :
    Map (Map Value) → Option (Map Value) → Option (Map String) → Map Value
build_expr_context outputs rich env =
    with_env env
      (with_params rich (insert "step" (obj (fields (as_objects outputs))) (as_objects outputs)))

-- jmespath.Search(sanitizeExpr(expr), ctx)
abbrev pub evaluate : Library → String → Map Value → Answer Value
evaluate lib expr ctx = lib.search (sanitize_expr expr) (obj (fields ctx))
