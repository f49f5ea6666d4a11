-- ===== src/Agent/Text.antt =====
-- stripCodeFence and matchesPattern of internal/runtime/agent/loop.go, with the functions of Go's
-- package `strings` that they call.
use Prim.Native.Char.{code}
use Prim.Native.String.{String}
use ktsu.Prelude.{
  ℕ, ◌==◌, Bool, true, false, ◌&&◌, ◌||◌, Option, none, some, leb, str_eq, if◌then◌else◌,
}
use ktsu.Prelude.Strings.{has_prefix}

-- unicode.IsSpace
abbrev is_space : ℕ → Bool
is_space c =
    (leb 9 c && leb c 13)
    || c == 32
    || c == 133
    || c == 160
    || c == 5760
    || (leb 8192 c && leb c 8202)
    || c == 8232
    || c == 8233
    || c == 8239
    || c == 8287
    || c == 12288

unfoldable pub trim_left : String → String
trim_left String.[] = String.[]
trim_left (String.◌∷◌ c s) =
    let rest = trim_left s in if is_space (code c) then rest else String.◌∷◌ c s

abbrev is_empty : String → Bool
is_empty String.[] = true
is_empty (String.◌∷◌ c s) = false

unfoldable pub trim_right : String → String
trim_right String.[] = String.[]
trim_right (String.◌∷◌ c s) =
    let rest = trim_right s in
    if is_empty rest && is_space (code c) then String.[] else String.◌∷◌ c rest

-- strings.TrimSpace(s)
unfoldable pub trim_space : String → String
trim_space s = trim_right (trim_left s)

-- s[strings.Index(s, "\n")+1:], if there is a line break
unfoldable pub after_line : String → Option String
after_line String.[] = none
after_line (String.◌∷◌ c s) = let rest = after_line s in if code c == 10 then some s else rest

-- s[:strings.LastIndex(s, "```")], if there is a fence
unfoldable pub before_fence : String → Option String
before_fence String.[] = none
before_fence (String.◌∷◌ c s) = elim (before_fence s) [
  | some p ↦ some (String.◌∷◌ c p)
  | none ↦ if has_prefix (String.◌∷◌ c s) "```" then some String.[] else none
]

abbrev pub or_text : Option String → String → String
or_text none d = d
or_text (some s) d = s

abbrev unfenced : Option String → String → String
unfenced none s = s
unfenced (some body) s = trim_space (or_text (before_fence body) body)

unfoldable pub strip_code_fence : String → String
strip_code_fence content =
    let s = trim_space content in if has_prefix s "```" then unfenced (after_line s) s else s

-- strings.TrimSuffix(pattern, "*") behind strings.HasSuffix(pattern, "*")
unfoldable pub star_prefix : String → Option String
star_prefix String.[] = none
star_prefix (String.◌∷◌ c String.[]) = if code c == 42 then some String.[] else none
star_prefix (String.◌∷◌ c (String.◌∷◌ d s)) = elim (star_prefix (String.◌∷◌ d s)) [
  | none ↦ none
  | some p ↦ some (String.◌∷◌ c p)
]

abbrev matches_star : Option String → String → String → Bool
matches_star (some prefix) name pattern = has_prefix name prefix
matches_star none name pattern = str_eq name pattern

unfoldable pub matches_pattern : String → String → Bool
matches_pattern name pattern =
    if str_eq pattern "*" then true else matches_star (star_prefix pattern) name pattern
