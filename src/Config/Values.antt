-- ===== src/Config/Values.antt =====
-- ResolveValue, ParseParamsSchema and BuildScrubSet of internal/config/params.go. The environment
-- is a parameter. The %q of an error is a text in quotes, as it is where nothing in it is escaped.
use Prim.Native.Char.{code}
use Prim.Native.String.{String, ◌++◌ as append}
use ktsu.Prelude.{
  ◌==◌, Bool, true, false, not, ◌&&◌, Option, none, some, List, [], ◌∷◌, contains, str_eq,
  if◌then◌else◌,
}
use ktsu.Prelude.Map.{Map, lookup}
use ktsu.Prelude.Strings.{cut_prefix}
use ktsu.Prelude.Answer.{Answer, got, failed}
use ktsu.Value.{Value, as_bool, as_string, as_slice, as_map, or_else, or_null}
use ktsu.Output.Reserved.{strings_among}
use ktsu.Config.Params.{ParamDecl, is_true}

abbrev quoted : String → String
quoted s = append "\"" (append s "\"")

abbrev env_or_error : Option String → String → Answer String
env_or_error none name = failed (append "env var " (append (quoted name) " is not set"))
env_or_error (some v) name = got v

abbrev param_or_error : Option String → String → Answer String
param_or_error none name =
    failed (append "param " (append (quoted name) " is not available in this invocation"))
param_or_error (some v) name = got v

-- The map of the invocation's params; `none` is nil.
abbrev of_params : Option (Map String) → String → Answer String
of_params none name =
    failed (append "param " (append (quoted name) " referenced but no params context is available"))
of_params (some params) name = param_or_error (lookup name params) name

-- The text before a backtick at the end.
unfoldable pub before_tick : String → Option String
before_tick String.[] = none
before_tick (String.◌∷◌ c String.[]) = if code c == 96 then some String.[] else none
before_tick (String.◌∷◌ c (String.◌∷◌ d s)) = elim (before_tick (String.◌∷◌ d s)) [
  | none ↦ none
  | some p ↦ some (String.◌∷◌ c p)
]

abbrev and_tick : Option String → Option String
and_tick none = none
and_tick (some rest) = before_tick rest

abbrev plain_value : String → Option String → Answer String
plain_value v none = got v
plain_value v (some literal) = got literal

abbrev by_param : String → Option String → Option (Map String) → Answer String
by_param v (some name) params = of_params params name
by_param v none params = plain_value v (and_tick (cut_prefix v "`"))

abbrev by_env :
    (String → Option String) → String → Option String → Bool → Option (Map String) → Answer String
by_env env v (some name) allow_env params =
    if allow_env
    then env_or_error (env name) name
    else failed (
        append "env: reference " (append (quoted v) " not permitted outside root workflow context"))
by_env env v none allow_env params = by_param v (cut_prefix v "param:") params

-- ResolveValue(v, allowEnv, invocationParams)
unfoldable pub resolve_value :
    (String → Option String) → String → Bool → Option (Map String) → Answer String
resolve_value env v allow_env params = by_env env v (cut_prefix v "env:") allow_env params

-- `prop, _ := propRaw.(map[string]interface{})`
abbrev pub map_of : Value → Map Value
map_of v = or_else (as_map v) []

abbrev required_names : Map Value → List String
required_names schema = strings_among (or_else (as_slice (or_null (lookup "required" schema))) [])

abbrev default_of : Option String → Bool → Option String
default_of (some d) required = some d
default_of none true = none
default_of none false = some ""

unfoldable pub parse_param : List String → String → Map Value → ParamDecl
parse_param required name prop = record {
  default_ = default_of (as_string (or_null (lookup "default" prop))) (contains required name);
  secret = or_else (as_bool (or_null (lookup "secret" prop))) false;
}

unfoldable pub parse_props : List String → Map Value → Map ParamDecl
parse_props required [] = []
parse_props required ((name, prop) ∷ props) =
    (name, parse_param required name (map_of prop)) ∷ parse_props required props

-- ParseParamsSchema(schema), which gives no error; a nil schema is an empty one here.
unfoldable pub parse_params_schema : Map Value → Map ParamDecl
parse_params_schema schema =
    parse_props (required_names schema) (map_of (or_null (lookup "properties" schema)))

-- BuildScrubSet(resolved, isSecret)
unfoldable pub build_scrub_set : Map String → Map Bool → List String
build_scrub_set [] secrets = []
build_scrub_set ((k, v) ∷ resolved) secrets =
    let rest = build_scrub_set resolved secrets in
    if is_true (lookup k secrets) && not (str_eq v "") then v ∷ rest else rest
