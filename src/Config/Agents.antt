-- ===== src/Config/Agents.antt =====
-- What internal/config/params.go makes of the parameters of agents: ResolveAgentParams, ResolveParamRef,
-- ResolveEnvValue, and the placeholders of prompts. An error is named, without its text.
pub mod Secrets
mod Examples
use Prim.Native.Char.{code}
use Prim.Native.String.{String, ◌++◌ as append}
use ktsu.Prelude.{
  ℕ, zero, suc, ◌+◌, ◌==◌, Bool, true, false, not, ◌&&◌, Option, none, some, List, [], ◌∷◌, str_eq,
  if◌then◌else◌,
}
use ktsu.Prelude.Map.{Map, lookup, insert, is_some}
use ktsu.Prelude.Strings.{has_prefix, cut_prefix}
use ktsu.Agent.Text.{trim_space}
use ktsu.Value.{Value, str}
use ktsu.Config.Params.{
  ParamDecl, ParamError, agent_param_not_found, unsupported_template, not_a_text, not_from_env,
  required_without_value, Resolved, ok, err, lookup_env_value, template_of, from_agent,
  and_resolved, defaulted, valued,
}
use ktsu.Config.Values.{before_tick}

abbrev or_empty_text : Option String → String
or_empty_text none = ""
or_empty_text (some v) = v

abbrev env_or_plain : (String → Option String) → Option String → String → String
env_or_plain env none v = v
env_or_plain env (some name) v = or_empty_text (env name)

-- ResolveEnvValue(v)
unfoldable pub resolve_env_value : (String → Option String) → String → String
resolve_env_value env v = env_or_plain env (cut_prefix v "env:") v

-- The value of an agent step for a declared param, if it gives one.
abbrev pub given_value :
    (String → Option String)
    → String
    → ParamDecl
    → Option Value
    → Option String
    → Resolved (Option String)
given_value env name decl none before = ok before
given_value env name decl (some (str s)) before =
    if decl.secret && not (has_prefix s "env:")
    then err (not_from_env name)
    else and_resolved (lookup_env_value env s) (λ v. ok (some v))
given_value env name decl (some v) before = err (not_a_text name)

-- The body of the loop of ResolveAgentParams, for one declared param: its value.
unfoldable pub resolve_agent_param :
    (String → Option String) → String → ParamDecl → Map Value → Resolved String
resolve_agent_param env name decl given = and_resolved (defaulted env decl.default_) (λ before.
    and_resolved (given_value env name decl (lookup name given) before) (λ v. valued name v))

-- ResolveAgentParams(declared, stepAgentParams): the values, and which of them are secret.
unfoldable pub resolve_agent_params :
    (String → Option String) → Map ParamDecl → Map Value → Resolved (Map String × Map Bool)
resolve_agent_params env [] given = ok ([], [])
resolve_agent_params env ((name, decl) ∷ declared) given =
    and_resolved (resolve_agent_param env name decl given) (λ v.
      and_resolved (resolve_agent_params env declared given) (λ rest.
        ok (insert name v rest.0, if decl.secret then insert name true rest.1 else rest.1)))

abbrev of_param_key : Option String → String → Map String → Resolved (String × String)
of_param_key none expr agent = err (unsupported_template expr)
of_param_key (some key) expr agent = from_agent (lookup key agent) key

abbrev literal_or : Option String → String → Resolved (String × String)
literal_or none expr = ok (expr, "")
literal_or (some inner) expr = ok (inner, "")

abbrev of_literal : Option String → String → Resolved (String × String)
of_literal none expr = ok (expr, "")
of_literal (some rest) expr = literal_or (before_tick rest) expr

abbrev of_param_ref : Option String → String → Map String → Resolved (String × String)
of_param_ref none expr agent = of_literal (cut_prefix (trim_space expr) "`") expr
of_param_ref (some inner) expr agent =
    of_param_key (cut_prefix (trim_space inner) "params.") expr agent

-- ResolveParamRef(expr, agentParams)
unfoldable pub resolve_param_ref : String → Map String → Resolved (String × String)
resolve_param_ref expr agent = of_param_ref (template_of expr) expr agent

abbrev with_char : Option String → (String → String) → Option String
with_char none f = none
with_char (some s) f = some (f s)

-- placeholderRe behind its "{{": what stands before the first "}", if that is "}}".
unfoldable pub placeholder_body : String → Option String
placeholder_body String.[] = none
placeholder_body (String.◌∷◌ c s) =
    let rest = placeholder_body s in
    if code c == 125
    then (if has_prefix s "}" then some "" else none)
    else with_char rest (λ t. String.◌∷◌ c t)

abbrev not_empty : Option String → Option String
not_empty none = none
not_empty (some s) = if str_eq s "" then none else some s

abbrev and_placeholder : Option String → Option String
and_placeholder none = none
and_placeholder (some rest) = not_empty (placeholder_body rest)

-- The body of a placeholder at the start of a text.
unfoldable pub placeholder_at : String → Option String
placeholder_at s = and_placeholder (cut_prefix s "{{")

-- ValidateSystemPromptStatic(system): whether there is no placeholder.
unfoldable pub is_static : String → Bool
is_static String.[] = true
is_static (String.◌∷◌ c s) =
    let rest = is_static s in if is_some (placeholder_at (String.◌∷◌ c s)) then false else rest

-- What replaces a placeholder, and its error.
abbrev prompt_value : String → Option String → String × Option ParamError
prompt_value key none = ("", some (required_without_value key))
prompt_value key (some v) = (v, none)

abbrev prompt_key : Map String → String → Option String → String × Option ParamError
prompt_key resolved whole none = (whole, some (unsupported_template whole))
prompt_key resolved whole (some key) = prompt_value key (lookup key resolved)

-- The first error counts.
abbrev first_error : Option ParamError → Option ParamError → Option ParamError
first_error (some e) later = some e
first_error none later = later

abbrev joined : String × Option ParamError → String × Option ParamError → String × Option ParamError
joined (s, e) (text, later) = (append s text, first_error e later)

abbrev size : String → ℕ
size String.[] = 0
size (String.◌∷◌ c s) = suc (size s)

abbrev replaced :
    Map String
    → Option String
    → String
    → (ℕ → String × Option ParamError)
    → String × Option ParamError
replaced resolved none c rest = joined (c, none) (rest 0)
replaced resolved (some body) c rest =
    joined
      (prompt_key resolved (append "{{" (append body "}}"))
        (cut_prefix (trim_space body) "params."))
      (rest (size body + 3))

-- ReplaceAllStringFunc: `left` characters of a placeholder are still to be passed over.
unfoldable pub prompt_from : Map String → ℕ → String → String × Option ParamError
prompt_from resolved left String.[] = ("", none)
prompt_from resolved (suc left) (String.◌∷◌ c s) = prompt_from resolved left s
prompt_from resolved zero (String.◌∷◌ c s) =
    replaced resolved (placeholder_at (String.◌∷◌ c s)) (String.◌∷◌ c String.[])
      (λ n. prompt_from resolved n s)

abbrev or_error : String × Option ParamError → Resolved String
or_error (text, none) = ok text
or_error (text, some e) = err e

-- InterpolatePrompt(tmpl, resolved)
unfoldable pub interpolate_prompt : String → Map String → Resolved String
interpolate_prompt tmpl resolved = or_error (prompt_from resolved 0 tmpl)
