-- ===== src/Config/Params.antt =====
-- ResolveServerParams of internal/config/params.go. os.LookupEnv is a parameter; an error is named,
-- without its text.
pub mod Supplied
pub mod Secrets
mod Examples
use Prim.Native.String.{String}
use ktsu.Prelude.{
  Bool, true, false, not, ◌&&◌, Option, none, some, List, [], ◌∷◌, str_eq, if◌then◌else◌,
}
use ktsu.Prelude.Map.{Map, lookup, insert}
use ktsu.Prelude.Strings.{has_prefix, cut_prefix}
use ktsu.Agent.Text.{trim_space}

-- A ParamDecl, with the fields that the resolution reads; a nil default is `none`.
pub record ParamDecl : Type 0 where
  pub default_ : Option String
  pub secret : Bool

pub data ParamError : Type 0 where
  env_not_set unsupported_template agent_param_not_found : String → ParamError
  not_marked_secret required_without_value not_a_text not_from_env : String → ParamError

pub data Resolved {ℓ} (A : Type ℓ) : Type ℓ where
  ok : A → Resolved A
  err : ParamError → Resolved A

abbrev pub env_value : Option String → String → Resolved String
env_value none name = err (env_not_set name)
env_value (some v) name = ok v

abbrev pub looked_up : (String → Option String) → Option String → String → Resolved String
looked_up env none v = ok v
looked_up env (some name) v = env_value (env name) name

-- lookupEnvValue(v)
unfoldable pub lookup_env_value : (String → Option String) → String → Resolved String
lookup_env_value env v = looked_up env (cut_prefix v "env:") v

-- The text before a "}}" at the end.
unfoldable pub before_braces : String → Option String
before_braces String.[] = none
before_braces (String.◌∷◌ c s) = elim (before_braces s) [
  | some p ↦ some (String.◌∷◌ c p)
  | none ↦ if str_eq (String.◌∷◌ c s) "}}" then some String.[] else none
]

abbrev and_before : Option String → Option String
and_before none = none
and_before (some rest) = before_braces rest

-- What stands between "{{" and "}}", if the value is such a template. The two do not overlap.
unfoldable pub template_of : String → Option String
template_of v = and_before (cut_prefix (trim_space v) "{{")

abbrev pub from_agent : Option String → String → Resolved (String × String)
from_agent none key = err (agent_param_not_found key)
from_agent (some v) key = ok (v, key)

abbrev pub of_key : Option String → String → Map String → Resolved (String × String)
of_key none v agent = err (unsupported_template v)
of_key (some key) v agent = from_agent (lookup key agent) key

abbrev pub plain : Resolved String → Resolved (String × String)
plain (err e) = err e
plain (ok v) = ok (v, "")

abbrev pub of_template :
    (String → Option String) → Option String → String → Map String → Resolved (String × String)
of_template env none v agent = plain (lookup_env_value env v)
of_template env (some inner) v agent = of_key (cut_prefix (trim_space inner) "params.") v agent

-- resolveServerParamValue: the value, and the key of the agent's param that it is from, or "".
unfoldable pub resolve_server_param_value :
    (String → Option String) → String → Map String → Resolved (String × String)
resolve_server_param_value env v agent = of_template env (template_of v) v agent

abbrev pub is_true : Option Bool → Bool
is_true none = false
is_true (some b) = b

abbrev pub defaulted : (String → Option String) → Option String → Resolved (Option String)
defaulted env none = ok none
defaulted env (some v) = elim (lookup_env_value env v) [ ok w ↦ ok (some w) | err e ↦ err e ]

-- The test of a value that stems from a param of the agent.
abbrev pub checked : ParamDecl → Map Bool → Resolved (String × String) → Resolved (Option String)
checked decl secrets (err e) = err e
checked decl secrets (ok (v, key)) =
    if decl.secret && not (str_eq key "") && not (is_true (lookup key secrets))
    then err (not_marked_secret key)
    else ok (some v)

abbrev pub referred :
    (String → Option String)
    → ParamDecl
    → Option String
    → Map String
    → Map Bool
    → Option String
    → Resolved (Option String)
referred env decl none agent secrets before = ok before
referred env decl (some v) agent secrets before =
    checked decl secrets (resolve_server_param_value env v agent)

abbrev pub and_resolved {ℓ κ} :
    {A : Type ℓ} {B : Type κ} → Resolved A → (A → Resolved B) → Resolved B
and_resolved (err e) k = err e
and_resolved (ok a) k = k a

abbrev pub valued : String → Option String → Resolved String
valued name none = err (required_without_value name)
valued name (some v) = ok v

-- The body of the loop, for one declared param: its value.
unfoldable pub resolve_one :
    (String → Option String)
    → String
    → ParamDecl
    → Map String
    → Map String
    → Map Bool
    → Resolved String
resolve_one env name decl refs agent secrets = and_resolved (defaulted env decl.default_) (λ before.
    and_resolved (referred env decl (lookup name refs) agent secrets before) (λ v. valued name v))

-- The loop over the declared params: the values, and which of them are secret.
unfoldable pub resolve_server_params :
    (String → Option String)
    → Map ParamDecl
    → Map String
    → Map String
    → Map Bool
    → Resolved (Map String × Map Bool)
resolve_server_params env [] refs agent secrets = ok ([], [])
resolve_server_params env ((name, decl) ∷ declared) refs agent secrets =
    and_resolved (resolve_one env name decl refs agent secrets) (λ v.
      and_resolved (resolve_server_params env declared refs agent secrets) (λ rest.
        ok (insert name v rest.0, if decl.secret then insert name true rest.1 else rest.1)))
