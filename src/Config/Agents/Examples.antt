-- ===== src/Config/Agents/Examples.antt =====
-- An agent with a secret key from the environment, and a prompt that names its topic.
use Prim.Native.String.{String}
use ktsu.Prelude.{
  ◌≡◌, refl, Bool, true, false, Option, none, some, [], ◌∷◌, str_eq, contains, if◌then◌else◌,
}
use ktsu.Prelude.Map.{Map, lookup, insert}
use ktsu.Prelude.Strings.{has_prefix, cut_prefix}
use ktsu.Agent.Text.{trim_left, trim_right, trim_space}
use ktsu.Value.{Value, str}
use ktsu.Config.Params.{
  ParamDecl, ok, err, unsupported_template, not_from_env, lookup_env_value, template_of,
  before_braces,
}
use ktsu.Config.Values.{before_tick, build_scrub_set}
use ktsu.Config.Agents.{
  resolve_env_value, resolve_agent_param, resolve_agent_params, resolve_param_ref, placeholder_body,
  placeholder_at, is_static, prompt_from, interpolate_prompt,
}
use ktsu.Config.Agents.Secrets.{IsSourced, resolve_agent_params_lem}

program : Unit {0}
unfolding lookup insert cut_prefix has_prefix trim_left trim_right trim_space lookup_env_value
    template_of before_braces before_tick resolve_env_value resolve_agent_param resolve_agent_params
    resolve_param_ref placeholder_body placeholder_at is_static prompt_from interpolate_prompt
program = tt

abbrev env : String → Option String
env name = if str_eq name "KEY" then some "s3cret" else none

abbrev key : ParamDecl
key = record { default_ = none; secret = true }

abbrev declared : Map ParamDecl
declared = ("key", key) ∷ ("topic", record { default_ = some "news"; secret = false }) ∷ []

abbrev given : Map Value
given = ("key", str "env:KEY") ∷ []

abbrev values : Map String
values = ("topic", "news") ∷ ("key", "s3cret") ∷ []

abbrev secrets : Map Bool
secrets = ("key", true) ∷ []

params_resolve : resolve_agent_params env declared given ≡ ok (values, secrets)
unfolding program
params_resolve = refl

secret_literal :
    resolve_agent_params env declared (("key", str "s3cret") ∷ []) ≡ err (not_from_env "key")
unfolding program
secret_literal = refl

resolve_agent_params_lem_example :
    (v : String) × (lookup "key" values ≡ some v)
    × IsSourced env key (lookup "key" given) v
    × (key.secret ≡ true → str_eq v "" ≡ false → contains (build_scrub_set values secrets) v ≡ true)
resolve_agent_params_lem_example =
    resolve_agent_params_lem env declared given values secrets "key" key params_resolve
      (unfold program in refl)

prompt_topic : interpolate_prompt "On {{ params.topic }}!" values ≡ ok "On news!"
unfolding program
prompt_topic = refl

prompt_bare_key :
    interpolate_prompt "On {{ topic }}!" values ≡ err (unsupported_template "{{ topic }}")
unfolding program
prompt_bare_key = refl

static_prompt : is_static "Use {braces} and {{}}" ≡ true
unfolding program
static_prompt = refl

dynamic_prompt : is_static "On {{ params.topic }}" ≡ false
unfolding program
dynamic_prompt = refl

param_ref : resolve_param_ref " {{ params.key }} " values ≡ ok ("s3cret", "key")
unfolding program
param_ref = refl

param_literal : resolve_param_ref "`plain`" values ≡ ok ("plain", "")
unfolding program
param_literal = refl
