-- ===== src/Config/Params/Examples.antt =====
-- A tool server with a secret token and an address from the environment.
use Prim.Native.String.{String}
use ktsu.Prelude.{◌≡◌, refl, Bool, true, false, Option, none, some, [], ◌∷◌, str_eq, if◌then◌else◌}
use ktsu.Prelude.Map.{Map, lookup, insert}
use ktsu.Prelude.Strings.{cut_prefix}
use ktsu.Agent.Text.{trim_left, trim_right, trim_space}
use ktsu.Config.Params.{
  ParamDecl, err, not_marked_secret, lookup_env_value, before_braces, template_of,
  resolve_server_param_value, resolve_one, resolve_server_params,
}

program : Unit {0}
unfolding lookup insert cut_prefix trim_left trim_right trim_space lookup_env_value before_braces
    template_of resolve_server_param_value resolve_one resolve_server_params
program = tt

abbrev env : String → Option String
env name = if str_eq name "HOST" then some "localhost" else none

abbrev token : ParamDecl
token = record { default_ = none; secret = true }

abbrev declared : Map ParamDecl
declared = ("token", token) ∷ ("host", record { default_ = some "env:HOST"; secret = false }) ∷ []

abbrev refs : Map String
refs = ("token", "{{ params.key }}") ∷ []

abbrev agent : Map String
agent = ("key", "s3cret") ∷ []

abbrev marked : Map Bool
marked = ("key", true) ∷ []

abbrev values : Map String
values = ("host", "localhost") ∷ ("token", "s3cret") ∷ []

abbrev secrets : Map Bool
secrets = ("token", true) ∷ []

leaks : resolve_server_params env declared refs agent [] ≡ err (not_marked_secret "key")
unfolding program
leaks = refl
