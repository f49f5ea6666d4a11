-- ===== src/Prelude/Strings.antt =====
-- The functions of Go's package `strings` that the program calls, over the native texts.
use Prim.Native.Char.{code}
use Prim.Native.String.{String}
use mathlib.Core.Path.{◌≡◌, refl}
use mathlib.Core.Bool.{Bool, true}
use mathlib.Core.Option.{Option, none, some}
use ktsu.Prelude.Tests.{◌==◌, if◌then◌else◌}
use ktsu.Prelude.Map.{is_some}

-- The rest of `s` behind `prefix`, if `s` begins with it.
unfoldable pub cut_prefix : String → String → Option String
cut_prefix s String.[] = some s
cut_prefix String.[] (String.◌∷◌ d p) = none
cut_prefix (String.◌∷◌ c s) (String.◌∷◌ d p) = if code c == code d then cut_prefix s p else none

-- strings.HasPrefix(s, prefix)
unfoldable pub has_prefix : String → String → Bool
unfolding cut_prefix
has_prefix s p = is_some (cut_prefix s p)

has_prefix_runs : has_prefix "ktsu_flags" "ktsu_" ≡ true
unfolding has_prefix
has_prefix_runs = refl
