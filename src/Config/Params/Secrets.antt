-- ===== src/Config/Params/Secrets.antt =====
-- What the resolution of internal/config/params.go gives a tool server, and where its secrets come from.
use ktsu.Prelude.{String, ◌≡◌, Bool, true, Option, some}
use ktsu.Prelude.Map.{Map, lookup}
use ktsu.Config.Params.{ParamDecl, ok, is_true, resolve_one}

module _ (env : String → Option String) (refs : Map String) (agent : Map String)
    (marked : Map Bool) where
  -- The values and marks of a resolved list agree with its declarations.
  record IsResolved (declared : Map ParamDecl) (values : Map String) (secrets : Map Bool)
      : Type 0 where
    valued_by :
        (name : String) (decl : ParamDecl)
        → lookup name declared ≡ some decl
        → (v : String) × (resolve_one env name decl refs agent marked ≡ ok v)
          × (lookup name values ≡ some v)
    marked_by :
        (name : String) (decl : ParamDecl)
        → lookup name declared ≡ some decl
        → decl.secret ≡ true
        → is_true (lookup name secrets) ≡ true
