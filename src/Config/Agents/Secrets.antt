-- ===== src/Config/Agents/Secrets.antt =====
-- Where the secrets of an agent come from, and that they are scrubbed (ResolveAgentParams and BuildScrubSet of
-- internal/config/params.go).
use Prim.Native.String.{String}
use ktsu.Prelude.{
  ◌≡◌, refl, sym, ap, subst, ◌∙◌, Bool, true, false, not, ◌&&◌, Option, none, some, [], ◌∷◌, arith,
  str_eq, eq_iff, contains, if◌then◌else◌, Bool-cases, inl, inr,
}
use ktsu.Prelude.Map.{Map, lookup, insert, lookup-insert}
use ktsu.Prelude.Strings.{has_prefix}
use ktsu.Value.{Value, str}
use ktsu.Config.Params.{ParamDecl, ok, lookup_env_value, is_true, and_resolved, defaulted, valued}
use ktsu.Config.Params.Supplied.{and_resolved-ok, valued-ok, defaulted-ok}
use ktsu.Config.Values.{build_scrub_set}
use ktsu.Config.Agents.{given_value, resolve_agent_param, resolve_agent_params}

-- The value of a declared param: what the step gives, from the environment for a secret, or the default.
pub data IsSourced (env : String → Option String) (decl : ParamDecl) (given : Option Value)
    (v : String) : Type 0 where
  from_step :
      (s : String)
      → given ≡ some (str s)
      → (decl.secret ≡ true → has_prefix s "env:" ≡ true)
      → lookup_env_value env s ≡ ok v
      → IsSourced env decl given v
  from_default :
      (d : String)
      → given ≡ none
      → decl.default_ ≡ some d
      → lookup_env_value env d ≡ ok v
      → IsSourced env decl given v

module _ (env : String → Option String) where
  given_value-IsSourced :
      (name : String) (decl : ParamDecl) (given : Option Value) (before : Option String)
      (v : String)
      → defaulted env decl.default_ ≡ ok before
      → given_value env name decl given before ≡ ok (some v)
      → IsSourced env decl given v
  given_value-IsSourced name decl none before v e h =
      let same : before ≡ some v = cc in
      let (d, declared, found) = defaulted-ok env decl.default_ v (e ∙ ap (λ o. ok o) same) in
      from_default d refl declared found
  given_value-IsSourced name decl (some (str s)) before v e h =
      elim (Bool-cases (decl.secret && not (has_prefix s "env:"))) [
        | inl bad ↦ absurd (let k = rw bad at h in cc)
        | inr fine ↦
            let k : and_resolved (lookup_env_value env s) (λ w. ok (some w)) ≡ ok (some v) =
              rw fine at h in
            let (w, found, last) =
              and_resolved-ok (lookup_env_value env s) (λ w. ok (some w)) (some v) k in
            let same : w ≡ v = cc in from_step s refl (λ secret. ground arith) (rw (sym same) found)
      ]
  given_value-IsSourced name decl (some _) before v e h = absurd cc

  resolve_agent_param-IsSourced :
      (name : String) (decl : ParamDecl) (given : Map Value) (v : String)
      → resolve_agent_param env name decl given ≡ ok v
      → IsSourced env decl (lookup name given) v
  unfolding resolve_agent_param
  resolve_agent_param-IsSourced name decl given v h =
      let (before, e, k) =
        and_resolved-ok (defaulted env decl.default_)
          (λ b. and_resolved (given_value env name decl (lookup name given) b) (λ w. valued name w))
          v h in
      let (after, f, last) =
        and_resolved-ok (given_value env name decl (lookup name given) before) (λ w. valued name w)
          v k in
      given_value-IsSourced name decl (lookup name given) before v e
        (f ∙ ap (λ o. ok o) (valued-ok name after v last))

  abbrev IsGivenAt : Map Value → Map String → Map Bool → String → ParamDecl → Type 0
  IsGivenAt given values secrets name decl =
      (v : String) × (lookup name values ≡ some v)
      × IsSourced env decl (lookup name given) v
      × (decl.secret ≡ true → is_true (lookup name secrets) ≡ true)

  abbrev IsGiven : Map ParamDecl → Map Value → Map String → Map Bool → Type 0
  IsGiven declared given values secrets =
      (name : String) (decl : ParamDecl)
      → lookup name declared ≡ some decl
      → IsGivenAt given values secrets name decl

  marked_now :
      (b : Bool) (name : String) (secrets : Map Bool)
      → b ≡ true
      → is_true (lookup name (if b then insert name true secrets else secrets)) ≡ true
  marked_now true name secrets h =
      ground (arith, lookup-insert name name true secrets, eq_iff name name)
  marked_now false name secrets h = absurd cc

  marked_more :
      (b : Bool) (name j : String) (secrets : Map Bool)
      → is_true (lookup j secrets) ≡ true
      → is_true (lookup j (if b then insert name true secrets else secrets)) ≡ true
  marked_more true name j secrets h = ground (arith, h, lookup-insert name j true secrets)
  marked_more false name j secrets h = h

  resolve_agent_params-IsGiven :
      (declared : Map ParamDecl) (given : Map Value) (values : Map String) (secrets : Map Bool)
      → resolve_agent_params env declared given ≡ ok (values, secrets)
      → IsGiven declared given values secrets
  unfolding resolve_agent_params lookup
  resolve_agent_params-IsGiven [] given values secrets h name decl found = absurd cc
  resolve_agent_params-IsGiven ((name, decl) ∷ declared) given values secrets h j d found =
      let (v, here_, behind) =
        and_resolved-ok (resolve_agent_param env name decl given)
          (λ v. and_resolved (resolve_agent_params env declared given) (λ rest.
            ok (insert name v rest.0, if decl.secret then insert name true rest.1 else rest.1)))
          (values, secrets) h in
      let ((vs, ss), rest, last) =
        and_resolved-ok (resolve_agent_params env declared given)
          (λ rest.
            ok (insert name v rest.0, if decl.secret then insert name true rest.1 else rest.1))
          (values, secrets) behind in
      let grown : insert name v vs ≡ values = cc in
      let noted : (if decl.secret then insert name true ss else ss) ≡ secrets = cc in
      elim (Bool-cases (str_eq name j)) [
        | inl e ↦
            let (p, q) : (name ≡ j) × (decl ≡ d) = ground (arith, e, found, eq_iff name j) in
            let first : IsGivenAt given values secrets name decl = (
              v,
              ap (lookup name) (sym grown)
                  ∙ ground (arith, lookup-insert name name v vs, eq_iff name name),
              resolve_agent_param-IsSourced name decl given v here_,
              λ secret.
                  subst (λ m. is_true (lookup name m) ≡ true) noted
                    (marked_now decl.secret name ss secret),
            ) in
            subst (λ x. IsGivenAt given values secrets x d) p
              (subst (λ x. IsGivenAt given values secrets name x) q first)
        | inr e ↦
            let old : lookup j declared ≡ some d = ground (arith, e, found) in
            let (w, stored, sourced, mark) =
              resolve_agent_params-IsGiven declared given vs ss rest j d old in
            let kept : lookup j (insert name v vs) ≡ some w =
              ground (arith, e, stored, lookup-insert name j v vs) in
            (
              w,
              ap (lookup j) (sym grown) ∙ kept,
              sourced,
              λ secret.
                  subst (λ m. is_true (lookup j m) ≡ true) noted
                    (marked_more decl.secret name j ss (mark secret)),
            )
      ]

-- A non-empty value of a marked param is in the scrub set.
build_scrub_set-contains :
    (values : Map String) (secrets : Map Bool) (k v : String)
    → lookup k values ≡ some v
    → is_true (lookup k secrets) ≡ true
    → str_eq v "" ≡ false
    → contains (build_scrub_set values secrets) v ≡ true
unfolding build_scrub_set contains
build_scrub_set-contains [] secrets k v h mark full = absurd (unfold lookup in cc)
build_scrub_set-contains ((j, w) ∷ values) secrets k v h mark full =
    elim (Bool-cases (str_eq j k)) [
      | inl e ↦
          let (p, q) : (j ≡ k) × (w ≡ v) = unfold lookup in ground (arith, e, h, eq_iff j k) in
          rw (p, q, mark, full) (ground (arith, eq_iff v v))
      | inr e ↦
          let old : lookup k values ≡ some v = unfold lookup in ground (arith, e, h) in
          let rest = build_scrub_set-contains values secrets k v old mark full in
          elim (Bool-cases (is_true (lookup j secrets) && not (str_eq w ""))) [
            | inl f ↦ rw f (ground (arith, rest))
            | inr f ↦ rw f rest
          ]
    ]

-- If the params of an agent resolve, every declared one has a value: the text that the step gives for it,
-- with `env:` if it is secret, or else its default, each with the variable of the environment that it may
-- name; and every value of a secret one that is not empty is in the scrub set made of the results.
pub resolve_agent_params_lem :
    (env : String → Option String) (declared : Map ParamDecl) (given : Map Value)
    (values : Map String) (secrets : Map Bool) (name : String) (decl : ParamDecl)
    → resolve_agent_params env declared given ≡ ok (values, secrets)
    → lookup name declared ≡ some decl
    → (v : String) × (lookup name values ≡ some v)
      × IsSourced env decl (lookup name given) v
      × (decl.secret ≡ true
          → str_eq v "" ≡ false
          → contains (build_scrub_set values secrets) v ≡ true)
resolve_agent_params_lem env declared given values secrets name decl h found =
    let (v, stored, sourced, mark) =
      resolve_agent_params-IsGiven env declared given values secrets h name decl found in
    (
      v,
      stored,
      sourced,
      λ secret full. build_scrub_set-contains values secrets name v stored (mark secret) full,
    )
