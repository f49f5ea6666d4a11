-- ===== src/Config/Params/Supplied.antt =====
-- Where one param of a tool server has its value from (the body of the loop of ResolveServerParams,
-- internal/config/params.go).
use ktsu.Prelude.{
  String, ◌≡◌, refl, subst, Bool, true, false, not, ◌&&◌, ap, ◌∙◌, none, Option, some, arith,
  str_eq, Bool-cases, inl, inr,
}
use ktsu.Prelude.Map.{Map, lookup}
use ktsu.Config.Params.{
  ParamDecl, Resolved, ok, err, resolve_server_param_value, is_true, defaulted, checked, referred,
  and_resolved, valued, resolve_one, template_of, lookup_env_value, of_template, plain, of_key,
  from_agent,
}
use ktsu.Prelude.Strings.{cut_prefix}
use ktsu.Agent.Text.{trim_space}

pub and_resolved-ok :
    {A : Type 0} {B : Type 0} (x : Resolved A) (k : A → Resolved B) (b : B)
    → and_resolved x k ≡ ok b
    → (a : A) × (x ≡ ok a) × (k a ≡ ok b)
and_resolved-ok (err e) k b h = absurd (ground (arith, h))
and_resolved-ok (ok a) k b h = (a, refl, h)

-- Where a declared param of a server has its value from: the param of the agent that a template in the
-- reference names, a reference that is no template, or the default where no reference is given. A
-- secret one has the first only from a param that the agent marks.
pub data IsSupplied (env : String → Option String) (agent : Map String) (marked : Map Bool)
    (decl : ParamDecl) (given : Option String) (v : String) : Type 0 where
  from_param :
      (ref inner key : String)
      → given ≡ some ref
      → template_of ref ≡ some inner
      → cut_prefix (trim_space inner) "params." ≡ some key
      → lookup key agent ≡ some v
      → (decl.secret ≡ true → str_eq key "" ≡ false → is_true (lookup key marked) ≡ true)
      → IsSupplied env agent marked decl given v
  from_reference :
      (ref : String)
      → given ≡ some ref
      → template_of ref ≡ none
      → lookup_env_value env ref ≡ ok v
      → IsSupplied env agent marked decl given v
  from_default :
      (d : String)
      → given ≡ none
      → decl.default_ ≡ some d
      → lookup_env_value env d ≡ ok v
      → IsSupplied env agent marked decl given v

and_some-ok :
    (x : Resolved String) (v : String)
    → (elim x [ ok w ↦ ok (some w) | err e ↦ err e ]) ≡ ok (some v)
    → x ≡ ok v
and_some-ok (ok w) v h = let same : w ≡ v = cc in rw same refl
and_some-ok (err e) v h = absurd cc

pub valued-ok : (name : String) (o : Option String) (v : String) → valued name o ≡ ok v → o ≡ some v
valued-ok name none v h = absurd cc
valued-ok name (some w) v h = let same : w ≡ v = cc in rw same refl

module _ (env : String → Option String) where
  pub defaulted-ok :
      (o : Option String) (v : String)
      → defaulted env o ≡ ok (some v)
      → (d : String) × (o ≡ some d) × (lookup_env_value env d ≡ ok v)
  defaulted-ok none v h = absurd cc
  defaulted-ok (some d) v h = (d, refl, and_some-ok (lookup_env_value env d) v h)

module _ (env : String → Option String) (agent : Map String) (marked : Map Bool)
    (decl : ParamDecl) where
  checked-ok :
      (r : Resolved (String × String)) (v : String)
      → checked decl marked r ≡ ok (some v)
      → (key : String) × (r ≡ ok (v, key))
        × (decl.secret ≡ true → str_eq key "" ≡ false → is_true (lookup key marked) ≡ true)
  checked-ok (err e) v h = absurd cc
  checked-ok (ok (w, key)) v h =
      elim (Bool-cases (decl.secret && not (str_eq key "") && not (is_true (lookup key marked)))) [
        | inl bad ↦ absurd (let k = rw bad at h in cc)
        | inr fine ↦
            let k : ok (some w) ≡ ok (some v) = rw fine at h in
            let same : w ≡ v = cc in
            (key, rw same refl, λ secret named. ground (arith, fine, secret, named))
      ]

  plain-ok : (r : Resolved String) (v key : String) → plain r ≡ ok (v, key) → r ≡ ok v
  plain-ok (err e) v key h = absurd cc
  plain-ok (ok w) v key h = let same : w ≡ v = cc in rw same refl

  from_agent-ok :
      (o : Option String) (k v key : String)
      → from_agent o k ≡ ok (v, key)
      → (o ≡ some v) × (k ≡ key)
  from_agent-ok none k v key h = absurd cc
  from_agent-ok (some w) k v key h =
      let (p, q) : (w ≡ v) × (k ≡ key) = ground (arith, h) in (rw p refl, q)

  of_key-ok :
      (o : Option String) (ref v key : String)
      → of_key o ref agent ≡ ok (v, key)
      → (o ≡ some key) × (lookup key agent ≡ some v)
  of_key-ok none ref v key h = absurd cc
  of_key-ok (some k) ref v key h =
      let (p, q) = from_agent-ok (lookup k agent) k v key h in
      (rw q refl, subst (λ x. lookup x agent ≡ some v) q p)

  template-IsSupplied :
      (ref : String) (t : Option String) (v key : String)
      → template_of ref ≡ t
      → of_template env t ref agent ≡ ok (v, key)
      → (decl.secret ≡ true → str_eq key "" ≡ false → is_true (lookup key marked) ≡ true)
      → IsSupplied env agent marked decl (some ref) v
  template-IsSupplied ref none v key e h safe =
      from_reference ref refl e (plain-ok (lookup_env_value env ref) v key h)
  template-IsSupplied ref (some inner) v key e h safe =
      let (p, q) = of_key-ok (cut_prefix (trim_space inner) "params.") ref v key h in
      from_param ref inner key refl e p q safe

  referred-IsSupplied :
      (given before : Option String) (v : String)
      → defaulted env decl.default_ ≡ ok before
      → referred env decl given agent marked before ≡ ok (some v)
      → IsSupplied env agent marked decl given v
  referred-IsSupplied none before v e h =
      let same : before ≡ some v = cc in
      let (d, declared, found) = defaulted-ok env decl.default_ v (e ∙ ap (λ o. ok o) same) in
      from_default d refl declared found
  referred-IsSupplied (some ref) before v e h =
      let (key, f, safe) = checked-ok (resolve_server_param_value env ref agent) v h in
      template-IsSupplied ref (template_of ref) v key refl (unfold resolve_server_param_value in f)
        safe

  pub resolve_one-IsSupplied :
      (name : String) (refs : Map String) (v : String)
      → resolve_one env name decl refs agent marked ≡ ok v
      → IsSupplied env agent marked decl (lookup name refs) v
  unfolding resolve_one
  resolve_one-IsSupplied name refs v h =
      let (before, e, rest) =
        and_resolved-ok (defaulted env decl.default_)
          (λ b.
            and_resolved (referred env decl (lookup name refs) agent marked b) (λ w. valued name w))
          v h in
      let (o, f, last) =
        and_resolved-ok (referred env decl (lookup name refs) agent marked before)
          (λ w. valued name w) v rest in
      referred-IsSupplied (lookup name refs) before v e
        (f ∙ ap (λ x. ok x) (valued-ok name o v last))
