-- ===== src/Config/Policies.antt =====
-- ValidateApprovalPolicies of internal/config/validate.go, with its types of internal/config/types.go.
mod Examples
use Prim.Native.String.{String, ◌++◌ as append}
use ktsu.Prelude.{
  ℕ, zero, suc, ◌<◌, ◌≡◌, ◌⊎◌, ◌↔◌, refl, Bool, true, false, not, ◌||◌, ◌&&◌, Option, none, some,
  List, [], ◌∷◌, arith, str_eq, eq_iff, ltb, if◌then◌else◌, All, Bool-cases, inl, inr,
}

-- A timeout in nanoseconds; a negative one is 0 here.
pub record ApprovalPolicy : Type 0 where
  pub on_reject : String
  pub timeout : ℕ
  pub timeout_behavior : String

pub record ToolAccess : Type 0 where
  pub name : String
  pub require_approval : Option ApprovalPolicy

pub record ServerRef : Type 0 where
  pub name : String
  pub allowlist : List ToolAccess

abbrev at_tool : ServerRef → ToolAccess → String → String
at_tool srv tool rest =
    append "server \""
      (append srv.name (append "\" tool \"" (append tool.name (append "\": " rest))))

-- The two tests of a policy.
unfoldable pub policy_error : ApprovalPolicy → Option String
policy_error p =
    if not (str_eq p.on_reject "fail" || str_eq p.on_reject "recover")
    then some (
        append "require_approval.on_reject must be \"fail\" or \"recover\", got \""
          (append p.on_reject "\""))
    else if ltb 0 p.timeout
        && not (str_eq p.timeout_behavior "fail" || str_eq p.timeout_behavior "reject")
    then some (
        append "require_approval.timeout_behavior must be \"fail\" or \"reject\", got \""
          (append p.timeout_behavior "\""))
    else none

abbrev or_next : (String → String) → Option String → Option String → Option String
or_next f (some e) next = some (f e)
or_next f none next = next

abbrev tool_error : Option ApprovalPolicy → Option String
tool_error none = none
tool_error (some p) = policy_error p

-- The loop over the allowlist of a server.
unfoldable pub tools_error : ServerRef → List ToolAccess → Option String
tools_error srv [] = none
tools_error srv (t ∷ ts) =
    or_next (at_tool srv t) (tool_error t.require_approval) (tools_error srv ts)

-- ValidateApprovalPolicies(servers): the first error.
unfoldable pub validate_approval_policies : List ServerRef → Option String
validate_approval_policies [] = none
validate_approval_policies (s ∷ servers) =
    or_next (λ e. e) (tools_error s s.allowlist) (validate_approval_policies servers)

-- A rejection fails or is recovered from, and a timeout fails or rejects.
pub record IsPolicy (p : ApprovalPolicy) : Type 0 where
  pub rejects : (p.on_reject ≡ "fail") ⊎ (p.on_reject ≡ "recover")
  pub times_out :
      (p.timeout ≡ 0) ⊎ ((p.timeout_behavior ≡ "fail") ⊎ (p.timeout_behavior ≡ "reject"))

abbrev pub IsAllowed : Option ApprovalPolicy → Type 0
IsAllowed none = Unit
IsAllowed (some p) = IsPolicy p

or_next-none :
    (f : String → String) (o next : Option String)
    → (or_next f o next ≡ none) ↔ ((o ≡ none) × (next ≡ none))
or_next-none f none next = (λ h. (refl, h), λ (a, h). h)
or_next-none f (some e) next = (λ h. absurd cc, λ (a, h). absurd cc)

one_of : (s a b : String) → (str_eq s a || str_eq s b) ≡ true → (s ≡ a) ⊎ (s ≡ b)
one_of s a b h = elim (Bool-cases (str_eq s a)) [
  | inl e ↦ inl ((eq_iff s a).0 e)
  | inr e ↦ inr ((eq_iff s b).0 (ground (arith, h, e)))
]

is_one : (s a b : String) → (s ≡ a) ⊎ (s ≡ b) → (str_eq s a || str_eq s b) ≡ true
is_one s a b (inl e) = ground (arith, e, eq_iff s a)
is_one s a b (inr e) = ground (arith, e, eq_iff s b)

policy_error-IsPolicy : (p : ApprovalPolicy) → (policy_error p ≡ none) ↔ IsPolicy p
unfolding policy_error
policy_error-IsPolicy p = (
  λ h. record {
    rejects = one_of p.on_reject "fail" "recover" (ground (arith, h));
    times_out = elim (Bool-cases (ltb 0 p.timeout)) [
      | inl e ↦ inr (one_of p.timeout_behavior "fail" "reject" (ground (arith, h, e)))
      | inr e ↦ inl (ground (arith, e))
    ];
  },
  λ k.
      let rejects = is_one p.on_reject "fail" "recover" k.rejects in
      elim k.times_out [
        | inl e ↦ rw (rejects, e) refl
        | inr e ↦
            let times = is_one p.timeout_behavior "fail" "reject" e in
            rw rejects (ground (arith, times))
      ],
)

tool_error-IsAllowed : (o : Option ApprovalPolicy) → (tool_error o ≡ none) ↔ IsAllowed o
tool_error-IsAllowed none = (λ h. tt, λ h. refl)
tool_error-IsAllowed (some p) = policy_error-IsPolicy p

tools_error-All :
    (srv : ServerRef) (ts : List ToolAccess)
    → (tools_error srv ts ≡ none) ↔ All (λ (t : ToolAccess). IsAllowed t.require_approval) ts
unfolding tools_error
tools_error-All srv [] = (λ h. tt, λ h. refl)
tools_error-All srv (t ∷ ts) =
    let (split, join) =
      or_next-none (at_tool srv t) (tool_error t.require_approval) (tools_error srv ts) in
    let (this, that) = tool_error-IsAllowed t.require_approval in
    let (these, those) = tools_error-All srv ts in
    (λ h. (this (split h).0, these (split h).1), λ (a, b). join (that a, those b))

-- The configuration is accepted exactly if every policy of every tool of every server says `fail` or
-- `recover` for a rejection and, where it has a timeout, `fail` or `reject` for it.
pub validate_approval_policies_iff :
    (servers : List ServerRef)
    → (validate_approval_policies servers ≡ none)
      ↔ All
          (λ (s : ServerRef). All (λ (t : ToolAccess). IsAllowed t.require_approval) s.allowlist)
          servers
unfolding validate_approval_policies
validate_approval_policies_iff [] = (λ h. tt, λ h. refl)
validate_approval_policies_iff (s ∷ servers) =
    let (split, join) =
      or_next-none (λ e. e) (tools_error s s.allowlist) (validate_approval_policies servers) in
    let (this, that) = tools_error-All s s.allowlist in
    let (these, those) = validate_approval_policies_iff servers in
    (λ h. (this (split h).0, these (split h).1), λ (a, b). join (that a, those b))
