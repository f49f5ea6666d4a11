-- ===== src/Config/Policies/Examples.antt =====
-- Policies of tools that delete.
use Prim.Native.String.{String}
use ktsu.Prelude.{◌≡◌, ◌↔◌, refl, none, some, [], ◌∷◌, All}
use ktsu.Config.Policies.{
  ToolAccess, ServerRef, policy_error, tools_error, validate_approval_policies, IsAllowed,
  validate_approval_policies_iff,
}

abbrev files : String → ServerRef
files behavior = record {
  name = "files";
  allowlist =
      record { name = "read"; require_approval = none }
      ∷ record {
        name = "delete-*";
        require_approval =
            some record { on_reject = "recover"; timeout = 1000; timeout_behavior = behavior };
      }
      ∷ [];
}

validate_approval_policies_iff_example :
    (validate_approval_policies (files "reject" ∷ []) ≡ none)
    ↔ All
        (λ (s : ServerRef). All (λ (t : ToolAccess). IsAllowed t.require_approval) s.allowlist)
        (files "reject" ∷ [])
validate_approval_policies_iff_example = validate_approval_policies_iff (files "reject" ∷ [])

reject_allowed : validate_approval_policies (files "reject" ∷ []) ≡ none
unfolding validate_approval_policies tools_error policy_error
reject_allowed = refl

ignore_refused :
    validate_approval_policies (files "ignore" ∷ [])
    ≡ some
        "server \"files\" tool \"delete-*\": require_approval.timeout_behavior must be \"fail\" or \"reject\", got \"ignore\""
unfolding validate_approval_policies tools_error policy_error
ignore_refused = refl
