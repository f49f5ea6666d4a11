-- ===== src/Runner/Examples/Nesting.antt =====
-- A workflow whose step runs a workflow whose step runs a third one.
use Prim.Native.String.{String}
use ktsu.Prelude.{
  none, ℕ, ◌≡◌, ◌⊎◌, sym, subst, Bool, true, false, [], ◌∷◌, arith, str_eq, eq_iff, if◌then◌else◌,
  inl, inr, In, here, there,
}
use ktsu.Prelude.Answer.{Answer, got, failed}
use ktsu.Runner.Steps.{PipelineStep, WorkflowConfig, Services}
use ktsu.Runner.Sub.{nested}
use ktsu.Runner.Depth.{IsRanked}
use ktsu.Runner.Root.{execute}
use ktsu.Runner.Depth.Root.{execute_enough}
use ktsu.Runner.Examples.{services, agent_step, workflow_of, first, start}

abbrev workflow_step : String → PipelineStep
workflow_step name = record (agent_step "call" []) { agent = ""; workflow = name }

abbrev outer : WorkflowConfig
outer = workflow_of (workflow_step "inner" ∷ [])

abbrev inner : WorkflowConfig
inner = workflow_of (first ∷ [])

unfoldable files : String → Answer WorkflowConfig
files name =
    if str_eq name "outer"
    then got outer
    else if str_eq name "inner"
    then got inner
    else failed "no file"

abbrev with_files : Services
with_files = record services { load_workflow = files }

unfoldable rank : String → ℕ
rank name = if str_eq name "outer" then 1 else 0

only {ℓ} : {A : Type ℓ} (a b : A) → In a (b ∷ []) → a ≡ b
only a b (here e) = e
only a b (there m) = elim m [ ]

files_cases :
    (name : String) (wf : WorkflowConfig)
    → files name ≡ got wf
    → ((name ≡ "outer") × (outer ≡ wf)) ⊎ (inner ≡ wf)
unfolding files
files_cases name wf e = ground (arith, e, eq_iff name "outer")

with_files-IsRanked : IsRanked with_files rank
with_files-IsRanked = record {
  lower = λ name wf s loaded member named. elim (files_cases name wf loaded) [
    | inl (is_outer, same) ↦
        let is_call : s ≡ workflow_step "inner" =
          only s (workflow_step "inner")
            (subst (λ (x : WorkflowConfig). In s x.pipeline) (sym same) member) in
        rw (is_call, is_outer) (unfold rank in omega arith)
    | inr same ↦
        let is_first : s ≡ first =
          only s first (subst (λ (x : WorkflowConfig). In s x.pipeline) (sym same) member) in
        let plain : Path Bool true false =
          subst (λ (x : PipelineStep). str_eq x.workflow "" ≡ false) is_first named in
        absurd cc
  ];
}

abbrev outermost : WorkflowConfig
outermost = workflow_of (workflow_step "outer" ∷ [])

execute_enough_example :
    execute with_files (nested 2 with_files) "digest" "r1" outermost none none start
    ≡ execute with_files (nested 7 with_files) "digest" "r1" outermost none none start
execute_enough_example =
    execute_enough with_files rank 2 7 "digest" "r1" outermost none none start with_files-IsRanked
      (λ s member named.
        let is_call : s ≡ workflow_step "outer" = only s (workflow_step "outer") member in
        rw is_call (unfold rank in (omega arith, omega arith)))
