-- ===== src/Runner/Nested.antt =====
-- executeWorkflow of internal/orchestrator/runner/runner.go, with what runs a sub-workflow as a parameter.
use Prim.Native.String.{String, ◌++◌ as append}
use ktsu.Prelude.{Bool, not, ◌&&◌, ◌||◌, Option, none, some, [], ◌∷◌, str_eq, if◌then◌else◌}
use ktsu.Prelude.Map.{Map, lookup, insert, is_some}
use ktsu.Prelude.Strings.{has_prefix}
use ktsu.Prelude.Answer.{Answer, got, failed}
use ktsu.Value.{Value, null, str}
use ktsu.Agent.Text.{trim_space}
use ktsu.Config.Params.{ParamDecl}
use ktsu.Config.Values.{resolve_value, parse_params_schema}
use ktsu.Runner.Expr.{Library, evaluate, strip_template}
use ktsu.Runner.Transform.{type_name}
use ktsu.Runner.Steps.{PipelineStep, WorkflowConfig, World, Dispatched, Services, fails}
use ktsu.Runner.Execute.{Invocation, SubStep, context_of}

abbrev pub at_param : String → String → String
at_param step_id k =
    append "workflow step \"" (append step_id (append "\" param \"" (append k "\": ")))

-- The params of a workflow step: as texts, and typed.
pub record Resolved : Type 0 where
  pub params : Map String
  pub rich : Map Value

abbrev put_shown : Library → String → Value → Map String → Map String
put_shown lib k null params = params
put_shown lib k v params = insert k (lib.show v) params

-- A param that is a template keeps its type.
abbrev of_template :
    Library → PipelineStep → String → String → Answer Value → Resolved → Answer Resolved
of_template lib step k expr (failed e) r =
    failed (append (at_param step.id k) (append "template \"" (append expr (append "\": " e))))
of_template lib step k expr (got v) r =
    got record { params = put_shown lib k v r.params; rich = insert k v r.rich }

-- A param that ResolveValue refuses is tried as an expression, which must give a text.
abbrev of_expression : PipelineStep → String → String → String → Answer Value → Answer String
of_expression step k s e (failed f) = failed (append (at_param step.id k) e)
of_expression step k s e (got (str v)) = got v
of_expression step k s e (got null) =
    failed (append (at_param step.id k) (append "JMESPath \"" (append s "\" resolved to nil")))
of_expression step k s e (got v) =
    failed (append (at_param step.id k) (append "value resolved to non-string " (type_name v)))

abbrev or_expression : PipelineStep → String → String → Answer String → Answer Value → Answer String
or_expression step k s (got v) tried = got v
or_expression step k s (failed e) tried = of_expression step k s e tried

abbrev put_text : String → Answer String → Resolved → Answer Resolved
put_text k (failed e) r = failed e
put_text k (got v) r = got record { params = insert k v r.params; rich = insert k (str v) r.rich }

unfoldable pub resolve_param :
    Services → Invocation → Map Value → PipelineStep → String → Value → Resolved → Answer Resolved
resolve_param sv inv ctx step k (str s) r =
    if has_prefix (trim_space s) "{{"
    then of_template sv.library step k (strip_template s)
        (evaluate sv.library (strip_template s) ctx) r
    else put_text k
        (or_expression step k s (resolve_value sv.getenv s (is_some inv.env) inv.params)
          (evaluate sv.library s ctx))
        r
resolve_param sv inv ctx step k v r =
    failed (append (at_param step.id k) (append "value must be a string, got " (type_name v)))

abbrev and_resolved : Answer Resolved → (Resolved → Answer Resolved) → Answer Resolved
and_resolved (failed e) k = failed e
and_resolved (got r) k = k r

-- The loop over step.Params.
unfoldable pub resolve_params :
    Services → Invocation → Map Value → PipelineStep → Map Value → Resolved → Answer Resolved
resolve_params sv inv ctx step [] r = got r
resolve_params sv inv ctx step ((k, v) ∷ rest) r =
    and_resolved
      (if str_eq k "agent" || str_eq k "server" then got r else resolve_param sv inv ctx step k v r)
      (λ q. resolve_params sv inv ctx step rest q)

-- The first required param without a value.
unfoldable pub missing_param : Map ParamDecl → Map String → Option String
missing_param [] params = none
missing_param ((name, decl) ∷ declared) params =
    let rest = missing_param declared params in
    if not (is_some decl.default_) && not (is_some (lookup name params)) then some name else rest

abbrev at_input : String → String → String
at_input step_id k =
    append "workflow step \"" (append step_id (append "\" input \"" (append k "\"")))

abbrev and_input :
    PipelineStep
    → String
    → String
    → Answer Value
    → (Value → Answer (Map Value))
    → Answer (Map Value)
and_input step k expr (failed e) next =
    failed (append (at_input step.id k) (append ": JMESPath \"" (append expr (append "\": " e))))
and_input step k expr (got v) next = next v

-- The loop over step.WorkflowInput, with the input so far.
unfoldable pub workflow_input :
    Library → Map Value → PipelineStep → Map Value → Map Value → Answer (Map Value)
workflow_input lib ctx step [] input = got input
workflow_input lib ctx step ((k, str expr) ∷ rest) input =
    and_input step k expr (evaluate lib expr ctx)
      (λ v. workflow_input lib ctx step rest (insert k v input))
workflow_input lib ctx step ((k, v) ∷ rest) input =
    failed (append (at_input step.id k) ": must be a string JMESPath expression")

-- The fields of the input that no param has.
unfoldable pub add_missing : Map Value → Map Value → Map Value
add_missing [] rich = rich
add_missing ((k, v) ∷ input) rich =
    add_missing input (if is_some (lookup k rich) then rich else insert k v rich)

unfoldable pub suppresses : WorkflowConfig → PipelineStep → Bool
suppresses wf step = not (str_eq wf.webhooks "execute" && str_eq step.workflow_webhooks "execute")

-- How executeWorkflow calls executeSubWorkflow.
pub record SubCall : Type 0 where
  pub workflow : WorkflowConfig
  pub run_id : String
  pub input : Map Value
  pub params : Map String
  pub rich : Map Value
  pub suppress : Bool

abbrev pub by_missing : Option String → PipelineStep → Answer SubCall → Answer SubCall
by_missing (some name) step call = failed (
    append "workflow step \"" (
      append step.id (
        append "\": missing required param \""
          (append name (append "\" for sub-workflow \"" (append step.workflow "\""))))))
by_missing none step call = call

abbrev pub call_with :
    Invocation → PipelineStep → WorkflowConfig → Resolved → Answer (Map Value) → Answer SubCall
call_with inv step wf r (failed e) = failed e
call_with inv step wf r (got input) = got record {
  workflow = wf;
  run_id = append inv.run.id (append "/" step.id);
  input = input;
  params = r.params;
  rich = add_missing input r.rich;
  suppress = suppresses wf step;
}

abbrev pub by_resolved :
    Services
    → Invocation
    → Map Value
    → PipelineStep
    → WorkflowConfig
    → Answer Resolved
    → Answer SubCall
by_resolved sv inv ctx step wf (failed e) = failed e
by_resolved sv inv ctx step wf (got r) =
    by_missing (missing_param (parse_params_schema wf.params_schema) r.params) step
      (call_with inv step wf r (workflow_input sv.library ctx step step.workflow_input []))

abbrev pub by_workflow :
    Services → Invocation → Map (Map Value) → PipelineStep → Answer WorkflowConfig → Answer SubCall
by_workflow sv inv outputs step (failed e) = failed (
    append "workflow step \""
      (append step.id (append "\": resolve \"" (append step.workflow (append "\": " e)))))
by_workflow sv inv outputs step (got wf) =
    let ctx = context_of inv outputs in
    by_resolved sv inv ctx step wf
      (resolve_params sv inv ctx step step.params (record { params = []; rich = [] }))

-- executeWorkflow up to its call of executeSubWorkflow.
unfoldable pub prepare_call :
    Services → PipelineStep → Map (Map Value) → Invocation → Answer SubCall
prepare_call sv step outputs inv = by_workflow sv inv outputs step (sv.load_workflow step.workflow)

abbrev named_error : PipelineStep → Option String → Dispatched → Dispatched
named_error step none r = r
named_error step (some e) r =
    fails (append "sub-workflow \"" (append step.workflow (append "\" failed: " e)))

abbrev pub sub_failed : PipelineStep → Dispatched × World → Dispatched × World
sub_failed step (r, w) = (named_error step r.error r, w)

abbrev pub call_sub :
    (SubCall → World → Dispatched × World)
    → PipelineStep
    → Answer SubCall
    → World
    → Dispatched × World
call_sub run step (failed e) w = (fails e, w)
call_sub run step (got call) w = sub_failed step (run call w)

-- executeWorkflow(step, …), which runs a sub-workflow by `run`.
unfoldable pub execute_workflow : Services → (SubCall → World → Dispatched × World) → SubStep
execute_workflow sv run step outputs inv w = call_sub run step (prepare_call sv step outputs inv) w
