-- ===== src/Runner/Steps.antt =====
-- The steps of a workflow (internal/config/types.go), and what carries them out in
-- internal/orchestrator/runner/runner.go: agents, fan-outs and webhooks. The dispatcher, the HTTP
-- client, the clock, the environment and the files of workflows are parameters.
pub mod Fanout
pub mod Config
pub use ktsu.Runner.Steps.Config.{
  ForEachSpec, WebhookSpec, OutputSpec, PipelineStep, EnvVarDecl, WorkflowConfig,
}
use Prim.Native.String.{String, ◌++◌ as append}
use ktsu.Prelude.{
  ℕ, zero, suc, ◌+◌, ◌≤◌, ◌==◌, Bool, true, false, not, ◌&&◌, ◌||◌, Option, none, some, List, [],
  ◌∷◌, ◌++◌, str_eq, ltb, leb, length, take, if◌then◌else◌,
}
use ktsu.Prelude.Map.{Map, lookup, insert, is_some}
use ktsu.Prelude.Strings.{cut_prefix, has_prefix}
use ktsu.Prelude.Answer.{Answer, got, failed}
use ktsu.Value.{
  Value, null, bool, float, int, str, strs, arr, obj, items, fields, values, as_string,
}
use ktsu.Value.Float.{Float64, float_add, zero_float}
use ktsu.State.Records.{StepMetrics}
use ktsu.State.MemStore.{MemStore}
use ktsu.Agent.Records.{InvokeRequest}
use ktsu.Agent.Text.{trim_space}
use ktsu.Config.Values.{resolve_value}
use ktsu.Runner.Expr.{
  Library, evaluate, sanitize_expr, strip_template, build_expr_context, as_objects,
}
use ktsu.Runner.Template.{interpolate_templates}
use ktsu.Runner.Transform.{type_name, TransformSpec}

-- A request that a webhook step sent.
pub record Request : Type 0 where
  pub method : String
  pub url : String
  pub body : Map Value

-- What the steps share: the store, the requests sent, latest first, and the readings of the clock.
pub record World : Type 0 where
  pub store : MemStore InvokeRequest
  pub sent : List Request
  pub readings : ℕ

-- The three results of Dispatch.
pub record Dispatched : Type 0 where
  pub output : Map Value
  pub metrics : StepMetrics
  pub error : Option String

-- What is outside. The dispatcher may change the store; the answer to a request may depend on those
-- before. A webhook is answered by a status, within the timeout given in seconds.
pub record Services : Type 0 where
  pub library : Library
  pub dispatch : Option (String → String → PipelineStep → Map Value → World → Dispatched × World)
  pub http : List Request → Request → ℕ → Answer ℕ
  pub getenv : String → Option String
  pub clock : ℕ → ℕ
  pub load_workflow : String → Answer WorkflowConfig

abbrev pub no_metrics : StepMetrics
no_metrics = record {
  duration_ms = 0;
  tokens_in = 0;
  tokens_out = 0;
  cost_usd = zero_float;
  llm_calls = 0;
  tool_calls = 0;
  reflected = false;
  reflect_calls = 0;
}

abbrev pub gives : Map Value → Dispatched
gives out = record { output = out; metrics = no_metrics; error = none }

abbrev pub fails : String → Dispatched
fails e = record { output = []; metrics = no_metrics; error = some e }

-- step.AgentParams()
unfoldable pub agent_params : Map Value → Map Value
agent_params [] = []
agent_params ((k, v) ∷ m) =
    let rest = agent_params m in if str_eq k "server" then rest else (k, v) ∷ rest

abbrev is_template : String → Bool
is_template s = has_prefix (trim_space s) "{{"

abbrev put_shown : Library → String → Value → Map Value → Map Value
put_shown lib k null params = params
put_shown lib k v params = insert k (str (lib.show v)) params

abbrev and_param : String → Answer Value → (Value → Answer (Map Value)) → Answer (Map Value)
and_param k (failed e) next = failed (append "agent param \"" (append k (append "\" template: " e)))
and_param k (got v) next = next v

-- The loop over the agent's params; the texts that are templates are replaced in `params`.
unfoldable pub resolve_agent_templates :
    Library → Map Value → Map Value → Map Value → Answer (Map Value)
resolve_agent_templates lib ctx [] params = got params
resolve_agent_templates lib ctx ((k, str s) ∷ rest) params = elim (is_template s) [
  | false ↦ resolve_agent_templates lib ctx rest params
  | true ↦
      and_param k (evaluate lib (strip_template s) ctx)
        (λ v. resolve_agent_templates lib ctx rest (put_shown lib k v params))
]
resolve_agent_templates lib ctx ((k, v) ∷ rest) params = resolve_agent_templates lib ctx rest params

abbrev pub with_agent_params :
    PipelineStep
    → Answer (Map Value)
    → (PipelineStep → Dispatched × World)
    → World
    → Dispatched × World
with_agent_params step (failed e) k w = (fails e, w)
with_agent_params step (got params) k w = k (record step { params = params })

abbrev pub dispatch_agent :
    Services
    → Option (String → String → PipelineStep → Map Value → World → Dispatched × World)
    → PipelineStep
    → Map (Map Value)
    → String
    → Option (Map Value)
    → World
    → Dispatched × World
dispatch_agent sv none step outputs run_id rich w = (gives (("stubbed", bool true) ∷ []), w)
dispatch_agent sv (some dispatch) step outputs run_id rich w =
    with_agent_params step
      (resolve_agent_templates sv.library (build_expr_context outputs rich none)
        (agent_params step.params) step.params)
      (λ s. dispatch run_id step.id s (as_objects outputs) w) w

-- executeAgent(step, stepOutputs, runID, richParams)
unfoldable pub execute_agent :
    Services
    → PipelineStep
    → Map (Map Value)
    → String
    → Option (Map Value)
    → World
    → Dispatched × World
execute_agent sv step outputs run_id rich w =
    dispatch_agent sv sv.dispatch step outputs run_id rich w

abbrev put_value : String → Value → Map Value → Map Value
put_value k null body = body
put_value k v body = insert k v body

abbrev put_env : String → Option String → Map Value → Map Value
put_env k none body = body
put_env k (some v) body = if str_eq v "" then body else insert k (str v) body

abbrev and_body : String → Answer Value → (Value → Answer (Map Value)) → Answer (Map Value)
and_body expr (failed e) k =
    failed (append "jmespath webhook body \"" (append expr (append "\": " e)))
and_body expr (got v) k = k v

-- The loop over the fields of a webhook's body.
unfoldable pub webhook_body : Services → Map Value → Map Value → Map Value → Answer (Map Value)
webhook_body sv ctx [] body = got body
webhook_body sv ctx ((k, str s) ∷ rest) body = elim (cut_prefix s "env:") [
  | some name ↦ webhook_body sv ctx rest (put_env k (sv.getenv name) body)
  | none ↦
      and_body s (evaluate sv.library (strip_template s) ctx)
        (λ v. webhook_body sv ctx rest (put_value k v body))
]
webhook_body sv ctx ((k, v) ∷ rest) body = webhook_body sv ctx rest body

abbrev pub or_post : String → String
or_post method = if str_eq method "" then "POST" else method

abbrev pub prefixed : {A : Type 0} → String → Answer A → Answer A
prefixed what (failed e) = failed (append what e)
prefixed what (got a) = got a

abbrev pub and_got : {A : Type 0} → Answer A → (A → Dispatched × World) → World → Dispatched × World
and_got (failed e) k w = (fails e, w)
and_got (got a) k w = k a

abbrev webhook_result : Services → Request → Answer ℕ → Dispatched
webhook_result sv req (failed e) =
    fails (append "webhook " (append req.method (append " " (append req.url (append ": " e)))))
webhook_result sv req (got code) =
    if ltb code 200 || leb 300 code
    then fails (
        append "webhook " (
          append req.method (
            append " " (append req.url (append " returned status " (sv.library.show (int code)))))))
    else gives (("sent", bool true) ∷ ("status_code", int code) ∷ [])

unfoldable pub send_webhook : Services → Request → ℕ → World → Dispatched × World
send_webhook sv req timeout w = (
  webhook_result sv req (sv.http w.sent req (if timeout == 0 then 30 else timeout)),
  record w { sent = req ∷ w.sent },
)

-- executeWebhook(step, …) for its spec. Encoding the body as JSON and making the request are taken
-- to succeed.
unfoldable pub execute_webhook :
    Services
    → WebhookSpec
    → Map (Map Value)
    → Option (Map String)
    → Option (Map Value)
    → Option (Map String)
    → World
    → Dispatched × World
execute_webhook sv spec outputs params rich env w =
    let ctx = build_expr_context outputs rich env in
    and_got (prefixed "webhook url: " (resolve_value sv.getenv spec.url (is_some env) params))
      (λ raw.
        and_got (prefixed "webhook url template: " (interpolate_templates sv.library raw ctx))
          (λ url.
            and_got (webhook_body sv ctx spec.body [])
              (λ body.
                send_webhook sv (record { method = or_post spec.method; url = url; body = body })
                  spec.timeout_s w)
              w)
          w)
      w
