-- ===== src/Runner/Runs/Carried.antt =====
-- Which runs the types of steps leave alone (internal/orchestrator/runner/runner.go).
use Prim.Native.String.{String, ◌++◌ as append}
use ktsu.Prelude.{ℕ, suc, ◌≤◌, ◌≡◌, refl, Option, none, some, List, [], ◌∷◌}
use ktsu.Prelude.Map.{Map, is_some}
use ktsu.Prelude.Answer.{Answer, got, failed}
use ktsu.Value.{Value, int, arr, obj, items, fields}
use ktsu.Runner.Expr.{as_objects, build_expr_context, sanitize_expr}
use ktsu.Config.Values.{resolve_value}
use ktsu.Runner.Template.{text_length, interpolate_templates}
use ktsu.Runner.Steps.{
  PipelineStep, ForEachSpec, WebhookSpec, World, Services, and_got, with_agent_params,
  dispatch_agent, prefixed, or_post, agent_params, resolve_agent_templates, execute_agent,
  execute_webhook, send_webhook, webhook_body,
}
use ktsu.Runner.Steps.Fanout.{
  Dispatch, limited, search_ctx, item_input, over_items, dispatch_items, execute_fanout, fan_out,
  run_items,
}
use ktsu.Runner.Execute.{
  Kind, workflow, agent, transform, webhook, Invocation, SubStep, carry_out, by_for_each,
  by_webhook,
}
use ktsu.Runner.Runs.{Keeps, IsOrderly, Keeps-then, Keeps-same}

module _ (sv : Services) (orderly : IsOrderly sv) (n : ℕ) where
  with_agent_params-Keeps :
      (d : Dispatch)
      → sv.dispatch ≡ some d
      → (run_id id : String) (input : Map Value) (step : PipelineStep) (x : Answer (Map Value))
        (w : World)
      → Keeps n w (with_agent_params step x (λ s. d run_id id s input w) w).1
  with_agent_params-Keeps d e run_id id input step (failed m) w = Keeps-same n w w refl
  with_agent_params-Keeps d e run_id id input step (got ps) w =
      Keeps-same n w (d run_id id (record step { params = ps }) input w).1
        (orderly.keeps_runs d e run_id id (record step { params = ps }) input w)

  dispatch_agent-Keeps :
      (o : Option Dispatch)
      → sv.dispatch ≡ o
      → (step : PipelineStep) (outputs : Map (Map Value)) (run_id : String)
        (rich : Option (Map Value)) (w : World)
      → Keeps n w (dispatch_agent sv o step outputs run_id rich w).1
  dispatch_agent-Keeps none e step outputs run_id rich w = Keeps-same n w w refl
  dispatch_agent-Keeps (some d) e step outputs run_id rich w =
      with_agent_params-Keeps d e run_id step.id (as_objects outputs) step
        (resolve_agent_templates sv.library (build_expr_context outputs rich none)
          (agent_params step.params) step.params)
        w

  run_items-Keeps :
      (d : Dispatch)
      → sv.dispatch ≡ some d
      → (run_id : String) (step : PipelineStep) (name : ℕ → String) (outputs : Map (Map Value))
        (i : ℕ) (xs : List Value) (w : World)
      → Keeps n w (run_items (λ id input v. d run_id id step input v) name outputs i xs w).1
  unfolding run_items
  run_items-Keeps d e run_id step name outputs i [] w = Keeps-same n w w refl
  run_items-Keeps d e run_id step name outputs i (x ∷ xs) w =
      let v = (d run_id (name i) step (item_input outputs x i) w).1 in
      Keeps-then
        (Keeps-same n w v (orderly.keeps_runs d e run_id (name i) step (item_input outputs x i) w))
        (run_items-Keeps d e run_id step name outputs (suc i) xs v)

  fan_out-Keeps :
      (d : Dispatch)
      → sv.dispatch ≡ some d
      → (spec : ForEachSpec) (step : PipelineStep) (outputs : Map (Map Value)) (run_id : String)
        (xs : List Value) (w : World)
      → Keeps n w (fan_out sv d spec step outputs run_id xs w).1
  unfolding fan_out
  fan_out-Keeps d e spec step outputs run_id [] w = Keeps-same n w w refl
  fan_out-Keeps d e spec step outputs run_id (x ∷ xs) w =
      run_items-Keeps d e run_id step (λ i. append step.id (append "." (sv.library.show (int i))))
        outputs 0 (x ∷ xs) w

  over_items-Keeps :
      (d : Dispatch)
      → sv.dispatch ≡ some d
      → (spec : ForEachSpec) (step : PipelineStep) (outputs : Map (Map Value)) (run_id : String)
        (x : Answer Value) (w : World)
      → Keeps n w (over_items sv d spec step outputs run_id x w).1
  over_items-Keeps d e spec step outputs run_id (got (arr vs)) w =
      fan_out-Keeps d e spec step outputs run_id (limited spec.max_items (items vs)) w
  over_items-Keeps d e spec step outputs run_id (failed m) w = Keeps-same n w w refl
  over_items-Keeps d e spec step outputs run_id (got v) w = Keeps-same n w w refl

  dispatch_items-Keeps :
      (o : Option Dispatch)
      → sv.dispatch ≡ o
      → (spec : ForEachSpec) (step : PipelineStep) (outputs : Map (Map Value)) (run_id : String)
        (rich : Option (Map Value)) (w : World)
      → Keeps n w (dispatch_items sv o spec step outputs run_id rich w).1
  dispatch_items-Keeps none e spec step outputs run_id rich w = Keeps-same n w w refl
  dispatch_items-Keeps (some d) e spec step outputs run_id rich w =
      over_items-Keeps d e spec step outputs run_id
        (sv.library.search (sanitize_expr spec.from_) (obj (fields (search_ctx outputs rich)))) w

  by_for_each-Keeps :
      (o : Option ForEachSpec) (step : PipelineStep) (outputs : Map (Map Value)) (inv : Invocation)
      (w : World)
      → Keeps n w (by_for_each sv o step outputs inv w).1
  unfolding execute_agent execute_fanout
  by_for_each-Keeps none step outputs inv w =
      dispatch_agent-Keeps sv.dispatch refl step outputs inv.run.id inv.rich w
  by_for_each-Keeps (some spec) step outputs inv w =
      dispatch_items-Keeps sv.dispatch refl spec step outputs inv.run.id inv.rich w

module _ (n : ℕ) (sv : Services) (spec : WebhookSpec) (ctx : Map Value) (w : World) where
  sent-Keeps :
      (url : String) (x : Answer (Map Value))
      → Keeps n w
          (and_got x
            (λ body.
              send_webhook sv
                (record { method = or_post spec.method; url = url; body = body })
                spec.timeout_s
                w)
            w).1
  unfolding send_webhook
  sent-Keeps url (failed e) = Keeps-same n w w refl
  sent-Keeps url (got body) =
      Keeps-same n w
        (send_webhook sv (record { method = or_post spec.method; url = url; body = body })
          spec.timeout_s w).1
        refl

  url-Keeps :
      (x : Answer String)
      → Keeps n w
          (and_got x
            (λ url.
              and_got
                (webhook_body sv ctx spec.body [])
                (λ body.
                  send_webhook sv
                    (record { method = or_post spec.method; url = url; body = body })
                    spec.timeout_s
                    w)
                w)
            w).1
  url-Keeps (failed e) = Keeps-same n w w refl
  url-Keeps (got url) = sent-Keeps url (webhook_body sv ctx spec.body [])

  raw-Keeps :
      (x : Answer String)
      → Keeps n w
          (and_got x
            (λ raw.
              and_got
                (prefixed "webhook url template: " (interpolate_templates sv.library raw ctx))
                (λ url.
                  and_got
                    (webhook_body sv ctx spec.body [])
                    (λ body.
                      send_webhook sv
                        (record { method = or_post spec.method; url = url; body = body })
                        spec.timeout_s
                        w)
                    w)
                w)
            w).1
  raw-Keeps (failed e) = Keeps-same n w w refl
  raw-Keeps (got raw) =
      url-Keeps (prefixed "webhook url template: " (interpolate_templates sv.library raw ctx))

pub by_webhook-Keeps :
    (n : ℕ) (sv : Services) (o : Option WebhookSpec) (outputs : Map (Map Value)) (inv : Invocation)
    (w : World)
    → Keeps n w (by_webhook sv o outputs inv w).1
unfolding execute_webhook
by_webhook-Keeps n sv none outputs inv w = Keeps-same n w w refl
by_webhook-Keeps n sv (some spec) outputs inv w =
    raw-Keeps n sv spec (build_expr_context outputs inv.rich inv.env) w
      (prefixed "webhook url: " (resolve_value sv.getenv spec.url (is_some inv.env) inv.params))

-- The type of a step, of which a workflow is left to a hypothesis.
pub carry_out-Keeps :
    (n : ℕ) (sv : Services) (sub : SubStep)
    → IsOrderly sv
    → ((step : PipelineStep) (outputs : Map (Map Value)) (inv : Invocation) (w : World)
        → n ≤ suc (text_length inv.run.id)
        → Keeps n w (sub step outputs inv w).1)
    → (kind : Kind) (step : PipelineStep) (outputs : Map (Map Value)) (inv : Invocation) (w : World)
    → n ≤ suc (text_length inv.run.id)
    → Keeps n w (carry_out sv sub kind step outputs inv w).1
unfolding carry_out
carry_out-Keeps n sv sub orderly h transform step outputs inv w le = Keeps-same n w w refl
carry_out-Keeps n sv sub orderly h webhook step outputs inv w le =
    by_webhook-Keeps n sv step.webhook outputs inv w
carry_out-Keeps n sv sub orderly h workflow step outputs inv w le = h step outputs inv w le
carry_out-Keeps n sv sub orderly h agent step outputs inv w le =
    by_for_each-Keeps sv orderly n step.for_each step outputs inv w
