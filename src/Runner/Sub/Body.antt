-- ===== src/Runner/Sub/Body.antt =====
-- The body of the loop of executeSubWorkflow (internal/orchestrator/runner/runner.go).
use Prim.Native.String.{String, ◌++◌ as append}
use ktsu.Prelude.{
  ◌+◌, Bool, true, false, not, ◌&&◌, ◌||◌, Option, none, some, [], ◌∷◌, str_eq, if◌then◌else◌,
}
use ktsu.Prelude.Map.{Map, insert, is_some}
use ktsu.Value.{Value, bool}
use ktsu.Value.Float.{float_add}
use ktsu.State.Records.{Step, StepMetrics}
use ktsu.State.Status
use ktsu.State.MemStore.{create_step, update_step}
use ktsu.Runner.Steps.{PipelineStep, World, Dispatched, Services}
use ktsu.Runner.Execute.{
  now, ticked, error_of, stored_step, new_step, Kind, workflow, agent, transform, webhook, started,
  is_off, condition_false, Settled, complete, skipped, broken, settle, Invocation, SubStep,
  carry_out, fail_run, agent_flag, context_of,
}

-- The loop's variables, with the metrics and the output so far; no output is an empty one.
pub record SubProgress : Type 0 where
  pub world : World
  pub outputs : Map (Map Value)
  pub metrics : StepMetrics
  pub final : Map Value

-- The type of a step in a sub-workflow.
abbrev pub sub_kind : PipelineStep → Kind
sub_kind step =
    if not (str_eq step.workflow "")
    then workflow
    else if is_some step.transform
    then transform
    else if is_some step.webhook
    then webhook
    else agent

abbrev pub is_webhook : Kind → Bool
is_webhook webhook = true
is_webhook workflow = false
is_webhook agent = false
is_webhook transform = false

-- agg.TokensIn += stepMetrics.TokensIn, and so on
abbrev pub add_metrics : StepMetrics → StepMetrics → StepMetrics
add_metrics t m = record t {
  tokens_in = t.tokens_in + m.tokens_in;
  tokens_out = t.tokens_out + m.tokens_out;
  cost_usd = float_add t.cost_usd m.cost_usd;
  llm_calls = t.llm_calls + m.llm_calls;
  tool_calls = t.tool_calls + m.tool_calls;
  reflect_calls = t.reflect_calls + m.reflect_calls;
  reflected = m.reflected || t.reflected;
}

abbrev pub failing : SubProgress → Option String × World → Option String × SubProgress
failing p (e, w) = (e, record p { world = w })

-- The error of the update of a skipped step is dropped.
abbrev pub skip_step :
    Services → PipelineStep → Step → Map Value → SubProgress → World → Option String × SubProgress
skip_step sv step rec out p w = (
  none,
  record p {
    world =
        stored_step (record rec { status = Status.skipped; ended_at = some (now sv w) }) (ticked w);
    outputs = insert step.id out p.outputs;
  },
)

abbrev pub update_error : String → Option String → Option String
update_error id none = none
update_error id (some e) = some (append "update step " (append id (append ": " e)))

abbrev pub complete_step :
    PipelineStep → Step → Map Value → SubProgress → World → Option String × SubProgress
complete_step step rec out p w = (
  update_error step.id (error_of (update_step rec w.store).0),
  record p { world = stored_step rec w; outputs = insert step.id out p.outputs; final = out },
)

abbrev pub by_settled :
    Services
    → Invocation
    → PipelineStep
    → Step
    → Settled
    → SubProgress
    → World
    → Option String × SubProgress
by_settled sv inv step rec (broken e) p w = failing p (fail_run sv inv rec e w)
by_settled sv inv step rec (skipped out) p w = skip_step sv step rec out p w
by_settled sv inv step rec (complete out) p w =
    complete_step step
      (record rec {
        status = Status.complete;
        output = some out;
        ended_at = some (now sv w);
        reflected = agent_flag step rec.metrics;
      })
      out p (ticked w)

abbrev pub by_error :
    Services
    → Invocation
    → PipelineStep
    → Step
    → Option String
    → Map Value
    → SubProgress
    → World
    → Option String × SubProgress
by_error sv inv step rec (some e) raw p w = failing p (fail_run sv inv rec e w)
by_error sv inv step rec none raw p w = by_settled sv inv step rec (settle step raw) p w

abbrev pub after_run :
    Services
    → Invocation
    → PipelineStep
    → Step
    → SubProgress
    → Dispatched × World
    → Option String × SubProgress
after_run sv inv step rec p (r, w) =
    by_error sv inv step (record rec { metrics = r.metrics }) r.error r.output
      (record p { metrics = add_metrics p.metrics r.metrics }) w

abbrev pub after_create :
    Services
    → SubStep
    → Invocation
    → Kind
    → PipelineStep
    → Step
    → SubProgress
    → World
    → Option String × SubProgress
after_create sv sub inv kind step rec p w =
    if is_off sv.library step.condition (context_of inv p.outputs)
    then skip_step sv step rec condition_false p w
    else after_run sv inv step rec p (carry_out sv sub kind step p.outputs inv w)

abbrev pub created :
    String
    → Option String
    → PipelineStep
    → World
    → (World → Option String × SubProgress)
    → SubProgress
    → Option String × SubProgress
created what (some e) step w k p =
    (some (append what (append step.id (append ": " e))), record p { world = w })
created what none step w k p = k w

abbrev pub suppressed : Map Value
suppressed = ("suppressed", bool true) ∷ []

-- A webhook that is not to fire: a skipped step, with two readings of the clock.
abbrev pub suppress_step :
    Services → Invocation → PipelineStep → SubProgress → Option String × SubProgress
suppress_step sv inv step p =
    let w = ticked p.world in
    let rec = record (started inv.run.id webhook Status.skipped (now sv p.world) step) {
      ended_at = some (now sv w);
    } in
    let v = ticked w in
    created "create skipped webhook step " (error_of (create_step rec v.store).0) step
      (new_step rec v)
      (λ u. (none, record p { world = u; outputs = insert step.id suppressed p.outputs })) p

-- The body of the loop.
unfoldable pub sub_step :
    Services
    → SubStep
    → Bool
    → Invocation
    → PipelineStep
    → SubProgress
    → Option String × SubProgress
sub_step sv sub suppress inv step p =
    if suppress && is_webhook (sub_kind step)
    then suppress_step sv inv step p
    else (let rec = started inv.run.id (sub_kind step) Status.running (now sv p.world) step in
        let w = ticked p.world in
        created "create step " (error_of (create_step rec w.store).0) step (new_step rec w)
          (λ v. after_create sv sub inv (sub_kind step) step rec p v) p)
