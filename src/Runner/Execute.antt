-- ===== src/Runner/Execute.antt =====
-- The loop of Execute of internal/orchestrator/runner/runner.go, and with its children what executeSubWorkflow
-- shares with it. The deadline of a context is not modelled.
pub mod Stored
pub mod Settle
pub mod Carry
unfoldable pub use ktsu.Runner.Execute.Carry.{carry_out}
pub use ktsu.Runner.Execute.Carry.{
  Invocation, SubStep, by_for_each, by_transform, transformed, by_webhook,
}
unfoldable pub use ktsu.Runner.Execute.Settle.{is_falsy, is_off, is_skipped, settle}
pub use ktsu.Runner.Execute.Settle.{
  falsy_answer, condition_false, Settled, by_verdict, by_processed, schema_of, complete, skipped,
  broken,
}
pub use ktsu.Runner.Execute.Stored.{
  store_message, now, ticked, error_of, stored_run, stored_step, new_step, Kind, kind_text, started,
  workflow, agent, transform, webhook,
}
use Prim.Native.String.{String, ◌++◌ as append}
use ktsu.Prelude.{
  ℕ, zero, suc, ◌+◌, Bool, true, false, not, Option, none, some, List, [], ◌∷◌, str_eq,
  if◌then◌else◌,
}
use ktsu.Prelude.Map.{Map, lookup, insert, is_some}
use ktsu.Prelude.Answer.{Answer, got, failed}
use ktsu.Value.{Value, null, bool, float, int, str, strs, arr, obj, as_bool, or_else, or_null}
use ktsu.Value.Float.{is_zero}
use ktsu.Output.Reserved.{reserved_message, Processed, clean, refused, process_reserved}
use ktsu.Output.Airlock.{airlock_message, Verdict, valid, validate}
use ktsu.State.Records.{absent, Run, Step, StepMetrics}
use ktsu.State.Status
use ktsu.State.MemStore.{
  Result, ok, err, StoreError, run_not_found, run_already_exists, step_not_found,
  step_already_exists, approval_not_found, approval_already_exists, update_run, create_step,
  update_step,
}
use ktsu.Dag.Graph.{Node}
use ktsu.Runner.Expr.{Library, evaluate, strip_template, build_expr_context}
use ktsu.Runner.Template.{scrub_string}
use ktsu.Runner.Transform.{TransformSpec}
use ktsu.Runner.Transform.Ops.{execute_transform}
use ktsu.Runner.Steps.{
  PipelineStep, OutputSpec, WebhookSpec, ForEachSpec, World, Dispatched, Services, no_metrics,
  gives, fails, execute_agent, execute_webhook,
}
use ktsu.Runner.Steps.Fanout.{execute_fanout}

-- The loop's variables.
pub record Progress : Type 0 where
  pub world : World
  pub outputs : Map (Map Value)

abbrev pub put_output : String → Map Value → World → Map (Map Value) → Progress
put_output id out w outputs = record { world = w; outputs = insert id out outputs }

-- failRun(stepRec, errMsg): the errors of the two updates are dropped.
unfoldable pub fail_run : Services → Invocation → Step → String → World → Option String × World
fail_run sv inv rec message w =
    let text = scrub_string message inv.scrub in
    let at = now sv w in
    (
      some text,
      stored_run (record inv.run { status = Status.failed; error = text; updated_at = at })
          (stored_step (record rec { status = Status.failed; error = text; ended_at = some at })
            (ticked w)),
    )

abbrev pub update_error : String → Option String → Option String
update_error id none = none
update_error id (some e) = some (append "update step " (append id (append ": " e)))

-- UpdateStep(stepRec) with the error that Execute returns for it, and the output for later steps.
abbrev pub finish_step :
    String → Step → Map Value → Map (Map Value) → World → Option String × Progress
finish_step id rec out outputs w = (
  update_error id (error_of (update_step rec w.store).0),
  put_output id out (stored_step rec w) outputs,
)

abbrev pub with_outputs : Map (Map Value) → Option String × World → Option String × Progress
with_outputs outputs (e, w) = (e, record { world = w; outputs = outputs })

abbrev pub agent_flag : PipelineStep → StepMetrics → Option Bool
agent_flag step m = if str_eq step.agent "" then none else some m.reflected

abbrev pub by_settled :
    Services
    → Invocation
    → PipelineStep
    → Step
    → Settled
    → Map (Map Value)
    → World
    → Option String × Progress
by_settled sv inv step rec (broken e) outputs w = with_outputs outputs (fail_run sv inv rec e w)
by_settled sv inv step rec (skipped out) outputs w =
    finish_step step.id (record rec { status = Status.skipped; ended_at = some (now sv w) }) out
      outputs (ticked w)
by_settled sv inv step rec (complete out) outputs w =
    finish_step step.id
      (record rec {
        status = Status.complete;
        output = some out;
        ended_at = some (now sv w);
        reflected = agent_flag step rec.metrics;
      })
      out outputs (ticked w)

abbrev pub by_error :
    Services
    → Invocation
    → PipelineStep
    → Step
    → Option String
    → Map Value
    → Map (Map Value)
    → World
    → Option String × Progress
by_error sv inv step rec (some e) raw outputs w = with_outputs outputs (fail_run sv inv rec e w)
by_error sv inv step rec none raw outputs w = by_settled sv inv step rec (settle step raw) outputs w

abbrev pub after_run :
    Services
    → Invocation
    → PipelineStep
    → Step
    → Map (Map Value)
    → Dispatched × World
    → Option String × Progress
after_run sv inv step rec outputs (r, w) =
    by_error sv inv step (record rec { metrics = r.metrics }) r.error r.output outputs w

abbrev pub context_of : Invocation → Map (Map Value) → Map Value
context_of inv outputs = build_expr_context outputs inv.rich inv.env

-- Behind CreateStep: the condition, the step, and what becomes of its output.
abbrev pub after_create :
    Services
    → SubStep
    → Invocation
    → Kind
    → PipelineStep
    → Step
    → Map (Map Value)
    → World
    → Option String × Progress
after_create sv sub inv kind step rec outputs w =
    if is_off sv.library step.condition (context_of inv outputs)
    then finish_step step.id (record rec { status = Status.skipped; ended_at = some (now sv w) })
        condition_false outputs (ticked w)
    else after_run sv inv step rec outputs (carry_out sv sub kind step outputs inv w)

abbrev pub created :
    Option String
    → PipelineStep
    → World
    → (World → Option String × Progress)
    → Map (Map Value)
    → Option String × Progress
created (some e) step w k outputs = (
  some (append "create step " (append step.id (append ": " e))),
  record { world = w; outputs = outputs },
)
created none step w k outputs = k w

-- The type of a step in Execute.
abbrev pub root_kind : PipelineStep → Kind
root_kind step =
    if not (str_eq step.workflow "")
    then workflow
    else if not (str_eq step.agent "")
    then agent
    else if is_some step.transform
    then transform
    else if is_some step.webhook
    then webhook
    else agent

-- The body of Execute's loop: an error ends the run.
unfoldable pub root_step :
    Services → SubStep → Invocation → PipelineStep → Progress → Option String × Progress
root_step sv sub inv step p =
    let rec = started inv.run.id (root_kind step) Status.running (now sv p.world) step in
    let w = ticked p.world in
    created (error_of (create_step rec w.store).0) step (new_step rec w)
      (λ v. after_create sv sub inv (root_kind step) step rec p.outputs v) p.outputs

-- stepByID[id]: the last step of an id counts. Resolve gives the ids of steps only.
abbrev pub later : Option PipelineStep → PipelineStep → String → Option PipelineStep
later (some s) step id = some s
later none step id = if str_eq step.id id then some step else none

abbrev pub step_by_id : List PipelineStep → String → Option PipelineStep
step_by_id [] id = none
step_by_id (s ∷ steps) id = later (step_by_id steps id) s id

abbrev pub at_step :
    (PipelineStep → Progress → Option String × Progress)
    → Option PipelineStep
    → Progress
    → Option String × Progress
at_step run none p = (none, p)
at_step run (some step) p = run step p

abbrev pub and_step :
    Option String × Progress → (Progress → Option String × Progress) → Option String × Progress
and_step (some e, p) k = (some e, p)
and_step (none, p) k = k p

-- The loop over the ids of the layers.
unfoldable pub run_ids :
    (PipelineStep → Progress → Option String × Progress)
    → List PipelineStep
    → List String
    → Progress
    → Option String × Progress
run_ids run steps [] p = (none, p)
run_ids run steps (id ∷ ids) p =
    and_step (at_step run (step_by_id steps id) p) (λ q. run_ids run steps ids q)

abbrev pub nodes_of : List PipelineStep → List Node
nodes_of [] = []
nodes_of (s ∷ steps) = record { id = s.id; depends = s.depends_on } ∷ nodes_of steps
