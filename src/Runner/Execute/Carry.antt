-- ===== src/Runner/Execute/Carry.antt =====
-- The switch on the type of a step (internal/orchestrator/runner/runner.go).
use ktsu.Runner.Execute.Stored.{Kind, workflow, agent, transform, webhook}
use Prim.Native.String.{String}
use ktsu.Prelude.{Option, none, some, List, [], ◌∷◌}
use ktsu.Prelude.Map.{Map}
use ktsu.Prelude.Answer.{Answer, got, failed}
use ktsu.Value.{Value, null}
use ktsu.State.Records.{Run}
use ktsu.Runner.Transform.{TransformSpec}
use ktsu.Runner.Transform.Ops.{execute_transform}
use ktsu.Runner.Steps.{
  PipelineStep, WebhookSpec, ForEachSpec, World, Dispatched, Services, gives, fails, execute_agent,
  execute_webhook,
}
use ktsu.Runner.Steps.Fanout.{execute_fanout}

-- The run and its parameters: of Execute, and of a sub-workflow, which has no environment and scrubs nothing.
pub record Invocation : Type 0 where
  pub run : Run
  pub params : Option (Map String)
  pub rich : Option (Map Value)
  pub env : Option (Map String)
  pub scrub : List String

-- A sub-workflow step, as executeWorkflow runs it.
abbrev pub SubStep : Type 0
SubStep = PipelineStep → Map (Map Value) → Invocation → World → Dispatched × World

abbrev pub by_for_each :
    Services
    → Option ForEachSpec
    → PipelineStep
    → Map (Map Value)
    → Invocation
    → World
    → Dispatched × World
by_for_each sv none step outputs inv w = execute_agent sv step outputs inv.run.id inv.rich w
by_for_each sv (some spec) step outputs inv w =
    execute_fanout sv spec step outputs inv.run.id inv.rich w

abbrev pub by_transform : Answer (Map Value) → Dispatched
by_transform (failed e) = fails e
by_transform (got out) = gives out

abbrev pub transformed : Services → Option TransformSpec → Map (Map Value) → Dispatched
transformed sv none outputs = gives (("result", null) ∷ [])
transformed sv (some spec) outputs = by_transform (execute_transform sv.library spec outputs)

abbrev pub by_webhook :
    Services → Option WebhookSpec → Map (Map Value) → Invocation → World → Dispatched × World
by_webhook sv none outputs inv w = (fails "no webhook", w)
by_webhook sv (some spec) outputs inv w =
    execute_webhook sv spec outputs inv.params inv.rich inv.env w

-- The switch on the type of the step. A webhook step has a webhook.
unfoldable pub carry_out :
    Services
    → SubStep
    → Kind
    → PipelineStep
    → Map (Map Value)
    → Invocation
    → World
    → Dispatched × World
carry_out sv sub transform step outputs inv w = (transformed sv step.transform outputs, w)
carry_out sv sub webhook step outputs inv w = by_webhook sv step.webhook outputs inv w
carry_out sv sub workflow step outputs inv w = sub step outputs inv w
carry_out sv sub agent step outputs inv w = by_for_each sv step.for_each step outputs inv w
