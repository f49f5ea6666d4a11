-- ===== src/Runner/Order/Done.antt =====
-- The outputs behind the steps that end without an error (internal/orchestrator/runner/runner.go).
use Prim.Native.String.{String}
use ktsu.Prelude.{◌≡◌, refl, Option, none, some, Bool-cases, inl, inr}
use ktsu.Prelude.Map.{Map, insert}
use ktsu.Value.{Value}
use ktsu.State.Records.{Step}
use ktsu.State.Status
use ktsu.State.MemStore.{create_step}
use ktsu.Runner.Steps.{PipelineStep, World, Dispatched, Services}
use ktsu.Runner.Execute.{
  now, ticked, error_of, new_step, Kind, started, is_off, condition_false, Settled, complete,
  skipped, broken, settle, Invocation, SubStep, carry_out, fail_run, agent_flag, context_of,
  Progress, finish_step, by_settled, by_error, after_run, after_create, created, root_kind,
  root_step,
}

-- A step that ends without an error has put its output under its id.
pub record Puts (id : String) (outputs : Map (Map Value)) (x : Option String × Progress)
    : Type 0 where
  pub output_of : x.0 ≡ none → (out : Map Value) × (x.1.outputs ≡ insert id out outputs)

module _ (sv : Services) (inv : Invocation) (step : PipelineStep) where
  finish_step-Puts :
      (rec : Step) (out : Map Value) (outputs : Map (Map Value)) (w : World)
      → Puts step.id outputs (finish_step step.id rec out outputs w)
  finish_step-Puts rec out outputs w = record { output_of = λ e. (out, refl) }

  by_settled-Puts :
      (rec : Step) (x : Settled) (outputs : Map (Map Value)) (w : World)
      → Puts step.id outputs (by_settled sv inv step rec x outputs w)
  by_settled-Puts rec (broken m) outputs w = record {
    output_of = λ e. absurd (unfold fail_run in cc);
  }
  by_settled-Puts rec (skipped out) outputs w =
      finish_step-Puts (record rec { status = Status.skipped; ended_at = some (now sv w) }) out
        outputs (ticked w)
  by_settled-Puts rec (complete out) outputs w =
      finish_step-Puts
        (record rec {
          status = Status.complete;
          output = some out;
          ended_at = some (now sv w);
          reflected = agent_flag step rec.metrics;
        })
        out outputs (ticked w)

  by_error-Puts :
      (rec : Step) (x : Option String) (raw : Map Value) (outputs : Map (Map Value)) (w : World)
      → Puts step.id outputs (by_error sv inv step rec x raw outputs w)
  by_error-Puts rec (some m) raw outputs w = record {
    output_of = λ e. absurd (unfold fail_run in cc);
  }
  by_error-Puts rec none raw outputs w = by_settled-Puts rec (settle step raw) outputs w

  after_run-Puts :
      (rec : Step) (outputs : Map (Map Value)) (x : Dispatched × World)
      → Puts step.id outputs (after_run sv inv step rec outputs x)
  after_run-Puts rec outputs (r, w) =
      by_error-Puts (record rec { metrics = r.metrics }) r.error r.output outputs w

  after_create-Puts :
      (sub : SubStep) (kind : Kind) (rec : Step) (outputs : Map (Map Value)) (w : World)
      → Puts step.id outputs (after_create sv sub inv kind step rec outputs w)
  after_create-Puts sub kind rec outputs w =
      elim (Bool-cases (is_off sv.library step.condition (context_of inv outputs))) [
        | inl e ↦ rw e (
            finish_step-Puts (record rec { status = Status.skipped; ended_at = some (now sv w) })
              condition_false outputs (ticked w))
        | inr e ↦ rw e (after_run-Puts rec outputs (carry_out sv sub kind step outputs inv w))
      ]

  created-Puts :
      (o : Option String) (w : World) (k : World → Option String × Progress)
      (outputs : Map (Map Value))
      → Puts step.id outputs (k w)
      → Puts step.id outputs (created o step w k outputs)
  created-Puts (some m) w k outputs h = record { output_of = λ e. absurd cc }
  created-Puts none w k outputs h = h

  pub root_step-Puts :
      (sub : SubStep) (p : Progress) → Puts step.id p.outputs (root_step sv sub inv step p)
  unfolding root_step
  root_step-Puts sub p =
      let rec = started inv.run.id (root_kind step) Status.running (now sv p.world) step in
      let w = ticked p.world in
      created-Puts (error_of (create_step rec w.store).0) (new_step rec w)
        (λ v. after_create sv sub inv (root_kind step) step rec p.outputs v) p.outputs
        (after_create-Puts sub (root_kind step) rec p.outputs (new_step rec w))
