-- ===== src/Runner/Runs/Whole.antt =====
-- How Execute of internal/orchestrator/runner/runner.go leaves the run that it creates.
use Prim.Native.String.{String, ◌++◌ as append}
use ktsu.Prelude.{
  ℕ, suc, ◌≡◌, ◌⊎◌, refl, ◌∙◌, Option, none, some, List, [], ◌∷◌, arith, eq_iff, Bool-cases, inl,
  inr,
}
use ktsu.Prelude.Map.{Map, lookup, lookup-insert}
use ktsu.Value.{Value}
use ktsu.State.Records.{Run, Step}
use ktsu.State.Status
use ktsu.State.MemStore.{update_run, create_step, update_step, copy_run}
use ktsu.Runner.Template.{text_length, scrub_string}
use ktsu.Runner.Steps.{PipelineStep, World, Dispatched, Services}
use ktsu.Runner.Execute.{
  now, ticked, error_of, stored_run, stored_step, new_step, Kind, started, is_off, condition_false,
  Settled, complete, skipped, broken, settle, Invocation, carry_out, fail_run, agent_flag,
  context_of, step_by_id, Progress, put_output, update_error, finish_step, by_settled, by_error,
  after_run, after_create, created, root_kind, root_step, at_step, and_step, run_ids,
}
use ktsu.Runner.Sub.{nested}
use ktsu.Runner.Runs.Carried.{carry_out-Keeps}
use ktsu.Runner.Runs.{Keeps, IsOrderly, Keeps-then, Keeps-ticked, Keeps-stored_step, Keeps-new_step}
use ktsu.Runner.Runs.Nested.{nested-Keeps}

-- The store holds the run as it was created.
pub record Holds (r : Run) (w : World) : Type 0 where
  pub held : lookup r.id w.store.runs ≡ some (copy_run r)

-- The errors of the store that Execute hands on.
pub record IsStoreError (e : String) : Type 0 where
  pub step_id : String
  pub reason : String
  pub text :
      (e ≡ append "create step " (append step_id (append ": " reason)))
      ⊎ (e ≡ append "update step " (append step_id (append ": " reason)))

-- The run has failed with the error.
pub record HasFailed (id e : String) (w : World) : Type 0 where
  pub run : Run
  pub stored : lookup id w.store.runs ≡ some run
  pub status : run.status ≡ Status.failed
  pub error : run.error ≡ e

-- The state of the run, with the error so far.
abbrev pub IsSound : Run → Option String → World → Type 0
IsSound r none w = Holds r w
IsSound r (some e) w = HasFailed r.id e w ⊎ (Holds r w × IsStoreError e)

Holds-Keeps : (r : Run) (w v : World) → Holds r w → Keeps (suc (text_length r.id)) w v → Holds r v
Holds-Keeps r w v h k = record { held = k.kept r.id (omega arith) ∙ h.held }

update_step-error :
    (id : String) (o : Option String) (r : Run) (p : Progress)
    → Holds r p.world
    → IsSound r (update_error id o) p.world
update_step-error id none r p h = h
update_step-error id (some e) r p h = inr (h, record { step_id = id; reason = e; text = inr refl })

pub update_run-stored :
    (r q : Run) (w : World)
    → lookup r.id w.store.runs ≡ some q
    → lookup r.id (stored_run r w).store.runs ≡ some (copy_run r)
unfolding update_run
update_run-stored r q w h =
    ground (arith, h, lookup-insert r.id r.id (copy_run r) w.store.runs, eq_iff r.id r.id)

pub update_run-error :
    (r q : Run) (w : World)
    → lookup r.id w.store.runs ≡ some q
    → error_of (update_run r w.store).0 ≡ none
unfolding update_run
update_run-error r q w h = ground (arith, h)

fail_run-IsSound :
    (sv : Services) (inv : Invocation) (rec : Step) (message : String) (w : World)
    → Holds inv.run w
    → IsSound inv.run (fail_run sv inv rec message w).0 (fail_run sv inv rec message w).1
unfolding fail_run
fail_run-IsSound sv inv rec message w h =
    let text = scrub_string message inv.scrub in
    let failed_step : Step = record rec {
      status = Status.failed;
      error = text;
      ended_at = some (now sv w);
    } in
    let failed_run : Run = record inv.run {
      status = Status.failed;
      error = text;
      updated_at = now sv w;
    } in
    let v = stored_step failed_step (ticked w) in
    let held = Holds-Keeps inv.run w v h (
      Keeps-then (Keeps-ticked (suc (text_length inv.run.id)) w)
        (Keeps-stored_step (suc (text_length inv.run.id)) failed_step (ticked w))) in
    inl record {
      run = copy_run failed_run;
      stored = update_run-stored failed_run (copy_run inv.run) v held.held;
      status = unfold copy_run in refl;
      error = unfold copy_run in refl;
    }

-- The state of the run behind the result of a step.
abbrev IsSoundStep : Run → Option String × Progress → Type 0
IsSoundStep r x = IsSound r x.0 x.1.world

module _ (sv : Services) (inv : Invocation) where
  abbrev width : ℕ
  width = suc (text_length inv.run.id)

  finish_step-IsSound :
      (id : String) (rec : Step) (out : Map Value) (outputs : Map (Map Value)) (w : World)
      → Holds inv.run w
      → IsSoundStep inv.run (finish_step id rec out outputs w)
  finish_step-IsSound id rec out outputs w h =
      update_step-error id (error_of (update_step rec w.store).0) inv.run
        (put_output id out (stored_step rec w) outputs)
        (Holds-Keeps inv.run w (stored_step rec w) h (Keeps-stored_step width rec w))

  by_settled-IsSound :
      (step : PipelineStep) (rec : Step) (x : Settled) (outputs : Map (Map Value)) (w : World)
      → Holds inv.run w
      → IsSoundStep inv.run (by_settled sv inv step rec x outputs w)
  by_settled-IsSound step rec (broken e) outputs w h = fail_run-IsSound sv inv rec e w h
  by_settled-IsSound step rec (skipped out) outputs w h =
      finish_step-IsSound step.id
        (record rec { status = Status.skipped; ended_at = some (now sv w) }) out outputs (ticked w)
        (Holds-Keeps inv.run w (ticked w) h (Keeps-ticked width w))
  by_settled-IsSound step rec (complete out) outputs w h =
      finish_step-IsSound step.id
        (record rec {
          status = Status.complete;
          output = some out;
          ended_at = some (now sv w);
          reflected = agent_flag step rec.metrics;
        })
        out outputs (ticked w) (Holds-Keeps inv.run w (ticked w) h (Keeps-ticked width w))

  by_error-IsSound :
      (step : PipelineStep) (rec : Step) (x : Option String) (raw : Map Value)
      (outputs : Map (Map Value)) (w : World)
      → Holds inv.run w
      → IsSoundStep inv.run (by_error sv inv step rec x raw outputs w)
  by_error-IsSound step rec (some e) raw outputs w h = fail_run-IsSound sv inv rec e w h
  by_error-IsSound step rec none raw outputs w h =
      by_settled-IsSound step rec (settle step raw) outputs w h

  after_run-IsSound :
      (step : PipelineStep) (rec : Step) (outputs : Map (Map Value)) (x : Dispatched × World)
      → Holds inv.run x.1
      → IsSoundStep inv.run (after_run sv inv step rec outputs x)
  after_run-IsSound step rec outputs (r, w) h =
      by_error-IsSound step (record rec { metrics = r.metrics }) r.error r.output outputs w h

  created-IsSound :
      (o : Option String) (step : PipelineStep) (w : World) (k : World → Option String × Progress)
      (outputs : Map (Map Value))
      → Holds inv.run w
      → IsSoundStep inv.run (k w)
      → IsSoundStep inv.run (created o step w k outputs)
  created-IsSound (some e) step w k outputs h sound =
      inr (h, record { step_id = step.id; reason = e; text = inl refl })
  created-IsSound none step w k outputs h sound = sound

  at_step-IsSound :
      (run : PipelineStep → Progress → Option String × Progress)
      → ((step : PipelineStep) (p : Progress)
          → Holds inv.run p.world
          → IsSoundStep inv.run (run step p))
      → (o : Option PipelineStep) (p : Progress) → Holds inv.run p.world
      → IsSoundStep inv.run (at_step run o p)
  at_step-IsSound run each none p h = h
  at_step-IsSound run each (some step) p h = each step p h

  and_step-IsSound :
      (x : Option String × Progress) (k : Progress → Option String × Progress)
      → IsSoundStep inv.run x
      → ((p : Progress) → Holds inv.run p.world → IsSoundStep inv.run (k p))
      → IsSoundStep inv.run (and_step x k)
  and_step-IsSound (some e, p) k h next = h
  and_step-IsSound (none, p) k h next = next p h

  pub run_ids-IsSound :
      (run : PipelineStep → Progress → Option String × Progress)
      → ((step : PipelineStep) (p : Progress)
          → Holds inv.run p.world
          → IsSoundStep inv.run (run step p))
      → (steps : List PipelineStep) (ids : List String) (p : Progress) → Holds inv.run p.world
      → IsSoundStep inv.run (run_ids run steps ids p)
  unfolding run_ids
  run_ids-IsSound run each steps [] p h = h
  run_ids-IsSound run each steps (id ∷ ids) p h =
      and_step-IsSound (at_step run (step_by_id steps id) p) (λ q. run_ids run steps ids q)
        (at_step-IsSound run each (step_by_id steps id) p h)
        (λ q held. run_ids-IsSound run each steps ids q held)

module _ (sv : Services) (orderly : IsOrderly sv) (depth : ℕ) (inv : Invocation) where
  after_create-IsSound :
      (kind : Kind) (step : PipelineStep) (rec : Step) (outputs : Map (Map Value)) (w : World)
      → Holds inv.run w
      → IsSoundStep inv.run (after_create sv (nested depth sv) inv kind step rec outputs w)
  after_create-IsSound kind step rec outputs w h =
      elim (Bool-cases (is_off sv.library step.condition (context_of inv outputs))) [
        | inl e ↦ rw e (
            finish_step-IsSound sv inv step.id
              (record rec { status = Status.skipped; ended_at = some (now sv w) }) condition_false
              outputs (ticked w)
              (Holds-Keeps inv.run w (ticked w) h (Keeps-ticked (width sv inv) w)))
        | inr e ↦
            let x = carry_out sv (nested depth sv) kind step outputs inv w in
            rw e (
              after_run-IsSound sv inv step rec outputs x (
                Holds-Keeps inv.run w x.1 h (
                  carry_out-Keeps (width sv inv) sv (nested depth sv) orderly
                    (λ s o i v. nested-Keeps (width sv inv) depth sv orderly s o i v) kind step
                    outputs inv w (omega arith))))
      ]

  pub root_step-IsSound :
      (step : PipelineStep) (p : Progress)
      → Holds inv.run p.world
      → IsSoundStep inv.run (root_step sv (nested depth sv) inv step p)
  unfolding root_step
  root_step-IsSound step p h =
      let rec = started inv.run.id (root_kind step) Status.running (now sv p.world) step in
      let w = ticked p.world in
      let held =
        Holds-Keeps inv.run p.world (new_step rec w) h (
          Keeps-then (Keeps-ticked (width sv inv) p.world) (Keeps-new_step (width sv inv) rec w)) in
      created-IsSound sv inv (error_of (create_step rec w.store).0) step (new_step rec w)
        (λ v. after_create sv (nested depth sv) inv (root_kind step) step rec p.outputs v) p.outputs
        held (after_create-IsSound (root_kind step) step rec p.outputs (new_step rec w) held)
