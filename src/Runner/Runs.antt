-- ===== src/Runner/Runs.antt =====
-- Which runs of the store the steps of a workflow may change, by the lengths of their ids
-- (internal/orchestrator/runner/runner.go).
pub mod Nested
pub mod Whole
pub mod Ends
pub mod Carried
use Prim.Native.String.{String, ◌++◌ as append}
use text.Mathlib.TextLemmas.{nil-append, cons-append}
use ktsu.Prelude.{
  ℕ, zero, suc, ◌+◌, ◌≤◌, ◌<◌, ◌≡◌, refl, sym, ap, subst, ◌∙◌, Bool, true, false, not, ◌&&◌, Option,
  none, some, List, [], ◌∷◌, arith, str_eq, eq_iff, if◌then◌else◌, Bool-cases, Option-cases, inl,
  inr,
}
use ktsu.Prelude.Map.{Map, lookup, insert, lookup-insert, is_some}
use ktsu.Prelude.Answer.{Answer, got, failed}
use ktsu.Value.{Value, Values, int, arr, obj, items, fields}
use ktsu.State.Records.{Run, Step}
use ktsu.State.MemStore.{
  Result, ok, err, create_run, update_run, create_step, update_step, copy_run,
}
use ktsu.Runner.Expr.{Library, as_objects, build_expr_context, sanitize_expr}
use ktsu.State.Status
use ktsu.Config.Values.{resolve_value}
use ktsu.Runner.Template.{text_length, scrub_string, interpolate_templates}
use ktsu.Runner.Steps.{
  PipelineStep, ForEachSpec, WebhookSpec, World, Dispatched, Services, and_got, with_agent_params,
  dispatch_agent, prefixed, or_post, agent_params, resolve_agent_templates, execute_agent,
  execute_webhook, send_webhook, webhook_body,
}
use ktsu.Runner.Steps.Fanout.{
  Dispatch, limited, search_ctx, item_input, over_items, dispatch_items, execute_fanout, fan_out,
  run_items,
}
use ktsu.Runner.Execute.{
  now, ticked, stored_run, stored_step, new_step, Kind, workflow, agent, transform, webhook,
  Invocation, SubStep, carry_out, fail_run, by_for_each, by_webhook,
}

-- The runs with ids of less than `n` characters are those of before.
pub record Keeps (n : ℕ) (w v : World) : Type 0 where
  pub kept : (y : String) → text_length y < n → lookup y v.store.runs ≡ lookup y w.store.runs

-- What the theorems ask of the dispatcher: its callbacks change no run. So do those of
-- internal/orchestrator/server.go, which write steps and approvals.
pub record IsOrderly (sv : Services) : Type 0 where
  pub keeps_runs :
      (d : Dispatch)
      → sv.dispatch ≡ some d
      → (run_id id : String) (step : PipelineStep) (input : Map Value) (w : World)
      → (d run_id id step input w).1.store.runs ≡ w.store.runs

pub Keeps-then : {n : ℕ} {w v u : World} → Keeps n w v → Keeps n v u → Keeps n w u
Keeps-then h k = record { kept = λ y lt. k.kept y lt ∙ h.kept y lt }

pub Keeps-same : (n : ℕ) (w v : World) → v.store.runs ≡ w.store.runs → Keeps n w v
Keeps-same n w v same = record { kept = λ y lt. ap (lookup y) same }

text_lengths : (r y : String) (n : ℕ) → n ≤ text_length r → text_length y < n → str_eq r y ≡ false
text_lengths r y n le lt = elim (Bool-cases (str_eq r y)) [
  | inl same ↦ absurd (omega (arith, ap text_length ((eq_iff r y).0 same)))
  | inr other ↦ other
]

pub Keeps-stored_run :
    (n : ℕ) (r : Run) (w : World) → n ≤ text_length r.id → Keeps n w (stored_run r w)
unfolding update_run
Keeps-stored_run n r w le = record {
  kept = λ y lt.
      ground (arith, text_lengths r.id y n le lt, lookup-insert r.id y (copy_run r) w.store.runs);
}

pub Keeps-create_run :
    (n : ℕ) (r : Run) (w : World)
    → n ≤ text_length r.id
    → Keeps n w (record w { store = (create_run r w.store).1 })
unfolding create_run
Keeps-create_run n r w le = record {
  kept = λ y lt.
      ground (arith, text_lengths r.id y n le lt, lookup-insert r.id y (copy_run r) w.store.runs);
}

pub Keeps-ticked : (n : ℕ) (w : World) → Keeps n w (ticked w)
Keeps-ticked n w = Keeps-same n w (ticked w) refl

pub Keeps-stored_step : (n : ℕ) (s : Step) (w : World) → Keeps n w (stored_step s w)
unfolding update_step
Keeps-stored_step n s w = record { kept = λ y lt. ground arith }

pub Keeps-new_step : (n : ℕ) (s : Step) (w : World) → Keeps n w (new_step s w)
unfolding create_step
Keeps-new_step n s w = record { kept = λ y lt. ground arith }

pub Keeps-fail_run :
    (n : ℕ) (sv : Services) (inv : Invocation) (rec : Step) (e : String) (w : World)
    → n ≤ text_length inv.run.id
    → Keeps n w (fail_run sv inv rec e w).1
unfolding fail_run
Keeps-fail_run n sv inv rec e w le =
    let failed_step = record rec {
      status = Status.failed;
      error = scrub_string e inv.scrub;
      ended_at = some (now sv w);
    } in
    let failed_run = record inv.run {
      status = Status.failed;
      error = scrub_string e inv.scrub;
      updated_at = now sv w;
    } in
    Keeps-then (Keeps-ticked n w) (
      Keeps-then (Keeps-stored_step n failed_step (ticked w))
        (Keeps-stored_run n failed_run (stored_step failed_step (ticked w)) le))

pub text_length-append : (s t : String) → text_length (append s t) ≡ text_length s + text_length t
text_length-append String.[] t = omega (arith, ap text_length (nil-append t))
text_length-append (String.◌∷◌ c s) t =
    omega (arith, ap text_length (cons-append c s t), text_length-append s t)
