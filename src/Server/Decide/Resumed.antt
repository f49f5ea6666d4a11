-- ===== src/Server/Decide/Resumed.antt =====
-- What a step delivers that was suspended for an approval: the callbacks around the decision
-- (handleStepComplete, handlePendingApproval and handleDecideApproval of internal/orchestrator/server.go).
use ktsu.Prelude.{
  ◌+◌, String, ◌≡◌, refl, ap, ◌∙◌, true, false, Bool-cases, inl, inr, Option, none, some, List, ◌∷◌,
  [], str_eq, eq_iff,
}
use ktsu.Prelude.Map.{Map}
use ktsu.Value.{Value}
use ktsu.Value.Float.{float_add, zero_float}
use ktsu.Output.Reserved.{Processed, clean, refused, process_reserved}
use ktsu.Output.Airlock.{Verdict, valid, missing_field, reserved_field, validate}
use ktsu.State.Records.{Approval}
use ktsu.State.MemStore.{ok, get_approval}
use ktsu.State.MemStore.Laws.{is_ok}
use ktsu.Agent.Records.{InvokeRequest, CallbackPayload, PendingApproval}
use ktsu.Server.World.{World, Runtime, partial_step}
use ktsu.Server.Complete.{
  check_output, after_airlock, after_reserved, accumulate, add_partial, new_approval,
  handle_step_complete, handle_pending_approval,
}
use ktsu.Server.Complete.Delivery.{buffer_of, handle_step_complete_lem}
use ktsu.Server.Complete.Suspend.{handle_pending_approval_lem}
use ktsu.Server.Decide.{is_decision}
use ktsu.Server.Decide.Effects.{IsKeyed}
use ktsu.Server.Decide.Once.{Event, completed, decision, on_events, on_events-IsKeyed, decided_once}

-- The checks of the output change neither the metrics nor the mark of a resume.
abbrev SameLeg : CallbackPayload → CallbackPayload → Type 0
SameLeg p x = (x.is_resume ≡ p.is_resume) × (x.metrics ≡ p.metrics)

after_airlock-SameLeg :
    (v : Verdict) (out : Map Value) (p : CallbackPayload) → SameLeg p (after_airlock v out p)
after_airlock-SameLeg valid out p = (refl, refl)
after_airlock-SameLeg (missing_field f) out p = (refl, refl)
after_airlock-SameLeg (reserved_field f) out p = (refl, refl)

after_reserved-SameLeg : (x : Processed) (p : CallbackPayload) → SameLeg p (after_reserved x p)
after_reserved-SameLeg (refused e) p = (refl, refl)
after_reserved-SameLeg (clean out reserved reason) p = elim (Bool-cases (str_eq reason "")) [
  | inl e ↦ rw e (after_airlock-SameLeg (validate out none (some reserved)) out p)
  | inr e ↦ rw e (refl, refl)
]

check_output-SameLeg : (o : Option (Map Value)) (p : CallbackPayload) → SameLeg p (check_output o p)
unfolding check_output
check_output-SameLeg none p = (refl, refl)
check_output-SameLeg (some raw) p = elim (Bool-cases (str_eq p.status "ok")) [
  | inl e ↦ rw e (after_reserved-SameLeg (process_reserved raw zero_float) p)
  | inr e ↦ rw e (refl, refl)
]

-- The approval that a suspended step files stands decided behind the decision, whatever follows.
decided_partial :
    (rt : Runtime) (d r s : String) (p : CallbackPayload) (pa : PendingApproval) (w : World)
    (es : List Event)
    → IsKeyed w.store
    → is_ok (get_approval r s w.store) ≡ false
    → str_eq p.status "pending_approval" ≡ true
    → p.pending_approval ≡ some pa
    → is_decision d ≡ true
    → (a : Approval InvokeRequest) × (get_approval r s
          (on_events rt (completed r s p ∷ decision d r s ∷ es) w).store
        ≡ ok a)
      × (a.partial_metrics ≡ partial_step p.metrics)
unfolding handle_step_complete
decided_partial rt d r s p pa w es k fresh suspends asked named =
    let a = new_approval r s w.now p pa in
    let filed : get_approval r s (handle_pending_approval r s p w).1.store ≡ ok a =
      rw fresh at (handle_pending_approval_lem r s p pa w asked).1 in
    let v = (handle_step_complete r s p w).1 in
    let found : get_approval r s v.store ≡ ok a = rw suspends filed in
    let (stands, _, _) =
      decided_once rt d r s a v es (on_events-IsKeyed rt (completed r s p ∷ []) w k) found refl
        named in
    (_, stands, refl)

-- Where every approval stands under the text of its own run and step: a step without an approval asks for one, it
-- is approved or rejected, and callbacks, decisions and timers may follow. If then a resume that does not ask for an
-- approval arrives while the channel of the step is empty, the answer is 200 and the channel holds the resume with
-- its output checked. The token counts, the cost, and the counts of model and tool calls that it
-- delivers are those of the resume plus those of the leg before the approval; the
-- other metrics are those of the resume.
pub resumed_totals :
    (rt : Runtime) (d r s : String) (p q : CallbackPayload) (pa : PendingApproval) (w : World)
    (es : List Event)
    → IsKeyed w.store
    → is_ok (get_approval r s w.store) ≡ false
    → str_eq p.status "pending_approval" ≡ true
    → p.pending_approval ≡ some pa
    → is_decision d ≡ true
    → buffer_of r s (on_events rt (completed r s p ∷ decision d r s ∷ es) w).waiters ≡ some none
    → q.is_resume ≡ true
    → str_eq q.status "pending_approval" ≡ false
    → let (reply, v) =
        handle_step_complete r s q (on_events rt (completed r s p ∷ decision d r s ∷ es) w) in
      (reply ≡ some 200)
      × (buffer_of r s v.waiters
          ≡ some (
              some (record (check_output q.output q) {
                metrics = record q.metrics {
                  tokens_in = q.metrics.tokens_in + p.metrics.tokens_in;
                  tokens_out = q.metrics.tokens_out + p.metrics.tokens_out;
                  cost_usd = float_add q.metrics.cost_usd p.metrics.cost_usd;
                  llm_calls = q.metrics.llm_calls + p.metrics.llm_calls;
                  tool_calls = q.metrics.tool_calls + p.metrics.tool_calls;
                };
              })))
unfolding accumulate
resumed_totals rt d r s p q pa w es k fresh suspends asked named empty resume other =
    let v = on_events rt (completed r s p ∷ decision d r s ∷ es) w in
    let (a, found, leg) = decided_partial rt d r s p pa w es k fresh suspends asked named in
    let (reply, writes, _) = handle_step_complete_lem r s q v other in
    let x = check_output q.output q in
    let (same_mark, same_metrics) = check_output-SameLeg q.output q in
    let mark : x.is_resume ≡ true = same_mark ∙ resume in
    let total : accumulate v.store r s x
        ≡ record x { metrics = add_partial (partial_step p.metrics) q.metrics } =
      rw (mark, found, leg, same_metrics) refl in
    let own_run : str_eq r r ≡ true = (eq_iff r r).1 refl in
    let own_step : str_eq s s ≡ true = (eq_iff s s).1 refl in
    (
      reply ∙ rw empty refl,
      writes r s
          ∙ (rw (own_run, own_step, empty) (ap (λ (z : CallbackPayload). some (some z)) total)),
    )
