-- ===== src/Server/Complete.antt =====
-- handleStepComplete and handlePendingApproval of internal/orchestrator/server.go.
pub mod Delivery
pub mod Suspend
use ktsu.Prelude.{
  ℕ, ◌+◌, ◌<◌, String, Bool, true, false, ◌&&◌, Option, none, some, List, [], ◌∷◌, str_eq, ltb,
  if◌then◌else◌,
}
use mathlib.Core.List.{◌++◌}
use Prim.Native.String.{◌++◌ as append}
use ktsu.Prelude.Map.{Map}
use ktsu.Value.{Value}
use ktsu.Value.Float.{float_add, zero_float}
use ktsu.Output.Reserved.{
  reserved_message, ReservedFields, ReservedError, injection, untrusted, low_quality, needs_human,
  low_confidence, Processed, clean, refused, process_reserved,
}
use ktsu.Output.Airlock.{airlock_message, Verdict, valid, missing_field, reserved_field, validate}
use ktsu.State.Records.{Raw, absent, encodes, malformed, Message, Step, Approval, StepMetrics}
use ktsu.State.Status
use ktsu.State.MemStore.{
  MemStore, Result, ok, err, get_step, update_step, get_approval, create_approval,
}
use ktsu.Agent.Records.{InvokeRequest, Metrics, PendingApproval, CallbackPayload}
use ktsu.Server.World.{
  World, Timer, Sent, delivered, no_waiter, blocked, signal, Reply, partial_step,
}

abbrev pub failed_with : String → CallbackPayload → CallbackPayload
failed_with message p = record p { status = "failed"; error = message; output = none }

abbrev pub after_airlock : Verdict → Map Value → CallbackPayload → CallbackPayload
after_airlock valid out p = record p { output = some out }
after_airlock v out p = failed_with (append "air-lock: " (airlock_message v)) p

abbrev pub after_reserved : Processed → CallbackPayload → CallbackPayload
after_reserved (refused e) p = failed_with (reserved_message e) p
after_reserved (clean out reserved skip_reason) p =
    if str_eq skip_reason ""
    then after_airlock (validate out none (some reserved)) out p
    else record p { status = "skipped"; output = some out }

-- The block behind `payload.Status == \"ok\" && payload.Output != nil`.
unfoldable pub check_output : Option (Map Value) → CallbackPayload → CallbackPayload
check_output none p = p
check_output (some raw) p =
    if str_eq p.status "ok" then after_reserved (process_reserved raw zero_float) p else p

abbrev pub add_partial : StepMetrics → Metrics → Metrics
add_partial partial m = record m {
  tokens_in = m.tokens_in + partial.tokens_in;
  tokens_out = m.tokens_out + partial.tokens_out;
  cost_usd = float_add m.cost_usd partial.cost_usd;
  llm_calls = m.llm_calls + partial.llm_calls;
  tool_calls = m.tool_calls + partial.tool_calls;
}

abbrev pub accumulate_from : Result (Approval InvokeRequest) → CallbackPayload → CallbackPayload
accumulate_from (ok a) p = record p { metrics = add_partial a.partial_metrics p.metrics }
accumulate_from (err e) p = p

-- The metrics of the leg before the approval, on a resume callback.
unfoldable pub accumulate :
    MemStore InvokeRequest → String → String → CallbackPayload → CallbackPayload
accumulate store run_id step_id p =
    if p.is_resume then accumulate_from (get_approval run_id step_id store) p else p

abbrev pub reply_of : Sent → Reply
reply_of delivered = some 200
reply_of no_waiter = some 200
reply_of blocked = none

abbrev with_messages : List Message → Step → Step
with_messages [] step = step
with_messages (m ∷ ms) step = record step { messages = encodes (m ∷ ms) }

-- The step as a pending approval leaves it.
abbrev pub suspended : CallbackPayload → Step → Step
suspended p step =
    with_messages p.messages
      (record step { status = Status.pending_approval; metrics = partial_step p.metrics })

-- if step, err := GetStep(…); err == nil { …; _ = UpdateStep(ctx, step) }
abbrev pub suspend_step :
    Result Step → CallbackPayload → MemStore InvokeRequest → MemStore InvokeRequest
suspend_step (ok step) p store = (update_step (suspended p step) store).1
suspend_step (err e) p store = store

abbrev pub new_approval :
    String → String → ℕ → CallbackPayload → PendingApproval → Approval InvokeRequest
new_approval run_id step_id now p pa = record {
  run_id = run_id;
  step_id = step_id;
  tool_name = pa.tool_name;
  tool_use_id = pa.tool_use_id;
  arguments = pa.arguments;
  on_reject = pa.on_reject;
  timeout_ms = pa.timeout_ms;
  timeout_behavior = pa.timeout_behavior;
  status = Status.pending;
  created_at = now;
  decided_at = none;
  original_request = p.original_request;
  partial_metrics = partial_step p.metrics;
}

-- Behind CreateApproval: the webhooks and, for a timeout, the timer, if it gave no error.
abbrev pub after_create :
    Result (Unit {0}) × MemStore InvokeRequest → Approval InvokeRequest → World → World
after_create (err e, store) a w = record w { store = store }
after_create (ok _, store) a w = record w {
  store = store;
  notified = w.notified ++ (a.run_id, a.step_id) ∷ [];
  timers =
      if ltb 0 a.timeout_ms
      then w.timers
        ++ record {
          run_id = a.run_id;
          step_id = a.step_id;
          timeout_ms = a.timeout_ms;
          behavior = a.timeout_behavior;
        }
          ∷ []
      else w.timers;
}

abbrev pub file_approval :
    Option PendingApproval → String → String → CallbackPayload → World → World
file_approval none run_id step_id p w = w
file_approval (some pa) run_id step_id p w =
    let a = new_approval run_id step_id w.now p pa in after_create (create_approval a w.store) a w

-- handlePendingApproval(runID, stepID, payload); the answer is always 200.
unfoldable pub handle_pending_approval : String → String → CallbackPayload → World → Reply × World
handle_pending_approval run_id step_id p w =
    let store = suspend_step (get_step run_id step_id w.store) p w.store in
    (some 200, file_approval p.pending_approval run_id step_id p (record w { store = store }))

abbrev pub answered : Sent × World → Reply × World
answered (sent, w) = (reply_of sent, w)

-- handleStepComplete, behind the decoding of the payload.
unfoldable pub handle_step_complete : String → String → CallbackPayload → World → Reply × World
handle_step_complete run_id step_id p w =
    if str_eq p.status "pending_approval"
    then handle_pending_approval run_id step_id p w
    else answered
        (signal run_id step_id (accumulate w.store run_id step_id (check_output p.output p)) w)
