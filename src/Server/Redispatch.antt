-- ===== src/Server/Redispatch.antt =====
-- postToRuntime, the three redispatch functions and signalStepFailed of
-- internal/orchestrator/server.go.
use ktsu.Prelude.{
  ℕ, String, true, false, Option, none, some, List, [], ◌∷◌, str_eq, ◌==◌, if◌then◌else◌,
}
use mathlib.Core.List.{◌++◌}
use Prim.Native.String.{◌++◌ as append}
use ktsu.State.Records.{Raw, absent, encodes, malformed, Message, Approval, StepMetrics}
use ktsu.State.MemStore.{ok, err, get_step}
use ktsu.Agent.Records.{InvokeRequest, CallbackPayload}
use ktsu.Server.World.{
  Failure, not_configured, bad_request, post_failed, runtime_returned, World, Runtime, Sent, signal,
  partial_metrics,
}

abbrev pub post_result : Option ℕ → Option Failure
post_result none = some post_failed
post_result (some code) = if code == 202 then none else some (runtime_returned code)

-- postToRuntime(req)
unfoldable pub post_to_runtime : Runtime → InvokeRequest → World → Option Failure × World
post_to_runtime runtime req w =
    (post_result (runtime.answer req), record w { posts = w.posts ++ req ∷ [] })

-- The messages of the step's checkpoint, if the step is there and has any.
abbrev pub message_list : Raw (List Message) → List Message
message_list (encodes ms) = ms
message_list absent = []
message_list malformed = []

unfoldable pub checkpoint : Approval InvokeRequest → World → Raw (List Message)
checkpoint a w = elim (get_step a.run_id a.step_id w.store) [
  | ok step ↦ step.messages
  | err e ↦ absent
]

abbrev restore : Raw (List Message) → InvokeRequest → InvokeRequest
restore (encodes ms) req = record req { messages = ms }
restore absent req = req
restore malformed req = req

abbrev pub resume_approved :
    Approval InvokeRequest → Raw (List Message) → InvokeRequest → InvokeRequest
resume_approved a saved req = record (restore saved req) {
  approved_tool_calls = a.tool_use_id ∷ [];
  is_resume = true;
}

-- json.Unmarshal(approval.OriginalRequest, &req): what is absent is no JSON either.
abbrev pub with_request :
    Raw InvokeRequest
    → (InvokeRequest → World → Option Failure × World)
    → World
    → Option Failure × World
with_request (encodes req) k w = k req w
with_request absent k w = (some bad_request, w)
with_request malformed k w = (some bad_request, w)

-- redispatchApproved(approval)
unfoldable pub redispatch_approved :
    Runtime → Approval InvokeRequest → World → Option Failure × World
redispatch_approved runtime a w =
    if str_eq runtime.url ""
    then (some not_configured, w)
    else with_request a.original_request
        (λ req. post_to_runtime runtime (resume_approved a (checkpoint a w) req)) w

-- The content of the message is the JSON of one tool_result block with the rejection.
abbrev rejection_result : String → String
rejection_result id =
    append
      "[{\"content\":\"Tool call rejected by human reviewer. Please find an alternative approach.\",\"tool_use_id\":\""
      (append id "\",\"type\":\"tool_result\"}]")

abbrev pub resume_rejected :
    Approval InvokeRequest → Raw (List Message) → InvokeRequest → InvokeRequest
resume_rejected a saved req = record req {
  messages =
      message_list saved ++ record { role = "user"; content = rejection_result a.tool_use_id } ∷ [];
  is_resume = true;
}

-- redispatchRecover(approval)
unfoldable pub redispatch_recover :
    Runtime → Approval InvokeRequest → World → Option Failure × World
redispatch_recover runtime a w =
    if str_eq runtime.url ""
    then (some not_configured, w)
    else with_request a.original_request
        (λ req. post_to_runtime runtime (resume_rejected a (checkpoint a w) req)) w

abbrev failed_payload : String → String → String → StepMetrics → CallbackPayload
failed_payload run_id step_id message partial = record {
  run_id = run_id;
  step_id = step_id;
  status = "failed";
  output = none;
  error = message;
  raw_output = "";
  metrics = partial_metrics partial;
  is_resume = false;
  messages = [];
  pending_approval = none;
  original_request = absent;
}

-- signalStepFailed(runID, stepID, errMsg, partial)
unfoldable pub signal_step_failed : String → String → String → StepMetrics → World → Sent × World
signal_step_failed run_id step_id message partial =
    signal run_id step_id (failed_payload run_id step_id message partial)

abbrev after_recover : Runtime → Approval InvokeRequest → Option Failure × World → Sent × World
after_recover runtime a (none, w) = (Sent.delivered, w)
after_recover runtime a (some e, w) =
    signal_step_failed a.run_id a.step_id
      (append "approval rejected (recover dispatch failed): " (runtime.describe e))
      a.partial_metrics w

-- redispatchRejected(approval): every policy but "recover" fails the step.
unfoldable pub redispatch_rejected : Runtime → Approval InvokeRequest → World → Sent × World
redispatch_rejected runtime a w =
    if str_eq a.on_reject "recover"
    then after_recover runtime a (redispatch_recover runtime a w)
    else signal_step_failed a.run_id a.step_id
        (append "tool call rejected by reviewer: " a.tool_name) a.partial_metrics w
