-- ===== src/Server/Examples.antt =====
-- Callbacks, approvals and decisions on small worlds.
mod Delivered
use ktsu.Prelude.{
  ℕ, String, ◌≡◌, refl, ap, subst, true, false, not, ◌&&◌, Option, none, some, [], ◌∷◌, str_eq, ltb,
  if◌then◌else◌, ◌⊎◌,
}
use mathlib.Core.List.{◌++◌}
use ktsu.Prelude.Map.{Map, lookup, insert, filter_keys}
use ktsu.Prelude.Strings.{has_prefix}
use ktsu.Value.{Value, str, items}
use ktsu.Value.Float.{zero_float, float_lt, float_add}
use ktsu.Output.Reserved.{
  reserved_message, reserved_prefix, ReservedFields, ReservedError, clean, refused, is_flagged,
  confidence_of, string_of, flags_of, strip_reserved, process_reserved,
}
use ktsu.Output.Airlock.{find_reserved, check_required, required_of, validate_input, validate}
use ktsu.State.Records.{absent, encodes, Approval}
use ktsu.State.MemStore.{
  ok, approval_key, get_step, update_step, get_approval, create_approval, update_approval,
  new_mem_store,
}
use ktsu.State.MemStore.Laws.{is_ok}
use ktsu.Agent.Records.{InvokeRequest, CallbackPayload, PendingApproval, Metrics}
use ktsu.Server.World.{World, Runtime, signal, send_sent, send_waiters, Reply}
use ktsu.Server.Redispatch.{
  resume_approved, checkpoint, redispatch_approved, redispatch_recover, redispatch_rejected,
  signal_step_failed, post_to_runtime,
}
use ktsu.Server.Complete.{
  check_output, new_approval, reply_of, accumulate, handle_step_complete, handle_pending_approval,
}
use ktsu.Server.Complete.Delivery.{
  buffer_of, sent_by, put, check_output_lem, handle_step_complete_lem,
}
use ktsu.Server.Complete.Suspend.{timer_of, handle_pending_approval_lem}
use ktsu.Server.Decide.{
  undecided, decide_read, is_decision, decided, decide_write, handle_decide_approval, timeout_read,
  timeout_write, run_approval_timeout,
}
use ktsu.Server.Decide.Effects.{IsKeyed, decided_status}
use ktsu.Server.Decide.Once.{
  completed, decision, timed_out, on_events, on_events-IsKeyed, decided_once,
}
use ktsu.Server.Decide.Race.{both_approved}
use ktsu.Server.Decide.Resumed.{resumed_totals}

pub program : Unit {0}
unfolding process_reserved is_flagged confidence_of string_of flags_of strip_reserved lookup insert
    filter_keys has_prefix float_lt float_add find_reserved check_required required_of validate
    validate_input items approval_key get_step update_step get_approval create_approval
    update_approval signal send_sent send_waiters checkpoint redispatch_approved redispatch_recover
    redispatch_rejected signal_step_failed post_to_runtime check_output accumulate
    handle_step_complete handle_pending_approval decide_read decide_write handle_decide_approval
    timeout_read timeout_write run_approval_timeout
program = tt

abbrev pub spent : ℕ → Metrics
spent tokens = record {
  model_resolved = "openai/gpt-4o";
  tokens_in = tokens;
  tokens_out = 0;
  cost_usd = zero_float;
  duration_ms = 0;
  llm_calls = 1;
  tool_calls = 0;
  reflect_calls = 0;
}

abbrev pub callback : String → Option (Map Value) → CallbackPayload
callback status output = record {
  run_id = "r1";
  step_id = "ask";
  status = status;
  output = output;
  error = "";
  raw_output = "";
  metrics = spent 5;
  is_resume = false;
  messages = [];
  pending_approval = none;
  original_request = absent;
}

abbrev pub asking : PendingApproval
asking = record {
  tool_name = "delete";
  tool_use_id = "t1";
  arguments = none;
  on_reject = "fail";
  timeout_ms = 1000;
  timeout_behavior = "reject";
}

abbrev request : InvokeRequest
request = record {
  run_id = "r1";
  step_id = "ask";
  agent_name = "helper";
  system = "";
  user_message = "clean up";
  reflect = "";
  confidence_threshold = zero_float;
  max_turns = 3;
  model = record { group = "standard"; max_tokens = 100 };
  tool_servers = [];
  callback_url = "";
  output_schema = [];
  messages = [];
  approved_tool_calls = [];
  is_resume = false;
}

abbrev pub suspending : CallbackPayload
suspending = record (callback "pending_approval" none) {
  pending_approval = some asking;
  original_request = encodes request;
}

-- A dispatcher waits for the step.
abbrev pub waiting : World
waiting = record {
  store = new_mem_store;
  waiters = record { run_id = "r1"; step_id = "ask"; buffer = none } ∷ [];
  posts = [];
  timers = [];
  notified = [];
  now = 10;
}

abbrev pub runtime : Runtime
runtime = record { url = "http://runtime"; describe = λ e. ""; answer = λ r. some 202 }

-- The approval of the suspended step is filed.
abbrev the_approval : Approval InvokeRequest
the_approval = new_approval "r1" "ask" 10 suspending asking

abbrev pub filed : World
filed = record waiting {
  store = record { runs = []; steps = []; approvals = ("r1/ask", the_approval) ∷ [] };
  timers = timer_of the_approval ∷ [];
  notified = ("r1", "ask") ∷ [];
}

files : handle_step_complete "r1" "ask" suspending waiting ≡ (some 200, filed)
unfolding program
files = refl

-- An approval and a late timer: the runtime gets one request.
approves :
    (on_events runtime
      (timed_out "r1" "ask" "reject" ∷ [])
      (handle_decide_approval runtime "approved" "r1" "ask" filed).1).posts
    ≡ resume_approved the_approval absent request ∷ []
unfolding program
approves = refl

-- A rejection under the policy "fail" reaches the dispatcher.
rejects : (handle_decide_approval runtime "rejected" "r1" "ask" filed).0 ≡ some 200
unfolding program
rejects = refl

pub empty-IsKeyed : IsKeyed waiting.store
unfolding program
empty-IsKeyed = record { keyed = λ r s a found. cc }

on_events-IsKeyed_example :
    IsKeyed (on_events runtime (completed "r1" "ask" suspending ∷ []) waiting).store
on_events-IsKeyed_example =
    on_events-IsKeyed runtime (completed "r1" "ask" suspending ∷ []) waiting empty-IsKeyed

filed-IsKeyed : IsKeyed filed.store
filed-IsKeyed =
    subst (λ (v : World). IsKeyed v.store) (ap (λ (out : Reply × World). out.1) files)
      (on_events-IsKeyed runtime (completed "r1" "ask" suspending ∷ []) waiting empty-IsKeyed)

found : get_approval "r1" "ask" filed.store ≡ ok the_approval
unfolding program
found = refl

decided_once_example :
    let v =
      on_events runtime
        (timed_out "r1" "ask" "reject" ∷ [])
        (handle_decide_approval runtime "approved" "r1" "ask" filed).1 in
    (get_approval "r1" "ask" v.store ≡ ok (decided (decided_status "approved") 10 the_approval))
    × ((e : String)
        → is_decision e ≡ true
        → handle_decide_approval runtime e "r1" "ask" v ≡ (some 409, v))
    × ((behavior : String) → run_approval_timeout runtime "r1" "ask" behavior v ≡ v)
decided_once_example =
    decided_once runtime "approved" "r1" "ask" the_approval filed
      (timed_out "r1" "ask" "reject" ∷ []) filed-IsKeyed found refl refl

reads : decide_read "approved" "r1" "ask" filed ≡ undecided the_approval
unfolding program
reads = refl

both_approved_example :
    let (first, v) = decide_write runtime "approved" the_approval filed in
    let (second, u) = decide_write runtime "approved" the_approval v in
    (first ≡ some 200)
    × (second ≡ some 200)
    × (u.posts
        ≡ ([] ++ resume_approved the_approval (checkpoint the_approval filed) request ∷ [])
          ++ resume_approved the_approval (checkpoint the_approval filed) request ∷ [])
both_approved_example =
    both_approved runtime the_approval request "r1" "ask" filed filed-IsKeyed reads refl refl refl

-- A second approval of the same step, behind the first.
handle_pending_approval_lem_example :
    let (reply, v) = handle_pending_approval "r1" "ask" suspending filed in
    let a = new_approval "r1" "ask" 10 suspending asking in
    let known = is_ok (get_approval "r1" "ask" filed.store) in
    (reply ≡ some 200)
    × (get_approval "r1" "ask" v.store
        ≡ (if known then get_approval "r1" "ask" filed.store else ok a))
    × (v.notified ≡ (if known then filed.notified else filed.notified ++ ("r1", "ask") ∷ []))
    × (v.timers
        ≡ (if not known && ltb 0 1000 then filed.timers ++ timer_of a ∷ [] else filed.timers))
    × (v.waiters ≡ filed.waiters)
    × (v.posts ≡ filed.posts)
handle_pending_approval_lem_example =
    handle_pending_approval_lem "r1" "ask" suspending asking filed refl
