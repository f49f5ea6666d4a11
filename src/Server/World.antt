-- ===== src/Server/World.antt =====
-- What the handlers of internal/orchestrator/server.go read and change: the store, the channels of
-- the waiting dispatchers, and what went out to the runtime, to webhooks and to timers.
use ktsu.Prelude.{
  ℕ, String, Bool, false, ◌&&◌, Option, none, some, List, [], ◌∷◌, str_eq, if◌then◌else◌,
}
use ktsu.State.Records.{StepMetrics}
use ktsu.State.MemStore.{MemStore}
use ktsu.Agent.Records.{InvokeRequest, Metrics, CallbackPayload}

-- An entry of pendingCallbacks: a channel with room for one payload.
pub record Waiter : Type 0 where
  pub run_id : String
  pub step_id : String
  pub buffer : Option CallbackPayload

-- A started runApprovalTimeout.
pub record Timer : Type 0 where
  pub run_id : String
  pub step_id : String
  pub timeout_ms : ℕ
  pub behavior : String

pub record World : Type 0 where
  pub store : MemStore InvokeRequest
  pub waiters : List Waiter
  -- the requests that were POSTed to the runtime
  pub posts : List InvokeRequest
  pub timers : List Timer
  -- the calls of fireApprovalWebhooks, by run and step; they change nothing here
  pub notified : List (String × String)
  pub now : ℕ

-- The `error` of a redispatch.
pub data Failure : Type 0 where
  not_configured bad_request post_failed : Failure
  runtime_returned : ℕ → Failure

-- What the handlers call outside: the answer of the runtime to a POST, `none` for a failed one.
-- An empty URL means that no runtime is configured.
pub record Runtime : Type 0 where
  pub url : String
  -- the text of an error, of which encoding/json and net/http give parts
  pub describe : Failure → String
  pub answer : InvokeRequest → Option ℕ

-- How a send on the channel of a step ends. A full channel blocks the handler.
pub data Sent : Type 0 where
  delivered no_waiter blocked : Sent

abbrev pub is_for : String → String → Waiter → Bool
is_for run_id step_id w = str_eq w.run_id run_id && str_eq w.step_id step_id

abbrev pub sent_to : Option CallbackPayload → Sent
sent_to none = delivered
sent_to (some _) = blocked

abbrev pub filled : Waiter → CallbackPayload → Waiter
filled w payload = elim w.buffer [ none ↦ record w { buffer = some payload } | some _ ↦ w ]

unfoldable pub send_sent : String → String → List Waiter → Sent
send_sent run_id step_id [] = no_waiter
send_sent run_id step_id (w ∷ ws) =
    if is_for run_id step_id w then sent_to w.buffer else send_sent run_id step_id ws

unfoldable pub send_waiters : String → String → CallbackPayload → List Waiter → List Waiter
send_waiters run_id step_id payload [] = []
send_waiters run_id step_id payload (w ∷ ws) =
    if is_for run_id step_id w
    then filled w payload ∷ ws
    else w ∷ send_waiters run_id step_id payload ws

-- ch, ok := s.pendingCallbacks[key]; if ok { ch <- payload }
unfoldable pub signal : String → String → CallbackPayload → World → Sent × World
signal run_id step_id payload w = (
  send_sent run_id step_id w.waiters,
  record w { waiters = send_waiters run_id step_id payload w.waiters },
)

-- The answer of a handler: a status code, or none while it is blocked.
abbrev pub Reply : Type 0
Reply = Option ℕ

-- The metrics that travel with approvals: the others are 0.
abbrev pub partial_step : Metrics → StepMetrics
partial_step m = record {
  duration_ms = 0;
  tokens_in = m.tokens_in;
  tokens_out = m.tokens_out;
  cost_usd = m.cost_usd;
  llm_calls = m.llm_calls;
  tool_calls = m.tool_calls;
  reflected = false;
  reflect_calls = 0;
}

abbrev pub partial_metrics : StepMetrics → Metrics
partial_metrics m = record {
  model_resolved = "";
  tokens_in = m.tokens_in;
  tokens_out = m.tokens_out;
  cost_usd = m.cost_usd;
  duration_ms = 0;
  llm_calls = m.llm_calls;
  tool_calls = m.tool_calls;
  reflect_calls = 0;
}
