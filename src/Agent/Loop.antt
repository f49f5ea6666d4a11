-- ===== src/Agent/Loop.antt =====
-- The reasoning loop of internal/runtime/agent/loop.go. The gateway, the tool servers and
-- encoding/json are parameters; every call of them is kept in a log, newest first.
pub mod Turns
pub mod Bounds
pub mod Permitted
pub mod Limit
pub use ktsu.Prelude.Answer.{Answer, got, failed}
use ktsu.Prelude.{
  ℕ, zero, suc, ◌+◌, ◌==◌, String, Bool, true, false, not, ◌&&◌, Option, none, some, List, [], ◌∷◌,
  str_eq, contains, if◌then◌else◌,
}
use mathlib.Core.List.{◌++◌}
use Prim.Native.String.{◌++◌ as append}
use ktsu.Prelude.Map.{Map, lookup, insert}
use ktsu.Value.{Value, str, as_string, as_map, or_else}
use ktsu.Value.Float.{Float64, float_add, zero_float}
use ktsu.State.Records.{encodes, absent, Message}
use ktsu.State.MemStore.{or_empty}
use ktsu.Agent.Records.{
  ToolApprovalRule, ToolServerSpec, InvokeRequest, PendingApproval, Metrics, CallbackPayload,
}
use ktsu.Agent.Text.{strip_code_fence}
use ktsu.Agent.Policy.{find_approval_rule, check_fatal_reserved_fields, should_reflect}

-- toolDef
pub record ToolDef : Type 0 where
  pub name : String
  pub description : String
  pub input_schema : Map Value

-- toolCall
pub record ToolCall : Type 0 where
  pub id : String
  pub name : String
  pub arguments : Option (Map Value)

-- gatewayResponse
pub record GatewayResponse : Type 0 where
  pub content : String
  pub model_resolved : String
  pub tokens_in : ℕ
  pub tokens_out : ℕ
  pub cost_usd : Float64
  pub tool_calls : List ToolCall

-- A call of the gateway with its messages and tools, or of a tool with its server, name and input.
pub data Call : Type 0 where
  chat : List Message → List ToolDef → Call
  tool : ToolServerSpec → String → Option (Map Value) → Call

-- What is outside: each answer may depend on all calls before.
pub record Services : Type 0 where
  pub initialize : ToolServerSpec → Option String
  pub discover_tools : ToolServerSpec → Answer (List ToolDef)
  pub gateway : List Call → List Message → List ToolDef → Answer GatewayResponse
  -- the texts of the content of a tool's result
  pub call_tool : List Call → ToolServerSpec → String → Option (Map Value) → Answer (List String)
  -- the JSON of a list of one tool_use or tool_result block, of a schema and of an output
  pub tool_use : ToolCall → String
  pub tool_result : String → String → String
  pub schema_text : Map Value → Option String
  pub output_text : Option (Map Value) → String
  -- json.Unmarshal into a list of objects and into an object; null gives a nil map
  pub blocks : String → Option (List (Map Value))
  pub object : String → Option (Option (Map Value))

pub record State : Type 0 where
  pub messages : List Message
  pub metrics : Metrics
  pub log : List Call

-- The output, the raw output with the error, or errPendingApproval.
pub data Outcome : Type 0 where
  returned : Option (Map Value) → Outcome
  stopped : String → String → Outcome
  suspended : PendingApproval → Outcome

abbrev pub message : String → String → Message
message role content = record { role = role; content = content }

abbrev pub say : List Message → State → State
say ms st = record st { messages = st.messages ++ ms }

-- The two fields that the loop keeps of its discovery.
pub record Tools : Type 0 where
  pub by_name : Map ToolServerSpec
  pub defs : List ToolDef

abbrev route_all : ToolServerSpec → List ToolDef → Map ToolServerSpec → Map ToolServerSpec
route_all srv [] m = m
route_all srv (t ∷ ts) m = route_all srv ts (insert t.name srv m)

-- What the goroutine of one server leaves.
abbrev discovery : Services → ToolServerSpec → Answer (List ToolDef)
discovery sv srv = elim srv.params [
  | [] ↦ sv.discover_tools srv
  | _ ∷ _ ↦ elim (sv.initialize srv) [
    | some e ↦ failed (append "initialize server " (append srv.name (append ": " e)))
    | none ↦ sv.discover_tools srv
  ]
]

abbrev joined : ToolServerSpec → Answer (List ToolDef) → Tools → Answer Tools
joined srv (failed e) ts = failed (append "discover tools from " (append srv.name (append ": " e)))
joined srv (got defs) ts =
    got record { by_name = route_all srv defs ts.by_name; defs = ts.defs ++ defs }

abbrev and_discover : Answer Tools → (Tools → Answer Tools) → Answer Tools
and_discover (failed e) k = failed e
and_discover (got ts) k = k ts

unfoldable pub discover_all : Services → List ToolServerSpec → Tools → Answer Tools
discover_all sv [] ts = got ts
discover_all sv (srv ∷ rest) ts =
    and_discover (joined srv (discovery sv srv) ts) (λ more. discover_all sv rest more)

-- metrics.add(r)
unfoldable pub metrics_add : GatewayResponse → Metrics → Metrics
metrics_add r m = record m {
  llm_calls = m.llm_calls + 1;
  tokens_in = m.tokens_in + r.tokens_in;
  tokens_out = m.tokens_out + r.tokens_out;
  cost_usd = float_add m.cost_usd r.cost_usd;
  model_resolved = if str_eq m.model_resolved "" then r.model_resolved else m.model_resolved;
}

abbrev pub heard : Answer GatewayResponse → State → Answer GatewayResponse × State
heard (failed e) st = (failed e, st)
heard (got r) st = (got r, record st { metrics = metrics_add r st.metrics })

-- callGateway, and metrics.add where it gives no error.
unfoldable pub ask : Services → List Message → List ToolDef → State → Answer GatewayResponse × State
ask sv ms defs st = heard (sv.gateway st.log ms defs) (record st { log = chat ms defs ∷ st.log })

unfoldable pub parse_output : Services → String → Option (Option (Map Value))
parse_output sv content = sv.object (strip_code_fence content)

abbrev count_tool : State → State
count_tool st = record st { metrics = record st.metrics { tool_calls = st.metrics.tool_calls + 1 } }

abbrev result_text : List String → String
result_text [] = ""
result_text (t ∷ ts) = t

-- The result of CallTool, counted and said behind `said`, or its error.
abbrev pub tool_answered :
    Services → ToolCall → List Message → Answer (List String) → State → Option Outcome × State
tool_answered sv c said (failed e) st =
    (some (stopped "" (append "tool call " (append c.name (append ": " e)))), st)
tool_answered sv c said (got texts) st = (
  none,
  say (said ++ message "user" (sv.tool_result c.id (result_text texts)) ∷ []) (count_tool st),
)

unfoldable pub perform :
    Services → ToolServerSpec → ToolCall → List Message → State → Option Outcome × State
perform sv srv c said st =
    tool_answered sv c said (sv.call_tool st.log srv c.name c.arguments)
      (record st { log = tool srv c.name c.arguments ∷ st.log })

abbrev pub asked_approval : ToolCall → ToolApprovalRule → PendingApproval
asked_approval c rule = record {
  tool_name = c.name;
  tool_use_id = c.id;
  arguments = c.arguments;
  on_reject = rule.on_reject;
  timeout_ms = rule.timeout_ms;
  timeout_behavior = rule.timeout_behavior;
}

abbrev pub gated :
    Services → ToolServerSpec → ToolCall → Option ToolApprovalRule → State → Option Outcome × State
gated sv srv c (some rule) st =
    (some (suspended (asked_approval c rule)), say (message "assistant" (sv.tool_use c) ∷ []) st)
gated sv srv c none st = perform sv srv c (message "assistant" (sv.tool_use c) ∷ []) st

abbrev pub not_permitted : String → Outcome
not_permitted name = stopped "" (append "tool_not_permitted: " name)

abbrev pub routed : Services → ToolCall → Option ToolServerSpec → State → Option Outcome × State
routed sv c none st = (some (not_permitted c.name), st)
routed sv c (some srv) st = gated sv srv c (find_approval_rule c.name srv.approval_rules) st

abbrev pub and_then :
    Option Outcome × State → (State → Option Outcome × State) → Option Outcome × State
and_then (some o, st) k = (some o, st)
and_then (none, st) k = k st

-- The loop over the tool calls of one response.
unfoldable pub run_tools :
    Services → Map ToolServerSpec → List ToolCall → State → Option Outcome × State
run_tools sv routes [] st = (none, st)
run_tools sv routes (c ∷ cs) st =
    and_then (routed sv c (lookup c.name routes) st) (λ next. run_tools sv routes cs next)
