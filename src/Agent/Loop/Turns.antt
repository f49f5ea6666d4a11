-- ===== src/Agent/Loop/Turns.antt =====
-- The turns of the reasoning loop of internal/runtime/agent/loop.go: run and Run.
use ktsu.Prelude.{
  ℕ, zero, suc, ◌+◌, ◌==◌, String, Bool, ◌&&◌, Option, none, some, List, [], ◌∷◌, str_eq, contains,
  if◌then◌else◌,
}
use mathlib.Core.List.{◌++◌}
use Prim.Native.String.{◌++◌ as append}
use ktsu.Prelude.Map.{Map, lookup}
use ktsu.Value.{Value, as_string, as_map, or_else}
use ktsu.Value.Float.{zero_float}
use ktsu.State.Records.{encodes, absent, Message}
use ktsu.State.MemStore.{or_empty}
use ktsu.Agent.Records.{InvokeRequest, ToolServerSpec, Metrics, CallbackPayload}
use ktsu.Agent.Policy.{check_fatal_reserved_fields, should_reflect}
use ktsu.Agent.Loop.{
  Answer, got, failed, ToolCall, GatewayResponse, Services, State, Outcome, returned, stopped,
  suspended, message, say, Tools, discover_all, ask, parse_output, perform, not_permitted, and_then,
  run_tools,
}

abbrev pub forced_conclusion_message : String
forced_conclusion_message =
    "You have reached the maximum number of tool calls. Provide your final answer now without requesting any additional tools."

abbrev pub json_correction_message : String
json_correction_message =
    "Your response was not valid JSON. Please respond with only a valid JSON object and nothing else."

-- The tool_use blocks of one message of the assistant whose ids are approved.
abbrev text_in : Option Value → String
text_in none = ""
text_in (some v) = or_else (as_string v) ""

abbrev map_in : Option Value → Option (Map Value)
map_in none = none
map_in (some v) = as_map v

abbrev use_of : Map Value → ToolCall
use_of block = record {
  id = text_in (lookup "id" block);
  name = text_in (lookup "name" block);
  arguments = map_in (lookup "input" block);
}

abbrev approved_blocks : List String → List (Map Value) → List ToolCall
approved_blocks ids [] = []
approved_blocks ids (b ∷ bs) =
    let rest = approved_blocks ids bs in
    if str_eq (text_in (lookup "type" b)) "tool_use" && contains ids (text_in (lookup "id" b))
    then use_of b ∷ rest
    else rest

abbrev or_none : Option (List (Map Value)) → List (Map Value)
or_none none = []
or_none (some bs) = bs

unfoldable pub approved_uses : Services → List String → List Message → List ToolCall
approved_uses sv ids [] = []
approved_uses sv ids (m ∷ ms) =
    let rest = approved_uses sv ids ms in
    if str_eq m.role "assistant"
    then approved_blocks ids (or_none (sv.blocks m.content)) ++ rest
    else rest

abbrev pub resumed : Services → ToolCall → Option ToolServerSpec → State → Option Outcome × State
resumed sv c none st = (some (not_permitted c.name), st)
resumed sv c (some srv) st = perform sv srv c [] st

-- The approved tool calls of a resume, before the turns.
unfoldable pub resume_tools :
    Services → Map ToolServerSpec → List ToolCall → State → Option Outcome × State
resume_tools sv routes [] st = (none, st)
resume_tools sv routes (c ∷ cs) st =
    and_then (resumed sv c (lookup c.name routes) st) (λ next. resume_tools sv routes cs next)

abbrev pub count_reflect : State → State
count_reflect st = record st {
  metrics = record st.metrics { reflect_calls = st.metrics.reflect_calls + 1 };
}

-- The parsed output, or the raw one with an error.
abbrev pub concluded : String → String → Option (Option (Map Value)) → State → Outcome × State
concluded raw e none st = (stopped raw e, st)
concluded raw e (some out) st = (returned out, st)

-- The end of the reflection: the correction of a reflected output that is no JSON.
abbrev pub corrected : Services → Answer GatewayResponse × State → String → Outcome × State
corrected sv (failed e, st) raw = (stopped raw (append "reflect correction gateway: " e), st)
corrected sv (got r, st) raw =
    concluded r.content "reflect_output_invalid" (parse_output sv r.content) (count_reflect st)

abbrev pub retried :
    Services
    → List Message
    → GatewayResponse
    → Option (Option (Map Value))
    → State
    → Outcome × State
retried sv ms r (some out) st = (returned out, st)
retried sv ms r none st =
    let correction = message "assistant" r.content ∷ message "user" json_correction_message ∷ [] in
    corrected sv (ask sv (ms ++ correction) [] st) r.content

abbrev pub reflected : Services → List Message → Answer GatewayResponse × State → Outcome × State
reflected sv ms (failed e, st) = (stopped "" e, st)
reflected sv ms (got r, st) = retried sv ms r (parse_output sv r.content) (count_reflect st)

abbrev pub after_fatal :
    Option String → Services → InvokeRequest → Option (Map Value) → State → Outcome × State
after_fatal (some e) sv req out st = (stopped "" e, st)
after_fatal none sv req out st =
    let ms =
      message "system" req.reflect
      ∷ message "user" req.user_message
      ∷ message "user" (sv.output_text out)
      ∷ [] in
    if should_reflect (or_empty out) req.output_schema req.confidence_threshold
    then reflected sv ms (ask sv ms [] st)
    else (returned out, st)

-- The draft, behind the reflection if the request has a prompt for one.
unfoldable pub reflect : Services → InvokeRequest → Option (Map Value) → State → Outcome × State
reflect sv req out st =
    if str_eq req.reflect ""
    then (returned out, st)
    else after_fatal (check_fatal_reserved_fields (or_empty out)) sv req out st

-- How a turn ends: with the outcome of the loop, or with the last content that was no JSON.
pub data Turn : Type 0 where
  ended : Outcome → Turn
  again : String → Turn

abbrev pub ended_with : Outcome × State → Turn × State
ended_with (o, st) = (ended o, st)

abbrev pub drafted :
    Services → InvokeRequest → GatewayResponse → Option (Option (Map Value)) → State → Turn × State
drafted sv req r none st = (
  again r.content,
  say (message "assistant" r.content ∷ message "user" json_correction_message ∷ []) st,
)
drafted sv req r (some out) st = ended_with (reflect sv req out st)

abbrev pub tools_done : String → Option Outcome × State → Turn × State
tools_done last (some o, st) = (ended o, st)
tools_done last (none, st) = (again last, st)

abbrev pub by_calls :
    Services
    → InvokeRequest
    → Map ToolServerSpec
    → String
    → GatewayResponse
    → List ToolCall
    → State
    → Turn × State
by_calls sv req routes last r [] st = drafted sv req r (parse_output sv r.content) st
by_calls sv req routes last r (c ∷ cs) st = tools_done last (run_tools sv routes (c ∷ cs) st)

abbrev pub answered :
    Services
    → InvokeRequest
    → Map ToolServerSpec
    → String
    → Answer GatewayResponse × State
    → Turn × State
answered sv req routes last (failed e, st) = (ended (stopped "" e), st)
answered sv req routes last (got r, st) = by_calls sv req routes last r r.tool_calls st

-- One turn; the last one has no tools and demands a conclusion.
unfoldable pub turn : Services → InvokeRequest → Tools → Bool → String → State → Turn × State
turn sv req ts is_last last st =
    let asking = if is_last then say (message "user" forced_conclusion_message ∷ []) st else st in
    answered sv req ts.by_name last
      (ask sv asking.messages (if is_last then [] else ts.defs) asking)

-- Behind the last turn: one more answer, if the last content that was no JSON is not empty.
abbrev pub last_answer : Services → String → Answer GatewayResponse × State → Outcome × State
last_answer sv last (failed e, st) = (stopped last "max_turns_exceeded", st)
last_answer sv last (got r, st) = concluded last "max_turns_exceeded" (parse_output sv r.content) st

unfoldable pub exhausted : Services → String → State → Outcome × State
exhausted sv last st =
    if str_eq last ""
    then (stopped last "max_turns_exceeded", st)
    else last_answer sv last (ask sv st.messages [] st)

abbrev pub and_turn : Turn × State → (String → State → Outcome × State) → Outcome × State
and_turn (ended o, st) k = (o, st)
and_turn (again last, st) k = k last st

-- The loop, with the number of turns that are left.
unfoldable pub turns : Services → InvokeRequest → Tools → ℕ → String → State → Outcome × State
turns sv req ts zero last st = exhausted sv last st
turns sv req ts (suc n) last st =
    and_turn (turn sv req ts (n == 0) last st) (λ l next. turns sv req ts n l next)

abbrev pub max_turns : InvokeRequest → ℕ
max_turns req = if req.max_turns == 0 then 10 else req.max_turns

abbrev no_metrics : Metrics
no_metrics = record {
  model_resolved = "";
  tokens_in = 0;
  tokens_out = 0;
  cost_usd = zero_float;
  duration_ms = 0;
  llm_calls = 0;
  tool_calls = 0;
  reflect_calls = 0;
}

abbrev with_schema : Services → Map Value → String → String
with_schema sv [] system = system
with_schema sv (f ∷ fs) system = elim (sv.schema_text (f ∷ fs)) [
  | none ↦ system
  | some text ↦ append system (append "\n\nYour output MUST conform to this JSON schema:\n" text)
]

abbrev pub first_messages : Services → InvokeRequest → List Message
first_messages sv req = elim req.messages [
  | [] ↦
      message "system" (with_schema sv req.output_schema req.system)
      ∷ message "user" req.user_message
      ∷ []
  | m ∷ ms ↦ m ∷ ms
]

abbrev pub start : State
start = record { messages = []; metrics = no_metrics; log = [] }

abbrev pub then_turns : Option Outcome × State → (State → Outcome × State) → Outcome × State
then_turns (some o, st) k = (o, st)
then_turns (none, st) k = k st

abbrev pub discovered : Services → InvokeRequest → Answer Tools → Outcome × State
discovered sv req (failed e) = (stopped "" e, start)
discovered sv req (got ts) =
    let st = record start { messages = first_messages sv req } in
    then_turns
      (resume_tools sv ts.by_name (approved_uses sv req.approved_tool_calls st.messages) st)
      (λ next. turns sv req ts (max_turns req) "" next)

-- run(ctx, req)
unfoldable pub run : Services → InvokeRequest → Outcome × State
run sv req = discovered sv req (discover_all sv req.tool_servers record { by_name = []; defs = [] })

abbrev payload_of : InvokeRequest → ℕ → Outcome × State → CallbackPayload
payload_of req elapsed (o, st) =
    let base : CallbackPayload = record {
      run_id = req.run_id;
      step_id = req.step_id;
      status = "";
      output = none;
      error = "";
      raw_output = "";
      metrics = record st.metrics { duration_ms = elapsed };
      is_resume = req.is_resume;
      messages = st.messages;
      pending_approval = none;
      original_request = absent;
    } in
    elim o [
      | returned out ↦ record base { status = "ok"; output = out }
      | stopped raw e ↦ record base { status = "failed"; error = e; raw_output = raw }
      | suspended pa ↦ record base {
        status = "pending_approval";
        pending_approval = some pa;
        original_request = encodes req;
      }
    ]

-- Run(ctx, req), which takes `elapsed` milliseconds
unfoldable pub run_loop : Services → InvokeRequest → ℕ → CallbackPayload
run_loop sv req elapsed = payload_of req elapsed (run sv req)
