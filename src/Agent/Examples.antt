-- ===== src/Agent/Examples.antt =====
-- The reasoning loop against a small gateway and one tool server.
use ktsu.Prelude.{
  ◌+◌, ◌≤◌, String, ◌≡◌, refl, true, false, none, some, List, [], ◌∷◌, str_eq, if◌then◌else◌,
}
use ktsu.Prelude.Map.{Map, lookup, insert}
use ktsu.Prelude.Strings.{has_prefix}
use ktsu.Value.{Value, bool, str}
use ktsu.Value.Float.{Float64, from_bits, zero_float, float_add, float_lt}
use ktsu.Output.Reserved.{
  low_confidence, refused, is_flagged, confidence_of, string_of, flags_of, strip_reserved,
  process_reserved,
}
use ktsu.Agent.Records.{InvokeRequest, ToolServerSpec, PendingApproval}
use ktsu.Agent.Text.{
  trim_left, trim_right, trim_space, after_line, before_fence, strip_code_fence, star_prefix,
  matches_pattern,
}
use ktsu.Agent.Policy.{find_approval_rule, is_fatal, check_fatal_reserved_fields, should_reflect}
use ktsu.Agent.Loop.{
  got, ToolDef, ToolCall, GatewayResponse, Services, suspended, discover_all, metrics_add, ask,
  parse_output, perform, run_tools,
}
use ktsu.Agent.Loop.Turns.{
  approved_uses, resume_tools, reflect, turn, exhausted, turns, start, run, run_loop,
}
use ktsu.Agent.Loop.Bounds.{chats, uses}
use ktsu.Agent.Loop.Limit.{run_ends}
use ktsu.Agent.Loop.Permitted.{Grows, IsAsked, run_tools_lem}
use ktsu.Agent.Drafts.{fatal_before_process}

program : Unit {0}
unfolding lookup insert has_prefix float_add float_lt is_flagged confidence_of string_of flags_of
    strip_reserved process_reserved trim_left trim_right trim_space after_line before_fence
    strip_code_fence star_prefix matches_pattern find_approval_rule is_fatal
    check_fatal_reserved_fields should_reflect discover_all metrics_add ask parse_output perform
    run_tools approved_uses resume_tools reflect turn exhausted turns run run_loop
program = tt

strips : strip_code_fence " ```json\n{}\n```\n" ≡ "{}"
unfolding program
strips = refl

matches :
    (matches_pattern "delete_user" "delete_*" ≡ true)
    × (matches_pattern "delete" "delete_*" ≡ false)
unfolding program
matches = (refl, refl)

abbrev server : ToolServerSpec
server = record {
  name = "files";
  url = "http://files";
  allowlist = [];
  persistent_id = "";
  auth_header = "";
  auth_value = "";
  params = [];
  secret_keys = [];
  approval_rules =
      record {
        pattern_ = "delete*";
        on_reject = "fail";
        timeout_ms = 50;
        timeout_behavior = "reject";
      }
      ∷ [];
}

abbrev def : String → ToolDef
def name = record { name = name; description = ""; input_schema = [] }

abbrev call : String → ToolCall
call name = record { id = name; name = name; arguments = none }

abbrev response : String → List ToolCall → GatewayResponse
response content calls = record {
  content = content;
  model_resolved = "m";
  tokens_in = 2;
  tokens_out = 1;
  cost_usd = zero_float;
  tool_calls = calls;
}

-- A model that reads first, and then answers with `then_`.
abbrev services : GatewayResponse → Services
services then_ = record {
  initialize = λ s. none;
  discover_tools = λ s. got (def "read" ∷ def "delete_all" ∷ []);
  gateway =
      λ log ms defs. (elim log [ [] ↦ got (response "" (call "read" ∷ [])) | _ ∷ _ ↦ got then_ ]);
  call_tool = λ log s name input. got ("text" ∷ []);
  tool_use = λ c. c.id;
  tool_result = λ id text. text;
  schema_text = λ m. none;
  output_text = λ m. "";
  blocks = λ s. none;
  object = λ s. if str_eq s "{}" then some (some []) else none;
}

abbrev request : InvokeRequest
request = record {
  run_id = "r1";
  step_id = "ask";
  agent_name = "helper";
  system = "sys";
  user_message = "clean up";
  reflect = "";
  confidence_threshold = zero_float;
  max_turns = 3;
  model = record { group = "standard"; max_tokens = 100 };
  tool_servers = server ∷ [];
  callback_url = "";
  output_schema = [];
  messages = [];
  approved_tool_calls = [];
  is_resume = false;
}

answers : (run_loop (services (response "```\n{}\n```" [])) request 7).status ≡ "ok"
unfolding program
answers = refl

asks :
    (run_loop (services (response "" (call "delete_all" ∷ []))) request 7).status
    ≡ "pending_approval"
unfolding program
asks = refl

never_json : (run_loop (services (response "hm" [])) request 7).error ≡ "max_turns_exceeded"
unfolding program
never_json = refl

run_ends_example :
    let st = (run (services (response "hm" [])) request).1 in
    (chats st.log ≤ 3 + 2)
    × (st.metrics.llm_calls ≤ chats st.log)
    × (st.metrics.tool_calls ≤ uses st.log)
run_ends_example = run_ends (services (response "hm" [])) request

abbrev routes : Map ToolServerSpec
routes = ("read", server) ∷ ("delete_all", server) ∷ []

run_tools_lem_example :
    let sv = services (response "" []) in
    let cs = call "read" ∷ call "delete_all" ∷ [] in
    let out = run_tools sv routes cs start in
    Grows routes cs [] out.1.log
    × ((pa : PendingApproval) → out.0 ≡ some (suspended pa) → IsAsked sv routes cs pa out.1)
run_tools_lem_example =
    run_tools_lem (services (response "" [])) routes (call "read" ∷ call "delete_all" ∷ []) start

abbrev half : Float64
half = from_bits 4602678819172646912

abbrev draft : Map Value
draft = ("ktsu_low_quality", bool false) ∷ []

draft_passes : check_fatal_reserved_fields draft ≡ none
unfolding program
draft_passes = refl

draft_refused : process_reserved draft half ≡ refused low_confidence
unfolding program
draft_refused = refl

-- A flag that is no Boolean stops a draft, and is no flag of the final output.
text_flag :
    (check_fatal_reserved_fields (("ktsu_low_quality", str "true") ∷ [])
      ≡ some "low quality output")
    × (is_flagged "ktsu_low_quality" (("ktsu_low_quality", str "true") ∷ []) ≡ false)
unfolding program
text_flag = (refl, refl)

fatal_before_process_example : low_confidence ≡ low_confidence
fatal_before_process_example =
    fatal_before_process draft half low_confidence draft_passes draft_refused
