-- ===== src/Agent/Loop/Permitted.antt =====
-- Which tools the loop of internal/runtime/agent/loop.go calls, and when it stops for an approval.
use ktsu.Prelude.{String, ◌≡◌, refl, Option, none, some, List, [], ◌∷◌, arith, In, here, there}
use mathlib.Core.List.{◌++◌}
use ktsu.Prelude.Map.{Map, lookup}
use ktsu.State.Records.{Message}
use ktsu.Agent.Records.{ToolServerSpec, ToolApprovalRule, PendingApproval}
use ktsu.Agent.Policy.{find_approval_rule}
use ktsu.Agent.Loop.{
  Answer, got, failed, ToolCall, Call, tool, Services, State, Outcome, suspended, message, perform,
  tool_answered, gated, routed, and_then, run_tools, asked_approval,
}

-- The log of a state grows by free calls of tools only.
pub data Grows (routes : Map ToolServerSpec) (cs : List ToolCall) (before : List Call)
    : List Call → Type 0 where
  same : Grows routes cs before before
  used :
      {log : List Call} (srv : ToolServerSpec) (c : ToolCall)
      → Grows routes cs before log
      → In c cs
      → lookup c.name routes ≡ some srv
      → find_approval_rule c.name srv.approval_rules ≡ none
      → Grows routes cs before (tool srv c.name c.arguments ∷ log)

-- How a suspension comes about: the call stands among those of the response, its server has a rule
-- for it, and its block is the last message.
pub record IsAsked (sv : Services) (routes : Map ToolServerSpec) (cs : List ToolCall)
    (pa : PendingApproval) (st : State) : Type 0 where
  pub call : ToolCall
  pub server : ToolServerSpec
  pub rule : ToolApprovalRule
  pub said : List Message
  pub among : In call cs
  pub routed_to : lookup call.name routes ≡ some server
  pub ruled : find_approval_rule call.name server.approval_rules ≡ some rule
  pub asked : pa ≡ asked_approval call rule
  pub last : st.messages ≡ said ++ message "assistant" (sv.tool_use call) ∷ []

-- What one step keeps: the growth of the log, and the reason of a suspension.
record IsLawful (sv : Services) (routes : Map ToolServerSpec) (cs : List ToolCall)
    (before : List Call) (x : Option Outcome × State) : Type 0 where
  grows : Grows routes cs before x.1.log
  stops : (pa : PendingApproval) → x.0 ≡ some (suspended pa) → IsAsked sv routes cs pa x.1

module _ (sv : Services) (routes : Map ToolServerSpec) (cs : List ToolCall)
    (before : List Call) where
  tool_answered-IsLawful :
      (c : ToolCall) (said : List Message) (a : Answer (List String)) (st : State)
      → Grows routes cs before st.log
      → IsLawful sv routes cs before (tool_answered sv c said a st)
  tool_answered-IsLawful c said (failed e) st h = record { grows = h; stops = λ pa e. cc }
  tool_answered-IsLawful c said (got texts) st h = record { grows = h; stops = λ pa e. cc }

  gated-IsLawful :
      (srv : ToolServerSpec) (c : ToolCall) (rule : Option ToolApprovalRule) (st : State)
      → Grows routes cs before st.log
      → In c cs
      → lookup c.name routes ≡ some srv
      → find_approval_rule c.name srv.approval_rules ≡ rule
      → IsLawful sv routes cs before (gated sv srv c rule st)
  gated-IsLawful srv c (some r) st h m to ruled = record {
    grows = h;
    stops = λ pa e. record {
      call = c;
      server = srv;
      rule = r;
      said = st.messages;
      among = m;
      routed_to = to;
      ruled = ruled;
      asked = ground arith;
      last = refl;
    };
  }
  gated-IsLawful srv c none st h m to free =
      unfold perform in
      tool_answered-IsLawful c (message "assistant" (sv.tool_use c) ∷ [])
        (sv.call_tool st.log srv c.name c.arguments)
        (record st { log = tool srv c.name c.arguments ∷ st.log }) (used srv c h m to free)

  routed-IsLawful :
      (c : ToolCall) (found : Option ToolServerSpec) (st : State)
      → Grows routes cs before st.log
      → In c cs
      → lookup c.name routes ≡ found
      → IsLawful sv routes cs before (routed sv c found st)
  routed-IsLawful c none st h m to = record { grows = h; stops = λ pa e. cc }
  routed-IsLawful c (some srv) st h m to =
      gated-IsLawful srv c (find_approval_rule c.name srv.approval_rules) st h m to refl

  and_then-IsLawful :
      (x : Option Outcome × State) (k : State → Option Outcome × State)
      → IsLawful sv routes cs before x
      → ((st : State) → Grows routes cs before st.log → IsLawful sv routes cs before (k st))
      → IsLawful sv routes cs before (and_then x k)
  and_then-IsLawful (some o, st) k h all = h
  and_then-IsLawful (none, st) k h all = all st h.grows

  run_tools-IsLawful :
      (rest : List ToolCall) (st : State)
      → ((c : ToolCall) → In c rest → In c cs)
      → Grows routes cs before st.log
      → IsLawful sv routes cs before (run_tools sv routes rest st)
  unfolding run_tools
  run_tools-IsLawful [] st among h = record { grows = h; stops = λ pa e. cc }
  run_tools-IsLawful (c ∷ rest) st among h =
      and_then-IsLawful (routed sv c (lookup c.name routes) st)
        (λ next. run_tools sv routes rest next)
        (routed-IsLawful c (lookup c.name routes) st h (among c (here refl)) refl)
        (λ next grown. run_tools-IsLawful rest next (λ d m. among d (there m)) grown)

-- The loop makes a tool call of a response only if a server offers its name and no approval rule of that
-- server matches it, with the arguments of the response. It suspends itself only at a call that a rule
-- matches, with the policy of that rule, behind a last message with the block of the call; the calls
-- made are still only free ones.
pub run_tools_lem :
    (sv : Services) (routes : Map ToolServerSpec) (cs : List ToolCall) (st : State)
    → let out = run_tools sv routes cs st in
      Grows routes cs st.log out.1.log
      × ((pa : PendingApproval) → out.0 ≡ some (suspended pa) → IsAsked sv routes cs pa out.1)
run_tools_lem sv routes cs st =
    let h = run_tools-IsLawful sv routes cs st.log cs st (λ c m. m) same in (h.grows, h.stops)
