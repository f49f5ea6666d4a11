-- ===== src/Agent/Loop/Bounds.antt =====
-- How often the loop of internal/runtime/agent/loop.go calls the gateway.
use ktsu.Prelude.{ℕ, ◌+◌, ◌≤◌, String, Option, none, some, List, [], ◌∷◌, arith}
use ktsu.Prelude.Map.{Map, lookup}
use ktsu.State.Records.{Message}
use ktsu.Agent.Records.{ToolServerSpec, ToolApprovalRule}
use ktsu.Agent.Policy.{find_approval_rule}
use ktsu.Agent.Loop.{
  Answer, got, failed, ToolDef, ToolCall, GatewayResponse, Call, chat, tool, Services, State,
  Outcome, say, message, ask, heard, metrics_add, perform, tool_answered, gated, routed, and_then,
  run_tools,
}

-- The calls of the gateway and those of tools.
abbrev pub chats : List Call → ℕ
chats [] = 0
chats (chat ms defs ∷ log) = chats log + 1
chats (tool srv name input ∷ log) = chats log

abbrev pub uses : List Call → ℕ
uses [] = 0
uses (chat ms defs ∷ log) = uses log
uses (tool srv name input ∷ log) = uses log + 1

-- From one state to another: at most so many calls of the gateway, and the counts of the metrics
-- grow by no more than the calls.
pub record IsWithin (n : ℕ) (before after : State) : Type 0 where
  pub chats_most : chats after.log ≤ chats before.log + n
  pub counted :
      after.metrics.llm_calls + chats before.log ≤ before.metrics.llm_calls + chats after.log
  pub used : after.metrics.tool_calls + uses before.log ≤ before.metrics.tool_calls + uses after.log

pub IsWithin-self : (n : ℕ) (st : State) → IsWithin n st st
IsWithin-self n st = record { chats_most = omega arith; counted = omega arith; used = omega arith }

pub IsWithin-then :
    {m n : ℕ} {a b c : State} → IsWithin m a b → IsWithin n b c → IsWithin (m + n) a c
IsWithin-then h k = record {
  chats_most = omega (arith, h.chats_most, k.chats_most);
  counted = omega (arith, h.counted, k.counted);
  used = omega (arith, h.used, k.used);
}

pub IsWithin-more : {m n : ℕ} {a b : State} → m ≤ n → IsWithin m a b → IsWithin n a b
IsWithin-more le h = record {
  chats_most = omega (arith, le, h.chats_most);
  counted = h.counted;
  used = h.used;
}

-- One call of the gateway.
heard-IsWithin :
    (a : Answer GatewayResponse) (ms : List Message) (defs : List ToolDef) (st : State)
    → IsWithin 1 st (heard a (record st { log = chat ms defs ∷ st.log })).1
unfolding metrics_add
heard-IsWithin (failed e) ms defs st = record {
  chats_most = omega arith;
  counted = omega arith;
  used = omega arith;
}
heard-IsWithin (got r) ms defs st = record {
  chats_most = omega arith;
  counted = omega arith;
  used = omega arith;
}

pub ask-IsWithin :
    (sv : Services) (ms : List Message) (defs : List ToolDef) (st : State)
    → IsWithin 1 st (ask sv ms defs st).1
unfolding ask
ask-IsWithin sv ms defs st = heard-IsWithin (sv.gateway st.log ms defs) ms defs st

-- Tools call no gateway.
tool_answered-IsWithin :
    (sv : Services) (srv : ToolServerSpec) (c : ToolCall) (said : List Message)
    (a : Answer (List String)) (st : State)
    → IsWithin 0 st
        (tool_answered sv c said a (record st { log = tool srv c.name c.arguments ∷ st.log })).1
tool_answered-IsWithin sv srv c said (failed e) st = record {
  chats_most = omega arith;
  counted = omega arith;
  used = omega arith;
}
tool_answered-IsWithin sv srv c said (got texts) st = record {
  chats_most = omega arith;
  counted = omega arith;
  used = omega arith;
}

pub perform-IsWithin :
    (sv : Services) (srv : ToolServerSpec) (c : ToolCall) (said : List Message) (st : State)
    → IsWithin 0 st (perform sv srv c said st).1
unfolding perform
perform-IsWithin sv srv c said st =
    tool_answered-IsWithin sv srv c said (sv.call_tool st.log srv c.name c.arguments) st

pub say-IsWithin : (n : ℕ) (ms : List Message) (st : State) → IsWithin n st (say ms st)
say-IsWithin n ms st = record {
  chats_most = omega arith;
  counted = omega arith;
  used = omega arith;
}

gated-IsWithin :
    (sv : Services) (srv : ToolServerSpec) (c : ToolCall) (rule : Option ToolApprovalRule)
    (st : State)
    → IsWithin 0 st (gated sv srv c rule st).1
gated-IsWithin sv srv c (some rule) st =
    say-IsWithin 0 (message "assistant" (sv.tool_use c) ∷ []) st
gated-IsWithin sv srv c none st =
    perform-IsWithin sv srv c (message "assistant" (sv.tool_use c) ∷ []) st

routed-IsWithin :
    (sv : Services) (c : ToolCall) (srv : Option ToolServerSpec) (st : State)
    → IsWithin 0 st (routed sv c srv st).1
routed-IsWithin sv c none st = IsWithin-self 0 st
routed-IsWithin sv c (some srv) st =
    gated-IsWithin sv srv c (find_approval_rule c.name srv.approval_rules) st

pub and_then-IsWithin :
    (x : Option Outcome × State) (k : State → Option Outcome × State) (st : State)
    → IsWithin 0 st x.1
    → ((next : State) → IsWithin 0 next (k next).1)
    → IsWithin 0 st (and_then x k).1
and_then-IsWithin (some o, v) k st h all = h
and_then-IsWithin (none, v) k st h all = IsWithin-then h (all v)

pub run_tools-IsWithin :
    (sv : Services) (routes : Map ToolServerSpec) (cs : List ToolCall) (st : State)
    → IsWithin 0 st (run_tools sv routes cs st).1
unfolding run_tools
run_tools-IsWithin sv routes [] st = IsWithin-self 0 st
run_tools-IsWithin sv routes (c ∷ cs) st =
    and_then-IsWithin (routed sv c (lookup c.name routes) st) (λ next. run_tools sv routes cs next)
      st (routed-IsWithin sv c (lookup c.name routes) st)
      (λ next. run_tools-IsWithin sv routes cs next)
