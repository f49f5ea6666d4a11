-- ===== src/Agent/Loop/Limit.antt =====
-- The whole loop of internal/runtime/agent/loop.go calls the gateway no more than two times beyond its turns.
use ktsu.Prelude.{
  ℕ, zero, suc, ◌+◌, ◌≤◌, ◌==◌, String, sym, subst, Bool, true, false, Option, none, some, List, [],
  ◌∷◌, arith, str_eq, if◌then◌else◌, Bool-cases, inl, inr,
}
use mathlib.Core.List.{◌++◌}
use ktsu.Prelude.Map.{Map, lookup}
use ktsu.Value.{Value}
use ktsu.State.Records.{Message}
use ktsu.State.MemStore.{or_empty}
use ktsu.Agent.Records.{InvokeRequest, ToolServerSpec}
use ktsu.Agent.Policy.{check_fatal_reserved_fields, should_reflect}
use ktsu.Agent.Loop.{
  Answer, got, failed, ToolCall, GatewayResponse, Services, State, Outcome, say, message, Tools,
  discover_all, ask, parse_output, run_tools,
}
use ktsu.Agent.Loop.Turns.{
  resumed, resume_tools, approved_uses, corrected, reflected, count_reflect, concluded, retried,
  by_calls, after_fatal, reflect, Turn, ended, again, drafted, tools_done, answered, turn,
  last_answer, exhausted, and_turn, turns, max_turns, start, first_messages, then_turns, discovered,
  run, json_correction_message, forced_conclusion_message,
}
use ktsu.Agent.Loop.Bounds.{
  chats, uses, IsWithin, IsWithin-self, IsWithin-then, IsWithin-more, ask-IsWithin,
  perform-IsWithin, say-IsWithin, run_tools-IsWithin, and_then-IsWithin,
}

count_reflect-IsWithin :
    {n : ℕ} {before st : State} → IsWithin n before st → IsWithin n before (count_reflect st)
count_reflect-IsWithin h = record { chats_most = h.chats_most; counted = h.counted; used = h.used }

concluded-IsWithin :
    (n : ℕ) (before : State) (raw e : String) (x : Option (Option (Map Value))) (st : State)
    → IsWithin n before st
    → IsWithin n before (concluded raw e x st).1
concluded-IsWithin n before raw e none st h = h
concluded-IsWithin n before raw e (some out) st h = h

-- A reflection calls the gateway twice at most.
corrected-IsWithin :
    (sv : Services) (n : ℕ) (a : Answer GatewayResponse × State) (raw : String) (before : State)
    → IsWithin n before a.1
    → IsWithin n before (corrected sv a raw).1
corrected-IsWithin sv n (failed e, st) raw before h = h
corrected-IsWithin sv n (got r, st) raw before h =
    concluded-IsWithin n before r.content "reflect_output_invalid" (parse_output sv r.content)
      (count_reflect st) (count_reflect-IsWithin h)

retried-IsWithin :
    (sv : Services) (ms : List Message) (r : GatewayResponse) (x : Option (Option (Map Value)))
    (before st : State)
    → IsWithin 1 before st
    → IsWithin 2 before (retried sv ms r x st).1
retried-IsWithin sv ms r (some out) before st h = IsWithin-more (omega arith) h
retried-IsWithin sv ms r none before st h =
    let correction =
      ms ++ message "assistant" r.content ∷ message "user" json_correction_message ∷ [] in
    corrected-IsWithin sv 2 (ask sv correction [] st) r.content before
      (IsWithin-then h (ask-IsWithin sv correction [] st))

reflected-IsWithin :
    (sv : Services) (ms : List Message) (a : Answer GatewayResponse × State) (before : State)
    → IsWithin 1 before a.1
    → IsWithin 2 before (reflected sv ms a).1
reflected-IsWithin sv ms (failed e, st) before h = IsWithin-more (omega arith) h
reflected-IsWithin sv ms (got r, st) before h =
    retried-IsWithin sv ms r (parse_output sv r.content) before (count_reflect st)
      (count_reflect-IsWithin h)

after_fatal-IsWithin :
    (e : Option String) (sv : Services) (req : InvokeRequest) (out : Option (Map Value))
    (st : State)
    → IsWithin 2 st (after_fatal e sv req out st).1
after_fatal-IsWithin (some e) sv req out st = IsWithin-self 2 st
after_fatal-IsWithin none sv req out st =
    let ms =
      message "system" req.reflect
      ∷ message "user" req.user_message
      ∷ message "user" (sv.output_text out)
      ∷ [] in
    elim (Bool-cases (should_reflect (or_empty out) req.output_schema req.confidence_threshold)) [
      | inl e ↦ rw e (reflected-IsWithin sv ms (ask sv ms [] st) st (ask-IsWithin sv ms [] st))
      | inr e ↦ rw e (IsWithin-self 2 st)
    ]

reflect-IsWithin :
    (sv : Services) (req : InvokeRequest) (out : Option (Map Value)) (st : State)
    → IsWithin 2 st (reflect sv req out st).1
unfolding reflect
reflect-IsWithin sv req out st = elim (Bool-cases (str_eq req.reflect "")) [
  | inl e ↦
      subst
        (λ b.
          IsWithin 2 st
            (if b
              then (Outcome.returned out, st)
              else after_fatal (check_fatal_reserved_fields (or_empty out)) sv req out st).1)
        (sym e) (IsWithin-self 2 st)
  | inr e ↦
      subst
        (λ b.
          IsWithin 2 st
            (if b
              then (Outcome.returned out, st)
              else after_fatal (check_fatal_reserved_fields (or_empty out)) sv req out st).1)
        (sym e) (after_fatal-IsWithin (check_fatal_reserved_fields (or_empty out)) sv req out st)
]

-- A turn that goes on has called the gateway once, one that ends the loop three times at most.
abbrev turn_cost : Turn → ℕ
turn_cost (ended o) = 3
turn_cost (again last) = 1

drafted-IsWithin :
    (sv : Services) (req : InvokeRequest) (r : GatewayResponse) (x : Option (Option (Map Value)))
    (before st : State)
    → IsWithin 1 before st
    → IsWithin (turn_cost (drafted sv req r x st).0) before (drafted sv req r x st).1
drafted-IsWithin sv req r none before st h = IsWithin-then h (
    say-IsWithin 0 (message "assistant" r.content ∷ message "user" json_correction_message ∷ []) st)
drafted-IsWithin sv req r (some out) before st h = IsWithin-then h (reflect-IsWithin sv req out st)

tools_done-IsWithin :
    (last : String) (x : Option Outcome × State) (before : State)
    → IsWithin 1 before x.1
    → IsWithin (turn_cost (tools_done last x).0) before (tools_done last x).1
tools_done-IsWithin last (some o, st) before h = IsWithin-more (omega arith) h
tools_done-IsWithin last (none, st) before h = h

by_calls-IsWithin :
    (sv : Services) (req : InvokeRequest) (routes : Map ToolServerSpec) (last : String)
    (r : GatewayResponse) (cs : List ToolCall) (before st : State)
    → IsWithin 1 before st
    → IsWithin
        (turn_cost (by_calls sv req routes last r cs st).0)
        before
        (by_calls sv req routes last r cs st).1
by_calls-IsWithin sv req routes last r [] before st h =
    drafted-IsWithin sv req r (parse_output sv r.content) before st h
by_calls-IsWithin sv req routes last r (c ∷ cs) before st h =
    tools_done-IsWithin last (run_tools sv routes (c ∷ cs) st) before
      (IsWithin-then h (run_tools-IsWithin sv routes (c ∷ cs) st))

answered-IsWithin :
    (sv : Services) (req : InvokeRequest) (routes : Map ToolServerSpec) (last : String)
    (a : Answer GatewayResponse × State) (before : State)
    → IsWithin 1 before a.1
    → IsWithin
        (turn_cost (answered sv req routes last a).0)
        before
        (answered sv req routes last a).1
answered-IsWithin sv req routes last (failed e, st) before h = IsWithin-more (omega arith) h
answered-IsWithin sv req routes last (got r, st) before h =
    by_calls-IsWithin sv req routes last r r.tool_calls before st h

asking-IsWithin :
    (b : Bool) (st : State)
    → IsWithin 0 st (if b then say (message "user" forced_conclusion_message ∷ []) st else st)
asking-IsWithin true st = say-IsWithin 0 (message "user" forced_conclusion_message ∷ []) st
asking-IsWithin false st = IsWithin-self 0 st

turn-IsWithin :
    (sv : Services) (req : InvokeRequest) (ts : Tools) (b : Bool) (last : String) (st : State)
    → IsWithin (turn_cost (turn sv req ts b last st).0) st (turn sv req ts b last st).1
unfolding turn
turn-IsWithin sv req ts b last st =
    let asking = if b then say (message "user" forced_conclusion_message ∷ []) st else st in
    answered-IsWithin sv req ts.by_name last
      (ask sv asking.messages (if b then [] else ts.defs) asking) st
      (IsWithin-then (asking-IsWithin b st)
        (ask-IsWithin sv asking.messages (if b then [] else ts.defs) asking))

last_answer-IsWithin :
    (sv : Services) (last : String) (a : Answer GatewayResponse × State) (before : State)
    → IsWithin 1 before a.1
    → IsWithin 2 before (last_answer sv last a).1
last_answer-IsWithin sv last (failed e, st) before h = IsWithin-more (omega arith) h
last_answer-IsWithin sv last (got r, st) before h =
    concluded-IsWithin 2 before last "max_turns_exceeded" (parse_output sv r.content) st
      (IsWithin-more (omega arith) h)

exhausted-IsWithin :
    (sv : Services) (last : String) (st : State) → IsWithin 2 st (exhausted sv last st).1
unfolding exhausted
exhausted-IsWithin sv last st = elim (Bool-cases (str_eq last "")) [
  | inl e ↦ rw e (IsWithin-self 2 st)
  | inr e ↦ rw e (
      last_answer-IsWithin sv last (ask sv st.messages [] st) st
        (ask-IsWithin sv st.messages [] st))
]

and_turn-IsWithin :
    (n : ℕ) (t : Turn × State) (k : String → State → Outcome × State) (before : State)
    → IsWithin (turn_cost t.0) before t.1
    → ((last : String) (st : State) → IsWithin (n + 2) st (k last st).1)
    → IsWithin (suc n + 2) before (and_turn t k).1
and_turn-IsWithin n (ended o, st) k before h all = IsWithin-more (omega arith) h
and_turn-IsWithin n (again last, st) k before h all =
    IsWithin-more (omega arith) (IsWithin-then h (all last st))

turns-IsWithin :
    (sv : Services) (req : InvokeRequest) (ts : Tools) (n : ℕ) (last : String) (st : State)
    → IsWithin (n + 2) st (turns sv req ts n last st).1
unfolding turns
turns-IsWithin sv req ts zero last st = exhausted-IsWithin sv last st
turns-IsWithin sv req ts (suc n) last st =
    and_turn-IsWithin n (turn sv req ts (n == 0) last st) (λ l next. turns sv req ts n l next) st
      (turn-IsWithin sv req ts (n == 0) last st) (λ l next. turns-IsWithin sv req ts n l next)

resumed-IsWithin :
    (sv : Services) (c : ToolCall) (srv : Option ToolServerSpec) (st : State)
    → IsWithin 0 st (resumed sv c srv st).1
resumed-IsWithin sv c none st = IsWithin-self 0 st
resumed-IsWithin sv c (some srv) st = perform-IsWithin sv srv c [] st

resume_tools-IsWithin :
    (sv : Services) (routes : Map ToolServerSpec) (cs : List ToolCall) (st : State)
    → IsWithin 0 st (resume_tools sv routes cs st).1
unfolding resume_tools
resume_tools-IsWithin sv routes [] st = IsWithin-self 0 st
resume_tools-IsWithin sv routes (c ∷ cs) st =
    and_then-IsWithin (resumed sv c (lookup c.name routes) st)
      (λ next. resume_tools sv routes cs next) st (resumed-IsWithin sv c (lookup c.name routes) st)
      (λ next. resume_tools-IsWithin sv routes cs next)

then_turns-IsWithin :
    (n : ℕ) (x : Option Outcome × State) (k : State → Outcome × State) (st : State)
    → IsWithin 0 st x.1
    → ((next : State) → IsWithin n next (k next).1)
    → IsWithin n st (then_turns x k).1
then_turns-IsWithin n (some o, v) k st h all = IsWithin-more (omega arith) h
then_turns-IsWithin n (none, v) k st h all = IsWithin-more (omega arith) (IsWithin-then h (all v))

discovered-IsWithin :
    (sv : Services) (req : InvokeRequest) (a : Answer Tools)
    → IsWithin (max_turns req + 2) start (discovered sv req a).1
discovered-IsWithin sv req (failed e) = IsWithin-self (max_turns req + 2) start
discovered-IsWithin sv req (got ts) =
    let st = record start { messages = first_messages sv req } in
    let calls = approved_uses sv req.approved_tool_calls st.messages in
    let rest =
      then_turns-IsWithin (max_turns req + 2) (resume_tools sv ts.by_name calls st)
        (λ next. turns sv req ts (max_turns req) "" next) st
        (resume_tools-IsWithin sv ts.by_name calls st)
        (λ next. turns-IsWithin sv req ts (max_turns req) "" next) in
    IsWithin-more (omega arith) (IsWithin-then (say-IsWithin 0 (first_messages sv req) start) rest)

-- The loop ends, whatever the model and the tools answer: the gateway is called at most twice more often
-- than the turns that the request allows, 10 where it gives none. The calls of the model
-- and of tools that the metrics count are no more than those that were made.
pub run_ends :
    (sv : Services) (req : InvokeRequest)
    → let st = (run sv req).1 in
      (chats st.log ≤ max_turns req + 2)
      × (st.metrics.llm_calls ≤ chats st.log)
      × (st.metrics.tool_calls ≤ uses st.log)
unfolding run
run_ends sv req =
    let h =
      discovered-IsWithin sv req
        (discover_all sv req.tool_servers record { by_name = []; defs = [] }) in
    (omega (arith, h.chats_most), omega (arith, h.counted), omega (arith, h.used))
