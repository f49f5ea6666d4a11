-- ===== src/Lib.antt =====
-- ktsu runs workflows of agents. An orchestrator orders the steps of a workflow by their
-- dependencies, hands each agent step to a runtime, takes its callback, checks the output and
-- keeps runs, steps and approvals in a store. The runtime drives the conversation with a model
-- and its tools, and stops for a human's approval where a tool asks for one.
--
-- Prelude holds the helpers that the others share: Boolean tests, lists, Go maps as lists of
-- entries and Go's string functions. Value is the JSON data of the program, Value/Float its
-- float64, by bits.
--
-- Dag is internal/orchestrator/dag/dag.go. Dag/Graph has the types, Dag/Cycle the depth-first
-- search for a cycle (detectCycle), Dag/Layers Kahn's algorithm (Resolve). The search and the
-- loop run on fuel, one more than the number of nodes; Dag/Cycle/Fuel and Dag/Layers/Ends show
-- that this is enough. A Go map from ids is a function with the zero value for a missing key.
--
-- Output is what happens to the output of a step: Output/Reserved is ProcessReservedFields of
-- internal/orchestrator/runner/runner.go with pkg/types/reserved.go, Output/Airlock is
-- internal/orchestrator/airlock/airlock.go.
--
-- State is internal/orchestrator/state with pkg/types/run.go and pkg/types/envelope.go:
-- State/Records has the records, State/MemStore the operations of the in-memory store,
-- State/Listing ListRuns, State/Envelope GetEnvelope. Every operation holds the store's lock, so
-- it is one step. The order in which a loop visits a Go map, which Go leaves open, is a parameter
-- of the operations that loop over one. Counts and times are numbers without an upper bound.
--
-- Agent is internal/runtime/agent: Agent/Records has the records of types.go, which orchestrator
-- and runtime exchange, the others loop.go. Agent/Text and Agent/Policy have its tests,
-- Agent/Loop the calls of the gateway and of tools, Agent/Loop/Turns the loop, by recursion on
-- the turns that are left. The gateway, the tool servers and encoding/json are parameters, whose
-- answers may depend on every call before; the model keeps a log of the calls.
--
-- Server is internal/orchestrator/server.go, the callbacks of the runtime and the approvals:
-- Server/World has what the handlers share (store, channels of waiting dispatchers, requests
-- sent), Server/Complete handleStepComplete and handlePendingApproval, Server/Decide
-- handleDecideApproval and runApprovalTimeout, split where they first write, Server/Redispatch
-- what they send to the runtime. The runtime is a parameter: its answer to a request.
--
-- Config is internal/config/params.go: Config/Params is ResolveServerParams, the values that a
-- tool server gets; the environment is a parameter and an error is named without its text.
-- Config/Values is ResolveValue, ParseParamsSchema and BuildScrubSet, Config/Agents the
-- parameters of agents and the placeholders of prompts, Config/Policies is
-- internal/config/validate.go.
--
-- Runner is internal/orchestrator/runner. Runner/Expr and Runner/Template are expr.go, its two
-- regular expressions as recursive functions on texts; Runner/Transform and Runner/Transform/Ops
-- are executeTransform and its operations; Runner/Steps has the types of
-- internal/config/types.go with executeAgent and executeWebhook, Runner/Steps/Fanout
-- executeFanout. Runner/Execute has the body of the loop of Execute, with Runner/Execute/Settle
-- for what becomes of an output, Runner/Root Execute itself, Runner/Nested executeWorkflow and
-- Runner/Sub executeSubWorkflow. Execute takes the run of a workflow step as a parameter, which
-- `nested` of Runner/Sub fills: workflows may name one another without a bound, so the depth of
-- nesting is fuel; Runner/Depth/Root shows how much is enough where the references have no
-- cycle. Execute uses Dag for the order of its steps, Output for what becomes of an output, and
-- State for its records. The JMESPath library, the printing of a value, the dispatcher of
-- agents, the HTTP client, the clock, the environment and the files of workflows are parameters,
-- gathered in the record Services. The goroutines of a fan-out run in the order of its items,
-- and sort.SliceStable is the insertion sort that it is on short slices. The iteration over a Go
-- map of values is in the order of its entries. A text is a sequence of characters, not of bytes.
--
-- Not modelled: deadlines of contexts; the choice of models (internal/gateway); HTTP, JSON and
-- YAML decoding, the SQLite store, the command line, the hub and the network clients, which are
-- calls of libraries around this core.
pub mod Prelude
pub mod Value
pub mod Output
pub mod State
pub mod Agent
pub mod Server
pub mod Dag
pub mod Config
pub mod Runner
