-- ===== src/Lib.antt =====
-- The verification library of ThoughtGate.
--
-- ThoughtGate stands between an agent and its MCP server. A call of the agent passes four gates: the
-- source must expose the tool (gate 1), the rules of the configuration say what happens to it (gate
-- 2), a Cedar policy may decide (gate 3), and a human may have to approve it (gate 4). A call that
-- waits for an approval is a task in the task store; the agent polls the task by its identifier. The
-- lifecycle manager starts the service, counts its requests, and drains them when it stops.
--
-- The modules and the code that they model:
--
--   Base         the names that the other modules share: tests on the native numbers, lists, maps with
--                text keys, results, words of 64 bits. No code of the repository.
--   Json         serde_json::Value, whose objects keep the order of their fields (Json), with what the
--                code uses of its maps (Json/Objects).
--   Task         thoughtgate-core/src/governance/task. Status is status.rs and the wire status of
--                protocol/task.rs, with the graph of the state machine (Status/Machine) and the texts
--                (Status/Wire). Types and Methods are types.rs, Helpers is helpers.rs.
--   Task/Store   task/store.rs. State has the records and the counters, Create is `create`, Changes
--                the operations on one task, Sweeps `expire_overdue`, `cleanup_terminal` and
--                `fail_all_pending`, Queries what only reads. History is every sequence of operations
--                on a store that starts empty. The other modules prove, as their names say.
--   Task/Handlers  governance/handlers.rs: the methods `tasks/*`, with their pages (Paging and
--                Ordered) and their answers (Results).
--   Lifecycle    thoughtgate-core/src/lifecycle: Config is `LifecycleConfig`, Manager is
--                `LifecycleManager`, Health the probes of health.rs, Drain the loop of
--                `drain_requests`, Requests the request guards over interleaved threads.
--   Governance   thoughtgate-core/src/config/schema.rs (Schema, with Rules and Compiled on it),
--                governance/list_filtering.rs (Listing, with Visibility and Presented on it),
--                governance/approval/redact.rs (Redact), and governance/evaluator.rs: Evaluator has
--                its data, Gates the ways to start an approval, Routing the gates in their order, and
--                Decisions what is forwarded.
--   Errors       thoughtgate-core/src/error/mod.rs and error/jsonrpc.rs, with what the answer to an
--                upstream's error tells (Errors/Answers).
--   Approval     the way of an approved call. Pipeline is governance/pipeline.rs: Inspect is the chain
--                of inspectors, Execute the phases of `execute_approved`, Forwarding what they send.
--                Engine is governance/engine.rs: the start of an approval here, `execute_on_result` in
--                Execute, the loop of `wait_and_execute` in Wait; Sending, Once, Again, Starting,
--                Polled and Waiting prove. Scheduler is governance/approval/mod.rs and scheduler.rs, with
--                what it does in Operations and the threads that share it in Tracking and
--                Interleaving. Gate4 puts the engine in the place of gate 4.
--   Transport    thoughtgate-core/src/transport/jsonrpc.rs: the messages (Transport), the responses
--                (Response), the correlation identifiers (Correlation) and the parser of bodies
--                (Parsing). Classify is thoughtgate-core/src/jsonrpc.rs, Router transport/router.rs.
--                Agreement compares the two readings of a message, Governed follows the router.
--   Protocol     thoughtgate-core/src/protocol/capability.rs: the capabilities of an `initialize`
--                response; Injected, Stripped and Announced prove.
--   Proxy        thoughtgate-proxy/src/mcp_handler. TaskMethods is task_methods.rs: the same methods as
--                the proxy serves them, for the owner of a task (Isolation).
--   Proxy/Mcp    the rest of the handler. Mcp has its state, from mod.rs, Capabilities is
--                capabilities.rs, Cedar cedar_eval.rs with `start_approval_flow`, Gates
--                gate_routing.rs, Routing `route_request`. Answers, Requests and Body are request.rs
--                with the answers of helpers.rs. Passing and Governed prove what is sent on, Announced
--                what the agent learns of capabilities and tools, Routed what routing
--                keeps and when it waits, Batches how a batch is answered, Restored what a body
--                gives back, Limits what it is let in by.
--   Shim         the lines that the command line shim exchanges with an agent and its server:
--                thoughtgate/src/shim/ndjson.rs, and `bounded_read_line` of shim/proxy/helpers.rs.
--                Lines is what is read, Served compares a line with a body of the proxy.
--   Tests        concrete inputs, and the theorems applied to them.
--
-- How the code is read. A struct is a record, an enum a data type, a method a function from the state
-- to the next state and the answer. Times and durations are nanoseconds, as natural numbers; the clock,
-- random identifiers and the environment are arguments. Counters are `usize` with their wrap-around
-- (`wrapping_add`, `wrapping_sub`). DashMaps are association lists: `insert` puts a key that is new
-- last. An operation of the store holds the lock of its entry, so it is one step; the order of the
-- operations is any. Lifecycle/Requests has steps smaller than an operation. In Approval/Engine/Execute
-- a call gives up its view of the state twice, after it has read the task and while its pipeline runs;
-- what other threads do there are two functions of the state, which are arguments (Moment). What is
-- sent to the upstream is part of the answer. The items of a batch run concurrently in the proxy; they
-- are taken in the order in which they end, which is any, and what an item meets of the others is in
-- its Call (Proxy/Mcp).
--
-- What is a parameter: SHA-256, the JSON text of a value and the conversion of a duration (Libraries
-- in Task/Types), the glob crate (Glob in Governance/Schema), `str::split`, `str::parse` and the
-- environment (Environment in Lifecycle/Config), the readings of the clock (Clock in Task/Types) and
-- what else an evaluation draws (Draws in Governance/Gates). The Cedar engine, the approval engine
-- and the submission to the scheduler are the interfaces that the evaluator takes
-- (Governance/Gates); the engine of Approval fills one of them. The pipeline takes the inspectors,
-- the policy engine, the upstream client and the serializer (Wire in Approval/Pipeline/Inspect), and
-- a function that prints a number in decimal. The cursors of a list (Cursors in Task/Handlers) and
-- the (de)serialization of the methods (Serde in Proxy/TaskMethods) are parameters, too. So is
-- serde_json where it reads bodies (Reader in Transport/Parsing) or lines (LineReader in Shim) and
-- writes responses, and the upstream client of the proxy (McpState in Proxy/Mcp).
-- Transport/Agreement assumes of the derived deserializer of a raw request what serde documents: a
-- field that is missing or null is `None`, and one of another type is an error.
--
-- Bounds. Canonical JSON counts its depth down from 65, one more than the limit of the code, so the
-- limit is met exactly where the code meets it. No other function runs on fuel: the loops go over
-- lists. The drain loop and the loop of a waiting call go over the polls that the system presents;
-- Lifecycle/Drain and Approval/Engine/Waiting say which are enough.
--
-- Not modelled: the upstream client and the HTTP and stdio services, telemetry, the Cedar engine and
-- Slack, which are input and output around the parts above; the loops and processes of the shim, and
-- the timeout of its drain; the keepalive bytes of a stream; the rate limiter of the scheduler;
-- metrics, spans and heartbeats of the engine; the deserialization of the configuration; creation of
-- tasks by interleaved threads; the Cedar and telemetry sections of `Config`, which no modelled
-- method reads.
mod Base
mod Errors
mod Transport
mod Protocol
mod Shim
pub mod Json
mod Lifecycle
mod Governance
mod Approval
mod Proxy
pub mod Task
mod Tests
