-- ===== src/Lib.antt =====
-- Stargraph: the core of the graph runtime.
--
-- A run walks the nodes of a graph. At each node a tick runs the node's body, lays its outputs over the
-- state, lets the rules engine act on a mirror of that state, turns the engine's actions into one
-- routing decision, tells a transition, writes a checkpoint, and goes on. Around the tick stand two
-- capability gates, parallel blocks, interrupts that wait for a human's answer or a timer, and the calls
-- cancel, pause and respond that other tasks make at any time. Above the loop stand the scheduler, which queues
-- runs and lets one run of a graph go on at a time, the broadcaster, which hands a run's events to its clients, the
-- cron, webhook and manual triggers, the execution of tools under their gates, and the comparison of a run with its counterfactual. Below it stands the validation of the document
-- that a graph is made of.
--
-- Files and sources (paths from the repository's root):
--   Common             numbers, lists, texts, dicts, and exceptions as values
--   Ir/Nodes, Ir/Actions       src/stargraph/ir/_models.py
--   Security/Glob              fnmatch.fnmatchcase, as the capabilities use it
--   Security/Capabilities      src/stargraph/security/capabilities.py
--   Runtime/Action             src/stargraph/runtime/action.py: translate_actions, rule_id_for
--   Runtime/Action/Extract     src/stargraph/fathom/_action.py: extract_actions
--   Runtime/Mirror             src/stargraph/runtime/mirror_lifecycle.py
--   Runtime/Parallel           src/stargraph/runtime/parallel.py: execute_parallel and what it calls
--   Runtime/Dispatch           src/stargraph/runtime/dispatch.py: dispatch_node; its steps 1 to 8
--                              stand in Runtime/Dispatch/Steps
--   Graph/State                the fields of GraphRun, the checkpoint, the summary and the events
--   Graph/State/Exec           code that changes a run and may raise
--   Graph/Methods              src/stargraph/graph/run.py: cancel, pause, respond, checkpoint
--   Graph/Gates                src/stargraph/graph/loop.py: the tool gate and the node gate
--   Graph/Helpers              src/stargraph/graph/_loop_helpers.py
--   Graph/Loop                 src/stargraph/graph/loop.py: execute and the wait for an answer; the
--                              loop's phases and exits stand in Graph/Loop/Phases
--   Graph/Resume               src/stargraph/graph/run.py: resume, counterfactual and their checks
--   Serve/RateLimit            src/stargraph/serve/ratelimit.py
--   Replay/Cassettes           src/stargraph/replay/cassettes.py
--   Registry/Tools             src/stargraph/registry/tools.py
--   Serve/Scheduler            src/stargraph/serve/scheduler.py and _scheduler_models.py: enqueue and the
--                              cron loop; its workers stand in Scheduler/Steps, the whole in Scheduler/Acts
--   Ir/Ids, Ir/When, Ir/Versioning, Ir/Validate
--                              src/stargraph/ir/_ids.py, _when.py, _versioning.py, _validate.py
--   Serve/Broadcast            src/stargraph/serve/broadcast.py
--   Replay/Compare, Replay/History
--                              src/stargraph/replay/compare.py, history.py
--   Triggers/Cron              src/stargraph/triggers/cron.py: the fire loop
--   Serve/Driven               the scheduler and the loop together
--   Registry/Stores            src/stargraph/registry/stores.py
--   Graph/Definition           src/stargraph/graph/definition.py: the constructor of a graph
--   Runtime/ToolExec           src/stargraph/runtime/tool_exec.py, tools/spec.py and the spec of tools/decorator.py
--   Triggers/Webhook           src/stargraph/triggers/webhook.py: the verification of a request, the nonce cache
--                              (Webhook/Nonces) and the call of the scheduler
--   Triggers/Manual            src/stargraph/triggers/manual.py
--   Common/Sorting             `sorted` over texts and tuples
--   Graph/Hash                 src/stargraph/graph/hash.py: the structural hash
--   Serve/Lifecycle            src/stargraph/serve/lifecycle.py and respond.py: the calls of an actor on a run
--   Runtime/Merge              src/stargraph/runtime/merge.py: the merge strategies and their registry
--   Replay/Counterfactual      src/stargraph/replay/counterfactual.py: the derived hash and the override of answers
--
-- Modelling choices. The rules engine is a function of all that it was asked so far; node bodies,
-- checkpoint drivers, fact stores and receipt sinks are functions of the run's setup, and a driver
-- answers a write with the exception that it raises, if any. The `while` loop of `execute` is a machine
-- whose phases are the places where it waits; a schedule of ticks says which calls other tasks make
-- during each wait, so that a theorem about all schedules is one about all interleavings at those
-- places. The branches of a parallel set run one after the other in input order, which is one of the
-- orders that asyncio allows. The bus is a log to which events are appended; it exerts no backpressure.
-- Timestamps are left out, and exceptions keep their class and a short text. A tick has a fuel, the
-- bound on how deep rules nest parallel actions: a tick whose own decision is no parallel action needs a
-- fuel of 1, and running out is an outcome of its own, `too_deep`, which no exception handler catches.
-- Natural numbers are unbounded, as Python's are. The rate limiter counts microseconds and
-- sixty-millionths of a token, in which a refill is exact, where the source has floats. A node's body is a
-- function of the state and the step: what a body reads of the fields of the run that change, and what it does to them, is left out. The calls of Pydantic
-- that build a model are parameters that may refuse.
--
-- The scheduler is a state and the steps that its tasks make between two waits (the dispatcher, the workers, the
-- background writes, the callers); a run that a worker drives is given by how it ends, and Serve/Driven puts the
-- loop's own end in its place. A limiter and a stream of anyio are given by what anyio documents of them: a number
-- of tokens, and a buffer that refuses an item when it is full. The broadcaster's subscribers are kept after they
-- have gone, so that a theorem can speak of what they saw. A request of a webhook is one step, since the
-- handler waits for nothing between the body and the answer; its hashes are parameters, of which nothing is assumed, so that
-- what is proved of signatures is that the right digests are compared. A call of a tool is a function of what it left behind so
-- far: the calls of bodies, the facts, the tokens. The fire loop of a cron trigger is a list of turns that
-- say how late a sleep ends, over a zone's clock that is a parameter: Python takes the difference of two readings for the
-- time between them, and so does the model. A run that raises a CancelledError of its own lets the task group cancel
-- the workers and the dispatcher: acts that may come at any time. Loops without a bound in the source run on
-- fuel: one turn more than there are ids that
-- are taken for the generation of ids, one more than there are rows for the loading of a run; each turn but the last uses
-- one of them up. The bound of 2000 ticks of the cron catch-up is the source's own, and is enough for a day of minutes.
--
-- Not modelled: the CLIPS engine (it is not in the repository), the SQL drivers (clients of third-party
-- packages), the HTTP routes, authentication and profiles, the command line, plugins, adapters, skills and stores
-- (glue and I/O), the simulation of graphs, and the migration of old documents.
pub mod Common
pub mod Ir
pub mod Security
pub mod Runtime
pub mod Graph
pub mod Serve
pub mod Replay
pub mod Registry
pub mod Triggers
pub mod Tests
