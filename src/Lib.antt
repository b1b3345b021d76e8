-- ===== src/Lib.antt =====
-- The core of the Davinci agent (davinci/*.py): an agent that plans, gates each action by a
-- permission engine, executes it through a pluggable backend, reflects and replans, within a budget
-- and under a trace; with the bridge to the node that hosts it, the sandbox VMs of its sessions, and
-- the orchestrator of tools and workers in containers (caspar_orchestrator.py).
--
-- The parts, and how they meet:
--   * Permissions models davinci/permissions.py: `PermissionEngine.check` gives a decision for a
--     `ToolAction`, through guardrails (Guardrails), rules with glob patterns, and the mode with the
--     risk tier. Check has its definitions.
--   * Planning models davinci/planning.py: a `Plan` is a list of steps with a counter for ids. Ops
--     has its methods; `none` is the `KeyError` of `_get`. Dicts has `to_dict`.
--   * Observability models davinci/observability.py: Budget, the masking of secrets (Patterns, Mask)
--     and the Tracer. Substitution says what `pat.sub` does as a relation, and Masked how a recorded
--     value stands to the one given.
--   * Memory models davinci/memory.py: Working, Session, Compact and Instructions. A session's list is
--     only reached through its entry in the ordered dict, so the dict holds it by value.
--   * Registry models davinci/mcp.py: tool descriptors, the registry and its ranked search.
--   * Sandbox models davinci/sandbox_core.py: Ids has the names of VMs, Manager the internals of
--     `SandboxManager` over a bridge that is a parameter, Actions its actions and their dispatch.
--     Each host call is kept in a list; Confined and Dispatch say which VM the calls are about.
--     Tool is tools/sandbox_pc/tool.py, which calls the manager.
--   * Bridge models davinci/caspar_bridge.py: Bytes and Stream are `struct` and `_recvall` on a
--     stream of events, Messages is `_dispatch_frame` and `_on_message` with the waiting calls,
--     Wire is `_send` and `_read_loop`, Calls is `call`, `ping`, `_handshake` and the wrappers, with
--     what the other threads do while a call waits as a parameter. Waiting has the threads' steps in
--     any order; RoundTrip joins a sender to a reader.
--   * Orchestrator models caspar_orchestrator.py: Client is the transport and `CasparVmmClient`,
--     whose payloads are kept in a list; Planner is `DavinciToolRegistry` and `DavinciPlanner`;
--     Workers and Hierarchy are `MasterWorkerOrchestrator`; Metadata, Discovery and Bootstrap build
--     a registry from a catalog. Groups is a dict of lists whose keys are any values that Python can
--     hash. A category of a capability comes from a JSON text that nothing checks, so it is a value.
--     Executor is davinci/caspar_executor.py; Names and Execution say what it takes and sends.
--   * Reasoner models davinci/reasoner.py: Group is the conversation and the group chat, Reply is
--     `_parse_json`, Decide is what `propose`, `make_plan`, `synthesize` and `reflect` make of the
--     text of a reply.
--   * Tools models parts of the tools that run in containers: Statements is `_split_statements` and
--     the read-only guard of tools/sql_query/tool.py, Splitting what the split keeps.
--   * Engine models `DavinciAgent` of davinci/engine.py. Monad is state passing with exceptions
--     (what was changed before a raise stays changed); Step is `_run_step`, cut at its early
--     returns; Loop is the `while True` of `run`; Entry is what stands before and after it; History
--     is `_normalize_history`; Offline is `HeuristicReasoner` and `EchoExecutor`. The engine calls
--     the permission engine, the plan, the budget, the tracer, the working memory and the registry
--     of the other parts. A `PlanStep` that Python shares between the loop and the plan is written
--     through its id. A run's instructions come rendered, with the request.
--   * Prelude has what the parts share: Boolean tests, lists and texts with Python's slices, `dict`
--     as an association list in the order of insertion, JSON-like values, `re` and `fnmatch` as far as
--     the program uses them.
--
-- Parameters: `json.loads` and `bytes.decode` where bytes come from outside; the reasoner, the
-- executor and the planner's strategy are fields of `Backend`, each a function of a world that it may
-- change and that may raise; so are the clock, the ids and times of events, and SHA-1. Of them it is
-- assumed only that the setters of the reasoner do not raise. What the transport raises for a tool's
-- signal is the parameter `Failure`. `InstructionMemory` takes the file system, with the functions of
-- `os.path`, as the record `Files`.
--
-- Fuel: `run_loop` and `run` take fuel, with an outcome of their own for its end. A turn either
-- charges a step or uses up a replan, so one unit more than both together is enough. `discover`
-- takes fuel for its walk up the directories, and `read_loop` for the reader's frames: one unit more
-- than the frames that come is enough.
--
-- Bounds: the counters are Python's unbounded integers, so natural numbers (what is charged as tokens
-- may be negative); `replan_budget` and the
-- limits are taken as natural numbers. Times are ticks of the clock. Classes of characters and the
-- folding of case are those of ASCII; floats, and with them the estimated cost, are left out.
--
-- Not modelled: attachments' files, the LLM clients and the reasoner's prompts, the opening and
-- closing of the bridge's socket, the signalling client and the runtime around the agent, the
-- command line, and the tools but for those named above, which mostly call outside services. Sockets
-- are taken not to fail at a send, but for the executor's signal, whose transport can raise; a lock
-- makes what it guards one step. Also left out are `EpisodicMemory`'s file and the tracer's sink,
-- which only write out.
mod Prelude
pub mod Permissions
pub mod Planning
pub mod Observability
pub mod Memory
pub mod Registry
pub mod Sandbox
pub mod Engine
pub mod Bridge
pub mod Orchestrator
pub mod Reasoner
pub mod Tools
