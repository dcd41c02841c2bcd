-- ===== src/Lib.antt =====
-- Verification of agentdev, the broker of the codex/cursor development stack.
--
-- agentdev runs coding agents in containers. A request comes in over the broker's socket; the broker
-- validates it, resolves the execution policy of the run, checks the agent's capabilities, and manages
-- the tasks of a project: Git branches and worktrees with a metadata file per task.
--
-- The files, and the code that they are about (paths from the repository's root):
--   Base        Boolean tests, strings by code points, JSON-like values, and `Result` for exceptions
--   Policy      platform-src/agentdev/policy: Choices, Checks and Schema for schema.py, Resolver for
--               resolver.py, Profiles for profiles.py, Capabilities for capabilities.py and the
--               `AgentCapabilities` of agents/base.py, Legacy for legacy.py
--   Core        platform-src/agentdev/core: Names and Paths for validation.py, Projects for projects.py
--               and `ProjectContext` of models.py, Models for its other records, Dependencies for
--               dependencies.py, Worktrees for worktrees.py, Locking for locking.py, Records and Tasks for tasks.py,
--               Handoff for git_handoff.py, Exchange for the bundles of projects.py
--   Execution   platform-src/agentdev/execution: Mounts and Plan for plan.py and isolation.py
--   Runtime     platform-src/agentdev/runtime: Control for base.py, Podman for the command lines of
--               podman.py, Session for its processes
--   Agents      platform-src/agentdev/agents: Specs for base.py, Codex for codex.py, Cursor for
--               cursor.py, Registry for registry.py, State for state.py and
--               Adapters for the adapters of codex.py and cursor.py
--   Broker      platform-src/agentdev/broker: TaskOps and ProjectOps for those of daemon.py, RunPlan
--               for `create_run_execution_plan` of daemon.py, Rpc for
--               rpc.py and `rpc_operations` of daemon.py
--   Tests       the theorems at concrete inputs
-- A definition has the name of the function, method or class that it models, without a leading
-- underscore. The child modules Narrowing, Rights, Layers, Effect, Matching, Mapping, Valid, Accepts,
-- RoundTrip, Effects, Integrated, Steps, Lifecycle, Exclusion, Locks, Shape, Serving, Replies,
-- Consistent, Reading, Argv, Values, Options, Says, Endings, Deadline, Shows, Transcript, Signals, Plain,
-- Declared, Settings, Confines, Document, Asks, Supports, Run, Rollback, Guarded, Grid, Finds, Confined
-- and Coherent hold proofs.
--
-- How the code is modelled:
--   * A function that raises returns a `Result`: an error has the class of the exception and the part
--     of its message that says what is wrong, without the values that the message quotes.
--   * Python objects are JSON-like values. A float is the exact number n / 2^k, infinite or NaN. A
--     list stands for a list or a tuple; a frozenset is a list that is read by membership. The
--     strings that a choice allows are an enumeration, and a policy record with one field is that
--     field. A test that the type of a field decides (`isinstance`) is not written again.
--   * Core/Host has the state: the task files of one project by name, and a world that only Git, the
--     clock and the file system read and change. These are the parameter `Host`; the theorems hold for
--     each. A metadata file is a record or cannot be read; the output of Git comes stripped. `Disk` of
--     Core/Handoff and `PolicyStore` of Broker/RunPlan have the other calls that change the world, as
--     parameters too.
--   * Task requests are those for the one project whose files the state has; they are served one
--     after the other. The locks of one request are taken in order, and a lock that the
--     request holds already is the error `blocked`, where the code waits for good.
--   * JSON decoding is a parameter of Broker/Rpc. Sending a frame succeeds; `start`, `output` and the
--     frames that end a request are what is sent.
--   * Runtime/Podman/Reading reads a command line back, the way `podman run` documents its options;
--     Python's `str` of a number is a parameter. Runtime/Session is given what the calls of each turn
--     of the loop return, and yields the actions in order; a session whose rounds run out goes on.
--     Clock readings are whole numbers of ticks.
--   * `json.dumps` is a parameter of Agents; a theorem that relies on what it prints says so.
-- All functions are structural recursions, so no fuel is needed.
--
-- Not modelled: the limit of Python's `int` on 4,300 digits; concurrent requests;
-- policy/serialization.py; the runtime and provider operations of daemon.py, except for the plan of a
-- run; the policy mounts and the static adapters of agents/state.py; the driver descriptions for
-- installation, authentication and version probes; the pseudo-terminal and its waiting times; the
-- client broker/cli.py and broker/runtime_io.py, which are argument parsing and I/O.
pub mod Base
pub mod Policy
pub mod Core
pub mod Execution
pub mod Runtime
pub mod Agents
pub mod Broker
pub mod Tests
