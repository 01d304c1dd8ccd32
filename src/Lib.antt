-- ===== src/Lib.antt =====
-- TOM, a local personal assistant: a model of the parts of its Python brain that keep state and
-- enforce limits.
--
-- The parts and the files that model them (paths from the root of the repository):
--
--   Tasks         python/tom/schemas/task.py and python/tom/agents/task_manager.py. `Tasks.State` has
--                 the states, the transition matrix and the task record, `Tasks.Manager` the methods
--                 of `TaskManager` (one function each, with a body after the common lookup), and
--                 `Tasks.Calls` calls as data, runs of calls and the effect of a call on one task.
--   LoopDetector  python/tom/agents/loop_detector.py. `record_tool_call` and `record_observation`
--                 work on the fingerprints, which `fingerprint` and `normalize_observation` take from
--                 parameters that stand for JSON and SHA-256.
--   Confirmation  `ConfirmationTracker` of python/tom/security/confirmation.py.
--   Resources     python/tom/resources/policies.py (`Resources.Queue`: the priority queue) and
--                 python/tom/resources/manager.py (`Resources.Manager`: the budget checks;
--                 `Resources.Leases`: requests, releases, dispatch and the ends of waits;
--                 `Resources.Safety`: all of these as the steps of one transition system).
--   Permissions   python/tom/security/permissions.py. `Permissions.Levels` and `Permissions.Decisions`
--                 have the tiers, tables and decisions, `Permissions.Payloads` the arguments and the
--                 scan of them, and `Permissions.Engine` the steps of `evaluate` and the overrides.
--   Executor      `TaskExecutor.execute` in python/tom/agents/executor.py from its loop on, composed of
--                 the task manager, the loop detector and the permission engine: `Executor.State` has
--                 the records, `Executor.Loop` one pass, the loop and what follows it. What comes from
--                 outside at a pass (the tool's outcome, the clock, the token, other callers of the
--                 task manager) is a `Moment`. An `asyncio` cancellation of `execute` itself is not
--                 modelled.
--   Models        python/tom/resources/model_manager.py: `Models.Coordinator` has the records and the
--                 methods, each as a body on the record that it finds; `Models.Soundness` has runs of
--                 calls and `Models.Usage` acquisitions and releases in sequence.
--   Streaming     python/tom/voice/sentence_streamer.py: `Streaming.Text` has Python's methods of texts,
--                 `Streaming.Boundaries` the tests for ends of sentences, clauses and words, and
--                 `Streaming.Streamer` the streamer. Its standard loop has the length of the buffer as
--                 fuel, one unit for each position that it looks at.
--   Proactive     python/tom/agents/proactive.py and python/tom/schemas/proactive.py: `Proactive.Cron`,
--                 `Proactive.Triggers` and `Proactive.QuietHours` are the schema, and
--                 `Proactive.Scheduler` the scheduler, whose dispatch up to the end of its lock is one
--                 step on the state of the task manager.
--   Tools         python/tom/tools/registry.py and python/tom/tools/executor.py: `Tools.Registry` has the
--                 definitions of tools, `Tools.Binding` the choice of a handler's arguments, and
--                 `Tools.Pipeline` the executor, which gives the list of its effects and its outcome.
--                 It uses the decisions of Permissions.
--   Planner       python/tom/agents/planner.py: `Planner.Graph` has the order of a plan's steps, which
--                 python/tom/agents/executor.py repeats. The loop has the number of identifiers as
--                 fuel; each becomes ready once at most. `Planner.Validation` has validate_plan.
--   Ipc           python/tom/ipc: `Ipc.Transport` has the frames of transport.py and `Ipc.Client` and
--                 `Ipc.Session` the client of client.py, whose coroutines are cut at their
--                 suspensions; `Ipc.Runs` has the events that can follow one another. The bytes of
--                 the pipe and what ends the stream are input.
--   Voice         python/tom/voice/interaction_core.py and pipeline.py: `Voice.Core` has the state with a
--                 barge-in and a stop, which are cut at their waits for the engine and for the
--                 turn and can overlap, `Voice.Turns` what turns do to it, and `Voice.Runs` the events.
--   Paths         python/tom/security/policies.py: `Paths.Policy` has PathPolicy. What pathlib and the file
--                 system of the platform answer is a parameter.
--   Conversation  python/tom/voice/turn_manager.py and python/tom/schemas/turn.py: `Conversation.Manager` has
--                 the manager of turns, `Conversation.History` its calls and what they return.
--   Prelude, Dict, Sorting   shared names, Python's dict, and its stable sort.
--
-- How they interact: the task executor drives the task manager and asks the loop detector after
-- each call; the console confirmation hook asks the rate limit before each prompt; the manager's
-- `dispatch_next_waiter` pops the queue with its own admission test.
--
-- Conventions. A method is a function from the state to the new state and its result. Each method of
-- the task manager and of the queue runs under one lock, and the resource manager's coroutines are
-- cut at their real suspensions, where another task can run. Times are whole ticks and memory is in
-- whole MB; the telemetry is only compared with whole numbers, so rounding it down loses nothing.
-- Random identifiers, the clock, the telemetry and fingerprints are arguments. A loop is
-- a recursion on a list, or takes fuel as said above.
--
-- Not modelled: SQLite (the writes that were tried are kept), logging, the text of error messages,
-- and the components of audio, vision, web and model providers, which are input and output. Of the
-- interaction core: the wake word, the smart-turn arbiter, the greeting, the watchdog, the
-- executor's work between its callbacks, a second barge-in while one waits, and what becomes of a
-- turn that begins after the core was stopped. Of the IPC client: a caller that is cancelled while
-- the frame is written, two receive loops at once, and the jitter of the delays.
pub mod Prelude
pub mod Dict
pub mod Sorting
pub mod Tasks
pub mod LoopDetector
pub mod Confirmation
pub mod Resources
pub mod Permissions
pub mod Executor
pub mod Models
pub mod Streaming
pub mod Proactive
pub mod Tools
pub mod Planner
pub mod Ipc
pub mod Voice
pub mod Paths
pub mod Conversation
