-- ===== src/Executor/State.antt =====
-- The records and the outcomes of the loop in python/tom/agents/executor.py, with the records that it
-- reads (python/tom/schemas/planner.py, python/tom/tools/registry.py).
use tom.Prelude.{ℕ, String, Bool, Option, List, []}
use tom.Tasks.State.{StepResult, TaskResult}
use tom.Tasks.Manager.{TaskManager, Error, Result, ok, raised, Reply}
use tom.LoopDetector.Defs.{LoopDetector, ToolSig}
use tom.Permissions.Levels.{TextMethods, PermissionLevel}
use tom.Permissions.Payloads.{Fields}
use tom.Permissions.Engine.{PermissionEngine}

-- The fields of a step that the loop reads; `dependencies` are the identifiers.
pub record PlanStep : Type 0 where
  pub step_id : String
  pub tool_name : String
  pub parameters : Fields
  pub dependencies : List String
  pub requires_revalidation : Bool
  pub is_terminal : Bool

pub record ToolResult : Type 0 where
  pub success : Bool
  pub output : Option String
  pub error : Option String

-- The executor's fields and what its parts need. `registry` gives the level of a registered tool, and
-- the two signatures are the fingerprints that the loop detector takes, and `loop_text` is the text of
-- `get_loop_reason() or "Execution loop detected"`.
pub record TaskExecutor : Type 0 where
  pub methods : TextMethods
  pub scan : String → Bool
  pub engine : PermissionEngine
  pub registry : String → Option PermissionLevel
  pub tool_sig : PlanStep → ToolSig
  pub outcome_sig : ToolResult → String
  pub loop_text : LoopDetector → String
  pub task_id : String
  pub max_steps : ℕ
  pub timeout_seconds : ℕ

pub record Moment : Type 0 where
  pub is_cancelled : Bool
  pub elapsed : ℕ
  pub now : ℕ
  pub is_revalidated : Bool
  pub tool_result : ToolResult
  pub meanwhile : TaskManager → TaskManager

pub record Run : Type 0 where
  pub manager : TaskManager
  pub detector : LoopDetector
  pub step_results : List StepResult
  pub steps_executed : ℕ
  pub completed_success_steps : List String

pub data Exception : Type 0 where
  of_manager : Error → Exception
  tool_not_found : String → Exception

-- How a pass of the loop ends: with the next pass, at a `break`, with a `return`, or with an
-- exception.
pub data Next : Type 0 where
  continues : Run → Next
  breaks : Run → Next
  returns : TaskManager → TaskResult → Next
  raises : TaskManager → Exception → Next

-- A call of the task manager, and what follows if it raises nothing.
unfoldable pub after : Result → TaskManager → (TaskManager → Next) → Next
after (ok task) m k = k m
after (raised err) m k = raises m (of_manager err)

abbrev pub attempt : Reply → (TaskManager → Next) → Next
attempt reply k = after reply.1 reply.0 k

-- Before the loop.
abbrev pub start : TaskManager → LoopDetector → Run
start m d = record {
  manager = m;
  detector = d;
  step_results = [];
  steps_executed = 0;
  completed_success_steps = [];
}
