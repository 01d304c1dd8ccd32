-- ===== src/Executor/Examples.antt =====
-- A plan with two steps, one of which needs a confirmation, and the theorems about its execution.
use tom.Prelude.{ℕ, ◌≤◌, ◌≡◌, refl, String, true, false, none, some, List, [], ◌∷◌, length}
use tom.Tasks.State.{completed, executing, StepResult, TaskResult}
use tom.Tasks.Manager.{complete, get_task, record_step, transition, TaskManager, empty}
use tom.LoopDetector.Defs.{is_loop_detected, record_tool_call, new}
use tom.Dict.{get, has, put}
use tom.Permissions.Engine.{evaluate}
use tom.Permissions.Levels.{PermissionLevel}
use tom.Permissions.Payloads.{end}
use tom.Executor.State.{after, PlanStep, TaskExecutor, Moment, Next, returns, start}
use tom.Executor.Loop.{run_steps}
use tom.Executor.Passes.{IsTrace}
use tom.Executor.Order.{executed_in_order}
use tom.Executor.Budget.{returned_within_budget}

abbrev begun : TaskManager
begun = record {
  registry =
      (
        "t",
        record {
          task = record {
            task_id = "t";
            goal = "tidy";
            state = executing;
            created_at = 0;
            updated_at = 0;
            max_steps = 15;
            timeout_seconds = 300;
            current_step_index = 0;
            replan_count = 0;
            error = none;
            resource_priority = none;
          };
          token = false;
        },
      )
      ∷ [];
  writes = [];
}

abbrev executor : TaskExecutor
executor = record {
  methods = record { lower = λ s. s; upper = λ s. s; strip = λ s. s };
  scan = λ s. false;
  engine = record { require_confirmation_for_ask = true; blocked_commands = []; overrides = [] };
  registry = λ n. some PermissionLevel.ask_user;
  tool_sig = λ step. (step.tool_name, step.step_id);
  outcome_sig = λ r. "";
  loop_text = λ d. "loop";
  task_id = "t";
  max_steps = 2;
  timeout_seconds = 300;
}

abbrev step_for : String → List String → PlanStep
step_for k deps = record {
  step_id = k;
  tool_name = "files.write_file";
  parameters = end;
  dependencies = deps;
  requires_revalidation = false;
  is_terminal = false;
}

abbrev plan : List PlanStep
plan = step_for "a" [] ∷ step_for "b" ("a" ∷ []) ∷ []

abbrev calm : ℕ → Moment
calm n = record {
  is_cancelled = false;
  elapsed = n;
  now = n;
  is_revalidated = true;
  tool_result = record { success = true; output = some "done"; error = none };
  meanwhile = λ m. m;
}

abbrev executed : Next
executed = run_steps executor calm plan (start begun (new 3 3))

abbrev manager_of : Next → TaskManager
manager_of (returns m t) = m
manager_of _ = empty

abbrev done_step : String → ℕ → StepResult
done_step k n = record {
  step_id = k;
  step_index = n;
  tool_name = "files.write_file";
  success = true;
  output = some "done";
  error = none;
}

abbrev outcome : TaskResult
outcome = record {
  task_id = "t";
  state = completed;
  step_results = done_step "a" 0 ∷ done_step "b" 1 ∷ [];
  total_steps = 2;
  error = none;
}

returned_within_budget_example : (length outcome.step_results ≡ outcome.total_steps) × (2 ≤ 2)
unfolding run_steps evaluate get has after transition get_task put record_step is_loop_detected
    record_tool_call new complete
returned_within_budget_example =
    returned_within_budget executor calm plan begun (manager_of executed) (new 3 3) outcome refl

executed_in_order_example : IsTrace executor [] plan outcome.step_results
unfolding run_steps evaluate get has after transition get_task put record_step is_loop_detected
    record_tool_call new complete
executed_in_order_example =
    executed_in_order executor calm plan begun (manager_of executed) (new 3 3) outcome refl
