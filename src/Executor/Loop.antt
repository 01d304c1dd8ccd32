-- ===== src/Executor/Loop.antt =====
-- The loop of `TaskExecutor.execute` (python/tom/agents/executor.py) over the ordered steps of a plan.
-- What comes from outside at one pass of the loop is a `Moment`: the token, the clock, the outcome of
-- the visual check and of the tool, and what other callers did to the task manager while the tool
-- ran. An exception of the tool is caught by the source and is a failed result here. The messages are
-- without the values that they show.
use tom.Prelude.{
  ℕ, ◌+◌, String, Bool, true, false, Option, none, some, List, [], ◌∷◌, ◌++◌, not, ◌&&◌, leb, ltb,
  str_eq, if◌then◌else◌,
}
use tom.Tasks.State.{
  TaskState, executing, waiting_confirmation, completed, failed, cancelled, same, StepResult, Task,
  TaskResult,
}
use tom.Tasks.Manager.{
  TaskManager, task_not_found, get_task, transition, record_step, fail, cancel, complete,
}
use tom.LoopDetector.Defs.{record_tool_call, is_loop_detected}
use tom.Permissions.Levels.{PermissionLevel}
use tom.Permissions.Engine.{definition, dict, evaluate}
use tom.Executor.State.{
  PlanStep, TaskExecutor, Moment, Run, of_manager, tool_not_found, Next, continues, breaks, returns,
  raises, attempt,
}

module _ (x : TaskExecutor) where
  result : TaskState → List StepResult → ℕ → Option String → TaskResult
  result state results total error = record {
    task_id = x.task_id;
    state = state;
    step_results = results;
    total_steps = total;
    error = error;
  }

  -- `fail`, and the result of a failed task.
  unfoldable pub give_up : Moment → List StepResult → ℕ → String → TaskManager → Next
  unfolding result
  give_up now_is results total error m =
      attempt (fail x.task_id error now_is.now m)
        (λ m'. returns m' (result failed results total (some error)))

  -- A step that is not carried out: its failed result is recorded, and the task fails.
  unfoldable pub refuse_step : Moment → PlanStep → Run → String → Next
  unfolding give_up
  refuse_step now_is step run error =
      let failed_res : StepResult = record {
        step_id = step.step_id;
        step_index = run.steps_executed;
        tool_name = step.tool_name;
        success = false;
        output = none;
        error = some error;
      } in
      attempt (record_step x.task_id failed_res now_is.now run.manager)
        (give_up now_is (run.step_results ++ failed_res ∷ []) (run.steps_executed + 1) error)

  -- `tool_result.error or "Step failed"`
  error_text : Option String → String
  error_text none = "Step failed"
  error_text (some error) = if str_eq error "" then "Step failed" else error

  -- From the recorded step to the end of the pass.
  unfoldable pub evaluate_outcome : Moment → PlanStep → Run → Next
  unfolding give_up error_text
  evaluate_outcome now_is step run =
      if is_loop_detected run.detector
      then give_up now_is run.step_results run.steps_executed (x.loop_text run.detector) run.manager
      else if not now_is.tool_result.success
      then give_up now_is run.step_results run.steps_executed (error_text now_is.tool_result.error)
          run.manager
      else let run' : Run = record run {
        completed_success_steps = step.step_id ∷ run.completed_success_steps;
      } in
        if step.is_terminal then breaks run' else continues run'

  -- Loop detection and checkpointing, with the manager as the tool has left it.
  unfoldable pub checkpoint : Moment → PlanStep → Run → TaskManager → Next
  unfolding evaluate_outcome
  checkpoint now_is step run m =
      let detector =
        record_tool_call (x.tool_sig step) (x.outcome_sig now_is.tool_result)
          now_is.tool_result.success run.detector in
      let res : StepResult = record {
        step_id = step.step_id;
        step_index = run.steps_executed;
        tool_name = step.tool_name;
        success = now_is.tool_result.success;
        output = now_is.tool_result.output;
        error = now_is.tool_result.error;
      } in
      attempt (record_step x.task_id res now_is.now m) (λ m'.
        evaluate_outcome now_is step (record run {
          manager = m';
          detector = detector;
          step_results = run.step_results ++ res ∷ [];
          steps_executed = run.steps_executed + 1;
        }))

  -- The `finally` of a call that needed a confirmation; its `get` may raise.
  unfoldable pub resume_task : Moment → TaskManager → Option Task → (TaskManager → Next) → Next
  resume_task now_is m none k = raises m (of_manager (task_not_found x.task_id))
  resume_task now_is m (some task) k =
      if same task.state waiting_confirmation
      then attempt (transition x.task_id executing now_is.now m) k
      else k m

  abbrev pub resume : Moment → (TaskManager → Next) → TaskManager → Next
  resume now_is k m = resume_task now_is m (get_task m x.task_id) k

  unfoldable pub needs_confirmation : PlanStep → PermissionLevel → Bool
  needs_confirmation step level =
      elim (evaluate x.methods x.scan x.engine (definition step.tool_name level)
        (dict step.parameters) "SAFE") [
          | none ↦ false
          | some decision ↦ decision.requires_confirmation
        ]

  -- The call of a registered tool, between the two transitions if it needs a confirmation.
  unfoldable pub call_tool : Moment → PlanStep → Run → PermissionLevel → Next
  unfolding needs_confirmation resume_task checkpoint
  call_tool now_is step run level =
      if needs_confirmation step level
      then attempt (transition x.task_id waiting_confirmation now_is.now run.manager)
          (λ m. resume now_is (checkpoint now_is step run) (now_is.meanwhile m))
      else checkpoint now_is step run (now_is.meanwhile run.manager)

  unfoldable pub look_up : Moment → PlanStep → Run → Option PermissionLevel → Next
  unfolding call_tool
  look_up now_is step run none = raises run.manager (tool_not_found step.tool_name)
  look_up now_is step run (some level) = call_tool now_is step run level

  unfoldable pub contains_id : String → List String → Bool
  contains_id k [] = false
  contains_id k (j ∷ js) = if str_eq j k then true else contains_id k js

  unfoldable pub is_satisfied : List String → List String → Bool
  unfolding contains_id
  is_satisfied [] done = true
  is_satisfied (k ∷ ks) done = contains_id k done && is_satisfied ks done

  -- One pass of the loop.
  unfoldable pub pass : Moment → PlanStep → Run → Next
  unfolding give_up refuse_step look_up is_satisfied result
  pass now_is step run =
      if now_is.is_cancelled
      then attempt (cancel x.task_id now_is.now run.manager) (λ m.
        returns m
          (result cancelled run.step_results run.steps_executed (some "Task execution cancelled")))
      else if ltb x.timeout_seconds now_is.elapsed
      then give_up now_is run.step_results run.steps_executed
          "Task execution exceeded timeout limit" run.manager
      else if leb x.max_steps run.steps_executed
      then give_up now_is run.step_results run.steps_executed
          "Task execution exceeded step budget limit" run.manager
      else if not (is_satisfied step.dependencies run.completed_success_steps)
      then refuse_step now_is step run "A prerequisite dependency was not satisfied or failed"
      else if step.requires_revalidation && not now_is.is_revalidated
      then refuse_step now_is step run "Visual revalidation failed"
      else look_up now_is step run (x.registry step.tool_name)

  -- After the loop.
  unfoldable pub finish : Moment → Run → Next
  unfolding give_up result
  finish now_is run =
      if ltb x.timeout_seconds now_is.elapsed
      then give_up now_is run.step_results run.steps_executed
          "Task execution exceeded timeout limit" run.manager
      else attempt (complete x.task_id now_is.now run.manager)
          (λ m. returns m (result completed run.step_results run.steps_executed none))

  unfoldable pub settle : (ℕ → Moment) → (Run → Next) → Next → Next
  unfolding finish
  settle moments rest (continues run) = rest run
  settle moments rest (breaks run) = finish (moments run.steps_executed) run
  settle moments rest (returns m t) = returns m t
  settle moments rest (raises m err) = raises m err

  -- The loop over the ordered steps, and what follows it. The moments are numbered by the count of
  -- the steps before, since each pass that goes on counts one.
  unfoldable pub run_steps : (ℕ → Moment) → List PlanStep → Run → Next
  unfolding pass finish settle
  run_steps moments [] run = finish (moments run.steps_executed) run
  run_steps moments (step ∷ steps) run =
      settle moments (run_steps moments steps) (pass (moments run.steps_executed) step run)
