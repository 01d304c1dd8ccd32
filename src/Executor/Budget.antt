-- ===== src/Executor/Budget.antt =====
-- The number and the success of the steps in the results of `TaskExecutor.execute`
-- (python/tom/agents/executor.py).
use tom.Prelude.{
  ℕ, ◌+◌, ◌≤◌, String, ◌≡◌, refl, subst, ◌⊎◌, inl, inr, Bool, true, false, Option, none, some, List,
  [], ◌∷◌, ◌++◌, not, ◌&&◌, length, length-append, All, All-append, arith, ltb, leb, if◌then◌else◌,
  Bool-cases,
}
use tom.Tasks.State.{completed, waiting_confirmation, same, StepResult, Task, TaskResult}
use tom.Tasks.Manager.{TaskManager, Result, ok, raised, get_task}
use tom.LoopDetector.Defs.{LoopDetector, is_loop_detected}
use tom.Permissions.Levels.{PermissionLevel}
use tom.Executor.State.{
  start, PlanStep, TaskExecutor, Moment, Run, Next, continues, breaks, returns, raises, after,
}
use tom.Executor.Loop.{
  resume_task, is_satisfied, needs_confirmation, give_up, refuse_step, evaluate_outcome, checkpoint,
  call_tool, look_up, pass, finish, settle, run_steps,
}

abbrev pub IsSuccess : StepResult → Type 0
IsSuccess r = r.success ≡ true

-- Each recorded step is counted, all are successes, and the budget is kept.
abbrev pub IsCounted : ℕ → Run → Type 0
IsCounted max r =
    (length r.step_results ≡ r.steps_executed)
    × (r.steps_executed ≤ max)
    × All IsSuccess r.step_results

abbrev pub IsFinal : ℕ → TaskResult → Type 0
IsFinal max t =
    (length t.step_results ≡ t.total_steps)
    × (t.total_steps ≤ max)
    × ((same t.state completed ≡ false) ⊎ All IsSuccess t.step_results)

abbrev IsFine : ℕ → Next → Type 0
IsFine max (continues r) = IsCounted max r
IsFine max (breaks r) = IsCounted max r
IsFine max (returns m t) = IsFinal max t
IsFine max (raises m err) = Unit

after-IsFine :
    (max : ℕ) (r : Result) (m : TaskManager) (k : TaskManager → Next)
    → ((m' : TaskManager) → IsFine max (k m'))
    → IsFine max (after r m k)
unfolding after
after-IsFine max (ok task) m k h = h m
after-IsFine max (raised err) m k h = tt

length-snoc : (xs : List StepResult) (y : StepResult) → length (xs ++ y ∷ []) ≡ length xs + 1
length-snoc xs y = length-append xs (y ∷ [])

if-IsFine :
    (b : Bool) (max : ℕ) (p q : Next)
    → (b ≡ true → IsFine max p)
    → (b ≡ false → IsFine max q)
    → IsFine max (if b then p else q)
if-IsFine true max p q h k = h refl
if-IsFine false max p q h k = k refl

succeeded : {P : Type 0} {b : Bool} → (b ≡ false) ⊎ P → not b ≡ false → P
succeeded (inl f) h = ground arith
succeeded (inr p) h = p

module _ (x : TaskExecutor) where
  give_up-IsFine :
      (now_is : Moment) (results : List StepResult) (total : ℕ) (error : String) (m : TaskManager)
      → length results ≡ total
      → total ≤ x.max_steps
      → IsFine x.max_steps (give_up x now_is results total error m)
  unfolding give_up
  give_up-IsFine now_is results total error m n b =
      after-IsFine x.max_steps _ _ _ (λ m'. (n, b, inl refl))

  refuse_step-IsFine :
      (now_is : Moment) (step : PlanStep) (run : Run) (error : String)
      → length run.step_results ≡ run.steps_executed
      → run.steps_executed + 1 ≤ x.max_steps
      → IsFine x.max_steps (refuse_step x now_is step run error)
  unfolding refuse_step
  refuse_step-IsFine now_is step run error n b = after-IsFine x.max_steps _ _ _ (λ m'.
      give_up-IsFine now_is _ _ error m' (omega (arith, length-snoc run.step_results _, n)) b)

  -- The run after a tool call that was recorded.
  evaluate_outcome-IsFine :
      (now_is : Moment) (step : PlanStep) (run : Run)
      → length run.step_results ≡ run.steps_executed
      → run.steps_executed ≤ x.max_steps
      → (now_is.tool_result.success ≡ false) ⊎ All IsSuccess run.step_results
      → IsFine x.max_steps (evaluate_outcome x now_is step run)
  unfolding evaluate_outcome
  evaluate_outcome-IsFine now_is step run n b s =
      let stop = λ (error : String).
        give_up-IsFine now_is run.step_results run.steps_executed error run.manager n b in
      if-IsFine (is_loop_detected run.detector) _ _ _ (λ l. stop _)
        (λ l.
          if-IsFine (not now_is.tool_result.success) _ _ _ (λ f. stop _)
            (λ f.
              let all = succeeded s f in
              if-IsFine step.is_terminal _ _ _ (λ z. (n, b, all)) (λ z. (n, b, all))))

  outcome_of :
      (xs : List StepResult) (r : StepResult)
      → All IsSuccess xs
      → (r.success ≡ false) ⊎ All IsSuccess (xs ++ r ∷ [])
  outcome_of xs r h = elim (Bool-cases r.success) [
    | inl t ↦ inr (All-append IsSuccess xs (r ∷ []) h (t, tt))
    | inr f ↦ inl f
  ]

  checkpoint-IsFine :
      (now_is : Moment) (step : PlanStep) (run : Run) (m : TaskManager)
      → IsCounted x.max_steps run
      → run.steps_executed + 1 ≤ x.max_steps
      → IsFine x.max_steps (checkpoint x now_is step run m)
  unfolding checkpoint
  checkpoint-IsFine now_is step run m c b = after-IsFine x.max_steps _ _ _ (λ m'.
      evaluate_outcome-IsFine now_is step _ (omega (arith, length-snoc run.step_results _, c.0)) b
        (outcome_of run.step_results _ c.2))

  resume-IsFine :
      (now_is : Moment) (m : TaskManager) (o : Option Task) (k : TaskManager → Next)
      → ((m' : TaskManager) → IsFine x.max_steps (k m'))
      → IsFine x.max_steps (resume_task x now_is m o k)
  unfolding resume_task
  resume-IsFine now_is m none k h = tt
  resume-IsFine now_is m (some task) k h =
      if-IsFine (same task.state waiting_confirmation) _ _ _ (λ w. after-IsFine _ _ _ k h)
        (λ w. h m)

  look_up-IsFine :
      (now_is : Moment) (step : PlanStep) (run : Run) (o : Option PermissionLevel)
      → IsCounted x.max_steps run
      → run.steps_executed + 1 ≤ x.max_steps
      → IsFine x.max_steps (look_up x now_is step run o)
  unfolding look_up call_tool
  look_up-IsFine now_is step run none c b = tt
  look_up-IsFine now_is step run (some level) c b =
      let recorded = λ (m : TaskManager). checkpoint-IsFine now_is step run m c b in
      if-IsFine (needs_confirmation x step level) _ _ _
        (λ q. after-IsFine _ _ _ _ (λ m.
          resume-IsFine now_is (now_is.meanwhile m) (get_task (now_is.meanwhile m) x.task_id) _
            recorded))
        (λ q. recorded (now_is.meanwhile run.manager))

  pass-IsFine :
      (now_is : Moment) (step : PlanStep) (run : Run)
      → IsCounted x.max_steps run
      → IsFine x.max_steps (pass x now_is step run)
  unfolding pass
  pass-IsFine now_is step run c =
      let stop = λ (error : String).
        give_up-IsFine now_is run.step_results run.steps_executed error run.manager c.0 c.1 in
      if-IsFine now_is.is_cancelled _ _ _ (λ q. after-IsFine _ _ _ _ (λ m. (c.0, c.1, inl refl)))
        (λ q.
          if-IsFine (ltb x.timeout_seconds now_is.elapsed) _ _ _ (λ t. stop _)
            (λ t.
              if-IsFine (leb x.max_steps run.steps_executed) _ _ _ (λ l. stop _)
                (λ l.
                  let b : run.steps_executed + 1 ≤ x.max_steps = ground arith in
                  if-IsFine (not (is_satisfied x step.dependencies run.completed_success_steps)) _ _
                    _ (λ d. refuse_step-IsFine now_is step run _ c.0 b)
                    (λ d.
                      if-IsFine (step.requires_revalidation && not now_is.is_revalidated) _ _ _
                        (λ v. refuse_step-IsFine now_is step run _ c.0 b)
                        (λ v. look_up-IsFine now_is step run (x.registry step.tool_name) c b)))))

  finish-IsFine :
      (now_is : Moment) (run : Run)
      → IsCounted x.max_steps run
      → IsFine x.max_steps (finish x now_is run)
  unfolding finish
  finish-IsFine now_is run c =
      if-IsFine (ltb x.timeout_seconds now_is.elapsed) _ _ _
        (λ t. give_up-IsFine now_is run.step_results run.steps_executed _ run.manager c.0 c.1)
        (λ t. after-IsFine _ _ _ _ (λ m. (c.0, c.1, inr c.2)))

  settle-IsFine :
      (moments : ℕ → Moment) (rest : Run → Next) (n : Next)
      → ((run : Run) → IsCounted x.max_steps run → IsFine x.max_steps (rest run))
      → IsFine x.max_steps n
      → IsFine x.max_steps (settle x moments rest n)
  unfolding settle
  settle-IsFine moments rest (continues run) h c = h run c
  settle-IsFine moments rest (breaks run) h c = finish-IsFine (moments run.steps_executed) run c
  settle-IsFine moments rest (returns m t) h c = c
  settle-IsFine moments rest (raises m err) h c = tt

  run_steps-IsFine :
      (moments : ℕ → Moment) (steps : List PlanStep) (run : Run)
      → IsCounted x.max_steps run
      → IsFine x.max_steps (run_steps x moments steps run)
  unfolding run_steps
  run_steps-IsFine moments [] run c = finish-IsFine (moments run.steps_executed) run c
  run_steps-IsFine moments (step ∷ steps) run c =
      settle-IsFine moments _ _ (run_steps-IsFine moments steps)
        (pass-IsFine (moments run.steps_executed) step run c)

  run_steps-IsFinal :
      (moments : ℕ → Moment) (steps : List PlanStep) (m m' : TaskManager) (d : LoopDetector)
      (t : TaskResult)
      → run_steps x moments steps (start m d) ≡ returns m' t
      → IsFinal x.max_steps t
  run_steps-IsFinal moments steps m m' d t h =
      subst (IsFine x.max_steps) h
        (run_steps-IsFine moments steps (start m d) (refl, omega arith, tt))

  -- Whatever happens while the steps run, a result that the loop returns from its start counts as many
  -- steps as it lists, and no more than the step budget.
  pub returned_within_budget :
      (moments : ℕ → Moment) (steps : List PlanStep) (m m' : TaskManager) (d : LoopDetector)
      (t : TaskResult)
      → run_steps x moments steps (start m d) ≡ returns m' t
      → (length t.step_results ≡ t.total_steps) × (t.total_steps ≤ x.max_steps)
  returned_within_budget moments steps m m' d t h =
      let f = run_steps-IsFinal moments steps m m' d t h in (f.0, f.1)

  -- A result that says that the task is completed lists successful steps only.
  pub completed_succeeded :
      (moments : ℕ → Moment) (steps : List PlanStep) (m m' : TaskManager) (d : LoopDetector)
      (t : TaskResult)
      → run_steps x moments steps (start m d) ≡ returns m' t
      → t.state ≡ completed
      → All IsSuccess t.step_results
  completed_succeeded moments steps m m' d t h c =
      let f = run_steps-IsFinal moments steps m m' d t h in succeeded f.2 (rw c refl)
