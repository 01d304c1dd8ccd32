-- ===== src/Executor/Passes.antt =====
-- One pass of the loop in python/tom/agents/executor.py, and the result that it records.
use tom.Prelude.{
  IsIn, All, eq_iff, str_eq, ℕ, String, ◌≡◌, refl, sym, ap, ◌⊎◌, inl, inr, Bool, true, false,
  Option, none, some, List, [], ◌∷◌, ◌++◌, not, ◌&&◌, arith, ltb, leb, if◌then◌else◌, Bool-cases,
}
use tom.Tasks.State.{waiting_confirmation, same, Task, StepResult}
use tom.Tasks.Manager.{TaskManager, Result, ok, raised, get_task}
use tom.LoopDetector.Defs.{is_loop_detected}
use tom.Permissions.Levels.{PermissionLevel}
use tom.Executor.State.{
  PlanStep, TaskExecutor, Moment, Run, Next, continues, breaks, returns, raises, after,
}
use tom.Executor.Loop.{
  give_up, refuse_step, evaluate_outcome, checkpoint, resume_task, call_tool, look_up, pass,
  is_satisfied, needs_confirmation, contains_id,
}

module _ (x : TaskExecutor) where
  contains_id-IsIn : (k : String) (done : List String) → contains_id x k done ≡ true → IsIn k done
  unfolding contains_id
  contains_id-IsIn k [] h = ground arith
  contains_id-IsIn k (j ∷ js) h = elim (Bool-cases (str_eq j k)) [
    | inl e ↦ inl (sym ((eq_iff j k).0 e))
    | inr e ↦ inr (contains_id-IsIn k js (rw e at h))
  ]

  is_satisfied-IsIn :
      (ks done : List String) → is_satisfied x ks done ≡ true → All (λ k. IsIn k done) ks
  unfolding is_satisfied
  is_satisfied-IsIn [] done h = tt
  is_satisfied-IsIn (k ∷ ks) done h =
      (contains_id-IsIn k done (ground arith), is_satisfied-IsIn ks done (ground arith))

  -- The result is one of the step, and a success only if its dependencies are among the steps done.
  abbrev pub IsResultOf : PlanStep → List String → StepResult → Type 0
  IsResultOf step done r =
      (r.step_id ≡ step.step_id) × ((r.success ≡ false) ⊎ All (λ k. IsIn k done) step.dependencies)

  -- The results are those of the first steps, one each and in order, with the steps done before each.
  abbrev pub IsTrace : List String → List PlanStep → List StepResult → Type 0
  IsTrace done steps [] = Unit
  IsTrace done [] (r ∷ rs) = ⊥
  IsTrace done (step ∷ steps) (r ∷ rs) =
      IsResultOf step done r × IsTrace (step.step_id ∷ done) steps rs

  module _ (step : PlanStep) (run : Run) where
    abbrev pub IsPassed : Run → Type 0
    IsPassed r =
        (res : StepResult) × (r.step_results ≡ run.step_results ++ res ∷ [])
        × IsResultOf step run.completed_success_steps res
        × (r.completed_success_steps ≡ step.step_id ∷ run.completed_success_steps)

    abbrev pub IsStopped : List StepResult → Type 0
    IsStopped results =
        (results ≡ run.step_results)
        ⊎ ((res : StepResult) × (results ≡ run.step_results ++ res ∷ [])
            × IsResultOf step run.completed_success_steps res)

    abbrev pub IsStep : Next → Type 0
    IsStep (continues r) = IsPassed r
    IsStep (breaks r) = IsPassed r
    IsStep (returns m t) = IsStopped t.step_results
    IsStep (raises m err) = Unit

    after-IsStep :
        (r : Result) (m : TaskManager) (k : TaskManager → Next)
        → ((m' : TaskManager) → IsStep (k m'))
        → IsStep (after r m k)
    unfolding after
    after-IsStep (ok task) m k h = h m
    after-IsStep (raised err) m k h = tt

    if-IsStep :
        (b : Bool) (p q : Next)
        → (b ≡ true → IsStep p)
        → (b ≡ false → IsStep q)
        → IsStep (if b then p else q)
    if-IsStep true p q h k = h refl
    if-IsStep false p q h k = k refl

    give_up-IsStep :
        (now_is : Moment) (results : List StepResult) (total : ℕ) (error : String) (m : TaskManager)
        → IsStopped results
        → IsStep (give_up x now_is results total error m)
    unfolding give_up
    give_up-IsStep now_is results total error m h = after-IsStep _ _ _ (λ m'. h)

    refuse_step-IsStep :
        (now_is : Moment) (error : String) → IsStep (refuse_step x now_is step run error)
    unfolding refuse_step
    refuse_step-IsStep now_is error =
        after-IsStep _ _ _
          (λ m'. give_up-IsStep now_is _ _ error m' (inr (_, refl, (refl, inl refl))))

    evaluate_outcome-IsStep :
        (now_is : Moment) (r : Run) (res : StepResult)
        → r.step_results ≡ run.step_results ++ res ∷ []
        → IsResultOf step run.completed_success_steps res
        → r.completed_success_steps ≡ run.completed_success_steps
        → IsStep (evaluate_outcome x now_is step r)
    unfolding evaluate_outcome
    evaluate_outcome-IsStep now_is r res e v c =
        let stop = λ (error : String).
          give_up-IsStep now_is r.step_results r.steps_executed error r.manager (inr (res, e, v)) in
        let go : IsPassed
            (record r { completed_success_steps = step.step_id ∷ r.completed_success_steps }) =
          (res, e, v, ap (λ done. step.step_id ∷ done) c) in
        if-IsStep (is_loop_detected r.detector) _ _ (λ l. stop _)
          (λ l.
            if-IsStep (not now_is.tool_result.success) _ _ (λ f. stop _)
              (λ f. if-IsStep step.is_terminal _ _ (λ z. go) (λ z. go)))

    checkpoint-IsStep :
        (now_is : Moment) (m : TaskManager)
        → is_satisfied x step.dependencies run.completed_success_steps ≡ true
        → IsStep (checkpoint x now_is step run m)
    unfolding checkpoint
    checkpoint-IsStep now_is m s =
        after-IsStep _ _ _
          (λ m'. evaluate_outcome-IsStep now_is _ _ refl (refl, inr (is_satisfied-IsIn _ _ s)) refl)

    resume-IsStep :
        (now_is : Moment) (m : TaskManager) (o : Option Task) (k : TaskManager → Next)
        → ((m' : TaskManager) → IsStep (k m'))
        → IsStep (resume_task x now_is m o k)
    unfolding resume_task
    resume-IsStep now_is m none k h = tt
    resume-IsStep now_is m (some task) k h =
        if-IsStep (same task.state waiting_confirmation) _ _ (λ w. after-IsStep _ _ k h) (λ w. h m)

    look_up-IsStep :
        (now_is : Moment) (o : Option PermissionLevel)
        → is_satisfied x step.dependencies run.completed_success_steps ≡ true
        → IsStep (look_up x now_is step run o)
    unfolding look_up call_tool
    look_up-IsStep now_is none s = tt
    look_up-IsStep now_is (some level) s =
        let recorded = λ (m : TaskManager). checkpoint-IsStep now_is m s in
        if-IsStep (needs_confirmation x step level) _ _
          (λ q. after-IsStep _ _ _ (λ m.
            resume-IsStep now_is (now_is.meanwhile m) (get_task (now_is.meanwhile m) x.task_id) _
              recorded))
          (λ q. recorded (now_is.meanwhile run.manager))

    pub pass-IsStep : (now_is : Moment) → IsStep (pass x now_is step run)
    unfolding pass
    pass-IsStep now_is =
        let stop = λ (error : String).
          give_up-IsStep now_is run.step_results run.steps_executed error run.manager (inl refl) in
        if-IsStep now_is.is_cancelled _ _ (λ q. after-IsStep _ _ _ (λ m. inl refl))
          (λ q.
            if-IsStep (ltb x.timeout_seconds now_is.elapsed) _ _ (λ t. stop _)
              (λ t.
                if-IsStep (leb x.max_steps run.steps_executed) _ _ (λ l. stop _)
                  (λ l.
                    if-IsStep (not (is_satisfied x step.dependencies run.completed_success_steps)) _
                      _ (λ d. refuse_step-IsStep now_is _)
                      (λ d.
                        if-IsStep (step.requires_revalidation && not now_is.is_revalidated) _ _
                          (λ v. refuse_step-IsStep now_is _)
                          (λ v.
                            look_up-IsStep now_is (x.registry step.tool_name) (ground arith))))))
