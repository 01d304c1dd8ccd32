-- ===== src/Executor/Order.antt =====
-- The order in which `TaskExecutor.execute` (python/tom/agents/executor.py) carries out the steps.
use tom.Prelude.{
  ℕ, ◌≡◌, refl, sym, subst, ap, ◌∙◌, inl, inr, Bool, true, false, List, [], ◌∷◌, ◌++◌, ltb,
  if◌then◌else◌,
}
use tom.Tasks.State.{StepResult, TaskResult}
use tom.Tasks.Manager.{TaskManager, Result, ok, raised}
use tom.LoopDetector.Defs.{LoopDetector}
use tom.Executor.State.{
  PlanStep, TaskExecutor, Moment, Run, Next, continues, breaks, returns, raises, after, start,
}
use tom.Executor.Loop.{finish, settle, run_steps}
use tom.Executor.Passes.{IsTrace, IsPassed, IsStep, pass-IsStep}

append_nil : (xs : List StepResult) → xs ++ [] ≡ xs
append_nil [] = refl
append_nil (y ∷ ys) = ap (λ zs. y ∷ zs) (append_nil ys)

append_assoc : (xs ys zs : List StepResult) → (xs ++ ys) ++ zs ≡ xs ++ (ys ++ zs)
append_assoc [] ys zs = refl
append_assoc (w ∷ ws) ys zs = ap (λ vs. w ∷ vs) (append_assoc ws ys zs)

module _ (x : TaskExecutor) where
  -- What a final list of results adds to those of a run.
  abbrev IsGrown : List PlanStep → Run → List StepResult → Type 0
  IsGrown steps run results =
      (rs : List StepResult) × (results ≡ run.step_results ++ rs)
      × IsTrace x run.completed_success_steps steps rs

  abbrev IsEnd : List PlanStep → Run → Next → Type 0
  IsEnd steps run (continues r) = ⊥
  IsEnd steps run (breaks r) = ⊥
  IsEnd steps run (returns m t) = IsGrown steps run t.step_results
  IsEnd steps run (raises m err) = Unit

  after-IsEnd :
      (steps : List PlanStep) (run : Run) (r : Result) (m : TaskManager) (k : TaskManager → Next)
      → ((m' : TaskManager) → IsEnd steps run (k m'))
      → IsEnd steps run (after r m k)
  unfolding after
  after-IsEnd steps run (ok task) m k h = h m
  after-IsEnd steps run (raised err) m k h = tt

  if-IsEnd :
      (steps : List PlanStep) (run : Run) (b : Bool) (p q : Next)
      → IsEnd steps run p
      → IsEnd steps run q
      → IsEnd steps run (if b then p else q)
  if-IsEnd steps run true p q h k = h
  if-IsEnd steps run false p q h k = k

  -- The end for the next step's run is one for this step's.
  shift-IsEnd :
      (step : PlanStep) (steps : List PlanStep) (run r : Run) (n : Next)
      → IsPassed x step run r
      → IsEnd steps r n
      → IsEnd (step ∷ steps) run n
  shift-IsEnd step steps run r (returns m t) (res, e, v, c) (rs, e', v') = (
    res ∷ rs,
    e' ∙ ap (λ xs. xs ++ rs) e ∙ append_assoc run.step_results (res ∷ []) rs,
    (v, subst (λ done. IsTrace x done steps rs) c v'),
  )
  shift-IsEnd step steps run r (continues _) p h = elim h [ ]
  shift-IsEnd step steps run r (breaks _) p h = elim h [ ]
  shift-IsEnd step steps run r (raises m err) p h = tt

  finish-IsEnd :
      (now_is : Moment) (steps : List PlanStep) (run r : Run)
      → IsGrown steps run r.step_results
      → IsEnd steps run (finish x now_is r)
  unfolding finish
  finish-IsEnd now_is steps run r h =
      if-IsEnd steps run (ltb x.timeout_seconds now_is.elapsed) _ _
        (after-IsEnd steps run _ _ _ (λ m. h)) (after-IsEnd steps run _ _ _ (λ m. h))

  settle-IsEnd :
      (moments : ℕ → Moment) (step : PlanStep) (steps : List PlanStep) (run : Run)
      (rest : Run → Next) (n : Next)
      → ((r : Run) → IsEnd steps r (rest r))
      → IsStep x step run n
      → IsEnd (step ∷ steps) run (settle x moments rest n)
  unfolding settle
  settle-IsEnd moments step steps run rest (continues r) h p =
      shift-IsEnd step steps run r (rest r) p (h r)
  settle-IsEnd moments step steps run rest (breaks r) h p =
      finish-IsEnd (moments r.steps_executed) (step ∷ steps) run r (p.0 ∷ [], p.1, (p.2, tt))
  settle-IsEnd moments step steps run rest (returns m t) h (inl e) =
      ([], e ∙ sym (append_nil run.step_results), tt)
  settle-IsEnd moments step steps run rest (returns m t) h (inr (res, e, v)) =
      (res ∷ [], e, (v, tt))
  settle-IsEnd moments step steps run rest (raises m err) h p = tt

  run_steps-IsEnd :
      (moments : ℕ → Moment) (steps : List PlanStep) (run : Run)
      → IsEnd steps run (run_steps x moments steps run)
  unfolding run_steps
  run_steps-IsEnd moments [] run =
      finish-IsEnd (moments run.steps_executed) [] run run
        ([], sym (append_nil run.step_results), tt)
  run_steps-IsEnd moments (step ∷ steps) run =
      settle-IsEnd moments step steps run _ _ (run_steps-IsEnd moments steps)
        (pass-IsStep x step run (moments run.steps_executed))

  -- The results that the loop returns from its start are one for each of the first steps, in order, and
  -- a step succeeded only if each of its dependencies is among the steps before it.
  pub executed_in_order :
      (moments : ℕ → Moment) (steps : List PlanStep) (m m' : TaskManager) (d : LoopDetector)
      (t : TaskResult)
      → run_steps x moments steps (start m d) ≡ returns m' t
      → IsTrace x [] steps t.step_results
  executed_in_order moments steps m m' d t h =
      let (rs, e, v) =
        subst (IsEnd steps (start m d)) h (run_steps-IsEnd moments steps (start m d)) in
      subst (IsTrace x [] steps) (sym e) v
