-- ===== src/Proactive/Limits.antt =====
-- The conditions of the tasks that `ProactiveScheduler` (python/tom/agents/proactive.py) starts.
use tom.Prelude.{
  ◌<◌, String, ◌≡◌, refl, sym, ap, subst, ◌∙◌, ◌⊎◌, inl, inr, Bool, true, false, ◌&&◌, Option, none,
  some, ◌∷◌, ltb, arith, All,
}
use tom.Tasks.Manager
use tom.Tasks.Manager.{list_all, list_active, ok, raised, Result}
use tom.Proactive.Cron.{DateTime}
use tom.Proactive.QuietHours.{is_quiet_hours, seconds_per_day, seconds_until, is_quiet_hours-window}
use tom.Proactive.Triggers.{Trigger, is_due}
use tom.Proactive.Scheduler.{
  Config, ProactiveScheduler, Reason, scheduler_disabled, user_task_active, quiet_hours_active,
  rate_limit_cooldown, trigger_not_due, allowed, Dispatch, dispatched, not_created, is_user_active,
  is_cooling_down, by_due, evaluate_policy, mark, by_result, create_task, by_decision,
  dispatch_proactive_task,
}
use tom.Proactive.Conditions.{IsHarmless, HasPassed, IsDue, IsDue-trigger, cooled_down, no_user}

-- Whether a dispatch went on to the creation of its task.
abbrev pub has_started : Dispatch → Bool
has_started (dispatched k) = true
has_started not_created = true
has_started _ = false

module _ (c : Config) (t : Trigger) (now : DateTime) (s : ProactiveScheduler) where
  -- The five conditions of the policy.
  abbrev IsPermitted : Type 0
  IsPermitted =
      (c.enabled ≡ true)
      × (is_user_active s ≡ false)
      × ((is_quiet_hours c.quiet_hours now.time ≡ false) ⊎ (t.urgent_health ≡ true))
      × (is_cooling_down s.last_proactive_time c.cooldown_seconds now.stamp ≡ false)
      × (is_due c.unicode t now ≡ some true)

  by_due-allowed : (o : Option Bool) → by_due o ≡ some allowed → o ≡ some true
  unfolding by_due
  by_due-allowed none h = ground arith
  by_due-allowed (some due) h = ground arith

  pub allowed-IsPermitted : evaluate_policy c t now s ≡ some allowed → IsPermitted
  unfolding evaluate_policy
  allowed-IsPermitted h = let due = by_due-allowed (is_due c.unicode t now) in ground arith

module _ (k : String) (t : Trigger) (now : DateTime) (s : ProactiveScheduler) where
  -- A dispatch that goes on to create a task was allowed.
  started_allowed :
      (o : Option Reason) → has_started (by_decision o k t now s).1 ≡ true → o ≡ some allowed
  unfolding by_decision
  started_allowed none h = ground arith
  started_allowed (some allowed) h = refl
  started_allowed (some scheduler_disabled) h = ground arith
  started_allowed (some user_task_active) h = ground arith
  started_allowed (some quiet_hours_active) h = ground arith
  started_allowed (some rate_limit_cooldown) h = ground arith
  started_allowed (some trigger_not_due) h = ground arith

  -- What a dispatch leaves behind, if it created its task.
  abbrev Leaves : ProactiveScheduler × Dispatch → Type 0
  Leaves (s', dispatched j) =
      (j ≡ k)
      × (s'.last_proactive_time ≡ some now.stamp)
      × (s'.active_proactive_token ≡ some k)
      × (s'.proactive_tasks ≡ k ∷ s.proactive_tasks)
  Leaves (s', _) = Unit

  by_result-Leaves :
      (m : Manager.TaskManager) (r : Result) → Leaves (by_result k (mark t now s) m r)
  unfolding mark
  by_result-Leaves m (ok task) = (refl, refl, refl, refl)
  by_result-Leaves m (raised e) = tt

  create_task-Leaves : Leaves (create_task k t now (mark t now s))
  unfolding create_task mark
  create_task-Leaves =
      let r = Manager.create k now.stamp t.goal 15 300_000 (some 5) s.task_manager in
      by_result-Leaves r.0 r.1

  by_decision-Leaves : (o : Option Reason) → Leaves (by_decision o k t now s)
  unfolding by_decision
  by_decision-Leaves none = tt
  by_decision-Leaves (some allowed) = create_task-Leaves
  by_decision-Leaves (some scheduler_disabled) = tt
  by_decision-Leaves (some user_task_active) = tt
  by_decision-Leaves (some quiet_hours_active) = tt
  by_decision-Leaves (some rate_limit_cooldown) = tt
  by_decision-Leaves (some trigger_not_due) = tt

module _ (c : Config) (k : String) (t : Trigger) (now : DateTime) (s : ProactiveScheduler) where
  -- For times of the day, a dispatch that starts a task found the scheduler enabled, the user's
  -- override off, and every task ended or created by the scheduler; the hours are not enabled as
  -- quiet, or the time since their start round the clock is at least that of the whole window, or
  -- the trigger is urgent; the cooldown has passed since the last start; and the trigger is enabled
  -- and due by its class. The task has the identifier that was chosen, and is the newest of the
  -- scheduler's; its token is the active one, and the time is that of the last start.
  pub dispatched-IsPermitted :
      (j : String) (s' : ProactiveScheduler)
      → now.time < seconds_per_day
      → c.quiet_hours.start_time < seconds_per_day
      → c.quiet_hours.end_time < seconds_per_day
      → dispatch_proactive_task c k t now s ≡ (s', dispatched j)
      → ((c.enabled ≡ true)
          × (s.user_active_override ≡ false)
          × All (IsHarmless s.proactive_tasks) (list_all s.task_manager)
          × (((c.quiet_hours.enabled
                  && ltb
                      (seconds_until c.quiet_hours.start_time now.time)
                      (seconds_until c.quiet_hours.start_time c.quiet_hours.end_time))
                ≡ false)
              ⊎ (t.urgent_health ≡ true))
          × HasPassed s.last_proactive_time c.cooldown_seconds now.stamp
          × (t.enabled ≡ true)
          × IsDue c.unicode t.kind t.last_run now)
        × ((j ≡ k)
            × (s'.last_proactive_time ≡ some now.stamp)
            × (s'.active_proactive_token ≡ some k)
            × (s'.proactive_tasks ≡ k ∷ s.proactive_tasks))
  unfolding dispatch_proactive_task
  dispatched-IsPermitted j s' ht hs he h =
      let (e, u, q, l, d) =
        allowed-IsPermitted c t now s (started_allowed k t now s _ (ap (λ r. has_started r.1) h)) in
      let (o, a) = no_user s u in
      let w = is_quiet_hours-window c.quiet_hours now.time ht hs he in
      (
        (
          e,
          o,
          a,
          elim q [ inl n ↦ inl (sym w ∙ n) | inr n ↦ inr n ],
          cooled_down s.last_proactive_time c.cooldown_seconds now.stamp l,
          (IsDue-trigger c.unicode t now d).0,
          (IsDue-trigger c.unicode t now d).1,
        ),
        subst (Leaves k t now s) h (by_decision-Leaves k t now s (evaluate_policy c t now s)),
      )
