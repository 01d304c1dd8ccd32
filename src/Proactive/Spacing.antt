-- ===== src/Proactive/Spacing.antt =====
-- Runs of `ProactiveScheduler` (python/tom/agents/proactive.py) and the times of the tasks it starts.
use tom.Prelude.{
  ℕ, ◌+◌, ◌≤◌, String, ◌≡◌, refl, subst, true, false, Option, none, some, List, [], ◌∷◌, ◌++◌,
  arith, if◌then◌else◌, Bool-cases, inl, inr,
}
use tom.Dict.{values}
use tom.Tasks.Manager
use tom.Tasks.Manager.{TaskManager}
use tom.Proactive.Cron.{DateTime}
use tom.Proactive.Triggers.{Trigger}
use tom.Proactive.Scheduler
use tom.Proactive.Scheduler.{
  Config, ProactiveScheduler, Reason, scheduler_disabled, user_task_active, quiet_hours_active,
  rate_limit_cooldown, trigger_not_due, allowed, Dispatch, blocked, dispatched, invalid_expression,
  not_created, is_cooling_down, evaluate_policy, mark, create_task, by_decision,
  dispatch_proactive_task, is_scheduled, listens_to, or_next, tick_over, handle_over,
}
use tom.Proactive.Limits.{has_started, allowed-IsPermitted}

-- Whether a start comes after the cooldown of the last one.
abbrev pub IsApart : ℕ → Option ℕ → ℕ → Type 0
IsApart cooldown none x = Unit
IsApart cooldown (some last) x = last + cooldown ≤ x

-- Whether each of the starts comes after the cooldown of the one before it.
pub IsSpaced : ℕ → Option ℕ → List ℕ → Type 0
IsSpaced cooldown last [] = Unit
IsSpaced cooldown last (x ∷ xs) = IsApart cooldown last x × IsSpaced cooldown (some x) xs

-- The same, with the last of the starts at the end.
Leads : ℕ → Option ℕ → List ℕ → Option ℕ → Type 0
Leads cooldown last [] end = end ≡ last
Leads cooldown last (x ∷ xs) end = IsApart cooldown last x × Leads cooldown (some x) xs end

Leads-IsSpaced :
    (cooldown : ℕ) (last : Option ℕ) (xs : List ℕ) (end : Option ℕ)
    → Leads cooldown last xs end
    → IsSpaced cooldown last xs
unfolding IsSpaced Leads
Leads-IsSpaced cooldown last [] end h = tt
Leads-IsSpaced cooldown last (x ∷ xs) end h = (h.0, Leads-IsSpaced cooldown (some x) xs end h.1)

Leads-append :
    (cooldown : ℕ) (last : Option ℕ) (xs ys : List ℕ) (mid end : Option ℕ)
    → Leads cooldown last xs mid
    → Leads cooldown mid ys end
    → Leads cooldown last (xs ++ ys) end
unfolding Leads
Leads-append cooldown last [] ys mid end h g = subst (λ l. Leads cooldown l ys end) h g
Leads-append cooldown last (x ∷ xs) ys mid end h g =
    (h.0, Leads-append cooldown (some x) xs ys mid end h.1 g)

-- The times of the starts of a dispatch.
abbrev pub starts : DateTime → Option Dispatch → List ℕ
starts now none = []
starts now (some d) = if has_started d then now.stamp ∷ [] else []

pub data Event : Type 0 where
  register : Trigger → Event
  unregister : String → Event
  user_started user_ended : Event
  dispatch : String → Trigger → DateTime → Event
  tick : String → DateTime → Event
  system_event : String → String → DateTime → Event
  finish : String → Event
  meanwhile : (TaskManager → TaskManager) → Event

-- What an event does, and the times of the tasks that it starts. The task manager may change in any
-- way between the calls.
unfoldable pub apply : Config → Event → ProactiveScheduler → ProactiveScheduler × List ℕ
unfolding Scheduler.register_trigger Scheduler.unregister_trigger Scheduler.signal_user_task_started
    Scheduler.signal_user_task_ended Scheduler.dispatch_proactive_task Scheduler.tick
    Scheduler.handle_system_event Scheduler.finish
apply c (register t) s = (Scheduler.register_trigger t s, [])
apply c (unregister k) s = ((Scheduler.unregister_trigger k s).0, [])
apply c user_started s = (Scheduler.signal_user_task_started s, [])
apply c user_ended s = (Scheduler.signal_user_task_ended s, [])
apply c (dispatch k t now) s =
    let (s', d) = Scheduler.dispatch_proactive_task c k t now s in (s', starts now (some d))
apply c (tick k now) s = let (s', d) = Scheduler.tick c k now s in (s', starts now d)
apply c (system_event k name now) s =
    let (s', d) = Scheduler.handle_system_event c k name now s in (s', starts now d)
apply c (finish k) s = (Scheduler.finish k s, [])
apply c (meanwhile f) s = (record s { task_manager = f s.task_manager }, [])

unfoldable pub run : Config → List Event → ProactiveScheduler → ProactiveScheduler × List ℕ
unfolding apply
run c [] s = (s, [])
run c (e ∷ es) s = let (s', xs) = apply c e s in let (s'', ys) = run c es s' in (s'', xs ++ ys)

cooled-IsApart :
    (last : Option ℕ) (cooldown x : ℕ)
    → is_cooling_down last cooldown x ≡ false
    → IsApart cooldown last x
unfolding is_cooling_down
cooled-IsApart none cooldown x h = tt
cooled-IsApart (some l) cooldown x h = ground arith

module _ (c : Config) (k : String) (now : DateTime) where
  -- A step whose outcome is given has the starts of that outcome.
  abbrev IsStep : ProactiveScheduler → ProactiveScheduler × Option Dispatch → Type 0
  IsStep s r =
      Leads c.cooldown_seconds s.last_proactive_time (starts now r.1) r.0.last_proactive_time

  -- What is left of a state that has started a task.
  create_task-last :
      (t : Trigger) (s : ProactiveScheduler)
      → ((create_task k t now (mark t now s)).0.last_proactive_time ≡ some now.stamp)
        × (has_started (create_task k t now (mark t now s)).1 ≡ true)
  unfolding create_task mark Manager.create
  create_task-last t s = ground arith

  started-IsStep :
      (s : ProactiveScheduler) (r : ProactiveScheduler × Dispatch)
      → IsApart c.cooldown_seconds s.last_proactive_time now.stamp
      → (r.0.last_proactive_time ≡ some now.stamp) × (has_started r.1 ≡ true)
      → IsStep s (r.0, some r.1)
  unfolding Leads
  started-IsStep s r a (e, b) = rw b (a, e)

  by_decision-IsStep :
      (t : Trigger) (s : ProactiveScheduler) (o : Option Reason)
      → evaluate_policy c t now s ≡ o
      → IsStep s ((by_decision o k t now s).0, some (by_decision o k t now s).1)
  unfolding by_decision Leads
  by_decision-IsStep t s none e = refl
  by_decision-IsStep t s (some allowed) e =
      started-IsStep s (create_task k t now (mark t now s))
        (cooled-IsApart _ _ _ (allowed-IsPermitted c t now s e).3) (create_task-last t s)
  by_decision-IsStep t s (some scheduler_disabled) e = refl
  by_decision-IsStep t s (some user_task_active) e = refl
  by_decision-IsStep t s (some quiet_hours_active) e = refl
  by_decision-IsStep t s (some rate_limit_cooldown) e = refl
  by_decision-IsStep t s (some trigger_not_due) e = refl

  dispatch-IsStep :
      (t : Trigger) (s : ProactiveScheduler)
      → IsStep s
          ((dispatch_proactive_task c k t now s).0, some (dispatch_proactive_task c k t now s).1)
  unfolding dispatch_proactive_task
  dispatch-IsStep t s = by_decision-IsStep t s _ refl

  or_next-IsStep :
      (s : ProactiveScheduler) (r : ProactiveScheduler × Dispatch)
      (rest : ProactiveScheduler × Option Dispatch)
      → IsStep s (r.0, some r.1)
      → IsStep s rest
      → IsStep s (or_next r rest)
  unfolding or_next
  or_next-IsStep s (s', blocked r) rest h g = g
  or_next-IsStep s (s', dispatched j) rest h g = h
  or_next-IsStep s (s', invalid_expression) rest h g = h
  or_next-IsStep s (s', not_created) rest h g = h

  tick_over-IsStep :
      (ts : List Trigger) (s : ProactiveScheduler) → IsStep s (tick_over c k ts now s)
  unfolding tick_over Leads
  tick_over-IsStep [] s = refl
  tick_over-IsStep (t ∷ ts) s = elim (Bool-cases (is_scheduled t.kind)) [
    | inl e ↦ rw e (
        or_next-IsStep s (dispatch_proactive_task c k t now s) _ (dispatch-IsStep t s)
          (tick_over-IsStep ts s))
    | inr e ↦ rw e (tick_over-IsStep ts s)
  ]

  handle_over-IsStep :
      (name : String) (ts : List Trigger) (s : ProactiveScheduler)
      → IsStep s (handle_over c k name ts now s)
  unfolding handle_over Leads
  handle_over-IsStep name [] s = refl
  handle_over-IsStep name (t ∷ ts) s = elim (Bool-cases (listens_to t.kind name)) [
    | inl e ↦ rw e (dispatch-IsStep t s)
    | inr e ↦ rw e (handle_over-IsStep name ts s)
  ]

apply-Leads :
    (c : Config) (e : Event) (s : ProactiveScheduler)
    → Leads c.cooldown_seconds s.last_proactive_time
        (apply c e s).1
        (apply c e s).0.last_proactive_time
unfolding apply Leads Scheduler.register_trigger Scheduler.unregister_trigger
    Scheduler.signal_user_task_started Scheduler.signal_user_task_ended Scheduler.tick
    Scheduler.handle_system_event Scheduler.finish
apply-Leads c (register t) s = refl
apply-Leads c (unregister k) s = ground arith
apply-Leads c user_started s = ground arith
apply-Leads c user_ended s = refl
apply-Leads c (dispatch k t now) s = dispatch-IsStep c k now t s
apply-Leads c (tick k now) s = tick_over-IsStep c k now (values s.triggers) s
apply-Leads c (system_event k name now) s = handle_over-IsStep c k now name (values s.triggers) s
apply-Leads c (finish k) s = ground arith
apply-Leads c (meanwhile f) s = refl

run-Leads :
    (c : Config) (es : List Event) (s : ProactiveScheduler)
    → Leads c.cooldown_seconds s.last_proactive_time
        (run c es s).1
        (run c es s).0.last_proactive_time
unfolding run Leads
run-Leads c [] s = refl
run-Leads c (e ∷ es) s =
    Leads-append _ _ (apply c e s).1 _ _ _ (apply-Leads c e s) (run-Leads c es (apply c e s).0)

-- In every run, each task is started at least the cooldown after the one before it, and the first
-- one after the cooldown of the last start before the run.
pub run-IsSpaced :
    (c : Config) (es : List Event) (s : ProactiveScheduler)
    → IsSpaced c.cooldown_seconds s.last_proactive_time (run c es s).1
run-IsSpaced c es s = Leads-IsSpaced _ _ _ _ (run-Leads c es s)
