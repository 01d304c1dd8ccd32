-- ===== src/Proactive/Conditions.antt =====
-- What the tests of `ProactiveScheduler` and its triggers (python/tom/agents/proactive.py and
-- python/tom/schemas/proactive.py) mean, without the order of the tests.
use tom.Prelude.{
  ℕ, ◌+◌, ◌≤◌, String, str_eq, eq_iff, ◌≡◌, refl, ◌⊎◌, inl, inr, Bool, true, false, not, Option,
  none, some, List, [], ◌∷◌, arith, select, All, Bool-cases,
}
use tom.Tasks.State.{TaskState, completed, failed, cancelled, is_terminal, Task}
use tom.Tasks.Manager.{list_all, list_active}
use tom.Streaming.Text.{Unicode}
use tom.Proactive.Cron.{DateTime, matches}
use tom.Proactive.Triggers.{
  Kind, cron, interval, system_event, Trigger, is_due, kind_is_due, cron_is_due, has_elapsed,
  is_same_minute,
}
use tom.Proactive.Scheduler.{
  ProactiveScheduler, is_proactive, has_user_task, is_user_active, is_cooling_down,
}

abbrev pub IsIn : String → List String → Type 0
IsIn k [] = ⊥
IsIn k (j ∷ js) = (j ≡ k) ⊎ IsIn k js

-- A task that has ended, or that the scheduler has created.
abbrev pub IsHarmless : List String → Task → Type 0
IsHarmless proactive t =
    ((t.state ≡ completed) ⊎ (t.state ≡ failed) ⊎ (t.state ≡ cancelled)) ⊎ IsIn t.task_id proactive

-- A time that is not set, or after which so many seconds have passed.
abbrev pub HasPassed : Option ℕ → ℕ → ℕ → Type 0
HasPassed none seconds now = Unit
HasPassed (some last) seconds now = last + seconds ≤ now

abbrev pub stamp_of : Option DateTime → Option ℕ
stamp_of none = none
stamp_of (some t) = some t.stamp

-- When a trigger of a class is due.
abbrev pub IsDue : Unicode → Kind → Option DateTime → DateTime → Type 0
IsDue u (cron expression) last now =
    (matches u expression now ≡ some true) × (is_same_minute last now ≡ false)
IsDue u (interval seconds) last now = HasPassed (stamp_of last) seconds now.stamp
IsDue u (system_event name cooldown) last now = HasPassed (stamp_of last) cooldown now.stamp

is_proactive-IsIn : (js : List String) (k : String) → is_proactive js k ≡ true → IsIn k js
unfolding is_proactive
is_proactive-IsIn [] k h = absurd (ground (arith, h))
is_proactive-IsIn (j ∷ js) k h = elim (Bool-cases (str_eq j k)) [
  | inl e ↦ inl ((eq_iff j k).0 e)
  | inr e ↦ inr (is_proactive-IsIn js k (ground (arith, e, h)))
]

terminal_states :
    (s : TaskState) → is_terminal s ≡ true → (s ≡ completed) ⊎ (s ≡ failed) ⊎ (s ≡ cancelled)
unfolding is_terminal
terminal_states s h = ground arith

-- Without a user's task, every task is harmless.
IsHarmless-tasks :
    (js : List String) (ts : List Task)
    → has_user_task js (select (λ t. not (is_terminal t.state)) ts) ≡ false
    → All (IsHarmless js) ts
unfolding has_user_task
IsHarmless-tasks js [] h = tt
IsHarmless-tasks js (t ∷ ts) h = elim (Bool-cases (is_terminal t.state)) [
  | inl e ↦ (inl (terminal_states t.state e), IsHarmless-tasks js ts (ground (arith, e, h)))
  | inr e ↦ elim (Bool-cases (is_proactive js t.task_id)) [
    | inl p ↦
        (inr (is_proactive-IsIn js t.task_id p), IsHarmless-tasks js ts (ground (arith, e, p, h)))
    | inr p ↦ absurd (ground (arith, e, p, h))
  ]
]

elapsed :
    (last : Option DateTime) (n : ℕ) (now : DateTime)
    → some (has_elapsed last n now) ≡ some true
    → HasPassed (stamp_of last) n now.stamp
unfolding has_elapsed
elapsed none n now h = tt
elapsed (some r) n now h = ground arith

due_cron :
    (o : Option Bool) (last : Option DateTime) (now : DateTime)
    → cron_is_due o last now ≡ some true
    → (o ≡ some true) × (is_same_minute last now ≡ false)
unfolding cron_is_due
due_cron none last now h = absurd (ground (arith, h))
due_cron (some true) last now h = (refl, ground (arith, h))
due_cron (some false) last now h = absurd (ground (arith, h))

IsDue-kind :
    (u : Unicode) (k : Kind) (last : Option DateTime) (now : DateTime)
    → kind_is_due u k last now ≡ some true
    → IsDue u k last now
unfolding kind_is_due
IsDue-kind u (cron e) last now h = due_cron (matches u e now) last now h
IsDue-kind u (interval n) last now h = elapsed last n now h
IsDue-kind u (system_event name n) last now h = elapsed last n now h

pub IsDue-trigger :
    (u : Unicode) (t : Trigger) (now : DateTime)
    → is_due u t now ≡ some true
    → (t.enabled ≡ true) × IsDue u t.kind t.last_run now
unfolding is_due
IsDue-trigger u t now h = elim (Bool-cases t.enabled) [
  | inl e ↦ (e, IsDue-kind u t.kind t.last_run now (ground (arith, e, h)))
  | inr e ↦ absurd (ground (arith, e, h))
]

pub cooled_down :
    (last : Option ℕ) (n now : ℕ) → is_cooling_down last n now ≡ false → HasPassed last n now
unfolding is_cooling_down
cooled_down none n now h = tt
cooled_down (some l) n now h = ground arith

pub no_user :
    (s : ProactiveScheduler)
    → is_user_active s ≡ false
    → (s.user_active_override ≡ false)
      × All (IsHarmless s.proactive_tasks) (list_all s.task_manager)
unfolding is_user_active list_active
no_user s h = (
  ground (arith, h),
  IsHarmless-tasks s.proactive_tasks (list_all s.task_manager) (ground (arith, h)),
)
