-- ===== src/Proactive/Scheduler.antt =====
-- `ProactiveScheduler` (python/tom/agents/proactive.py). The part of a dispatch under the lock is one
-- step; the execution of the plan after it is the task executor's, and `finish` is what follows that.
-- Only the scheduler marks a task as proactive, so the marks are the list of the tasks it created.
use tom.Prelude.{
  ℕ, ◌+◌, String, Bool, true, false, not, ◌&&◌, ◌||◌, Option, none, some, List, [], ◌∷◌, ltb,
  str_eq, if◌then◌else◌,
}
use tom.Dict.{Dict, get, has, put, remove, values}
use tom.Tasks.State.{Task}
use tom.Tasks.Manager
use tom.Tasks.Manager.{TaskManager, Entry, Result, ok, raised, list_active, store}
use tom.Streaming.Text.{Unicode}
use tom.Proactive.Cron.{DateTime}
use tom.Proactive.QuietHours.{QuietHoursConfig, is_quiet_hours}
use tom.Proactive.Triggers.{Trigger, Kind, system_event, is_due}

-- What no method of the scheduler changes.
pub record Config : Type 0 where
  pub unicode : Unicode
  pub enabled : Bool
  pub quiet_hours : QuietHoursConfig
  pub cooldown_seconds : ℕ

pub record ProactiveScheduler : Type 0 where
  pub task_manager : TaskManager
  pub proactive_tasks : List String
  pub triggers : Dict Trigger
  pub last_proactive_time : Option ℕ
  pub user_active_override : Bool
  pub active_proactive_token : Option String

unfoldable pub register_trigger : Trigger → ProactiveScheduler → ProactiveScheduler
register_trigger t s = record s { triggers = put s.triggers t.trigger_id t }

unfoldable pub unregister_trigger : String → ProactiveScheduler → ProactiveScheduler × Bool
unregister_trigger k s =
    if has s.triggers k then (record s { triggers = remove s.triggers k }, true) else (s, false)

-- token.cancel(), which sets the flag of the task's token.
unfoldable pub cancel_token : String → TaskManager → TaskManager
unfolding store
cancel_token k m = elim (get m.registry k) [
  | none ↦ m
  | some e ↦ store m k (record e { token = true })
]

unfoldable pub signal_user_task_started : ProactiveScheduler → ProactiveScheduler
unfolding cancel_token
signal_user_task_started s = elim s.active_proactive_token [
  | none ↦ record s { user_active_override = true }
  | some k ↦ record s { user_active_override = true; task_manager = cancel_token k s.task_manager }
]

unfoldable pub signal_user_task_ended : ProactiveScheduler → ProactiveScheduler
signal_user_task_ended s = record s { user_active_override = false }

unfoldable pub is_proactive : List String → String → Bool
is_proactive [] k = false
is_proactive (j ∷ js) k = if str_eq j k then true else is_proactive js k

-- Whether some of the tasks is not proactive.
unfoldable pub has_user_task : List String → List Task → Bool
unfolding is_proactive
has_user_task proactive [] = false
has_user_task proactive (t ∷ ts) =
    if is_proactive proactive t.task_id then has_user_task proactive ts else true

unfoldable pub is_user_active : ProactiveScheduler → Bool
unfolding has_user_task list_active
is_user_active s =
    s.user_active_override || has_user_task s.proactive_tasks (list_active s.task_manager)

-- The reasons of a decision; every one but `allowed` blocks.
pub data Reason : Type 0 where
  scheduler_disabled user_task_active quiet_hours_active rate_limit_cooldown : Reason
  trigger_not_due allowed : Reason

unfoldable pub is_cooling_down : Option ℕ → ℕ → ℕ → Bool
is_cooling_down none cooldown now = false
is_cooling_down (some last) cooldown now = ltb now (last + cooldown)

unfoldable pub by_due : Option Bool → Option Reason
by_due none = none
by_due (some due) = some (if due then allowed else trigger_not_due)

-- `none` is the ValueError of a cron expression.
unfoldable pub evaluate_policy : Config → Trigger → DateTime → ProactiveScheduler → Option Reason
unfolding is_user_active is_cooling_down by_due
evaluate_policy c t now s =
    if not c.enabled
    then some scheduler_disabled
    else if is_user_active s
    then some user_task_active
    else if is_quiet_hours c.quiet_hours now.time && not t.urgent_health
    then some quiet_hours_active
    else if is_cooling_down s.last_proactive_time c.cooldown_seconds now.stamp
    then some rate_limit_cooldown
    else by_due (is_due c.unicode t now)

pub data Dispatch : Type 0 where
  blocked : Reason → Dispatch
  dispatched : String → Dispatch
  invalid_expression : Dispatch
  not_created : Dispatch

-- A trigger that is registered is the object in the dictionary.
unfoldable pub mark : Trigger → DateTime → ProactiveScheduler → ProactiveScheduler
mark t now s = record s {
  last_proactive_time = some now.stamp;
  triggers =
      if has s.triggers t.trigger_id
      then put s.triggers t.trigger_id (record t { last_run = some now })
      else s.triggers;
}

-- What follows the creation of a task, or its error.
abbrev pub by_result :
    String → ProactiveScheduler → TaskManager → Result → ProactiveScheduler × Dispatch
by_result k s m (ok task) = (
  record s {
    task_manager = m;
    proactive_tasks = k ∷ s.proactive_tasks;
    active_proactive_token = some k;
  },
  dispatched k,
)
by_result k s m (raised e) = (s, not_created)

-- The new task, with the default budget of 15 steps and 300 seconds and the lowest priority, 5.
unfoldable pub create_task :
    String → Trigger → DateTime → ProactiveScheduler → ProactiveScheduler × Dispatch
create_task k t now s =
    let (m, r) = Manager.create k now.stamp t.goal 15 300_000 (some 5) s.task_manager in
    by_result k s m r

unfoldable pub by_decision :
    Option Reason → String → Trigger → DateTime → ProactiveScheduler → ProactiveScheduler × Dispatch
unfolding mark create_task
by_decision none k t now s = (s, invalid_expression)
by_decision (some allowed) k t now s = create_task k t now (mark t now s)
by_decision (some scheduler_disabled) k t now s = (s, blocked scheduler_disabled)
by_decision (some user_task_active) k t now s = (s, blocked user_task_active)
by_decision (some quiet_hours_active) k t now s = (s, blocked quiet_hours_active)
by_decision (some rate_limit_cooldown) k t now s = (s, blocked rate_limit_cooldown)
by_decision (some trigger_not_due) k t now s = (s, blocked trigger_not_due)

-- `dispatch_proactive_task` up to the end of the lock; the identifier of the task is chosen outside.
unfoldable pub dispatch_proactive_task :
    Config → String → Trigger → DateTime → ProactiveScheduler → ProactiveScheduler × Dispatch
unfolding by_decision
dispatch_proactive_task c k t now s = by_decision (evaluate_policy c t now s) k t now s

-- The `finally` of a dispatch.
unfoldable pub finish : String → ProactiveScheduler → ProactiveScheduler
finish k s = elim s.active_proactive_token [
  | none ↦ s
  | some j ↦ if str_eq j k then record s { active_proactive_token = none } else s
]

abbrev pub is_scheduled : Kind → Bool
is_scheduled (system_event name cooldown) = false
is_scheduled _ = true

-- What follows a dispatch in `tick`: the next trigger if it was blocked.
unfoldable pub or_next :
    ProactiveScheduler × Dispatch
    → ProactiveScheduler × Option Dispatch
    → ProactiveScheduler × Option Dispatch
or_next (s, blocked r) rest = rest
or_next (s, dispatched k) rest = (s, some (dispatched k))
or_next (s, invalid_expression) rest = (s, some invalid_expression)
or_next (s, not_created) rest = (s, some not_created)

-- The loop of `tick` over a copy of the triggers. A blocked dispatch changes nothing.
unfoldable pub tick_over :
    Config
    → String
    → List Trigger
    → DateTime
    → ProactiveScheduler
    → ProactiveScheduler × Option Dispatch
unfolding dispatch_proactive_task or_next
tick_over c k [] now s = (s, none)
tick_over c k (t ∷ ts) now s =
    let rest = tick_over c k ts now s in
    if is_scheduled t.kind then or_next (dispatch_proactive_task c k t now s) rest else rest

unfoldable pub tick :
    Config → String → DateTime → ProactiveScheduler → ProactiveScheduler × Option Dispatch
unfolding tick_over
tick c k now s = tick_over c k (values s.triggers) now s

abbrev pub listens_to : Kind → String → Bool
listens_to (system_event event_name cooldown) name = str_eq event_name name
listens_to _ name = false

unfoldable pub handle_over :
    Config
    → String
    → String
    → List Trigger
    → DateTime
    → ProactiveScheduler
    → ProactiveScheduler × Option Dispatch
unfolding dispatch_proactive_task
handle_over c k name [] now s = (s, none)
handle_over c k name (t ∷ ts) now s =
    let (s', d) = dispatch_proactive_task c k t now s in
    let rest = handle_over c k name ts now s in
    if listens_to t.kind name then (s', some d) else rest

unfoldable pub handle_system_event :
    Config → String → String → DateTime → ProactiveScheduler → ProactiveScheduler × Option Dispatch
unfolding handle_over
handle_system_event c k name now s = handle_over c k name (values s.triggers) now s
