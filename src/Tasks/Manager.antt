-- ===== src/Tasks/Manager.antt =====
-- The task manager (python/tom/agents/task_manager.py). Each method runs under one lock, so it is a
-- function on the manager's state. The registry's tasks are mutable objects that only it changes.
-- The writes to SQLite are best effort: no method reads their outcome, so the model keeps the list of
-- the writes that were tried. The clock's value and the new identifier are arguments.
use tom.Prelude.{
  ℕ, ◌+◌, String, Bool, true, false, Option, none, some, List, [], ◌∷◌, not, ◌&&◌, select, ltb, leb,
  str_eq, if◌then◌else◌,
}
use tom.Dict.{Dict, get, put, values}
use tom.Tasks.State.{
  TaskState, created, executing, completing, completed, failed, cancelled, same, is_member,
  task_valid_transitions, is_terminal, StepResult, Task,
}

-- A task and whether its cancellation token is set.
pub record Entry : Type 0 where
  pub task : Task
  pub token : Bool

pub data Write : Type 0 where
  task_row : Task → Write
  step_row : String → StepResult → Write

pub record TaskManager : Type 0 where
  pub registry : Dict Entry
  pub writes : List Write

pub data Error : Type 0 where
  task_not_found : String → Error
  invalid_transition : TaskState → TaskState → Error
  invalid_task : Error

pub data Result : Type 0 where
  ok : Task → Result
  raised : Error → Result

abbrev pub Reply : Type 0
Reply = TaskManager × Result

abbrev pub empty : TaskManager
empty = record { registry = []; writes = [] }

-- The task object is replaced in the registry, and the row is handed to the database.
unfoldable pub store : TaskManager → String → Entry → TaskManager
store m task_id e = record m { registry = put m.registry task_id e }

unfoldable pub persist_task : TaskManager → Task → TaskManager
persist_task m task = record m { writes = task_row task ∷ m.writes }

unfoldable pub persist_step : TaskManager → String → StepResult → TaskManager
persist_step m task_id r = record m { writes = step_row task_id r ∷ m.writes }

-- The constraints on the fields of a new task; times are in milliseconds.
unfoldable pub is_valid_task : String → ℕ → ℕ → Bool
is_valid_task goal max_steps timeout_seconds =
    not (str_eq goal "")
    && leb 1 max_steps
    && leb max_steps 30
    && ltb 0 timeout_seconds
    && leb timeout_seconds 900_000

new_task : String → ℕ → String → ℕ → ℕ → Option ℕ → Task
new_task task_id now goal max_steps timeout_seconds priority = record {
  task_id = task_id;
  goal = goal;
  state = created;
  created_at = now;
  updated_at = now;
  max_steps = max_steps;
  timeout_seconds = timeout_seconds;
  current_step_index = 0;
  replan_count = 0;
  error = none;
  resource_priority = priority;
}

unfoldable pub create : String → ℕ → String → ℕ → ℕ → Option ℕ → TaskManager → Reply
unfolding store persist_task is_valid_task new_task
create task_id now goal max_steps timeout_seconds priority m =
    let task = new_task task_id now goal max_steps timeout_seconds priority in
    if is_valid_task goal max_steps timeout_seconds
    then (persist_task (store m task_id (record { task = task; token = false })) task, ok task)
    else (m, raised invalid_task)

-- `get` and `get_token`.
unfoldable pub get_task : TaskManager → String → Option Task
get_task m task_id = elim (get m.registry task_id) [ none ↦ none | some e ↦ some e.task ]

unfoldable pub get_token : TaskManager → String → Option Bool
get_token m task_id = elim (get m.registry task_id) [ none ↦ none | some e ↦ some e.token ]

-- What a method does with the entry that it has found, by its own code.
abbrev pub Body : Type 0
Body = TaskManager → Entry → Reply

-- The lookup with which each method begins.
unfoldable pub with_entry : Option Entry → String → Body → TaskManager → Reply
with_entry none task_id body m = (m, raised (task_not_found task_id))
with_entry (some e) task_id body m = body m e

unfoldable pub on_entry : String → Body → TaskManager → Reply
on_entry task_id body m = with_entry (get m.registry task_id) task_id body m

-- Replace the entry's task and write its row.
unfoldable pub update : TaskManager → String → Entry → Task → Reply
unfolding store persist_task
update m task_id e task = (persist_task (store m task_id (record e { task = task })) task, ok task)

unfoldable pub transition_body : String → TaskState → ℕ → Body
unfolding update is_member task_valid_transitions
transition_body task_id new_state now m e =
    if is_member new_state (task_valid_transitions e.task.state)
    then update m task_id e (record e.task { state = new_state; updated_at = now })
    else (m, raised (invalid_transition e.task.state new_state))

unfoldable pub transition : String → TaskState → ℕ → TaskManager → Reply
unfolding on_entry with_entry transition_body
transition task_id new_state now = on_entry task_id (transition_body task_id new_state now)

unfoldable pub record_step_body : String → StepResult → ℕ → Body
unfolding store persist_step
record_step_body task_id r now m e =
    let task : Task = record (e.task) { current_step_index = r.step_index + 1; updated_at = now } in
    (persist_step (store m task_id (record e { task = task })) task_id r, ok task)

unfoldable pub record_step : String → StepResult → ℕ → TaskManager → Reply
unfolding on_entry with_entry record_step_body
record_step task_id r now = on_entry task_id (record_step_body task_id r now)

unfoldable pub fail_body : String → String → ℕ → Body
unfolding update is_terminal
fail_body task_id error now m e =
    if not (is_terminal e.task.state)
    then update m task_id e
        (record (e.task) { state = failed; error = some error; updated_at = now })
    else (m, ok e.task)

unfoldable pub fail : String → String → ℕ → TaskManager → Reply
unfolding on_entry with_entry fail_body
fail task_id error now = on_entry task_id (fail_body task_id error now)

-- The token is set first, whatever the state.
unfoldable pub cancel_body : String → ℕ → Body
unfolding update is_terminal store
cancel_body task_id now m e =
    let e' : Entry = record e { token = true } in
    if not (is_terminal e.task.state)
    then update m task_id e' (record (e.task) { state = cancelled; updated_at = now })
    else (store m task_id e', ok e.task)

unfoldable pub cancel : String → ℕ → TaskManager → Reply
unfolding on_entry with_entry cancel_body
cancel task_id now = on_entry task_id (cancel_body task_id now)

-- The first `if` of `complete`: an executing task is completing from here on.
to_completing : Task → Task
to_completing task = if same task.state executing then record task { state = completing } else task

unfoldable pub complete_body : String → ℕ → Body
unfolding update store to_completing
complete_body task_id now m e =
    let task = to_completing e.task in
    if same task.state completing
    then update m task_id e (record task { state = completed; updated_at = now })
    else (m, ok task)

unfoldable pub complete : String → ℕ → TaskManager → Reply
unfolding on_entry with_entry complete_body
complete task_id now = on_entry task_id (complete_body task_id now)

abbrev tasks : List Entry → List Task
tasks [] = []
tasks (e ∷ es) = e.task ∷ tasks es

unfoldable pub list_all : TaskManager → List Task
unfolding values
list_all m = tasks (values m.registry)

unfoldable pub list_active : TaskManager → List Task
unfolding list_all is_terminal
list_active m = select (λ task. not (is_terminal task.state)) (list_all m)
