-- ===== src/Tasks/State.antt =====
-- The states of a task, the transition matrix and the task record (python/tom/schemas/task.py).
use tom.Prelude.{ℕ, String, ◌==◌, Bool, false, ◌||◌, Option, List, [], ◌∷◌}

pub data TaskState : Type 0 where
  created routing planning executing waiting_confirmation completing : TaskState
  completed failed cancelled : TaskState

pub TaskState-discrete : Discrete TaskState
TaskState-discrete = hlevel

-- The place of a state in the enumeration, by which two states are compared.
abbrev pub index : TaskState → ℕ
index created = 0
index routing = 1
index planning = 2
index executing = 3
index waiting_confirmation = 4
index completing = 5
index completed = 6
index failed = 7
index cancelled = 8

abbrev pub same : TaskState → TaskState → Bool
same s t = index s == index t

unfoldable pub is_member : TaskState → List TaskState → Bool
is_member s [] = false
is_member s (t ∷ ts) = same s t || is_member s ts

unfoldable pub task_valid_transitions : TaskState → List TaskState
task_valid_transitions created = routing ∷ cancelled ∷ []
task_valid_transitions routing = planning ∷ executing ∷ failed ∷ cancelled ∷ []
task_valid_transitions planning = executing ∷ failed ∷ cancelled ∷ []
task_valid_transitions executing =
    waiting_confirmation ∷ planning ∷ completing ∷ failed ∷ cancelled ∷ []
task_valid_transitions waiting_confirmation = executing ∷ failed ∷ cancelled ∷ []
task_valid_transitions completing = completed ∷ failed ∷ []
task_valid_transitions completed = []
task_valid_transitions failed = []
task_valid_transitions cancelled = []

unfoldable pub task_terminal_states : List TaskState
task_terminal_states = completed ∷ failed ∷ cancelled ∷ []

-- A test of membership in the set of terminal states.
unfoldable pub is_terminal : TaskState → Bool
unfolding is_member task_terminal_states
is_terminal s = is_member s task_terminal_states

-- The result of one step. Its output is a text here: the task manager only stores it.
pub record StepResult : Type 0 where
  pub step_id : String
  pub step_index : ℕ
  pub tool_name : String
  pub success : Bool
  pub output : Option String
  pub error : Option String

pub record TaskResult : Type 0 where
  pub task_id : String
  pub state : TaskState
  pub step_results : List StepResult
  pub total_steps : ℕ
  pub error : Option String

-- Times are whole ticks of a clock, and the metadata is the one entry that the program reads.
pub record Task : Type 0 where
  pub task_id : String
  pub goal : String
  pub state : TaskState
  pub created_at : ℕ
  pub updated_at : ℕ
  pub max_steps : ℕ
  pub timeout_seconds : ℕ
  pub current_step_index : ℕ
  pub replan_count : ℕ
  pub error : Option String
  pub resource_priority : Option ℕ
