-- ===== src/Tasks/Examples.antt =====
-- Runs of the task manager, and the theorems about it at concrete calls.
use tom.Prelude.{◌≡◌, refl, ◌⊎◌, true, false, some, none, All, List, [], ◌∷◌, ◌++◌}
use tom.Dict.{get, put}
use tom.Tasks.State.{cancelled, created, routing, executing, completed, is_terminal}
use tom.Tasks.Manager.{task_row, Entry, TaskManager, empty, cancel}
use tom.Tasks.Calls.{Call, Op, creates, run, replay, run-replay}
use tom.Tasks.Lifecycle.{Reach, run-Reach, run_terminal}
use tom.Tasks.Completion.{completed_was_executing, is_completing}
use tom.Tasks.Cancel.{cancel_outcome}

abbrev new_entry : Entry
new_entry = record {
  task = record {
    task_id = "t";
    goal = "tidy";
    state = created;
    created_at = 0;
    updated_at = 0;
    max_steps = 15;
    timeout_seconds = 300000;
    current_step_index = 0;
    replan_count = 0;
    error = none;
    resource_priority = none;
  };
  token = false;
}

abbrev started : TaskManager
started = run (("t", Call.create 0 "tidy" 15 300000 none) ∷ []) empty

abbrev life : List Op
life =
    ("t", Call.transition routing 1)
    ∷ ("u", Call.create 2 "other" 15 300000 none)
    ∷ ("t", Call.transition executing 3)
    ∷ ("u", Call.fail "stuck" 4)
    ∷ ("t", Call.complete 5)
    ∷ []

abbrev done : Entry
done = record new_entry { task = record (new_entry.task) { state = completed; updated_at = 5 } }

started_entry : get started.registry "t" ≡ some new_entry
unfolding run get put
started_entry = refl

life_ends : get (run life started).registry "t" ≡ some done
unfolding run get put
life_ends = refl

keeps_t : All (λ op. creates "t" op ≡ false) life
keeps_t = (refl, (refl, (refl, (refl, (refl, tt)))))

run-Reach_example :
    (e' : Entry) × (get (run life started).registry "t" ≡ some e') × Reach created e'.task.state
run-Reach_example = run-Reach "t" life started new_entry keeps_t started_entry

run-replay_example : get (run life started).registry "t" ≡ some (replay "t" life new_entry)
run-replay_example = run-replay "t" life started new_entry keeps_t started_entry

run_terminal_example :
    (e' : Entry) × (get (run life (run life started)).registry "t" ≡ some e')
    × (e'.task.state ≡ completed)
    × (e'.task.error ≡ none)
run_terminal_example =
    run_terminal "t" life (run life started) done keeps_t life_ends (unfold is_terminal in refl)

completed_was_executing_example :
    (before after : List Op) × (before ++ after ≡ life)
    × (x : Entry) × (get (run before started).registry "t" ≡ some x)
    × (x.task.state ≡ executing)
completed_was_executing_example =
    completed_was_executing "t" life started new_entry done keeps_t started_entry
      (unfold is_completing in refl) life_ends refl

cancel_outcome_example :
    (e' : Entry) × (get (cancel "t" 7 started).0.registry "t" ≡ some e')
    × (e'.token ≡ true)
    × (((is_terminal created ≡ true)
          × (e'.task ≡ new_entry.task)
          × ((cancel "t" 7 started).0.writes ≡ started.writes))
        ⊎ ((is_terminal created ≡ false)
            × (e'.task ≡ record (new_entry.task) { state = cancelled; updated_at = 7 })
            × ((cancel "t" 7 started).0.writes ≡ task_row e'.task ∷ started.writes)))
    × ((cancel "t" 8 (cancel "t" 7 started).0).0 ≡ (cancel "t" 7 started).0)
cancel_outcome_example = cancel_outcome "t" 7 8 started new_entry started_entry
