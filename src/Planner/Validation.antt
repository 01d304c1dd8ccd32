-- ===== src/Planner/Validation.antt =====
-- `TaskPlanner.validate_plan` (python/tom/agents/planner.py).
use tom.Prelude.{
  ℕ, String, Bool, true, false, not, Option, none, some, List, [], ◌∷◌, length, ltb, str_eq,
  if◌then◌else◌,
}
use tom.Executor.State.{PlanStep}
use tom.Planner.Graph.{Order, in_order, cycle_detected, get_execution_order}

-- The exceptions, with the identifiers that they name.
pub data Refusal : Type 0 where
  step_limit : ℕ → Refusal
  duplicate_step_id : String → Refusal
  unknown_tool : String → String → Refusal
  self_dependency : String → Refusal
  missing_dependency : String → String → Refusal
  cycle : List String → Refusal

unfoldable pub is_in : String → List String → Bool
is_in k [] = false
is_in k (j ∷ js) = if str_eq j k then true else is_in k js

abbrev pub or_then : Option Refusal → Option Refusal → Option Refusal
or_then none rest = rest
or_then (some r) rest = some r

unfoldable pub check_steps : (String → Bool) → List String → List PlanStep → Option Refusal
unfolding is_in
check_steps has_tool step_ids [] = none
check_steps has_tool step_ids (s ∷ ss) =
    let rest = check_steps has_tool (s.step_id ∷ step_ids) ss in
    if is_in s.step_id step_ids
    then some (duplicate_step_id s.step_id)
    else if not (has_tool s.tool_name)
    then some (unknown_tool s.tool_name s.step_id)
    else rest

-- The identifiers in the order of the steps; only whether one is in the set matters.
unfoldable pub ids_of : List PlanStep → List String
ids_of [] = []
ids_of (s ∷ ss) = s.step_id ∷ ids_of ss

unfoldable pub check_dependencies : List String → String → List String → Option Refusal
unfolding is_in
check_dependencies step_ids step_id [] = none
check_dependencies step_ids step_id (d ∷ deps) =
    let rest = check_dependencies step_ids step_id deps in
    if str_eq d step_id
    then some (self_dependency step_id)
    else if not (is_in d step_ids)
    then some (missing_dependency step_id d)
    else rest

unfoldable pub check_references : List String → List PlanStep → Option Refusal
unfolding check_dependencies
check_references step_ids [] = none
check_references step_ids (s ∷ ss) =
    or_then (check_dependencies step_ids s.step_id s.dependencies) (check_references step_ids ss)

unfoldable pub check_cycles : Order → Option Refusal
check_cycles (in_order ss) = none
check_cycles (cycle_detected ks) = some (cycle ks)

-- `none` where nothing is raised.
unfoldable pub validate_plan : ℕ → (String → Bool) → List PlanStep → Option Refusal
unfolding check_steps ids_of check_references check_cycles
validate_plan max_steps has_tool ss =
    if ltb max_steps (length ss)
    then some (step_limit (length ss))
    else or_then (check_steps has_tool [] ss)
        (or_then (check_references (ids_of ss) ss) (check_cycles (get_execution_order ss)))
