-- ===== src/Planner/Examples.antt =====
-- Plans with and without a cycle, and the theorems about their order.
use tom.Prelude.{String, ◌≡◌, refl, true, false, some, length, List, [], ◌∷◌}
use tom.Dict.{get, has, put}
use tom.Permissions.Payloads.{end}
use tom.Executor.State.{PlanStep}
use tom.Planner.Graph.{
  in_order, cycle_detected, get_execution_order, resolve_execution_order, drained, step_map,
}
use tom.Planner.Validation.{missing_dependency, validate_plan}
use tom.Planner.Termination.{drained_ends}
use tom.Planner.Loop.{IsOrdered}
use tom.Planner.Order.{get_execution_order-IsOrdered}

abbrev step : String → List String → PlanStep
step k deps = record {
  step_id = k;
  tool_name = "clock.now";
  parameters = end;
  dependencies = deps;
  requires_revalidation = false;
  is_terminal = false;
}

abbrev plan : List PlanStep
plan =
    step "c" ("b" ∷ "a" ∷ [])
    ∷ step "a" []
    ∷ step "b" ("a" ∷ "gone" ∷ [])
    ∷ step "d" ("a" ∷ [])
    ∷ []

abbrev cycle : List PlanStep
cycle = step "a" ("c" ∷ []) ∷ step "b" ("a" ∷ []) ∷ step "c" ("b" ∷ []) ∷ step "d" [] ∷ []

abbrev order : List PlanStep
order =
    step "a" []
    ∷ step "b" ("a" ∷ "gone" ∷ [])
    ∷ step "c" ("b" ∷ "a" ∷ [])
    ∷ step "d" ("a" ∷ [])
    ∷ []

ordered : resolve_execution_order plan ≡ in_order order
unfolding resolve_execution_order has put get
ordered = refl

cyclic : get_execution_order cycle ≡ cycle_detected ("a" ∷ "b" ∷ "c" ∷ [])
unfolding get_execution_order has put get
cyclic = refl

missing : validate_plan 20 (λ t. true) plan ≡ some (missing_dependency "b" "gone")
unfolding validate_plan
missing = refl

drained_ends_example : (drained plan).ready ≡ []
drained_ends_example = drained_ends plan

get_execution_order-IsOrdered_example :
    IsOrdered (step_map [] plan) [] order × (length order ≡ length plan)
unfolding get_execution_order has put get
get_execution_order-IsOrdered_example = get_execution_order-IsOrdered plan order refl
