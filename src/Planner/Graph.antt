-- ===== src/Planner/Graph.antt =====
-- `TaskPlanner.get_execution_order` (python/tom/agents/planner.py), which
-- `resolve_execution_order` (python/tom/agents/executor.py) repeats. Every identifier that is looked
-- up is a key of the three dictionaries, so the KeyErrors are left out.
use tom.Prelude.{
  ℕ, zero, suc, String, Bool, false, Option, none, some, List, [], ◌∷◌, ◌++◌, length, ◌==◌, leb,
  if◌then◌else◌, ℤ, pos, negsuc,
}
use tom.Dict.{Dict, get, has, put}
use tom.Sorting.{sorted}
use tom.Executor.State.{PlanStep}

-- d[k] = f(d[k])
unfoldable pub modify {ℓ} : {V : Type ℓ} → Dict V → String → (V → V) → Dict V
modify d k f = elim (get d k) [ none ↦ d | some v ↦ put d k (f v) ]

unfoldable pub increment : ℤ → ℤ
increment (pos n) = pos (suc n)
increment (negsuc zero) = pos 0
increment (negsuc (suc n)) = negsuc n

unfoldable pub decrement : ℤ → ℤ
decrement (pos zero) = negsuc 0
decrement (pos (suc n)) = pos n
decrement (negsuc n) = negsuc (suc n)

abbrev pub is_zero : ℤ → Bool
is_zero (pos n) = n == 0
is_zero (negsuc n) = false

-- The dictionaries over the steps, from the entries that are there already.
unfoldable pub step_map : Dict PlanStep → List PlanStep → Dict PlanStep
step_map d [] = d
step_map d (s ∷ ss) = step_map (put d s.step_id s) ss

unfoldable pub index_map : ℕ → Dict ℕ → List PlanStep → Dict ℕ
index_map i d [] = d
index_map i d (s ∷ ss) = index_map (suc i) (put d s.step_id i) ss

-- One value for every identifier.
unfoldable pub for_each {ℓ} : {V : Type ℓ} → V → Dict V → List PlanStep → Dict V
for_each v d [] = d
for_each v d (s ∷ ss) = for_each v (put d s.step_id v) ss

-- `adj` gives for each step those that wait for it, and `in_degree` the number of steps it waits for.
pub record Graph : Type 0 where
  pub adj : Dict (List String)
  pub in_degree : Dict ℤ

unfoldable pub add_edge : Dict PlanStep → String → String → Graph → Graph
unfolding modify increment
add_edge steps step_id dep g =
    if has steps dep
    then record {
      adj = modify g.adj dep (λ ks. ks ++ step_id ∷ []);
      in_degree = modify g.in_degree step_id increment;
    }
    else g

unfoldable pub add_dependencies : Dict PlanStep → String → List String → Graph → Graph
unfolding add_edge
add_dependencies steps step_id [] g = g
add_dependencies steps step_id (dep ∷ deps) g =
    add_dependencies steps step_id deps (add_edge steps step_id dep g)

unfoldable pub add_edges : Dict PlanStep → List PlanStep → Graph → Graph
unfolding add_dependencies
add_edges steps [] g = g
add_edges steps (s ∷ ss) g = add_edges steps ss (add_dependencies steps s.step_id s.dependencies g)

unfoldable pub graph : List PlanStep → Graph
unfolding add_edges step_map for_each
graph ss =
    add_edges (step_map [] ss) ss
      (record { adj = for_each [] [] ss; in_degree = for_each (pos 0) [] ss })

-- The identifiers whose degree passes a test.
unfoldable pub ids_with : (ℤ → Bool) → Dict ℤ → List String
ids_with p [] = []
ids_with p ((k, n) ∷ d) = if p n then k ∷ ids_with p d else ids_with p d

abbrev pub index_of : Option ℕ → ℕ
index_of none = 0
index_of (some i) = i

unfoldable pub is_before : Dict ℕ → String → String → Bool
is_before index j k = leb (index_of (get index j)) (index_of (get index k))

-- The state of the loop.
pub record Queue : Type 0 where
  pub ready : List String
  pub in_degree : Dict ℤ
  pub ordered : List PlanStep

abbrev pub is_ready : Option ℤ → Bool
is_ready none = false
is_ready (some n) = is_zero n

abbrev pub dependents : Option (List String) → List String
dependents none = []
dependents (some ks) = ks

abbrev pub append_step : Option PlanStep → List PlanStep → List PlanStep
append_step none ss = ss
append_step (some s) ss = ss ++ s ∷ []

module _ (index : Dict ℕ) where
  -- One dependent of a step that is done.
  unfoldable pub release : String → Queue → Queue
  unfolding modify decrement sorted is_before
  release k q =
      let in_degree : Dict ℤ = modify q.in_degree k decrement in
      record q {
        in_degree = in_degree;
        ready =
            if is_ready (get in_degree k)
            then sorted (is_before index) (q.ready ++ k ∷ [])
            else q.ready;
      }

  unfoldable pub release_all : List String → Queue → Queue
  unfolding release
  release_all [] q = q
  release_all (k ∷ ks) q = release_all ks (release k q)

  module _ (steps : Dict PlanStep) (adj : Dict (List String)) where
    -- A pass of the loop, for the first of the ready steps and the others.
    unfoldable pub take_first : String → List String → Queue → Queue
    unfolding release_all
    take_first k rest q =
        release_all (dependents (get adj k))
          (record q { ready = rest; ordered = append_step (get steps k) q.ordered })

    unfoldable pub drain : ℕ → Queue → Queue
    unfolding take_first
    drain zero q = q
    drain (suc fuel) q = elim q.ready [ [] ↦ q | k ∷ rest ↦ drain fuel (take_first k rest q) ]

abbrev pub is_positive : ℤ → Bool
is_positive (pos n) = leb 1 n
is_positive (negsuc n) = false

pub data Order : Type 0 where
  in_order : List PlanStep → Order
  cycle_detected : List String → Order

unfoldable pub first_queue : Dict ℕ → Graph → Queue
unfolding ids_with sorted is_before
first_queue index g = record {
  ready = sorted (is_before index) (ids_with is_zero g.in_degree);
  in_degree = g.in_degree;
  ordered = [];
}

-- The queue when the loop ends; each identifier is taken once at most.
unfoldable pub drained : List PlanStep → Queue
unfolding drain first_queue graph index_map step_map
drained ss =
    let g = graph ss in
    let index : Dict ℕ = index_map 0 [] ss in
    drain index (step_map [] ss) g.adj (length g.in_degree) (first_queue index g)

unfoldable pub get_execution_order : List PlanStep → Order
unfolding drained ids_with
get_execution_order ss =
    let q = drained ss in
    if length q.ordered == length ss
    then in_order q.ordered
    else cycle_detected (ids_with is_positive q.in_degree)

-- The task executor has a copy of the same code.
unfoldable pub resolve_execution_order : List PlanStep → Order
unfolding get_execution_order
resolve_execution_order ss = get_execution_order ss
