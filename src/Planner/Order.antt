-- ===== src/Planner/Order.antt =====
-- The order that `get_execution_order` (python/tom/agents/planner.py) gives.
use tom.Prelude.{
  ℕ, String, ◌≡◌, refl, sym, subst, ap, ◌∙◌, ◌⊎◌, inl, inr, true, Option, none, some, List, [], ◌∷◌,
  length, arith, ℤ, pos, negsuc, All, All-map, IsIn, ◌==◌, Bool-cases,
}
use tom.Dict.{Dict, get, has}
use tom.Executor.State.{PlanStep}
use tom.Planner.Graph.{
  is_zero, ids_with, is_before, Graph, add_edges, for_each, graph, step_map, index_map, first_queue,
  drained, Order, in_order, cycle_detected, get_execution_order,
}
use tom.Planner.Counts.{count-sorted, pending}
use tom.Planner.Invariant.{IsCovered, IsCovered-less, IsKnown, Holds}
use tom.Planner.Keys.{
  occ-for_each, get-for_each, step_map-present, step_map-known, pending-for_each, ids_with-room,
}
use tom.Planner.Entries.{HasEntries, HasEdges}
use tom.Planner.Edges.{add_edges-Covers, add_edges-HasEdges, add_edges-none, add_edges-occ}
use tom.Planner.Loop.{drain-Adds, IsStepOf, IsOrdered}

all-IsIn : (xs : List PlanStep) → All (λ s. IsIn s xs) xs
all-IsIn [] = tt
all-IsIn (x ∷ xs) = (inl refl, All-map (λ s i. inr i) xs (all-IsIn xs))

zero-IsCovered : (o : Option ℤ) (m : ℕ) → (o ≡ none) ⊎ (o ≡ some (pos 0)) → m ≡ 0 → IsCovered o m
zero-IsCovered none m h e = tt
zero-IsCovered (some (pos n)) m h e = omega (arith, e)
zero-IsCovered (some (negsuc n)) m h e = ground arith

step-IsKnown : (K : Type 0) (o : Option ℤ) → K → IsKnown K o
step-IsKnown K none k = tt
step-IsKnown K (some n) k = k

module _ (ss : List PlanStep) where
  -- The graph before its edges.
  abbrev bare : Graph
  bare = record { adj = for_each [] [] ss; in_degree = for_each (pos 0) [] ss }

  abbrev index : Dict ℕ
  index = index_map 0 [] ss

  abbrev steps : Dict PlanStep
  steps = step_map [] ss

  bare-HasEntries : (d j : String) → has steps d ≡ true → HasEntries 0 bare.adj d j
  unfolding has get
  bare-HasEntries d j e =
      let (w, g) = step_map-present [] ss [] [] (λ i x. ground arith) d e in (w, g, omega arith)

  graph-IsKnown :
      (j : String) → IsKnown (IsStepOf index (graph ss).adj steps j) (get (graph ss).in_degree j)
  unfolding graph get
  graph-IsKnown j = elim (step_map-known (pos 0) ss j ss [] [] (all-IsIn ss) (inl refl)) [
    | inl z ↦ rw (add_edges-none steps j ss bare z) tt
    | inr (s, g, i, m) ↦
        step-IsKnown (IsStepOf index (graph ss).adj steps j) (get (graph ss).in_degree j) (
          s,
          g,
          i,
          subst (λ k. HasEdges steps (add_edges steps ss bare).adj k s.dependencies) i
              (add_edges-HasEdges steps s ss bare bare-HasEntries m),
        )
  ]

  -- At the start of the loop.
  graph-Holds :
      (j : String)
      → Holds index
          (graph ss).adj
          (IsStepOf index (graph ss).adj steps)
          j
          []
          []
          (first_queue index (graph ss))
  unfolding first_queue graph get
  graph-Holds j = (
    IsCovered-less (get (graph ss).in_degree j) (pending (graph ss).adj [] j) _ (omega arith) (
        add_edges-Covers steps j ss bare (
          zero-IsCovered _ _ (get-for_each (pos 0) j ss [] (inl refl))
            (pending-for_each j ss [] refl))),
    omega (
      arith,
      count-sorted (is_before index) j (ids_with is_zero (graph ss).in_degree),
      ids_with-room j (graph ss).in_degree
          (add_edges-occ steps j ss bare (occ-for_each (pos 0) j ss [] (omega arith))),
    ),
    graph-IsKnown j,
  )

  drained-IsOrdered : IsOrdered steps [] (drained ss).ordered
  unfolding drained first_queue
  drained-IsOrdered =
      let (xs, o, r) =
        drain-Adds index (graph ss).adj steps (length (graph ss).in_degree) []
          (first_queue index (graph ss)) graph-Holds in
      subst (IsOrdered steps []) (sym o) r

abbrev steps_of : Order → List PlanStep
steps_of (in_order order) = order
steps_of (cycle_detected ks) = []

-- The steps of an order are each after all steps of the plan that they depend on, and the order has
-- as many steps as the plan.
pub get_execution_order-IsOrdered :
    (ss order : List PlanStep)
    → get_execution_order ss ≡ in_order order
    → IsOrdered (step_map [] ss) [] order × (length order ≡ length ss)
unfolding get_execution_order
get_execution_order-IsOrdered ss order e =
    elim (Bool-cases (length (drained ss).ordered == length ss)) [
      | inl b ↦
          let e' : in_order (drained ss).ordered ≡ in_order order = rw (b) at e in
          let p : (drained ss).ordered ≡ order = ap steps_of e' in
          (
            subst (IsOrdered (step_map [] ss) []) p (drained-IsOrdered ss),
            ap length (sym p) ∙ ground arith,
          )
      | inr b ↦ ground arith
    ]
