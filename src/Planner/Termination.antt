-- ===== src/Planner/Termination.antt =====
-- The loop of `get_execution_order` (python/tom/agents/planner.py) ends.
use tom.Prelude.{
  ℕ, zero, suc, ◌+◌, ◌≤◌, String, ◌≡◌, refl, ap, ◌⊎◌, Bool, some, List, [], ◌∷◌, ◌++◌, length,
  length-append, arith, inl, inr, ℤ, pos, negsuc, if◌then◌else◌, Bool-cases, Option-cases, eq_refl,
}
use tom.Dict.{Dict, get, put, get-put}
use tom.Sorting.{insert, sorted}
use tom.Executor.State.{PlanStep}
use tom.Planner.Graph.{
  modify, decrement, is_zero, ids_with, Queue, dependents, append_step, is_before, release,
  release_all, take_first, drain, first_queue, drained, graph, index_map, step_map,
}

length-insert :
    {A : Type 0} (le : A → A → Bool) (x : A) (xs : List A)
    → length (insert le x xs) ≡ suc (length xs)
unfolding insert
length-insert le x [] = refl
length-insert le x (y ∷ ys) = elim (Bool-cases (le x y)) [
  | inl e ↦ rw e refl
  | inr e ↦ rw (e, length-insert le x ys) refl
]

length-sorted : {A : Type 0} (le : A → A → Bool) (xs : List A) → length (sorted le xs) ≡ length xs
unfolding sorted
length-sorted le [] = refl
length-sorted le (x ∷ xs) = omega (arith, length-insert le x (sorted le xs), length-sorted le xs)

pub List-cases : {A : Type 0} (xs : List A) → (xs ≡ []) ⊎ ((y : A) × (ys : List A) × (xs ≡ y ∷ ys))
List-cases [] = inl refl
List-cases (y ∷ ys) = inr (y, ys, refl)

-- 1 for a step that still waits.
abbrev weight : ℤ → ℕ
weight (pos zero) = 0
weight (pos (suc n)) = 1
weight (negsuc n) = 0

abbrev waiting : Dict ℤ → ℕ
waiting [] = 0
waiting ((k, n) ∷ d) = weight n + waiting d

waiting-put :
    (d : Dict ℤ) (k : String) (v w : ℤ)
    → get d k ≡ some v
    → waiting (put d k w) + weight v ≡ waiting d + weight w
unfolding get put
waiting-put [] k v w h = ground arith
waiting-put ((j, n) ∷ d) k v w h = ground (arith, waiting-put d k v w)

pub get_after_put :
    (d : Dict ℤ) (k : String) (v w : ℤ) → get d k ≡ some v → get (put d k w) k ≡ some w
get_after_put d k v w h = rw (get-put d k k w, eq_refl k) refl

-- The steps that are ready or wait.
abbrev left : Queue → ℕ
left q = length q.ready + waiting q.in_degree

module _ (index : Dict ℕ) where
  -- The queue of the ready steps grows by one exactly if the degree falls to 0.
  length-ready :
      (k : String) (ks : List String) (v : ℤ)
      → length (if is_zero (decrement v) then sorted (is_before index) (ks ++ k ∷ []) else ks)
          + weight (decrement v)
        ≤ length ks + weight v
  unfolding decrement
  length-ready k ks (pos zero) = omega arith
  length-ready k ks (pos (suc zero)) =
      omega (arith, length-sorted (is_before index) (ks ++ k ∷ []), length-append ks (k ∷ []))
  length-ready k ks (pos (suc (suc n))) = ground arith
  length-ready k ks (negsuc n) = omega arith

  left-release : (k : String) (q : Queue) → left (release index k q) ≤ left q
  unfolding release modify
  left-release k q = elim (Option-cases (get q.in_degree k)) [
    | inl e ↦ rw (e, release, modify, e) (omega arith)
    | inr (v, e) ↦
        rw (e, release, modify, get_after_put q.in_degree k v (decrement v) e)
          (omega (arith, waiting-put q.in_degree k v (decrement v) e, length-ready k q.ready v))
  ]

  left-release_all : (ks : List String) (q : Queue) → left (release_all index ks q) ≤ left q
  unfolding release_all
  left-release_all [] q = omega arith
  left-release_all (k ∷ ks) q =
      omega (arith, left-release_all ks (release index k q), left-release k q)

  module _ (steps : Dict PlanStep) (adj : Dict (List String)) where
    left-take_first :
        (k : String) (rest : List String) (q : Queue)
        → left (take_first index steps adj k rest q) ≤ length rest + waiting q.in_degree
    unfolding take_first
    left-take_first k rest q =
        left-release_all (dependents (get adj k))
          (record q { ready = rest; ordered = append_step (get steps k) q.ordered })

    drain-ready : (fuel : ℕ) (q : Queue) → left q ≤ fuel → (drain index steps adj fuel q).ready ≡ []
    unfolding drain
    drain-ready zero q h = elim (List-cases q.ready) [
      | inl e ↦ e
      | inr (k, rest, e) ↦ ground (arith, ap length e)
    ]
    drain-ready (suc fuel) q h = elim (List-cases q.ready) [
      | inl e ↦ rw (e, drain) e
      | inr (k, rest, e) ↦
          rw (e, drain)
            (drain-ready fuel (take_first index steps adj k rest q)
              (omega (arith, ap length e, left-take_first k rest q)))
    ]

waiting-ids_with : (d : Dict ℤ) → length (ids_with is_zero d) + waiting d ≤ length d
unfolding ids_with
waiting-ids_with [] = omega arith
waiting-ids_with ((k, pos zero) ∷ d) = omega (arith, waiting-ids_with d)
waiting-ids_with ((k, pos (suc n)) ∷ d) = ground (arith, waiting-ids_with d)
waiting-ids_with ((k, negsuc n) ∷ d) = omega (arith, waiting-ids_with d)

-- With one unit of fuel for each identifier, the loop ends with no ready step left, whatever the
-- plan is.
pub drained_ends : (ss : List PlanStep) → (drained ss).ready ≡ []
unfolding drained first_queue
drained_ends ss =
    drain-ready (index_map 0 [] ss) (step_map [] ss) (graph ss).adj (length (graph ss).in_degree)
      (first_queue (index_map 0 [] ss) (graph ss))
      (omega (
        arith,
        length-sorted (is_before (index_map 0 [] ss)) (ids_with is_zero (graph ss).in_degree),
        waiting-ids_with (graph ss).in_degree,
      ))
