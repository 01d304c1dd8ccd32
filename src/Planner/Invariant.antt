-- ===== src/Planner/Invariant.antt =====
-- What each pass of the loop of `get_execution_order` (python/tom/agents/planner.py) keeps.
use tom.Prelude.{
  ℕ, zero, suc, ◌+◌, ◌≤◌, String, ◌≡◌, refl, subst, ap, inl, inr, Bool, true, false, Option, none,
  some, List, [], ◌∷◌, ◌++◌, arith, ℤ, pos, negsuc, str_eq, eq_iff, eq_refl, if◌then◌else◌,
  Bool-cases, Option-cases,
}
use tom.Dict.{Dict, get, get-put}
use tom.Sorting.{sorted}
use tom.Executor.State.{PlanStep}
use tom.Planner.Graph.{
  modify, decrement, is_zero, Queue, dependents, is_before, release, release_all, take_first,
}
use tom.Planner.Termination.{get_after_put}
use tom.Planner.Counts.{
  hit_self, hit, count, count-append, count-sorted, pending, pending-dependents,
}

-- A degree is as large as the number of entries that are left.
abbrev pub IsCovered : Option ℤ → ℕ → Type 0
IsCovered none m = Unit
IsCovered (some (pos n)) m = m ≤ n
IsCovered (some (negsuc n)) m = ⊥

-- How often a step may be ready or done.
abbrev pub room : Option ℤ → ℕ
room none = 0
room (some (pos zero)) = 1
room (some (pos (suc n))) = 0
room (some (negsuc n)) = 1

-- What is known of the steps that have a degree.
abbrev pub IsKnown : Type 0 → Option ℤ → Type 0
IsKnown K none = Unit
IsKnown K (some n) = K

pub IsCovered-less : (o : Option ℤ) (m n : ℕ) → n ≤ m → IsCovered o m → IsCovered o n
IsCovered-less none m n l h = tt
IsCovered-less (some (pos k)) m n l h = omega arith
IsCovered-less (some (negsuc k)) m n l h = absurd h

module _ (index : Dict ℕ) (adj : Dict (List String)) (K : String → Type 0) where
  -- While the entries `ks` of the newest step that is done are still to be taken out.
  abbrev pub Holds : String → List String → List String → Queue → Type 0
  Holds j done ks q =
      IsCovered (get q.in_degree j) (pending adj done j + count j ks)
      × (count j q.ready + count j done ≤ room (get q.in_degree j))
      × IsKnown (K j) (get q.in_degree j)

  -- The degree of a step falls with the entries that are left for it.
  IsCovered-decrement :
      (v : ℤ) (p c : ℕ) → IsCovered (some v) (p + (1 + c)) → IsCovered (some (decrement v)) (p + c)
  unfolding decrement
  IsCovered-decrement (pos zero) p c h = ground arith
  IsCovered-decrement (pos (suc n)) p c h = omega arith
  IsCovered-decrement (negsuc n) p c h = absurd h

  -- A step that becomes ready was neither ready nor done.
  room-decrement :
      (v : ℤ) (k : String) (m : ℕ) (ready done : List String)
      → IsCovered (some v) (suc m)
      → count k ready + count k done ≤ room (some v)
      → count k
            (if is_zero (decrement v) then sorted (is_before index) (ready ++ k ∷ []) else ready)
          + count k done
        ≤ room (some (decrement v))
  unfolding decrement
  room-decrement (pos zero) k m ready done c h = ground arith
  room-decrement (pos (suc zero)) k m ready done c h =
      rw
        (
          count-sorted (is_before index) k (ready ++ k ∷ []),
          count-append k ready (k ∷ []),
          eq_refl k,
        )
        (omega arith)
  room-decrement (pos (suc (suc n))) k m ready done c h = ground arith
  room-decrement (negsuc n) k m ready done c h = absurd c

  release-same :
      (k : String) (done ks : List String) (q : Queue)
      → Holds k done (k ∷ ks) q
      → Holds k done ks (release index k q)
  unfolding release modify
  release-same k done ks q h = elim (Option-cases (get q.in_degree k)) [
    | inl e ↦
        let h' : Unit × (count k q.ready + count k done ≤ 0) × Unit = rw e at h in
        rw (e, release, modify, e) (tt, h'.1, tt)
    | inr (v, e) ↦
        let h' : IsCovered (some v) (pending adj done k + (1 + count k ks))
            × (count k q.ready + count k done ≤ room (some v))
            × K k =
          rw (e, eq_refl k) at h in
        rw (e, release, modify, get_after_put q.in_degree k v (decrement v) e)
          (
            IsCovered-decrement v _ _ h'.0,
            room-decrement v k 0 q.ready done (IsCovered-less (some v) _ 1 (omega arith) h'.0) h'.1,
            h'.2,
          )
  ]

  count-other :
      (k j : String) (ready : List String) (b : Bool)
      → str_eq k j ≡ false
      → count j (if b then sorted (is_before index) (ready ++ k ∷ []) else ready) ≡ count j ready
  count-other k j ready true e =
      rw (count-sorted (is_before index) j (ready ++ k ∷ []), count-append j ready (k ∷ []), e)
        (omega arith)
  count-other k j ready false e = refl

  release-other :
      (k j : String) (done ks : List String) (q : Queue)
      → str_eq k j ≡ false
      → Holds j done (k ∷ ks) q
      → Holds j done ks (release index k q)
  unfolding release modify
  release-other k j done ks q n h = elim (Option-cases (get q.in_degree k)) [
    | inl e ↦
        rw (e, release, modify, e)
          (IsCovered-less (get q.in_degree j) _ _ (omega arith) h.0, h.1, h.2)
    | inr (v, e) ↦
        rw
          (
            e,
            release,
            modify,
            get_after_put q.in_degree k v (decrement v) e,
            get-put q.in_degree k j (decrement v),
            n,
            count-other k j q.ready (is_zero (decrement v)) n,
          )
          (IsCovered-less (get q.in_degree j) _ _ (omega arith) h.0, h.1, h.2)
  ]

  release-Holds :
      (k j : String) (done ks : List String) (q : Queue)
      → Holds j done (k ∷ ks) q
      → Holds j done ks (release index k q)
  release-Holds k j done ks q h = elim (Bool-cases (str_eq k j)) [
    | inl e ↦
        subst (λ i. Holds i done (k ∷ ks) q → Holds i done ks (release index k q))
          ((eq_iff k j).0 e) (release-same k done ks q) h
    | inr e ↦ release-other k j done ks q e h
  ]

  release_all-Holds :
      (j : String) (done ks : List String) (q : Queue)
      → Holds j done ks q
      → Holds j done [] (release_all index ks q)
  unfolding release_all
  release_all-Holds j done [] q h = h
  release_all-Holds j done (k ∷ ks) q h =
      release_all-Holds j done ks (release index k q) (release-Holds k j done ks q h)

  ready-room : (o : Option ℤ) (m n : ℕ) → IsCovered o m → suc n ≤ room o → (m ≡ 0) × (n ≡ 0)
  ready-room none m n c h = ground arith
  ready-room (some (pos zero)) m n c h = (omega arith, omega arith)
  ready-room (some (pos (suc i))) m n c h = ground arith
  ready-room (some (negsuc i)) m n c h = absurd c

  ready-known : (j : String) (o : Option ℤ) (n : ℕ) → suc n ≤ room o → IsKnown (K j) o → K j
  ready-known j none n h g = ground arith
  ready-known j (some v) n h g = g

  module _ (k : String) (rest done : List String) (q : Queue) (e : q.ready ≡ k ∷ rest) where
    -- The first of the ready steps is new, known, and waits for none.
    pub first-IsFree : Holds k done [] q → (pending adj done k ≡ 0) × (count k done ≡ 0) × K k
    first-IsFree h =
        let r : (hit k k + count k rest) + count k done ≤ room (get q.in_degree k) = rw e at h.1 in
        let r' : suc (count k rest + count k done) ≤ room (get q.in_degree k) =
          omega (arith, r, hit_self k) in
        let (p, z) = ready-room _ _ _ h.0 r' in
        (omega (arith, p), omega (arith, z), ready-known k _ _ r' h.2)

    pub take_first-Holds :
        (steps : Dict PlanStep) (j : String)
        → count k done ≡ 0
        → Holds j done [] q
        → Holds j (k ∷ done) [] (take_first index steps adj k rest q)
    unfolding take_first
    take_first-Holds steps j z h = release_all-Holds j (k ∷ done) (dependents (get adj k)) _ (
      IsCovered-less (get q.in_degree j) _ _ (omega (arith, pending-dependents adj done k j z)) h.0,
      omega (arith, h.1, ap (count j) e),
      h.2,
    )
