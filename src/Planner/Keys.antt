-- ===== src/Planner/Keys.antt =====
-- The keys of the dictionaries of `get_execution_order` (python/tom/agents/planner.py).
use tom.Prelude.{
  ℕ, zero, suc, ◌+◌, ◌≤◌, String, ◌≡◌, refl, subst, ◌⊎◌, inl, inr, true, false, none, some, List,
  [], ◌∷◌, arith, ℤ, pos, negsuc, str_eq, eq_iff, eq_refl, All, IsIn, if◌then◌else◌, Bool-cases,
  Option-cases,
}
use tom.Dict.{Dict, get, has, put, get-put}
use tom.Executor.State.{PlanStep}
use tom.Planner.Graph.{modify, is_zero, ids_with, step_map, for_each}
use tom.Planner.Counts.{hit, hit_self, count, pending}
use tom.Planner.Invariant.{room}

-- The number of entries of a key.
abbrev pub occ : {V : Type 0} → String → Dict V → ℕ
occ j [] = 0
occ j ((k, v) ∷ d) = hit j k + occ j d

module _ {V : Type 0} where
  has-put :
      (d : Dict V) (k j : String) (v : V)
      → has (put d k v) j ≡ (if str_eq k j then true else has d j)
  unfolding has put
  has-put [] k j v = refl
  has-put ((i, w) ∷ d) k j v = ground (arith, eq_iff k j, eq_iff i k, eq_iff i j, has-put d k j v)

  occ-put_other :
      (d : Dict V) (k j : String) (v : V) → str_eq k j ≡ false → occ j (put d k v) ≡ occ j d
  unfolding put
  occ-put_other [] k j v h = ground arith
  occ-put_other ((i, w) ∷ d) k j v h = ground (arith, eq_iff i k, occ-put_other d k j v h)

  occ-put_same : (d : Dict V) (k : String) (v : V) → occ k d ≤ 1 → occ k (put d k v) ≤ 1
  unfolding put
  occ-put_same [] k v h = omega (arith, hit_self k)
  occ-put_same ((i, w) ∷ d) k v h = ground (arith, eq_iff i k, eq_refl k, occ-put_same d k v)

  pub occ-put : (d : Dict V) (k j : String) (v : V) → occ j d ≤ 1 → occ j (put d k v) ≤ 1
  occ-put d k j v h = elim (Bool-cases (str_eq k j)) [
    | inl e ↦
        subst (λ i. occ i d ≤ 1 → occ i (put d k v) ≤ 1) ((eq_iff k j).0 e) (occ-put_same d k v) h
    | inr e ↦ omega (arith, occ-put_other d k j v e)
  ]

  pub occ-modify : (d : Dict V) (k j : String) (f : V → V) → occ j d ≤ 1 → occ j (modify d k f) ≤ 1
  unfolding modify
  occ-modify d k j f h = elim (Option-cases (get d k)) [
    | inl e ↦ rw (e, modify) h
    | inr (v, e) ↦ rw (e, modify) (occ-put d k j (f v) h)
  ]

  pub occ-for_each :
      (v : V) (j : String) (ss : List PlanStep) (d : Dict V)
      → occ j d ≤ 1
      → occ j (for_each v d ss) ≤ 1
  unfolding for_each
  occ-for_each v j [] d h = h
  occ-for_each v j (s ∷ ss) d h =
      occ-for_each v j ss (put d s.step_id v) (occ-put d s.step_id j v h)

  -- The values are the one that was given.
  pub get-for_each :
      (v : V) (j : String) (ss : List PlanStep) (d : Dict V)
      → (get d j ≡ none) ⊎ (get d j ≡ some v)
      → (get (for_each v d ss) j ≡ none) ⊎ (get (for_each v d ss) j ≡ some v)
  unfolding for_each
  get-for_each v j [] d h = h
  get-for_each v j (s ∷ ss) d h =
      get-for_each v j ss (put d s.step_id v) (elim (Bool-cases (str_eq s.step_id j)) [
        | inl e ↦ rw (get-put d s.step_id j v, e) (inr refl)
        | inr e ↦ rw (get-put d s.step_id j v, e) h
      ])

module _ {V : Type 0} where
  -- A step of the map has an entry.
  pub step_map-present :
      (v : V) (ss : List PlanStep) (d : Dict V) (steps : Dict PlanStep)
      → ((j : String) → has steps j ≡ true → (w : V) × (get d j ≡ some w))
      → (j : String) → has (step_map steps ss) j ≡ true
      → (w : V) × (get (for_each v d ss) j ≡ some w)
  unfolding step_map for_each
  step_map-present v [] d steps h j e = h j e
  step_map-present v (s ∷ ss) d steps h j e =
      step_map-present v ss (put d s.step_id v) (put steps s.step_id s)
        (λ i x. elim (Bool-cases (str_eq s.step_id i)) [
          | inl b ↦ rw (get-put d s.step_id i v, b) (v, refl)
          | inr b ↦ rw (get-put d s.step_id i v, b) (h i (rw (has-put steps s.step_id i s, b) at x))
        ])
        j e

  -- An identifier with an entry is that of a step of the plan, which the map gives.
  pub step_map-known :
      (v : V) (all : List PlanStep) (j : String) (ss : List PlanStep) (d : Dict V)
      (steps : Dict PlanStep)
      → All (λ s. IsIn s all) ss
      → (get d j ≡ none) ⊎ ((s : PlanStep) × (get steps j ≡ some s) × (s.step_id ≡ j) × IsIn s all)
      → (get (for_each v d ss) j ≡ none)
        ⊎ ((s : PlanStep) × (get (step_map steps ss) j ≡ some s) × (s.step_id ≡ j) × IsIn s all)
  unfolding step_map for_each
  step_map-known v all j [] d steps m h = h
  step_map-known v all j (s ∷ ss) d steps m h =
      step_map-known v all j ss (put d s.step_id v) (put steps s.step_id s) m.1
        (elim (Bool-cases (str_eq s.step_id j)) [
          | inl b ↦
              rw (get-put d s.step_id j v, get-put steps s.step_id j s, b)
                (inr (s, refl, (eq_iff s.step_id j).0 b, m.0))
          | inr b ↦ rw (get-put d s.step_id j v, get-put steps s.step_id j s, b) h
        ])

pending-put_nil :
    (adj : Dict (List String)) (k j : String) → pending (put adj k []) [] j ≤ pending adj [] j
unfolding put
pending-put_nil [] k j = omega arith
pending-put_nil ((i, ks) ∷ adj) k j = ground (arith, pending-put_nil adj k j)

pub pending-for_each :
    (j : String) (ss : List PlanStep) (adj : Dict (List String))
    → pending adj [] j ≡ 0
    → pending (for_each [] adj ss) [] j ≡ 0
unfolding for_each
pending-for_each j [] adj h = h
pending-for_each j (s ∷ ss) adj h =
    pending-for_each j ss (put adj s.step_id []) (omega (arith, pending-put_nil adj s.step_id j))

count-occ : (j : String) (d : Dict ℤ) → count j (ids_with is_zero d) ≤ occ j d
unfolding ids_with
count-occ j [] = omega arith
count-occ j ((k, n) ∷ d) = ground (arith, count-occ j d)

-- The steps that are ready at first.
pub ids_with-room :
    (j : String) (d : Dict ℤ) → occ j d ≤ 1 → count j (ids_with is_zero d) ≤ room (get d j)
unfolding ids_with get
ids_with-room j [] h = omega arith
ids_with-room j ((k, pos zero) ∷ d) h = ground (arith, count-occ j d, ids_with-room j d)
ids_with-room j ((k, pos (suc n)) ∷ d) h = ground (arith, count-occ j d, ids_with-room j d)
ids_with-room j ((k, negsuc n) ∷ d) h = ground (arith, count-occ j d, ids_with-room j d)
