-- ===== src/Resources/Arbitration.antt =====
-- Which waiter the queue serves next (`PriorityResourceQueue.pop_admissible` of
-- python/tom/resources/policies.py).
use native.Mathlib.Nat.{le-div_iff_mul-le}
use tom.Prelude.{
  ℕ, ◌-◌, ◌*◌, ◌/◌, ◌≤◌, ◌<◌, ◌≡◌, ◌==◌, refl, sym, ◌∙◌, ◌⊎◌, inl, inr, Bool, true, false, Option,
  none, some, List, [], ◌∷◌, arith, All, All-map, subst, Bool-cases,
}
use mathlib.Core.Bool.{true≢false}
use tom.Dict
use tom.Sorting.{IsSorted, sorted-IsSorted, All-of_sorted}
use tom.Resources.Queue.{
  ResourceWaiter, PriorityResourceQueue, value, key_le, get_effective_priority, is_before,
  is_admissible, find_admissible, sorted_waiters, take_out, pop_admissible,
}

key_le_trans :
    (p s q t r u : ℕ) → key_le p s q t ≡ true → key_le q t r u ≡ true → key_le p s r u ≡ true
key_le_trans p s q t r u h k = ground arith

key_le_total : (p s q t : ℕ) → key_le p s q t ≡ false → key_le q t p s ≡ true
key_le_total p s q t h = ground arith

key_le_refl : (p s : ℕ) → key_le p s p s ≡ true
key_le_refl p s = ground arith

module _ (threshold now : ℕ) where
  abbrev eff : ResourceWaiter → ℕ
  eff v = get_effective_priority v now threshold

  is_before_trans :
      (u v w : ResourceWaiter)
      → is_before threshold now u v ≡ true
      → is_before threshold now v w ≡ true
      → is_before threshold now u w ≡ true
  unfolding is_before
  is_before_trans u v w h k =
      key_le_trans (eff u) u.sequence (eff v) v.sequence (eff w) w.sequence h k

  is_before_total :
      (v w : ResourceWaiter)
      → is_before threshold now v w ≡ false
      → is_before threshold now w v ≡ true
  unfolding is_before
  is_before_total v w h = key_le_total (eff v) v.sequence (eff w) w.sequence h

  is_before_refl : (v : ResourceWaiter) → is_before threshold now v v ≡ true
  unfolding is_before
  is_before_refl v = key_le_refl (eff v) v.sequence

module _ (can_admit : ResourceWaiter → Bool) where
  find_refuses :
      (ws : List ResourceWaiter)
      → find_admissible can_admit ws ≡ none
      → All (λ v. is_admissible can_admit v ≡ false) ws
  unfolding find_admissible
  find_refuses [] h = tt
  find_refuses (v ∷ ws) h = elim (Bool-cases (is_admissible can_admit v)) [
    | inl p ↦ absurd (ground arith)
    | inr p ↦ (p, find_refuses ws (ground arith))
  ]

  -- `w` is admissible, and no admissible item stands before it.
  abbrev IsBest :
      (ResourceWaiter → ResourceWaiter → Bool) → List ResourceWaiter → ResourceWaiter → Type 0
  IsBest le ws w =
      (is_admissible can_admit w ≡ true)
      × All (λ v. is_admissible can_admit v ≡ true → le w v ≡ true) ws

  find_first :
      (le : ResourceWaiter → ResourceWaiter → Bool) (ws : List ResourceWaiter) (w : ResourceWaiter)
      → ((v : ResourceWaiter) → le v v ≡ true)
      → IsSorted le ws
      → find_admissible can_admit ws ≡ some w
      → IsBest le ws w
  unfolding find_admissible
  find_first le [] w r s h = cc
  find_first le (v ∷ ws) w r s h = elim (Bool-cases (is_admissible can_admit v)) [
    | inl p ↦
        let same : v ≡ w = ground (arith, h) in
        subst (IsBest le (v ∷ ws)) same (p, ((λ _. r v), All-map (λ x e _. e) ws s.0))
    | inr p ↦
        let (ok, rest) = find_first le ws w r s.1 (ground arith) in
        (ok, ((λ q. absurd (true≢false (sym q ∙ p))), rest))
  ]

abbrev pub Refused : (ResourceWaiter → Bool) → PriorityResourceQueue → Type 0
Refused can_admit q = All (λ v. is_admissible can_admit v ≡ false) (Dict.values q.waiters)

-- `w` is admissible, and comes before every other admissible waiter.
abbrev pub Best : (ResourceWaiter → Bool) → ℕ → PriorityResourceQueue → ResourceWaiter → Type 0
Best can_admit now q w =
    (is_admissible can_admit w ≡ true)
    × All
        (λ v. is_admissible can_admit v ≡ true → is_before q.aging_threshold_seconds now w v ≡ true)
        (Dict.values q.waiters)

abbrev pub popped :
    PriorityResourceQueue → ResourceWaiter → PriorityResourceQueue × Option ResourceWaiter
popped q w =
    (record q { waiters = Dict.remove q.waiters w.waiter_id }, some (record w { granted = true }))

pop_cases :
    (can_admit : ResourceWaiter → Bool) (now : ℕ) (q : PriorityResourceQueue)
    (o : Option ResourceWaiter)
    → find_admissible can_admit (sorted_waiters now q) ≡ o
    → (Refused can_admit q × (pop_admissible can_admit now q ≡ (q, none)))
      ⊎ ((w : ResourceWaiter) × (pop_admissible can_admit now q ≡ popped q w)
          × (Best can_admit now q w))
unfolding pop_admissible
pop_cases can_admit now q none e = inl (
  All-of_sorted (is_before q.aging_threshold_seconds now) _ (Dict.values q.waiters)
      (find_refuses can_admit (sorted_waiters now q) e),
  rw (e, take_out),
)
pop_cases can_admit now q (some w) e =
    let threshold = q.aging_threshold_seconds in
    let le = is_before threshold now in
    let (ok, best) =
      find_first can_admit le (sorted_waiters now q) w (is_before_refl threshold now)
        (sorted-IsSorted le (is_before_trans threshold now) (is_before_total threshold now)
          (Dict.values q.waiters))
        e in
    inr (w, rw (e, take_out), (ok, All-of_sorted le _ (Dict.values q.waiters) best))

-- The waiter that is popped is admissible, and comes in the order of (effective priority, sequence)
-- before every other admissible one; it alone is taken out of the queue, and marked as granted. If
-- none is popped, no waiter is admissible and the queue is unchanged.
pub pop-Best :
    (can_admit : ResourceWaiter → Bool) (now : ℕ) (q : PriorityResourceQueue)
    → (Refused can_admit q × (pop_admissible can_admit now q ≡ (q, none)))
      ⊎ ((w : ResourceWaiter) × (pop_admissible can_admit now q ≡ popped q w)
          × (Best can_admit now q w))
pop-Best can_admit now q = pop_cases can_admit now q _ refl

-- What a waiter has waited is its priority times the threshold, or more.
abbrev pub HasAged : ℕ → ℕ → ResourceWaiter → Type 0
HasAged threshold now v = value v.priority * threshold ≤ now - v.created_at

aged_to_zero :
    (threshold now : ℕ) (v : ResourceWaiter)
    → 0 < threshold
    → HasAged threshold now v
    → get_effective_priority v now threshold ≡ 0
unfolding get_effective_priority
aged_to_zero threshold now v t h = elim (Bool-cases (threshold == 0)) [
  | inl p ↦ absurd (ground arith)
  | inr p ↦
      let enough : value v.priority ≤ (now - v.created_at) / threshold =
        (le-div_iff_mul-le t).1 h in
      rw p (omega (arith, enough))
]

key_le_zero : (p s t : ℕ) → key_le p s 0 t ≡ true → s ≤ t
key_le_zero p s t h = ground arith

aged_first :
    (threshold now : ℕ) (w v : ResourceWaiter)
    → 0 < threshold
    → is_before threshold now w v ≡ true
    → HasAged threshold now v
    → w.sequence ≤ v.sequence
unfolding is_before
aged_first threshold now w v t h a =
    key_le_zero (get_effective_priority w now threshold) w.sequence v.sequence
      (rw (aged_to_zero threshold now v t a) at h)

-- No starvation: an admissible waiter that has aged is not overtaken by one that came later.
pub aged_not_overtaken :
    (can_admit : ResourceWaiter → Bool) (now : ℕ) (q : PriorityResourceQueue) (w : ResourceWaiter)
    → 0 < q.aging_threshold_seconds
    → (pop_admissible can_admit now q).1 ≡ some w
    → All
        (λ v.
          is_admissible can_admit v ≡ true
          → HasAged q.aging_threshold_seconds now v
          → w.sequence ≤ v.sequence)
        (Dict.values q.waiters)
aged_not_overtaken can_admit now q w t e = elim (pop-Best can_admit now q) [
  | inl (r, none_left) ↦ absurd (ground (arith, none_left))
  | inr (x, out, (ok, best)) ↦
      let same : x.sequence ≡ w.sequence = ground (arith, out) in
      All-map
        (λ v b adm aged.
          omega (arith, same, aged_first q.aging_threshold_seconds now x v t (b adm) aged))
        (Dict.values q.waiters) best
]
