-- ===== src/Planner/Counts.antt =====
-- How often an identifier stands in a list, and how many steps it still waits for, for the loop of
-- `get_execution_order` (python/tom/agents/planner.py).
use tom.Prelude.{
  ℕ, zero, suc, ◌+◌, ◌≤◌, String, ◌≡◌, refl, inl, inr, Bool, List, [], ◌∷◌, ◌++◌, arith, str_eq,
  eq_iff, eq_refl, if◌then◌else◌, Bool-cases,
}
use tom.Dict.{Dict, get}
use tom.Sorting.{insert, sorted}
use tom.Planner.Graph.{dependents}

abbrev pub hit : String → String → ℕ
hit j k = if str_eq k j then 1 else 0

pub hit_self : (k : String) → hit k k ≡ 1
hit_self k = rw (eq_refl k) refl

abbrev pub count : String → List String → ℕ
count j [] = 0
count j (k ∷ ks) = hit j k + count j ks

pub count-append : (j : String) (xs ys : List String) → count j (xs ++ ys) ≡ count j xs + count j ys
count-append j [] ys = omega arith
count-append j (x ∷ xs) ys = omega (arith, count-append j xs ys)

count-insert :
    (le : String → String → Bool) (j x : String) (xs : List String)
    → count j (insert le x xs) ≡ hit j x + count j xs
unfolding insert
count-insert le j x [] = refl
count-insert le j x (y ∷ ys) = elim (Bool-cases (le x y)) [
  | inl e ↦ rw e refl
  | inr e ↦ rw e (omega (arith, count-insert le j x ys))
]

pub count-sorted :
    (le : String → String → Bool) (j : String) (xs : List String)
    → count j (sorted le xs) ≡ count j xs
unfolding sorted
count-sorted le j [] = refl
count-sorted le j (x ∷ xs) = omega (arith, count-insert le j x (sorted le xs), count-sorted le j xs)

abbrev pub unless : ℕ → ℕ → ℕ
unless zero n = n
unless (suc m) n = 0

-- The entries for a step in the lists of the steps that are not done.
abbrev pub pending : Dict (List String) → List String → String → ℕ
pending [] done j = 0
pending ((d, ks) ∷ adj) done j = unless (count d done) (count j ks) + pending adj done j

pending-done :
    (adj : Dict (List String)) (done : List String) (k j : String)
    → pending adj (k ∷ done) j ≤ pending adj done j
pending-done [] done k j = omega arith
pending-done ((d, ks) ∷ adj) done k j = ground (arith, pending-done adj done k j)

-- A step that gets done takes its own list out.
pub pending-dependents :
    (adj : Dict (List String)) (done : List String) (k j : String)
    → count k done ≡ 0
    → pending adj (k ∷ done) j + count j (dependents (get adj k)) ≤ pending adj done j
unfolding get
pending-dependents [] done k j h = omega arith
pending-dependents ((d, ks) ∷ adj) done k j h =
    ground (arith, eq_iff d k, pending-done adj done k j, pending-dependents adj done k j h)
