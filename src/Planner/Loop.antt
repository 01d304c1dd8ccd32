-- ===== src/Planner/Loop.antt =====
-- What the loop of `get_execution_order` (python/tom/agents/planner.py) adds to the order.
use tom.Prelude.{
  ℕ, zero, suc, ◌≤◌, String, ◌≡◌, refl, sym, subst, ap, ◌∙◌, ◌⊎◌, inl, inr, false, Option, none,
  some, List, [], ◌∷◌, ◌++◌, arith, str_eq, eq_iff, All, All-map, Bool-cases,
}
use tom.Dict.{Dict, get, has}
use tom.Executor.State.{PlanStep}
use tom.Planner.Graph.{Queue, dependents, append_step, release, release_all, take_first, drain}
use tom.Planner.Termination.{List-cases}
use tom.Planner.Counts.{count, unless, pending}
use tom.Planner.Invariant.{Holds, first-IsFree, take_first-Holds}
use tom.Planner.Entries.{HasEntries, HasEdges}

-- Each dependency on a step of the plan is one of the steps before.
abbrev pub IsServed : Dict PlanStep → List String → List String → Type 0
IsServed steps done deps = All (λ d. (has steps d ≡ false) ⊎ (1 ≤ count d done)) deps

-- Each step comes after those that it depends on, where some steps are done before all of them.
pub IsOrdered : Dict PlanStep → List String → List PlanStep → Type 0
IsOrdered steps done [] = Unit
IsOrdered steps done (s ∷ ss) =
    IsServed steps done s.dependencies × IsOrdered steps (s.step_id ∷ done) ss

abbrev entries : String → Option (List String) → ℕ
entries j none = 0
entries j (some ks) = count j ks

unless-zero : (m n : ℕ) → unless m n ≡ 0 → 1 ≤ n → 1 ≤ m
unless-zero zero n z h = omega (arith, z)
unless-zero (suc m) n z h = omega arith

-- Where no entry for `j` is left, the steps with an entry for it are done.
entry-done :
    (adj : Dict (List String)) (done : List String) (d j : String)
    → pending adj done j ≡ 0
    → HasEntries 1 adj d j
    → 1 ≤ count d done
unfolding get
entry-done [] done d j z (ks, e, h) = ground arith
entry-done ((i, ls) ∷ adj) done d j z (ks, e, h) = elim (Bool-cases (str_eq i d)) [
  | inl b ↦
      let e' : some ls ≡ some ks = rw b at e in
      subst (λ k. 1 ≤ count k done) ((eq_iff i d).0 b)
        (unless-zero (count i done) (count j ls) (omega (arith, z))
          (omega (arith, h, ap (entries j) e')))
  | inr b ↦ entry-done adj done d j (omega (arith, z)) (ks, rw b at e, h)
]

module _ (index : Dict ℕ) (adj : Dict (List String)) (steps : Dict PlanStep) where
  -- What the graph knows of a step.
  abbrev pub IsStepOf : String → Type 0
  IsStepOf j =
      (s : PlanStep) × (get steps j ≡ some s)
      × (s.step_id ≡ j)
      × HasEdges steps adj j s.dependencies

  release_all-ordered :
      (ks : List String) (q : Queue) → (release_all index ks q).ordered ≡ q.ordered
  unfolding release_all release
  release_all-ordered [] q = refl
  release_all-ordered (k ∷ ks) q = release_all-ordered ks (release index k q)

  edges-IsServed :
      (j : String) (done deps : List String)
      → pending adj done j ≡ 0
      → HasEdges steps adj j deps
      → IsServed steps done deps
  edges-IsServed j done deps z h =
      All-map (λ d x. elim x [ inl b ↦ inl b | inr e ↦ inr (entry-done adj done d j z e) ]) deps h

  append_nil : (xs : List PlanStep) → xs ++ [] ≡ xs
  append_nil [] = refl
  append_nil (x ∷ xs) = ap (λ ys. x ∷ ys) (append_nil xs)

  append_one :
      (xs : List PlanStep) (y : PlanStep) (ys : List PlanStep) → (xs ++ y ∷ []) ++ ys ≡ xs ++ y ∷ ys
  append_one [] y ys = refl
  append_one (x ∷ xs) y ys = ap (λ zs. x ∷ zs) (append_one xs y ys)

  -- What the loop adds to the order.
  abbrev pub Adds : ℕ → List String → Queue → Type 0
  Adds fuel done q =
      (ss : List PlanStep) × ((drain index steps adj fuel q).ordered ≡ q.ordered ++ ss)
      × IsOrdered steps done ss

  take_first-ordered :
      (k : String) (rest : List String) (q : Queue) (s : PlanStep)
      → get steps k ≡ some s
      → (ss xs : List PlanStep) → xs ≡ (take_first index steps adj k rest q).ordered ++ ss
      → xs ≡ q.ordered ++ s ∷ ss
  unfolding take_first
  take_first-ordered k rest q s g ss xs o =
      o
      ∙ ap (λ ys. ys ++ ss)
          (release_all-ordered (dependents (get adj k))
              (record q { ready = rest; ordered = append_step (get steps k) q.ordered })
            ∙ ap (λ o'. append_step o' q.ordered) g)
      ∙ append_one q.ordered s ss

  pub drain-Adds :
      (fuel : ℕ) (done : List String) (q : Queue)
      → ((j : String) → Holds index adj IsStepOf j done [] q)
      → Adds fuel done q
  unfolding drain IsOrdered
  drain-Adds zero done q h = ([], sym (append_nil q.ordered), tt)
  drain-Adds (suc fuel) done q h = elim (List-cases q.ready) [
    | inl e ↦ rw (e, drain) ([], sym (append_nil q.ordered), tt)
    | inr (k, rest, e) ↦
        let (z, n, (s, g, i, edges)) = first-IsFree index adj IsStepOf k rest done q e (h k) in
        let (ss, o, r) =
          drain-Adds fuel (k ∷ done) (take_first index steps adj k rest q)
            (λ j. take_first-Holds index adj IsStepOf k rest done q e steps j n (h j)) in
        rw (e, drain)
          (
            s ∷ ss,
            take_first-ordered k rest q s g ss _ o,
            (
              edges-IsServed k done s.dependencies z edges,
              subst (λ j. IsOrdered steps (j ∷ done) ss) (sym i) r,
            ),
          )
  ]
