-- ===== src/Planner/Entries.antt =====
-- The writes to the dictionaries of `get_execution_order` (python/tom/agents/planner.py).
use tom.Prelude.{
  ℕ, ◌+◌, ◌≤◌, String, ◌≡◌, refl, subst, ap, ◌∙◌, ◌⊎◌, inl, inr, false, none, some, List, [], ◌∷◌,
  ◌++◌, arith, ℤ, pos, negsuc, str_eq, eq_iff, eq_refl, All, Bool-cases, Option-cases,
}
use tom.Dict.{Dict, get, has, put, get-put}
use tom.Executor.State.{PlanStep}
use tom.Planner.Graph.{modify, increment}
use tom.Planner.Counts.{hit, count, count-append, pending}
use tom.Planner.Invariant.{IsCovered}

-- At least `n` entries for `j` stand in the list of `d`.
abbrev pub HasEntries : ℕ → Dict (List String) → String → String → Type 0
HasEntries n adj d j = (ks : List String) × (get adj d ≡ some ks) × (n ≤ count j ks)

-- Every dependency on a step of the plan is an entry.
abbrev pub HasEdges : Dict PlanStep → Dict (List String) → String → List String → Type 0
HasEdges steps adj j deps = All (λ d. (has steps d ≡ false) ⊎ HasEntries 1 adj d j) deps

pub hit_other : (k j : String) → str_eq k j ≡ false → hit j k ≡ 0
hit_other k j e = rw e refl

pub modify-same :
    (n : ℕ) (adj : Dict (List String)) (k j s : String)
    → HasEntries n adj k j
    → HasEntries (n + hit j s) (modify adj k (λ ks. ks ++ s ∷ [])) k j
unfolding modify
modify-same n adj k j s (ks, e, h) =
    rw (e, modify, get-put adj k k (ks ++ s ∷ []), eq_refl k)
      (ks ++ s ∷ [], refl, omega (arith, h, count-append j ks (s ∷ [])))

pub HasEntries-less :
    (m n : ℕ) (adj : Dict (List String)) (d j : String)
    → n ≤ m
    → HasEntries m adj d j
    → HasEntries n adj d j
HasEntries-less m n adj d j l (ks, e, h) = (ks, e, omega arith)

modify-other :
    (n : ℕ) (adj : Dict (List String)) (d j k s : String)
    → str_eq k d ≡ false
    → HasEntries n adj d j
    → HasEntries n (modify adj k (λ ks. ks ++ s ∷ [])) d j
unfolding modify
modify-other n adj d j k s b (ks, e, h) = elim (Option-cases (get adj k)) [
  | inl g ↦ rw (g, modify) (ks, e, h)
  | inr (ls, g) ↦ rw (g, modify, get-put adj k d (ls ++ s ∷ []), b) (ks, e, h)
]

pub modify-HasEntries :
    (n : ℕ) (adj : Dict (List String)) (d j k s : String)
    → HasEntries n adj d j
    → HasEntries n (modify adj k (λ ks. ks ++ s ∷ [])) d j
modify-HasEntries n adj d j k s h = elim (Bool-cases (str_eq k d)) [
  | inl e ↦
      subst (λ i. HasEntries n adj i j → HasEntries n (modify adj k (λ ks. ks ++ s ∷ [])) i j)
        ((eq_iff k d).0 e)
        (λ g. HasEntries-less _ n _ k j (omega arith) (modify-same n adj k j s g)) h
  | inr e ↦ modify-other n adj d j k s e h
]

pending-put :
    (adj : Dict (List String)) (k j : String) (ks ls : List String)
    → get adj k ≡ some ks
    → pending (put adj k ls) [] j + count j ks ≡ pending adj [] j + count j ls
unfolding get put
pending-put [] k j ks ls h = ground arith
pending-put ((i, ms) ∷ adj) k j ks ls h = ground (arith, ap (count j), pending-put adj k j ks ls)

pub pending-modify :
    (adj : Dict (List String)) (k s j : String)
    → pending (modify adj k (λ ks. ks ++ s ∷ [])) [] j ≤ pending adj [] j + hit j s
unfolding modify
pending-modify adj k s j = elim (Option-cases (get adj k)) [
  | inl g ↦ rw (g, modify) (omega arith)
  | inr (ls, g) ↦
      rw (g, modify)
        (omega (arith, pending-put adj k j ls (ls ++ s ∷ []) g, count-append j ls (s ∷ [])))
]

increment-IsCovered :
    (v : ℤ) (m n : ℕ) → n ≤ m + 1 → IsCovered (some v) m → IsCovered (some (increment v)) n
unfolding increment
increment-IsCovered (pos i) m n l h = omega arith
increment-IsCovered (negsuc i) m n l h = absurd h

pub degree-same :
    (d : Dict ℤ) (k : String) (m n : ℕ)
    → n ≤ m + 1
    → IsCovered (get d k) m
    → IsCovered (get (modify d k increment) k) n
unfolding modify
degree-same d k m n l h = elim (Option-cases (get d k)) [
  | inl e ↦ rw (e, modify, e) tt
  | inr (v, e) ↦
      let h' : IsCovered (some v) m = rw e at h in
      rw (e, modify, get-put d k k (increment v), eq_refl k) (increment-IsCovered v m n l h')
]

pub degree-other :
    {V : Type 0} (d : Dict V) (k j : String) (f : V → V)
    → str_eq k j ≡ false
    → get (modify d k f) j ≡ get d j
unfolding modify
degree-other d k j f b = elim (Option-cases (get d k)) [
  | inl e ↦ rw (e, modify) refl
  | inr (v, e) ↦ rw (e, modify, get-put d k j (f v), b) refl
]

pub modify-none :
    {V : Type 0} (d : Dict V) (k j : String) (f : V → V)
    → get d j ≡ none
    → get (modify d k f) j ≡ none
unfolding modify
modify-none d k j f h = elim (Bool-cases (str_eq k j)) [
  | inl e ↦
      subst (λ i. get d i ≡ none → get (modify d k f) i ≡ none) ((eq_iff k j).0 e)
        (λ z. rw (z, modify, z) refl) h
  | inr e ↦ degree-other d k j f e ∙ h
]
