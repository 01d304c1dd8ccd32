-- ===== src/LoopDetector/Observations.antt =====
-- Which sequences of observations the detector takes for a loop
-- (`LoopDetector.record_observation` of python/tom/agents/loop_detector.py).
use tom.Prelude.{
  ℕ, zero, suc, ◌≤◌, ◌<◌, String, ◌≡◌, refl, ap, ◌∙◌, inl, inr, ◌↔◌, Bool, true, false, ◌||◌,
  Option, none, some, List, map, [], ◌∷◌, ◌++◌, leb, str_eq, eq_iff, eq_refl, arith, if◌then◌else◌,
  replicate, Bool-cases,
}
use tom.LoopDetector.Defs.{
  LoopDetector, new, at_least_two, record_observation, is_loop_detected, normalize_observation,
}

-- A sequence of observations, the earliest first.
unfoldable pub record_all : List String → LoopDetector → LoopDetector
record_all [] d = d
record_all (s ∷ ss) d = record_all ss (record_observation s d)

-- The recorded signatures, the latest first, on top of those before.
unfoldable pub history : List String → List String → List String
history [] hs = hs
history (s ∷ ss) hs = history ss (if str_eq s "" then hs else s ∷ hs)

-- How many of the next signatures are `s`.
same_prefix : String → List String → ℕ
same_prefix s [] = 0
same_prefix s (t ∷ hs) = if str_eq t s then suc (same_prefix s hs) else 0

run_length : List String → ℕ
run_length [] = 0
run_length (s ∷ hs) = suc (same_prefix s hs)

-- Whether the latest run was `t` long at some moment.
reached : ℕ → List String → Bool
reached t [] = false
reached t (s ∷ hs) = leb t (run_length (s ∷ hs)) || reached t hs

abbrev latest : List String → Option String
latest [] = none
latest (s ∷ hs) = some s

record Tracks (t : ℕ) (hs : List String) (d : LoopDetector) : Type 0 where
  threshold : d.observation_threshold ≡ t
  last : d.last_obs_sig ≡ latest hs
  counted : d.consecutive_obs_count ≡ run_length hs
  found : is_loop_detected d ≡ reached t hs

record-Tracks :
    (t : ℕ) (s : String) (hs : List String) (d : LoopDetector)
    → Tracks t hs d
    → Tracks t (if str_eq s "" then hs else s ∷ hs) (record_observation s d)
unfolding record_observation run_length same_prefix reached is_loop_detected
record-Tracks t s [] d h = ground arith
record-Tracks t s (r ∷ hs) d h = ground (arith, eq_iff r s)

record_all-Tracks :
    (t : ℕ) (ss hs : List String) (d : LoopDetector)
    → Tracks t hs d
    → Tracks t (history ss hs) (record_all ss d)
unfolding record_all history
record_all-Tracks t [] hs d h = h
record_all-Tracks t (s ∷ ss) hs d h =
    record_all-Tracks t ss _ (record_observation s d) (record-Tracks t s hs d h)

new-Tracks : (n k : ℕ) → Tracks (at_least_two k) [] (new n k)
unfolding new run_length reached is_loop_detected
new-Tracks n k = record { threshold = refl; last = refl; counted = refl; found = refl }

-- Somewhere in the list stand `t` equal items in a row.
abbrev pub HasRun : ℕ → List String → Type 0
HasRun t hs = (xs ys : List String) × (s : String) × (hs ≡ xs ++ (replicate t s ++ ys))

same_prefix_split :
    (k : ℕ) (s : String) (hs : List String)
    → k ≤ same_prefix s hs
    → (ys : List String) × (hs ≡ replicate k s ++ ys)
unfolding same_prefix
same_prefix_split zero s hs h = (hs, refl)
same_prefix_split (suc k) s [] h = absurd (omega arith)
same_prefix_split (suc k) s (r ∷ hs) h = elim (Bool-cases (str_eq r s)) [
  | inl p ↦
      let (ys, eq) = same_prefix_split k s hs (ground arith) in (ys, ground (arith, eq_iff r s))
  | inr p ↦ absurd (ground arith)
]

reached-HasRun : (t : ℕ) (hs : List String) → reached (suc t) hs ≡ true → HasRun (suc t) hs
unfolding reached run_length
reached-HasRun t [] h = cc
reached-HasRun t (s ∷ hs) h = elim (Bool-cases (leb (suc t) (run_length (s ∷ hs)))) [
  | inl p ↦ let (ys, eq) = same_prefix_split t s hs (ground arith) in ([], ys, s, ap (◌∷◌ s) eq)
  | inr p ↦
      let (xs, ys, r, eq) = reached-HasRun t hs (ground arith) in (s ∷ xs, ys, r, ap (◌∷◌ s) eq)
]

same_prefix-replicate :
    (k : ℕ) (s : String) (ys : List String) → k ≤ same_prefix s (replicate k s ++ ys)
unfolding same_prefix
same_prefix-replicate zero s ys = omega arith
same_prefix-replicate (suc k) s ys = rw (eq_refl s) (omega (arith, same_prefix-replicate k s ys))

reached_run :
    (t : ℕ) (s : String) (xs ys : List String)
    → reached (suc t) (xs ++ (replicate (suc t) s ++ ys)) ≡ true
unfolding reached run_length
reached_run t s [] ys = ground (arith, same_prefix-replicate t s ys)
reached_run t s (x ∷ xs) ys = ground (arith, reached_run t s xs ys)

reached_iff : (t : ℕ) (hs : List String) → 0 < t → (reached t hs ≡ true) ↔ HasRun t hs
reached_iff zero hs h = absurd (omega arith)
reached_iff (suc t) hs h = (
  reached-HasRun t hs,
  λ r. let (xs, ys, s, eq) = r in ap (reached (suc t)) eq ∙ reached_run t s xs ys,
)

-- From a new detector and after any sequence of observations, a loop is reported exactly when, among
-- the observations with a non-empty fingerprint, as many in a row as the threshold, which is at
-- least two, have the same one.
pub observations_detected {ℓ} :
    {O : Type ℓ} (digest : O → String) (n k : ℕ) (os : List (Option O))
    → let ss = map (normalize_observation digest) os in
      (is_loop_detected (record_all ss (new n k)) ≡ true) ↔ HasRun (at_least_two k) (history ss [])
observations_detected digest n k os =
    let ss = map (normalize_observation digest) os in
    let h = record_all-Tracks (at_least_two k) ss [] (new n k) (new-Tracks n k) in
    rw h.found (reached_iff (at_least_two k) (history ss []) (ground arith))
