-- ===== src/LoopDetector/ToolCalls.antt =====
-- Which sequences of tool calls the detector takes for a loop
-- (`LoopDetector.record_tool_call` of python/tom/agents/loop_detector.py).

use tom.Prelude.{
  ℕ, suc, ◌+◌, ◌≤◌, ◌<◌, String, ◌≡◌, refl, sym, ap, ◌∙◌, ◌⊎◌, inl, inr, Bool, true, false, ◌&&◌,
  ◌||◌, not, Option, none, some, List, map, [], ◌∷◌, ◌++◌, leb, str_eq, eq_iff, arith,
  if◌then◌else◌, length, All, Bool-cases,
}
use tom.LoopDetector.Defs.{
  LoopDetector, ToolSig, normalize_parameters, normalize_observation, new, at_least_two,
  record_tool_call, is_loop_detected,
}

-- A call by its fingerprints, and whether it succeeded.
pub record ToolCall : Type 0 where
  pub sig : ToolSig
  pub outcome : String
  pub success : Bool

-- The fingerprints of a call's parameters and outcome, with which `record_tool_call` begins.
unfoldable pub fingerprint {ℓ κ} :
    {P : Type ℓ} {O : Type κ}
    → (P → Bool)
    → (P → String)
    → (O → String)
    → String
    → Option P
    → Option O
    → Bool
    → ToolCall
unfolding normalize_parameters normalize_observation
fingerprint is_empty params_digest outcome_digest tool_name parameters outcome success = record {
  sig = (tool_name, normalize_parameters is_empty params_digest parameters);
  outcome = normalize_observation outcome_digest outcome;
  success = success;
}

unfoldable pub record_calls : List ToolCall → LoopDetector → LoopDetector
record_calls [] d = d
record_calls (c ∷ cs) d = record_calls cs (record_tool_call c.sig c.outcome c.success d)

-- `y` calls the same tool with the same parameters as `c`, and fails or has the outcome of `c`.
unfoldable pub repeats : ToolCall → ToolCall → Bool
repeats c y =
    (str_eq c.sig.0 y.sig.0 && str_eq c.sig.1 y.sig.1)
    && (not y.success || str_eq c.outcome y.outcome)

-- The run that ends with the latest call: how long it is, and its first call.
extend : ToolCall → Option (ℕ × ToolCall) → ℕ × ToolCall
extend y none = (1, y)
extend y (some (n, c)) = if repeats c y then (suc n, c) else (1, y)

-- Over the calls with the latest first.
streak : List ToolCall → Option (ℕ × ToolCall)
streak [] = none
streak (y ∷ hs) = some (extend y (streak hs))

streak_length : Option (ℕ × ToolCall) → ℕ
streak_length none = 0
streak_length (some (n, c)) = n

reached : ℕ → List ToolCall → Bool
reached t [] = false
reached t (y ∷ hs) = leb t (streak_length (streak (y ∷ hs))) || reached t hs

abbrev sig_of : Option (ℕ × ToolCall) → Option ToolSig
sig_of none = none
sig_of (some (n, c)) = some c.sig

abbrev outcome_of : Option (ℕ × ToolCall) → Option String
outcome_of none = none
outcome_of (some (n, c)) = some c.outcome

record Tracks (t : ℕ) (hs : List ToolCall) (d : LoopDetector) : Type 0 where
  threshold : d.tool_threshold ≡ t
  last_sig : d.last_tool_sig ≡ sig_of (streak hs)
  last_outcome : d.last_outcome_sig ≡ outcome_of (streak hs)
  counted : d.consecutive_tool_count ≡ streak_length (streak hs)
  found : is_loop_detected d ≡ reached t hs

Tracks-step :
    (t : ℕ) (y : ToolCall) (hs : List ToolCall) (d : LoopDetector) (o : Option (ℕ × ToolCall))
    → streak hs ≡ o
    → Tracks t hs d
    → Tracks t (y ∷ hs) (record_tool_call y.sig y.outcome y.success d)
unfolding record_tool_call streak extend streak_length reached is_loop_detected repeats
Tracks-step t y hs d none e h = ground arith
Tracks-step t y hs d (some (n, c)) e h = ground arith

-- The calls with the latest first, on top of those before.
unfoldable pub history : List ToolCall → List ToolCall → List ToolCall
history [] hs = hs
history (c ∷ cs) hs = history cs (c ∷ hs)

record_calls-Tracks :
    (t : ℕ) (cs hs : List ToolCall) (d : LoopDetector)
    → Tracks t hs d
    → Tracks t (history cs hs) (record_calls cs d)
unfolding record_calls history
record_calls-Tracks t [] hs d h = h
record_calls-Tracks t (c ∷ cs) hs d h =
    record_calls-Tracks t cs (c ∷ hs) _ (Tracks-step t c hs d (streak hs) refl h)

new-Tracks : (n k : ℕ) → Tracks (at_least_two n) [] (new n k)
unfolding new streak streak_length reached is_loop_detected
new-Tracks n k = record {
  threshold = refl;
  last_sig = refl;
  last_outcome = refl;
  counted = refl;
  found = refl;
}

-- Somewhere, with the latest calls first, stand calls that repeat one call `c`, right after it, and
-- with it are at least `t`.
abbrev pub HasRepetition : ℕ → List ToolCall → Type 0
HasRepetition t hs =
    (xs ys zs : List ToolCall) × (c : ToolCall) × (hs ≡ xs ++ (ys ++ (c ∷ zs)))
    × (t ≤ suc (length ys))
    × All (λ y. repeats c y ≡ true) ys

abbrev Begins : List ToolCall → ℕ → ToolCall → Type 0
Begins hs n c =
    (ys zs : List ToolCall) × (hs ≡ ys ++ (c ∷ zs))
    × (suc (length ys) ≡ n)
    × All (λ y. repeats c y ≡ true) ys

abbrev Explains : List ToolCall → Option (ℕ × ToolCall) → Type 0
Explains hs none = Unit
Explains hs (some (n, c)) = Begins hs n c

extend-Begins :
    (y : ToolCall) (hs : List ToolCall) (o : Option (ℕ × ToolCall))
    → Explains hs o
    → Begins (y ∷ hs) (extend y o).0 (extend y o).1
unfolding extend
extend-Begins y hs none b = ([], hs, refl, refl, tt)
extend-Begins y hs (some (n, c)) b = elim (Bool-cases (repeats c y)) [
  | inl p ↦ let (ys, zs, e, l, a) = b in rw p (y ∷ ys, zs, ap (◌∷◌ y) e, ap suc l, (p, a))
  | inr p ↦ rw p ([], hs, refl, refl, tt)
]

streak-Begins : (hs : List ToolCall) → Explains hs (streak hs)
unfolding streak
streak-Begins [] = tt
streak-Begins (y ∷ hs) = extend-Begins y hs (streak hs) (streak-Begins hs)

reached-HasRepetition : (t : ℕ) (hs : List ToolCall) → reached t hs ≡ true → HasRepetition t hs
unfolding reached streak streak_length
reached-HasRepetition t [] h = cc
reached-HasRepetition t (y ∷ hs) h = elim (Bool-cases (leb t (extend y (streak hs)).0)) [
  | inl p ↦
      let (ys, zs, e, l, a) = extend-Begins y hs (streak hs) (streak-Begins hs) in
      ([], ys, zs, (extend y (streak hs)).1, e, ground arith, a)
  | inr p ↦
      let (xs, ys, zs, c, e, l, a) = reached-HasRepetition t hs (ground arith) in
      (y ∷ xs, ys, zs, c, ap (◌∷◌ y) e, l, a)
]

-- No false alarm: if a loop is reported after a sequence of tool calls on a new detector, then
-- somewhere in it a call was followed, without a break, by calls of the same tool with the same
-- parameters each of which failed or gave the outcome of that first call, and these calls together
-- are at least as many as the threshold.
pub detected-HasRepetition :
    (n k : ℕ) (cs : List ToolCall)
    → is_loop_detected (record_calls cs (new n k)) ≡ true
    → HasRepetition (at_least_two n) (history cs [])
detected-HasRepetition n k cs h =
    let t = record_calls-Tracks (at_least_two n) cs [] (new n k) (new-Tracks n k) in
    reached-HasRepetition (at_least_two n) (history cs []) (sym t.found ∙ h)

-- A failed call with the signature `s`.
abbrev pub failing : ToolSig → String → ToolCall
failing s outcome = record { sig = s; outcome = outcome; success = false }

-- What one failed call does to the detector.
record FailedCall (s : ToolSig) (d d' : LoopDetector) : Type 0 where
  sig : d'.last_tool_sig ≡ some s
  threshold : d'.tool_threshold ≡ d.tool_threshold
  positive : 0 < d'.consecutive_tool_count
  grows : d.last_tool_sig ≡ some s → d'.consecutive_tool_count ≡ suc d.consecutive_tool_count
  reports : d.tool_threshold ≤ d'.consecutive_tool_count → is_loop_detected d' ≡ true

record_failing :
    (s : ToolSig) (o : String) (d : LoopDetector) (last : Option ToolSig)
    → d.last_tool_sig ≡ last
    → 0 < d.consecutive_tool_count ⊎ (last ≡ none)
    → FailedCall s d (record_tool_call s o false d)
unfolding record_tool_call is_loop_detected
record_failing s o d none e p = ground arith
record_failing s o d (some t) e p = ground (arith, eq_iff t.0 s.0, eq_iff t.1 s.1)

record_failures :
    (s : ToolSig) (os : List String) (d : LoopDetector)
    → d.last_tool_sig ≡ some s
    → 0 < d.consecutive_tool_count
    → 0 < length os
    → d.tool_threshold ≤ d.consecutive_tool_count + length os
    → is_loop_detected (record_calls (map (failing s) os) d) ≡ true
unfolding record_calls
record_failures s [] d e p q h = absurd (omega arith)
record_failures s (o ∷ []) d e p q h =
    let f = record_failing s o d (some s) e (inl p) in f.reports (omega (arith, f.grows e))
record_failures s (o ∷ o' ∷ os) d e p q h =
    let f = record_failing s o d (some s) e (inl p) in
    record_failures s (o' ∷ os) (record_tool_call s o false d) f.sig f.positive (omega arith)
      (omega (arith, f.grows e, f.threshold))

streak_positive : (hs : List ToolCall) → 0 < streak_length (streak hs) ⊎ (sig_of (streak hs) ≡ none)
unfolding streak streak_length extend
streak_positive [] = inr refl
streak_positive (y ∷ hs) = inl (go (streak hs))
  where
    go : (o : Option (ℕ × ToolCall)) → 0 < (extend y o).0
    go none = omega arith
    go (some (n, c)) = ground arith

-- No missed repetition of failures: whatever calls came before on a new detector, once a call with
-- the same tool and the same parameters has failed as often in a row as the threshold, whatever the
-- errors, a loop is reported.
pub failures_detected :
    (n k : ℕ) (cs : List ToolCall) (s : ToolSig) (os : List String)
    → at_least_two n ≤ length os
    → is_loop_detected (record_calls (map (failing s) os) (record_calls cs (new n k))) ≡ true
unfolding record_calls
failures_detected n k cs s [] h = absurd (ground arith)
failures_detected n k cs s (o ∷ []) h = absurd (ground arith)
failures_detected n k cs s (o ∷ o' ∷ os) h =
    let d = record_calls cs (new n k) in
    let t = record_calls-Tracks (at_least_two n) cs [] (new n k) (new-Tracks n k) in
    let hs = history cs [] in
    let f =
      record_failing s o d (sig_of (streak hs)) t.last_sig (rw t.counted (streak_positive hs)) in
    record_failures s (o' ∷ os) (record_tool_call s o false d) f.sig f.positive (omega arith)
      (omega (arith, f.threshold, t.threshold, f.positive))
