-- ===== src/Confirmation/Tracker.antt =====
-- `ConfirmationTracker` (python/tom/security/confirmation.py). Its lock makes `acquire` one step.
-- Times and durations are whole ticks of the injectable clock, and their arithmetic is exact.
use tom.Prelude.{ℕ, ◌+◌, Bool, true, false, List, [], ◌∷◌, ◌++◌, leb, ltb, if◌then◌else◌, length}

-- `history` holds the times of the prompts, the earliest first.
pub record ConfirmationTracker : Type 0 where
  pub max_prompts : ℕ
  pub window_seconds : ℕ
  pub cooldown_seconds : ℕ
  pub history : List ℕ
  pub cooldown_until : ℕ

unfoldable pub new : ℕ → ℕ → ℕ → ConfirmationTracker
new max_prompts window_seconds cooldown_seconds = record {
  max_prompts = max_prompts;
  window_seconds = window_seconds;
  cooldown_seconds = cooldown_seconds;
  history = [];
  cooldown_until = 0;
}

unfoldable pub is_in_cooldown : ConfirmationTracker → ℕ → Bool
is_in_cooldown t now = ltb now t.cooldown_until

-- The `while` loop that drops from the front what is not after `now - window`.
unfoldable pub evict : ℕ → ℕ → List ℕ → List ℕ
evict window now [] = []
evict window now (h ∷ hs) = if leb (h + window) now then evict window now hs else h ∷ hs

unfoldable pub acquire : ℕ → ConfirmationTracker → ConfirmationTracker × Bool
unfolding evict is_in_cooldown
acquire now t =
    if is_in_cooldown t now
    then (t, false)
    else let history = evict t.window_seconds now t.history in
      if leb t.max_prompts (length history)
      then (record t { history = []; cooldown_until = now + t.cooldown_seconds }, false)
      else (record t { history = history ++ now ∷ [] }, true)

unfoldable pub reset : ConfirmationTracker → ConfirmationTracker
reset t = record t { history = []; cooldown_until = 0 }

-- Requests at the given times, in order, and their answers.
unfoldable pub acquire_all : List ℕ → ConfirmationTracker → ConfirmationTracker × List Bool
acquire_all [] t = (t, [])
acquire_all (now ∷ times) t =
    let (t', answer) = acquire now t in
    let (t'', answers) = acquire_all times t' in (t'', answer ∷ answers)
