-- ===== src/Confirmation/Examples.antt =====
-- The theorems about the rate limit at the default limit: 5 prompts in 30 s, then 10 s of cooldown.
use tom.Prelude.{ℕ, ◌≤◌, ◌≡◌, refl, true, false, List, [], ◌∷◌, ◌++◌, arith, All, length, replicate}
use tom.Confirmation.Tracker.{ConfirmationTracker, new, acquire, acquire_all}
use tom.Confirmation.Bursts.{InWindow, burst_bound}
use tom.Confirmation.TwoBursts.{two_bursts, two_bursts_granted}

abbrev fresh : ConfirmationTracker
fresh = record {
  max_prompts = 5;
  window_seconds = 30;
  cooldown_seconds = 10;
  history = [];
  cooldown_until = 0;
}

fresh-new : new 5 30 10 ≡ fresh
unfolding new
fresh-new = refl

abbrev times : List ℕ
times = 100 ∷ 101 ∷ 105 ∷ 110 ∷ 129 ∷ []

burst_bound_example : length times ≤ 5
burst_bound_example =
    burst_bound fresh 129 times (omega arith)
      (unfold acquire_all acquire in (refl, (refl, (refl, (refl, (refl, tt))))))

abbrev busy : ConfirmationTracker
busy = record fresh { history = times }

two_bursts_granted_example :
    ((acquire_all (two_bursts fresh 100) fresh).1 ≡ replicate 5 true ++ (false ∷ replicate 5 true))
    × All (InWindow 30 110) (two_bursts fresh 100)
two_bursts_granted_example = two_bursts_granted fresh 100 refl (omega arith) (omega arith)
