-- ===== src/Confirmation/TwoBursts.antt =====
-- Two bursts of prompts in one window: a refusal forgets the prompts before it
-- (`ConfirmationTracker.acquire` of python/tom/security/confirmation.py).
use tom.Prelude.{
  ℕ, zero, suc, ◌+◌, ◌≤◌, ◌<◌, ◌≡◌, refl, sym, ap, Bool, true, false, List, [], ◌∷◌, ◌++◌, arith,
  length-replicate, replicate, All, All-append, subst,
}
use tom.Confirmation.Tracker.{ConfirmationTracker, evict, is_in_cooldown, acquire, acquire_all}
use tom.Confirmation.Bursts.{InWindow}

evict_same : (window now j : ℕ) → 0 < window → evict window now (replicate j now) ≡ replicate j now
unfolding evict
evict_same window now zero h = refl
evict_same window now (suc j) h = ground arith

replicate_snoc : (j now : ℕ) → replicate j now ++ now ∷ [] ≡ replicate (suc j) now
replicate_snoc zero now = refl
replicate_snoc (suc j) now = ap (◌∷◌ now) (replicate_snoc j now)

-- The tracker after `j` prompts at the one time `now`.
abbrev filled : ConfirmationTracker → ℕ → ℕ → ConfirmationTracker
filled t now j = record t { history = replicate j now }

module _ (t : ConfirmationTracker) (now : ℕ) (open_now : t.cooldown_until ≤ now)
    (w : 0 < t.window_seconds) where
  one_more :
      (j : ℕ) → j < t.max_prompts → acquire now (filled t now j) ≡ (filled t now (suc j), true)
  unfolding acquire is_in_cooldown
  one_more j h =
      rw (evict_same t.window_seconds now j w)
        (rw (replicate_snoc j now) (ground (arith, length-replicate j now)))

  no_more :
      acquire now (filled t now t.max_prompts)
      ≡ (record t { history = []; cooldown_until = now + t.cooldown_seconds }, false)
  unfolding acquire is_in_cooldown
  no_more =
      rw (evict_same t.window_seconds now t.max_prompts w)
        (ground (arith, length-replicate t.max_prompts now))

  fill :
      (k j : ℕ)
      → j + k ≡ t.max_prompts
      → acquire_all (replicate k now) (filled t now j)
        ≡ (filled t now t.max_prompts, replicate k true)
  unfolding acquire_all
  fill zero j e = let e' : j ≡ t.max_prompts = omega arith in rw e'
  fill (suc k) j e = rw (one_more j (omega arith)) (rw (fill k (suc j) (omega arith)))

acquire_all-append :
    (xs ys : List ℕ) (t : ConfirmationTracker)
    → (acquire_all (xs ++ ys) t).1 ≡ (acquire_all xs t).1 ++ (acquire_all ys (acquire_all xs t).0).1
unfolding acquire_all
acquire_all-append [] ys t = refl
acquire_all-append (x ∷ xs) ys t =
    ap (◌∷◌ (acquire x t).1) (acquire_all-append xs ys (acquire x t).0)

All-replicate : (P : ℕ → Type 0) (k a : ℕ) → P a → All P (replicate k a)
All-replicate P zero a h = tt
All-replicate P (suc k) a h = (h, All-replicate P k a h)

-- As many requests as the limit at `now`, one more, and as many again when its cooldown has ended.
abbrev pub two_bursts : ConfirmationTracker → ℕ → List ℕ
two_bursts t now =
    replicate t.max_prompts now ++ (now ∷ replicate t.max_prompts (now + t.cooldown_seconds))

module _ (t : ConfirmationTracker) (now : ℕ) (opened : t.cooldown_until ≤ now)
    (w : 0 < t.window_seconds) where
  abbrev cooled : ConfirmationTracker
  cooled = record t { cooldown_until = now + t.cooldown_seconds }

  second_burst :
      (acquire_all
        (now ∷ replicate t.max_prompts (now + t.cooldown_seconds))
        (filled t now t.max_prompts)).1
      ≡ false ∷ replicate t.max_prompts true
  unfolding acquire_all
  second_burst =
      rw (no_more t now opened w)
        (rw (fill cooled (now + t.cooldown_seconds) (omega arith) w t.max_prompts 0 (omega arith)))

  answers_from_empty :
      (acquire_all (two_bursts t now) (filled t now 0)).1
      ≡ replicate t.max_prompts true ++ (false ∷ replicate t.max_prompts true)
  answers_from_empty =
      rw
        (acquire_all-append (replicate t.max_prompts now)
          (now ∷ replicate t.max_prompts (now + t.cooldown_seconds)) (filled t now 0))
        (rw (fill t now opened w t.max_prompts 0 (omega arith))
          (ap (λ (answers : List Bool). replicate t.max_prompts true ++ answers) second_burst))

-- The limit does not hold for every window: from a tracker that remembers no prompt and is not in a
-- cooldown, with a cooldown shorter than the window, both bursts are granted in full and only the
-- request between them is refused, although all of them fall into one window.
pub two_bursts_granted :
    (t : ConfirmationTracker) (now : ℕ)
    → t.history ≡ []
    → t.cooldown_until ≤ now
    → t.cooldown_seconds < t.window_seconds
    → ((acquire_all (two_bursts t now) t).1
        ≡ replicate t.max_prompts true ++ (false ∷ replicate t.max_prompts true))
      × All (InWindow t.window_seconds (now + t.cooldown_seconds)) (two_bursts t now)
two_bursts_granted t now empty opened short =
    let w : 0 < t.window_seconds = omega arith in
    let same : filled t now 0 ≡ t = λ i. record t { history = sym empty i } in
    let later = now + t.cooldown_seconds in
    (
      subst
          (λ x.
            (acquire_all (two_bursts t now) x).1
            ≡ replicate t.max_prompts true ++ (false ∷ replicate t.max_prompts true))
          same (answers_from_empty t now opened w),
      All-append (InWindow t.window_seconds later) (replicate t.max_prompts now)
          (now ∷ replicate t.max_prompts later)
          (All-replicate (InWindow t.window_seconds later) t.max_prompts now (omega arith))
          (
            omega arith,
            All-replicate (InWindow t.window_seconds later) t.max_prompts later (omega arith),
          ),
    )
