-- ===== src/Confirmation/Bursts.antt =====
-- How many prompts the tracker lets through, and when it does not
-- (`ConfirmationTracker.acquire` of python/tom/security/confirmation.py).
use mathlib.Core.List.{append_assoc, append-nil}
use tom.Prelude.{
  ℕ, suc, ◌+◌, ◌≤◌, ◌<◌, ◌≡◌, refl, sym, ap, ◌∙◌, inl, inr, true, false, List, [], ◌∷◌, ◌++◌, arith,
  leb, All-map, subst, length, length-append, replicate, All, All-append, Bool-cases,
}
use tom.Confirmation.Tracker.{ConfirmationTracker, evict, is_in_cooldown, acquire, acquire_all}

-- Eviction stops at the latest at prompts that are inside the window.
evict-append :
    (window now : ℕ) (xs gs : List ℕ)
    → All (λ g. now < g + window) gs
    → (ys : List ℕ) × (evict window now (xs ++ gs) ≡ ys ++ gs)
unfolding evict
evict-append window now [] [] h = ([], refl)
evict-append window now [] (g ∷ gs) h = ([], ground arith)
evict-append window now (x ∷ xs) gs h = elim (Bool-cases (leb (x + window) now)) [
  | inl p ↦ let (ys, e) = evict-append window now xs gs h in (ys, rw p e)
  | inr p ↦ (x ∷ xs, rw p)
]

abbrev pub InWindow : ℕ → ℕ → ℕ → Type 0
InWindow window last t = (t ≤ last) × (last < t + window)

abbrev kept : ℕ → ConfirmationTracker → List ℕ
kept now t = evict t.window_seconds now t.history

-- What a granted request says of the tracker.
grant_inv :
    (now : ℕ) (t : ConfirmationTracker)
    → (acquire now t).1 ≡ true
    → ((acquire now t).0 ≡ record t { history = kept now t ++ now ∷ [] })
      × (length (kept now t) < t.max_prompts)
unfolding acquire
grant_inv now t h = ground arith

-- A request that is granted appends to the prompts in the window, which were fewer than the limit.
granted :
    (now last : ℕ) (t : ConfirmationTracker) (xs gs : List ℕ)
    → t.history ≡ xs ++ gs
    → now ≤ last
    → All (InWindow t.window_seconds last) gs
    → (acquire now t).1 ≡ true
    → (ys : List ℕ) × ((acquire now t).0 ≡ record t { history = ys ++ (gs ++ now ∷ []) })
      × (suc (length gs) ≤ t.max_prompts)
granted now last t xs gs e le inside h =
    let (same, room) = grant_inv now t h in
    let live = All-map {Q = λ g. now < g + t.window_seconds} (λ g p. omega arith) gs inside in
    let (ys, cut) = evict-append t.window_seconds now xs gs live in
    let cut' : kept now t ≡ ys ++ gs = ap (evict t.window_seconds now) e ∙ cut in
    (
      ys,
      same
          ∙ ap (λ (hs : List ℕ). record t { history = hs })
              (ap (λ (hs : List ℕ). hs ++ now ∷ []) cut' ∙ append_assoc ys gs (now ∷ [])),
      omega (arith, ap length cut', length-append ys gs),
    )

burst :
    (last : ℕ) (times : List ℕ) (t : ConfirmationTracker) (xs gs : List ℕ)
    → t.history ≡ xs ++ gs
    → All (InWindow t.window_seconds last) gs
    → All (InWindow t.window_seconds last) times
    → All (λ answer. answer ≡ true) (acquire_all times t).1
    → length gs ≤ t.max_prompts
    → length gs + length times ≤ t.max_prompts
unfolding acquire_all
burst last [] t xs gs e inside times_in yes_all le = omega arith
burst last (now ∷ times) t xs gs e inside times_in yes_all le =
    let (ys, same, room) = granted now last t xs gs e times_in.0.0 inside yes_all.0 in
    let t' : ConfirmationTracker = record t { history = ys ++ (gs ++ now ∷ []) } in
    let rest =
      burst last times t' ys (gs ++ now ∷ []) refl
        (All-append (InWindow t.window_seconds last) gs (now ∷ []) inside (times_in.0, tt))
        times_in.1
        (subst (λ x. All (λ answer. answer ≡ true) (acquire_all times x).1) same yes_all.1)
        (omega (arith, length-append gs (now ∷ []))) in
    omega (arith, rest, length-append gs (now ∷ []))

-- Whatever the tracker's state, at most `max_prompts` requests that are granted one after another,
-- without a refusal between them, fall into one window that ends at any time `last`.
pub burst_bound :
    (t : ConfirmationTracker) (last : ℕ) (times : List ℕ)
    → All (InWindow t.window_seconds last) times
    → All (λ answer. answer ≡ true) (acquire_all times t).1
    → length times ≤ t.max_prompts
burst_bound t last times inside yes_all =
    let none_yet = burst last times t t.history [] (sym (append-nil t.history)) tt inside yes_all in
    omega (arith, none_yet (omega arith))

refusal :
    (now : ℕ) (t : ConfirmationTracker)
    → is_in_cooldown t now ≡ false
    → (acquire now t).1 ≡ false
    → (acquire now t).0 ≡ record t { history = []; cooldown_until = now + t.cooldown_seconds }
unfolding acquire
refusal now t c h = ground arith

cooling : (now : ℕ) (t : ConfirmationTracker) → now < t.cooldown_until → acquire now t ≡ (t, false)
unfolding acquire is_in_cooldown
cooling now t h = ground arith

cooldown_holds :
    (times : List ℕ) (t : ConfirmationTracker)
    → All (λ time. time < t.cooldown_until) times
    → acquire_all times t ≡ (t, replicate (length times) false)
unfolding acquire_all
cooldown_holds [] t h = refl
cooldown_holds (now ∷ times) t h = rw (cooling now t h.0) (rw (cooldown_holds times t h.1))

-- After a request that is refused outside a cooldown, every request before the end of the cooldown
-- that it starts is refused, and the tracker is then as after that first refusal: it remembers no
-- prompt.
pub refused_through_cooldown :
    (now : ℕ) (times : List ℕ) (t : ConfirmationTracker)
    → is_in_cooldown t now ≡ false
    → (acquire now t).1 ≡ false
    → All (λ time. time < now + t.cooldown_seconds) times
    → acquire_all (now ∷ times) t ≡ (
      record t { history = []; cooldown_until = now + t.cooldown_seconds },
      false ∷ replicate (length times) false,
    )
unfolding acquire_all
refused_through_cooldown now times t c h before =
    let t' : ConfirmationTracker = record t {
      history = [];
      cooldown_until = now + t.cooldown_seconds;
    } in
    let r : (acquire now t).0 ≡ t' = refusal now t c h in
    rw (r, h) (rw (cooldown_holds times t' before))
