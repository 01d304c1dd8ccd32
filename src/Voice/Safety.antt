-- ===== src/Voice/Safety.antt =====
-- Every run of `InteractionCore` (python/tom/voice/interaction_core.py) keeps the microphone open, the
-- turn current and the pipeline live.
use tom.Prelude.{
  either, ℕ, ◌≡◌, refl, sym, subst, ◌∙◌, inl, inr, Bool, true, false, not, ◌&&◌, ◌||◌, Option, none,
  some, List, [], ◌∷◌, arith,
}
use tom.Voice.Pipeline.{listening}
use tom.Voice.Core.{
  Audio, Turn, After, returns, listens, begins, Phase, quiet, flushing, reaping, InteractionCore,
  transition, keep_cancelled, handle_barge_in, finish_stop,
}
use tom.Voice.Turns.{
  drop_turn, is_finished, start_turn, notify_speaking, end_turn, is_interrupted, on_turn_done,
  on_stale_turn_done, drop_turn, go_on,
}
use tom.Voice.Runs.{
  Event, speech_starts, turn_begins, speaks, completes, ends, done, stale_done, flushed, reaped,
  mic_ungates, stops, shutdown_flushed, shutdown_reaped, new, has_running, on_speech_start,
  begin_turn, apply, run, complete_response, is_empty, with_turn, flush, reap,
}
use tom.Voice.Stopped.{
  apply-IsStopped, stop-IsStopped, shutdown_flush-IsStopped, shutdown_reap-IsStopped,
}
use tom.Voice.Invariant.{
  IsWaiting, IsLive, IsSettled, owns, invalidate-IsLive, notify_speaking-IsLive,
  complete_response-IsLive, end_turn-IsLive, return_to_listening-IsLive, start_turn-IsHeard,
  start_turn-phase, finish_barge_in-listening,
}

with_turn-IsLive :
    (o : Option Turn) (f : Turn → InteractionCore → InteractionCore) (c : InteractionCore)
    → ((t : Turn) → o ≡ some t → t.is_finished ≡ false → IsLive (f t c))
    → IsLive c
    → IsLive (with_turn o f c)
with_turn-IsLive none f c h i = i
with_turn-IsLive (some t) f c h i =
    either IsLive (t.is_finished || c.has_stale_callback) c (f t c) (λ _. i)
      (λ e. h t refl (ground (arith, e)))

IsWaiting-none : (e : ℕ) (t : Option Turn) (p : Phase) → IsWaiting e t p → IsWaiting e none p
IsWaiting-none e t quiet h = tt
IsWaiting-none e t (flushing n a) (h, s) = (h, refl)
IsWaiting-none e t (reaping n a) (h, s) = (h, refl)

on_turn_done-IsLive :
    (c : InteractionCore) → is_finished c.active_turn ≡ true → IsLive c → IsLive (on_turn_done c)
unfolding on_turn_done
on_turn_done-IsLive c f h =
    return_to_listening-IsLive (record c { active_turn = none })
      (IsWaiting-none c.epoch c.active_turn c.phase h.0) (ground arith)

on_stale_turn_done-IsLive : (c : InteractionCore) → IsLive c → IsLive (on_stale_turn_done c)
unfolding on_stale_turn_done
on_stale_turn_done-IsLive c h =
    return_to_listening-IsLive (record c { has_stale_callback = false }) h.0 (ground arith)

flush-IsLive :
    (b : Bool) (c : InteractionCore) (p : Phase) → p ≡ c.phase → IsLive c → IsLive (flush b p c)
unfolding finish_stop
flush-IsLive b c quiet e h = h
flush-IsLive b c (reaping n a) e h = h
flush-IsLive b c (flushing n a) e h =
    (subst (λ q. IsWaiting c.epoch c.active_turn q) (sym e) h.0, inl (ground arith))

start_turn-IsLive :
    (window now : ℕ) (audio : Audio) (c : InteractionCore)
    → c.phase ≡ quiet
    → c.is_gated ≡ false
    → IsLive (start_turn window now audio c)
start_turn-IsLive window now audio c p g = (
  subst
      (λ q.
        IsWaiting (start_turn window now audio c).epoch (start_turn window now audio c).active_turn
          q)
      (sym (start_turn-phase window now audio c ∙ p)) tt,
  start_turn-IsHeard window now audio c g,
)

listening-IsLive :
    (c : InteractionCore) → c.phase ≡ quiet → IsLive c → IsLive (transition listening c)
unfolding transition
listening-IsLive c p h = ground arith

-- The core after a barge-in that is over.
abbrev released : InteractionCore → InteractionCore
released c = record (drop_turn c) { state = listening; is_gated = false; phase = quiet }

released-IsLive : (c : InteractionCore) → IsLive (released c)
unfolding drop_turn
released-IsLive c = (tt, inr (inl refl, inl refl, refl))

go_on-IsLive :
    (window now e : ℕ) (after : After) (c : InteractionCore)
    → e ≡ c.epoch
    → IsLive (go_on window now e after c)
unfolding go_on
go_on-IsLive window now e returns c h =
    subst IsLive (sym (finish_barge_in-listening e c h)) (released-IsLive c)
go_on-IsLive window now e listens c h =
    subst (λ d. IsLive (transition listening d)) (sym (finish_barge_in-listening e c h))
      (listening-IsLive (released c) refl (released-IsLive c))
go_on-IsLive window now e (begins audio) c h =
    subst (λ d. IsLive (start_turn window now audio d)) (sym (finish_barge_in-listening e c h))
      (start_turn-IsLive window now audio (released c) refl refl)

reap-IsLive :
    (window now : ℕ) (c : InteractionCore) (p : Phase)
    → p ≡ c.phase
    → IsLive c
    → IsLive (reap window now p c)
reap-IsLive window now c quiet e h = h
reap-IsLive window now c (flushing n a) e h = h
reap-IsLive window now c (reaping n a) e h =
    let q : IsWaiting c.epoch c.active_turn (reaping n a) =
      subst (λ q. IsWaiting c.epoch c.active_turn q) (sym e) h.0 in
    either IsLive (has_running c.active_turn) c _ (λ _. h) (λ _. go_on-IsLive window now n a c q.0)

quiet_phase : (c : InteractionCore) → is_interrupted c ≡ false → c.phase ≡ quiet
quiet_phase c e = ground (arith, e)

uninterrupted-owns :
    (c : InteractionCore) → is_interrupted c ≡ false → IsLive c → owns c.epoch c.active_turn ≡ true
uninterrupted-owns c e (w, inl i) = absurd (ground (arith, e, i))
uninterrupted-owns c e (w, inr (b, g, o)) = o

speech-IsLive :
    (window now : ℕ) (c : InteractionCore)
    → is_interrupted c ≡ false
    → IsLive c
    → IsLive (on_speech_start window now c)
unfolding on_speech_start handle_barge_in
speech-IsLive window now c e h =
    either IsLive (has_running c.active_turn) _ _
      (λ _. invalidate-IsLive listens (keep_cancelled window now c) (uninterrupted-owns c e h))
      (λ _. listening-IsLive c (quiet_phase c e) h)

turn-IsLive :
    (window now : ℕ) (audio : Audio) (c : InteractionCore)
    → is_interrupted c ≡ false
    → IsLive c
    → IsLive (begin_turn window now audio c)
unfolding begin_turn handle_barge_in
turn-IsLive window now audio c e h =
    either IsLive (c.is_stopped || is_empty audio) c _ (λ _. h)
      (λ _.
        either IsLive (has_running c.active_turn) _ _
          (λ _.
            invalidate-IsLive (begins audio) (keep_cancelled window now c)
              (uninterrupted-owns c e h))
          (λ r. start_turn-IsLive window now audio c (quiet_phase c e) (ground (arith, r, e))))

apply-IsSettled :
    (window : ℕ) (e : Event) (c : InteractionCore) → IsSettled c → IsSettled (apply window e c)
unfolding apply
apply-IsSettled window e c (inl s) = inl (apply-IsStopped window e c s)
apply-IsSettled window (speech_starts now) c (inr h) =
    inr (either IsLive (is_interrupted c) c _ (λ _. h) (λ e. speech-IsLive window now c e h))
apply-IsSettled window (turn_begins now audio) c (inr h) =
    inr (either IsLive (is_interrupted c) c _ (λ _. h) (λ e. turn-IsLive window now audio c e h))
apply-IsSettled window speaks c (inr h) =
    inr (
      with_turn-IsLive c.active_turn notify_speaking c (λ t e f. notify_speaking-IsLive t c e f h)
        h)
apply-IsSettled window completes c (inr h) = inr (
    with_turn-IsLive c.active_turn complete_response c (λ t e f. complete_response-IsLive t c e h)
      h)
apply-IsSettled window ends c (inr h) =
    inr (with_turn-IsLive c.active_turn end_turn c (λ t e f. end_turn-IsLive t c e h) h)
apply-IsSettled window done c (inr h) = inr (
    either IsLive (is_finished c.active_turn && not c.has_stale_callback) _ c
      (λ e. on_turn_done-IsLive c (ground (arith, e)) h) (λ _. h))
apply-IsSettled window stale_done c (inr h) =
    inr (either IsLive c.has_stale_callback _ c (λ _. on_stale_turn_done-IsLive c h) (λ _. h))
apply-IsSettled window (flushed succeeded) c (inr h) = inr (flush-IsLive succeeded c c.phase refl h)
apply-IsSettled window (reaped now) c (inr h) = inr (reap-IsLive window now c c.phase refl h)
apply-IsSettled window mic_ungates c (inr h) =
    inr ((h.0, elim (h.1) [ inl i ↦ inl i | inr (a, g, o) ↦ inr (a, inl refl, o) ]))
apply-IsSettled window stops c (inr h) = inl (stop-IsStopped c)
apply-IsSettled window (shutdown_flushed ok) c (inr h) =
    either IsSettled c.is_stopped _ c (λ s. inl (shutdown_flush-IsStopped ok c c.shutdown s))
      (λ _. inr h)
apply-IsSettled window shutdown_reaped c (inr h) =
    either IsSettled c.is_stopped _ c (λ s. inl (shutdown_reap-IsStopped c c.shutdown s))
      (λ _. inr h)

run-IsSettled_from :
    (window : ℕ) (es : List Event) (c : InteractionCore) → IsSettled c → IsSettled (run window es c)
unfolding run
run-IsSettled_from window [] c h = h
run-IsSettled_from window (e ∷ es) c h =
    run-IsSettled_from window es (apply window e c) (apply-IsSettled window e c h)

-- After any run of a new core, in whatever order turns speak, complete, end and are reaped, the
-- engine answers, the microphone opens, speech starts and turns begin while no barge-in waits, and
-- the core stops, also while one waits: unless the core was stopped, a barge-in that waits has the
-- newest epoch, and the turn that it waits for has an older one and is cancelled; and if none waits,
-- the pipeline is PROCESSING or SPEAKING only with an active turn, the microphone is gated only
-- while the active turn speaks in the newest epoch, and the active turn has the newest epoch and is
-- not cancelled.
pub run-IsSettled : (window : ℕ) (es : List Event) → IsSettled (run window es new)
run-IsSettled window es =
    run-IsSettled_from window es new (inr (tt, inr (inl refl, inl refl, refl)))
