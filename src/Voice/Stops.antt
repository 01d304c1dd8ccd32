-- ===== src/Voice/Stops.antt =====
-- `PlaybackStopGuard` in the runs of `InteractionCore` (python/tom/voice/interaction_core.py).
use tom.Prelude.{
  either, All, ◌≤◌, ℕ, ◌+◌, ◌≡◌, refl, sym, ap, inl, inr, Bool, true, false, not, ◌&&◌, ◌||◌,
  Option, none, some, List, [], ◌∷◌, arith, Bool-cases,
}
use tom.Voice.Pipeline.{listening}
use tom.Voice.Core
use tom.Voice.Core.{
  Audio, Turn, After, returns, listens, begins, Phase, quiet, flushing, reaping, InteractionCore,
  is_current, moved, transition, transition_in, keep_cancelled, begin_stop, invalidate,
  handle_barge_in, finish_stop, finish_shutdown_stop,
}
use tom.Voice.Turns.{
  is_finished, start_turn, notify_speaking, end_turn, is_quiet, is_interrupted, return_to_listening,
  on_turn_done, on_stale_turn_done, go_on, shut_down,
}
use tom.Voice.Runs.{
  Event, speech_starts, turn_begins, speaks, completes, ends, done, stale_done, flushed, reaped,
  mic_ungates, stops, shutdown_flushed, shutdown_reaped, shutdown_flush, shutdown_reap,
  is_reaped_by, new, is_empty, has_running, on_speech_start, begin_turn, apply, run,
  complete_response, is_empty, with_turn, flush, reap,
}
use tom.Voice.Core.{has_epoch}
use tom.Voice.Kept.{
  asked, IsCounted, Keeps, above, kept-IsCounted, notify_speaking-Keeps, complete_response-Keeps,
  end_turn-Keeps, return_to_listening-Keeps, start_turn-Keeps, listening-Keeps, finish_stop-Keeps,
  go_on-Keeps, finish_shutdown_stop-Keeps, shut_down-Keeps,
}

newer : (n : ℕ) (es : List ℕ) → All (λ e. e ≤ n) es → has_epoch (n + 1) es ≡ false
newer n [] h = refl
newer n (e ∷ es) h = ground (arith, newer n es h.1, h.0)

invalidate-IsCounted :
    (after : After) (c : InteractionCore)
    → asked c.phase ≡ 0
    → IsCounted c
    → IsCounted (invalidate after c)
unfolding invalidate begin_stop
invalidate-IsCounted after c p h =
    let f = newer c.epoch c.stopped_epochs h.0 in
    let (a, b, n, l) = h in
    elim (Bool-cases c.playback_active) [
      | inl e ↦
          rw (e, f, invalidate, begin_stop)
            (
              (omega arith, above c.epoch (c.epoch + 1) (omega arith) c.stopped_epochs a),
              (f, b),
              omega (arith, n, p),
              omega (arith, l),
            )
      | inr e ↦
          rw (e, invalidate)
            (
              above c.epoch (c.epoch + 1) (omega arith) c.stopped_epochs a,
              b,
              omega (arith, n, p),
              omega (arith, l),
            )
    ]

with_turn-IsCounted :
    (o : Option Turn) (f : Turn → InteractionCore → InteractionCore) (c : InteractionCore)
    → ((t : Turn) → Keeps c (f t c))
    → IsCounted c
    → IsCounted (with_turn o f c)
with_turn-IsCounted none f c k h = h
with_turn-IsCounted (some t) f c k h =
    either IsCounted (t.is_finished || c.has_stale_callback) c _ (λ _. h)
      (λ _. kept-IsCounted c (f t c) (k t) h)

reap-IsCounted :
    (window now : ℕ) (c : InteractionCore) (p : Phase)
    → IsCounted c
    → IsCounted (reap window now p c)
reap-IsCounted window now c quiet h = h
reap-IsCounted window now c (flushing n a) h = h
reap-IsCounted window now c (reaping n a) h =
    either IsCounted (has_running c.active_turn) c _ (λ _. h)
      (λ _. kept-IsCounted c (go_on window now n a c) (go_on-Keeps window now n a c) h)

flush-IsCounted :
    (ok : Bool) (c : InteractionCore) (p : Phase)
    → p ≡ c.phase
    → IsCounted c
    → IsCounted (flush ok p c)
flush-IsCounted ok c quiet e h = h
flush-IsCounted ok c (reaping n a) e h = h
flush-IsCounted ok c (flushing n a) e h =
    kept-IsCounted c (finish_stop ok n a c) (finish_stop-Keeps ok n a c (sym (ap asked e))) h

quiet-asked : (c : InteractionCore) → is_quiet c.phase ≡ true → asked c.phase ≡ 0
quiet-asked c h = ground (arith, h)

speech-IsCounted :
    (window now : ℕ) (c : InteractionCore)
    → is_quiet c.phase ≡ true
    → IsCounted c
    → IsCounted (on_speech_start window now c)
unfolding on_speech_start handle_barge_in keep_cancelled
speech-IsCounted window now c q h =
    either IsCounted (has_running c.active_turn) _ _
      (λ _. invalidate-IsCounted listens (keep_cancelled window now c) (quiet-asked c q) h)
      (λ _. kept-IsCounted c (transition listening c) (listening-Keeps c) h)

turn-IsCounted :
    (window now : ℕ) (audio : Audio) (c : InteractionCore)
    → is_quiet c.phase ≡ true
    → IsCounted c
    → IsCounted (begin_turn window now audio c)
unfolding begin_turn handle_barge_in keep_cancelled
turn-IsCounted window now audio c q h =
    either IsCounted (c.is_stopped || is_empty audio) c _ (λ _. h)
      (λ _.
        either IsCounted (has_running c.active_turn) _ _
          (λ _.
            invalidate-IsCounted (begins audio) (keep_cancelled window now c) (quiet-asked c q) h)
          (λ _.
            kept-IsCounted c (start_turn window now audio c) (start_turn-Keeps window now audio c)
              h))

stop-IsCounted : (c : InteractionCore) → IsCounted c → IsCounted (Core.stop c)
unfolding Core.stop invalidate begin_stop
stop-IsCounted c h =
    let f = newer c.epoch c.stopped_epochs h.0 in
    let (a, b, n, l) = h in
    let a' = above c.epoch (c.epoch + 1) (omega arith) c.stopped_epochs a in
    elim (Bool-cases c.is_stopped) [
      | inl s ↦ rw (s, Core.stop) h
      | inr s ↦
          rw (s, Core.stop)
            elim (Bool-cases c.playback_active) [
              | inl e ↦
                  rw (e, f, invalidate, begin_stop)
                    ((omega arith, a'), (f, b), omega (arith, n), omega (arith, l))
              | inr e ↦ rw (e, invalidate) (a', b, omega (arith, n), omega (arith, l))
            ]
    ]

shutdown_flush-IsCounted :
    (ok : Bool) (c : InteractionCore) (p : Phase)
    → p ≡ c.shutdown
    → IsCounted c
    → IsCounted (shutdown_flush ok p c)
shutdown_flush-IsCounted ok c quiet e h = h
shutdown_flush-IsCounted ok c (reaping n a) e h = h
shutdown_flush-IsCounted ok c (flushing n a) e h =
    kept-IsCounted c (finish_shutdown_stop ok n c)
      (finish_shutdown_stop-Keeps ok n c (sym (ap asked e))) h

shutdown_reap-IsCounted :
    (c : InteractionCore) (p : Phase) → IsCounted c → IsCounted (shutdown_reap p c)
shutdown_reap-IsCounted c quiet h = h
shutdown_reap-IsCounted c (flushing n a) h = h
shutdown_reap-IsCounted c (reaping n a) h =
    either IsCounted (is_reaped_by n c.active_turn) c (shut_down c) (λ _. h)
      (λ _. kept-IsCounted c (shut_down c) (shut_down-Keeps c) h)

apply-IsCounted :
    (window : ℕ) (e : Event) (c : InteractionCore) → IsCounted c → IsCounted (apply window e c)
unfolding apply on_turn_done on_stale_turn_done
apply-IsCounted window (speech_starts now) c h =
    either IsCounted (is_interrupted c) c _ (λ _. h)
      (λ e. speech-IsCounted window now c (ground (arith, e)) h)
apply-IsCounted window (turn_begins now audio) c h =
    either IsCounted (is_interrupted c) c _ (λ _. h)
      (λ e. turn-IsCounted window now audio c (ground (arith, e)) h)
apply-IsCounted window speaks c h =
    with_turn-IsCounted c.active_turn notify_speaking c (λ t. notify_speaking-Keeps t c) h
apply-IsCounted window completes c h =
    with_turn-IsCounted c.active_turn complete_response c (λ t. complete_response-Keeps t c) h
apply-IsCounted window ends c h =
    with_turn-IsCounted c.active_turn end_turn c (λ t. end_turn-Keeps t c) h
apply-IsCounted window done c h =
    let d : InteractionCore = record c { active_turn = none } in
    either IsCounted (is_finished c.active_turn && not c.has_stale_callback) _ c
      (λ _. kept-IsCounted d (return_to_listening d) (return_to_listening-Keeps d) h) (λ _. h)
apply-IsCounted window stale_done c h =
    let d : InteractionCore = record c { has_stale_callback = false } in
    either IsCounted c.has_stale_callback _ c
      (λ _. kept-IsCounted d (return_to_listening d) (return_to_listening-Keeps d) h) (λ _. h)
apply-IsCounted window (flushed ok) c h = flush-IsCounted ok c c.phase refl h
apply-IsCounted window (reaped now) c h = reap-IsCounted window now c c.phase h
apply-IsCounted window mic_ungates c h = h
apply-IsCounted window stops c h = stop-IsCounted c h
apply-IsCounted window (shutdown_flushed ok) c h =
    either IsCounted c.is_stopped _ c (λ _. shutdown_flush-IsCounted ok c c.shutdown refl h)
      (λ _. h)
apply-IsCounted window shutdown_reaped c h =
    either IsCounted c.is_stopped _ c (λ _. shutdown_reap-IsCounted c c.shutdown h) (λ _. h)

run-IsCounted_from :
    (window : ℕ) (es : List Event) (c : InteractionCore) → IsCounted c → IsCounted (run window es c)
unfolding run
run-IsCounted_from window [] c h = h
run-IsCounted_from window (e ∷ es) c h =
    run-IsCounted_from window es (apply window e c) (apply-IsCounted window e c h)

-- After any run of a new core, no epoch has asked the engine twice to stop the playback, and the
-- engine has been asked at most once for each epoch that there was; it has stopped at most as often.
pub run-IsCounted : (window : ℕ) (es : List Event) → IsCounted (run window es new)
run-IsCounted window es = run-IsCounted_from window es new (tt, tt, omega arith, omega arith)
