-- ===== src/Voice/Stopped.antt =====
-- `InteractionCore` (python/tom/voice/interaction_core.py) stays stopped.
use tom.Prelude.{either, ℕ, ◌≡◌, ◌∙◌, Bool, true, false, ◌&&◌, not, ◌||◌, Option, none, some, arith}
use tom.Voice.Core
use tom.Voice.Core.{
  Turn, Phase, quiet, flushing, reaping, InteractionCore, finish_stop, finish_shutdown_stop,
  invalidate, begin_stop,
}
use tom.Voice.Turns.{
  is_finished, notify_speaking, end_turn, return_to_listening, is_interrupted, on_turn_done,
  on_stale_turn_done, go_on, shut_down,
}
use tom.Voice.Runs.{
  Event, speech_starts, turn_begins, speaks, completes, ends, done, stale_done, flushed, reaped,
  mic_ungates, stops, shutdown_flushed, shutdown_reaped, has_running, apply, complete_response,
  with_turn, flush, reap, shutdown_flush, shutdown_reap, is_reaped_by,
}
use tom.Voice.Kept.{
  Keeps, notify_speaking-Keeps, complete_response-Keeps, end_turn-Keeps, return_to_listening-Keeps,
  go_on-Keeps, shut_down-Keeps,
}

abbrev pub IsStopped : InteractionCore → Type 0
IsStopped c = c.is_stopped ≡ true

kept-IsStopped : (c d : InteractionCore) → Keeps c d → IsStopped c → IsStopped d
unfolding Keeps
kept-IsStopped c d (s, k, e, i) h = i ∙ h

with_turn-IsStopped :
    (o : Option Turn) (f : Turn → InteractionCore → InteractionCore) (c : InteractionCore)
    → ((t : Turn) → Keeps c (f t c))
    → IsStopped c
    → IsStopped (with_turn o f c)
with_turn-IsStopped none f c k h = h
with_turn-IsStopped (some t) f c k h =
    either IsStopped (t.is_finished || c.has_stale_callback) c _ (λ _. h)
      (λ _. kept-IsStopped c (f t c) (k t) h)

flush-IsStopped :
    (ok : Bool) (c : InteractionCore) (p : Phase) → IsStopped c → IsStopped (flush ok p c)
unfolding finish_stop
flush-IsStopped ok c quiet h = h
flush-IsStopped ok c (reaping n a) h = h
flush-IsStopped ok c (flushing n a) h = h

reap-IsStopped :
    (window now : ℕ) (c : InteractionCore) (p : Phase)
    → IsStopped c
    → IsStopped (reap window now p c)
reap-IsStopped window now c quiet h = h
reap-IsStopped window now c (flushing n a) h = h
reap-IsStopped window now c (reaping n a) h =
    either IsStopped (has_running c.active_turn) c _ (λ _. h)
      (λ _. kept-IsStopped c (go_on window now n a c) (go_on-Keeps window now n a c) h)

pub shutdown_flush-IsStopped :
    (ok : Bool) (c : InteractionCore) (p : Phase) → IsStopped c → IsStopped (shutdown_flush ok p c)
unfolding finish_shutdown_stop finish_stop
shutdown_flush-IsStopped ok c quiet h = h
shutdown_flush-IsStopped ok c (reaping n a) h = h
shutdown_flush-IsStopped ok c (flushing n a) h = h

pub shutdown_reap-IsStopped :
    (c : InteractionCore) (p : Phase) → IsStopped c → IsStopped (shutdown_reap p c)
shutdown_reap-IsStopped c quiet h = h
shutdown_reap-IsStopped c (flushing n a) h = h
shutdown_reap-IsStopped c (reaping n a) h =
    either IsStopped (is_reaped_by n c.active_turn) c (shut_down c) (λ _. h)
      (λ _. kept-IsStopped c (shut_down c) (shut_down-Keeps c) h)

interrupted_if_stopped : (c : InteractionCore) → IsStopped c → is_interrupted c ≡ true
interrupted_if_stopped c h = ground (arith, h)

pub stop-IsStopped : (c : InteractionCore) → IsStopped (Core.stop c)
unfolding Core.stop invalidate begin_stop
stop-IsStopped c = ground arith

-- A stopped core stays stopped.
pub apply-IsStopped :
    (window : ℕ) (e : Event) (c : InteractionCore) → IsStopped c → IsStopped (apply window e c)
unfolding apply on_turn_done on_stale_turn_done
apply-IsStopped window (speech_starts now) c h = rw (interrupted_if_stopped c h) h
apply-IsStopped window (turn_begins now audio) c h = rw (interrupted_if_stopped c h) h
apply-IsStopped window speaks c h =
    with_turn-IsStopped c.active_turn notify_speaking c (λ t. notify_speaking-Keeps t c) h
apply-IsStopped window completes c h =
    with_turn-IsStopped c.active_turn complete_response c (λ t. complete_response-Keeps t c) h
apply-IsStopped window ends c h =
    with_turn-IsStopped c.active_turn end_turn c (λ t. end_turn-Keeps t c) h
apply-IsStopped window done c h =
    let d : InteractionCore = record c { active_turn = none } in
    either IsStopped (is_finished c.active_turn && not c.has_stale_callback) _ c
      (λ _. kept-IsStopped d (return_to_listening d) (return_to_listening-Keeps d) h) (λ _. h)
apply-IsStopped window stale_done c h =
    let d : InteractionCore = record c { has_stale_callback = false } in
    either IsStopped c.has_stale_callback _ c
      (λ _. kept-IsStopped d (return_to_listening d) (return_to_listening-Keeps d) h) (λ _. h)
apply-IsStopped window (flushed ok) c h = flush-IsStopped ok c c.phase h
apply-IsStopped window (reaped now) c h = reap-IsStopped window now c c.phase h
apply-IsStopped window mic_ungates c h = h
apply-IsStopped window stops c h = stop-IsStopped c
apply-IsStopped window (shutdown_flushed ok) c h =
    either IsStopped c.is_stopped _ c (λ _. shutdown_flush-IsStopped ok c c.shutdown h) (λ _. h)
apply-IsStopped window shutdown_reaped c h =
    either IsStopped c.is_stopped _ c (λ _. shutdown_reap-IsStopped c c.shutdown h) (λ _. h)
