-- ===== src/Voice/Runs.antt =====
-- Runs of `InteractionCore` (python/tom/voice/interaction_core.py): what can happen between two waits.
use tom.Prelude.{
  ℕ, Bool, true, false, not, ◌&&◌, ◌||◌, Option, none, some, List, [], ◌∷◌, if◌then◌else◌, ltb,
}
use tom.Voice.Pipeline.{VoicePipelineState, listening}
use tom.Voice.Core
use tom.Voice.Core.{
  Audio, Turn, After, listens, Phase, quiet, flushing, reaping, InteractionCore, transition,
  handle_barge_in, finish_stop, finish_shutdown_stop,
}
use tom.Voice.Turns.{
  is_finished, start_turn, notify_speaking, complete_playback, end_turn, is_interrupted,
  on_turn_done, on_stale_turn_done, go_on, shut_down,
}

abbrev pub new : InteractionCore
new = record {
  state = VoicePipelineState.idle;
  epoch = 0;
  stopped_epochs = [];
  engine_calls = 0;
  active_turn = none;
  has_stale_callback = false;
  playback_active = false;
  is_gated = false;
  is_stopped = false;
  phase = quiet;
  shutdown = quiet;
  active_audio = none;
  pending_cancelled = none;
  barge_in_count = 0;
}

-- Times are those of the monotonic clock.
pub data Event : Type 0 where
  speech_starts : ℕ → Event
  turn_begins : ℕ → Audio → Event
  speaks completes ends done stale_done : Event
  flushed : Bool → Event
  reaped : ℕ → Event
  stops shutdown_reaped mic_ungates : Event
  shutdown_flushed : Bool → Event

abbrev pub has_running : Option Turn → Bool
has_running none = false
has_running (some t) = not t.is_finished

abbrev pub is_empty : Audio → Bool
is_empty [] = true
is_empty (x ∷ xs) = false

-- SpeechStartEvent
unfoldable pub on_speech_start : ℕ → ℕ → InteractionCore → InteractionCore
unfolding handle_barge_in transition
on_speech_start window now c =
    if has_running c.active_turn
    then handle_barge_in window now listens c
    else transition listening c

-- `_begin_turn`
unfoldable pub begin_turn : ℕ → ℕ → Audio → InteractionCore → InteractionCore
unfolding handle_barge_in start_turn
begin_turn window now audio c =
    if c.is_stopped || is_empty audio
    then c
    else if has_running c.active_turn
    then handle_barge_in window now (After.begins audio) c
    else start_turn window now audio c

-- A task that runs takes a step, after the callbacks that are due before it.
abbrev pub with_turn :
    Option Turn → (Turn → InteractionCore → InteractionCore) → InteractionCore → InteractionCore
with_turn none f c = c
with_turn (some t) f c = if t.is_finished || c.has_stale_callback then c else f t c

-- The response is streamed, and its playback completes, only after the turn has spoken.
unfoldable pub complete_response : Turn → InteractionCore → InteractionCore
unfolding complete_playback
complete_response t c = if t.speaking_notified then complete_playback t c else c

abbrev pub flush : Bool → Phase → InteractionCore → InteractionCore
flush succeeded (flushing e after) c = finish_stop succeeded e after c
flush succeeded _ c = c

abbrev pub reap : ℕ → ℕ → Phase → InteractionCore → InteractionCore
reap window now (reaping e after) c =
    if has_running c.active_turn then c else go_on window now e after c
reap window now _ c = c

abbrev pub shutdown_flush : Bool → Phase → InteractionCore → InteractionCore
shutdown_flush succeeded (flushing e after) c = finish_shutdown_stop succeeded e c
shutdown_flush succeeded _ c = c

-- The turn that was active when the core was stopped, with an epoch before the shutdown's, still
-- runs. The shutdown does not wait for a turn that began after it.
abbrev pub is_reaped_by : ℕ → Option Turn → Bool
is_reaped_by e none = false
is_reaped_by e (some t) = not t.is_finished && ltb t.epoch e

abbrev pub shutdown_reap : Phase → InteractionCore → InteractionCore
shutdown_reap (reaping e after) c = if is_reaped_by e c.active_turn then c else shut_down c
shutdown_reap _ c = c

-- An event that cannot happen in the state changes nothing. A speech start or a turn that comes while
-- a barge-in waits, or after the core was stopped, is left out.
unfoldable pub apply : ℕ → Event → InteractionCore → InteractionCore
unfolding on_speech_start begin_turn notify_speaking complete_response end_turn on_turn_done
    on_stale_turn_done finish_stop go_on Core.stop finish_shutdown_stop shut_down
apply window (speech_starts now) c = if is_interrupted c then c else on_speech_start window now c
apply window (turn_begins now audio) c =
    if is_interrupted c then c else begin_turn window now audio c
apply window speaks c = with_turn c.active_turn notify_speaking c
apply window completes c = with_turn c.active_turn complete_response c
apply window ends c = with_turn c.active_turn end_turn c
apply window done c =
    if is_finished c.active_turn && not c.has_stale_callback then on_turn_done c else c
apply window stale_done c = if c.has_stale_callback then on_stale_turn_done c else c
apply window (flushed succeeded) c = flush succeeded c.phase c
apply window (reaped now) c = reap window now c.phase c
apply window mic_ungates c = record c { is_gated = false }
apply window stops c = Core.stop c
apply window (shutdown_flushed succeeded) c =
    if c.is_stopped then shutdown_flush succeeded c.shutdown c else c
apply window shutdown_reaped c = if c.is_stopped then shutdown_reap c.shutdown c else c

unfoldable pub run : ℕ → List Event → InteractionCore → InteractionCore
unfolding apply
run window [] c = c
run window (e ∷ es) c = run window es (apply window e c)
