-- ===== src/Voice/Turns.antt =====
-- The turns of `InteractionCore` (python/tom/voice/interaction_core.py): how one begins, what its
-- task calls back, and what follows when it has been reaped.
use tom.Prelude.{
  ℕ, ◌+◌, ◌-◌, Bool, true, false, not, ◌&&◌, ◌||◌, Option, none, some, ◌++◌, leb, if◌then◌else◌,
}
use tom.Voice.Pipeline.{
  VoicePipelineState, idle, listening, processing, speaking, interrupted, error,
}
use tom.Voice.Core.{
  Audio, Turn, After, returns, listens, begins, Phase, quiet, InteractionCore, is_current,
  transition, transition_in,
}

-- The audio that was kept comes first, within the window.
unfoldable pub merged : ℕ → ℕ → Audio → Option (Audio × ℕ) → Audio
merged window now audio none = audio
merged window now audio (some (kept, time)) =
    if leb (now - time) window then kept ++ audio else audio

-- An ERROR, or a SPEAKING that was left over, is led back to LISTENING.
unfoldable pub recover : VoicePipelineState → InteractionCore → InteractionCore
unfolding transition
recover error c = transition listening (transition idle c)
recover speaking c = transition listening (transition idle (transition interrupted c))
recover _ c = c

abbrev pub is_finished : Option Turn → Bool
is_finished none = false
is_finished (some t) = t.is_finished

abbrev pub new_turn : ℕ → Turn
new_turn e = record {
  epoch = e;
  is_cancelled = false;
  speaking_notified = false;
  playback_completed = false;
  is_finished = false;
}

-- `_begin_turn` when no turn is under way, up to the transition. The done callback of a turn that
-- has just finished is still to come.
unfoldable pub prepare_turn : ℕ → ℕ → Audio → InteractionCore → InteractionCore
unfolding merged recover
prepare_turn window now audio c =
    let e = c.epoch + 1 in
    record (recover c.state c) {
      pending_cancelled = none;
      active_audio = some (merged window now audio c.pending_cancelled);
      epoch = e;
      has_stale_callback = c.has_stale_callback || is_finished c.active_turn;
      active_turn = some (new_turn e);
      playback_active = false;
    }

unfoldable pub start_turn : ℕ → ℕ → Audio → InteractionCore → InteractionCore
unfolding prepare_turn transition_in
start_turn window now audio c =
    transition_in (c.epoch + 1) processing (prepare_turn window now audio c)

-- `TurnExecutor._alive`
abbrev pub is_alive : Turn → InteractionCore → Bool
is_alive t c = is_current c t.epoch && not t.is_cancelled

-- `_notify_speaking` and `_on_speaking`, which the executor reaches only while the turn is alive.
unfoldable pub notify_speaking : Turn → InteractionCore → InteractionCore
unfolding transition_in
notify_speaking t c =
    if t.speaking_notified || not (is_alive t c)
    then c
    else let c' = transition_in t.epoch speaking (record c {
      active_turn = some (record t { speaking_notified = true });
      playback_active = true;
    }) in
      if is_current c t.epoch then record c' { is_gated = true } else c'

-- `_on_playback_completed`
unfoldable pub complete_playback : Turn → InteractionCore → InteractionCore
complete_playback t c =
    if t.playback_completed
    then c
    else let c' = record c { active_turn = some (record t { playback_completed = true }) } in
      if is_current c t.epoch then record c' { is_gated = false } else c'

abbrev pub finish_task : Option Turn → Option Turn
finish_task none = none
finish_task (some t) = some (record t { is_finished = true })

-- `_run_turn` ends, by its result, an error or the cancellation.
unfoldable pub end_turn : Turn → InteractionCore → InteractionCore
unfolding complete_playback
end_turn t c =
    let c' = complete_playback t c in record c' { active_turn = finish_task c'.active_turn }

abbrev pub is_quiet : Phase → Bool
is_quiet quiet = true
is_quiet _ = false

-- A barge-in is under way, or the core was stopped.
abbrev pub is_interrupted : InteractionCore → Bool
is_interrupted c = c.is_stopped || not (is_quiet c.phase)

-- The part of `_on_turn_done` that does not depend on the task.
unfoldable pub return_to_listening : InteractionCore → InteractionCore
unfolding transition
return_to_listening c =
    let c' = record c { active_audio = none; playback_active = false } in
    if is_interrupted c then c' else transition listening (transition idle c')

-- `_on_turn_done` for the active turn.
unfoldable pub on_turn_done : InteractionCore → InteractionCore
unfolding return_to_listening
on_turn_done c = return_to_listening (record c { active_turn = none })

-- `_on_turn_done` for a turn that another has replaced.
unfoldable pub on_stale_turn_done : InteractionCore → InteractionCore
unfolding return_to_listening
on_stale_turn_done c = return_to_listening (record c { has_stale_callback = false })

-- The turn has been reaped.
unfoldable pub drop_turn : InteractionCore → InteractionCore
drop_turn c = record c {
  has_stale_callback = c.has_stale_callback || is_finished c.active_turn;
  active_turn = none;
  active_audio = none;
}

-- The rest of a barge-in, without what follows it.
unfoldable pub finish_barge_in : ℕ → InteractionCore → InteractionCore
unfolding transition_in drop_turn
finish_barge_in e c =
    record (transition_in e listening (transition_in e interrupted (drop_turn c))) {
      is_gated = false;
      phase = quiet;
    }

-- The rest of `stop`.
unfoldable pub shut_down : InteractionCore → InteractionCore
unfolding transition drop_turn
shut_down c = record (transition idle (transition interrupted (drop_turn c))) {
  pending_cancelled = none;
  shutdown = quiet;
}

unfoldable pub go_on : ℕ → ℕ → ℕ → After → InteractionCore → InteractionCore
unfolding finish_barge_in start_turn transition
go_on window now e returns c = finish_barge_in e c
go_on window now e listens c = transition listening (finish_barge_in e c)
go_on window now e (begins audio) c = start_turn window now audio (finish_barge_in e c)
