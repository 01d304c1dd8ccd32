-- ===== src/Voice/Core.antt =====
-- `InteractionCore`, `TurnEpochGuard` and `PlaybackStopGuard`
-- (python/tom/voice/interaction_core.py): the state, and a barge-in or a stop, cut at its waits for
-- the engine and for the end of the turn.
use tom.Prelude.{
  ℕ, ◌+◌, ◌-◌, Bool, true, false, not, ◌&&◌, ◌||◌, Option, none, some, List, [], ◌∷◌, ◌++◌, ◌==◌,
  leb, if◌then◌else◌,
}
use tom.Voice.Pipeline.{VoicePipelineState, processing, transition_to}

abbrev pub Audio : Type 0
Audio = List ℕ

-- A task of `_run_turn`, with its token and what its callbacks have done. A finished task is one
-- whose done callback is still to come.
pub record Turn : Type 0 where
  pub epoch : ℕ
  pub is_cancelled : Bool
  pub speaking_notified : Bool
  pub playback_completed : Bool
  pub is_finished : Bool

-- What follows a barge-in: nothing, LISTENING for the speech that starts, or the turn that waits
-- for it.
pub data After : Type 0 where
  returns listens : After
  begins : Audio → After

-- Where a barge-in or the shutdown is, with its epoch.
pub data Phase : Type 0 where
  quiet : Phase
  flushing reaping : ℕ → After → Phase

pub record InteractionCore : Type 0 where
  pub state : VoicePipelineState
  pub epoch : ℕ
  pub stopped_epochs : List ℕ
  pub engine_calls : ℕ
  pub active_turn : Option Turn
  pub has_stale_callback : Bool
  pub playback_active : Bool
  pub is_gated : Bool
  pub is_stopped : Bool
  pub phase : Phase
  pub shutdown : Phase
  pub active_audio : Option Audio
  pub pending_cancelled : Option (Audio × ℕ)
  pub barge_in_count : ℕ

abbrev pub is_current : InteractionCore → ℕ → Bool
is_current c e = e == c.epoch

-- A state that `transition_to` refuses is left out.
abbrev pub moved : VoicePipelineState → Option VoicePipelineState → VoicePipelineState
moved old none = old
moved old (some new) = new

-- `_transition` without an epoch.
unfoldable pub transition : VoicePipelineState → InteractionCore → InteractionCore
transition target c = record c { state = moved c.state (transition_to target c.state) }

-- `_transition` with an epoch.
unfoldable pub transition_in : ℕ → VoicePipelineState → InteractionCore → InteractionCore
unfolding transition
transition_in e target c = if is_current c e then transition target c else c

abbrev pub is_processing : VoicePipelineState → Bool
is_processing processing = true
is_processing _ = false

bytes_eq : Audio → Audio → Bool
bytes_eq [] [] = true
bytes_eq (a ∷ xs) (b ∷ ys) = (a == b) && bytes_eq xs ys
bytes_eq _ _ = false

-- bytes.endswith
unfoldable pub ends_with : Audio → Audio → Bool
unfolding bytes_eq
ends_with [] b = bytes_eq [] b
ends_with (a ∷ xs) b = bytes_eq (a ∷ xs) b || ends_with xs b

-- The audio of a turn that is cancelled before it speaks is kept for the next turn.
unfoldable pub keep_audio : ℕ → ℕ → Audio → Option (Audio × ℕ) → Option (Audio × ℕ)
unfolding ends_with
keep_audio window now audio none = some (audio, now)
keep_audio window now audio (some (kept, time)) =
    if leb (now - time) window
    then if ends_with kept audio then some (kept, time) else some (kept ++ audio, time)
    else some (audio, now)

unfoldable pub pending_after : ℕ → ℕ → Bool → Option Audio → Option (Audio × ℕ) → Option (Audio × ℕ)
unfolding keep_audio
pending_after window now false audio pending = none
pending_after window now true none pending = none
pending_after window now true (some audio) pending = keep_audio window now audio pending

unfoldable pub keep_cancelled : ℕ → ℕ → InteractionCore → InteractionCore
unfolding pending_after
keep_cancelled window now c = record c {
  barge_in_count = c.barge_in_count + 1;
  pending_cancelled =
      pending_after window now (is_processing c.state && not c.playback_active) c.active_audio
        c.pending_cancelled;
}

abbrev pub cancel_token : Option Turn → Option Turn
cancel_token none = none
cancel_token (some t) = some (record t { is_cancelled = true })

abbrev pub has_epoch : ℕ → List ℕ → Bool
has_epoch e [] = false
has_epoch e (d ∷ ds) = if d == e then true else has_epoch e ds

-- `PlaybackStopGuard.stop` up to the wait for the engine.
unfoldable pub begin_stop : ℕ → After → InteractionCore → InteractionCore
begin_stop e after c =
    if has_epoch e c.stopped_epochs
    then record c { playback_active = false; phase = reaping e after }
    else record c { stopped_epochs = e ∷ c.stopped_epochs; phase = flushing e after }

-- The epoch is bumped and the token cancelled; then live audio is flushed.
unfoldable pub invalidate : After → InteractionCore → InteractionCore
unfolding begin_stop
invalidate after c =
    let e = c.epoch + 1 in
    let c' = record c { epoch = e; active_turn = cancel_token c.active_turn } in
    if c.playback_active then begin_stop e after c' else record c' { phase = reaping e after }

unfoldable pub handle_barge_in : ℕ → ℕ → After → InteractionCore → InteractionCore
unfolding keep_cancelled invalidate
handle_barge_in window now after c = invalidate after (keep_cancelled window now c)

-- The engine has stopped, or could not.
unfoldable pub finish_stop : Bool → ℕ → After → InteractionCore → InteractionCore
finish_stop succeeded e after c = record c {
  engine_calls = if succeeded then c.engine_calls + 1 else c.engine_calls;
  playback_active = false;
  phase = reaping e after;
}

-- `stop` up to its first wait. It takes the steps of a barge-in, in a phase of its own, whatever
-- phase a barge-in that waits is in.
unfoldable pub stop : InteractionCore → InteractionCore
unfolding invalidate
stop c =
    if c.is_stopped
    then c
    else let d = invalidate returns (record c { is_stopped = true }) in
      record d { phase = c.phase; shutdown = d.phase }

-- The engine has stopped for the shutdown, or could not.
unfoldable pub finish_shutdown_stop : Bool → ℕ → InteractionCore → InteractionCore
unfolding finish_stop
finish_shutdown_stop succeeded e c = record (finish_stop succeeded e returns c) {
  phase = c.phase;
  shutdown = reaping e returns;
}
