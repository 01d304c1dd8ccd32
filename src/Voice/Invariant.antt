-- ===== src/Voice/Invariant.antt =====
-- What holds of `InteractionCore` (python/tom/voice/interaction_core.py) at every wait.
use tom.Prelude.{
  ℕ, ◌+◌, ◌≡◌, refl, sym, ap, subst, ◌∙◌, ◌⊎◌, inl, inr, Bool, true, false, not, ◌&&◌, ◌||◌, Option,
  none, some, ◌==◌, arith, Bool-cases,
}
use tom.Voice.Pipeline.{
  VoicePipelineState, idle, listening, processing, speaking, interrupted, error, transition_to,
}
use tom.Voice.Core.{
  Audio, Turn, After, Phase, quiet, flushing, reaping, InteractionCore, moved, transition,
  transition_in, begin_stop, invalidate,
}
use tom.Voice.Turns.{
  new_turn, prepare_turn, drop_turn, recover, start_turn, notify_speaking, complete_playback,
  end_turn, is_interrupted, return_to_listening, finish_barge_in,
}
use tom.Voice.Runs.{complete_response}

abbrev pub is_busy : VoicePipelineState → Bool
is_busy processing = true
is_busy speaking = true
is_busy _ = false

abbrev pub is_some : Option Turn → Bool
is_some none = false
is_some (some t) = true

-- The turn of the epoch has begun to speak, and its playback is not over.
abbrev pub is_sounding : ℕ → Option Turn → Bool
is_sounding e none = false
is_sounding e (some t) =
    (t.epoch == e) && t.speaking_notified && not t.playback_completed && not t.is_finished

abbrev pub owns : ℕ → Option Turn → Bool
-- A turn of the epoch, not cancelled, whose playback has not completed before it began.
owns e none = true
owns e (some t) =
    (t.epoch == e)
    && not t.is_cancelled
    && (not t.playback_completed || t.speaking_notified || t.is_finished)

-- The turn that a barge-in waits for is of an older epoch, and cancelled.
abbrev pub is_stale : ℕ → Option Turn → Bool
is_stale e none = true
is_stale e (some t) = not (t.epoch == e) && t.is_cancelled

-- A barge-in that waits has the newest epoch, and the turn that it waits for is stale.
abbrev pub IsWaiting : ℕ → Option Turn → Phase → Type 0
IsWaiting epoch turn quiet = Unit
IsWaiting epoch turn (flushing e after) = (e ≡ epoch) × (is_stale epoch turn ≡ true)
IsWaiting epoch turn (reaping e after) = (e ≡ epoch) × (is_stale epoch turn ≡ true)

-- The pipeline is busy, the microphone is gated and the turn is stale only for a reason.
abbrev pub IsHeard : InteractionCore → Type 0
IsHeard c =
    (is_interrupted c ≡ true)
    ⊎ (((is_busy c.state ≡ false) ⊎ (is_some c.active_turn ≡ true))
        × ((c.is_gated ≡ false) ⊎ (is_sounding c.epoch c.active_turn ≡ true))
        × (owns c.epoch c.active_turn ≡ true))

abbrev pub IsLive : InteractionCore → Type 0
IsLive c = IsWaiting c.epoch c.active_turn c.phase × IsHeard c

abbrev pub IsSettled : InteractionCore → Type 0
IsSettled c = (c.is_stopped ≡ true) ⊎ IsLive c

abbrev step : VoicePipelineState → VoicePipelineState → VoicePipelineState
step target old = moved old (transition_to target old)

pub step-idle : (s : VoicePipelineState) → step listening (step idle s) ≡ listening
step-idle idle = refl
step-idle listening = refl
step-idle processing = refl
step-idle speaking = refl
step-idle interrupted = refl
step-idle error = refl

pub step-interrupted : (s : VoicePipelineState) → step listening (step interrupted s) ≡ listening
step-interrupted idle = refl
step-interrupted listening = refl
step-interrupted processing = refl
step-interrupted speaking = refl
step-interrupted interrupted = refl
step-interrupted error = refl

pub invalidate-IsLive :
    (after : After) (c : InteractionCore)
    → owns c.epoch c.active_turn ≡ true
    → IsLive (invalidate after c)
unfolding invalidate begin_stop
invalidate-IsLive after c h = ground arith

pub notify_speaking-IsLive :
    (t : Turn) (c : InteractionCore)
    → c.active_turn ≡ some t
    → t.is_finished ≡ false
    → IsLive c
    → IsLive (notify_speaking t c)
unfolding notify_speaking transition_in transition
notify_speaking-IsLive t c e f h = ground arith

pub complete_response-IsLive :
    (t : Turn) (c : InteractionCore)
    → c.active_turn ≡ some t
    → IsLive c
    → IsLive (complete_response t c)
unfolding complete_response complete_playback
complete_response-IsLive t c e h = ground arith

pub end_turn-IsLive :
    (t : Turn) (c : InteractionCore) → c.active_turn ≡ some t → IsLive c → IsLive (end_turn t c)
unfolding end_turn complete_playback
end_turn-IsLive t c e h = ground arith

-- The done callback runs with the microphone and the turn as they should be.
return_to_listening-IsHeard :
    (c : InteractionCore)
    → (is_interrupted c ≡ true)
      ⊎ (((c.is_gated ≡ false) ⊎ (is_sounding c.epoch c.active_turn ≡ true))
          × (owns c.epoch c.active_turn ≡ true))
    → IsHeard (return_to_listening c)
unfolding return_to_listening transition
return_to_listening-IsHeard c h = elim (Bool-cases (is_interrupted c)) [
  | inl e ↦ rw (e, return_to_listening) (inl e)
  | inr e ↦
      rw (e, return_to_listening, step-idle c.state)
        (elim h [ inl i ↦ absurd (ground (arith, e, i)) | inr (g, o) ↦ inr (inl refl, g, o) ])
]

eqb_refl : (n : ℕ) → (n == n) ≡ true
eqb_refl n = ground arith

transition_in-current :
    (e : ℕ) (target : VoicePipelineState) (c : InteractionCore)
    → e ≡ c.epoch
    → transition_in e target c ≡ transition target c
unfolding transition_in
transition_in-current e target c h = rw (h, eqb_refl c.epoch) refl

recover-is_gated :
    (s : VoicePipelineState) (c : InteractionCore) → (recover s c).is_gated ≡ c.is_gated
unfolding recover transition
recover-is_gated idle c = refl
recover-is_gated listening c = refl
recover-is_gated processing c = refl
recover-is_gated speaking c = refl
recover-is_gated interrupted c = refl
recover-is_gated error c = refl

recover-phase : (s : VoicePipelineState) (c : InteractionCore) → (recover s c).phase ≡ c.phase
unfolding recover transition
recover-phase idle c = refl
recover-phase listening c = refl
recover-phase processing c = refl
recover-phase speaking c = refl
recover-phase interrupted c = refl
recover-phase error c = refl

pub start_turn-phase :
    (window now : ℕ) (audio : Audio) (c : InteractionCore)
    → (start_turn window now audio c).phase ≡ c.phase
unfolding start_turn prepare_turn transition
start_turn-phase window now audio c =
    ap (λ d. d.phase)
      (transition_in-current (c.epoch + 1) processing (prepare_turn window now audio c) refl)
    ∙ recover-phase c.state c

started-IsHeard :
    (t : Turn) (c : InteractionCore)
    → c.active_turn ≡ some t
    → owns c.epoch (some t) ≡ true
    → c.is_gated ≡ false
    → IsHeard (transition processing c)
unfolding transition
started-IsHeard t c a o g = rw (a, g) (inr (inr refl, inl refl, o))

return_to_listening-IsWaiting :
    (c : InteractionCore)
    → IsWaiting c.epoch c.active_turn c.phase
    → IsWaiting
        (return_to_listening c).epoch
        (return_to_listening c).active_turn
        (return_to_listening c).phase
unfolding return_to_listening transition
return_to_listening-IsWaiting c h = elim (Bool-cases (is_interrupted c)) [
  | inl e ↦ rw (e, return_to_listening) h
  | inr e ↦ rw (e, return_to_listening) h
]

pub return_to_listening-IsLive :
    (c : InteractionCore)
    → IsWaiting c.epoch c.active_turn c.phase
    → (is_interrupted c ≡ true)
      ⊎ (((c.is_gated ≡ false) ⊎ (is_sounding c.epoch c.active_turn ≡ true))
          × (owns c.epoch c.active_turn ≡ true))
    → IsLive (return_to_listening c)
return_to_listening-IsLive c p h =
    (return_to_listening-IsWaiting c p, return_to_listening-IsHeard c h)

pub start_turn-IsHeard :
    (window now : ℕ) (audio : Audio) (c : InteractionCore)
    → c.is_gated ≡ false
    → IsHeard (start_turn window now audio c)
unfolding start_turn prepare_turn
start_turn-IsHeard window now audio c h =
    let p = prepare_turn window now audio c in
    subst IsHeard (sym (transition_in-current (c.epoch + 1) processing p refl)) (
      started-IsHeard (new_turn (c.epoch + 1)) p refl (ground arith)
        (recover-is_gated c.state c ∙ h))

listening_after :
    (e : ℕ) (c : InteractionCore)
    → e ≡ c.epoch
    → transition_in e listening (transition_in e interrupted c) ≡ record c { state = listening }
unfolding transition
listening_after e c h =
    ap (transition_in e listening) (transition_in-current e interrupted c h)
    ∙ transition_in-current e listening (transition interrupted c) h
    ∙ ap (λ s. record c { state = s }) (step-interrupted c.state)

-- A barge-in that has the newest epoch ends in LISTENING, with the microphone open and no turn.
pub finish_barge_in-listening :
    (e : ℕ) (c : InteractionCore)
    → e ≡ c.epoch
    → finish_barge_in e c
      ≡ record (drop_turn c) { state = listening; is_gated = false; phase = quiet }
unfolding finish_barge_in drop_turn
finish_barge_in-listening e c h =
    let open_mic : InteractionCore → InteractionCore =
      λ d. record d { is_gated = false; phase = quiet } in
    ap open_mic (listening_after e (drop_turn c) h)
