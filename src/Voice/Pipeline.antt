-- ===== src/Voice/Pipeline.antt =====
-- `VoicePipelineState` (python/tom/schemas/voice.py) with the transition matrix and `transition_to` of
-- `VoicePipelineManager` (python/tom/voice/pipeline.py).
use tom.Prelude.{Bool, true, false, Option, none, some, if◌then◌else◌}

pub data VoicePipelineState : Type 0 where
  idle listening processing speaking interrupted error : VoicePipelineState

-- VALID_PIPELINE_TRANSITIONS
abbrev pub valid_pipeline_transitions : VoicePipelineState → VoicePipelineState → Bool
valid_pipeline_transitions idle listening = true
valid_pipeline_transitions idle processing = true
valid_pipeline_transitions idle error = true
valid_pipeline_transitions listening processing = true
valid_pipeline_transitions listening speaking = true
valid_pipeline_transitions listening idle = true
valid_pipeline_transitions listening interrupted = true
valid_pipeline_transitions listening error = true
valid_pipeline_transitions processing speaking = true
valid_pipeline_transitions processing idle = true
valid_pipeline_transitions processing interrupted = true
valid_pipeline_transitions processing error = true
valid_pipeline_transitions speaking idle = true
valid_pipeline_transitions speaking listening = true
valid_pipeline_transitions speaking interrupted = true
valid_pipeline_transitions speaking error = true
valid_pipeline_transitions interrupted idle = true
valid_pipeline_transitions interrupted listening = true
valid_pipeline_transitions interrupted error = true
valid_pipeline_transitions error idle = true
valid_pipeline_transitions error listening = true
valid_pipeline_transitions _ _ = false

abbrev pub is_same : VoicePipelineState → VoicePipelineState → Bool
is_same idle idle = true
is_same listening listening = true
is_same processing processing = true
is_same speaking speaking = true
is_same interrupted interrupted = true
is_same error error = true
is_same _ _ = false

-- The state after `transition_to`, or the InvalidStateTransitionError.
abbrev pub transition_to : VoicePipelineState → VoicePipelineState → Option VoicePipelineState
transition_to target state =
    if is_same target state
    then some state
    else if valid_pipeline_transitions state target
    then some target
    else none
