-- ===== src/Voice/Kept.antt =====
-- The steps of `InteractionCore` (python/tom/voice/interaction_core.py) that ask the engine for no
-- stop of the playback.
use tom.Prelude.{All, All-map, length, ◌≤◌, ℕ, ◌+◌, ◌≡◌, ◌∙◌, Bool, false, List, [], ◌∷◌, arith}
use tom.Voice.Pipeline.{VoicePipelineState, listening}
use tom.Voice.Core.{
  Audio, Turn, After, returns, listens, begins, Phase, flushing, InteractionCore, transition,
  transition_in, finish_stop, finish_shutdown_stop,
}
use tom.Voice.Turns.{
  prepare_turn, drop_turn, recover, start_turn, notify_speaking, complete_playback, end_turn,
  return_to_listening, drop_turn, finish_barge_in, shut_down, go_on,
}
use tom.Voice.Runs.{complete_response}
use tom.Voice.Core.{has_epoch}

abbrev pub IsDistinct : List ℕ → Type 0
IsDistinct [] = Unit
IsDistinct (e ∷ es) = (has_epoch e es ≡ false) × IsDistinct es

-- The engine is asked to stop, and has not answered.
abbrev pub asked : Phase → ℕ
asked (flushing e after) = 1
asked _ = 0

abbrev pub IsCounted : InteractionCore → Type 0
IsCounted c =
    All (λ e. e ≤ c.epoch) c.stopped_epochs
    × IsDistinct c.stopped_epochs
    × (c.engine_calls + asked c.phase + asked c.shutdown ≤ length c.stopped_epochs)
    × (length c.stopped_epochs ≤ c.epoch)

-- The stops are those of another core, its epoch is not older, and it is stopped if the other is.
unfoldable pub Keeps : InteractionCore → InteractionCore → Type 0
Keeps c d =
    (d.stopped_epochs ≡ c.stopped_epochs)
    × (d.engine_calls + asked d.phase + asked d.shutdown
        ≤ c.engine_calls + asked c.phase + asked c.shutdown)
    × (c.epoch ≤ d.epoch)
    × (d.is_stopped ≡ c.is_stopped)

pub above : (m n : ℕ) → m ≤ n → (es : List ℕ) → All (λ e. e ≤ m) es → All (λ e. e ≤ n) es
above m n h es a = All-map (λ e x. ground arith) es a

pub kept-IsCounted : (c d : InteractionCore) → Keeps c d → IsCounted c → IsCounted d
unfolding Keeps
kept-IsCounted c d (s, k, e, i) (a, b, n, l) =
    rw s (above c.epoch d.epoch e c.stopped_epochs a, b, omega arith, omega arith)

pub notify_speaking-Keeps : (t : Turn) (c : InteractionCore) → Keeps c (notify_speaking t c)
unfolding Keeps notify_speaking transition_in transition
notify_speaking-Keeps t c = ground arith

pub complete_response-Keeps : (t : Turn) (c : InteractionCore) → Keeps c (complete_response t c)
unfolding Keeps complete_response complete_playback
complete_response-Keeps t c = ground arith

pub end_turn-Keeps : (t : Turn) (c : InteractionCore) → Keeps c (end_turn t c)
unfolding Keeps end_turn complete_playback
end_turn-Keeps t c = ground arith

pub return_to_listening-Keeps : (c : InteractionCore) → Keeps c (return_to_listening c)
unfolding Keeps return_to_listening transition
return_to_listening-Keeps c = ground arith

pub recover-Keeps : (s : VoicePipelineState) (c : InteractionCore) → Keeps c (recover s c)
unfolding Keeps recover transition
recover-Keeps s c = ground arith

pub start_turn-Keeps :
    (window now : ℕ) (audio : Audio) (c : InteractionCore) → Keeps c (start_turn window now audio c)
unfolding Keeps start_turn prepare_turn transition_in transition recover
start_turn-Keeps window now audio c = ground arith

pub finish_barge_in-Keeps : (e : ℕ) (c : InteractionCore) → Keeps c (finish_barge_in e c)
unfolding Keeps finish_barge_in drop_turn transition_in transition
finish_barge_in-Keeps e c = ground arith

pub shut_down-Keeps : (c : InteractionCore) → Keeps c (shut_down c)
unfolding Keeps shut_down drop_turn transition
shut_down-Keeps c = ground arith

pub listening-Keeps : (c : InteractionCore) → Keeps c (transition listening c)
unfolding Keeps transition
listening-Keeps c = ground arith

pub finish_stop-Keeps :
    (b : Bool) (e : ℕ) (a : After) (c : InteractionCore)
    → asked c.phase ≡ 1
    → Keeps c (finish_stop b e a c)
unfolding Keeps finish_stop
finish_stop-Keeps b e a c h = ground arith

pub finish_shutdown_stop-Keeps :
    (b : Bool) (e : ℕ) (c : InteractionCore)
    → asked c.shutdown ≡ 1
    → Keeps c (finish_shutdown_stop b e c)
unfolding Keeps finish_shutdown_stop finish_stop
finish_shutdown_stop-Keeps b e c h = ground arith

-- Two steps that keep the stops.
both-Keeps : (c d e : InteractionCore) → Keeps c d → Keeps d e → Keeps c e
unfolding Keeps
both-Keeps c d e (s, k, n, i) (t, l, m, j) =
    (t ∙ s, omega (arith, k, l), omega (arith, n, m), j ∙ i)

pub go_on-Keeps :
    (window now e : ℕ) (after : After) (c : InteractionCore) → Keeps c (go_on window now e after c)
unfolding go_on
go_on-Keeps window now e returns c = finish_barge_in-Keeps e c
go_on-Keeps window now e listens c =
    both-Keeps c (finish_barge_in e c) _ (finish_barge_in-Keeps e c)
      (listening-Keeps (finish_barge_in e c))
go_on-Keeps window now e (begins audio) c =
    both-Keeps c (finish_barge_in e c) _ (finish_barge_in-Keeps e c)
      (start_turn-Keeps window now audio (finish_barge_in e c))
