-- ===== src/Voice/Examples.antt =====
-- Concrete runs of `InteractionCore` (python/tom/voice/interaction_core.py).
use tom.Prelude.{◌+◌, ◌≡◌, refl, true, false, some, List, [], ◌∷◌}
use tom.Voice.Pipeline.{idle, listening, speaking}
use tom.Voice.Runs.{
  Event, speech_starts, turn_begins, speaks, ends, done, stale_done, flushed, reaped, stops,
  shutdown_flushed, shutdown_reaped, new, has_running, run,
}
use tom.Voice.Invariant.{IsSettled}
use tom.Voice.Safety.{run-IsSettled}
use tom.Voice.Settling.{IsListening, turn_returns_to_listening, barge_in_returns_to_listening}
use tom.Voice.Kept.{IsCounted}
use tom.Voice.Stops.{run-IsCounted}

-- A turn begins and speaks.
abbrev first_turn : List Event
first_turn = speech_starts 0 ∷ turn_begins 10 (1 ∷ 2 ∷ []) ∷ speaks ∷ []

speaking_first : (run 2000 first_turn new).state ≡ speaking
unfolding run
speaking_first = refl

gated_first : (run 2000 first_turn new).is_gated ≡ true
unfolding run
gated_first = refl

-- It is interrupted, and its successor, which is interrupted before it speaks, gives its audio to
-- the turn that follows.
abbrev interrupted_twice : List Event
interrupted_twice =
    speech_starts 0
    ∷ turn_begins 10 (1 ∷ 2 ∷ [])
    ∷ speaks
    ∷ speech_starts 20
    ∷ flushed true
    ∷ ends
    ∷ done
    ∷ reaped 21
    ∷ turn_begins 30 (3 ∷ [])
    ∷ speech_starts 40
    ∷ ends
    ∷ done
    ∷ reaped 41
    ∷ turn_begins 50 (4 ∷ [])
    ∷ []

stopped_once : (run 2000 interrupted_twice new).engine_calls ≡ 1
unfolding run
stopped_once = refl

both_merged : (run 2000 interrupted_twice new).active_audio ≡ some (3 ∷ 4 ∷ [])
unfolding run
both_merged = refl

-- It is interrupted, and the core is stopped before the engine has answered.
abbrev stopped_meanwhile : List Event
stopped_meanwhile =
    speech_starts 0
    ∷ turn_begins 10 (1 ∷ 2 ∷ [])
    ∷ speaks
    ∷ speech_starts 20
    ∷ stops
    ∷ flushed true
    ∷ shutdown_flushed true
    ∷ ends
    ∷ done
    ∷ reaped 21
    ∷ shutdown_reaped
    ∷ []

stopped_for_both : (run 2000 stopped_meanwhile new).engine_calls ≡ 2
unfolding run
stopped_for_both = refl

idle_after : (run 2000 stopped_meanwhile new).state ≡ idle
unfolding run
idle_after = refl

-- A turn begins before the done callback of the last one runs, which then leaves LISTENING.
abbrev overtaken : List Event
overtaken = turn_begins 10 (1 ∷ []) ∷ ends ∷ turn_begins 11 (2 ∷ []) ∷ stale_done ∷ []

overtaken_listening : (run 2000 overtaken new).state ≡ listening
unfolding run
overtaken_listening = refl

overtaken_running : has_running (run 2000 overtaken new).active_turn ≡ true
unfolding run
overtaken_running = refl

run-IsSettled_example : IsSettled (run 2000 interrupted_twice new)
run-IsSettled_example = run-IsSettled 2000 interrupted_twice

run-IsCounted_example : IsCounted (run 2000 interrupted_twice new)
run-IsCounted_example = run-IsCounted 2000 interrupted_twice

turn_returns_to_listening_example :
    IsListening (run 2000 (ends ∷ done ∷ []) (run 2000 first_turn new))
unfolding run
turn_returns_to_listening_example = turn_returns_to_listening 2000 first_turn refl refl refl

barge_in_returns_to_listening_example :
    IsListening (
      run 2000
        (speech_starts 20 ∷ flushed false ∷ ends ∷ done ∷ reaped 21 ∷ [])
        (run 2000 first_turn new))
    × ((run 2000
          (speech_starts 20 ∷ flushed false ∷ ends ∷ done ∷ reaped 21 ∷ [])
          (run 2000 first_turn new)).epoch
        ≡ (run 2000 first_turn new).epoch + 1)
unfolding run
barge_in_returns_to_listening_example =
    barge_in_returns_to_listening 2000 20 21 false first_turn refl refl refl
