-- ===== src/LoopDetector/Examples.antt =====
-- The theorems about the loop detector at concrete observations and calls.
use tom.Prelude.{String, ◌≡◌, refl, ◌↔◌, true, false, Option, some, none, List, map, [], ◌∷◌}
use tom.LoopDetector.Defs.{
  new, at_least_two, ToolSig, normalize_observation, record_tool_call, is_loop_detected,
}
use tom.LoopDetector.Observations.{record_all, history, HasRun, observations_detected}
use tom.LoopDetector.ToolCalls
use tom.LoopDetector.ToolCalls.{
  ToolCall, fingerprint, record_calls, HasRepetition, detected-HasRepetition, failing,
  failures_detected,
}

abbrev seen : List (Option String)
seen = some "a" ∷ some "b" ∷ none ∷ some "b" ∷ some "b" ∷ some "c" ∷ []

abbrev digest : String → String
digest s = s

observations_detected_example :
    let ss = map (normalize_observation digest) seen in
    (is_loop_detected (record_all ss (new 3 3)) ≡ true) ↔ HasRun (at_least_two 3) (history ss [])
observations_detected_example = observations_detected digest 3 3 seen

abbrev search_call : ToolSig
search_call = ("web.search", "1f")

abbrev calls : List ToolCall
calls =
    failing ("web.fetch", "2e") "timeout"
    ∷ failing search_call "timeout"
    ∷ failing search_call "refused"
    ∷ fingerprint {P = String} {O = String} (λ p. false) digest digest "web.search" (some "1f")
        (some "timeout") true
    ∷ []

calls_detected : is_loop_detected (record_calls calls (new 3 3)) ≡ true
unfolding fingerprint is_loop_detected record_calls new record_tool_call
calls_detected = refl

detected-HasRepetition_example : HasRepetition (at_least_two 3) (ToolCalls.history calls [])
detected-HasRepetition_example = detected-HasRepetition 3 3 calls calls_detected
