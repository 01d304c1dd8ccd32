-- ===== src/LoopDetector/Defs.antt =====
-- The detector's state and methods (python/tom/agents/loop_detector.py). The fingerprints of JSON
-- texts (`json.dumps`, `hashlib.sha256`) are functions that the methods take as arguments.
use tom.Prelude.{
  ℕ, ◌+◌, String, Bool, true, false, ◌&&◌, ◌||◌, not, Option, none, some, leb, ltb, str_eq,
  if◌then◌else◌,
}

abbrev pub ToolSig : Type 0
ToolSig = String × String

pub data LoopReason : Type 0 where
  tool_repetition : String → ℕ → LoopReason
  observation_stagnation : ℕ → LoopReason

pub record LoopDetector : Type 0 where
  pub tool_threshold : ℕ
  pub observation_threshold : ℕ
  pub last_tool_sig : Option ToolSig
  pub last_outcome_sig : Option String
  pub consecutive_tool_count : ℕ
  pub last_obs_sig : Option String
  pub consecutive_obs_count : ℕ
  pub loop_reason : Option LoopReason

abbrev pub at_least_two : ℕ → ℕ
at_least_two n = if ltb n 2 then 2 else n

-- `__init__`: no threshold is below two.
unfoldable pub new : ℕ → ℕ → LoopDetector
new tool_threshold observation_threshold = record {
  tool_threshold = at_least_two tool_threshold;
  observation_threshold = at_least_two observation_threshold;
  last_tool_sig = none;
  last_outcome_sig = none;
  consecutive_tool_count = 0;
  last_obs_sig = none;
  consecutive_obs_count = 0;
  loop_reason = none;
}

-- `==` between a stored signature, which may be `None`, and a new one.
abbrev pub is_sig : Option String → String → Bool
is_sig none s = false
is_sig (some t) s = str_eq t s

abbrev pub is_tool_sig : Option ToolSig → ToolSig → Bool
is_tool_sig none s = false
is_tool_sig (some t) s = str_eq t.0 s.0 && str_eq t.1 s.1

-- An empty dictionary and a missing one have the empty fingerprint.
unfoldable pub normalize_parameters {ℓ} :
    {P : Type ℓ} → (P → Bool) → (P → String) → Option P → String
normalize_parameters is_empty digest none = ""
normalize_parameters is_empty digest (some p) = if is_empty p then "" else digest p

unfoldable pub normalize_observation {ℓ} : {O : Type ℓ} → (O → String) → Option O → String
normalize_observation digest none = ""
normalize_observation digest (some o) = digest o

-- The part of `record_tool_call` that tracks the call, on its signatures.
track_call : ToolSig → String → Bool → LoopDetector → LoopDetector
track_call tool_sig outcome_sig success d =
    let is_same_call = is_tool_sig d.last_tool_sig tool_sig in
    let is_ineffective = not success || (is_same_call && is_sig d.last_outcome_sig outcome_sig) in
    if is_same_call && is_ineffective
    then record d { consecutive_tool_count = d.consecutive_tool_count + 1 }
    else record d {
      last_tool_sig = some tool_sig;
      last_outcome_sig = some outcome_sig;
      consecutive_tool_count = 1;
    }

check_calls : String → LoopDetector → LoopDetector
check_calls tool_name d =
    if leb d.tool_threshold d.consecutive_tool_count
    then record d { loop_reason = some (tool_repetition tool_name d.consecutive_tool_count) }
    else d

-- `record_tool_call` once the fingerprints are known.
unfoldable pub record_tool_call : ToolSig → String → Bool → LoopDetector → LoopDetector
unfolding track_call check_calls
record_tool_call tool_sig outcome_sig success d =
    check_calls tool_sig.0 (track_call tool_sig outcome_sig success d)

track_observation : String → LoopDetector → LoopDetector
track_observation obs_sig d =
    if is_sig d.last_obs_sig obs_sig
    then record d { consecutive_obs_count = d.consecutive_obs_count + 1 }
    else record d { last_obs_sig = some obs_sig; consecutive_obs_count = 1 }

check_observations : LoopDetector → LoopDetector
check_observations d =
    if leb d.observation_threshold d.consecutive_obs_count
    then record d { loop_reason = some (observation_stagnation d.consecutive_obs_count) }
    else d

-- `record_observation` once the fingerprint is known; an empty one is not recorded.
unfoldable pub record_observation : String → LoopDetector → LoopDetector
unfolding track_observation check_observations
record_observation obs_sig d =
    if str_eq obs_sig "" then d else check_observations (track_observation obs_sig d)

unfoldable pub is_loop_detected : LoopDetector → Bool
is_loop_detected d = elim d.loop_reason [ none ↦ false | some r ↦ true ]

unfoldable pub reset : LoopDetector → LoopDetector
reset d = record d {
  last_tool_sig = none;
  last_outcome_sig = none;
  consecutive_tool_count = 0;
  last_obs_sig = none;
  consecutive_obs_count = 0;
  loop_reason = none;
}
