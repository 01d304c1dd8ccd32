-- ===== src/Permissions/Engine.antt =====
-- `PermissionEngine` of python/tom/security/permissions.py.
use tom.Prelude.{
  String, Bool, true, false, Option, none, some, List, not, ◌&&◌, ◌||◌, str_eq, if◌then◌else◌,
}
use tom.Dict.{Dict, get, has, put, remove}
use tom.Permissions.Levels.{
  TextMethods, PermissionLevel, safe, block, from_str, default_tool_permissions,
  personal_action_escalation,
}
use tom.Permissions.Decisions.{
  PermissionDecision, allow, ask_user, deny, empty_name, unexpected_tool, blocked_substring,
  has_secrets, prohibited, needs_confirmation, auto_confirmed, is_safe,
}
use tom.Permissions.Payloads.{Payload, str, Fields, end, field, lookup, find_in_values}

-- The fields of the configuration that the engine reads, and the overrides.
pub record PermissionEngine : Type 0 where
  pub require_confirmation_for_ask : Bool
  pub blocked_commands : List String
  pub overrides : Dict PermissionLevel

-- The argument `tool`: a definition with its name and level, a name, or something else.
pub data Tool : Type 0 where
  definition : String → PermissionLevel → Tool
  name : String → Tool
  other : Tool

-- The argument `params`: None, a dictionary, or another object with its attributes.
pub data Params : Type 0 where
  absent : Params
  dict : Fields → Params
  object : Fields → Params

abbrev pub attributes : Params → Fields
attributes absent = end
attributes (dict fs) = fs
attributes (object fs) = fs

-- bool(params)
abbrev pub is_given : Params → Bool
is_given absent = false
is_given (dict end) = false
is_given (dict (field k v fs)) = true
is_given (object fs) = true

-- The result of step 1: a name and a level, an early decision, or the ValueError of `from_str`.
pub data Base : Type 0 where
  resolved : String → PermissionLevel → Base
  refused : PermissionDecision → Base
  invalid_level : Base

leveled : String → Option PermissionLevel → Base
leveled tool_name none = invalid_level
leveled tool_name (some level) = resolved tool_name level

-- A `PermissionLevel` is a text, so `default_level` is one too.
unfoldable pub resolve : TextMethods → Tool → String → Base
unfolding leveled deny
resolve py (definition tool_name level) default_level = resolved tool_name level
resolve py (name given) default_level =
    let tool_name = py.strip given in
    if str_eq tool_name ""
    then refused (deny empty_name block)
    else if has default_tool_permissions tool_name && str_eq default_level "SAFE"
    then leveled tool_name (get default_tool_permissions tool_name)
    else leveled tool_name (from_str py default_level)
resolve py other default_level = refused (deny unexpected_tool block)

-- The scan looks into a dictionary only; an object is none of the types that it knows.
unfoldable pub blocked_match : TextMethods → List String → Params → Option String
blocked_match py commands absent = none
blocked_match py commands (dict fs) = find_in_values py commands fs
blocked_match py commands (object fs) = none

-- `if blocked_match:`; the empty text counts as no match.
unfoldable pub is_match : Option String → Bool
is_match none = false
is_match (some blocked) = not (str_eq blocked "")

abbrev pub text_of : Option String → String
text_of none = ""
text_of (some blocked) = blocked

-- Whether `content` is a text that is not empty and in which the scanner finds a secret.
unfoldable pub secret_content : (String → Bool) → Option Payload → Bool
secret_content scan (some (str content)) = not (str_eq content "") && scan content
secret_content scan _ = false

unfoldable pub is_important : TextMethods → Option Payload → Bool
is_important py (some (str importance)) =
    let clean = py.upper importance in str_eq clean "IMPORTANT" || str_eq clean "CRITICAL"
is_important py _ = false

-- Whether the action is one of the tool's read actions.
unfoldable pub is_read : Option String → Option Payload → Bool
is_read (some read) (some (str action)) = str_eq action read
is_read _ _ = false

unfoldable pub remembers : String → Params → Bool
remembers tool_name params = str_eq tool_name "memory.remember" && is_given params

-- The two escalations of step 3, in their order; the denial for secrets comes before both.
unfoldable pub escalate : TextMethods → String → Params → PermissionLevel → PermissionLevel
unfolding remembers is_important is_read
escalate py tool_name params base_level =
    let level =
      if remembers tool_name params && is_important py (lookup "importance" (attributes params))
      then PermissionLevel.ask_user
      else base_level in
    if has personal_action_escalation tool_name
      && not
          (is_read (get personal_action_escalation tool_name) (lookup "action" (attributes params)))
    then PermissionLevel.ask_user
    else level

-- Step 4.
unfoldable pub decide : PermissionEngine → String → PermissionLevel → PermissionDecision
unfolding deny allow ask_user
decide e tool_name block = deny (prohibited tool_name) block
decide e tool_name PermissionLevel.ask_user =
    if e.require_confirmation_for_ask
    then ask_user (needs_confirmation tool_name) PermissionLevel.ask_user
    else allow PermissionLevel.ask_user (auto_confirmed tool_name)
decide e tool_name safe = allow safe (is_safe tool_name)

-- Step 3 without the override.
unfoldable pub decide_escalated :
    TextMethods
    → (String → Bool)
    → PermissionEngine
    → String
    → PermissionLevel
    → Params
    → PermissionDecision
unfolding deny escalate decide remembers secret_content
decide_escalated py scan e tool_name base_level params =
    if remembers tool_name params && secret_content scan (lookup "content" (attributes params))
    then deny has_secrets block
    else decide e tool_name (escalate py tool_name params base_level)

-- Steps 2 to 4, for a resolved name and level.
unfoldable pub judge :
    TextMethods
    → (String → Bool)
    → PermissionEngine
    → String
    → PermissionLevel
    → Params
    → PermissionDecision
unfolding is_match blocked_match deny decide decide_escalated
judge py scan e tool_name base_level params =
    let found = blocked_match py e.blocked_commands params in
    if is_given params && is_match found
    then deny (blocked_substring (text_of found)) block
    else elim (get e.overrides tool_name) [
      | some level ↦ decide e tool_name level
      | none ↦ decide_escalated py scan e tool_name base_level params
    ]

-- What follows on step 1.
unfoldable pub conclude :
    TextMethods → (String → Bool) → PermissionEngine → Params → Base → Option PermissionDecision
unfolding judge
conclude py scan e params (resolved tool_name base_level) =
    some (judge py scan e tool_name base_level params)
conclude py scan e params (refused decision) = some decision
conclude py scan e params invalid_level = none

-- `none` is the ValueError of `from_str`. `scan` stands for `MemoryPolicy.default_scan_for_secrets`.
unfoldable pub evaluate :
    TextMethods
    → (String → Bool)
    → PermissionEngine
    → Tool
    → Params
    → String
    → Option PermissionDecision
unfolding resolve conclude
evaluate py scan e tool params default_level =
    conclude py scan e params (resolve py tool default_level)

-- `none` is the ValueError of `from_str`.
unfoldable pub set_override :
    TextMethods → String → String → PermissionEngine → Option PermissionEngine
set_override py tool_name level e = elim (from_str py level) [
  | none ↦ none
  | some found ↦ some (record e { overrides = put e.overrides tool_name found })
]

unfoldable pub remove_override : String → PermissionEngine → PermissionEngine
remove_override tool_name e = record e { overrides = remove e.overrides tool_name }

unfoldable pub get_override : String → PermissionEngine → Option PermissionLevel
get_override tool_name e = get e.overrides tool_name

unfoldable pub clear_overrides : PermissionEngine → PermissionEngine
clear_overrides e = record e { overrides = List.[] }
