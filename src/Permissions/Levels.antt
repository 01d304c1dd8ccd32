-- ===== src/Permissions/Levels.antt =====
-- The tiers and the two tables of python/tom/security/permissions.py.
use tom.Prelude.{String, Bool, true, false, Option, none, some, [], ◌∷◌, str_eq, if◌then◌else◌}
use tom.Dict.{Dict}

-- Python's text methods that need the tables of Unicode. They are parameters.
pub record TextMethods : Type 0 where
  pub lower : String → String
  pub upper : String → String
  pub strip : String → String

pub data PermissionLevel : Type 0 where
  safe ask_user block : PermissionLevel

abbrev pub is_ask_user : PermissionLevel → Bool
is_ask_user ask_user = true
is_ask_user _ = false

abbrev pub is_block : PermissionLevel → Bool
is_block block = true
is_block _ = false

-- The members by their texts, which are `SAFE`, `ASK_USER` and `BLOCK`; `none` is a ValueError.
unfoldable pub member : String → Option PermissionLevel
member text =
    if str_eq text "SAFE"
    then some safe
    else if str_eq text "ASK_USER"
    then some ask_user
    else if str_eq text "BLOCK"
    then some block
    else none

unfoldable pub from_str : TextMethods → String → Option PermissionLevel
unfolding member
from_str py value =
    let clean = py.upper (py.strip value) in
    if str_eq clean "ASK" then some ask_user else member clean

abbrev pub default_tool_permissions : Dict PermissionLevel
default_tool_permissions =
    ("system.cpu_info", safe)
    ∷ ("system.memory_info", safe)
    ∷ ("system.gpu_info", safe)
    ∷ ("system.battery_info", safe)
    ∷ ("system.disk_info", safe)
    ∷ ("system.list_processes", safe)
    ∷ ("system.get_snapshot", safe)
    ∷ ("web.search", safe)
    ∷ ("web.fetch", safe)
    ∷ ("files.list_directory", safe)
    ∷ ("files.read_file", safe)
    ∷ ("files.search_files", safe)
    ∷ ("files.file_info", safe)
    ∷ ("files.write_file", ask_user)
    ∷ ("files.delete_file", ask_user)
    ∷ ("files.get_metadata", safe)
    ∷ ("files.copy_file", ask_user)
    ∷ ("memory.remember", safe)
    ∷ ("memory.recall", safe)
    ∷ ("memory.forget", ask_user)
    ∷ ("memory.recent", safe)
    ∷ ("memory.preferences", safe)
    ∷ ("memory.search", safe)
    ∷ ("memory.status", safe)
    ∷ ("personal.note", safe)
    ∷ ("personal.calendar", safe)
    ∷ ("personal.reminder", safe)
    ∷ ("voice.announce", safe)
    ∷ ("voice.status", safe)
    ∷ ("vision.capture", safe)
    ∷ ("vision.ocr", safe)
    ∷ ("vision.find_element", safe)
    ∷ ("vision.ask", safe)
    ∷ ("vision.analyze", safe)
    ∷ ("os.input.get_cursor_pos", safe)
    ∷ ("os.input.click", ask_user)
    ∷ ("os.input.type_text", ask_user)
    ∷ ("os.input.hotkey", ask_user)
    ∷ []

-- The read actions of the tools of PERSONAL_ACTION_ESCALATION.
abbrev pub personal_action_escalation : Dict String
personal_action_escalation =
    ("personal.note", "retrieve")
    ∷ ("personal.calendar", "retrieve")
    ∷ ("personal.reminder", "retrieve")
    ∷ []
