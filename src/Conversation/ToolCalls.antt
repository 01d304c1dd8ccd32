-- ===== src/Conversation/ToolCalls.antt =====
-- `record_tool_call` of `ConversationTurnManager` (python/tom/voice/turn_manager.py) with its table of
-- rules.
use tom.Prelude.{String, Bool, Option, none, some, [], ◌∷◌, leb, if◌then◌else◌}
use tom.Dict.{Dict, get, put}
use tom.Conversation.Manager.{
  EntityKind, file, directory, memory, screen, tool, query, app, EntityReferent,
  ConversationTurnManager, size, fits_referent, note,
}

-- A rule has the slot, the kind of the referent and the parameter that it takes.
pub record ReferentRule : Type 0 where
  pub slot : String
  pub kind : EntityKind
  pub arg_key : String

abbrev rule : String → EntityKind → String → ReferentRule
rule slot kind arg_key = record { slot = slot; kind = kind; arg_key = arg_key }

-- _TOOL_REFERRULES
unfoldable pub tool_referent_rules : Dict ReferentRule
tool_referent_rules =
    ("files.read_file", rule "last_file" file "path")
    ∷ ("files.get_metadata", rule "last_file" file "path")
    ∷ ("files.write_file", rule "last_file" file "path")
    ∷ ("files.copy_file", rule "last_file" file "destination")
    ∷ ("files.delete_file", rule "last_file" file "path")
    ∷ ("files.list_directory", rule "last_directory" directory "path")
    ∷ ("memory.search", rule "last_query" query "query")
    ∷ ("memory.recall", rule "last_query" query "query")
    ∷ ("memory.remember", rule "last_memory" memory "content")
    ∷ ("vision.capture", rule "last_screen" screen "monitor")
    ∷ ("vision.ocr", rule "last_screen" screen "monitor")
    ∷ ("vision.find_element", rule "last_screen" screen "monitor")
    ∷ ("vision.ask", rule "last_screen" screen "monitor")
    ∷ ("os.input.click", rule "last_input_target" app "x")
    ∷ ("os.input.type_text", rule "last_input_target" app "text")
    ∷ ("os.input.hotkey", rule "last_input_target" app "keys")
    ∷ []

-- A parameter of a call: None, a list, dict or tuple, or another value with its `str`.
pub data Value : Type 0 where
  null nested : Value
  scalar : String → Value

-- str.strip and text[:2000].
pub record TextMethods : Type 0 where
  pub strip : String → String
  pub cut : String → String

-- The text of the parameter that a rule takes, if it has one.
unfoldable pub text_of : TextMethods → Option Value → Option String
text_of py (some (scalar s)) = if leb 1 (size (py.strip s)) then some (py.strip s) else none
text_of py _ = none

label_of : EntityKind → String
label_of file = "last file"
label_of directory = "last directory"
label_of memory = "last memory"
label_of screen = "last screen"
label_of tool = "last tool"
label_of query = "last query"
label_of app = "last app"
label_of EntityKind.task = "last task"
label_of EntityKind.generic = "last generic"

abbrev pub last_tool : String → String → EntityReferent
last_tool turn_id tool_name = record {
  name = "last_tool";
  kind = tool;
  label = "last tool used";
  value = tool_name;
  turn_id = turn_id;
}

-- The referent that a tool's rule makes of the parameters.
unfoldable pub referent_of :
    TextMethods → String → Dict Value → Option ReferentRule → Option EntityReferent
unfolding text_of label_of
referent_of py turn_id params none = none
referent_of py turn_id params (some r) = elim (text_of py (get params r.arg_key)) [
  | none ↦ none
  | some text ↦ some (record {
    name = r.slot;
    kind = r.kind;
    label = label_of r.kind;
    value = py.cut text;
    turn_id = turn_id;
  })
]

-- The referent of the rule is written, also into the current context, if that is the one that is
-- given; the context learns of the tool only then.
unfoldable pub add_referent :
    EntityReferent
    → Option EntityReferent
    → Bool
    → ConversationTurnManager
    → ConversationTurnManager × Option EntityReferent
unfolding fits_referent
add_referent used none of_current m = (m, none)
add_referent used (some r) of_current m =
    let m' = record m { referents = put m.referents r.name r } in
    if fits_referent r
    then (
      record m' { current = if of_current then note used (note r m.current) else m.current },
      some r,
    )
    else (m, none)

unfoldable pub record_tool_call :
    TextMethods
    → String
    → String
    → Dict Value
    → Bool
    → ConversationTurnManager
    → ConversationTurnManager × Option EntityReferent
unfolding tool_referent_rules referent_of add_referent
record_tool_call py turn_id tool_name params of_current m =
    let used = last_tool turn_id tool_name in
    if fits_referent used
    then add_referent used (referent_of py turn_id params (get tool_referent_rules tool_name))
        of_current (record m { referents = put m.referents "last_tool" used })
    else (m, none)
