-- ===== src/Tools/Registry.antt =====
-- The registry of tools (python/tom/tools/registry.py). A tool's handler and its schema are not part
-- of this code: a handler is what its call does, and a schema what Pydantic does with it.
use tom.Prelude.{ℕ, String, Bool, not, ◌&&◌, Option, none, some, List, if◌then◌else◌}
use tom.Dict.{Dict, get, has, put, remove}
use tom.Permissions.Levels.{PermissionLevel}
use tom.Permissions.Payloads.{Payload, Fields}

pub data Validation : Type 0 where
  valid : Fields → Validation
  invalid : String → Validation

-- A class of models, with its name, the names of its fields and `model_validate`; a model is given by
-- what `model_dump` makes of it.
pub record Schema : Type 0 where
  pub name : String
  pub model_fields : List String
  pub model_validate : Payload → Validation

-- The annotation of a parameter: a text, the tool's own schema, another class of models, or none of
-- these.
pub data Annotation : Type 0 where
  text : String → Annotation
  own_schema other_model unmarked : Annotation

pub record Parameter : Type 0 where
  pub name : String
  pub annotation : Annotation

-- An argument of a handler.
pub data Value : Type 0 where
  raw : Payload → Value
  model : Fields → Value
  priority : ℕ → Value

pub record Call : Type 0 where
  pub args : List Value
  pub kwargs : Dict Value

pub data Data : Type 0 where
  object : Payload → Data
  instance_of : Schema → Fields → Data

-- The time is in microseconds.
pub record ToolResult : Type 0 where
  pub success : Bool
  pub data_of : Option Data
  pub error : Option String
  pub execution_time : ℕ

-- What becomes of a call: a result, a value, the TimeoutError of the wait or of the handler, the
-- cancellation of the caller, another exception, or the TypeError of arguments that do not fit.
pub data Ran : Type 0 where
  tool_result : ToolResult → Ran
  value : Option Data → Ran
  times_out is_cancelled : Ran
  fails : String → Ran
  misfits : String → Ran

-- A handler is what becomes of its call within a time, in milliseconds.
pub record Handler : Type 0 where
  pub parameters : List Parameter
  pub is_coroutine : Bool
  pub call : Call → ℕ → Ran

-- `input_schema` is `none` if it is not a class of models.
pub record ToolDefinition : Type 0 where
  pub name : String
  pub description : String
  pub input_schema : Option Schema
  pub permission_level : PermissionLevel
  pub timeout : ℕ
  pub handler : Option Handler

-- The results of the two methods of the registry that raise; `none` is the exception.
unfoldable pub register : ToolDefinition → Bool → Dict ToolDefinition → Option (Dict ToolDefinition)
register d replace tools =
    if has tools d.name && not replace then none else some (put tools d.name d)

unfoldable pub unregister :
    String → Dict ToolDefinition → Option (Dict ToolDefinition × ToolDefinition)
unregister tool_name tools = elim (get tools tool_name) [
  | none ↦ none
  | some d ↦ some (remove tools tool_name, d)
]
