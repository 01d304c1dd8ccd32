-- ===== src/Tools/Examples.antt =====
-- An executor with one tool that asks, and the theorems about it there.
use tom.Prelude.{
  String, ◌≡◌, refl, inl, inr, true, false, Option, none, some, List, [], ◌∷◌, All, str_eq,
  if◌then◌else◌,
}
use tom.Dict.{has, put, remove, get}
use tom.Permissions.Levels.{TextMethods, ask_user, is_block}
use tom.Permissions.Payloads.{
  contains, find_in_text, find_in_values, lookup, Payload, str, dict, Fields, end, field,
}
use tom.Permissions.Decisions.{PermissionDecision}
use tom.Permissions.Engine
use tom.Permissions.Engine.{PermissionEngine, evaluate}
use tom.Tools.Registry.{
  Validation, valid, invalid, Schema, raw, model, priority, Call, object, value, Parameter,
  own_schema, unmarked, Handler, ToolDefinition, register, unregister,
}
use tom.Tools.Binding.{Params, dict_params, raw_params, bind, inject, params_after}
use tom.Tools.Pipeline.{ToolExecutor, asked, invoked, returned, request, execute}
use tom.Tools.Clearance.{IsConfirmed, IsValidated, invoked-IsCleared}
use tom.Tools.Secrets.{IsCleanEffect, IsCleanOutcome, execute-IsClean}

abbrev methods : TextMethods
methods = record { lower = λ t. t; upper = λ t. t; strip = λ t. t }

abbrev hide : String → String
hide t = if str_eq t "hunter2" then "***" else t

abbrev hide_object : Payload → Option Payload
hide_object (str t) = some (str (hide t))
hide_object (dict (field k (str t) end)) = some (dict (field k (str (hide t)) end))
hide_object _ = none

abbrev validate_note : Payload → Validation
validate_note (dict (field k v fs)) = valid (field k v fs)
validate_note _ = invalid "not a note"

abbrev note : Schema
note = record { name = "Note"; model_fields = "text" ∷ []; model_validate = validate_note }

abbrev writer : Handler
writer = record {
  parameters =
      record { name = "args"; annotation = own_schema }
      ∷ record { name = "resource_priority"; annotation = unmarked }
      ∷ [];
  is_coroutine = true;
  call = λ c t. value (some (object (str "hunter2")));
}

abbrev write : ToolDefinition
write = record {
  name = "notes.write";
  description = "writes a note";
  input_schema = some note;
  permission_level = ask_user;
  timeout = 15_000;
  handler = some writer;
}

abbrev executor : ToolExecutor
executor = record {
  methods = methods;
  scan = λ t. false;
  engine = record {
    require_confirmation_for_ask = true;
    blocked_commands = "rm" ∷ [];
    overrides = [];
  };
  registry = ("notes.write", write) ∷ [];
  confirm = λ q. true;
  confirmation_timeout = 30_000;
  scrub_string = λ t. some (hide t);
  scrub_object = hide_object;
  message = λ m. "failed";
  default_timeout = 15_000;
}

abbrev secret : Fields
secret = field "text" (str "hunter2") end

abbrev params : Params
params = dict_params secret

abbrev call : Call
call = record {
  args = [];
  kwargs = ("args", model secret) ∷ ("resource_priority", priority 5) ∷ [];
}

registered : register write false [] ≡ some (("notes.write", write) ∷ [])
unfolding register has put
registered = refl

unregistered : unregister "notes.write" executor.registry ≡ some ([], write)
unfolding unregister get remove
unregistered = refl

run :
    (execute executor "notes.write" params none 5 40).0
    ≡ asked (request executor write (field "text" (str "***") end)) ∷ invoked call ∷ []
unfolding execute get evaluate raw_params find_in_values find_in_text contains has put lookup
run = refl

hidden :
    (execute executor "notes.write" params none 5 40).1
    ≡ returned (record {
      success = true;
      data_of = some (object (str "***"));
      error = none;
      execution_time = 40;
    })
unfolding execute get evaluate raw_params find_in_values find_in_text contains has
hidden = refl

-- A handler without a parameter for the model shares the caller's dictionary, which then has the
-- priority too.
abbrev two : List Parameter
two =
    record { name = "text"; annotation = unmarked }
    ∷ record { name = "resource_priority"; annotation = unmarked }
    ∷ []

caller_sees_priority :
    params_after params (inject 5 two (bind (some (note, secret)) secret two))
    ≡ ("text", raw (str "hunter2")) ∷ ("resource_priority", priority 5) ∷ []
unfolding params_after inject bind put
caller_sees_priority = refl

invoked-IsCleared_example :
    (d : ToolDefinition) × (p : PermissionDecision) × (get executor.registry "notes.write" ≡ some d)
    × (evaluate methods executor.scan executor.engine
          (Engine.definition d.name d.permission_level)
          (Engine.dict secret)
          "SAFE"
        ≡ some p)
    × (p.allowed ≡ true)
    × (is_block p.permission_level ≡ false)
    × IsConfirmed executor d params call p.requires_confirmation
        (execute executor "notes.write" params none 5 40).0
    × IsValidated d params
unfolding execute get evaluate raw_params find_in_values find_in_text contains has put lookup
invoked-IsCleared_example =
    invoked-IsCleared executor "notes.write" params none 5 40 call (inr (inl refl))

execute-IsClean_example :
    All (IsCleanEffect executor) (execute executor "notes.write" params none 5 40).0
    × IsCleanOutcome executor (execute executor "notes.write" params none 5 40).1
execute-IsClean_example = execute-IsClean executor "notes.write" params none 5 40
