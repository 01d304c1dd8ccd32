-- ===== src/Tools/Pipeline.antt =====
-- `ToolExecutor` (python/tom/tools/executor.py). An execution gives what it did outside, in order, and
-- how it ended. A tool is registered under its own name, so the definition gives the name in a message.
use tom.Prelude.{
  ℕ, String, Bool, true, false, not, ◌||◌, Option, none, some, List, [], ◌∷◌, ◌==◌, leb,
  if◌then◌else◌,
}
use tom.Dict.{Dict, get}
use tom.Permissions.Levels.{TextMethods, is_block}
use tom.Permissions.Payloads.{Payload, str, dict, items, other, Fields}
use tom.Permissions.Decisions.{Reason, PermissionDecision}
use tom.Permissions.Engine
use tom.Permissions.Engine.{PermissionEngine, evaluate}
use tom.Tools.Registry.{
  Validation, valid, invalid, Schema, Call, Data, object, instance_of, ToolResult, Ran, tool_result,
  value, times_out, is_cancelled, fails, misfits, Handler, ToolDefinition,
}
use tom.Tools.Binding.{Params, raw_params, Bound, bind, inject}

-- The messages, with the values that they show.
pub data Message : Type 0 where
  invalid_arguments : String → String → Message
  timed_out : String → ℕ → Message
  failed : String → String → Message

pub record ConfirmationRequest : Type 0 where
  pub tool_name : String
  pub description : String
  pub params : Fields
  pub timeout : ℕ

-- The executor, with its parts as what their methods do: `none` is an exception of the scrubber.
pub record ToolExecutor : Type 0 where
  pub methods : TextMethods
  pub scan : String → Bool
  pub engine : PermissionEngine
  pub registry : Dict ToolDefinition
  pub confirm : ConfirmationRequest → Bool
  pub confirmation_timeout : ℕ
  pub scrub_string : String → Option String
  pub scrub_object : Payload → Option Payload
  pub message : Message → String
  pub default_timeout : ℕ

pub data Effect : Type 0 where
  asked : ConfirmationRequest → Effect
  invoked : Call → Effect

pub data Outcome : Type 0 where
  returned : ToolResult → Outcome
  tool_not_found no_handler invalid_level invalid_request cancelled : Outcome
  prohibited unconfirmed : Reason → Outcome
  type_error : String → Outcome

abbrev pub Reply : Type 0
Reply = List Effect × Outcome

abbrev pub redaction_error : String
redaction_error = "***REDACTION_ERROR***"

unfoldable pub or_redacted : Option String → String
or_redacted none = redaction_error
or_redacted (some t) = t

unfoldable pub scrubbed_object : Option Payload → Payload
scrubbed_object none = str redaction_error
scrubbed_object (some p) = p

unfoldable pub revalidated : Schema → Payload → Validation → Data
revalidated s p (valid fs) = instance_of s fs
revalidated s p (invalid e) = object p

unfoldable pub scrubbed_model : Schema → Option Payload → Data
unfolding revalidated
scrubbed_model s none = object (str redaction_error)
scrubbed_model s (some p) = revalidated s p (s.model_validate p)

abbrev pub after_asking : ConfirmationRequest → Reply → Reply
after_asking q reply = (asked q ∷ reply.0, reply.1)

-- The time that passed, 1 microsecond at least.
abbrev at_least_one : ℕ → ℕ
at_least_one t = if leb 1 t then t else 1

module _ (x : ToolExecutor) where
  unfoldable pub safe_scrub_string : String → String
  unfolding or_redacted
  safe_scrub_string t = or_redacted (x.scrub_string t)

  unfoldable pub safe_scrub_object : Payload → Payload
  unfolding scrubbed_object
  safe_scrub_object p = scrubbed_object (x.scrub_object p)

  unfoldable pub safe_scrub_data : Option Data → Option Data
  unfolding safe_scrub_object scrubbed_model
  safe_scrub_data none = none
  safe_scrub_data (some (object p)) = some (object (safe_scrub_object p))
  safe_scrub_data (some (instance_of s fs)) = some (scrubbed_model s (x.scrub_object (dict fs)))

  unfoldable pub safe_scrub_error : Option String → Option String
  unfolding safe_scrub_string
  safe_scrub_error none = none
  safe_scrub_error (some t) = some (safe_scrub_string t)

  -- ToolResult.fail with a scrubbed message
  unfoldable pub fail : ℕ → Message → ToolResult
  unfolding safe_scrub_string
  fail elapsed m = record {
    success = false;
    data_of = none;
    error = some (safe_scrub_string (x.message m));
    execution_time = at_least_one elapsed;
  }

  unfoldable pub effective_timeout : ToolDefinition → Option ℕ → ℕ
  effective_timeout d (some t) = t
  effective_timeout d none =
      if not (x.default_timeout == 15_000) then x.default_timeout else d.timeout

  -- What follows the call. Only a coroutine function is called outside of the `try`.
  unfoldable pub pack : ToolDefinition → Bool → ℕ → ℕ → Ran → Outcome
  unfolding fail safe_scrub_data safe_scrub_error
  pack d is_coroutine limit elapsed (tool_result r) = returned (record {
    success = r.success;
    data_of = safe_scrub_data r.data_of;
    error = safe_scrub_error r.error;
    execution_time = at_least_one elapsed;
  })
  pack d is_coroutine limit elapsed (value v) = returned (record {
    success = true;
    data_of = safe_scrub_data v;
    error = none;
    execution_time = at_least_one elapsed;
  })
  pack d is_coroutine limit elapsed times_out = returned (fail elapsed (timed_out d.name limit))
  pack d is_coroutine limit elapsed is_cancelled = cancelled
  pack d is_coroutine limit elapsed (fails e) = returned (fail elapsed (failed d.name e))
  pack d is_coroutine limit elapsed (misfits e) =
      if is_coroutine then type_error e else returned (fail elapsed (failed d.name e))

  unfoldable pub bound_call : Handler → Params → Option (Schema × Fields) → ℕ → Bound
  unfolding bind inject
  bound_call h params validated n =
      inject n h.parameters (bind validated (raw_params params) h.parameters)

  unfoldable pub invoke :
      ToolDefinition → Handler → Params → Option ℕ → ℕ → ℕ → Option (Schema × Fields) → Reply
  unfolding bound_call pack effective_timeout
  invoke d h params timeout n elapsed validated =
      let call = (bound_call h params validated n).call in
      let limit = effective_timeout d timeout in
      (invoked call ∷ [], pack d h.is_coroutine limit elapsed (h.call call limit))

  -- Step 4 and what follows.
  unfoldable pub validated_with :
      ToolDefinition → Handler → Params → Option ℕ → ℕ → ℕ → Schema → Validation → Reply
  unfolding invoke fail
  validated_with d h params timeout n elapsed s (valid fs) =
      invoke d h params timeout n elapsed (some (s, fs))
  validated_with d h params timeout n elapsed s (invalid e) =
      ([], returned (fail elapsed (invalid_arguments d.name e)))

  unfoldable pub validate_by :
      ToolDefinition → Handler → Params → Option ℕ → ℕ → ℕ → Option Schema → Reply
  unfolding validated_with invoke
  validate_by d h params timeout n elapsed none = invoke d h params timeout n elapsed none
  validate_by d h params timeout n elapsed (some s) =
      validated_with d h params timeout n elapsed s (s.model_validate (dict (raw_params params)))

  unfoldable pub validate : ToolDefinition → Handler → Params → Option ℕ → ℕ → ℕ → Reply
  unfolding validate_by
  validate d h params timeout n elapsed = validate_by d h params timeout n elapsed d.input_schema

  abbrev pub request : ToolDefinition → Fields → ConfirmationRequest
  request d fs = record {
    tool_name = d.name;
    description = d.description;
    params = fs;
    timeout = x.confirmation_timeout;
  }

  -- Step 3. A request whose parameters are not a dictionary is refused by its schema.
  unfoldable pub confirm_params :
      ToolDefinition → Handler → Params → Option ℕ → ℕ → ℕ → Reason → Payload → Reply
  unfolding validate
  confirm_params d h params timeout n elapsed reason (dict fs) =
      let rest = validate d h params timeout n elapsed in
      if x.confirm (request d fs)
      then after_asking (request d fs) rest
      else (asked (request d fs) ∷ [], unconfirmed reason)
  confirm_params d h params timeout n elapsed reason (str t) = ([], invalid_request)
  confirm_params d h params timeout n elapsed reason (items ps) = ([], invalid_request)
  confirm_params d h params timeout n elapsed reason other = ([], invalid_request)

  -- The rest of step 2 and what follows.
  unfoldable pub decided :
      ToolDefinition → Handler → Params → Option ℕ → ℕ → ℕ → Option PermissionDecision → Reply
  unfolding confirm_params validate safe_scrub_object
  decided d h params timeout n elapsed none = ([], invalid_level)
  decided d h params timeout n elapsed (some p) =
      if not p.allowed || is_block p.permission_level
      then ([], prohibited p.reason)
      else if p.requires_confirmation
      then confirm_params d h params timeout n elapsed p.reason
          (safe_scrub_object (dict (raw_params params)))
      else validate d h params timeout n elapsed

  unfoldable pub with_handler : ToolDefinition → Option Handler → Params → Option ℕ → ℕ → ℕ → Reply
  unfolding decided
  with_handler d none params timeout n elapsed = ([], no_handler)
  with_handler d (some h) params timeout n elapsed = decided d h params timeout n elapsed (
      evaluate x.methods x.scan x.engine (Engine.definition d.name d.permission_level)
        (Engine.dict (raw_params params)) "SAFE")

  unfoldable pub with_tool : Option ToolDefinition → Params → Option ℕ → ℕ → ℕ → Reply
  unfolding with_handler
  with_tool none params timeout n elapsed = ([], tool_not_found)
  with_tool (some d) params timeout n elapsed = with_handler d d.handler params timeout n elapsed

  -- `elapsed` is the time that `perf_counter` shows at the end.
  unfoldable pub execute : String → Params → Option ℕ → ℕ → ℕ → Reply
  unfolding with_tool
  execute tool_name params timeout resource_priority elapsed =
      with_tool (get x.registry tool_name) params timeout resource_priority elapsed
