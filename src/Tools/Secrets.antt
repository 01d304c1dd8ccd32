-- ===== src/Tools/Secrets.antt =====
-- What leaves an execution of `ToolExecutor` (python/tom/tools/executor.py) by its questions and its
-- results.
use tom.Prelude.{
  ℕ, String, ◌≡◌, refl, ◌⊎◌, inl, inr, Bool, true, false, Option, none, some, [], All,
  if◌then◌else◌, Bool-cases,
}
use tom.Dict.{get}
use tom.Permissions.Payloads.{Payload, str, dict, items, other, Fields}
use tom.Permissions.Decisions.{Reason, PermissionDecision}
use tom.Tools.Registry.{
  Validation, valid, invalid, Schema, Data, object, instance_of, Ran, tool_result, value, times_out,
  is_cancelled, fails, misfits, Handler, ToolDefinition,
}
use tom.Tools.Binding.{Params, raw_params}
use tom.Tools.Pipeline.{
  Message, ToolExecutor, Effect, asked, invoked, Outcome, returned, prohibited, Reply,
  redaction_error, or_redacted, scrubbed_object, revalidated, scrubbed_model, safe_scrub_string,
  safe_scrub_object, safe_scrub_data, safe_scrub_error, fail, pack, request, invoke, validated_with,
  validate_by, validate, confirm_params, decided, with_handler, with_tool, execute,
}

module _ (x : ToolExecutor) where
  -- A text or an object that the scrubber made, or the mark of its failure.
  abbrev pub IsScrubbedText : String → Type 0
  IsScrubbedText t = (t ≡ redaction_error) ⊎ ((s : String) × (x.scrub_string s ≡ some t))

  abbrev pub IsScrubbedObject : Payload → Type 0
  IsScrubbedObject p = (p ≡ str redaction_error) ⊎ ((q : Payload) × (x.scrub_object q ≡ some p))

  -- A model is one that its class makes of a scrubbed object.
  abbrev pub IsScrubbedData : Option Data → Type 0
  IsScrubbedData none = Unit
  IsScrubbedData (some (object p)) = IsScrubbedObject p
  IsScrubbedData (some (instance_of s fs)) =
      (p : Payload) × IsScrubbedObject p × (s.model_validate p ≡ valid fs)

  abbrev pub IsScrubbedError : Option String → Type 0
  IsScrubbedError none = Unit
  IsScrubbedError (some t) = IsScrubbedText t

  abbrev pub IsCleanOutcome : Outcome → Type 0
  IsCleanOutcome (returned r) = IsScrubbedData r.data_of × IsScrubbedError r.error
  IsCleanOutcome _ = Unit

  abbrev pub IsCleanEffect : Effect → Type 0
  IsCleanEffect (asked q) = IsScrubbedObject (dict q.params)
  IsCleanEffect (invoked call) = Unit

  abbrev IsClean : Reply → Type 0
  IsClean r = All IsCleanEffect r.0 × IsCleanOutcome r.1

  or_redacted-IsScrubbed :
      (s : String) (o : Option String) → x.scrub_string s ≡ o → IsScrubbedText (or_redacted o)
  unfolding or_redacted
  or_redacted-IsScrubbed s none e = inl refl
  or_redacted-IsScrubbed s (some t) e = inr (s, e)

  scrubbed_object-IsScrubbed :
      (q : Payload) (o : Option Payload)
      → x.scrub_object q ≡ o
      → IsScrubbedObject (scrubbed_object o)
  unfolding scrubbed_object
  scrubbed_object-IsScrubbed q none e = inl refl
  scrubbed_object-IsScrubbed q (some p) e = inr (q, e)

  revalidated-IsScrubbed :
      (s : Schema) (p : Payload) (v : Validation)
      → IsScrubbedObject p
      → s.model_validate p ≡ v
      → IsScrubbedData (some (revalidated s p v))
  unfolding revalidated
  revalidated-IsScrubbed s p (valid fs) h e = (p, h, e)
  revalidated-IsScrubbed s p (invalid t) h e = h

  scrubbed_model-IsScrubbed :
      (s : Schema) (q : Payload) (o : Option Payload)
      → x.scrub_object q ≡ o
      → IsScrubbedData (some (scrubbed_model s o))
  unfolding scrubbed_model
  scrubbed_model-IsScrubbed s q none e = inl refl
  scrubbed_model-IsScrubbed s q (some p) e = revalidated-IsScrubbed s p _ (inr (q, e)) refl

  data-IsScrubbed : (o : Option Data) → IsScrubbedData (safe_scrub_data x o)
  unfolding safe_scrub_data safe_scrub_object
  data-IsScrubbed none = tt
  data-IsScrubbed (some (object p)) = scrubbed_object-IsScrubbed p _ refl
  data-IsScrubbed (some (instance_of s fs)) = scrubbed_model-IsScrubbed s (dict fs) _ refl

  error-IsScrubbed : (o : Option String) → IsScrubbedError (safe_scrub_error x o)
  unfolding safe_scrub_error safe_scrub_string
  error-IsScrubbed none = tt
  error-IsScrubbed (some t) = or_redacted-IsScrubbed t _ refl

  fail-IsScrubbed : (elapsed : ℕ) (m : Message) → IsCleanOutcome (returned (fail x elapsed m))
  unfolding fail safe_scrub_string
  fail-IsScrubbed elapsed m = (tt, or_redacted-IsScrubbed (x.message m) _ refl)

  pack-IsClean :
      (d : ToolDefinition) (c : Bool) (limit elapsed : ℕ) (r : Ran)
      → IsCleanOutcome (pack x d c limit elapsed r)
  unfolding pack
  pack-IsClean d c limit elapsed (tool_result r) =
      (data-IsScrubbed r.data_of, error-IsScrubbed r.error)
  pack-IsClean d c limit elapsed (value v) = (data-IsScrubbed v, tt)
  pack-IsClean d c limit elapsed times_out = fail-IsScrubbed elapsed _
  pack-IsClean d c limit elapsed is_cancelled = tt
  pack-IsClean d c limit elapsed (fails t) = fail-IsScrubbed elapsed _
  pack-IsClean d true limit elapsed (misfits t) = tt
  pack-IsClean d false limit elapsed (misfits t) = fail-IsScrubbed elapsed _

  module _ (d : ToolDefinition) (params : Params) (timeout : Option ℕ) (n elapsed : ℕ) where
    module _ (h : Handler) where
      invoke-IsClean :
          (v : Option (Schema × Fields)) → IsClean (invoke x d h params timeout n elapsed v)
      unfolding invoke
      invoke-IsClean v = ((tt, tt), pack-IsClean d h.is_coroutine _ elapsed _)

      validated_with-IsClean :
          (s : Schema) (v : Validation)
          → IsClean (validated_with x d h params timeout n elapsed s v)
      unfolding validated_with
      validated_with-IsClean s (valid fs) = invoke-IsClean (some (s, fs))
      validated_with-IsClean s (invalid t) = (tt, fail-IsScrubbed elapsed _)

      validate-IsClean :
          (o : Option Schema) → IsClean (validate_by x d h params timeout n elapsed o)
      unfolding validate_by
      validate-IsClean none = invoke-IsClean none
      validate-IsClean (some s) = validated_with-IsClean s _

      confirm_params-IsClean :
          (reason : Reason) (p : Payload)
          → IsScrubbedObject p
          → IsClean (confirm_params x d h params timeout n elapsed reason p)
      unfolding confirm_params validate
      confirm_params-IsClean reason (dict fs) s = elim (Bool-cases (x.confirm (request x d fs))) [
        | inl e ↦
            let (es, o) = validate-IsClean d.input_schema in
            rw (e, confirm_params, validate) ((s, es), o)
        | inr e ↦ rw (e, confirm_params) ((s, tt), tt)
      ]
      confirm_params-IsClean reason (str t) s = (tt, tt)
      confirm_params-IsClean reason (items ps) s = (tt, tt)
      confirm_params-IsClean reason other s = (tt, tt)

      gate-IsClean :
          (reason : Reason) (refused required : Bool)
          → IsClean (
              if refused
              then ([], prohibited reason)
              else if required
              then confirm_params x d h params timeout n elapsed reason
                  (safe_scrub_object x (dict (raw_params params)))
              else validate x d h params timeout n elapsed)
      unfolding validate safe_scrub_object
      gate-IsClean reason true required = (tt, tt)
      gate-IsClean reason false true =
          confirm_params-IsClean reason _
            (scrubbed_object-IsScrubbed (dict (raw_params params)) _ refl)
      gate-IsClean reason false false = validate-IsClean d.input_schema

      decided-IsClean :
          (o : Option PermissionDecision) → IsClean (decided x d h params timeout n elapsed o)
      unfolding decided
      decided-IsClean none = (tt, tt)
      decided-IsClean (some p) = gate-IsClean p.reason _ p.requires_confirmation

    with_handler-IsClean :
        (o : Option Handler) → IsClean (with_handler x d o params timeout n elapsed)
    unfolding with_handler
    with_handler-IsClean none = (tt, tt)
    with_handler-IsClean (some h) = decided-IsClean h _

  with_tool-IsClean :
      (o : Option ToolDefinition) (params : Params) (timeout : Option ℕ) (n elapsed : ℕ)
      → IsClean (with_tool x o params timeout n elapsed)
  unfolding with_tool
  with_tool-IsClean none params timeout n elapsed = (tt, tt)
  with_tool-IsClean (some d) params timeout n elapsed =
      with_handler-IsClean d params timeout n elapsed d.handler

-- Whatever a handler does, the parameters in each question to the user, and the data and the error of
-- a returned result, are what the scrubber made, or the mark of its failure; a returned model is one
-- that its class makes of such an object.
pub execute-IsClean :
    (x : ToolExecutor) (tool_name : String) (params : Params) (timeout : Option ℕ) (n elapsed : ℕ)
    → All (IsCleanEffect x) (execute x tool_name params timeout n elapsed).0
      × IsCleanOutcome x (execute x tool_name params timeout n elapsed).1
unfolding execute
execute-IsClean x tool_name params timeout n elapsed =
    with_tool-IsClean x (get x.registry tool_name) params timeout n elapsed
