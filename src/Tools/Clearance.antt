-- ===== src/Tools/Clearance.antt =====
-- What an execution of `ToolExecutor` (python/tom/tools/executor.py) went through before it calls a
-- handler.
use tom.Prelude.{
  ℕ, String, ◌≡◌, refl, sym, ap, ◌⊎◌, inl, inr, Bool, true, false, not, ◌||◌, Option, none, some,
  List, [], ◌∷◌, IsIn, arith, if◌then◌else◌,
}
use tom.Dict.{get}
use tom.Permissions.Levels.{is_block}
use tom.Permissions.Payloads.{Payload, str, dict, items, other, Fields}
use tom.Permissions.Decisions.{Reason, PermissionDecision}
use tom.Permissions.Engine
use tom.Permissions.Engine.{evaluate}
use tom.Tools.Registry.{Validation, valid, invalid, Schema, Call, Handler, ToolDefinition}
use tom.Tools.Binding.{Params, raw_params}
use tom.Tools.Pipeline.{
  ToolExecutor, Effect, asked, invoked, request, after_asking, prohibited, unconfirmed,
  safe_scrub_object, invoke, validated_with, validate_by, validate, with_tool, confirm_params,
  decided, with_handler, execute,
}

-- The schema, if there is one, takes the parameters.
abbrev pub IsValidated : ToolDefinition → Params → Type 0
IsValidated d params =
    (d.input_schema ≡ none)
    ⊎ ((s : Schema) × (fs : Fields) × (d.input_schema ≡ some s)
        × (s.model_validate (dict (raw_params params)) ≡ valid fs))

module _ (x : ToolExecutor) (d : ToolDefinition) (params : Params) (call : Call) where
  -- The handler was called once, without a question if none is required, and else after the user said
  -- yes to the scrubbed parameters.
  abbrev pub IsConfirmed : Bool → List Effect → Type 0
  IsConfirmed required effects =
      ((required ≡ false) × (effects ≡ invoked call ∷ []))
      ⊎ ((fs : Fields) × (safe_scrub_object x (dict (raw_params params)) ≡ dict fs)
          × (x.confirm (request x d fs) ≡ true)
          × (effects ≡ asked (request x d fs) ∷ invoked call ∷ []))

  module _ (h : Handler) (timeout : Option ℕ) (n elapsed : ℕ) where
    validated_with-invoked :
        (s : Schema) (v : Validation)
        → IsIn (invoked call) (validated_with x d h params timeout n elapsed s v).0
        → ((validated_with x d h params timeout n elapsed s v).0 ≡ invoked call ∷ [])
          × ((fs : Fields) × (v ≡ valid fs))
    unfolding validated_with invoke
    validated_with-invoked s (valid fs) (inl e) = (ap (λ f. f ∷ []) (sym e), (fs, refl))
    validated_with-invoked s (valid fs) (inr i) = absurd i
    validated_with-invoked s (invalid t) i = absurd i

    validate-invoked :
        (o : Option Schema)
        → d.input_schema ≡ o
        → IsIn (invoked call) (validate_by x d h params timeout n elapsed o).0
        → ((validate_by x d h params timeout n elapsed o).0 ≡ invoked call ∷ [])
          × IsValidated d params
    unfolding validate_by invoke
    validate-invoked none e (inl g) = (ap (λ f. f ∷ []) (sym g), inl e)
    validate-invoked none e (inr i) = absurd i
    validate-invoked (some s) e i =
        let (g, (fs, w)) =
          validated_with-invoked s (s.model_validate (dict (raw_params params))) i in
        (g, inr (s, fs, e, w))

    -- The two ends of the question, for what the user says.
    answer-invoked :
        (reason : Reason) (fs : Fields) (b : Bool)
        → safe_scrub_object x (dict (raw_params params)) ≡ dict fs
        → x.confirm (request x d fs) ≡ b
        → IsIn
            (invoked call)
            (if b
              then after_asking (request x d fs) (validate x d h params timeout n elapsed)
              else (asked (request x d fs) ∷ [], unconfirmed reason)).0
        → IsConfirmed true
            (if b
              then after_asking (request x d fs) (validate x d h params timeout n elapsed)
              else (asked (request x d fs) ∷ [], unconfirmed reason)).0
          × IsValidated d params
    unfolding validate
    answer-invoked reason fs true e c (inl g) = ground arith
    answer-invoked reason fs true e c (inr i) =
        let (g, v) = validate-invoked d.input_schema refl i in
        (inr (fs, e, c, ap (λ es. asked (request x d fs) ∷ es) g), v)
    answer-invoked reason fs false e c (inl g) = ground arith
    answer-invoked reason fs false e c (inr i) = absurd i

    confirm_params-invoked :
        (reason : Reason) (p : Payload)
        → safe_scrub_object x (dict (raw_params params)) ≡ p
        → IsIn (invoked call) (confirm_params x d h params timeout n elapsed reason p).0
        → IsConfirmed true (confirm_params x d h params timeout n elapsed reason p).0
          × IsValidated d params
    unfolding confirm_params
    confirm_params-invoked reason (dict fs) e i = answer-invoked reason fs _ e refl i
    confirm_params-invoked reason (str t) e i = absurd i
    confirm_params-invoked reason (items ps) e i = absurd i
    confirm_params-invoked reason other e i = absurd i

    gate-invoked :
        (reason : Reason) (refused required : Bool)
        → IsIn
            (invoked call)
            (if refused
              then ([], prohibited reason)
              else if required
              then confirm_params x d h params timeout n elapsed reason
                  (safe_scrub_object x (dict (raw_params params)))
              else validate x d h params timeout n elapsed).0
        → (refused ≡ false)
          × IsConfirmed required
              (if refused
                then ([], prohibited reason)
                else if required
                then confirm_params x d h params timeout n elapsed reason
                    (safe_scrub_object x (dict (raw_params params)))
                else validate x d h params timeout n elapsed).0
          × IsValidated d params
    unfolding validate
    gate-invoked reason true required i = absurd i
    gate-invoked reason false true i =
        let (c, v) = confirm_params-invoked reason _ refl i in (refl, c, v)
    gate-invoked reason false false i =
        let (g, v) = validate-invoked d.input_schema refl i in (refl, inl (refl, g), v)

    decided-invoked :
        (o : Option PermissionDecision)
        → IsIn (invoked call) (decided x d h params timeout n elapsed o).0
        → (p : PermissionDecision) × (o ≡ some p)
          × (p.allowed ≡ true)
          × (is_block p.permission_level ≡ false)
          × IsConfirmed p.requires_confirmation (decided x d h params timeout n elapsed o).0
          × IsValidated d params
    unfolding decided
    decided-invoked none i = absurd i
    decided-invoked (some p) i =
        let (r, c, v) =
          gate-invoked p.reason (not p.allowed || is_block p.permission_level)
            p.requires_confirmation i in
        (p, refl, ground arith, ground arith, c, v)

  with_handler-invoked :
      (o : Option Handler) (timeout : Option ℕ) (n elapsed : ℕ)
      → IsIn (invoked call) (with_handler x d o params timeout n elapsed).0
      → (p : PermissionDecision) × (evaluate x.methods x.scan x.engine
            (Engine.definition d.name d.permission_level)
            (Engine.dict (raw_params params))
            "SAFE"
          ≡ some p)
        × (p.allowed ≡ true)
        × (is_block p.permission_level ≡ false)
        × IsConfirmed p.requires_confirmation (with_handler x d o params timeout n elapsed).0
        × IsValidated d params
  unfolding with_handler
  with_handler-invoked none timeout n elapsed i = absurd i
  with_handler-invoked (some h) timeout n elapsed i = decided-invoked h timeout n elapsed _ i

with_tool-invoked :
    (x : ToolExecutor) (o : Option ToolDefinition) (params : Params) (timeout : Option ℕ)
    (n elapsed : ℕ) (call : Call)
    → IsIn (invoked call) (with_tool x o params timeout n elapsed).0
    → (d : ToolDefinition) × (p : PermissionDecision) × (o ≡ some d)
      × (evaluate x.methods x.scan x.engine
            (Engine.definition d.name d.permission_level)
            (Engine.dict (raw_params params))
            "SAFE"
          ≡ some p)
      × (p.allowed ≡ true)
      × (is_block p.permission_level ≡ false)
      × IsConfirmed x d params call p.requires_confirmation
          (with_tool x o params timeout n elapsed).0
      × IsValidated d params
unfolding with_tool
with_tool-invoked x none params timeout n elapsed call i = absurd i
with_tool-invoked x (some d) params timeout n elapsed call i =
    let (p, e, a, b, c, v) = with_handler-invoked x d params call d.handler timeout n elapsed i in
    (d, p, refl, e, a, b, c, v)

-- An execution that calls a handler does so once: the tool is registered, the decision of the
-- permission engine allows it at a level other than BLOCK, the user said yes before if a confirmation
-- is required, and the schema, if there is one, takes the parameters.
pub invoked-IsCleared :
    (x : ToolExecutor) (tool_name : String) (params : Params) (timeout : Option ℕ) (n elapsed : ℕ)
    (call : Call)
    → IsIn (invoked call) (execute x tool_name params timeout n elapsed).0
    → (d : ToolDefinition) × (p : PermissionDecision) × (get x.registry tool_name ≡ some d)
      × (evaluate x.methods x.scan x.engine
            (Engine.definition d.name d.permission_level)
            (Engine.dict (raw_params params))
            "SAFE"
          ≡ some p)
      × (p.allowed ≡ true)
      × (is_block p.permission_level ≡ false)
      × IsConfirmed x d params call p.requires_confirmation
          (execute x tool_name params timeout n elapsed).0
      × IsValidated d params
unfolding execute
invoked-IsCleared x tool_name params timeout n elapsed call i =
    with_tool-invoked x (get x.registry tool_name) params timeout n elapsed call i
