-- ===== src/Tools/Binding.antt =====
-- The binding of a handler's arguments (python/tom/tools/executor.py).
use tom.Prelude.{
  ℕ, String, Bool, true, false, ◌&&◌, ◌||◌, Option, none, some, List, [], ◌∷◌, length, ◌==◌, str_eq,
  if◌then◌else◌,
}
use tom.Dict.{Dict, put}
use tom.Permissions.Payloads.{Payload, dict, Fields, end, field, lookup}
use tom.Tools.Registry.{
  Schema, text, own_schema, other_model, unmarked, Parameter, Value, raw, model, priority, Call,
}

-- The argument `params`: None, a model, a dictionary, or another value.
pub data Params : Type 0 where
  absent : Params
  model_params : Fields → Params
  dict_params : Fields → Params
  value_params : Payload → Params

unfoldable pub raw_params : Params → Fields
raw_params absent = end
raw_params (model_params fs) = fs
raw_params (dict_params fs) = fs
raw_params (value_params p) = field "value" p end

-- The fields of a dictionary as keyword arguments.
unfoldable pub spread : Fields → Dict Value
spread end = []
spread (field k v fs) = (k, raw v) ∷ spread fs

unfoldable pub has_name : String → List String → Bool
has_name k [] = false
has_name k (j ∷ js) = str_eq j k || has_name k js

unfoldable pub is_model_param : Schema → Parameter → Bool
is_model_param s p = elim p.annotation [
  | text t ↦ str_eq t s.name
  | own_schema ↦ true
  | other_model ↦ true
  | unmarked ↦ false
]

-- The last parameter that takes the model.
unfoldable pub model_param : Schema → List Parameter → Option Parameter
unfolding is_model_param
model_param s [] = none
model_param s (p ∷ ps) = elim (model_param s ps) [
  | some q ↦ some q
  | none ↦ if is_model_param s p then some p else none
]

abbrev put_given : String → Option Payload → Dict Value → Dict Value
put_given k none kwargs = kwargs
put_given k (some v) kwargs = put kwargs k (raw v)

-- The values of the other parameters, which the dictionary gives or leaves to the handler's defaults.
unfoldable pub add_others : Schema → Fields → List Parameter → Dict Value → Dict Value
unfolding is_model_param
add_others s fs [] kwargs = kwargs
add_others s fs (p ∷ ps) kwargs =
    let with_it = add_others s fs ps (put_given p.name (lookup p.name fs) kwargs) in
    let without_it = add_others s fs ps kwargs in if is_model_param s p then without_it else with_it

-- The arguments, and whether the keyword arguments are the very dictionary `raw_params`.
pub record Bound : Type 0 where
  pub call : Call
  pub is_shared : Bool

abbrev own : List Value → Dict Value → Bound
own args kwargs = record { call = record { args = args; kwargs = kwargs }; is_shared = false }

abbrev shared : Fields → Bound
shared fs = record { call = record { args = []; kwargs = spread fs }; is_shared = true }

-- One parameter, which no model is meant for.
unfoldable pub bind_single : Option (Schema × Fields) → Fields → Parameter → Bound
unfolding has_name spread
bind_single (some (s, m)) fs p =
    if has_name p.name s.model_fields && length s.model_fields == 1
    then own [] (spread m)
    else own (model m ∷ []) []
bind_single none (field k v end) p =
    if str_eq k p.name then shared (field k v end) else own (raw (dict (field k v end)) ∷ []) []
bind_single none fs p = own (raw (dict fs) ∷ []) []

-- No parameter is meant for a model.
unfoldable pub bind_raw : Option (Schema × Fields) → Fields → List Parameter → Bound
unfolding bind_single spread
bind_raw validated fs (p ∷ []) = bind_single validated fs p
bind_raw validated fs ps = shared fs

unfoldable pub bind : Option (Schema × Fields) → Fields → List Parameter → Bound
unfolding bind_raw model_param add_others
bind none fs ps = bind_raw none fs ps
bind (some (s, m)) fs ps = elim (model_param s ps) [
  | some p ↦ own [] (add_others s fs ps ((p.name, model m) ∷ []))
  | none ↦ bind_raw (some (s, m)) fs ps
]

abbrev takes_priority : List Parameter → Bool
takes_priority [] = false
takes_priority (p ∷ ps) = str_eq p.name "resource_priority" || takes_priority ps

unfoldable pub inject : ℕ → List Parameter → Bound → Bound
inject n ps b =
    if takes_priority ps
    then record b {
      call = record {
        args = b.call.args;
        kwargs = put b.call.kwargs "resource_priority" (priority n);
      };
    }
    else b

-- What the caller finds in its own dictionary afterwards.
unfoldable pub params_after : Params → Bound → Dict Value
unfolding raw_params spread
params_after (dict_params fs) b = if b.is_shared then b.call.kwargs else spread fs
params_after params b = spread (raw_params params)
