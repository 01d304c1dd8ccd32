-- ===== src/Models/Coordinator.antt =====
-- The states of a model, its record, and the methods of `ModelLifecycleCoordinator`
-- (python/tom/resources/model_manager.py). Each method runs under one lock; `trigger_eviction` gives
-- the lock up while its hook runs, so it is two functions. Times are whole ticks.
use tom.Prelude.{
  ℕ, ◌+◌, ◌-◌, String, Bool, true, false, Option, none, some, List, [], ◌∷◌, not, leb, ◌==◌,
  if◌then◌else◌,
}
use tom.Dict.{Dict, get, put, remove}
use tom.Resources.Queue.{ModelRole}

pub data ModelState : Type 0 where
  unloaded ready busy idle error : ModelState

-- VALID_TRANSITIONS, as a test.
unfoldable pub is_allowed : ModelState → ModelState → Bool
is_allowed unloaded ready = true
is_allowed unloaded error = true
is_allowed ready busy = true
is_allowed ready unloaded = true
is_allowed ready error = true
is_allowed busy idle = true
is_allowed busy ready = true
is_allowed busy error = true
is_allowed idle busy = true
is_allowed idle unloaded = true
is_allowed idle error = true
is_allowed idle ready = true
is_allowed error unloaded = true
is_allowed error ready = true
is_allowed _ _ = false

-- The registration's other metadata is not read.
pub record ModelRegistration : Type 0 where
  pub model_name : String
  pub role : ModelRole
  pub vram_required_mb : ℕ
  pub ram_required_mb : ℕ
  pub idle_timeout_seconds : ℕ

pub record ModelRecord : Type 0 where
  pub registration : ModelRegistration
  pub state : ModelState
  pub observed_residency : Bool
  pub confirmed_physical_unload : Bool
  pub last_active_at : Option ℕ
  pub active_acquisitions : ℕ

abbrev pub Coordinator : Type 0
Coordinator = Dict ModelRecord

pub data Error : Type 0 where
  model_not_found : String → Error
  invalid_state_transition : ModelState → ModelState → Error
  while_busy : Error
  not_busy : ModelState → Error

-- What a method leaves of the record that it has found: the record, nothing, or an exception before
-- any change.
pub data Result : Type 0 where
  keeps : ModelRecord → Result
  drops : Result
  raised : Error → Result

unfoldable pub settle : Coordinator → String → Result → Coordinator × Option Error
settle c k (keeps r) = (put c k r, none)
settle c k drops = (remove c k, none)
settle c k (raised e) = (c, some e)

-- `_get_record_locked`, with what a method does with the record.
unfoldable pub with_record :
    (ModelRecord → Result) → Coordinator → String → Coordinator × Option Error
unfolding settle
with_record body c k = elim (get c k) [
  | none ↦ (c, some (model_not_found k))
  | some r ↦ settle c k (body r)
]

-- `_transition_locked`, and what follows it.
unfoldable pub transition : ModelRecord → ModelState → (ModelRecord → ModelRecord) → Result
unfolding is_allowed
transition r target k =
    if is_allowed r.state target
    then keeps (k (record r { state = target }))
    else raised (invalid_state_transition r.state target)

-- A registered model keeps its state.
unfoldable pub register_model : ModelRegistration → Coordinator → Coordinator
register_model g c = elim (get c g.model_name) [
  | some r ↦ put c g.model_name (record r { registration = g })
  | none ↦ put c g.model_name (record {
    registration = g;
    state = unloaded;
    observed_residency = false;
    confirmed_physical_unload = false;
    last_active_at = none;
    active_acquisitions = 0;
  })
]

abbrev pub is_busy : ModelState → Bool
is_busy busy = true
is_busy _ = false

unfoldable pub unregister_body : ModelRecord → Result
unregister_body r = if is_busy r.state then raised while_busy else drops

unfoldable pub ready_fields : Bool → ModelRecord → ModelRecord
ready_fields residency r = record r {
  observed_residency = residency;
  confirmed_physical_unload = false;
}

abbrev pub is_ready : ModelState → Bool
is_ready ready = true
is_ready _ = false

unfoldable pub ready_body : Bool → ModelRecord → Result
unfolding transition ready_fields
ready_body residency r =
    if is_ready r.state
    then keeps (record r { observed_residency = residency })
    else transition r ready (ready_fields residency)

unfoldable pub count_acquisition : ℕ → ModelRecord → ModelRecord
count_acquisition now r = record r {
  active_acquisitions = r.active_acquisitions + 1;
  last_active_at = some now;
}

unfoldable pub acquire_body : ℕ → ModelRecord → Result
unfolding transition count_acquisition
acquire_body now r =
    if is_busy r.state
    then keeps (count_acquisition now r)
    else transition r busy (count_acquisition now)

-- The end of the last use; `-` stops at 0, as the source's guard does.
unfoldable pub finish_use : ℕ → ModelRecord → Result
unfolding transition
finish_use now r =
    if r.active_acquisitions == 0
    then transition r idle (λ r'. record r' { last_active_at = some now })
    else keeps r

unfoldable pub release_body : ℕ → ModelRecord → Result
unfolding finish_use
release_body now r =
    if not (is_busy r.state)
    then raised (not_busy r.state)
    else finish_use now (record r { active_acquisitions = r.active_acquisitions - 1 })

unfoldable pub error_body : ℕ → ModelRecord → Result
unfolding transition
error_body now r =
    transition r error (λ r'. record r' { active_acquisitions = 0; last_active_at = some now })

abbrev pub is_unloaded : ModelState → Bool
is_unloaded unloaded = true
is_unloaded _ = false

unfoldable pub unloaded_body : Bool → ModelRecord → Result
unfolding transition
unloaded_body confirmed r =
    if is_busy r.state
    then raised while_busy
    else if is_unloaded r.state
    then keeps (record r { confirmed_physical_unload = confirmed; observed_residency = false })
    else transition r unloaded (λ r'. record r' {
      observed_residency = false;
      confirmed_physical_unload = confirmed;
      active_acquisitions = 0;
    })

-- `trigger_eviction` before the hook.
unfoldable pub evict_check : ModelRecord → Result
evict_check r = if is_busy r.state then raised while_busy else keeps r

-- `trigger_eviction` after a hook that has succeeded.
unfoldable pub evict_body : ModelRecord → Result
unfolding transition
evict_body r =
    if is_busy r.state
    then keeps r
    else transition r unloaded
        (λ r'. record r' { observed_residency = false; confirmed_physical_unload = true })

unfoldable pub unregister_model : String → Coordinator → Coordinator × Option Error
unregister_model k c = with_record unregister_body c k

unfoldable pub record_ready : String → Bool → Coordinator → Coordinator × Option Error
record_ready k residency c = with_record (ready_body residency) c k

unfoldable pub record_acquire : String → ℕ → Coordinator → Coordinator × Option Error
record_acquire k now c = with_record (acquire_body now) c k

unfoldable pub record_release : String → ℕ → Coordinator → Coordinator × Option Error
record_release k now c = with_record (release_body now) c k

unfoldable pub record_error : String → ℕ → Coordinator → Coordinator × Option Error
record_error k now c = with_record (error_body now) c k

unfoldable pub record_unloaded : String → Bool → Coordinator → Coordinator × Option Error
record_unloaded k confirmed c = with_record (unloaded_body confirmed) c k

unfoldable pub begin_eviction : String → Coordinator → Coordinator × Option Error
begin_eviction k c = with_record evict_check c k

-- A model that was unregistered meanwhile is left alone.
unfoldable pub finish_eviction : String → Coordinator → Coordinator × Option Error
unfolding settle
finish_eviction k c = elim (get c k) [ none ↦ (c, none) | some r ↦ settle c k (evict_body r) ]

-- Whether a model is idle and its timeout is over.
unfoldable pub is_expired : ModelState → Option ℕ → ℕ → ℕ → Bool
is_expired idle (some since) timeout now = leb (since + timeout) now
is_expired _ _ timeout now = false

unfoldable pub get_idle_models : ℕ → Coordinator → List String
unfolding is_expired
get_idle_models now [] = []
get_idle_models now ((k, r) ∷ c) =
    if is_expired r.state r.last_active_at r.registration.idle_timeout_seconds now
    then k ∷ get_idle_models now c
    else get_idle_models now c
