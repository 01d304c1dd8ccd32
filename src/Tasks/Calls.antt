-- ===== src/Tasks/Calls.antt =====
-- Calls of the task manager as data, and the effect of a call and of a sequence of calls on one
-- task (python/tom/agents/task_manager.py): the refinement of the registry by one task's history.
use tom.Prelude.{
  ℕ, ◌+◌, String, ◌||◌, ◌≡◌, refl, ◌∙◌, inl, inr, Bool, true, false, Option, none, some, All, List,
  [], ◌∷◌, arith, eq_iff, str_eq, if◌then◌else◌, Bool-cases,
}
use mathlib.Core.Option
use tom.Dict.{get, get-put}
use tom.Tasks.State.{
  TaskState, executing, completing, completed, failed, cancelled, is_member, same,
  task_valid_transitions, is_terminal, StepResult,
}
use tom.Tasks.Manager
use tom.Tasks.Manager.{
  Entry, TaskManager, Body, is_valid_task, with_entry, on_entry, transition_body, record_step_body,
  fail_body, cancel_body, complete_body,
}

-- A call that changes the manager, with the clock's value.
pub data Call : Type 0 where
  create : ℕ → String → ℕ → ℕ → Option ℕ → Call
  transition : TaskState → ℕ → Call
  record_step : StepResult → ℕ → Call
  fail : String → ℕ → Call
  cancel : ℕ → Call
  complete : ℕ → Call

-- A call and the identifier that it is about.
abbrev pub Op : Type 0
Op = String × Call

unfoldable pub apply : Op → TaskManager → TaskManager
apply (k, Call.create now goal n t p) m = (Manager.create k now goal n t p m).0
apply (k, Call.transition s now) m = (Manager.transition k s now m).0
apply (k, Call.record_step r now) m = (Manager.record_step k r now m).0
apply (k, Call.fail e now) m = (Manager.fail k e now m).0
apply (k, Call.cancel now) m = (Manager.cancel k now m).0
apply (k, Call.complete now) m = (Manager.complete k now m).0

unfoldable pub run : List Op → TaskManager → TaskManager
unfolding apply Manager.create Manager.transition Manager.record_step Manager.fail Manager.cancel
    Manager.complete
run [] m = m
run (op ∷ ops) m = run ops (apply op m)

-- The effect of a call on the one entry that it is about.
unfoldable pub advance : Call → Entry → Entry
advance (Call.create now goal n t p) e = e
advance (Call.transition s now) e =
    if is_member s (task_valid_transitions e.task.state)
    then record e { task = record (e.task) { state = s; updated_at = now } }
    else e
advance (Call.record_step r now) e = record e {
  task = record (e.task) { current_step_index = r.step_index + 1; updated_at = now };
}
advance (Call.fail x now) e =
    if is_terminal e.task.state
    then e
    else record e { task = record (e.task) { state = failed; error = some x; updated_at = now } }
advance (Call.cancel now) e =
    if is_terminal e.task.state
    then record e { token = true }
    else record e { task = record (e.task) { state = cancelled; updated_at = now }; token = true }
advance (Call.complete now) e =
    if same e.task.state executing || same e.task.state completing
    then record e { task = record (e.task) { state = completed; updated_at = now } }
    else e

module _ (k j : String) (m : TaskManager) where
  -- What a body has to do for its method to have the effect `f` on the entry under `k`.
  abbrev Does : (Entry → Entry) → Body → Type 0
  Does f body =
      (e : Entry)
      → get m.registry k ≡ some e
      → get (body m e).0.registry j ≡ (if str_eq k j then some (f e) else get m.registry j)

  get-with_entry :
      (f : Entry → Entry) (body : Body) (o : Option Entry)
      → get m.registry k ≡ o
      → Does f body
      → get (with_entry o k body m).0.registry j
        ≡ (if str_eq k j then Option.map f o else get m.registry j)
  unfolding with_entry
  get-with_entry f body none h d = ground (arith, eq_iff k j)
  get-with_entry f body (some e) h d = d e h

  get-on_entry :
      (f : Entry → Entry) (body : Body)
      → Does f body
      → get (on_entry k body m).0.registry j
        ≡ (if str_eq k j then Option.map f (get m.registry j) else get m.registry j)
  unfolding on_entry
  get-on_entry f body d =
      get-with_entry f body (get m.registry k) refl d ∙ ground (arith, eq_iff k j)

  transition-Does :
      (s : TaskState) (now : ℕ) → Does (advance (Call.transition s now)) (transition_body k s now)
  unfolding transition_body advance
  transition-Does s now e h =
      elim (Bool-cases (is_member s (task_valid_transitions e.task.state))) [
        | inl p ↦ simp (p, get-put)
        | inr p ↦ rw p (ground (arith, eq_iff k j))
      ]

  record_step-Does :
      (r : StepResult) (now : ℕ)
      → Does (advance (Call.record_step r now)) (record_step_body k r now)
  unfolding record_step_body advance
  record_step-Does r now e h = simp get-put

  fail-Does : (x : String) (now : ℕ) → Does (advance (Call.fail x now)) (fail_body k x now)
  unfolding fail_body advance
  fail-Does x now e h = elim (Bool-cases (is_terminal e.task.state)) [
    | inl p ↦ rw p (ground (arith, eq_iff k j))
    | inr p ↦ simp (p, get-put)
  ]

  cancel-Does : (now : ℕ) → Does (advance (Call.cancel now)) (cancel_body k now)
  unfolding cancel_body advance
  cancel-Does now e h = elim (Bool-cases (is_terminal e.task.state)) [
    | inl p ↦ simp (p, get-put)
    | inr p ↦ simp (p, get-put)
  ]

  complete-Does : (now : ℕ) → Does (advance (Call.complete now)) (complete_body k now)
  unfolding complete_body advance
  complete-Does now e h = elim (Bool-cases (same e.task.state executing)) [
    | inl p ↦ simp (p, get-put)
    | inr p ↦ elim (Bool-cases (same e.task.state completing)) [
      | inl q ↦ simp (p, q, get-put)
      | inr q ↦ rw (p, q) (ground (arith, eq_iff k j))
    ]
  ]

-- Whether the call makes a new task under the identifier.
abbrev pub creates : String → Op → Bool
creates j (k, Call.create now goal n t p) = str_eq k j
creates j (k, c) = false

create_other :
    (k j : String) (now : ℕ) (goal : String) (n t : ℕ) (p : Option ℕ) (m : TaskManager)
    → str_eq k j ≡ false
    → get (Manager.create k now goal n t p m).0.registry j ≡ get m.registry j
unfolding Manager.create
create_other k j now goal n t p m h = elim (Bool-cases (is_valid_task goal n t)) [
  | inl v ↦ simp (v, get-put, h)
  | inr v ↦ simp v
]

-- What one call does to the entry under `j`, when it does not create that entry.
pub get-apply :
    (j : String) (op : Op) (m : TaskManager)
    → creates j op ≡ false
    → get (apply op m).registry j
      ≡ (if str_eq op.0 j then Option.map (advance op.1) (get m.registry j) else get m.registry j)
unfolding apply Manager.transition Manager.record_step Manager.fail Manager.cancel Manager.complete
get-apply j (k, Call.create now goal n t p) m h = rw h (create_other k j now goal n t p m h)
get-apply j (k, Call.transition s now) m h = get-on_entry k j m _ _ (transition-Does k j m s now)
get-apply j (k, Call.record_step r now) m h = get-on_entry k j m _ _ (record_step-Does k j m r now)
get-apply j (k, Call.fail x now) m h = get-on_entry k j m _ _ (fail-Does k j m x now)
get-apply j (k, Call.cancel now) m h = get-on_entry k j m _ _ (cancel-Does k j m now)
get-apply j (k, Call.complete now) m h = get-on_entry k j m _ _ (complete-Does k j m now)

-- The effect of a call on the entry under `j`, whichever entry it is about.
unfoldable pub touch : String → Op → Entry → Entry
touch j (k, c) e = if str_eq k j then advance c e else e

pub touch_cases {ℓ} :
    (P : Entry → Type ℓ) (j k : String) (c : Call) (e : Entry)
    → P (advance c e)
    → P e
    → P (touch j (k, c) e)
unfolding touch
touch_cases P j k c e x y = elim (Bool-cases (str_eq k j)) [ inl p ↦ rw p x | inr p ↦ rw p y ]

-- The calls that are about `j`, applied to its entry alone.
unfoldable pub replay : String → List Op → Entry → Entry
replay j [] e = e
replay j (op ∷ ops) e = replay j ops (touch j op e)

-- While no call makes a new task under its identifier, a task's entry is the fold of `advance` over
-- the calls about it: no call touches another task's entry.
pub run-replay :
    (j : String) (ops : List Op) (m : TaskManager) (e : Entry)
    → All (λ op. creates j op ≡ false) ops
    → get m.registry j ≡ some e
    → get (run ops m).registry j ≡ some (replay j ops e)
unfolding run replay touch
run-replay j [] m e new h = h
run-replay j ((k, c) ∷ ops) m e new h =
    run-replay j ops (apply (k, c) m) _ new.1 (get-apply j (k, c) m new.0 ∙ rw h (ground arith))
