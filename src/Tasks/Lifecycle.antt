-- ===== src/Tasks/Lifecycle.antt =====
-- What a sequence of calls of the task manager can do to the state of one task
-- (python/tom/agents/task_manager.py).
use tom.Prelude.{
  ℕ, String, ◌≡◌, refl, ap, ◌∙◌, ◌⊎◌, inl, inr, true, false, ◌||◌, some, All, List, [], ◌∷◌, arith,
  eq_refl, Bool-cases,
}
use tom.Dict.{get, get-put}
use tom.Tasks.State.{
  TaskState, created, executing, completing, completed, failed, cancelled, same, is_member,
  task_valid_transitions, is_terminal,
}
use tom.Tasks.Manager.{
  Entry, TaskManager, raised, on_entry, with_entry, transition_body, invalid_transition, transition,
}
use tom.Tasks.Calls.{Call, Op, creates, run, advance, touch, touch_cases, replay, run-replay}

-- A transition that the matrix does not list is refused with the two states and changes nothing;
-- one that it lists is made.
pub transition_outcome :
    (k : String) (s : TaskState) (now : ℕ) (m : TaskManager) (e : Entry)
    → get m.registry k ≡ some e
    → ((is_member s (task_valid_transitions e.task.state) ≡ false)
        × (transition k s now m ≡ (m, raised (invalid_transition e.task.state s))))
      ⊎ ((is_member s (task_valid_transitions e.task.state) ≡ true)
          × (get (transition k s now m).0.registry k
              ≡ some (record e { task = record (e.task) { state = s; updated_at = now } })))
unfolding transition on_entry with_entry transition_body
transition_outcome k s now m e h =
    elim (Bool-cases (is_member s (task_valid_transitions e.task.state))) [
      | inl p ↦ inr (p, rw (h, with_entry, p, get-put, eq_refl))
      | inr p ↦ inl (p, rw (h, with_entry, p))
    ]

-- One edge of the life of a task: the matrix, or the two ways to stop one that has not ended.
pub data Step (s t : TaskState) : Type 0 where
  listed : is_member t (task_valid_transitions s) ≡ true → Step s t
  fails : is_terminal s ≡ false → t ≡ failed → Step s t
  stops : is_terminal s ≡ false → t ≡ cancelled → Step s t

pub data Reach (s : TaskState) : TaskState → Type 0 where
  here : Reach s s
  next : {t u : TaskState} → Reach s t → Step t u → Reach s u

Reach-trans : {s t u : TaskState} → Reach s t → Reach t u → Reach s u
Reach-trans r here = r
Reach-trans r (next q st) = next (Reach-trans r q) st

one-Step : {s t : TaskState} → Step s t → Reach s t
one-Step st = next here st

complete_Reach :
    (s : TaskState) → (same s executing || same s completing) ≡ true → Reach s completed
unfolding is_member task_valid_transitions
complete_Reach executing h = next {t = completing} (one-Step (listed refl)) (listed refl)
complete_Reach completing h = one-Step (listed refl)
complete_Reach created h = cc
complete_Reach _ h = cc

advance-Reach : (c : Call) (e : Entry) → Reach e.task.state (advance c e).task.state
unfolding advance
advance-Reach (Call.transition s now) e =
    elim (Bool-cases (is_member s (task_valid_transitions e.task.state))) [
      | inl p ↦ rw p (one-Step (listed p))
      | inr p ↦ rw p here
    ]
advance-Reach (Call.fail x now) e = elim (Bool-cases (is_terminal e.task.state)) [
  | inl p ↦ rw p here
  | inr p ↦ rw p (one-Step (fails p refl))
]
advance-Reach (Call.cancel now) e = elim (Bool-cases (is_terminal e.task.state)) [
  | inl p ↦ rw p here
  | inr p ↦ rw p (one-Step (stops p refl))
]
advance-Reach (Call.complete now) e =
    elim (Bool-cases (same e.task.state executing || same e.task.state completing)) [
      | inl p ↦ rw p (complete_Reach e.task.state p)
      | inr p ↦ rw p here
    ]
advance-Reach (Call.create now goal n t p) e = here
advance-Reach (Call.record_step r now) e = here

replay-Reach :
    (j : String) (ops : List Op) (e : Entry) → Reach e.task.state (replay j ops e).task.state
unfolding replay
replay-Reach j [] e = here
replay-Reach j ((k, c) ∷ ops) e =
    Reach-trans
      (touch_cases (λ x. Reach e.task.state x.task.state) j k c e (advance-Reach c e) here)
      (replay-Reach j ops (touch j (k, c) e))

-- From the state that a task has, whatever calls follow (none of them making a new task under its
-- identifier), the state that it ends in is reached by edges of the matrix and by the two edges that
-- stop a task that has not ended.
pub run-Reach :
    (j : String) (ops : List Op) (m : TaskManager) (e : Entry)
    → All (λ op. creates j op ≡ false) ops
    → get m.registry j ≡ some e
    → (e' : Entry) × (get (run ops m).registry j ≡ some e') × Reach e.task.state e'.task.state
run-Reach j ops m e new h = (replay j ops e, run-replay j ops m e new h, replay-Reach j ops e)

no_way_out : (s : TaskState) → is_terminal s ≡ true → task_valid_transitions s ≡ []
unfolding is_terminal task_valid_transitions
no_way_out completed h = refl
no_way_out failed h = refl
no_way_out cancelled h = refl
no_way_out _ h = cc

not_completing :
    (s : TaskState) → is_terminal s ≡ true → (same s executing || same s completing) ≡ false
unfolding is_terminal
not_completing created h = cc
not_completing _ h = ground arith

-- The same state and error.
abbrev Kept : Entry → Entry → Type 0
Kept e e' = (e'.task.state ≡ e.task.state) × (e'.task.error ≡ e.task.error)

advance_terminal : (c : Call) (e : Entry) → is_terminal e.task.state ≡ true → Kept e (advance c e)
unfolding advance is_member
advance_terminal (Call.create now goal n t p) e h = (refl, refl)
advance_terminal (Call.transition s now) e h = rw (no_way_out e.task.state h) (refl, refl)
advance_terminal (Call.record_step r now) e h = (refl, refl)
advance_terminal (Call.fail x now) e h = rw h (refl, refl)
advance_terminal (Call.cancel now) e h = rw h (refl, refl)
advance_terminal (Call.complete now) e h = rw (not_completing e.task.state h) (refl, refl)

replay_terminal :
    (j : String) (ops : List Op) (e : Entry)
    → is_terminal e.task.state ≡ true
    → Kept e (replay j ops e)
unfolding replay
replay_terminal j [] e h = (refl, refl)
replay_terminal j ((k, c) ∷ ops) e h =
    let (s, x) = touch_cases (Kept e) j k c e (advance_terminal c e h) (refl, refl) in
    let (s', x') = replay_terminal j ops (touch j (k, c) e) (ap is_terminal s ∙ h) in
    (s' ∙ s, x' ∙ x)

-- A task that has ended keeps its state and its error through every later sequence of calls that
-- makes no new task under its identifier.
pub run_terminal :
    (j : String) (ops : List Op) (m : TaskManager) (e : Entry)
    → All (λ op. creates j op ≡ false) ops
    → get m.registry j ≡ some e
    → is_terminal e.task.state ≡ true
    → (e' : Entry) × (get (run ops m).registry j ≡ some e')
      × (e'.task.state ≡ e.task.state)
      × (e'.task.error ≡ e.task.error)
run_terminal j ops m e new h ended =
    let (s, x) = replay_terminal j ops e ended in (replay j ops e, run-replay j ops m e new h, s, x)
