-- ===== src/Tasks/Completion.antt =====
-- When a task can be completed (python/tom/agents/task_manager.py).
use tom.Prelude.{
  String, ◌≡◌, subst, All-prefix, refl, sym, ap, ◌∙◌, inl, inr, Bool, true, false, ◌||◌, some, All,
  List, [], ◌∷◌, ◌++◌, arith, Bool-cases,
}
use tom.Dict.{get}
use tom.Tasks.State.{
  TaskState, created, executing, completing, completed, same, is_member, task_valid_transitions,
  is_terminal,
}
use tom.Tasks.Manager.{Entry, TaskManager}
use tom.Tasks.Calls.{Call, Op, creates, run, advance, touch, touch_cases, replay, run-replay}

unfoldable pub is_completing : TaskState → Bool
is_completing s = same s completing || same s completed

-- A task that is not executing, nor past that, does not come past it by one edge.
leave_early :
    (s t : TaskState)
    → same s executing ≡ false
    → is_completing s ≡ false
    → is_member t (task_valid_transitions s) ≡ true
    → is_completing t ≡ false
unfolding is_completing is_member task_valid_transitions
leave_early created t h k m = ground arith
leave_early executing t h k m = cc
leave_early _ t h k m = ground arith

advance_early :
    (c : Call) (e : Entry)
    → same e.task.state executing ≡ false
    → is_completing e.task.state ≡ false
    → is_completing (advance c e).task.state ≡ false
unfolding advance
advance_early (Call.create now goal n t p) e h k = k
advance_early (Call.transition s now) e h k =
    elim (Bool-cases (is_member s (task_valid_transitions e.task.state))) [
      | inl p ↦ rw p (leave_early e.task.state s h k p)
      | inr p ↦ rw p k
    ]
advance_early (Call.record_step r now) e h k = k
advance_early (Call.fail x now) e h k = elim (Bool-cases (is_terminal e.task.state)) [
  | inl p ↦ rw p k
  | inr p ↦ rw p (unfold is_completing in refl)
]
advance_early (Call.cancel now) e h k = elim (Bool-cases (is_terminal e.task.state)) [
  | inl p ↦ rw p k
  | inr p ↦ rw p (unfold is_completing in refl)
]
advance_early (Call.complete now) e h k = unfold is_completing in ground arith

-- The calls after which the task of the entry is executing.
abbrev PassesExecuting : String → List Op → Entry → Type 0
PassesExecuting j ops e =
    (before after : List Op) × (before ++ after ≡ ops)
    × ((replay j before e).task.state ≡ executing)

is_executing : (s : TaskState) → same s executing ≡ true → s ≡ executing
is_executing executing h = refl
is_executing _ h = cc

passes_executing :
    (j : String) (ops : List Op) (e : Entry)
    → is_completing e.task.state ≡ false
    → (replay j ops e).task.state ≡ completed
    → PassesExecuting j ops e
unfolding replay
passes_executing j [] e k h = unfold is_completing in ground arith
passes_executing j ((i, c) ∷ ops) e k h = elim (Bool-cases (same e.task.state executing)) [
  | inl p ↦ ([], (i, c) ∷ ops, refl, is_executing e.task.state p)
  | inr p ↦
      let early =
        touch_cases (λ x. is_completing x.task.state ≡ false) j i c e (advance_early c e p k) k in
      let (before, after, eq, runs) = passes_executing j ops (touch j (i, c) e) early h in
      ((i, c) ∷ before, after, ap (◌∷◌ (i, c)) eq, runs)
]

-- A task is completed only after a moment at which it was executing: if a task that is neither
-- completing nor completed is completed after some calls, none making a new task under its
-- identifier, then after some of the first of those calls its state was executing.
pub completed_was_executing :
    (j : String) (ops : List Op) (m : TaskManager) (e e' : Entry)
    → All (λ op. creates j op ≡ false) ops
    → get m.registry j ≡ some e
    → is_completing e.task.state ≡ false
    → get (run ops m).registry j ≡ some e'
    → e'.task.state ≡ completed
    → (before after : List Op) × (before ++ after ≡ ops)
      × (x : Entry) × (get (run before m).registry j ≡ some x)
      × (x.task.state ≡ executing)
completed_was_executing j ops m e e' new h early h' done =
    let same_entry : replay j ops e ≡ e' = cc (run-replay j ops m e new h) in
    let (before, after, eq, runs) =
      passes_executing j ops e early (ap (λ (x : Entry). x.task.state) same_entry ∙ done) in
    let new' =
      All-prefix (λ op. creates j op ≡ false) before after
        (subst (All (λ op. creates j op ≡ false)) (sym eq) new) in
    (before, after, eq, replay j before e, run-replay j before m e new' h, runs)
