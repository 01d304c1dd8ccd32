-- ===== src/Tasks/Cancel.antt =====
-- What the cancellation of a task does (python/tom/agents/task_manager.py).
use tom.Prelude.{
  ℕ, String, ◌≡◌, refl, ap, ◌∙◌, inl, inr, ◌⊎◌, ◌∷◌, subst, false, true, some, eq_refl, Bool-cases,
}
use tom.Dict.{Dict, get, get-put, put_same}
use tom.Tasks.State.{is_terminal, cancelled}
use tom.Tasks.Manager.{
  Entry, TaskManager, ok, task_row, store, update, persist_task, on_entry, with_entry, cancel_body,
  cancel,
}

module _ (k : String) (now : ℕ) (m : TaskManager) (e : Entry) (h : get m.registry k ≡ some e) where
  cancel-ended :
      is_terminal e.task.state ≡ true
      → cancel k now m ≡ (store m k (record e { token = true }), ok e.task)
  unfolding cancel on_entry with_entry cancel_body
  cancel-ended t = rw (h, with_entry, t) refl

  cancel-running :
      is_terminal e.task.state ≡ false
      → cancel k now m
        ≡ update m k
            (record e { token = true })
            (record (e.task) { state = cancelled; updated_at = now })
  unfolding cancel on_entry with_entry cancel_body
  cancel-running t = rw (h, with_entry, t) refl

-- A task that has ended and whose token is set is not changed by a cancellation, nor is anything
-- else.
cancel-again :
    (k : String) (now : ℕ) (m : TaskManager) (e : Entry)
    → get m.registry k ≡ some e
    → is_terminal e.task.state ≡ true
    → e.token ≡ true
    → (cancel k now m).0 ≡ m
unfolding store
cancel-again k now m e h t c =
    ap (λ r. r.0) (cancel-ended k now m e h t)
    ∙ (let q : get m.registry k ≡ some (record e { token = true }) =
          subst (λ b. get m.registry k ≡ some (record e { token = b })) c h in
        let set : Dict Entry → TaskManager = λ d. record m { registry = d } in
        ap set (put_same m.registry k (record e { token = true }) q))

-- After the cancellation of a known task its token is set. A task that had ended is the same
-- otherwise; any other is CANCELLED, with the time of the call and its other fields as they were,
-- and its row is the newest write. A second cancellation, whenever it comes, changes nothing in the
-- task manager.
pub cancel_outcome :
    (k : String) (now later : ℕ) (m : TaskManager) (e : Entry)
    → get m.registry k ≡ some e
    → (e' : Entry) × (get (cancel k now m).0.registry k ≡ some e')
      × (e'.token ≡ true)
      × (((is_terminal e.task.state ≡ true)
            × (e'.task ≡ e.task)
            × ((cancel k now m).0.writes ≡ m.writes))
          ⊎ ((is_terminal e.task.state ≡ false)
              × (e'.task ≡ record (e.task) { state = cancelled; updated_at = now })
              × ((cancel k now m).0.writes ≡ task_row e'.task ∷ m.writes)))
      × ((cancel k later (cancel k now m).0).0 ≡ (cancel k now m).0)
unfolding store update persist_task
cancel_outcome k now later m e h = elim (Bool-cases (is_terminal e.task.state)) [
  | inl t ↦
      let e' : Entry = record e { token = true } in
      let g : get (store m k e').registry k ≡ some e' =
        rw (get-put m.registry k k e', eq_refl k) refl in
      rw (cancel-ended k now m e h t)
        (e', g, refl, inl (t, refl, refl), cancel-again k later (store m k e') e' g t refl)
  | inr t ↦
      let e' : Entry = record {
        task = record (e.task) { state = cancelled; updated_at = now };
        token = true;
      } in
      let m' = (update m k (record e { token = true }) (e'.task)).0 in
      let g : get m'.registry k ≡ some e' = rw (get-put m.registry k k e', eq_refl k) refl in
      rw (cancel-running k now m e h t) (
        e',
        g,
        refl,
        inr (t, refl, refl),
        cancel-again k later m' e' g (unfold is_terminal in refl) refl,
      )
]
