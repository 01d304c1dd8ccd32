-- ===== src/Models/Soundness.antt =====
-- Runs of the model lifecycle coordinator (python/tom/resources/model_manager.py) and what holds of
-- each record after them.
use tom.Prelude.{
  ℕ, ◌≤◌, String, ◌≡◌, refl, ◌⊎◌, inl, inr, Bool, true, false, some, List, [], ◌∷◌, ◌||◌, arith,
  Option-cases,
}
use tom.Dict.{get}
use tom.Dict.Values.{AllValues, AllValues-put, AllValues-remove, AllValues-get}
use tom.Models.Coordinator
use tom.Models.Coordinator.{
  ModelState, unloaded, ready, busy, idle, error, ModelRegistration, ModelRecord, Coordinator,
  Result, keeps, drops, raised, is_busy, is_unloaded, settle, with_record, unregister_body,
  ready_body, acquire_body, release_body, error_body, unloaded_body, evict_check, evict_body,
  finish_use,
}

-- A call of a method that changes the coordinator. An eviction is two, since other calls may come
-- while its hook runs.
pub data Call : Type 0 where
  register : ModelRegistration → Call
  unregister : String → Call
  record_ready : String → Bool → Call
  record_acquire : String → ℕ → Call
  record_release : String → ℕ → Call
  record_error : String → ℕ → Call
  record_unloaded : String → Bool → Call
  begin_eviction : String → Call
  finish_eviction : String → Call

unfoldable pub apply : Call → Coordinator → Coordinator
unfolding Coordinator.unregister_model Coordinator.record_ready Coordinator.record_acquire
    Coordinator.record_release Coordinator.record_error Coordinator.record_unloaded
    Coordinator.begin_eviction Coordinator.finish_eviction Coordinator.register_model
apply (register g) c = Coordinator.register_model g c
apply (unregister k) c = (Coordinator.unregister_model k c).0
apply (record_ready k b) c = (Coordinator.record_ready k b c).0
apply (record_acquire k now) c = (Coordinator.record_acquire k now c).0
apply (record_release k now) c = (Coordinator.record_release k now c).0
apply (record_error k now) c = (Coordinator.record_error k now c).0
apply (record_unloaded k b) c = (Coordinator.record_unloaded k b c).0
apply (begin_eviction k) c = (Coordinator.begin_eviction k c).0
apply (finish_eviction k) c = (Coordinator.finish_eviction k c).0

unfoldable pub run : List Call → Coordinator → Coordinator
run [] c = c
run (x ∷ xs) c = run xs (apply x c)

abbrev pub is_error : ModelState → Bool
is_error error = true
is_error _ = false

-- A busy model has an acquisition, and a confirmed unload is of a model that is not resident.
pub IsSound : ModelRecord → Type 0
IsSound r =
    ((is_busy r.state ≡ false) ⊎ (1 ≤ r.active_acquisitions))
    × ((r.confirmed_physical_unload ≡ false)
        ⊎ ((r.observed_residency ≡ false) × ((is_unloaded r.state || is_error r.state) ≡ true)))

abbrev Leaves : Result → Type 0
Leaves (keeps r) = IsSound r
Leaves drops = Unit
Leaves (raised e) = Unit

module _ (r : ModelRecord) (h : IsSound r) where
  unregister-Leaves : Leaves (unregister_body r)
  unfolding unregister_body IsSound
  unregister-Leaves = ground arith

  ready-Leaves : (b : Bool) → Leaves (ready_body b r)
  unfolding ready_body IsSound
  ready-Leaves b = ground arith

  acquire-Leaves : (now : ℕ) → Leaves (acquire_body now r)
  unfolding acquire_body IsSound
  acquire-Leaves now = ground arith

  release-Leaves : (now : ℕ) → Leaves (release_body now r)
  unfolding release_body IsSound
  release-Leaves now = ground arith

  error-Leaves : (now : ℕ) → Leaves (error_body now r)
  unfolding error_body IsSound
  error-Leaves now = ground arith

  unloaded-Leaves : (b : Bool) → Leaves (unloaded_body b r)
  unfolding unloaded_body IsSound
  unloaded-Leaves b = ground arith

  check-Leaves : Leaves (evict_check r)
  unfolding evict_check IsSound
  check-Leaves = ground arith

  evict-Leaves : Leaves (evict_body r)
  unfolding evict_body IsSound
  evict-Leaves = ground arith

settle-AllValues :
    (c : Coordinator) (k : String) (x : Result)
    → Leaves x
    → AllValues IsSound c
    → AllValues IsSound (settle c k x).0
unfolding settle
settle-AllValues c k (keeps r) s h = AllValues-put IsSound c k r s h
settle-AllValues c k drops s h = AllValues-remove IsSound c k h
settle-AllValues c k (raised e) s h = h

with_record-AllValues :
    (body : ModelRecord → Result) (c : Coordinator) (k : String)
    → ((r : ModelRecord) → IsSound r → Leaves (body r))
    → AllValues IsSound c
    → AllValues IsSound (with_record body c k).0
unfolding with_record
with_record-AllValues body c k s h = elim (Option-cases (get c k)) [
  | inl e ↦ rw (e, with_record) h
  | inr (r, e) ↦
      rw (e, with_record) (settle-AllValues c k (body r) (s r (AllValues-get IsSound c k r e h)) h)
]

register-AllValues :
    (g : ModelRegistration) (c : Coordinator)
    → AllValues IsSound c
    → AllValues IsSound (Coordinator.register_model g c)
unfolding Coordinator.register_model IsSound
register-AllValues g c h = elim (Option-cases (get c g.model_name)) [
  | inl e ↦
      rw (e, Coordinator.register_model)
        (AllValues-put IsSound c g.model_name _ (inl refl, inl refl) h)
  | inr (r, e) ↦
      rw (e, Coordinator.register_model)
        (AllValues-put IsSound c g.model_name _ (AllValues-get IsSound c g.model_name r e h) h)
]

finish-AllValues :
    (k : String) (c : Coordinator)
    → AllValues IsSound c
    → AllValues IsSound (Coordinator.finish_eviction k c).0
unfolding Coordinator.finish_eviction
finish-AllValues k c h = elim (Option-cases (get c k)) [
  | inl e ↦ rw (e, Coordinator.finish_eviction) h
  | inr (r, e) ↦
      rw (e, Coordinator.finish_eviction)
        (settle-AllValues c k (evict_body r) (evict-Leaves r (AllValues-get IsSound c k r e h)) h)
]

apply-AllValues : (x : Call) (c : Coordinator) → AllValues IsSound c → AllValues IsSound (apply x c)
unfolding apply
apply-AllValues (register g) c h = register-AllValues g c h
apply-AllValues (unregister k) c h = with_record-AllValues _ c k unregister-Leaves h
apply-AllValues (record_ready k b) c h = with_record-AllValues _ c k (λ r s. ready-Leaves r s b) h
apply-AllValues (record_acquire k now) c h =
    with_record-AllValues _ c k (λ r s. acquire-Leaves r s now) h
apply-AllValues (record_release k now) c h =
    with_record-AllValues _ c k (λ r s. release-Leaves r s now) h
apply-AllValues (record_error k now) c h =
    with_record-AllValues _ c k (λ r s. error-Leaves r s now) h
apply-AllValues (record_unloaded k b) c h =
    with_record-AllValues _ c k (λ r s. unloaded-Leaves r s b) h
apply-AllValues (begin_eviction k) c h = with_record-AllValues _ c k check-Leaves h
apply-AllValues (finish_eviction k) c h = finish-AllValues k c h

run-AllValues :
    (xs : List Call) (c : Coordinator) → AllValues IsSound c → AllValues IsSound (run xs c)
unfolding run
run-AllValues [] c h = h
run-AllValues (x ∷ xs) c h = run-AllValues xs (apply x c) (apply-AllValues x c h)

-- After any calls on a new coordinator, a model that is busy has an acquisition, and one whose physical
-- unload is confirmed is not observed as resident, and is unloaded or in error.
pub run_sound :
    (xs : List Call) (k : String) (r : ModelRecord)
    → get (run xs []) k ≡ some r
    → ((is_busy r.state ≡ false) ⊎ (1 ≤ r.active_acquisitions))
      × ((r.confirmed_physical_unload ≡ false)
          ⊎ ((r.observed_residency ≡ false) × ((is_unloaded r.state || is_error r.state) ≡ true)))
unfolding IsSound
run_sound xs k r e = AllValues-get IsSound (run xs []) k r e (run-AllValues xs [] tt)
