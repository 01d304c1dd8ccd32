-- ===== src/Models/Usage.antt =====
-- Acquisitions and releases of a model (python/tom/resources/model_manager.py) in sequence.
use tom.Prelude.{
  List, [], ◌∷◌, Option, none, some, ℕ, zero, suc, ◌+◌, ◌-◌, ◌≡◌, refl, ◌∙◌, ◌⊎◌, inl, inr, Bool,
  arith,
}
use tom.Models.Coordinator.{
  ModelState, ready, busy, idle, ModelRecord, Result, keeps, drops, raised, ready_body,
  acquire_body, release_body, count_acquisition,
}

-- One method after another, until one raises or drops.
unfoldable pub then_do : Result → (ModelRecord → Result) → Result
then_do (keeps r) f = f r
then_do drops f = drops
then_do (raised e) f = raised e

-- n acquisitions, at the times of a clock.
unfoldable pub acquire_all : (ℕ → ℕ) → ℕ → ModelRecord → Result
unfolding acquire_body then_do
acquire_all clock zero r = keeps r
acquire_all clock (suc n) r = then_do (acquire_body (clock n) r) (acquire_all clock n)

unfoldable pub release_all : (ℕ → ℕ) → ℕ → ModelRecord → Result
unfolding release_body then_do
release_all clock zero r = keeps r
release_all clock (suc n) r = then_do (release_body (clock n) r) (release_all clock n)

-- The state and the count that a call leaves.
abbrev pub IsAt : ModelState → ℕ → Result → Type 0
IsAt s n (keeps r) = (r.state ≡ s) × (r.active_acquisitions ≡ n)
IsAt s n drops = ⊥
IsAt s n (raised e) = ⊥

IsAt-eq : (s : ModelState) (m n : ℕ) (x : Result) → m ≡ n → IsAt s m x → IsAt s n x
IsAt-eq s m n (keeps r) e h = (h.0, h.1 ∙ e)
IsAt-eq s m n drops e h = h
IsAt-eq s m n (raised x) e h = h

acquire_body-busy :
    (now : ℕ) (r : ModelRecord)
    → r.state ≡ busy
    → acquire_body now r ≡ keeps (count_acquisition now r)
unfolding acquire_body
acquire_body-busy now r s = ground arith

-- A release that is not the last one.
release_body-busy :
    (now k : ℕ) (r : ModelRecord)
    → r.state ≡ busy
    → r.active_acquisitions ≡ suc (suc k)
    → release_body now r ≡ keeps (record r { active_acquisitions = r.active_acquisitions - 1 })
unfolding release_body
release_body-busy now k r s a = ground arith

acquire_busy :
    (clock : ℕ → ℕ) (n k : ℕ) (r : ModelRecord)
    → r.state ≡ busy
    → r.active_acquisitions ≡ k
    → IsAt busy (n + k) (acquire_all clock n r)
unfolding acquire_all count_acquisition
acquire_busy clock zero k r s a = (s, omega arith)
acquire_busy clock (suc n) k r s a = rw (acquire_body-busy (clock n) r s) (
    IsAt-eq _ _ _ (acquire_all clock n (count_acquisition (clock n) r)) (omega arith)
      (acquire_busy clock n (suc k) (count_acquisition (clock n) r) s (omega arith)))

release_busy :
    (clock : ℕ → ℕ) (n k : ℕ) (r : ModelRecord)
    → r.state ≡ busy
    → r.active_acquisitions ≡ n + suc k
    → IsAt busy (suc k) (release_all clock n r)
unfolding release_all
release_busy clock zero k r s a = (s, omega arith)
release_busy clock (suc n) k r s a = rw (release_body-busy (clock n) (n + k) r s (omega arith)) (
    release_busy clock n k (record r { active_acquisitions = r.active_acquisitions - 1 }) s
      (omega arith))

IsAt-then :
    (s t : ModelState) (m n : ℕ) (f : ModelRecord → Result) (x : Result)
    → IsAt s m x
    → ((r : ModelRecord) → r.state ≡ s → r.active_acquisitions ≡ m → IsAt t n (f r))
    → IsAt t n (then_do x f)
unfolding then_do
IsAt-then s t m n f (keeps r) h k = k r h.0 h.1
IsAt-then s t m n f drops h k = h
IsAt-then s t m n f (raised e) h k = h

ready_body-busy :
    (residency : Bool) (k : ℕ) (r : ModelRecord)
    → r.state ≡ busy
    → r.active_acquisitions ≡ suc k
    → IsAt ready (suc k) (ready_body residency r)
unfolding ready_body
ready_body-busy residency k r s a = ground arith

release_body-last :
    (now : ℕ) (r : ModelRecord)
    → r.state ≡ busy
    → r.active_acquisitions ≡ 1
    → IsAt idle 0 (release_body now r)
unfolding release_body
release_body-last now r s a = ground arith

release_to_idle :
    (clock : ℕ → ℕ) (n : ℕ) (r : ModelRecord)
    → r.state ≡ busy
    → r.active_acquisitions ≡ suc n
    → IsAt idle 0 (release_all clock (suc n) r)
unfolding release_all
release_to_idle clock zero r s a =
    IsAt-then idle idle 0 0 keeps (release_body (clock zero) r)
      (release_body-last (clock zero) r s a) (λ r' s' a'. (s', a'))
release_to_idle clock (suc n) r s a = rw (release_body-busy (clock (suc n)) n r s a) (
    release_to_idle clock n (record r { active_acquisitions = r.active_acquisitions - 1 }) s
      (omega arith))

-- The first acquisition of a model that is ready or idle.
acquire_body-free :
    (now : ℕ) (r : ModelRecord)
    → (r.state ≡ ready) ⊎ (r.state ≡ idle)
    → acquire_body now r ≡ keeps (count_acquisition now (record r { state = busy }))
unfolding acquire_body
acquire_body-free now r (inl s) = ground arith
acquire_body-free now r (inr s) = ground arith

acquire_free :
    (clock : ℕ → ℕ) (n k : ℕ) (r : ModelRecord)
    → (r.state ≡ ready) ⊎ (r.state ≡ idle)
    → r.active_acquisitions ≡ k
    → IsAt busy (suc n + k) (acquire_all clock (suc n) r)
unfolding acquire_all count_acquisition
acquire_free clock n k r s a =
    let r' = count_acquisition (clock n) (record r { state = busy }) in
    rw (acquire_body-free (clock n) r s) (
      IsAt-eq _ _ _ (acquire_all clock n r') (omega arith)
        (acquire_busy clock n (suc k) r' refl (omega arith)))

-- A model that is ready or idle and has no acquisition is idle again after one or more acquisitions
-- and as many releases, with none left, and no call raises.
pub used_then_idle :
    (clock clock' : ℕ → ℕ) (n : ℕ) (r : ModelRecord)
    → (r.state ≡ ready) ⊎ (r.state ≡ idle)
    → r.active_acquisitions ≡ 0
    → IsAt idle 0 (then_do (acquire_all clock (suc n) r) (release_all clock' (suc n)))
used_then_idle clock clock' n r s a =
    IsAt-then busy idle (suc n + 0) 0 (release_all clock' (suc n)) (acquire_all clock (suc n) r)
      (acquire_free clock n 0 r s a) (λ r' s' a'. release_to_idle clock' n r' s' (omega arith))

-- The later users of a model acquire it and release it, each at a time.
pub data Use : Type 0 where
  acquires releases : ℕ → Use

unfoldable pub use_all : List Use → ModelRecord → Result
unfolding acquire_body release_body then_do
use_all [] r = keeps r
use_all (acquires now ∷ us) r = then_do (acquire_body now r) (use_all us)
use_all (releases now ∷ us) r = then_do (release_body now r) (use_all us)

-- The acquisitions that have no release yet, when n had none before; `none` is a release without an
-- acquisition.
unfoldable pub outstanding : ℕ → List Use → Option ℕ
outstanding n [] = some n
outstanding n (acquires now ∷ us) = outstanding (suc n) us
outstanding zero (releases now ∷ us) = none
outstanding (suc n) (releases now ∷ us) = outstanding n us

-- Uses of a busy model with k more acquisitions than they release.
use_busy :
    (us : List Use) (n m k : ℕ) (r : ModelRecord)
    → outstanding n us ≡ some m
    → r.state ≡ busy
    → r.active_acquisitions ≡ n + suc k
    → IsAt busy (m + suc k) (use_all us r)
unfolding use_all outstanding count_acquisition
use_busy [] n m k r o s a = let e : n ≡ m = ground (arith, o) in (s, omega arith)
use_busy (acquires now ∷ us) n m k r o s a =
    rw (acquire_body-busy now r s)
      (use_busy us (suc n) m k (count_acquisition now r) o s (omega arith))
use_busy (releases now ∷ us) zero m k r o s a = absurd (ground (arith, o))
use_busy (releases now ∷ us) (suc n) m k r o s a =
    rw (release_body-busy now (n + k) r s (omega arith)) (
      use_busy us n m k (record r { active_acquisitions = r.active_acquisitions - 1 }) o s
        (omega arith))

-- A model that `record_ready` finds busy keeps its acquisitions: if a later user acquires it, and
-- then later users acquire and release it in any order, each release after an acquisition of
-- theirs, it stays busy, with the acquisitions that it had and those that they have not released.
-- So when they have released all of theirs, it is as busy as it was.
pub ready_while_busy_leaks :
    (residency : Bool) (now k m : ℕ) (us : List Use) (r : ModelRecord)
    → r.state ≡ busy
    → r.active_acquisitions ≡ suc k
    → outstanding 1 us ≡ some m
    → IsAt busy (m + suc k) (then_do (ready_body residency r) (use_all (acquires now ∷ us)))
unfolding use_all count_acquisition
ready_while_busy_leaks residency now k m us r s a o =
    IsAt-then ready busy (suc k) (m + suc k) (use_all (acquires now ∷ us)) (ready_body residency r)
      (ready_body-busy residency k r s a)
      (λ r' s' a'. rw (acquire_body-free now r' (inl s')) (
        use_busy us 1 m k (count_acquisition now (record r' { state = busy })) o refl
          (omega arith)))
