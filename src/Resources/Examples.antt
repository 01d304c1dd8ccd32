-- ===== src/Resources/Examples.antt =====
-- A run of the resource manager, and the theorems about it and its queue at concrete requests.
use tom.Prelude.{
  ℕ, ◌≤◌, ◌≡◌, refl, inr, ◌⊎◌, pos, String, Bool, true, false, none, some, [], ◌∷◌, arith, All,
}
use tom.Dict
use tom.Dict.Totals.{total}
use tom.Resources.Queue.{
  enqueue, voice_interactive, pop_admissible, is_admissible, ResourceWaiter, PriorityResourceQueue,
  reasoning, vlm, background,
}
use tom.Resources.Arbitration.{Refused, Best, popped, pop-Best, HasAged, aged_not_overtaken}
use tom.Resources.Manager.{
  is_heavy, can_admit, check_budget_for_role, check_heavy_budget, live_check, get_telemetry,
  get_resident_vram, ResourceManager, ResourceLease, usable_vram_ceiling,
}
use tom.Resources.Leases.{
  Supply, acquire, request, grant, wait, to_priority, take_back, lease_of, hand_over, admits_waiter,
  finish_dispatch, dispatch_next_waiter, take_lock, release,
}
use tom.Resources.Accounts.{vram, ram, heavies}
use tom.Resources.Steps.{IsSound, IsFresh}
use tom.Resources.Safety.{
  new, acquires, locks, releases, Reach, here, next, Step-IsSound, Reach-safe,
}

abbrev waiter : String → ℕ → ℕ → ResourceWaiter
waiter k at n = record {
  waiter_id = k;
  priority = background;
  created_at = at;
  sequence = n;
  role = reasoning;
  vram_mb = 4000;
  ram_mb = 0;
  granted = false;
  cancelled = false;
}

-- An old background request, and a later interactive one.
abbrev old : ResourceWaiter
old = waiter "w1" 0 0

abbrev young : ResourceWaiter
young = record (waiter "w2" 70 1) { priority = voice_interactive }

abbrev queue : PriorityResourceQueue
queue = record {
  aging_threshold_seconds = 15;
  waiters = ("w2", young) ∷ ("w1", old) ∷ [];
  next_sequence = 2;
}

abbrev admit_all : ResourceWaiter → Bool
admit_all w = true

pop-Best_example :
    (Refused admit_all queue × (pop_admissible admit_all 75 queue ≡ (queue, none)))
    ⊎ ((w : ResourceWaiter) × (pop_admissible admit_all 75 queue ≡ popped queue w)
        × Best admit_all 75 queue w)
pop-Best_example = pop-Best admit_all 75 queue

old_popped : (pop_admissible admit_all 75 queue).1 ≡ some (record old { granted = true })
unfolding pop_admissible
old_popped = refl

aged_not_overtaken_example :
    All
      (λ v. is_admissible admit_all v ≡ true → HasAged 15 75 v → 0 ≤ v.sequence)
      (Dict.values queue.waiters)
aged_not_overtaken_example =
    aged_not_overtaken admit_all 75 queue (record old { granted = true }) (omega arith) old_popped

abbrev supply : String → Supply
supply k = record { lease_id = k; waiter_id = k; now = 0; reading = none }

abbrev start : ResourceManager
start = new 7200 12000 500 15

abbrev reasoning_lease : ResourceLease
reasoning_lease = record { lease_id = "a"; role = reasoning; vram_mb = 5000; ram_mb = 2000 }

-- A heavy lease is granted and takes the lock; another heavy request waits; a light one is granted.
abbrev one : ResourceManager
one = (acquire (supply "a") reasoning (pos 5000) (pos 2000) true (pos 1) start).0

abbrev two : ResourceManager
two = take_lock one

abbrev three : ResourceManager
three = (acquire (supply "b") vlm (pos 4000) (pos 1000) true (pos 1) two).0

abbrev four : ResourceManager
four = release (supply "c") reasoning_lease three

a-IsFresh : IsFresh "a" start
unfolding new Dict.get
a-IsFresh = record { not_active = refl; not_handed = tt }

-- The lease is active after the request, and still when the lock is taken.
one_active : Dict.get one.active_leases "a" ≡ some reasoning_lease
unfolding new acquire request grant can_admit check_budget_for_role check_heavy_budget live_check
    get_telemetry Dict.get
one_active = refl

one_unlocked : one.heavy_lock ≡ false
unfolding new acquire request grant can_admit check_budget_for_role check_heavy_budget live_check
    get_telemetry
one_unlocked = refl

b-IsFresh : IsFresh "b" two
unfolding take_lock new acquire request grant can_admit check_budget_for_role check_heavy_budget
    live_check get_telemetry Dict.get
b-IsFresh = record { not_active = refl; not_handed = tt }

three_active : Dict.get three.active_leases "a" ≡ some reasoning_lease
unfolding wait to_priority enqueue take_lock new acquire request grant can_admit
    check_budget_for_role check_heavy_budget live_check get_telemetry Dict.get
three_active = refl

c-IsFresh : IsFresh "c" three
unfolding wait to_priority enqueue take_lock new acquire request grant can_admit
    check_budget_for_role check_heavy_budget live_check get_telemetry Dict.get
c-IsFresh = record { not_active = refl; not_handed = tt }

-- The waiting request has the memory of the lease that was released.
four_granted : four.allocated_vram_mb ≡ 4000
unfolding release dispatch_next_waiter finish_dispatch admits_waiter hand_over lease_of take_back
    pop_admissible get_resident_vram wait to_priority enqueue take_lock new acquire request grant
    can_admit check_budget_for_role check_heavy_budget live_check get_telemetry Dict.get Dict.has
four_granted = refl

run_of_four : Reach start four
run_of_four =
    next
      (next
        (next
          (next here (acquires (supply "a") reasoning (pos 5000) (pos 2000) true (pos 1) a-IsFresh))
          (locks reasoning_lease one_active (unfold is_heavy in refl) one_unlocked))
        (acquires (supply "b") vlm (pos 4000) (pos 1000) true (pos 1) b-IsFresh))
      (releases (supply "c") reasoning_lease c-IsFresh (inr three_active))

Reach-safe_example :
    (total vram four.active_leases ≤ usable_vram_ceiling four)
    × (total ram four.active_leases ≤ four.max_ram_mb)
    × (total heavies four.active_leases ≤ 1)
Reach-safe_example = Reach-safe 7200 12000 500 15 run_of_four

start-IsSound : IsSound start
unfolding new
start-IsSound = record { balanced = omega arith; handed_genuine = tt }

Step-IsSound_example : IsSound one
Step-IsSound_example =
    Step-IsSound (acquires (supply "a") reasoning (pos 5000) (pos 2000) true (pos 1) a-IsFresh)
      start-IsSound
