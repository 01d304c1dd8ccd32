-- ===== src/Resources/Leases.antt =====
-- Requests, releases and waits (`_acquire_internal`, `_grant_immediate_locked`,
-- `_dispatch_next_waiter` and `release` of python/tom/resources/manager.py).
use tom.Prelude.{
  ℕ, ◌+◌, ◌-◌, ℤ, pos, negsuc, String, Bool, true, false, not, Option, none, some, ◌==◌,
  if◌then◌else◌,
}
use tom.Dict
use tom.Dict.{Dict}
use tom.Resources.Queue.{
  ModelRole, TaskPriority, voice_interactive, user_interactive, routing, reasoning_step, vision,
  background, ResourceWaiter, PriorityResourceQueue, enqueue, remove, pop_admissible,
}
use tom.Resources.Manager.{
  ResourceManager, ResourceLease, Telemetry, is_heavy, check_budget_for_role, can_admit,
}

-- What a request comes to. A lease for a heavy role has yet to take the lock.
pub data Outcome : Type 0 where
  granted : ResourceLease → Outcome
  queued : ResourceWaiter → Outcome
  insufficient_resources : Outcome
  lock_held : Outcome
  value_error : Outcome

-- Put a new lease on the accounts; one for a heavy role reserves the lock.
unfoldable pub grant : ResourceLease → ResourceManager → ResourceManager
unfolding is_heavy Dict.put
grant lease m =
    let heavy = is_heavy lease.role in
    record m {
      allocated_vram_mb = m.allocated_vram_mb + lease.vram_mb;
      allocated_ram_mb = m.allocated_ram_mb + lease.ram_mb;
      active_leases = Dict.put m.active_leases lease.lease_id lease;
      current_heavy_vram_mb = if heavy then lease.vram_mb else m.current_heavy_vram_mb;
      heavy_lock_reserved = if heavy then true else m.heavy_lock_reserved;
    }

-- `TaskPriority(priority)`
unfoldable pub to_priority : ℤ → Option TaskPriority
to_priority (pos n) =
    if n == 0
    then some voice_interactive
    else if n == 1
    then some user_interactive
    else if n == 2
    then some routing
    else if n == 3
    then some reasoning_step
    else if n == 4
    then some vision
    else if n == 5
    then some background
    else none
to_priority (negsuc n) = none

-- The identifiers of the new lease and the new waiter, the clock's value and the telemetry.
pub record Supply : Type 0 where
  pub lease_id : String
  pub waiter_id : String
  pub now : ℕ
  pub reading : Option Telemetry

unfoldable pub wait :
    Supply → ModelRole → ℕ → ℕ → Option TaskPriority → ResourceManager → ResourceManager × Outcome
unfolding enqueue
wait s role vram ram none m = (m, value_error)
wait s role vram ram (some priority) m =
    let (q, waiter) = enqueue s.waiter_id role vram ram priority s.now m.queue in
    (record m { queue = q }, queued waiter)

-- `_acquire_internal` up to its first suspension, on amounts that are not negative.
unfoldable pub request :
    Supply → ModelRole → ℕ → ℕ → Bool → ℤ → ResourceManager → ResourceManager × Outcome
request s role vram ram blocking priority m =
    let lease : ResourceLease = record {
      lease_id = s.lease_id;
      role = role;
      vram_mb = vram;
      ram_mb = ram;
    } in
    if not (check_budget_for_role s.reading role m vram ram)
    then (m, insufficient_resources)
    else if can_admit s.reading role m vram ram
    then (grant lease m, granted lease)
    else if not blocking
    then (m, lock_held)
    else wait s role vram ram (to_priority priority) m

-- The guard on the sign of the amounts.
unfoldable pub acquire :
    Supply → ModelRole → ℤ → ℤ → Bool → ℤ → ResourceManager → ResourceManager × Outcome
acquire s role (pos vram) (pos ram) blocking priority m =
    request s role vram ram blocking priority m
acquire s role (negsuc vram) ram blocking priority m = (m, value_error)
acquire s role (pos vram) (negsuc ram) blocking priority m = (m, value_error)

-- `await self._heavy_lock.acquire()` once it is free, and the end of the reservation.
unfoldable pub take_lock : ResourceManager → ResourceManager
take_lock m = record m { heavy_lock = true; heavy_lock_reserved = false }

unfoldable pub lease_of : String → ResourceWaiter → ResourceLease
lease_of lease_id w = record {
  lease_id = lease_id;
  role = w.role;
  vram_mb = w.vram_mb;
  ram_mb = w.ram_mb;
}

-- The waiter's lease is put on the accounts and handed to it.
unfoldable pub hand_over : String → Option ResourceWaiter → ResourceManager → ResourceManager
hand_over lease_id none m = m
hand_over lease_id (some w) m =
    let lease = lease_of lease_id w in
    let m' = grant lease m in record m' { handed = Dict.put m'.handed w.waiter_id lease }

-- `can_admit` of `_dispatch_next_waiter`, on a waiter.
unfoldable pub admits_waiter : Option Telemetry → ResourceManager → ResourceWaiter → Bool
admits_waiter reading m w = can_admit reading w.role m w.vram_mb w.ram_mb

unfoldable pub finish_dispatch :
    String → ResourceManager → PriorityResourceQueue × Option ResourceWaiter → ResourceManager
finish_dispatch lease_id m (q, w) = hand_over lease_id w (record m { queue = q })

-- `_dispatch_next_waiter`
unfoldable pub dispatch_next_waiter : Supply → ResourceManager → ResourceManager
dispatch_next_waiter s m =
    finish_dispatch s.lease_id m (pop_admissible (admits_waiter s.reading m) s.now m.queue)

-- The accounts without the lease; `-` stops at 0, as `max` does in the source.
unfoldable pub take_back : ResourceLease → ResourceManager → ResourceManager
unfolding is_heavy Dict.remove
take_back lease m =
    let heavy = is_heavy lease.role in
    record m {
      active_leases = Dict.remove m.active_leases lease.lease_id;
      allocated_vram_mb = m.allocated_vram_mb - lease.vram_mb;
      allocated_ram_mb = m.allocated_ram_mb - lease.ram_mb;
      current_heavy_vram_mb = if heavy then 0 else m.current_heavy_vram_mb;
      heavy_lock_reserved = if heavy then false else m.heavy_lock_reserved;
      heavy_lock = if heavy then false else m.heavy_lock;
    }

-- A lease that is not active is released for nothing.
unfoldable pub release : Supply → ResourceLease → ResourceManager → ResourceManager
release s lease m =
    if Dict.has m.active_leases lease.lease_id
    then dispatch_next_waiter s (take_back lease m)
    else m

-- A waiter wakes up with the lease that was handed to it.
unfoldable pub wake : String → ResourceManager → ResourceManager × Option ResourceLease
unfolding Dict.get Dict.remove
wake waiter_id m =
    (record m { handed = Dict.remove m.handed waiter_id }, Dict.get m.handed waiter_id)

unfoldable pub end_wait : Supply → String → Option ResourceLease → ResourceManager → ResourceManager
end_wait s waiter_id none m = record m { queue = (remove waiter_id m.queue).0 }
end_wait s waiter_id (some lease) m = release s lease m

-- A wait that ends by its timeout or by cancellation: a lease that was handed over goes back, and
-- otherwise the waiter leaves the queue.
unfoldable pub give_up : Supply → String → ResourceManager → ResourceManager
give_up s waiter_id m = let (m', lease) = wake waiter_id m in end_wait s waiter_id lease m'
