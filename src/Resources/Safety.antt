-- ===== src/Resources/Safety.antt =====
-- The resource manager as a transition system: what holds in every state that its steps reach, in
-- any order (python/tom/resources/manager.py).
use tom.Prelude.{ℕ, ◌≤◌, ◌≡◌, ℤ, String, Bool, true, false, some, List, [], arith}
use tom.Dict
use tom.Dict.{Dict}
use tom.Dict.Totals.{total, total-remove}
use tom.Resources.Queue
use tom.Resources.Queue.{ModelRole}
use tom.Resources.Manager.{
  ResourceManager, ResourceLease, is_heavy, usable_vram_ceiling, register_resident_model,
  clear_resident_model,
}
use tom.Resources.Leases.{Supply, acquire, take_lock, release, wake, give_up}
use tom.Resources.Accounts.{vram, ram, heavies, take_lock-IsBalanced}
use tom.Resources.Steps.{
  IsSound, IsFresh, IsGenuine, acquire-IsSound, release-IsSound, wake-IsSound, give_up-IsSound,
}

-- A manager as its constructor leaves it.
unfoldable pub new : ℕ → ℕ → ℕ → ℕ → ResourceManager
new max_vram_mb max_ram_mb safety_headroom_mb aging_threshold_seconds = record {
  max_vram_mb = max_vram_mb;
  max_ram_mb = max_ram_mb;
  safety_headroom_mb = safety_headroom_mb;
  allocated_vram_mb = 0;
  allocated_ram_mb = 0;
  active_leases = [];
  heavy_lock = false;
  heavy_lock_reserved = false;
  current_heavy_vram_mb = 0;
  queue = Queue.new aging_threshold_seconds;
  resident_vram = [];
  handed = [];
}

-- One step of any task. New leases have fresh identifiers; the lock is taken by the holder of an
-- active heavy lease when it is free; a lease that is released is the one that was granted.
pub data Step (m : ResourceManager) : ResourceManager → Type 0 where
  acquires :
      (s : Supply) (role : ModelRole) (v r : ℤ) (blocking : Bool) (p : ℤ)
      → IsFresh s.lease_id m
      → Step m (acquire s role v r blocking p m).0
  locks :
      (lease : ResourceLease)
      → Dict.get m.active_leases lease.lease_id ≡ some lease
      → is_heavy lease.role ≡ true
      → m.heavy_lock ≡ false
      → Step m (take_lock m)
  releases :
      (s : Supply) (lease : ResourceLease)
      → IsFresh s.lease_id m
      → IsGenuine m.active_leases lease
      → Step m (release s lease m)
  wakes : (k : String) → Step m (wake k m).0
  gives_up : (s : Supply) (k : String) → IsFresh s.lease_id m → Step m (give_up s k m)
  registers : (role : ModelRole) (v : ℕ) → Step m (register_resident_model role v m)
  clears : (role : ModelRole) → Step m (clear_resident_model role m)

pub data Reach (m : ResourceManager) : ResourceManager → Type 0 where
  here : Reach m m
  next : {n o : ResourceManager} → Reach m n → Step n o → Reach m o

new-IsSound : (a b c d : ℕ) → IsSound (new a b c d)
unfolding new
new-IsSound a b c d = record { balanced = omega arith; handed_genuine = tt }

take_lock-IsSound :
    (m : ResourceManager) (lease : ResourceLease)
    → Dict.get m.active_leases lease.lease_id ≡ some lease
    → is_heavy lease.role ≡ true
    → m.heavy_lock ≡ false
    → IsSound m
    → IsSound (take_lock m)
unfolding take_lock
take_lock-IsSound m lease held heavy free h =
    let b = h.balanced in
    let one = total-remove heavies m.active_leases lease.lease_id lease b.unique held in
    let reserved : m.heavy_lock_reserved ≡ true = ground (arith, one) in
    record {
      balanced = unfold take_lock in take_lock-IsBalanced m free reserved b;
      handed_genuine = h.handed_genuine;
    }

resident_IsSound :
    (rs : List (ModelRole × ℕ)) (m : ResourceManager)
    → IsSound m
    → IsSound (record m { resident_vram = rs })
resident_IsSound rs m h = record {
  balanced =
      let b = h.balanced in
      record {
        unique = b.unique;
        vram_sum = b.vram_sum;
        ram_sum = b.ram_sum;
        heavy_sum = b.heavy_sum;
        heavy_count = b.heavy_count;
        one_heavy = b.one_heavy;
        vram_bound = b.vram_bound;
        ram_bound = b.ram_bound;
      };
  handed_genuine = h.handed_genuine;
}

-- Every step keeps the accounts: the totals are the sums over the active leases and within the
-- limits, at most one active lease is for a heavy role, and the lock is taken or reserved exactly
-- when there is one.
pub Step-IsSound : {m n : ResourceManager} → Step m n → IsSound m → IsSound n
unfolding register_resident_model clear_resident_model
Step-IsSound {m = m} (acquires s role v r blocking p f) h =
    acquire-IsSound s role v r blocking p m f h
Step-IsSound {m = m} (locks lease held heavy free) h = take_lock-IsSound m lease held heavy free h
Step-IsSound {m = m} (releases s lease f g) h = release-IsSound s lease m f g h
Step-IsSound {m = m} (wakes k) h = wake-IsSound k m h
Step-IsSound {m = m} (gives_up s k f) h = give_up-IsSound s k m f h
Step-IsSound {m = m} (registers role v) h = resident_IsSound _ m h
Step-IsSound {m = m} (clears role) h = resident_IsSound _ m h

Reach-IsSound : {m n : ResourceManager} → Reach m n → IsSound m → IsSound n
Reach-IsSound here h = h
Reach-IsSound (next r s) h = Step-IsSound s (Reach-IsSound r h)

-- In every state that the steps reach from a new manager, in any order, the memory of the active
-- leases is within the ceiling and the RAM limit, and at most one of them is for a heavy role.
pub Reach-safe :
    (a b c d : ℕ) {m : ResourceManager}
    → Reach (new a b c d) m
    → (total vram m.active_leases ≤ usable_vram_ceiling m)
      × (total ram m.active_leases ≤ m.max_ram_mb)
      × (total heavies m.active_leases ≤ 1)
Reach-safe a b c d {m} r =
    let s = (Reach-IsSound r (new-IsSound a b c d)).balanced in
    (omega (arith, s.vram_sum, s.vram_bound), omega (arith, s.ram_sum, s.ram_bound), s.one_heavy)
