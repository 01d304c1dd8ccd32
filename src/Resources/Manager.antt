-- ===== src/Resources/Manager.antt =====
-- The resource manager (python/tom/resources/manager.py). Between two real suspensions a method runs
-- alone, so each function here is one such stretch: the request, the taking of the heavy lock by a
-- lease that was granted, the release with the dispatch of the next waiter, and the end of a wait.
-- Random identifiers, the clock's value and the telemetry provider's answer are arguments.
use tom.Prelude.{
  ℕ, ◌+◌, ◌-◌, String, Bool, true, false, ◌&&◌, ◌||◌, not, Option, none, some, List, [], ◌∷◌, ltb,
  ◌==◌, if◌then◌else◌,
}
use tom.Dict.{Dict}
use tom.Resources.Queue.{ModelRole, router, reasoning, vlm, general, stt, PriorityResourceQueue}

-- Free memory is read in whole MB, rounded down: it is only compared with whole numbers.
pub record Telemetry : Type 0 where
  pub gpu_available : Bool
  pub vram_free_mb : ℕ
  pub ram_free_mb : ℕ

pub record ResourceLease : Type 0 where
  pub lease_id : String
  pub role : ModelRole
  pub vram_mb : ℕ
  pub ram_mb : ℕ

-- `handed` holds the leases that were assigned to waiters which have not yet woken up.
pub record ResourceManager : Type 0 where
  pub max_vram_mb : ℕ
  pub max_ram_mb : ℕ
  pub safety_headroom_mb : ℕ
  pub allocated_vram_mb : ℕ
  pub allocated_ram_mb : ℕ
  pub active_leases : Dict ResourceLease
  pub heavy_lock : Bool
  pub heavy_lock_reserved : Bool
  pub current_heavy_vram_mb : ℕ
  pub queue : PriorityResourceQueue
  pub resident_vram : List (ModelRole × ℕ)
  pub handed : Dict ResourceLease

-- `role in HEAVY_ROLES`
unfoldable pub is_heavy : ModelRole → Bool
is_heavy reasoning = true
is_heavy vlm = true
is_heavy router = false
is_heavy general = false
is_heavy stt = false

abbrev role_index : ModelRole → ℕ
role_index router = 0
role_index reasoning = 1
role_index vlm = 2
role_index general = 3
role_index stt = 4

unfoldable pub get_resident_vram : List (ModelRole × ℕ) → ModelRole → ℕ
get_resident_vram [] role = 0
get_resident_vram ((r, vram) ∷ rs) role =
    if role_index r == role_index role then vram else get_resident_vram rs role

unfoldable pub total_resident_vram : List (ModelRole × ℕ) → ℕ
total_resident_vram [] = 0
total_resident_vram ((r, vram) ∷ rs) = vram + total_resident_vram rs

drop_role : ModelRole → List (ModelRole × ℕ) → List (ModelRole × ℕ)
drop_role role [] = []
drop_role role ((r, vram) ∷ rs) =
    if role_index r == role_index role then drop_role role rs else (r, vram) ∷ drop_role role rs

-- The order of the roles is never read.
unfoldable pub register_resident_model : ModelRole → ℕ → ResourceManager → ResourceManager
unfolding drop_role
register_resident_model role vram_mb m = record m {
  resident_vram = (role, vram_mb) ∷ drop_role role m.resident_vram;
}

unfoldable pub clear_resident_model : ModelRole → ResourceManager → ResourceManager
unfolding drop_role
clear_resident_model role m = record m { resident_vram = drop_role role m.resident_vram }

-- When the provider fails the manager answers from its own accounts.
unfoldable pub get_telemetry : Option Telemetry → ResourceManager → Telemetry
get_telemetry (some telem) m = telem
get_telemetry none m = record {
  gpu_available = false;
  vram_free_mb = m.max_vram_mb - m.allocated_vram_mb;
  ram_free_mb = m.max_ram_mb - m.allocated_ram_mb;
}

abbrev pub usable_vram_ceiling : ResourceManager → ℕ
usable_vram_ceiling m = m.max_vram_mb - m.safety_headroom_mb

-- The live check, with the memory of resident models counted as free. The headroom is added on the
-- left, where the source subtracts it on the right.
unfoldable pub live_check : Telemetry → ℕ → ResourceManager → ℕ → ℕ → Bool
live_check telem resident m vram ram =
    not (
      telem.gpu_available
      && ltb 0 vram
      && ltb (telem.vram_free_mb + resident) (vram + m.safety_headroom_mb))
    && not (ltb 0 ram && ltb telem.ram_free_mb ram)

unfoldable pub check_budget : Option Telemetry → ResourceManager → ℕ → ℕ → Bool
check_budget reading m vram ram =
    not (ltb (usable_vram_ceiling m) (m.allocated_vram_mb + vram))
    && (not (ltb m.max_ram_mb (m.allocated_ram_mb + ram))
        && live_check (get_telemetry reading m) (total_resident_vram m.resident_vram) m vram ram)

-- The check for a heavy role leaves out the memory of the current heavy lease, which is added to the
-- ceiling here and subtracted from the allocation in the source.
unfoldable pub check_heavy_budget : Option Telemetry → ModelRole → ResourceManager → ℕ → ℕ → Bool
check_heavy_budget reading role m vram ram =
    not (ltb (usable_vram_ceiling m + m.current_heavy_vram_mb) (m.allocated_vram_mb + vram))
    && (not (ltb m.max_ram_mb (m.allocated_ram_mb + ram))
        && live_check (get_telemetry reading m) (get_resident_vram m.resident_vram role) m vram ram)

unfoldable pub check_budget_for_role : Option Telemetry → ModelRole → ResourceManager → ℕ → ℕ → Bool
check_budget_for_role reading role m vram ram =
    if is_heavy role
    then check_heavy_budget reading role m vram ram
    else check_budget reading m vram ram

-- `_can_admit_immediate_locked`, and `can_admit` of `_dispatch_next_waiter`: the same tests.
unfoldable pub can_admit : Option Telemetry → ModelRole → ResourceManager → ℕ → ℕ → Bool
can_admit reading role m vram ram =
    check_budget_for_role reading role m vram ram
    && (not (is_heavy role) || (not m.heavy_lock && not m.heavy_lock_reserved))
