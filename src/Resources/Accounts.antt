-- ===== src/Resources/Accounts.antt =====
-- The accounts of the resource manager: what holds between any two of its steps
-- (python/tom/resources/manager.py).
use tom.Prelude.{
  ℕ, ◌+◌, ◌≤◌, ◌≡◌, refl, inl, inr, Bool, true, false, Option, none, some, [], ◌∷◌, arith,
  if◌then◌else◌, Bool-cases,
}
use tom.Dict
use tom.Dict.{Dict}
use tom.Dict.Totals.{total, IsUnique, total-put, total-remove, IsUnique-put, IsUnique-remove}
use tom.Resources.Queue.{ModelRole}
use tom.Resources.Manager.{
  ResourceManager, ResourceLease, Telemetry, is_heavy, usable_vram_ceiling, check_budget,
  check_heavy_budget, check_budget_for_role, can_admit,
}
use tom.Resources.Leases.{grant, take_back, take_lock}

abbrev pub vram : ResourceLease → ℕ
vram lease = lease.vram_mb

abbrev pub ram : ResourceLease → ℕ
ram lease = lease.ram_mb

-- 1 for a lease of a heavy role, and its memory.
abbrev pub heavies : ResourceLease → ℕ
heavies lease = if is_heavy lease.role then 1 else 0

abbrev pub heavy_vram : ResourceLease → ℕ
heavy_vram lease = if is_heavy lease.role then lease.vram_mb else 0

abbrev pub bit : Bool → ℕ
bit b = if b then 1 else 0

pub record IsBalanced (m : ResourceManager) : Type 0 where
  pub unique : IsUnique m.active_leases
  pub vram_sum : m.allocated_vram_mb ≡ total vram m.active_leases
  pub ram_sum : m.allocated_ram_mb ≡ total ram m.active_leases
  pub heavy_sum : m.current_heavy_vram_mb ≡ total heavy_vram m.active_leases
  pub heavy_count : total heavies m.active_leases ≡ bit m.heavy_lock + bit m.heavy_lock_reserved
  pub one_heavy : total heavies m.active_leases ≤ 1
  pub vram_bound : m.allocated_vram_mb ≤ usable_vram_ceiling m
  pub ram_bound : m.allocated_ram_mb ≤ m.max_ram_mb

no_heavy_vram : (d : Dict ResourceLease) → total heavies d ≡ 0 → total heavy_vram d ≡ 0
no_heavy_vram [] h = refl
no_heavy_vram ((k, lease) ∷ d) h = elim (Bool-cases (is_heavy lease.role)) [
  | inl p ↦ absurd (ground arith)
  | inr p ↦ ground (arith, no_heavy_vram d)
]

-- What the admission tests say of the accounts.
pub record Admits (role : ModelRole) (v r : ℕ) (m : ResourceManager) : Type 0 where
  pub vram_fits :
      m.allocated_vram_mb + v
      ≤ usable_vram_ceiling m + (if is_heavy role then m.current_heavy_vram_mb else 0)
  pub ram_fits : m.allocated_ram_mb + r ≤ m.max_ram_mb
  pub lock_free : is_heavy role ≡ true → (m.heavy_lock ≡ false) × (m.heavy_lock_reserved ≡ false)

pub can_admit-Admits :
    (reading : Option Telemetry) (role : ModelRole) (v r : ℕ) (m : ResourceManager)
    → can_admit reading role m v r ≡ true
    → Admits role v r m
unfolding can_admit check_budget_for_role check_budget check_heavy_budget
can_admit-Admits reading role v r m h = ground arith

pub grant-IsBalanced :
    (lease : ResourceLease) (m : ResourceManager)
    → Dict.get m.active_leases lease.lease_id ≡ none
    → Admits lease.role lease.vram_mb lease.ram_mb m
    → IsBalanced m
    → IsBalanced (grant lease m)
unfolding grant
grant-IsBalanced lease m new a b =
    let d = m.active_leases in
    let k = lease.lease_id in
    ground (
      arith,
      no_heavy_vram d,
      IsUnique-put d k lease,
      total-put vram d k lease,
      total-put ram d k lease,
      total-put heavies d k lease,
      total-put heavy_vram d k lease,
    )

pub take_back-IsBalanced :
    (lease : ResourceLease) (m : ResourceManager)
    → Dict.get m.active_leases lease.lease_id ≡ some lease
    → IsBalanced m
    → IsBalanced (take_back lease m)
unfolding take_back
take_back-IsBalanced lease m held b =
    let d = m.active_leases in
    let k = lease.lease_id in
    let rest = Dict.remove d k in
    ground (
      arith,
      no_heavy_vram rest,
      IsUnique-remove d k,
      total-remove vram d k lease,
      total-remove ram d k lease,
      total-remove heavies d k lease,
      total-remove heavy_vram d k lease,
    )

pub take_lock-IsBalanced :
    (m : ResourceManager)
    → m.heavy_lock ≡ false
    → m.heavy_lock_reserved ≡ true
    → IsBalanced m
    → IsBalanced (take_lock m)
unfolding take_lock
take_lock-IsBalanced m l r b = ground arith
