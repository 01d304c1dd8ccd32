-- ===== src/Resources/Steps.antt =====
-- The steps of the resource manager in any order, and the invariant that they keep
-- (python/tom/resources/manager.py).
use tom.Prelude.{
  ℕ, ◌≡◌, refl, ◌⊎◌, inl, inr, ℤ, pos, negsuc, String, Bool, true, false, Option, none, some, [],
  ◌∷◌, arith, str_eq, eq_refl, Bool-cases, All-map,
}
use tom.Dict
use tom.Dict.{Dict, get-put, get-remove}
use tom.Dict.Values.{
  AllValues, AllValues-put, AllValues-remove, AllValues-get, has_of_none, has_of_some,
}
use tom.Resources.Queue.{ModelRole, PriorityResourceQueue, ResourceWaiter, TaskPriority}
use tom.Resources.Queue.{is_admissible}
use tom.Resources.Arbitration.{popped, pop-Best}
use tom.Resources.Manager.{
  ResourceManager, ResourceLease, Telemetry, check_budget_for_role, can_admit,
}
use tom.Resources.Leases.{
  Supply, grant, take_back, request, acquire, to_priority, wait, lease_of, hand_over, admits_waiter,
  finish_dispatch, dispatch_next_waiter, release, wake, end_wait, give_up,
}
use tom.Resources.Accounts.{
  IsBalanced, Admits, can_admit-Admits, grant-IsBalanced, take_back-IsBalanced,
}

-- Under its identifier stands this lease or none.
abbrev pub IsGenuine : Dict ResourceLease → ResourceLease → Type 0
IsGenuine d lease = (Dict.get d lease.lease_id ≡ none) ⊎ (Dict.get d lease.lease_id ≡ some lease)

pub record IsSound (m : ResourceManager) : Type 0 where
  pub balanced : IsBalanced m
  pub handed_genuine : AllValues (IsGenuine m.active_leases) m.handed

-- The identifier of a new lease is neither active nor that of a lease on its way to a waiter.
pub record IsFresh (k : String) (m : ResourceManager) : Type 0 where
  pub not_active : Dict.get m.active_leases k ≡ none
  pub not_handed : AllValues (λ lease. str_eq k lease.lease_id ≡ false) m.handed

IsGenuine-put :
    (d : Dict ResourceLease) (new : ResourceLease) (handed : Dict ResourceLease)
    → AllValues (λ lease. str_eq new.lease_id lease.lease_id ≡ false) handed
    → AllValues (IsGenuine d) handed
    → AllValues (IsGenuine (Dict.put d new.lease_id new)) handed
IsGenuine-put d new [] f h = tt
IsGenuine-put d new ((k, lease) ∷ handed) f h = (
  rw (get-put d new.lease_id lease.lease_id new) (rw f.0 h.0),
  IsGenuine-put d new handed f.1 h.1,
)

IsGenuine-remove :
    (d : Dict ResourceLease) (k : String) (lease : ResourceLease)
    → IsGenuine d lease
    → IsGenuine (Dict.remove d k) lease
IsGenuine-remove d k lease h =
    rw (get-remove d k lease.lease_id)
      (elim (Bool-cases (str_eq k lease.lease_id)) [ inl p ↦ inl (rw p) | inr p ↦ rw p h ])

grant-IsSound :
    (lease : ResourceLease) (m : ResourceManager)
    → IsFresh lease.lease_id m
    → Admits lease.role lease.vram_mb lease.ram_mb m
    → IsSound m
    → IsSound (grant lease m)
grant-IsSound lease m f a h = record {
  balanced = grant-IsBalanced lease m f.not_active a h.balanced;
  handed_genuine =
      unfold grant in IsGenuine-put m.active_leases lease m.handed f.not_handed h.handed_genuine;
}

take_back-IsSound :
    (lease : ResourceLease) (m : ResourceManager)
    → Dict.get m.active_leases lease.lease_id ≡ some lease
    → IsSound m
    → IsSound (take_back lease m)
take_back-IsSound lease m held h = record {
  balanced = take_back-IsBalanced lease m held h.balanced;
  handed_genuine =
      unfold take_back in
      All-map (λ e g. IsGenuine-remove m.active_leases lease.lease_id e.1 g) m.handed
        h.handed_genuine;
}

-- The queue plays no part in the invariant.
queue_IsSound :
    (q : PriorityResourceQueue) (m : ResourceManager) → IsSound m → IsSound (record m { queue = q })
queue_IsSound q m h = record {
  balanced =
      let b = h.balanced in
      record {
        unique = b.unique;
        vram_sum = b.vram_sum;
        ram_sum = b.ram_sum;
        heavy_sum = b.heavy_sum;
        heavy_count = b.heavy_count;
        one_heavy = b.one_heavy;
        vram_bound = b.vram_bound;
        ram_bound = b.ram_bound;
      };
  handed_genuine = h.handed_genuine;
}

queue_Admits :
    (q : PriorityResourceQueue) (role : ModelRole) (v r : ℕ) (m : ResourceManager)
    → Admits role v r m
    → Admits role v r (record m { queue = q })
queue_Admits q role v r m a = record {
  vram_fits = a.vram_fits;
  ram_fits = a.ram_fits;
  lock_free = a.lock_free;
}

admitted :
    (reading : Option Telemetry) (m : ResourceManager) (w : ResourceWaiter)
    → is_admissible (admits_waiter reading m) w ≡ true
    → can_admit reading w.role m w.vram_mb w.ram_mb ≡ true
unfolding admits_waiter
admitted reading m w h = ground arith

handed_IsSound :
    (d : Dict ResourceLease) (m : ResourceManager)
    → AllValues (IsGenuine m.active_leases) d
    → IsSound m
    → IsSound (record m { handed = d })
handed_IsSound d m g h = record {
  balanced =
      let b = h.balanced in
      record {
        unique = b.unique;
        vram_sum = b.vram_sum;
        ram_sum = b.ram_sum;
        heavy_sum = b.heavy_sum;
        heavy_count = b.heavy_count;
        one_heavy = b.one_heavy;
        vram_bound = b.vram_bound;
        ram_bound = b.ram_bound;
      };
  handed_genuine = g;
}

granted_is_active :
    (lease : ResourceLease) (m : ResourceManager)
    → Dict.get (grant lease m).active_leases lease.lease_id ≡ some lease
unfolding grant
granted_is_active lease m =
    rw (get-put m.active_leases lease.lease_id lease.lease_id lease) (rw (eq_refl lease.lease_id))

hand_over-IsSound :
    (k : String) (w : ResourceWaiter) (m : ResourceManager)
    → IsFresh k m
    → Admits w.role w.vram_mb w.ram_mb m
    → IsSound m
    → IsSound (hand_over k (some w) m)
unfolding hand_over lease_of
hand_over-IsSound k w m f a h =
    let lease = lease_of k w in
    let m' = grant lease m in
    let sound = grant-IsSound lease m f a h in
    handed_IsSound (Dict.put m'.handed w.waiter_id lease) m'
      (AllValues-put (IsGenuine m'.active_leases) m'.handed w.waiter_id lease
        (inr (granted_is_active lease m)) sound.handed_genuine)
      sound

dispatch-IsSound :
    (s : Supply) (m : ResourceManager)
    → IsFresh s.lease_id m
    → IsSound m
    → IsSound (dispatch_next_waiter s m)
unfolding dispatch_next_waiter finish_dispatch
dispatch-IsSound s m f h = elim (pop-Best (admits_waiter s.reading m) s.now m.queue) [
  | inl (r, e) ↦ rw e (unfold hand_over in queue_IsSound m.queue m h)
  | inr (w, e, (ok, best)) ↦
      let q = (popped m.queue w).0 in
      rw e (
        hand_over-IsSound s.lease_id (record w { granted = true }) (record m { queue = q })
          (record { not_active = f.not_active; not_handed = f.not_handed })
          (queue_Admits q w.role w.vram_mb w.ram_mb m
            (can_admit-Admits s.reading w.role w.vram_mb w.ram_mb m (admitted s.reading m w ok)))
          (queue_IsSound q m h))
]

take_back-IsFresh :
    (k : String) (lease : ResourceLease) (m : ResourceManager)
    → IsFresh k m
    → IsFresh k (take_back lease m)
unfolding take_back
take_back-IsFresh k lease m f = record {
  not_active = rw (get-remove m.active_leases lease.lease_id k) (ground (arith, f.not_active));
  not_handed = f.not_handed;
}

pub release-IsSound :
    (s : Supply) (lease : ResourceLease) (m : ResourceManager)
    → IsFresh s.lease_id m
    → IsGenuine m.active_leases lease
    → IsSound m
    → IsSound (release s lease m)
unfolding release
release-IsSound s lease m f (inl absent) h =
    rw (has_of_none m.active_leases lease.lease_id absent) h
release-IsSound s lease m f (inr held) h =
    rw (has_of_some m.active_leases lease.lease_id lease held) (
      dispatch-IsSound s (take_back lease m) (take_back-IsFresh s.lease_id lease m f)
        (take_back-IsSound lease m held h))

wait-IsSound :
    (s : Supply) (role : ModelRole) (v r : ℕ) (p : Option TaskPriority) (m : ResourceManager)
    → IsSound m
    → IsSound (wait s role v r p m).0
unfolding wait
wait-IsSound s role v r none m h = h
wait-IsSound s role v r (some p) m h = queue_IsSound _ m h

request-IsSound :
    (s : Supply) (role : ModelRole) (v r : ℕ) (blocking : Bool) (p : ℤ) (m : ResourceManager)
    → IsFresh s.lease_id m
    → IsSound m
    → IsSound (request s role v r blocking p m).0
unfolding request
request-IsSound s role v r blocking p m f h =
    elim (Bool-cases (check_budget_for_role s.reading role m v r)) [
      | inr e ↦ rw e h
      | inl e ↦ rw e (elim (Bool-cases (can_admit s.reading role m v r)) [
        | inl a ↦ rw a (
            grant-IsSound (record { lease_id = s.lease_id; role = role; vram_mb = v; ram_mb = r }) m
              f (can_admit-Admits s.reading role v r m a) h)
        | inr a ↦ rw a (elim (Bool-cases blocking) [
          | inl b ↦ rw b (wait-IsSound s role v r (to_priority p) m h)
          | inr b ↦ rw b h
        ])
      ])
    ]

pub acquire-IsSound :
    (s : Supply) (role : ModelRole) (v r : ℤ) (blocking : Bool) (p : ℤ) (m : ResourceManager)
    → IsFresh s.lease_id m
    → IsSound m
    → IsSound (acquire s role v r blocking p m).0
unfolding acquire
acquire-IsSound s role (pos v) (pos r) blocking p m f h =
    request-IsSound s role v r blocking p m f h
acquire-IsSound s role (negsuc v) r blocking p m f h = h
acquire-IsSound s role (pos v) (negsuc r) blocking p m f h = h

pub wake-IsSound : (k : String) (m : ResourceManager) → IsSound m → IsSound (wake k m).0
unfolding wake
wake-IsSound k m h =
    handed_IsSound (Dict.remove m.handed k) m
      (AllValues-remove (IsGenuine m.active_leases) m.handed k h.handed_genuine) h

end_wait-IsSound :
    (s : Supply) (k : String) (o : Option ResourceLease) (m : ResourceManager)
    → IsFresh s.lease_id m
    → ((lease : ResourceLease) → o ≡ some lease → IsGenuine m.active_leases lease)
    → IsSound m
    → IsSound (end_wait s k o m)
unfolding end_wait
end_wait-IsSound s k none m f g h = queue_IsSound _ m h
end_wait-IsSound s k (some lease) m f g h = release-IsSound s lease m f (g lease refl) h

pub give_up-IsSound :
    (s : Supply) (k : String) (m : ResourceManager)
    → IsFresh s.lease_id m
    → IsSound m
    → IsSound (give_up s k m)
unfolding give_up wake
give_up-IsSound s k m f h =
    end_wait-IsSound s k (Dict.get m.handed k) (record m { handed = Dict.remove m.handed k })
      (record {
        not_active = f.not_active;
        not_handed =
            AllValues-remove (λ lease. str_eq s.lease_id lease.lease_id ≡ false) m.handed k
              f.not_handed;
      })
      (λ lease e. AllValues-get (IsGenuine m.active_leases) m.handed k lease e h.handed_genuine)
      (wake-IsSound k m h)
