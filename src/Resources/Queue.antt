-- ===== src/Resources/Queue.antt =====
-- The priority queue of waiting requests (python/tom/resources/policies.py). Its lock makes every
-- method one step. Times are whole ticks of the injectable clock, and a fresh identifier, which the
-- program draws at random, is an argument.
use tom.Prelude.{
  ℕ, ◌+◌, ◌-◌, ◌/◌, String, Bool, true, false, ◌&&◌, ◌||◌, not, Option, none, some, List, [], ◌∷◌,
  ltb, leb, ◌==◌, length, if◌then◌else◌,
}
use tom.Dict
use tom.Dict.{Dict}
use tom.Sorting.{sorted}

-- python/tom/resources/types.py
pub data ModelRole : Type 0 where
  router reasoning vlm general stt : ModelRole

pub data TaskPriority : Type 0 where
  voice_interactive user_interactive routing reasoning_step vision background : TaskPriority

-- The numeric value, lower for more urgent.
abbrev pub value : TaskPriority → ℕ
value voice_interactive = 0
value user_interactive = 1
value routing = 2
value reasoning_step = 3
value vision = 4
value background = 5

pub record ResourceWaiter : Type 0 where
  pub waiter_id : String
  pub priority : TaskPriority
  pub created_at : ℕ
  pub sequence : ℕ
  pub role : ModelRole
  pub vram_mb : ℕ
  pub ram_mb : ℕ
  pub granted : Bool
  pub cancelled : Bool

pub record PriorityResourceQueue : Type 0 where
  pub aging_threshold_seconds : ℕ
  pub waiters : Dict ResourceWaiter
  pub next_sequence : ℕ

abbrev pub new : ℕ → PriorityResourceQueue
new aging_threshold_seconds = record {
  aging_threshold_seconds = aging_threshold_seconds;
  waiters = [];
  next_sequence = 0;
}

-- `-` stops at 0, as do both calls of `max` in the source.
unfoldable pub get_effective_priority : ResourceWaiter → ℕ → ℕ → ℕ
get_effective_priority w now aging_threshold_seconds =
    if aging_threshold_seconds == 0
    then value w.priority
    else let waited = now - w.created_at in
      let boost = waited / aging_threshold_seconds in value w.priority - boost

-- The order of the pairs (effective priority, sequence), which are the sort keys.
abbrev pub key_le : ℕ → ℕ → ℕ → ℕ → Bool
key_le p s q t = ltb p q || (p == q && leb s t)

unfoldable pub is_before : ℕ → ℕ → ResourceWaiter → ResourceWaiter → Bool
is_before threshold now v w =
    key_le (get_effective_priority v now threshold) v.sequence
      (get_effective_priority w now threshold) w.sequence

unfoldable pub enqueue :
    String
    → ModelRole
    → ℕ
    → ℕ
    → TaskPriority
    → ℕ
    → PriorityResourceQueue
    → PriorityResourceQueue × ResourceWaiter
unfolding Dict.put
enqueue waiter_id role vram_mb ram_mb priority now q =
    let waiter : ResourceWaiter = record {
      waiter_id = waiter_id;
      priority = priority;
      created_at = now;
      sequence = q.next_sequence;
      role = role;
      vram_mb = vram_mb;
      ram_mb = ram_mb;
      granted = false;
      cancelled = false;
    } in
    (
      record q {
        next_sequence = q.next_sequence + 1;
        waiters = Dict.put q.waiters waiter_id waiter;
      },
      waiter,
    )

-- The removed waiter is marked as cancelled and returned too.
unfoldable pub remove :
    String → PriorityResourceQueue → PriorityResourceQueue × Option ResourceWaiter
unfolding Dict.get Dict.remove
remove waiter_id q = elim (Dict.get q.waiters waiter_id) [
  | none ↦ (q, none)
  | some w ↦
      (record q { waiters = Dict.remove q.waiters waiter_id }, some (record w { cancelled = true }))
]

unfoldable pub sorted_waiters : ℕ → PriorityResourceQueue → List ResourceWaiter
unfolding sorted Dict.values is_before get_effective_priority
sorted_waiters now q = sorted (is_before q.aging_threshold_seconds now) (Dict.values q.waiters)

abbrev first : List ResourceWaiter → Option ResourceWaiter
first [] = none
first (w ∷ ws) = some w

unfoldable pub peek_next : ℕ → PriorityResourceQueue → Option ResourceWaiter
unfolding sorted_waiters
peek_next now q = first (sorted_waiters now q)

abbrev pub is_admissible : (ResourceWaiter → Bool) → ResourceWaiter → Bool
is_admissible can_admit w = not w.cancelled && can_admit w

-- The loop over the sorted waiters.
unfoldable pub find_admissible :
    (ResourceWaiter → Bool) → List ResourceWaiter → Option ResourceWaiter
find_admissible can_admit [] = none
find_admissible can_admit (w ∷ ws) =
    if is_admissible can_admit w then some w else find_admissible can_admit ws

unfoldable pub take_out :
    Option ResourceWaiter → PriorityResourceQueue → PriorityResourceQueue × Option ResourceWaiter
unfolding Dict.remove
take_out none q = (q, none)
take_out (some w) q =
    (record q { waiters = Dict.remove q.waiters w.waiter_id }, some (record w { granted = true }))

unfoldable pub pop_admissible :
    (ResourceWaiter → Bool)
    → ℕ
    → PriorityResourceQueue
    → PriorityResourceQueue × Option ResourceWaiter
unfolding find_admissible sorted_waiters take_out
pop_admissible can_admit now q = take_out (find_admissible can_admit (sorted_waiters now q)) q

unfoldable pub get_waiters_count : PriorityResourceQueue → ℕ
get_waiters_count q = length q.waiters
