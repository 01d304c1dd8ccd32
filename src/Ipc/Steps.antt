-- ===== src/Ipc/Steps.antt =====
-- What each step of `NamedPipeIpcClient` (python/tom/ipc/client.py) keeps for the requests that are
-- under way.
use tom.Prelude.{
  ◌+◌, String, ◌≡◌, refl, ◌⊎◌, inl, inr, true, false, Option, none, some, arith, str_eq, eq_iff,
  leb, All, All-map, Bool-cases,
}
use tom.Dict.{get, put, get-put}
use tom.Ipc.Client.{
  IpcResponse, Future, waiting, cancelled, lost, resolved, Receiving, NamedPipeIpcClient, Outcome,
  is_in, is_waiting, add, by_future, expire, receive, count_loop, fail_pending, pop,
}
use tom.Ipc.Registers.{is_in-discard, is_in-add, get-fail_all, failed-IsServed, All-discard}
use tom.Ipc.Runs.{is_loop, Serves, System, settle}

pub begin-Serves :
    (k j : String) (c : NamedPipeIpcClient)
    → is_loop c.receive_task ≡ true
    → (str_eq k j ≡ true) ⊎ Serves c j
    → Serves (record c { futures = put c.futures k waiting; pending = add k c.pending }) j
begin-Serves k j c l h = elim (Bool-cases (str_eq k j)) [
  | inl e ↦ rw (get-put c.futures k j waiting, is_in-add k j c.pending, e) ((l, refl))
  | inr e ↦
      rw (get-put c.futures k j waiting, is_in-add k j c.pending, e)
        (elim h [ inl b ↦ absurd (ground (arith, b, e)) | inr s ↦ s ])
]

-- Another request is popped.
pub pop-Serves :
    (k j : String) (c : NamedPipeIpcClient) → str_eq k j ≡ false → Serves c j → Serves (pop k c) j
unfolding pop
pop-Serves k j c n h = rw (is_in-discard k j c.pending, n) h

-- Another request's future is written.
put-Serves :
    (k j : String) (f : Future) (c : NamedPipeIpcClient)
    → str_eq k j ≡ false
    → Serves c j
    → Serves (record c { futures = put c.futures k f }) j
put-Serves k j f c n h = rw (get-put c.futures k j f, n) h

count_loop-Serves : (j : String) (c : NamedPipeIpcClient) → Serves c j → Serves (count_loop c) j
unfolding count_loop
count_loop-Serves j c h = elim (Bool-cases (leb 100 (c.loop_count + 1))) [
  | inl e ↦ rw e h
  | inr e ↦ rw e h
]

resolve-Serves :
    (r : IpcResponse) (j : String) (c : NamedPipeIpcClient)
    → Serves c j
    → Serves (record c { futures = put c.futures r.id (resolved r) }) j
resolve-Serves r j c h = elim (Bool-cases (str_eq r.id j)) [
  | inl e ↦ rw (get-put c.futures r.id j (resolved r), e) ((eq_iff r.id j).0 e)
  | inr e ↦ put-Serves r.id j (resolved r) c e h
]

pub receive-Serves :
    (o : Option IpcResponse) (j : String) (c : NamedPipeIpcClient)
    → Serves c j
    → Serves (receive o c) j
unfolding receive
receive-Serves none j c h = h
receive-Serves (some r) j c h = elim (Bool-cases (is_in r.id c.pending)) [
  | inr e ↦ rw (e, receive) h
  | inl e ↦ elim (Bool-cases (is_waiting (get c.futures r.id))) [
    | inr w ↦ rw (e, w, receive) h
    | inl w ↦ rw (e, w, receive) (count_loop-Serves j _ (resolve-Serves r j c h))
  ]
]

-- The futures fail that were pending, whatever becomes of the receive task.
pub fail_pending-Serves :
    (task : Receiving) (j : String) (c : NamedPipeIpcClient)
    → Serves c j
    → Serves (record (fail_pending c) { receive_task = task }) j
unfolding fail_pending
fail_pending-Serves task j c h =
    rw (get-fail_all c.pending c.futures j)
      (failed-IsServed _ (is_loop task) (is_in j c.pending) false j (get c.futures j) h)

-- A request that has an outcome is no longer under way; the others are served as before.
pub settle-Serves :
    (k : String) (s : System) (r : NamedPipeIpcClient × Option Outcome)
    → All (Serves s.client) s.requests
    → ((j : String) → Serves s.client j → (r.1 ≡ none) → Serves r.0 j)
    → ((j : String) → str_eq k j ≡ false → Serves s.client j → Serves r.0 j)
    → All (Serves (settle k s r).client) (settle k s r).requests
unfolding settle
settle-Serves k s (c, none) h f g = All-map (λ j x. f j x refl) s.requests h
settle-Serves k s (c, some o) h f g = All-discard k g s.requests h

pub by_future-other :
    (o : Option Future) (k j : String) (c : NamedPipeIpcClient)
    → str_eq k j ≡ false
    → Serves c j
    → Serves (by_future o k c).0 j
unfolding by_future
by_future-other none k j c n h = h
by_future-other (some waiting) k j c n h = h
by_future-other (some cancelled) k j c n h = h
by_future-other (some lost) k j c n h = pop-Serves k j c n h
by_future-other (some (resolved r)) k j c n h = pop-Serves k j c n h

pub by_future-none :
    (o : Option Future) (k j : String) (c : NamedPipeIpcClient)
    → Serves c j
    → (by_future o k c).1 ≡ none
    → Serves (by_future o k c).0 j
unfolding by_future
by_future-none none k j c h e = h
by_future-none (some waiting) k j c h e = h
by_future-none (some cancelled) k j c h e = h
by_future-none (some lost) k j c h e = ground (arith, e)
by_future-none (some (resolved r)) k j c h e = ground (arith, e)

pub expire-other :
    (k j : String) (c : NamedPipeIpcClient)
    → str_eq k j ≡ false
    → Serves c j
    → Serves (expire k c).0 j
unfolding expire
expire-other k j c n h = elim (Bool-cases (is_waiting (get c.futures k))) [
  | inr e ↦ rw (e, expire) h
  | inl e ↦ rw (e, expire, get-put c.futures k j cancelled, is_in-discard k j c.pending, n) h
]

pub expire-none :
    (k j : String) (c : NamedPipeIpcClient)
    → Serves c j
    → (expire k c).1 ≡ none
    → Serves (expire k c).0 j
unfolding expire
expire-none k j c h g = elim (Bool-cases (is_waiting (get c.futures k))) [
  | inr e ↦ rw (e, expire) h
  | inl e ↦ ground (arith, g, e)
]
