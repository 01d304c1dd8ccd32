-- ===== src/Ipc/Soundness.antt =====
-- Every run of `NamedPipeIpcClient` (python/tom/ipc/client.py) serves the requests that are under way.
use tom.Prelude.{
  String, ◌≡◌, refl, sym, subst, inl, inr, Bool, true, false, not, ◌&&◌, ◌||◌, Option, none, some,
  List, [], ◌∷◌, arith, str_eq, eq_refl, if◌then◌else◌, All-map, Bool-cases,
}
use tom.Dict.{get, has, put}
use tom.Ipc.Client.{
  waiting, stopped, NamedPipeIpcClient, Outcome, not_connected, is_in, is_running,
  is_state_connected, is_connected, add, begin_request, fail_write, end_request, expire,
  cancel_request, receive,
}
use tom.Ipc.Registers.{is_in-discard}
use tom.Ipc.Session
use tom.Ipc.Session.{
  new, begin_connect, start_receiving, finish_connect, lose, run_out, leave, reconnected,
  attempt_failed, close_waits, end_loop, end_close,
}
use tom.Ipc.Runs.{
  is_leaving, Serves, IsSettled, System, initial, Event, begins, ends, expires, cancels,
  write_fails, receives, loses, runs_out, leaves, connects, connect_ends, reconnects, attempt_fails,
  closes, loop_ends, close_ends, allows, is_orderly, is_reading, is_ending, IsSound, begin, settle,
  apply, run,
}
use tom.Ipc.Steps.{
  begin-Serves, pop-Serves, receive-Serves, fail_pending-Serves, settle-Serves, by_future-other,
  by_future-none, expire-other, expire-none,
}
use tom.Ipc.Settled.{
  IsSame, same-IsSettled, settle-IsSettled, end_request-IsSame, expire-IsSame, fail_write-IsSame,
  receive-IsSame, connected-is_loop, lose-IsSettled, leave-IsSettled, begin_connect-IsSettled,
  finish_connect-IsSettled, reconnected-IsSettled, attempt_failed-IsSettled, close-IsSettled,
  cancel_request-IsSame, end_loop-IsSettled, end_close-IsSettled,
}
use tom.Ipc.Sessions.{
  lose-Serves, close-Serves, leave-Serves, begin_connect-Serves, finish_connect-Serves,
  reconnected-Serves, attempt_failed-Serves, end_loop-Serves, end_close-Serves,
}

begin_request-connected :
    (k : String) (c : NamedPipeIpcClient)
    → is_connected c ≡ true
    → begin_request k c
      ≡ (record c { futures = put c.futures k waiting; pending = add k c.pending }, none)
unfolding begin_request
begin_request-connected k c e = rw e refl

begin_request-unconnected :
    (k : String) (c : NamedPipeIpcClient)
    → is_connected c ≡ false
    → begin_request k c ≡ (c, some not_connected)
unfolding begin_request
begin_request-unconnected k c e = rw e refl

begin-IsSound :
    (k : String) (s : System) → IsSound s → IsSound (begin k s (begin_request k s.client))
unfolding begin
begin-IsSound k s (h, t) = elim (Bool-cases (is_connected s.client)) [
  | inr e ↦ subst (λ r. IsSound (begin k s r)) (sym (begin_request-unconnected k s.client e)) (h, t)
  | inl e ↦
      let l = connected-is_loop s.is_connecting s.is_closing s.client t e in
      subst (λ r. IsSound (begin k s r)) (sym (begin_request-connected k s.client e))
        (
          (
            begin-Serves k k s.client l (inl (eq_refl k)),
            All-map (λ j x. begin-Serves k j s.client l (inr x)) s.requests h,
          ),
          t,
        )
]

cancel_request-other :
    (k j : String) (c : NamedPipeIpcClient)
    → str_eq k j ≡ false
    → Serves c j
    → Serves (cancel_request k c).0 j
unfolding cancel_request
cancel_request-other k j c n h = rw (is_in-discard k j c.pending, n) h

fail_write-other :
    (b : Bool) (k j : String) (c : NamedPipeIpcClient)
    → str_eq k j ≡ false
    → Serves c j
    → Serves (fail_write b k c).0 j
unfolding fail_write
fail_write-other b k j c n h = pop-Serves k j c n h

-- The client of the state becomes another.
become-IsSound :
    (b l : Bool) (c : NamedPipeIpcClient) (s : System)
    → ((j : String) → Serves s.client j → Serves c j)
    → IsSettled b l c
    → IsSound s
    → IsSound (record s { client = c; is_connecting = b; is_closing = l })
become-IsSound b l c s f t (h, u) = (All-map f s.requests h, t)

-- A request of which `f` gives the outcome, with the client after it.
settle-IsSound :
    (k : String) (s : System) (r : NamedPipeIpcClient × Option Outcome)
    → IsSame s.client r.0
    → ((j : String) → Serves s.client j → (r.1 ≡ none) → Serves r.0 j)
    → ((j : String) → str_eq k j ≡ false → Serves s.client j → Serves r.0 j)
    → IsSound s
    → IsSound (settle k s r)
settle-IsSound k s r e f g (h, t) = (settle-Serves k s r h f g, settle-IsSettled k s r e t)

-- What happens under a guard.
guarded-IsSound :
    (b : Bool) (s t : System) → (b ≡ true → IsSound t) → IsSound s → IsSound (if b then t else s)
guarded-IsSound true s t f h = f refl
guarded-IsSound false s t f h = h

guarded-else-IsSound :
    (b : Bool) (s t : System) → (b ≡ false → IsSound t) → IsSound s → IsSound (if b then s else t)
guarded-else-IsSound true s t f h = h
guarded-else-IsSound false s t f h = f refl

apply-IsSound : (e : Event) (s : System) → allows e s ≡ true → IsSound s → IsSound (apply e s)
unfolding apply
apply-IsSound (begins k) s a h =
    guarded-else-IsSound (has s.client.futures k) s _ (λ _. begin-IsSound k s h) h
apply-IsSound (ends k) s a h =
    guarded-IsSound (is_in k s.requests) s _
      (λ _.
        settle-IsSound k s (end_request k s.client) (end_request-IsSame k s.client)
          (λ j x e. by_future-none (get s.client.futures k) k j s.client x e)
          (λ j n x. by_future-other (get s.client.futures k) k j s.client n x) h)
      h
apply-IsSound (expires k) s a h =
    guarded-IsSound (is_in k s.requests) s _
      (λ _.
        settle-IsSound k s (expire k s.client) (expire-IsSame k s.client)
          (λ j x e. expire-none k j s.client x e) (λ j n x. expire-other k j s.client n x) h)
      h
apply-IsSound (cancels k) s a h =
    guarded-IsSound (is_in k s.requests) s _
      (λ _.
        settle-IsSound k s (cancel_request k s.client) (cancel_request-IsSame k s.client)
          (λ j x e. ground (arith, e)) (λ j n x. cancel_request-other k j s.client n x) h)
      h
apply-IsSound (write_fails b k) s a h =
    guarded-IsSound (is_in k s.requests) s _
      (λ _.
        settle-IsSound k s (fail_write b k s.client) (fail_write-IsSame b k s.client)
          (λ j x e. ground (arith, e)) (λ j n x. fail_write-other b k j s.client n x) h)
      h
apply-IsSound (receives r) s a h =
    guarded-IsSound (is_reading s.client.receive_task) s _
      (λ _.
        become-IsSound s.is_connecting s.is_closing (receive r s.client) s
          (λ j x. receive-Serves r j s.client x)
          (same-IsSettled s.is_connecting s.is_closing s.client _ (receive-IsSame r s.client) h.1)
          h)
      h
apply-IsSound loses s a h =
    guarded-IsSound (is_reading s.client.receive_task) s _
      (λ l.
        become-IsSound s.is_connecting s.is_closing (lose s.client) s
          (λ j x. lose-Serves j s.client x)
          (lose-IsSettled s.is_connecting s.is_closing s.client h.1 l) h)
      h
apply-IsSound runs_out s a h =
    guarded-IsSound (is_reading s.client.receive_task && not s.client.transport_connected) s _
      (λ l.
        become-IsSound s.is_connecting s.is_closing (run_out s.client) s
          (λ j x. fail_pending-Serves stopped j s.client x) (h.1.0, inl refl) h)
      h
apply-IsSound leaves s a h =
    guarded-IsSound (is_leaving s.client.receive_task) s _
      (λ l.
        become-IsSound s.is_connecting s.is_closing (leave s.client) s
          (λ j x. leave-Serves j s.client l x)
          (leave-IsSettled s.is_connecting s.is_closing s.client h.1 l) h)
      h
apply-IsSound connects s a h =
    become-IsSound (s.is_connecting || not (is_state_connected s.client.state)) s.is_closing
      (begin_connect s.client) s (λ j x. begin_connect-Serves j s.client x)
      (begin_connect-IsSettled s.is_connecting s.is_closing s.client a h.1) h
apply-IsSound (connect_ends ok) s a h =
    guarded-IsSound s.is_connecting s _
      (λ c.
        become-IsSound false s.is_closing (finish_connect ok s.client) s
          (λ j x. finish_connect-Serves ok j s.client x)
          (finish_connect-IsSettled ok s.is_closing s.client
            (subst (λ b. IsSettled b s.is_closing s.client) c h.1))
          h)
      h
apply-IsSound reconnects s a h =
    guarded-IsSound s.client.is_reconnecting s _
      (λ r.
        become-IsSound s.is_connecting s.is_closing (reconnected s.client) s
          (λ j x. reconnected-Serves j s.client x)
          (reconnected-IsSettled s.is_connecting s.is_closing s.client h.1 r) h)
      h
apply-IsSound (attempt_fails last) s a h =
    guarded-IsSound s.client.is_reconnecting s _
      (λ r.
        become-IsSound s.is_connecting s.is_closing (attempt_failed last s.client) s
          (λ j x. attempt_failed-Serves last j s.client x)
          (attempt_failed-IsSettled s.is_connecting s.is_closing last s.client h.1 r) h)
      h
apply-IsSound closes s a h =
    become-IsSound s.is_connecting (s.is_closing || close_waits s.client) (Session.close s.client) s
      (λ j x. close-Serves j s.client x) (close-IsSettled s.is_connecting s.is_closing s.client h.1)
      h
apply-IsSound loop_ends s a h =
    guarded-IsSound (is_ending s.client.receive_task) s _
      (λ _.
        become-IsSound s.is_connecting s.is_closing (end_loop s.client) s
          (λ j x. end_loop-Serves j s.client x)
          (end_loop-IsSettled s.is_connecting s.is_closing s.client h.1) h)
      h
apply-IsSound close_ends s a h =
    guarded-IsSound (s.is_closing && not (is_running s.client.receive_task)) s _
      (λ _.
        become-IsSound s.is_connecting false (end_close s.client) s
          (λ j x. end_close-Serves j s.client x)
          (end_close-IsSettled s.is_connecting s.is_closing s.client h.1) h)
      h

both_true : (a b : Bool) → a && b ≡ true → (a ≡ true) × (b ≡ true)
both_true a b h = ground arith

run-IsSound_from :
    (es : List Event) (s : System) → is_orderly es s ≡ true → IsSound s → IsSound (run es s)
unfolding run is_orderly
run-IsSound_from [] s o h = h
run-IsSound_from (e ∷ es) s o h =
    let o' = both_true (allows e s) (is_orderly es (apply e s)) o in
    run-IsSound_from es (apply e s) o'.1 (apply-IsSound e s o'.0 h)

-- After any run of a new client in which `connect` is called only while no other call of it and no
-- call of `close` waits, whatever frames arrive, whenever requests begin, end, expire or are
-- cancelled and the connection is lost, reconnected or closed: each request that is under way
-- either waits, and then it is registered as pending and the receive loop runs or is about to fail
-- the pending requests, or its future has a response with its own identifier, or the loss of the
-- connection. `connect` and the reconnect loop are not under way at once, and neither is while the
-- receive task runs.
pub run-IsSound : (es : List Event) → is_orderly es initial ≡ true → IsSound (run es initial)
run-IsSound es o = run-IsSound_from es initial o (tt, (inl refl, inl refl))
