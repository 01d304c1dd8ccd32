-- ===== src/Ipc/Settled.antt =====
-- What each step of `NamedPipeIpcClient` (python/tom/ipc/client.py) keeps of the connection: the
-- receive task, the reconnect loop and `connect`.
use tom.Prelude.{
  String, ◌≡◌, refl, ◌⊎◌, inl, inr, Bool, true, false, not, ◌&&◌, ◌||◌, Option, none, some, arith,
}
use tom.Ipc.Client.{
  IpcResponse, NamedPipeIpcClient, Outcome, is_state_connected, is_connected, fail_write,
  end_request, by_future, expire, cancel_request, receive, count_loop, fail_pending, pop,
}
use tom.Ipc.Session
use tom.Ipc.Session.{
  new, begin_connect, start_receiving, finish_connect, lose, run_out, leave, reconnected,
  attempt_failed, close_waits, end_loop, end_close,
}
use tom.Ipc.Runs.{is_loop, is_leaving, is_reading, IsSettled, System, settle}

-- The connection of a client is that of another.
unfoldable pub IsSame : NamedPipeIpcClient → NamedPipeIpcClient → Type 0
IsSame c d =
    (d.state ≡ c.state)
    × (d.receive_task ≡ c.receive_task)
    × (d.is_reconnecting ≡ c.is_reconnecting)
    × (d.is_closed ≡ c.is_closed)
    × ((d.transport_connected ≡ c.transport_connected) ⊎ (d.transport_connected ≡ false))

pub same-IsSettled :
    (b l : Bool) (c d : NamedPipeIpcClient) → IsSame c d → IsSettled b l c → IsSettled b l d
unfolding IsSame
same-IsSettled b l c d (s, r, i, x, inl t) h = rw (s, r, i, x, t) h
same-IsSettled b l c d (s, r, i, x, inr t) h =
    rw (s, r, i, x, t)
      (h.0, elim (h.1) [ inl n ↦ inl n | inr (v, y, z, w) ↦ inr (v, y, z, inr refl) ])

pub settle-IsSettled :
    (k : String) (s : System) (r : NamedPipeIpcClient × Option Outcome)
    → IsSame s.client r.0
    → IsSettled s.is_connecting s.is_closing s.client
    → IsSettled (settle k s r).is_connecting (settle k s r).is_closing (settle k s r).client
unfolding settle
settle-IsSettled k s (c, none) e h = same-IsSettled s.is_connecting s.is_closing s.client c e h
settle-IsSettled k s (c, some o) e h = same-IsSettled s.is_connecting s.is_closing s.client c e h

pub end_request-IsSame : (k : String) (c : NamedPipeIpcClient) → IsSame c (end_request k c).0
unfolding IsSame end_request by_future pop
end_request-IsSame k c = ground arith

pub expire-IsSame : (k : String) (c : NamedPipeIpcClient) → IsSame c (expire k c).0
unfolding IsSame expire
expire-IsSame k c = ground arith

pub fail_write-IsSame :
    (b : Bool) (k : String) (c : NamedPipeIpcClient) → IsSame c (fail_write b k c).0
unfolding IsSame fail_write pop
fail_write-IsSame b k c = ground arith

count_loop-IsSame : (c : NamedPipeIpcClient) → IsSame c (count_loop c)
unfolding IsSame count_loop
count_loop-IsSame c = ground arith

pub receive-IsSame : (o : Option IpcResponse) (c : NamedPipeIpcClient) → IsSame c (receive o c)
unfolding IsSame receive count_loop
receive-IsSame o c = ground arith

-- A connected client whose connection is settled is in its receive loop.
pub connected-is_loop :
    (b l : Bool) (c : NamedPipeIpcClient)
    → IsSettled b l c
    → is_connected c ≡ true
    → is_loop c.receive_task ≡ true
unfolding is_connected
connected-is_loop b l c h e = ground arith

pub lose-IsSettled :
    (b l : Bool) (c : NamedPipeIpcClient)
    → IsSettled b l c
    → is_reading c.receive_task ≡ true
    → IsSettled b l (lose c)
unfolding lose fail_pending
lose-IsSettled b l c h e = ground arith

pub leave-IsSettled :
    (b l : Bool) (c : NamedPipeIpcClient)
    → IsSettled b l c
    → is_leaving c.receive_task ≡ true
    → IsSettled b l (leave c)
unfolding leave
leave-IsSettled b l c h e = ground arith

pub begin_connect-IsSettled :
    (b l : Bool) (c : NamedPipeIpcClient)
    → (not b && not l) ≡ true
    → IsSettled b l c
    → IsSettled (b || not (is_state_connected c.state)) l (begin_connect c)
unfolding begin_connect
begin_connect-IsSettled b l c f h = ground arith

pub finish_connect-IsSettled :
    (b l : Bool) (c : NamedPipeIpcClient)
    → IsSettled true l c
    → IsSettled false l (finish_connect b c)
unfolding finish_connect start_receiving
finish_connect-IsSettled b l c h = ground arith

pub reconnected-IsSettled :
    (b l : Bool) (c : NamedPipeIpcClient)
    → IsSettled b l c
    → c.is_reconnecting ≡ true
    → IsSettled b l (reconnected c)
unfolding reconnected start_receiving
reconnected-IsSettled b l c h e = ground arith

pub attempt_failed-IsSettled :
    (b l last : Bool) (c : NamedPipeIpcClient)
    → IsSettled b l c
    → c.is_reconnecting ≡ true
    → IsSettled b l (attempt_failed last c)
unfolding attempt_failed
attempt_failed-IsSettled b l last c h e = ground arith

pub close-IsSettled :
    (b l : Bool) (c : NamedPipeIpcClient)
    → IsSettled b l c
    → IsSettled b (l || close_waits c) (Session.close c)
unfolding Session.close end_close fail_pending
close-IsSettled b l c h = ground arith

pub end_loop-IsSettled :
    (b l : Bool) (c : NamedPipeIpcClient) → IsSettled b l c → IsSettled b l (end_loop c)
unfolding end_loop fail_pending
end_loop-IsSettled b l c h = (h.0, inl refl)

pub end_close-IsSettled :
    (b l : Bool) (c : NamedPipeIpcClient) → IsSettled b l c → IsSettled b false (end_close c)
unfolding end_close fail_pending
end_close-IsSettled b l c h = (h.0, inl refl)

pub cancel_request-IsSame : (k : String) (c : NamedPipeIpcClient) → IsSame c (cancel_request k c).0
unfolding IsSame cancel_request
cancel_request-IsSame k c = (refl, refl, refl, refl, inl refl)
