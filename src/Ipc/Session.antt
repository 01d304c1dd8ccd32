-- ===== src/Ipc/Session.antt =====
-- The connection of `NamedPipeIpcClient` (python/tom/ipc/client.py): `connect` and `close`, the end of
-- the receive loop and the reconnect loop. `close` is cut where it waits for the tasks that it has
-- cancelled; what it then waits for is the pipe.
use Prim.Native.Nat.{◌^◌}
use tom.Prelude.{ℕ, ◌-◌, ◌*◌, Bool, true, false, not, ◌&&◌, ◌||◌, leb, [], if◌then◌else◌}
use tom.Ipc.Client.{
  ConnectionState, disconnected, connecting, connected, reconnecting, closed, running, leaving,
  ending, stopped, Receiving, is_running, NamedPipeIpcClient, is_state_connected, fail_pending,
}

abbrev pub new : NamedPipeIpcClient
new = record {
  state = disconnected;
  is_closed = false;
  transport_connected = false;
  receive_task = stopped;
  is_reconnecting = false;
  futures = [];
  pending = [];
  recently_done = [];
  loop_count = 0;
}

-- `connect` up to the wait for the transport.
unfoldable pub begin_connect : NamedPipeIpcClient → NamedPipeIpcClient
begin_connect c =
    if is_state_connected c.state
    then c
    else record c { is_closed = false; is_reconnecting = false; state = connecting }

-- The receive task is made, and the client is connected.
unfoldable pub start_receiving : NamedPipeIpcClient → NamedPipeIpcClient
start_receiving c = record c {
  transport_connected = true;
  receive_task = running;
  loop_count = 0;
  state = connected;
}

unfoldable pub finish_connect : Bool → NamedPipeIpcClient → NamedPipeIpcClient
unfolding start_receiving
finish_connect succeeded c =
    if succeeded then start_receiving c else record c { state = disconnected }

-- The receive loop ends by an error of the transport, which it begins to close if the client is not
-- closed.
unfoldable pub lose : NamedPipeIpcClient → NamedPipeIpcClient
unfolding fail_pending
lose c =
    if c.is_closed
    then record (fail_pending c) { receive_task = stopped }
    else record (fail_pending c) { receive_task = leaving; transport_connected = false }

-- The receive loop ends by its condition, since the transport is not connected.
unfoldable pub run_out : NamedPipeIpcClient → NamedPipeIpcClient
unfolding fail_pending
run_out c = record (fail_pending c) { receive_task = stopped }

-- After the transport is closed.
unfoldable pub leave : NamedPipeIpcClient → NamedPipeIpcClient
leave c =
    if c.is_closed
    then record c { receive_task = stopped }
    else record c { receive_task = stopped; state = reconnecting; is_reconnecting = true }

abbrev is_state_closed : ConnectionState → Bool
is_state_closed closed = true
is_state_closed _ = false

-- An attempt of the reconnect loop succeeds.
unfoldable pub reconnected : NamedPipeIpcClient → NamedPipeIpcClient
unfolding start_receiving
reconnected c =
    if is_state_closed c.state
    then record c { transport_connected = false; is_reconnecting = false }
    else record (start_receiving c) { is_reconnecting = false }

-- An attempt fails, and the loop goes on; `last` tells that it was the last of its burst.
unfoldable pub attempt_failed : Bool → NamedPipeIpcClient → NamedPipeIpcClient
attempt_failed last c =
    if last
    then record c { transport_connected = false; state = disconnected }
    else record c { transport_connected = false }

-- A task that runs is cancelled.
abbrev pub cancel_task : Receiving → Receiving
cancel_task stopped = stopped
cancel_task _ = ending

-- The tasks that `close` has cancelled are over.
unfoldable pub end_close : NamedPipeIpcClient → NamedPipeIpcClient
unfolding fail_pending
end_close c = record (fail_pending c) { receive_task = stopped; transport_connected = false }

-- `close` waits for the reconnect loop or the receive task.
abbrev pub close_waits : NamedPipeIpcClient → Bool
close_waits c = not c.is_closed && (c.is_reconnecting || is_running c.receive_task)

-- `close` up to its first wait for a task, or to its end when there is none.
unfoldable pub close : NamedPipeIpcClient → NamedPipeIpcClient
unfolding end_close
close c =
    if c.is_closed
    then c
    else let c' = record c {
      is_closed = true;
      state = closed;
      is_reconnecting = false;
      receive_task = cancel_task c.receive_task;
    } in
      if c.is_reconnecting || is_running c.receive_task then c' else end_close c'

-- The cancellation ends the receive task, whose `finally` fails the pending futures.
unfoldable pub end_loop : NamedPipeIpcClient → NamedPipeIpcClient
unfolding fail_pending
end_loop c = record (fail_pending c) { receive_task = stopped }

-- Milliseconds before an attempt, without the jitter, which takes a random part of them.
unfoldable pub backoff_delay : ℕ → ℕ → ℕ → ℕ
backoff_delay base_delay max_delay attempt =
    let raw = base_delay * 2 ^ (attempt - 1) in if leb max_delay raw then max_delay else raw
