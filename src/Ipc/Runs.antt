-- ===== src/Ipc/Runs.antt =====
-- Runs of `NamedPipeIpcClient` (python/tom/ipc/client.py) with the requests that are under way.
use tom.Prelude.{
  String, ◌≡◌, ◌⊎◌, Bool, true, false, not, ◌&&◌, ◌||◌, Option, none, some, List, [], ◌∷◌,
  if◌then◌else◌, All,
}
use tom.Dict.{get, has}
use tom.Ipc.Client.{
  IpcResponse, Future, waiting, cancelled, lost, resolved, Receiving, running, leaving, ending,
  NamedPipeIpcClient, Outcome, is_in, is_running, is_state_connected, discard, begin_request,
  fail_write, end_request, expire, cancel_request, receive,
}
use tom.Ipc.Session
use tom.Ipc.Session.{
  new, begin_connect, finish_connect, lose, run_out, leave, reconnected, attempt_failed,
  close_waits, end_loop, end_close,
}

-- The client, the requests whose callers wait, and whether a call of `connect` waits, and one of
-- `close` for the tasks that it has cancelled.
pub record System : Type 0 where
  pub client : NamedPipeIpcClient
  pub requests : List String
  pub is_connecting : Bool
  pub is_closing : Bool

abbrev pub initial : System
initial = record { client = new; requests = []; is_connecting = false; is_closing = false }

-- What can happen between two suspensions. An identifier is not used twice.
pub data Event : Type 0 where
  begins ends expires cancels : String → Event
  write_fails : Bool → String → Event
  receives : Option IpcResponse → Event
  loses runs_out leaves : Event
  connects : Event
  connect_ends : Bool → Event
  reconnects : Event
  attempt_fails : Bool → Event
  closes loop_ends close_ends : Event

-- The receive loop reads frames.
abbrev pub is_reading : Receiving → Bool
is_reading running = true
is_reading _ = false

-- The `finally` of the receive loop is still to come.
abbrev pub is_loop : Receiving → Bool
is_loop running = true
is_loop ending = true
is_loop _ = false

abbrev pub is_ending : Receiving → Bool
is_ending ending = true
is_ending _ = false

abbrev pub is_leaving : Receiving → Bool
is_leaving leaving = true
is_leaving _ = false

-- The state after a request, which is under way until it has an outcome.
unfoldable pub settle : String → System → NamedPipeIpcClient × Option Outcome → System
unfolding discard
settle k s (c, none) = record s { client = c }
settle k s (c, some o) = record s { client = c; requests = discard k s.requests }

unfoldable pub begin : String → System → NamedPipeIpcClient × Option Outcome → System
begin k s (c, none) = record s { client = c; requests = k ∷ s.requests }
begin k s (c, some o) = s

-- An event that cannot happen in the state changes nothing.
unfoldable pub apply : Event → System → System
unfolding settle begin begin_request fail_write end_request expire cancel_request receive
    begin_connect finish_connect lose run_out leave reconnected attempt_failed Session.close
    end_loop end_close
apply (begins k) s = if has s.client.futures k then s else begin k s (begin_request k s.client)
apply (ends k) s = if is_in k s.requests then settle k s (end_request k s.client) else s
apply (expires k) s = if is_in k s.requests then settle k s (expire k s.client) else s
apply (cancels k) s = if is_in k s.requests then settle k s (cancel_request k s.client) else s
apply (write_fails broke k) s =
    if is_in k s.requests then settle k s (fail_write broke k s.client) else s
apply (receives r) s =
    if is_reading s.client.receive_task then record s { client = receive r s.client } else s
apply loses s = if is_reading s.client.receive_task then record s { client = lose s.client } else s
apply runs_out s =
    if is_reading s.client.receive_task && not s.client.transport_connected
    then record s { client = run_out s.client }
    else s
apply leaves s =
    if is_leaving s.client.receive_task then record s { client = leave s.client } else s
apply connects s = record s {
  client = begin_connect s.client;
  is_connecting = s.is_connecting || not (is_state_connected s.client.state);
}
apply (connect_ends ok) s =
    if s.is_connecting
    then record s { client = finish_connect ok s.client; is_connecting = false }
    else s
apply reconnects s =
    if s.client.is_reconnecting then record s { client = reconnected s.client } else s
apply (attempt_fails last) s =
    if s.client.is_reconnecting then record s { client = attempt_failed last s.client } else s
apply closes s = record s {
  client = Session.close s.client;
  is_closing = s.is_closing || close_waits s.client;
}
apply loop_ends s =
    if is_ending s.client.receive_task then record s { client = end_loop s.client } else s
apply close_ends s =
    if s.is_closing && not (is_running s.client.receive_task)
    then record s { client = end_close s.client; is_closing = false }
    else s

unfoldable pub run : List Event → System → System
unfolding apply
run [] s = s
run (e ∷ es) s = run es (apply e s)

-- `connect` is called while no call of it and none of `close` waits.
abbrev pub allows : Event → System → Bool
allows connects s = not s.is_connecting && not s.is_closing
allows _ s = true

unfoldable pub is_orderly : List Event → System → Bool
unfolding apply
is_orderly [] s = true
is_orderly (e ∷ es) s = allows e s && is_orderly es (apply e s)

-- How a request that is under way stands: it waits, registered, while the receive loop runs or its
-- `finally` is still to come; or its future has the response to it, or the loss of the connection.
abbrev pub IsServed : Bool → Bool → String → Option Future → Type 0
IsServed live registered k (some waiting) = (live ≡ true) × (registered ≡ true)
IsServed live registered k (some (resolved r)) = r.id ≡ k
IsServed live registered k (some lost) = Unit
IsServed live registered k (some cancelled) = ⊥
IsServed live registered k none = ⊥

abbrev pub Serves : NamedPipeIpcClient → String → Type 0
Serves c k = IsServed (is_loop c.receive_task) (is_in k c.pending) k (get c.futures k)

-- `connect` and the reconnect loop are not under way at once. While the receive task runs, neither
-- is, and the client is connected or a `close` waits for the task; when the task leaves, the
-- transport is closed.
abbrev pub IsSettled : Bool → Bool → NamedPipeIpcClient → Type 0
IsSettled is_connecting is_closing c =
    ((is_connecting ≡ false) ⊎ (c.is_reconnecting ≡ false))
    × ((is_running c.receive_task ≡ false)
        ⊎ ((((is_state_connected c.state ≡ true) × (is_ending c.receive_task ≡ false))
              ⊎ ((is_ending c.receive_task ≡ true) × (c.is_closed ≡ true) × (is_closing ≡ true)))
            × (is_connecting ≡ false)
            × (c.is_reconnecting ≡ false)
            × ((is_leaving c.receive_task ≡ false) ⊎ (c.transport_connected ≡ false))))

abbrev pub IsSound : System → Type 0
IsSound s = All (Serves s.client) s.requests × IsSettled s.is_connecting s.is_closing s.client
