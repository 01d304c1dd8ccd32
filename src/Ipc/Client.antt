-- ===== src/Ipc/Client.antt =====
-- `NamedPipeIpcClient` (python/tom/ipc/client.py). Each coroutine is cut at its suspensions: a request
-- into its start, and its end once its future is done, its time is up or its caller is cancelled; the
-- receive loop into one pass for each frame, its end, and what follows the end; the reconnect
-- loop into its attempts. Identifiers are new for each request, so a future is named by its request.
use tom.Prelude.{
  ℕ, ◌+◌, String, Bool, true, false, not, ◌&&◌, Option, none, some, List, [], ◌∷◌, str_eq, leb,
  if◌then◌else◌,
}
use tom.Dict.{Dict, get, put}

pub data ConnectionState : Type 0 where
  disconnected connecting connected reconnecting closed : ConnectionState

-- The payloads are not looked into.
pub record IpcError : Type 0 where
  pub code : String
  pub message : String

pub record IpcResponse : Type 0 where
  pub id : String
  pub success : Bool
  pub data_of : Option String
  pub error : Option IpcError

pub data Future : Type 0 where
  waiting cancelled lost : Future
  resolved : IpcResponse → Future

-- Whether the receive task runs its loop, has left it by an error and closes the transport, is
-- cancelled by a `close` that waits for its end, or does not run.
pub data Receiving : Type 0 where
  running leaving ending stopped : Receiving

pub record NamedPipeIpcClient : Type 0 where
  pub state : ConnectionState
  pub is_closed : Bool
  pub transport_connected : Bool
  pub receive_task : Receiving
  pub is_reconnecting : Bool
  pub futures : Dict Future
  pub pending : List String
  pub recently_done : List String
  pub loop_count : ℕ

-- What a request returns or raises.
pub data Outcome : Type 0 where
  returned : Option String → Outcome
  remote_error : String → String → Outcome
  not_connected timed_out caller_cancelled connection_lost write_failed : Outcome

abbrev pub is_in : String → List String → Bool
is_in k [] = false
is_in k (j ∷ js) = if str_eq j k then true else is_in k js

unfoldable pub discard : String → List String → List String
discard k [] = []
discard k (j ∷ js) = if str_eq j k then discard k js else j ∷ discard k js

abbrev pub add : String → List String → List String
add k ks = if is_in k ks then ks else k ∷ ks

abbrev pub is_running : Receiving → Bool
is_running stopped = false
is_running _ = true

abbrev pub is_state_connected : ConnectionState → Bool
is_state_connected connected = true
is_state_connected _ = false

unfoldable pub is_connected : NamedPipeIpcClient → Bool
is_connected c =
    is_state_connected c.state
    && not c.is_closed
    && c.transport_connected
    && is_running c.receive_task

-- `request` up to the wait, without the frame that it writes.
unfoldable pub begin_request : String → NamedPipeIpcClient → NamedPipeIpcClient × Option Outcome
unfolding is_connected
begin_request id c =
    if is_connected c
    then (record c { futures = put c.futures id waiting; pending = add id c.pending }, none)
    else (c, some not_connected)

unfoldable pub pop : String → NamedPipeIpcClient → NamedPipeIpcClient
unfolding discard
pop id c = record c { pending = discard id c.pending }

-- The frame cannot be written. If the pipe broke, the transport is no longer connected.
unfoldable pub fail_write : Bool → String → NamedPipeIpcClient → NamedPipeIpcClient × Option Outcome
unfolding pop
fail_write pipe_broke id c =
    let c' = pop id c in
    (record c' { transport_connected = c.transport_connected && not pipe_broke }, some write_failed)

error_outcome : Option IpcError → Outcome
error_outcome none = remote_error "INTERNAL" "Unknown remote error"
error_outcome (some e) = remote_error e.code e.message

unfoldable pub answer : IpcResponse → Outcome
unfolding error_outcome
answer r = if not r.success then error_outcome r.error else returned r.data_of

-- What the wait gives, if it ends by the future.
unfoldable pub by_future :
    Option Future → String → NamedPipeIpcClient → NamedPipeIpcClient × Option Outcome
unfolding pop answer
by_future (some (resolved r)) id c = (pop id c, some (answer r))
by_future (some lost) id c = (pop id c, some connection_lost)
by_future _ id c = (c, none)

unfoldable pub end_request : String → NamedPipeIpcClient → NamedPipeIpcClient × Option Outcome
unfolding by_future
end_request id c = by_future (get c.futures id) id c

abbrev pub is_waiting : Option Future → Bool
is_waiting (some waiting) = true
is_waiting _ = false

abbrev pub remember : String → NamedPipeIpcClient → NamedPipeIpcClient
remember id c = record c { recently_done = add id c.recently_done; pending = discard id c.pending }

-- The time is up while the future is not done.
unfoldable pub expire : String → NamedPipeIpcClient → NamedPipeIpcClient × Option Outcome
unfolding discard
expire id c =
    if is_waiting (get c.futures id)
    then (record (remember id c) { futures = put c.futures id cancelled }, some timed_out)
    else (c, none)

-- The caller is cancelled. The future is shielded and stays as it is.
unfoldable pub cancel_request : String → NamedPipeIpcClient → NamedPipeIpcClient × Option Outcome
unfolding discard
cancel_request id c = (remember id c, some caller_cancelled)

-- The identifiers among those done that are still pending.
unfoldable pub keep_pending : List String → List String → List String
keep_pending pending [] = []
keep_pending pending (k ∷ ks) =
    if is_in k pending then k ∷ keep_pending pending ks else keep_pending pending ks

unfoldable pub count_loop : NamedPipeIpcClient → NamedPipeIpcClient
unfolding keep_pending
count_loop c =
    if leb 100 (c.loop_count + 1)
    then record c { loop_count = 0; recently_done = keep_pending c.pending c.recently_done }
    else record c { loop_count = c.loop_count + 1 }

-- A pass of the receive loop for a frame; `none` is one that is not a response.
unfoldable pub receive : Option IpcResponse → NamedPipeIpcClient → NamedPipeIpcClient
unfolding count_loop discard
receive none c = c
receive (some r) c =
    if is_in r.id c.pending
    then if is_waiting (get c.futures r.id)
      then count_loop (record c { futures = put c.futures r.id (resolved r) })
      else c
    else record c { recently_done = discard r.id c.recently_done }

unfoldable pub fail_future : Option Future → String → Dict Future → Dict Future
fail_future (some waiting) id futures = put futures id lost
fail_future _ id futures = futures

-- The futures of the identifiers that are not done yet.
unfoldable pub fail_all : List String → Dict Future → Dict Future
unfolding fail_future
fail_all [] futures = futures
fail_all (k ∷ ks) futures = fail_all ks (fail_future (get futures k) k futures)

unfoldable pub fail_pending : NamedPipeIpcClient → NamedPipeIpcClient
unfolding fail_all
fail_pending c = record c { pending = []; futures = fail_all c.pending c.futures }
