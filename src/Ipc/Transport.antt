-- ===== src/Ipc/Transport.antt =====
-- `NamedPipeTransport` (python/tom/ipc/transport.py). What arrives from the peer is the buffer of the
-- reader, and each call is told how the rest of the stream behaves meanwhile.
use tom.Prelude.{
  ℕ, ◌+◌, ◌*◌, Bool, true, false, not, ◌&&◌, ◌||◌, Option, none, some, [], ◌∷◌, ◌++◌, length, ltb,
  if◌then◌else◌,
}
use tom.Ipc.Frames.{Bytes, newline, rstrip, split_line}

abbrev pub max_frame_bytes : ℕ
max_frame_bytes = 4_194_304

-- `is_open` tells that there is a writer that is not closing.
pub record NamedPipeTransport : Type 0 where
  pub connected : Bool
  pub is_open : Bool
  pub has_read_timeout : Bool
  pub arriving : Bytes
  pub written : Bytes

unfoldable pub is_connected : NamedPipeTransport → Bool
is_connected t = t.connected && t.is_open

-- What becomes of an attempt to connect: a pipe, an error or the timeout, or an event loop without
-- named pipes.
pub data Dial : Type 0 where
  opened failed unsupported : Dial

pub data Connecting : Type 0 where
  established connection_error transport_error : Connecting

unfoldable pub connect : Dial → NamedPipeTransport → NamedPipeTransport × Connecting
unfolding is_connected
connect dial t = if is_connected t then (t, established) else elim dial [
  | opened ↦
      (record t { connected = true; is_open = true; arriving = []; written = [] }, established)
  | failed ↦ (t, connection_error)
  | unsupported ↦ (t, transport_error)
]

unfoldable pub close : NamedPipeTransport → NamedPipeTransport
close t = record t { connected = false; is_open = false; arriving = [] }

pub data Write : Type 0 where
  sent : Write
  write_not_connected write_lost : Write
  write_too_large : ℕ → Write

-- `fails` tells whether the pipe breaks while the frame is written.
unfoldable pub write_frame : Bool → Bytes → NamedPipeTransport → NamedPipeTransport × Write
unfolding is_connected
write_frame fails frame t =
    let payload = rstrip frame ++ newline ∷ [] in
    if not (is_connected t)
    then (t, write_not_connected)
    else if ltb max_frame_bytes (length frame)
    then (t, write_too_large (length frame))
    else if ltb (max_frame_bytes + 1) (length payload)
    then (t, write_too_large (length payload))
    else if fails
    then (record t { connected = false }, write_lost)
    else (record t { written = t.written ++ payload }, sent)

-- What follows the bytes that arrived: the end of the stream, nothing yet, or an OSError, which
-- the reader raises before it looks at its buffer.
pub data Peer : Type 0 where
  eof silent broken : Peer

pub data Line : Type 0 where
  complete : Bytes → Bytes → Line
  partial : Bytes → Line
  overrun io_error pending : Line

unfoldable pub by_end : Peer → Bytes → Line
by_end eof arriving = partial arriving
by_end silent arriving = pending
by_end broken arriving = io_error

unfoldable pub from_split : Peer → Bytes → Option (Bytes × Bytes) → Line
unfolding by_end
from_split peer arriving (some (line, rest)) =
    if ltb (max_frame_bytes * 2) (length line) then overrun else complete line rest
from_split peer arriving none =
    if ltb (max_frame_bytes * 2) (length arriving) then overrun else by_end peer arriving

-- StreamReader.readline, whose limit is twice the greatest frame. A complete line is given without
-- its newline, with what is left in the buffer.
unfoldable pub readline : Peer → Bytes → Line
unfolding from_split
readline broken arriving = io_error
readline eof arriving = from_split eof arriving (split_line arriving)
readline silent arriving = from_split silent arriving (split_line arriving)

pub data Read : Type 0 where
  frame_read : Bytes → Read
  read_not_connected read_lost timed_out waits : Read
  read_too_large : ℕ → Read

abbrev disconnected : NamedPipeTransport → NamedPipeTransport
disconnected t = record t { connected = false }

unfoldable pub from_line : Line → NamedPipeTransport → NamedPipeTransport × Read
unfolding rstrip
from_line (complete line rest) t =
    let bytes = line ++ newline ∷ [] in
    let payload = rstrip bytes in
    let t' = record t { arriving = rest } in
    if ltb max_frame_bytes (length payload) || ltb (max_frame_bytes + 1) (length bytes)
    then (t', read_too_large (length bytes))
    else (t', frame_read payload)
from_line (partial bytes) t = (disconnected t, read_lost)
from_line overrun t = (disconnected t, read_too_large (max_frame_bytes + 1))
from_line io_error t = (disconnected t, read_lost)
from_line pending t = if t.has_read_timeout then (disconnected t, timed_out) else (t, waits)

unfoldable pub read_frame : Peer → NamedPipeTransport → NamedPipeTransport × Read
unfolding is_connected readline from_line
read_frame peer t =
    if not (is_connected t) then (t, read_not_connected) else from_line (readline peer t.arriving) t
