-- ===== src/Ipc/Examples.antt =====
-- Concrete runs of python/tom/ipc/transport.py and python/tom/ipc/client.py.
use tom.Prelude.{◌≡◌, refl, true, false, none, some, List, [], ◌∷◌, arith, map, All}
use tom.Dict.{get, has, put}
use tom.Ipc.Frames.{split_line, Bytes, newline, rstrip}
use tom.Ipc.Transport.{is_connected, read_frame, NamedPipeTransport, eof, frame_read, write_frame}
use tom.Ipc.Wire.{IsFrame, write_all, read_all, frames_read_back}
use tom.Ipc.Client.{IpcResponse, begin_request, not_connected}
use tom.Ipc.Runs.{
  System, initial, Event, begins, ends, write_fails, receives, loses, runs_out, leaves, connects,
  connect_ends, reconnects, closes, loop_ends, close_ends, is_orderly, IsSound, run,
}
use tom.Ipc.Soundness.{run-IsSound}

abbrev two_frames : List Bytes
two_frames = (123 ∷ 125 ∷ []) ∷ (91 ∷ 93 ∷ 13 ∷ newline ∷ []) ∷ []

abbrev idle : NamedPipeTransport
idle = record {
  connected = true;
  is_open = true;
  has_read_timeout = false;
  arriving = [];
  written = [];
}

abbrev wired : NamedPipeTransport
wired = record idle { arriving = 123 ∷ 125 ∷ newline ∷ 91 ∷ 93 ∷ newline ∷ [] }

read_both : (read_all eof 2 wired).1 ≡ frame_read (123 ∷ 125 ∷ []) ∷ frame_read (91 ∷ 93 ∷ []) ∷ []
unfolding read_all read_frame split_line
read_both = refl

two_frames-IsFrame : All IsFrame two_frames
unfolding rstrip
two_frames-IsFrame = (((refl, (refl, tt)), ground arith), (((refl, (refl, tt)), ground arith), tt))

written_twice : (write_all two_frames idle).0.written ≡ 123 ∷ 125 ∷ newline ∷ 91 ∷ 93 ∷ newline ∷ []
unfolding write_all write_frame rstrip
written_twice = refl

frames_read_back_example : (read_all eof 2 wired).1 ≡ map (λ f. frame_read (rstrip f)) two_frames
unfolding is_connected write_all write_frame rstrip
frames_read_back_example =
    frames_read_back eof two_frames idle wired refl refl tt two_frames-IsFrame refl refl

abbrev pong : IpcResponse
pong = record { id = "b"; success = true; data_of = none; error = none }

-- Two requests; the second is answered and ends, and the connection is lost. After it is
-- reconnected, a third waits when the client is closed. Then it is connected again.
abbrev events : List Event
events =
    connects
    ∷ connect_ends true
    ∷ begins "a"
    ∷ begins "b"
    ∷ receives (some pong)
    ∷ ends "b"
    ∷ receives none
    ∷ loses
    ∷ leaves
    ∷ reconnects
    ∷ begins "c"
    ∷ closes
    ∷ loop_ends
    ∷ ends "c"
    ∷ close_ends
    ∷ connects
    ∷ []

events_orderly : is_orderly events initial ≡ true
unfolding is_orderly has put get
events_orderly = refl

one_left : (run events initial).requests ≡ "a" ∷ []
unfolding run has put get
one_left = refl

run-IsSound_example : IsSound (run events initial)
run-IsSound_example = run-IsSound events events_orderly

-- The receive loop runs out since a write broke the pipe; the client stays connected to nothing.
abbrev stuck : System
stuck =
    run
      (connects
        ∷ connect_ends true
        ∷ begins "a"
        ∷ write_fails true "a"
        ∷ receives none
        ∷ runs_out
        ∷ connects
        ∷ [])
      initial

stuck_request : (begin_request "b" stuck.client).1 ≡ some not_connected
unfolding begin_request run has
stuck_request = refl
