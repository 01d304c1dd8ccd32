-- ===== src/Ipc/Sessions.antt =====
-- What connecting, losing the connection and closing keep for the requests that are under way
-- (python/tom/ipc/client.py).
use tom.Prelude.{String, ◌≡◌, refl, ◌⊎◌, inl, inr, Bool, true, false, ◌||◌, arith, Bool-cases}
use tom.Dict.{get}
use tom.Ipc.Client.{
  Receiving, running, leaving, ending, stopped, closed, NamedPipeIpcClient, is_running,
}
use tom.Ipc.Registers.{live-IsServed}
use tom.Ipc.Session
use tom.Ipc.Session.{
  new, begin_connect, start_receiving, finish_connect, lose, run_out, leave, reconnected,
  attempt_failed, cancel_task, end_loop, end_close,
}
use tom.Ipc.Runs.{is_loop, is_leaving, Serves}
use tom.Ipc.Steps.{fail_pending-Serves}

live-Serves :
    (c d : NamedPipeIpcClient) (j : String)
    → d.pending ≡ c.pending
    → d.futures ≡ c.futures
    → (is_loop c.receive_task ≡ false) ⊎ (is_loop d.receive_task ≡ true)
    → Serves c j
    → Serves d j
live-Serves c d j p f l h = rw (p, f) (live-IsServed _ _ _ j (get c.futures j) l h)

pub lose-Serves : (j : String) (c : NamedPipeIpcClient) → Serves c j → Serves (lose c) j
unfolding lose
lose-Serves j c h = elim (Bool-cases c.is_closed) [
  | inl e ↦ rw (e, lose) (fail_pending-Serves stopped j c h)
  | inr e ↦ rw (e, lose) (fail_pending-Serves leaving j c h)
]

cancel_task-is_loop : (t : Receiving) → (is_loop t ≡ false) ⊎ (is_loop (cancel_task t) ≡ true)
cancel_task-is_loop running = inr refl
cancel_task-is_loop leaving = inl refl
cancel_task-is_loop ending = inr refl
cancel_task-is_loop stopped = inl refl

abbrev cancelled_tasks : NamedPipeIpcClient → NamedPipeIpcClient
cancelled_tasks c = record c {
  is_closed = true;
  state = closed;
  is_reconnecting = false;
  receive_task = cancel_task c.receive_task;
}

pub close-Serves : (j : String) (c : NamedPipeIpcClient) → Serves c j → Serves (Session.close c) j
unfolding Session.close
close-Serves j c h = elim (Bool-cases c.is_closed) [
  | inl e ↦ rw (e, Session.close) h
  | inr e ↦ elim (Bool-cases (c.is_reconnecting || is_running c.receive_task)) [
    | inl w ↦
        rw (e, w, Session.close)
          (live-Serves c (cancelled_tasks c) j refl refl (cancel_task-is_loop c.receive_task) h)
    | inr w ↦ rw (e, w, Session.close) (fail_pending-Serves stopped j c h)
  ]
]

pub end_loop-Serves : (j : String) (c : NamedPipeIpcClient) → Serves c j → Serves (end_loop c) j
unfolding end_loop
end_loop-Serves j c h = fail_pending-Serves stopped j c h

pub end_close-Serves : (j : String) (c : NamedPipeIpcClient) → Serves c j → Serves (end_close c) j
unfolding end_close
end_close-Serves j c h = fail_pending-Serves stopped j c h

pub leave-Serves :
    (j : String) (c : NamedPipeIpcClient)
    → is_leaving c.receive_task ≡ true
    → Serves c j
    → Serves (leave c) j
unfolding leave
leave-Serves j c l h = live-Serves c (leave c) j (ground arith) (ground arith) (ground (arith, l)) h

pub begin_connect-Serves :
    (j : String) (c : NamedPipeIpcClient) → Serves c j → Serves (begin_connect c) j
unfolding begin_connect
begin_connect-Serves j c h =
    live-Serves c (begin_connect c) j (ground arith) (ground arith) (ground arith) h

pub finish_connect-Serves :
    (b : Bool) (j : String) (c : NamedPipeIpcClient) → Serves c j → Serves (finish_connect b c) j
unfolding finish_connect
finish_connect-Serves true j c h = live-Serves c (finish_connect true c) j refl refl (inr refl) h
finish_connect-Serves false j c h = h

pub reconnected-Serves :
    (j : String) (c : NamedPipeIpcClient) → Serves c j → Serves (reconnected c) j
unfolding reconnected
reconnected-Serves j c h =
    live-Serves c (reconnected c) j (ground arith) (ground arith) (ground arith) h

pub attempt_failed-Serves :
    (b : Bool) (j : String) (c : NamedPipeIpcClient) → Serves c j → Serves (attempt_failed b c) j
unfolding attempt_failed
attempt_failed-Serves true j c h = h
attempt_failed-Serves false j c h = h
