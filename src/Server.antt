-- ===== src/Server.antt =====
-- The threads of a worker on one state: what each operation of net/ser_socket.cxx,
-- net/ser_socket_accept.cxx, net/ser_wait_request_handler.cxx, net/ser_socket_connection.cxx,
-- net/ser_socket_timer.cxx and misc/ser_threadpool.cxx does in its turn, in any order.
-- The kernel reports events only of connections whose descriptor is open.
pub mod Quiet
pub mod Timed
pub mod Pooled
use linux_communication.Common.{ℕ, ◌≡◌, List, Bool, true, Option, some}
use linux_communication.Socket.{Socket}
use linux_communication.Pool.{recy_connection_turn}
use linux_communication.Pool.Invariant.{in_use}
use linux_communication.Receive.{RecvResult, ser_read_request_handler}
use linux_communication.Send.{SendOutcome, ser_write_request_handler, ser_send_msg_queue_turn}
use linux_communication.Accept.{AcceptResult, Answers, ser_event_accept}
use linux_communication.Serve.{handle_next}
use linux_communication.Timer.{monitor_turn}

-- A turn of one of the threads.
pub data ServerStep : Socket → Socket → Type 0 where
  -- the event loop, at an event of a listening socket
  accepts :
      (now listener : ℕ) (answers : Answers) (use_accept4 also : Bool) (rs : List AcceptResult)
      (s t : Socket)
      → ser_event_accept now listener answers use_accept4 rs s ≡ some (also, t)
      → ServerStep s t
  -- the event loop, at an event of a client
  reads :
      (junk : ℕ → ℕ) (now c : ℕ) (r : RecvResult) (s : Socket)
      → in_use s c ≡ 1
      → ServerStep s (ser_read_request_handler junk now c r s)
  writes : (c : ℕ) (r : SendOutcome) (s : Socket) → ServerStep s (ser_write_request_handler c r s)
  -- the sending thread
  sends : (r : ℕ → SendOutcome) (s : Socket) → ServerStep s (ser_send_msg_queue_turn r s)
  -- a thread of the pool
  handles : (junk : ℕ → ℕ) (now : ℕ) (s : Socket) → ServerStep s (handle_next junk now s)
  -- the recycling thread
  recycles : (now stop : ℕ) (s : Socket) → ServerStep s (recy_connection_turn now stop s)
  -- the monitor of the timer queue
  times : (fuel now : ℕ) (s t : Socket) → monitor_turn fuel now s ≡ some t → ServerStep s t

-- The states that come of any number of turns.
pub data ServerReached (s : Socket) : Socket → Type 0 where
  at_start : ServerReached s s
  after : (t u : Socket) → ServerReached s t → ServerStep t u → ServerReached s u

-- In this turn no socket of `accept` fails to be made non-blocking.
abbrev pub SetsNonblocking : {s t : Socket} → ServerStep s t → Type 0
SetsNonblocking (accepts now listener answers use_accept4 also rs s t e) =
    answers.nonblocking ≡ true
SetsNonblocking (reads junk now c r s u) = Unit {0}
SetsNonblocking (writes c r s) = Unit {0}
SetsNonblocking (sends r s) = Unit {0}
SetsNonblocking (handles junk now s) = Unit {0}
SetsNonblocking (recycles now stop s) = Unit {0}
SetsNonblocking (times fuel now s t e) = Unit {0}

-- In none of these turns.
abbrev pub AllSetNonblocking : {s t : Socket} → ServerReached s t → Type 0
AllSetNonblocking at_start = Unit {0}
AllSetNonblocking (after t u r k) = AllSetNonblocking r × SetsNonblocking k
