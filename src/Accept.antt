-- ===== src/Accept.antt =====
-- net/ser_socket_accept.cxx: ser_event_accept.
-- The results of `accept4`, `accept`, `epoll_ctl` and of the calls in `ser_set_nonblocking` are
-- arguments. `ser_get_free_connection` returns no null pointer, so the branch for one is left out.
pub mod Clients
use Prim.Native.Nat.{bit_or}
use linux_communication.Common.{
  ℕ, ◌+◌, ◌%◌, ◌^◌, List, [], ◌∷◌, Bool, true, false, not, ◌&&◌, Option, none, some, ◌==◌,
  if◌then◌else◌,
}
use linux_communication.Socket.{Connection, Socket, read_request, write_request, put_connection}
use linux_communication.Pool.{ser_get_free_connection, ser_close_connection}
use linux_communication.Epoll.{epollin, epollrdhup, ctl_add, ser_epoll_oper_event}
use linux_communication.Timer.{add_to_timer_queue}

-- What `accept4` or `accept` returns: a descriptor and the client's address, or -1 with EAGAIN,
-- with ENOSYS or with another error.
pub data AcceptResult : Type 0 where
  accepted : ℕ → List ℕ → AcceptResult
  nobody_waits not_supported accept_failed : AcceptResult

-- What the calls after `accept` return: whether `ser_set_nonblocking` and `epoll_ctl` succeed.
pub record Answers : Type 0 where
  pub nonblocking : Bool
  pub registers : Bool

module _ (now listener : ℕ) (answers : Answers) where
  -- The fields that a new client's connection gets.
  abbrev pub equip : ℕ → Socket → Socket
  equip c s =
      put_connection c
        (record (s.conns c) {
          listening = (s.conns listener).listening;
          r_handler = read_request;
          w_handler = write_request;
        })
        s

  -- The end of the round: the timer queue and `++mOnlineUserCount`, an int whose 32 bits wrap around.
  unfoldable pub enlist : ℕ → Socket → Socket
  enlist c s =
      let t = if s.if_kick_timer == 1 then add_to_timer_queue now c s else s in
      record t { online_user_count = (t.online_user_count + 1) % 2 ^ 32 }

  -- From the assignment of `mListening` on.
  unfoldable pub register_client : ℕ → Socket → Socket
  register_client c s =
      let t = equip c s in
      let (k, ok) =
        ser_epoll_oper_event ctl_add (bit_or epollin epollrdhup) 0 answers.registers (t.conns c) in
      let u = put_connection c k t in if ok then enlist c u else ser_close_connection c u

  -- A socket of `accept` that cannot be made non-blocking: its connection is closed, and the code
  -- goes on.
  unfoldable pub make_nonblocking : Bool → ℕ → Socket → Socket
  make_nonblocking use_accept4 c s =
      if not use_accept4 && not answers.nonblocking then ser_close_connection c s else s

  -- What is done with a new client.
  unfoldable pub take_client : Bool → ℕ → List ℕ → Socket → Socket
  take_client use_accept4 fd addr s =
      let (c, t) = ser_get_free_connection fd now s in
      register_client c (
        make_nonblocking use_accept4 c
          (put_connection c (record (t.conns c) { sock_addr = addr }) t))

  -- `ser_event_accept`, over the results of its calls of `accept4` and `accept`: the static
  -- `useAccept4` and the state; `none` if the results run out while it would go on.
  unfoldable pub ser_event_accept : Bool → List AcceptResult → Socket → Option (Bool × Socket)
  ser_event_accept use_accept4 [] s = none
  ser_event_accept use_accept4 (accepted fd addr ∷ rs) s =
      some (use_accept4, take_client use_accept4 fd addr s)
  ser_event_accept use_accept4 (nobody_waits ∷ rs) s = some (use_accept4, s)
  ser_event_accept true (not_supported ∷ rs) s = ser_event_accept false rs s
  ser_event_accept false (not_supported ∷ rs) s = some (false, s)
  ser_event_accept use_accept4 (accept_failed ∷ rs) s = some (use_accept4, s)
