-- ===== src/Listen.antt =====
-- net/ser_socket.cxx: ser_open_listening_sockets, ser_set_nonblocking, ser_close_listening_sockets
-- and ser_epoll_init.
-- What `socket`, `setsockopt`, `ioctl`, `bind`, `listen`, `epoll_create` and `epoll_ctl` return is
-- an argument; the text of a port's key, which `sprintf` makes, is one too. Log calls are left out.
pub mod Opening
pub mod Registering
use Prim.Native.Nat.{bit_or}
use linux_communication.Common.{
  ℕ, zero, suc, ◌+◌, List, [], ◌∷◌, ◌++◌, Bool, true, false, Option, none, some, ℤ, pos, negsuc,
  if◌then◌else◌, ◌>>=◌,
}
use linux_communication.Socket.{Listening, Socket, event_accept, put_connection}
use linux_communication.Pool.{ser_init_connection, ser_get_free_connection}
use linux_communication.Epoll.{epollin, epollrdhup, ctl_add, ser_epoll_oper_event}

-- What the calls for one port return: the descriptor, or -1, and which of the others succeed.
pub record Calls : Type 0 where
  pub socket : Option ℕ
  pub reuses : Bool
  pub nonblocking : Bool
  pub binds : Bool
  pub listens : Bool

-- `mListenSocketList`, the descriptors that `socket` returned and those that `close` was called on.
pub record Sockets : Type 0 where
  pub listening : List Listening
  pub opened : List ℕ
  pub closed : List ℕ

-- `ser_set_nonblocking`, by what `ioctl` returns.
abbrev pub ser_set_nonblocking : Bool → Bool
ser_set_nonblocking succeeds = succeeds

-- `close(listenSockFd); return false;`
abbrev pub give_up : ℕ → Sockets → Bool × Sockets
give_up fd s = (false, record s { closed = s.closed ++ (fd ∷ []) })

-- A round, from the test of the descriptor on; `true` goes on with the next.
unfoldable pub open_one : ℤ → Calls → Option ℕ → Sockets → Bool × Sockets
open_one port calls none s = (false, s)
open_one port calls (some fd) s =
    let t = record s { opened = s.opened ++ (fd ∷ []) } in
    let item : Listening = record { port = port; fd = fd; connection = none } in
    if calls.reuses
    then if ser_set_nonblocking calls.nonblocking
      then if calls.binds
        then if calls.listens
          then (true, record t { listening = t.listening ++ (item ∷ []) })
          else give_up fd t
        else give_up fd t
      else give_up fd t
    else give_up fd t

-- The loop from round `i` on, with `left` rounds to go.
unfoldable pub open_from : (ℕ → ℤ) → (ℕ → Calls) → ℕ → ℕ → Sockets → Bool × Sockets
open_from port calls zero i s = (true, s)
open_from port calls (suc left) i s =
    let (goes_on, t) = open_one (port i) (calls i) (calls i).socket s in
    let rest = open_from port calls left (i + 1) t in if goes_on then rest else (false, t)

-- The rounds of a loop up to an `int`.
abbrev pub rounds : ℤ → ℕ
rounds (pos n) = n
rounds (negsuc n) = 0

-- `ser_open_listening_sockets`, for `mListenPortCount` ports. The port of round i is what the
-- configuration has for "ListenPort<i>", or 10000.
unfoldable pub ser_open_listening_sockets : ℤ → (ℕ → ℤ) → (ℕ → Calls) → Sockets → Bool × Sockets
ser_open_listening_sockets count port calls s = open_from port calls (rounds count) 0 s

-- `ser_close_listening_sockets`
unfoldable pub close_all : List Listening → Sockets → Sockets
close_all [] s = s
close_all (l ∷ ls) s = close_all ls (record s { closed = s.closed ++ (l.fd ∷ []) })

unfoldable pub ser_close_listening_sockets : Sockets → Sockets
ser_close_listening_sockets s = close_all s.listening s

-- A round of the loop of `ser_epoll_init`, for the listening socket with the index `i`; `none` is
-- `exit(2)`. `ser_get_free_connection` returns no null pointer.
pub register_one : ℕ → Bool → ℕ → Listening → Socket → Option (Listening × Socket)
register_one now succeeds i l s =
    let (c, t) = ser_get_free_connection l.fd now s in
    let (k, ok) =
      ser_epoll_oper_event ctl_add (bit_or epollin epollrdhup) 0 succeeds
        (record (t.conns c) { listening = some i; r_handler = event_accept }) in
    if ok then some (record l { connection = some c }, put_connection c k t) else none

-- `epoll_ctl` for the socket with the index i returns `succeeds i`.
pub register_from : ℕ → (ℕ → Bool) → ℕ → List Listening → Socket → Option (List Listening × Socket)
register_from now succeeds i [] s = some ([], s)
register_from now succeeds i (l ∷ ls) s = do
  (m, t) ← register_one now (succeeds i) i l s
  (ms, u) ← register_from now succeeds (i + 1) ls t
  some (m ∷ ms, u)

-- `ser_epoll_init`, with `mWorkerConnections` = `count`; `created` says whether `epoll_create`
-- succeeds.
pub ser_epoll_init :
    ℤ → Bool → ℕ → (ℕ → Bool) → List Listening → Socket → Option (List Listening × Socket)
ser_epoll_init count created now succeeds listening s =
    if created
    then register_from now succeeds 0 listening (ser_init_connection (rounds count) now s)
    else none
