-- ===== src/Epoll.antt =====
-- net/ser_socket.cxx: ser_epoll_oper_event and the loop of ser_epoll_process_events.
-- `epoll_ctl` and `epoll_wait` are the kernel's: what they return is an argument.
pub mod Events
use Prim.Native.Nat.{bit_or, bit_and}
use linux_communication.Common.{
  ℕ, zero, suc, ◌-◌, ◌^◌, List, [], ◌∷◌, Bool, true, false, not, ◌==◌, if◌then◌else◌, dec,
}
use linux_communication.Socket.{
  Connection, Socket, EventHandler, no_handler, event_accept, read_request, write_request,
  put_connection,
}
use linux_communication.Receive.{raise_fault}

-- `EPOLLIN`, `EPOLLOUT`, `EPOLLERR`, `EPOLLHUP`, `EPOLLRDHUP`
abbrev pub epollin : ℕ
epollin = 0x1

abbrev pub epollout : ℕ
epollout = 0x4

abbrev pub epollerr : ℕ
epollerr = 0x8

abbrev pub epollhup : ℕ
epollhup = 0x10

abbrev pub epollrdhup : ℕ
epollrdhup = 0x2000

-- `~events` of a `uint32_t`.
abbrev pub complement32 : ℕ → ℕ
complement32 events = 2 ^ 32 - 1 - events

-- The branch of EPOLL_CTL_MOD: the events of a connection after `action` with `events`.
unfoldable pub new_events : ℕ → ℕ → ℕ → ℕ
new_events zero events old = bit_or old events
new_events (suc zero) events old = bit_and old (complement32 events)
new_events (suc (suc zero)) events old = events
new_events (suc (suc (suc k))) events old = old

-- The operations of `epoll_ctl`.
pub data EpollOp : Type 0 where
  ctl_add ctl_mod ctl_del : EpollOp

abbrev pub modify_events : ℕ → ℕ → Connection → Connection
modify_events action events k = record k { epoll_events = new_events action events k.epoll_events }

-- `ser_epoll_oper_event`: the connection, and whether 1 is returned. `succeeds` says whether
-- `epoll_ctl` does.
unfoldable pub ser_epoll_oper_event : EpollOp → ℕ → ℕ → Bool → Connection → Connection × Bool
ser_epoll_oper_event ctl_add events action succeeds k =
    (record k { epoll_events = events }, succeeds)
ser_epoll_oper_event ctl_mod events action succeeds k = (modify_events action events k, succeeds)
ser_epoll_oper_event ctl_del events action succeeds k = (k, true)

-- `eventType` after the test of EPOLLERR and EPOLLHUP.
pub event_type : ℕ → ℕ
event_type events =
    if bit_and events (bit_or epollerr epollhup) == 0
    then events
    else bit_or events (bit_or epollin epollout)

-- The handlers, as functions on the state, for the connection `c`.
pub record Handlers : Type 0 where
  pub on_accept : ℕ → Socket → Socket
  pub on_read : ℕ → Socket → Socket
  pub on_write : ℕ → Socket → Socket

-- A call through a pointer to a handler.
unfoldable pub call : Handlers → EventHandler → ℕ → Socket → Socket
call hs no_handler c s = raise_fault s
call hs event_accept c s = hs.on_accept c s
call hs read_request c s = hs.on_read c s
call hs write_request c s = hs.on_write c s

-- The part for EPOLLIN.
pub read_part : Handlers → ℕ → ℕ → Socket → Socket
read_part hs events c s =
    if bit_and events epollin == 0 then s else call hs (s.conns c).r_handler c s

-- The part for EPOLLOUT.
pub write_part : Handlers → ℕ → ℕ → Socket → Socket
write_part hs events c s =
    if bit_and events epollout == 0
    then s
    else if bit_and events (bit_or epollerr (bit_or epollhup epollrdhup)) == 0
    then call hs (s.conns c).w_handler c s
    else put_connection c
        (record (s.conns c) { throw_send_count = dec (s.conns c).throw_send_count }) s

-- One round of the loop of `ser_epoll_process_events`.
pub process_event : Handlers → ℕ × ℕ → Socket → Socket
process_event hs (events, c) s =
    let kind = event_type events in write_part hs kind c (read_part hs kind c s)

pub process_events : Handlers → List (ℕ × ℕ) → Socket → Socket
process_events hs [] s = s
process_events hs (e ∷ es) s = process_events hs es (process_event hs e s)

-- What `epoll_wait` returns.
pub data WaitResult : Type 0 where
  ready : List (ℕ × ℕ) → WaitResult
  interrupted wait_failed : WaitResult

-- `ser_epoll_process_events`: the state, and whether 1 is returned. `waits_forever` says whether
-- `timer` is -1.
pub ser_epoll_process_events : Handlers → Bool → WaitResult → Socket → Socket × Bool
ser_epoll_process_events hs waits_forever interrupted s = (s, true)
ser_epoll_process_events hs waits_forever wait_failed s = (s, false)
ser_epoll_process_events hs waits_forever (ready []) s = (s, not waits_forever)
ser_epoll_process_events hs waits_forever (ready (e ∷ es)) s = (process_events hs (e ∷ es) s, true)
