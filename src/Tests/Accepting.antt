-- ===== src/Tests/Accepting.antt =====
-- Tests of ser_event_accept.
use linux_communication.Common.{◌≡◌, refl, ◌∷◌, [], true, false, arith, some}
use linux_communication.Socket.{Socket, read_request}
use linux_communication.Pool.{ser_get_free_connection}
use linux_communication.Pool.Invariant.{IsPooled, in_use}
use linux_communication.Accept.{accepted, not_supported, nobody_waits, Answers, ser_event_accept}
use linux_communication.Accept.Clients.{
  Serves, IsReady, ser_event_accept-Serves, ser_event_accept_closed,
}
use linux_communication.Tests.States.{quiet}

-- A server with no connection objects yet.
fresh-IsPooled : IsPooled quiet
fresh-IsPooled = record {
  parts = λ c. ground arith;
  once = λ c. ground arith;
  fresh = λ c h. ground arith;
}

abbrev all_well : Answers
all_well = record { nonblocking = true; registers = true }

abbrev blocks : Answers
blocks = record { nonblocking = false; registers = true }

ser_event_accept-Serves_example :
    let c = (ser_get_free_connection 9 5 quiet).0 in
    (t : Socket) × (ser_event_accept 5 0 all_well true
        (accepted 9 (1 ∷ []) ∷ nobody_waits ∷ [])
        quiet
      ≡ some (true, t))
    × IsPooled t
    × (in_use quiet c ≡ 0)
    × Serves quiet c 9 (1 ∷ []) t
    × IsReady quiet c t
ser_event_accept-Serves_example =
    ser_event_accept-Serves 5 0 all_well 9 (1 ∷ []) (nobody_waits ∷ []) quiet fresh-IsPooled refl

ser_event_accept_closed_run :
    let c = (ser_get_free_connection 9 5 quiet).0 in
    (t : Socket) × (ser_event_accept 5 0 blocks true
        (not_supported ∷ accepted 9 (1 ∷ []) ∷ [])
        quiet
      ≡ some (false, t))
    × (in_use t c ≡ 0)
    × ((t.conns c).r_handler ≡ read_request)
    × ((t.conns c).epoll_events ≡ 0x2001)
ser_event_accept_closed_run =
    ser_event_accept_closed 5 0 blocks 9 (1 ∷ []) [] quiet fresh-IsPooled refl refl
