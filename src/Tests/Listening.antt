-- ===== src/Tests/Listening.antt =====
-- Runs of the start of the listening sockets.
use linux_communication.Common.{
  ℕ, zero, suc, ◌+◌, ◌≡◌, refl, arith, List, [], ◌∷◌, true, false, none, some, ℤ, pos,
}
use linux_communication.Socket.{Listening, Socket}
use linux_communication.Pool.Invariant.{IsPooled}
use linux_communication.Listen.{
  Calls, Sockets, rounds, open_one, open_from, close_all, ser_open_listening_sockets,
  ser_close_listening_sockets, ser_epoll_init,
}
use linux_communication.Listen.Opening.{Opened, ser_open_listening_sockets-Opened}
use linux_communication.Listen.Registering.{AllListen, ser_epoll_init-AllListen}
use linux_communication.Tests.States.{quiet}

abbrev nothing_open : Sockets
nothing_open = record { listening = []; opened = []; closed = [] }

abbrev port : ℕ → ℤ
port i = pos (8000 + i)

-- The `bind` of the second port fails.
abbrev calls : ℕ → Calls
calls zero = record {
  socket = some 5;
  reuses = true;
  nonblocking = true;
  binds = true;
  listens = true;
}
calls (suc i) = record {
  socket = some 6;
  reuses = true;
  nonblocking = true;
  binds = false;
  listens = true;
}

abbrev pub first_port : Listening
first_port = record { port = pos 8000; fd = 5; connection = none }

second_fails :
    ser_open_listening_sockets (pos 3) port calls nothing_open
    ≡ (false, record { listening = first_port ∷ []; opened = 5 ∷ 6 ∷ []; closed = 6 ∷ [] })
unfolding ser_open_listening_sockets open_from open_one
second_fails = refl

ser_open_listening_sockets-Opened_example :
    let (ok, t) = ser_open_listening_sockets (pos 3) port calls nothing_open in
    (k : ℕ) × Opened port calls 0 (rounds (pos 3)) nothing_open ok t k
ser_open_listening_sockets-Opened_example =
    ser_open_listening_sockets-Opened (pos 3) port calls nothing_open

-- Shutting down closes the first.
closes_first :
    (ser_close_listening_sockets
      (record { listening = first_port ∷ []; opened = 5 ∷ []; closed = [] })).closed
    ≡ 5 ∷ []
unfolding ser_close_listening_sockets close_all
closes_first = refl

pub no_object-IsPooled : IsPooled quiet
no_object-IsPooled = record {
  parts = λ c. ground arith;
  once = λ c. ground arith;
  fresh = λ c h. ground arith;
}

ser_epoll_init-AllListen_example :
    (ms : List Listening) × (t : Socket) × (ser_epoll_init
        (pos 1)
        true
        7
        (λ i. true)
        (first_port ∷ first_port ∷ [])
        quiet
      ≡ some (ms, t))
    × IsPooled t
    × AllListen t 0 (first_port ∷ first_port ∷ []) ms
ser_epoll_init-AllListen_example =
    ser_epoll_init-AllListen (pos 1) true 7 (λ i. true) (first_port ∷ first_port ∷ []) quiet
      no_object-IsPooled refl (λ j. refl)
