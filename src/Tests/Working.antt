-- ===== src/Tests/Working.antt =====
-- Turns of the threads of a worker.
use linux_communication.Common.{◌≡◌, refl, [], ◌∷◌, true, some}
use linux_communication.Socket.{Socket}
use linux_communication.Pool.{ser_get_free_connection, get_from, ser_in_recy_connection}
use linux_communication.Pool.Invariant.{IsPooled, in_use}
use linux_communication.Epoll.{ser_epoll_oper_event}
use linux_communication.Receive.{peer_closed, ser_recv_pkg, ser_read_request_handler}
use linux_communication.Accept.{
  Answers, accepted, enlist, register_client, make_nonblocking, take_client, ser_event_accept,
}
use linux_communication.Timer.{add_to_timer_queue, insert_entry}
use linux_communication.Server.{ServerStep, accepts, reads, ServerReached, at_start, after}
use linux_communication.Server.Pooled.{Change, ServerReached-Turns}
use linux_communication.Tests.Listening.{no_object-IsPooled}
use linux_communication.Tests.States.{quiet}

abbrev pub all_well : Answers
all_well = record { nonblocking = true; registers = true }

-- A client has come.
abbrev joined : Socket
joined = take_client 7 0 all_well true 9 [] quiet

joins : ser_event_accept 7 0 all_well true (accepted 9 [] ∷ []) quiet ≡ some (true, joined)
unfolding ser_event_accept
joins = refl

abbrev run_to_joined : ServerReached quiet joined
run_to_joined =
    after quiet joined at_start
      (accepts 7 0 all_well true true (accepted 9 [] ∷ []) quiet joined joins)

client_in_use : in_use joined 0 ≡ 1
unfolding take_client register_client make_nonblocking enlist ser_epoll_oper_event
    ser_get_free_connection get_from add_to_timer_queue insert_entry
client_in_use = refl

-- It leaves.
abbrev left : Socket
left = ser_read_request_handler (λ i. 0) 8 0 peer_closed joined

abbrev leaves : ServerStep joined left
leaves = reads (λ i. 0) 8 0 peer_closed joined client_in_use

in_queue : left.recy_connection_list ≡ 0 ∷ []
unfolding take_client register_client make_nonblocking enlist ser_epoll_oper_event
    ser_get_free_connection get_from ser_read_request_handler ser_recv_pkg ser_in_recy_connection
    add_to_timer_queue insert_entry
in_queue = refl

ServerReached-Turns_example : IsPooled left × Change joined left
ServerReached-Turns_example =
    ServerReached-Turns quiet joined left no_object-IsPooled run_to_joined leaves (tt, refl) tt
