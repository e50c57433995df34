-- ===== src/Tests/Polling.antt =====
-- Tests of the event loop.
use linux_communication.Common.{◌+◌, ◌≡◌}
use linux_communication.Socket.{Socket, read_request, write_request}
use linux_communication.Epoll.{Handlers, call, process_event}
use linux_communication.Epoll.Events.{drop_write, process_event-by_bits}
use linux_communication.Tests.States.{quiet}

-- Handlers that leave a mark.
abbrev marking : Handlers
marking = record {
  on_accept = λ c s. s;
  on_read = λ c s. record s { online_user_count = s.online_user_count + 1 };
  on_write = λ c s. record s { send_queue_sem = s.send_queue_sem + 1 };
}

abbrev one_client : Socket
one_client = record (quiet) {
  conns = λ c. record (quiet.conns c) { r_handler = read_request; w_handler = write_request };
}

-- EPOLLHUP alone: the client is read from, and a write is counted off.
process_event-by_bits_example :
    process_event marking (0x10, 1) one_client
    ≡ drop_write 1 (record (one_client) { online_user_count = 1 })
unfolding call
process_event-by_bits_example = process_event-by_bits marking 0x10 1 one_client
