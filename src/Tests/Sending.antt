-- ===== src/Tests/Sending.antt =====
-- Tests of the sending part.
use linux_communication.Common.{
  ◌≡◌, ◌++◌, refl, ◌∷◌, [], arith, inl, inr, some, none, true, replicate, pos,
}
use linux_communication.Receive.{eintr, eagain}
use linux_communication.Socket.{Socket, in_block}
use linux_communication.Send.{
  send_error, sent, sent_some, sent_none, send_failed, buffer_full, ser_send_pkg, send_pass,
  ser_write_request_handler,
}
use linux_communication.Send.Retry.{
  full, IsSending, Sends, write_events, ser_send_pkg_retries, write_events-Sends,
  write_failure_twice,
}
use linux_communication.Send.Pass.{Passes, send_pass-Passes}
use linux_communication.Tests.States.{quiet, ready_connection, one_block, ping_block}

ser_send_pkg_retries_run :
    ser_send_pkg (replicate 2 (send_error eintr) ++ (send_error eagain ∷ sent 3 ∷ []))
    ≡ some (buffer_full, sent 3 ∷ [])
ser_send_pkg_retries_run = ser_send_pkg_retries 2 (send_error eagain) buffer_full (sent 3 ∷ []) full

-- Block 0 is being sent on connection 1, with 8 bytes left.
abbrev sending : Socket
sending = record (quiet) {
  heap = one_block;
  conns = λ c. record (ready_connection) {
    send_pkg_data = some 0;
    send_location = in_block 0 0;
    send_length = 8;
    throw_send_count = pos 1;
  };
}

sending-IsSending : IsSending 1 0 8 sending
sending-IsSending = record {
  packet = refl;
  live = (ping_block, refl);
  length_left = refl;
  bounded = omega arith;
}

write_events-Sends_example : Sends 1 0 sending (write_events 1 (5 ∷ 3 ∷ []) sending)
write_events-Sends_example =
    write_events-Sends 1 0 8 (5 ∷ 3 ∷ []) sending sending-IsSending (omega arith)
      (omega arith, (omega arith, tt)) refl

write_failure_twice_run :
    let t = ser_write_request_handler 1 sent_none sending in
    ((t.conns 1).epoll_events ≡ (sending.conns 1).epoll_events)
    × (t.heap.cells 0 ≡ none)
    × ((ser_write_request_handler 1 send_failed t).heap.fault ≡ true)
write_failure_twice_run =
    write_failure_twice 1 0 8 sent_none send_failed sending sending-IsSending (inl refl) (inr refl)

-- The reply in block 0 waits to be sent.
abbrev queued : Socket
queued = record (quiet) { heap = one_block; msg_send_queue = 0 ∷ [] }

send_pass-Passes_example : Passes (0 ∷ []) queued (send_pass (λ p. sent_some 3) (0 ∷ []) queued)
send_pass-Passes_example =
    send_pass-Passes (λ p. sent_some 3) (0 ∷ []) queued (tt, tt) ((ping_block, refl), tt)
      (λ c. refl)
