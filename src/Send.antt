-- ===== src/Send.antt =====
-- The sending of packets: ser_send_pkg and ser_write_request_handler of
-- net/ser_wait_request_handler.cxx, and the thread ser_send_msg_queue_thread of
-- net/ser_socket.cxx. `send` and `epoll_ctl` are the kernel's: `send` is given what its calls
-- return, one after another. Both callers only log a failure of `epoll_ctl`, after `mEpollEvents` has
-- been set: `epoll_events` is what was asked for, not what the kernel has. `sem_wait` and `sem_post`
-- are taken to succeed.
pub mod Retry
pub mod Rounds
pub mod Pass
use Prim.Native.Nat.{bit_or, bit_and}
use linux_communication.Common.{
  ℕ, zero, suc, ◌+◌, ◌-◌, ◌%◌, ◌^◌, List, [], ◌∷◌, ◌++◌, Bool, true, false, not, ◌&&◌, Option, none,
  some, length, update, ltb, ◌==◌, if◌then◌else◌, ℤ, pos, inc, dec, is_pos,
}
use linux_communication.Packet.{pkg_len, pkg_header_length}
use linux_communication.Memory.{Heap, Block, free_memory}
use linux_communication.Socket.{
  Connection, Socket, Location, nowhere, head_info, in_block, put_connection,
}
use linux_communication.Receive.{
  Errno, eagain, eintr, econnreset, other_errno, raise_fault, advance_location,
}
use linux_communication.Epoll.{epollout, modify_events}

-- What one call of `send` returns: a count, which may be 0, or -1 with an error.
pub data SendResult : Type 0 where
  sent : ℕ → SendResult
  send_error : Errno → SendResult

-- What `ser_send_pkg` returns: a positive count, 0, -1 or -2.
pub data SendOutcome : Type 0 where
  sent_some : ℕ → SendOutcome
  sent_none buffer_full send_failed : SendOutcome

-- `ser_send_pkg` over the results of its calls of `send`, with those that it has not used; `none`
-- if they run out while it would go on.
pub ser_send_pkg : List SendResult → Option (SendOutcome × List SendResult)
ser_send_pkg [] = none
ser_send_pkg (sent zero ∷ rs) = some (sent_none, rs)
ser_send_pkg (sent (suc n) ∷ rs) = some (sent_some (suc n), rs)
ser_send_pkg (send_error eagain ∷ rs) = some (buffer_full, rs)
ser_send_pkg (send_error eintr ∷ rs) = ser_send_pkg rs
ser_send_pkg (send_error econnreset ∷ rs) = some (send_failed, rs)
ser_send_pkg (send_error other_errno ∷ rs) = some (send_failed, rs)

-- `mSendLocation += n; mSendLength -= n;`
abbrev pub advance_send : ℕ → Connection → Connection
advance_send n k = record k {
  send_location = advance_location k.send_location n;
  send_length = (k.send_length + 2 ^ 32 - n) % 2 ^ 32;
}

-- The end of `ser_write_request_handler`: `sem_post`, `FreeMemory`, `--mThrowSendCount`.
unfoldable pub finish_write : ℕ → Socket → Socket
finish_write c s =
    let k = s.conns c in
    put_connection c (record k { throw_send_count = dec k.throw_send_count })
      (record s {
        send_queue_sem = s.send_queue_sem + 1;
        heap = free_memory k.send_pkg_data s.heap;
      })

-- `ser_write_request_handler` with the outcome of its `ser_send_pkg`.
unfoldable pub ser_write_request_handler : ℕ → SendOutcome → Socket → Socket
ser_write_request_handler c (sent_some n) s =
    let k = s.conns c in
    if n == k.send_length
    then finish_write c (put_connection c (modify_events 1 epollout k) s)
    else put_connection c (advance_send n k) s
ser_write_request_handler c buffer_full s = s
ser_write_request_handler c sent_none s = finish_write c s
ser_write_request_handler c send_failed s = finish_write c s

-- What the sending thread does with one packet after `ser_send_pkg`: its outcome, for connection
-- `c` whose fields `mSendPkgData`, `mSendLocation` and `mSendLength` are set.
unfoldable pub after_send : ℕ → SendOutcome → Socket → Socket
after_send c (sent_some n) s =
    let k = s.conns c in
    if n == k.send_length
    then put_connection c (record k { throw_send_count = pos 0 })
        (record s { heap = free_memory k.send_pkg_data s.heap })
    else let k' = advance_send n k in
      put_connection c
        (modify_events 0 epollout (record k' { throw_send_count = inc k.throw_send_count })) s
after_send c sent_none s =
    let k = s.conns c in
    put_connection c (record k { throw_send_count = pos 0 })
      (record s { heap = free_memory k.send_pkg_data s.heap })
after_send c buffer_full s =
    let k = s.conns c in
    put_connection c
      (modify_events 0 epollout (record k { throw_send_count = inc k.throw_send_count })) s
after_send c send_failed s =
    let k = s.conns c in
    put_connection c (record k { throw_send_count = pos 0 })
      (record s { heap = free_memory k.send_pkg_data s.heap })

-- The fields that the thread sets before it sends the packet in block `p`.
abbrev pub start_send : ℕ → Block → Connection → Connection
start_send p m k = record k {
  send_pkg_data = some p;
  send_location = in_block p 0;
  send_length = pkg_len m.payload;
}

-- The call of `ser_send_pkg` for a connection with these fields.
abbrev pub call_send : Connection → Socket → Socket
call_send k s = record s { send_calls = (k.sock_fd, k.send_location, k.send_length) ∷ s.send_calls }

-- One round of the inner loop for the packet `p`: whether it stays in the queue, and the state.
-- `outcome` is what `ser_send_pkg` would return.
unfoldable pub send_one : SendOutcome → ℕ → Option Block → Socket → Bool × Socket
send_one outcome p none s = (true, raise_fault s)
send_one outcome p (some m) s =
    let k = s.conns m.conn in
    if not (k.curr_sequence == m.seq)
    then (false, record s { heap = free_memory (some p) s.heap })
    else if is_pos k.throw_send_count
    then (true, s)
    else let j = start_send p m k in
      (false, after_send m.conn outcome (put_connection m.conn j (call_send j s)))

-- The inner loop over the packets of the queue from the front, with what each `ser_send_pkg` of
-- its rounds returns: the packets that stay, and the state.
unfoldable pub send_pass : (ℕ → SendOutcome) → List ℕ → Socket → List ℕ × Socket
send_pass outcome [] s = ([], s)
send_pass outcome (p ∷ ps) s =
    let (stays, t) = send_one (outcome p) p (s.heap.cells p) s in
    let (rest, u) = send_pass outcome ps t in (if stays then p ∷ rest else rest, u)

-- One turn of the thread after `sem_wait` has taken one from `mSendQueueSem`; where that is 0, the
-- turn begins when somebody posts it, or when a signal interrupts the wait. With an empty queue the
-- turn does nothing more.
unfoldable pub ser_send_msg_queue_turn : (ℕ → SendOutcome) → Socket → Socket
ser_send_msg_queue_turn outcome s =
    let (rest, t) =
      send_pass outcome s.msg_send_queue (record s { send_queue_sem = s.send_queue_sem - 1 }) in
    record t { msg_send_queue = rest }
