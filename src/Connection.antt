-- ===== src/Connection.antt =====
-- net/ser_socket_connection.cxx: the methods of ser_connection_s.
pub mod Release
use linux_communication.Common.{
  ℕ, ◌+◌, ◌≡◌, ◌≢◌, ◌%◌, ◌^◌, ◌<◌, refl, arith, List, [], Option, none, some, ℤ, pos, u64, update,
  replicate,
}
use linux_communication.Packet.{PkgState, pkg_hd_init, pkg_header_length, pkg_head_info_size}
use linux_communication.Memory.{Heap, Block, free_memory}
use linux_communication.Socket.{Connection, Location, nowhere, head_info, no_handler}

-- An object as `ser_connection_s()` leaves it in zeroed memory.
abbrev pub new_connection : Connection
new_connection = record {
  sock_fd = 0;
  listening = none;
  curr_sequence = 0;
  sock_addr = [];
  epoll_events = 0;
  r_handler = no_handler;
  w_handler = no_handler;
  recv_stat = pkg_hd_init;
  pkg_head_info = replicate pkg_head_info_size 0;
  recv_location = nowhere;
  recv_length = 0;
  recv_pkg_data = none;
  throw_send_count = pos 0;
  send_location = nowhere;
  send_length = 0;
  send_pkg_data = none;
  in_recy_time = 0;
  last_ping_time = 0;
}

-- `GetOneToUse`, at the time `now`.
unfoldable pub get_one_to_use : ℕ → Connection → Connection
get_one_to_use now k = record k {
  curr_sequence = u64 (k.curr_sequence + 1);
  recv_stat = pkg_hd_init;
  recv_location = head_info 0;
  recv_length = pkg_header_length;
  recv_pkg_data = none;
  throw_send_count = pos 0;
  send_pkg_data = none;
  epoll_events = 0;
  last_ping_time = now;
}

-- What the second `if` of `PutOneToFree` frees: it tests `mSendPkgData`, and frees
-- `mRecvPkgData`.
second_free : Option ℕ → Option ℕ → Heap → Heap
second_free none recv h = h
second_free (some p) recv h = free_memory recv h

-- `PutOneToFree`. `FreeMemory` of a null pointer does nothing, so the first test needs no case.
unfoldable pub put_one_to_free : Connection → Heap → Connection × Heap
unfolding second_free
put_one_to_free k h = (
  record k { curr_sequence = u64 (k.curr_sequence + 1); throw_send_count = pos 0 },
  second_free k.send_pkg_data k.recv_pkg_data (free_memory k.recv_pkg_data h),
)

-- One more `++mCurrsequence` makes every header stamped before it stale.
pub next_sequence-ne : (n : ℕ) → n < 2 ^ 64 → u64 (n + 1) ≢ n
next_sequence-ne n h = omega arith
