-- ===== src/Receive.antt =====
-- net/ser_wait_request_handler.cxx: how packets are received.
-- `recv` is the kernel's: each call is given what it returns. `junk` is what a new block holds
-- before it is written.
pub mod Phases
pub mod Delivery
pub mod Packets
pub mod Reassembly
pub mod Places
pub mod Safety
pub mod Stall
use linux_communication.Common.{
  ℕ, ◌+◌, ◌-◌, ◌%◌, ◌^◌, List, [], ◌∷◌, ◌++◌, Bool, true, false, ◌||◌, Option, none, some, length,
  take, tabulate, overwrite, update, ltb, leb, ◌==◌, if◌then◌else◌,
}
use linux_communication.Packet.{
  pkg_hd_init, pkg_hd_recving, pkg_bd_init, pkg_bd_recving, pkg_len, pkg_header_length,
  pkg_max_length,
}
use linux_communication.Memory.{Heap, Block, malloc_memory}
use linux_communication.Socket.{
  Connection, Socket, Location, nowhere, head_info, in_block, put_connection, same_state,
}
use linux_communication.Pool.{ser_in_recy_connection}

-- The values of `errno` that the handlers tell apart. EWOULDBLOCK is EAGAIN.
pub data Errno : Type 0 where
  eagain eintr econnreset other_errno : Errno

-- What `recv` returns: some bytes, at least one, 0, or -1 with an error.
pub data RecvResult : Type 0 where
  received : ℕ → List ℕ → RecvResult
  peer_closed : RecvResult
  recv_error : Errno → RecvResult

abbrev pub raise_fault : Socket → Socket
raise_fault s = record s { heap = record (s.heap) { fault = true } }

-- The store into a block; one that ends behind the block, or whose block is gone, is a fault.
unfoldable pub store_in : Option Block → ℕ → ℕ → List ℕ → Socket → Socket
store_in none p off bytes s = raise_fault s
store_in (some b) p off bytes s =
    if leb (off + length bytes) (length b.payload)
    then record s {
      heap = record (s.heap) {
        cells = update s.heap.cells p (some (record b { payload = overwrite b.payload off bytes }));
      };
    }
    else raise_fault s

-- What `recv` does to the memory that it is given.
unfoldable pub store_at : Location → ℕ → List ℕ → Socket → Socket
unfolding store_in
store_at nowhere c bytes s = raise_fault s
store_at (head_info off) c bytes s =
    let k = s.conns c in
    if leb (off + length bytes) (length k.pkg_head_info)
    then put_connection c (record k { pkg_head_info = overwrite k.pkg_head_info off bytes }) s
    else raise_fault s
store_at (in_block p off) c bytes s = store_in (s.heap.cells p) p off bytes s

-- `close` and `ser_in_recy_connection`.
abbrev hang_up : ℕ → ℕ → Socket → Socket
hang_up now c s =
    ser_in_recy_connection now c (record s { closed_fds = (s.conns c).sock_fd ∷ s.closed_fds })

-- `ser_recv_pkg`, with -1 as `none`.
unfoldable pub ser_recv_pkg : ℕ → ℕ → RecvResult → Socket → Option ℕ × Socket
unfolding store_at
ser_recv_pkg now c (received b bs) s =
    (some (length (b ∷ bs)), store_at (s.conns c).recv_location c (b ∷ bs) s)
ser_recv_pkg now c peer_closed s = (none, hang_up now c s)
ser_recv_pkg now c (recv_error eagain) s = (none, s)
ser_recv_pkg now c (recv_error eintr) s = (none, s)
ser_recv_pkg now c (recv_error econnreset) s = (none, hang_up now c s)
ser_recv_pkg now c (recv_error other_errno) s = (none, hang_up now c s)

-- `InMsgRecvQueueAndSignal` of a packet; a null pointer is read by the thread that takes it.
unfoldable pub push_msg : Option ℕ → Socket → Socket
push_msg none s = raise_fault s
push_msg (some p) s = record s { msg_recv_queue = s.msg_recv_queue ++ (p ∷ []) }

-- `ser_wait_request_in_msgqueue`
unfoldable pub ser_wait_request_in_msgqueue : ℕ → Socket → Socket
ser_wait_request_in_msgqueue c s =
    put_connection c
      (record (s.conns c) {
        recv_pkg_data = none;
        recv_stat = pkg_hd_init;
        recv_location = head_info 0;
        recv_length = pkg_header_length;
      })
      (push_msg (s.conns c).recv_pkg_data s)

-- The test of `ser_wait_request_process_pkg` for a malicious length.
abbrev pub is_malicious : ℕ → Bool
is_malicious len = ltb len pkg_header_length || ltb (pkg_max_length - 1000) len

-- The branch for such a length.
abbrev pub reject_header : ℕ → Socket → Socket
reject_header c s =
    put_connection c
      (record (s.conns c) {
        recv_stat = pkg_hd_init;
        recv_location = head_info 0;
        recv_length = pkg_header_length;
      })
      s

unfoldable pub advance_location : Location → ℕ → Location
advance_location nowhere n = nowhere
advance_location (head_info off) n = head_info (off + n)
advance_location (in_block p off) n = in_block p (off + n)

-- `mRecvLocation += n; mRecvLength -= n;`
pub advance : ℕ → Connection → Connection
unfolding advance_location
advance n k = record k {
  recv_location = advance_location k.recv_location n;
  recv_length = (k.recv_length + 2 ^ 32 - n) % 2 ^ 32;
}

module _ (junk : ℕ → ℕ) where
  -- The branch for a valid length `len`.
  unfoldable pub accept_header : ℕ → ℕ → Socket → Socket
  accept_header len c s =
      let k = s.conns c in
      let header = take pkg_header_length k.pkg_head_info in
      let (p, h) =
        malloc_memory
          (record {
            conn = c;
            seq = k.curr_sequence;
            payload = header ++ tabulate junk (len - pkg_header_length);
          })
          s.heap in
      let t = put_connection c (record k { recv_pkg_data = some p }) (record s { heap = h }) in
      if len == pkg_header_length
      then ser_wait_request_in_msgqueue c t
      else put_connection c
          (record k {
            recv_pkg_data = some p;
            recv_stat = pkg_bd_init;
            recv_location = in_block p pkg_header_length;
            recv_length = len - pkg_header_length;
          })
          t

  -- `ser_wait_request_process_pkg`
  unfoldable pub ser_wait_request_process_pkg : ℕ → Socket → Socket
  ser_wait_request_process_pkg c s =
      let len = pkg_len (s.conns c).pkg_head_info in
      if is_malicious len then reject_header c s else accept_header len c s

  -- The tests of `ser_read_request_handler` after `n` bytes have come in. The fourth test repeats
  -- PKG_BD_INIT.
  unfoldable pub on_received : ℕ → ℕ → Socket → Socket
  on_received n c s =
      let k = s.conns c in
      let whole = n == k.recv_length in
      if same_state k.recv_stat pkg_hd_init
      then if whole
        then ser_wait_request_process_pkg c s
        else put_connection c (advance n (record k { recv_stat = pkg_hd_recving })) s
      else if same_state k.recv_stat pkg_hd_recving
      then if whole then ser_wait_request_process_pkg c s else put_connection c (advance n k) s
      else if same_state k.recv_stat pkg_bd_init
      then if whole
        then ser_wait_request_in_msgqueue c s
        else put_connection c (advance n (record k { recv_stat = pkg_bd_recving })) s
      else if same_state k.recv_stat pkg_bd_init
      then if whole then ser_wait_request_in_msgqueue c s else put_connection c (advance n k) s
      else s

  -- `ser_read_request_handler`
  unfoldable pub ser_read_request_handler : ℕ → ℕ → RecvResult → Socket → Socket
  unfolding on_received
  ser_read_request_handler now c r s =
      let (n, t) = ser_recv_pkg now c r s in elim n [ none ↦ t | some m ↦ on_received m c t ]

  -- One read event after another on one connection.
  pub read_events : ℕ → ℕ → List RecvResult → Socket → Socket
  read_events now c [] s = s
  read_events now c (r ∷ rs) s = read_events now c rs (ser_read_request_handler now c r s)
