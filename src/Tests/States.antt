-- ===== src/Tests/States.antt =====
-- States that the tests share.
use linux_communication.Common.{ℕ, zero, suc, List, [], ◌∷◌, false, Option, none, some}
use linux_communication.Memory.{Block, Heap}
use linux_communication.Packet.{pkg_header_length}
use linux_communication.Socket.{Connection, Socket, head_info}
use linux_communication.Connection.{new_connection}

abbrev pub no_junk : ℕ → ℕ
no_junk i = 0

abbrev pub empty_heap : Heap
empty_heap = record { cells = λ p. none; next = 0; fault = false }

-- A connection that waits for a header.
abbrev pub ready_connection : Connection
ready_connection = record (new_connection) {
  curr_sequence = 1;
  recv_location = head_info 0;
  recv_length = pkg_header_length;
}

-- A server with no packet anywhere, whose connection objects all wait for a header.
abbrev pub quiet : Socket
quiet = record {
  heap = empty_heap;
  conns = λ c. ready_connection;
  next_conn = 0;
  connection_list = [];
  free_connection_list = [];
  recy_connection_list = [];
  recy_waite_time = 60;
  msg_send_queue = [];
  send_queue_sem = 0;
  msg_recv_queue = [];
  closed_fds = [];
  send_calls = [];
  freed_conns = [];
  if_kick_timer = 1;
  wait_time = 20;
  if_time_out_kick = 0;
  timer_queue_map = [];
  timer_queue_size = 0;
  timer_value = 0;
  online_user_count = 0;
}

-- The packet of a ping: length 8, code 0, checksum 0.
abbrev pub ping_bytes : List ℕ
ping_bytes = 0 ∷ 8 ∷ 0 ∷ 0 ∷ 0 ∷ 0 ∷ 0 ∷ 0 ∷ []

abbrev pub ping_block : Block
ping_block = record { conn = 1; seq = 1; payload = ping_bytes }

abbrev pub one_cell : ℕ → Option Block
one_cell zero = some ping_block
one_cell (suc n) = none

-- The heap has one block, number 0.
abbrev pub one_block : Heap
one_block = record { cells = one_cell; next = 1; fault = false }
