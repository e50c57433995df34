-- ===== src/Logic.antt =====
-- logic/ser_logic_socket.cxx: the class SerLogicSocket, which handles complete packets.
-- `now` is what `time` returns and `junk` what a new block holds before it is written.
pub mod Dispatch
pub mod Replies
use linux_communication.Common.{
  ℕ, ◌+◌, ◌-◌, List, [], ◌∷◌, ◌++◌, Bool, true, false, not, ◌&&◌, Option, none, some, length, take,
  drop, tabulate, get_elem?, update, ltb, leb, ◌==◌, if◌then◌else◌,
}
use linux_communication.Crc.{get_crc}
use linux_communication.Packet.{
  pkg_len, msg_code, crc32, pkg_header, pkg_header_length, msg_header_length,
}
use linux_communication.Memory.{Heap, Block, malloc_memory}
use linux_communication.Socket.{Connection, Socket, put_connection}
use linux_communication.Receive.{raise_fault}

-- `CMD_PING`, `CMD_REGISTER`, `CMD_LOGIN`
abbrev pub cmd_ping : ℕ
cmd_ping = 0

abbrev pub cmd_register : ℕ
cmd_register = 5

abbrev pub cmd_login : ℕ
cmd_login = 6

-- sizeof(STRUCT_REGISTER), packed: 4 + 56 + 40 bytes.
abbrev pub struct_register_size : ℕ
struct_register_size = 100

pub data Handler : Type 0 where
  ping_handler register_handler login_handler : Handler

-- `msgHandlers`
abbrev pub msg_handlers : List (Option Handler)
msg_handlers =
    some ping_handler ∷ none ∷ none ∷ none ∷ none ∷ some register_handler ∷ some login_handler ∷ []

-- `AUTH_TOTAL_COMMANDS`
abbrev pub auth_total_commands : ℕ
auth_total_commands = length msg_handlers

-- `ser_in_send_queue`: the packet goes to the end, and the semaphore is raised.
unfoldable pub ser_in_send_queue : ℕ → Socket → Socket
ser_in_send_queue p s = record s {
  msg_send_queue = s.msg_send_queue ++ (p ∷ []);
  send_queue_sem = s.send_queue_sem + 1;
}

-- A new block with the MSG_HEADER of `m` and the bytes `pkg`, queued for sending.
unfoldable pub queue_reply : Block → List ℕ → Socket → Socket
queue_reply m pkg s =
    let (p, h) = malloc_memory (record m { payload = pkg }) s.heap in
    ser_in_send_queue p (record s { heap = h })

-- `SendNoBodyPkg`: the length field is MSG_HEADER_LENGTH.
unfoldable pub send_no_body_pkg : Block → ℕ → Socket → Socket
send_no_body_pkg m code s = queue_reply m (pkg_header msg_header_length code 0) s

-- `PingHandler`, for a body of `body_length` bytes: the new state and the result.
unfoldable pub ping : ℕ → Block → ℕ → Socket → Socket × Bool
ping now m body_length s =
    if body_length == 0
    then (
      send_no_body_pkg m cmd_ping
          (put_connection m.conn (record (s.conns m.conn) { last_ping_time = now }) s),
      true,
    )
    else (s, false)

-- The packet that `RegisterHandler` builds around a body.
unfoldable pub register_pkg : List ℕ → List ℕ
register_pkg body = pkg_header (pkg_header_length + length body) cmd_register (get_crc body) ++ body

-- `sendLength` of `RegisterHandler`, and the body that it sends: what the block holds.
abbrev pub reply_length : ℕ
reply_length = 65000

unfoldable pub junk_body : (ℕ → ℕ) → ℕ → List ℕ
junk_body junk n = tabulate junk n

-- `RegisterHandler`; `has_body` says whether `pPkgBody` is not null.
unfoldable pub register : (ℕ → ℕ) → Block → Bool → ℕ → Socket → Socket × Bool
register junk m has_body body_length s =
    if not has_body
    then (s, false)
    else if not (body_length == struct_register_size)
    then (s, false)
    else (queue_reply m (register_pkg (junk_body junk reply_length)) s, true)

-- `LoginHandler`
unfoldable pub login : Socket → Socket × Bool
login s = (s, true)

-- The bytes that the checksum is taken of.
abbrev pub pkg_body : List ℕ → List ℕ
pkg_body pkg = take (pkg_len pkg - pkg_header_length) (drop pkg_header_length pkg)

-- The test of the checksum at the start of `ser_thread_process_message`.
unfoldable pub crc_passes : List ℕ → Bool
crc_passes pkg =
    if pkg_len pkg == pkg_header_length then crc32 pkg == 0 else get_crc (pkg_body pkg) == crc32 pkg

-- The call through `msgHandlers`; its result is only logged.
unfoldable pub call_handler : (ℕ → ℕ) → ℕ → Handler → Block → Socket → Socket
call_handler junk now ping_handler m s = (ping now m (pkg_len m.payload - pkg_header_length) s).0
call_handler junk now register_handler m s =
    (register junk m (not (pkg_len m.payload == pkg_header_length))
      (pkg_len m.payload - pkg_header_length) s).0
call_handler junk now login_handler m s = (login s).0

-- What is read from `msgHandlers`; a read behind its end is a fault.
unfoldable pub look_up : (ℕ → ℕ) → ℕ → Option (Option Handler) → Block → Socket → Socket
look_up junk now none m s = raise_fault s
look_up junk now (some none) m s = s
look_up junk now (some (some h)) m s = call_handler junk now h m s

-- `ser_thread_process_message`, for the block that `pPkgData` points to. The block is freed by the
-- caller; that the checksum field is put into host order in place is left out, nobody reads it
-- again.
unfoldable pub ser_thread_process_message : (ℕ → ℕ) → ℕ → Block → Socket → Socket
ser_thread_process_message junk now m s =
    if not (crc_passes m.payload)
    then s
    else if not ((s.conns m.conn).curr_sequence == m.seq)
    then s
    else if ltb auth_total_commands (msg_code m.payload)
    then s
    else look_up junk now (get_elem? msg_handlers (msg_code m.payload)) m s
