-- ===== src/Logic/Dispatch.antt =====
-- Which packets reach a handler.
use linux_communication.Common.{
  ℕ, zero, suc, ◌≡◌, ◌≢◌, refl, ◌∙◌, arith, ◌⊎◌, true, false, get_elem?, ltb, ◌==◌, if◌then◌else◌,
}
use linux_communication.Packet.{msg_code}
use linux_communication.Memory.{Block}
use linux_communication.Socket.{Socket}
use linux_communication.Receive.{raise_fault}
use linux_communication.Logic.{
  ping_handler, register_handler, login_handler, msg_handlers, crc_passes, look_up, call_handler,
  ser_thread_process_message,
}

-- The checksum is right, and the connection is still the one that the packet came in on.
pub record IsGenuine (m : Block) (s : Socket) : Type 0 where
  pub checked : crc_passes m.payload ≡ true
  pub fresh : (s.conns m.conn).curr_sequence ≡ m.seq

module _ (junk : ℕ → ℕ) (now : ℕ) (m : Block) (s : Socket) where
  -- A packet with a wrong checksum, or one whose connection has been given to somebody else or
  -- has been hung up since (its sequence number has changed), changes nothing.
  pub process_message_ignores :
      (crc_passes m.payload ≡ false) ⊎ ((s.conns m.conn).curr_sequence ≢ m.seq)
      → ser_thread_process_message junk now m s ≡ s
  unfolding ser_thread_process_message
  process_message_ignores h = ground arith

  genuine_look_up :
      IsGenuine m s
      → ser_thread_process_message junk now m s ≡ (
          if ltb 7 (msg_code m.payload)
          then s
          else look_up junk now (get_elem? msg_handlers (msg_code m.payload)) m s)
  unfolding ser_thread_process_message
  genuine_look_up g = ground (arith, g.checked, g.fresh)

  -- What the message codes stand for.
  abbrev pub by_command : ℕ → Socket
  by_command code =
      if code == 0
      then call_handler junk now ping_handler m s
      else if code == 5
      then call_handler junk now register_handler m s
      else if code == 6
      then call_handler junk now login_handler m s
      else if code == 7
      then raise_fault s
      else s

  table_of_commands :
      (code : ℕ)
      → (if ltb 7 code then s else look_up junk now (get_elem? msg_handlers code) m s)
        ≡ by_command code
  unfolding look_up
  table_of_commands zero = refl
  table_of_commands (suc zero) = refl
  table_of_commands (suc (suc zero)) = refl
  table_of_commands (suc (suc (suc zero))) = refl
  table_of_commands (suc (suc (suc (suc zero)))) = refl
  table_of_commands (suc (suc (suc (suc (suc zero))))) = refl
  table_of_commands (suc (suc (suc (suc (suc (suc zero)))))) = refl
  table_of_commands (suc (suc (suc (suc (suc (suc (suc zero))))))) = refl
  table_of_commands (suc (suc (suc (suc (suc (suc (suc (suc k)))))))) = ground arith

  -- A genuine packet goes by its message code: 0, 5 and 6 call the handler of ping, register and
  -- login; code 7 passes the test of the code and reads behind the end of the handler table, a
  -- fault; all others, 1 to 4 and all from 8 on, change nothing.
  pub process_message_dispatches :
      IsGenuine m s → ser_thread_process_message junk now m s ≡ by_command (msg_code m.payload)
  process_message_dispatches g = genuine_look_up g ∙ table_of_commands (msg_code m.payload)
