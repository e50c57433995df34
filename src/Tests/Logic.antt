-- ===== src/Tests/Logic.antt =====
-- Tests of the message handlers.
use linux_communication.Common.{ℕ, ◌+◌, ◌≡◌, refl, List, arith, inr, true, false, length}
use linux_communication.Memory.{Block}
use linux_communication.Packet.{pkg_header_length, pkg_len, msg_code}
use linux_communication.Logic.{
  crc_passes, ser_thread_process_message, call_handler, ping_handler, register,
  struct_register_size, cmd_register, register_pkg, junk_body, reply_length, ping, cmd_ping,
}
use linux_communication.Logic.Dispatch.{process_message_ignores, process_message_dispatches}
use linux_communication.Logic.Replies.{Queues, IsWellFormed, register_replies, ping_replies}
use linux_communication.Tests.States.{no_junk, quiet, ping_block}

-- A ping whose connection has been given to somebody else.
abbrev stale_ping : Block
stale_ping = record (ping_block) { seq = 0 }

stale_ping_ignored : ser_thread_process_message no_junk 5 stale_ping quiet ≡ quiet
stale_ping_ignored = process_message_ignores no_junk 5 stale_ping quiet (inr (omega arith))

ping_passes : crc_passes ping_block.payload ≡ true
unfolding crc_passes
ping_passes = refl

process_message_dispatches_example :
    ser_thread_process_message no_junk 5 ping_block quiet
    ≡ call_handler no_junk 5 ping_handler ping_block quiet
process_message_dispatches_example =
    process_message_dispatches no_junk 5 ping_block quiet
      (record { checked = ping_passes; fresh = refl })

register_replies_example :
    let reply = register_pkg (junk_body no_junk reply_length) in
    let (t, accepted) = register no_junk ping_block true struct_register_size quiet in
    Queues ping_block reply quiet t
    × (accepted ≡ true)
    × IsWellFormed cmd_register reply
    × (length reply ≡ 65008)
register_replies_example = register_replies no_junk ping_block quiet (λ i. omega arith)

ping_replies_run :
    let t = (ping 5 ping_block 0 quiet).0 in
    (ping 5 ping_block (2 + 1) quiet ≡ (quiet, false))
    × ((pkg : List ℕ) × Queues ping_block pkg quiet t
        × (length pkg ≡ pkg_header_length)
        × (pkg_len pkg ≡ 16)
        × (msg_code pkg ≡ cmd_ping)
        × ((t.conns 1).last_ping_time ≡ 5))
ping_replies_run = ping_replies 5 ping_block 2 quiet
