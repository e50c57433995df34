-- ===== src/Tests/Serving.antt =====
-- A registration on its way through the server.
use linux_communication.Common.{ℕ, ◌≡◌, true, some, refl, arith, List, [], ◌∷◌, ◌++◌, inl}
use linux_communication.Packet.{pkg_header}
use linux_communication.Crc.{get_crc}
use linux_communication.Receive.{received, read_events}
use linux_communication.Receive.Phases.{HeaderPart}
use linux_communication.Receive.Reassembly.{Pieces, arrivals, joined}
use linux_communication.Logic.{junk_body, register_pkg}
use linux_communication.Logic.Replies.{
  IsWellFormed, register_pkg-IsWellFormed, AreBytes-junk_body, length-junk_body,
}
use linux_communication.Send.{sent_some, ser_send_msg_queue_turn}
use linux_communication.Serve.{handle_next}
use linux_communication.Serve.Handling.{IsRegistration}
use linux_communication.Serve.Request.{Served, registration-Served}
use linux_communication.Socket.{Socket, in_block}
use linux_communication.Pool.{ser_get_free_connection}
use linux_communication.Accept.{accepted, ser_event_accept}
use linux_communication.Accept.Clients.{Serves}
use linux_communication.Serve.Client.{client-Served}
use linux_communication.Tests.Listening.{no_object-IsPooled}
use linux_communication.Tests.Working.{all_well}
use linux_communication.Tests.States.{quiet, no_junk}

-- The body: 100 zeros.
abbrev rest : List ℕ
rest = junk_body no_junk 99

abbrev first_piece : List ℕ → Pieces
first_piece [] = []
first_piece (b ∷ bs) = (b, bs) ∷ []

-- The header in one piece.
abbrev header : Pieces
header = first_piece (pkg_header 108 5 (get_crc (0 ∷ rest)))

body-IsWellFormed : IsWellFormed 5 (register_pkg (0 ∷ rest))
body-IsWellFormed =
    register_pkg-IsWellFormed (0 ∷ rest)
      (omega arith, AreBytes-junk_body no_junk 99 (λ i. omega arith)) (omega arith)
      (omega (arith, length-junk_body no_junk 99))

header-IsRegistration : IsRegistration (joined header ++ (0 ∷ rest))
unfolding register_pkg junk_body
header-IsRegistration = record { checked = body-IsWellFormed.checked; coded = refl; counted = refl }

waiting-HeaderPart : HeaderPart 1 [] quiet
waiting-HeaderPart = record {
  stat = inl refl;
  location = refl;
  left = refl;
  wants = omega arith;
  stored = refl;
  size = refl;
}

registration-Served_example :
    let t = read_events no_junk 7 1 (arrivals header ++ (received 0 rest ∷ [])) quiet in
    let u = handle_next no_junk 7 t in
    Served no_junk 1
      (joined header ++ (0 ∷ rest))
      quiet
      t
      u
      (ser_send_msg_queue_turn (λ p. sent_some 65008) u)
registration-Served_example =
    registration-Served no_junk 7 1 header 0 rest quiet (λ i. omega arith) waiting-HeaderPart refl
      refl refl refl (omega (arith, length-junk_body no_junk 99)) header-IsRegistration

client-Served_example :
    let c = (ser_get_free_connection 9 7 quiet).0 in
    (t : Socket) × (ser_event_accept 7 0 all_well true (accepted 9 [] ∷ []) quiet ≡ some (true, t))
    × Serves quiet c 9 [] t
    × (let u = read_events no_junk 7 c (arrivals header ++ (received 0 rest ∷ [])) t in
        let v = handle_next no_junk 7 u in
        let w = ser_send_msg_queue_turn (λ p. sent_some 65008) v in
        Served no_junk c (joined header ++ (0 ∷ rest)) t u v w
        × (w.send_calls ≡ (9, in_block u.heap.next 0, 65008) ∷ v.send_calls))
client-Served_example =
    client-Served no_junk 7 0 all_well 9 [] [] header 0 rest quiet (λ i. omega arith)
      no_object-IsPooled refl (λ d. refl) refl refl refl
      (omega (arith, length-junk_body no_junk 99)) header-IsRegistration
