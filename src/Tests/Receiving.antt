-- ===== src/Tests/Receiving.antt =====
-- Tests of the receiving part.
use linux_communication.Common.{◌≡◌, refl, ◌∷◌, [], ◌++◌, arith, inl}
use linux_communication.Receive.{received, peer_closed, read_events, ser_read_request_handler}
use linux_communication.Receive.Phases.{HeaderPart}
use linux_communication.Receive.Delivery.{Delivers}
use linux_communication.Receive.Reassembly.{
  Pieces, arrivals, joined, read_events-Delivers, read_events-Delivers_bare,
}
use linux_communication.Receive.Places.{StaysSafe}
use linux_communication.Receive.Safety.{ser_read_request_handler-StaysSafe}
use linux_communication.Receive.Stall.{Stuck, read_events-split_body}
use linux_communication.Tests.States.{no_junk, quiet}

quiet-HeaderPart : HeaderPart 1 [] quiet
quiet-HeaderPart = record {
  stat = inl refl;
  location = refl;
  left = refl;
  wants = omega arith;
  stored = refl;
  size = refl;
}

-- A bare header in two pieces.
abbrev bare_pieces : Pieces
bare_pieces = (0, 8 ∷ []) ∷ (0, 0 ∷ 0 ∷ 0 ∷ 0 ∷ 0 ∷ []) ∷ []

-- The header of a packet of 11 bytes, in two pieces.
abbrev pieces : Pieces
pieces = (0, []) ∷ (11, 0 ∷ 5 ∷ 0 ∷ 0 ∷ 0 ∷ 0 ∷ []) ∷ []

read_events-Delivers_example :
    Delivers 1
      (joined pieces ++ (1 ∷ 2 ∷ 3 ∷ []))
      quiet
      (read_events no_junk 5 1 (arrivals pieces ++ (received 1 (2 ∷ 3 ∷ []) ∷ [])) quiet)
read_events-Delivers_example =
    read_events-Delivers no_junk 5 1 pieces 1 (2 ∷ 3 ∷ []) quiet quiet-HeaderPart refl refl
      (omega arith)

-- The queue after the bare packet, by running the code.
bare_run : (read_events no_junk 5 1 (arrivals bare_pieces) quiet).msg_recv_queue ≡ 0 ∷ []
bare_run =
    (read_events-Delivers_bare no_junk 5 1 bare_pieces quiet quiet-HeaderPart refl refl).queued

ser_read_request_handler-StaysSafe_example :
    StaysSafe 1 quiet (ser_read_request_handler no_junk 5 1 (received 0 (9 ∷ [])) quiet)
ser_read_request_handler-StaysSafe_example =
    ser_read_request_handler-StaysSafe no_junk 1 5 (received 0 (9 ∷ [])) quiet
      (inl ([], quiet-HeaderPart)) (omega arith)

read_events-split_body_example : Stuck 1 quiet (
    read_events no_junk 5 1
      (arrivals pieces ++ (received 1 (2 ∷ []) ∷ received 3 [] ∷ peer_closed ∷ []))
      quiet)
read_events-split_body_example =
    read_events-split_body no_junk 5 1 pieces 1 (2 ∷ []) (received 3 [] ∷ peer_closed ∷ []) quiet
      quiet-HeaderPart refl (omega arith) (omega arith)
