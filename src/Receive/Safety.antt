-- ===== src/Receive/Safety.antt =====
-- No received byte is stored outside the memory that is set aside for it.
use native.Mathlib.Omega.{arith}
use linux_communication.Common.{
  ℕ, ◌≤◌, refl, List, ◌∷◌, ◌++◌, length, inl, inr, length-append, length-overwrite, overwrite,
  update_self, dec_lt,
}
use linux_communication.Memory.{Block}
use linux_communication.Socket.{Socket}
use linux_communication.Receive.{
  RecvResult, received, peer_closed, recv_error, eagain, eintr, econnreset, other_errno,
  ser_read_request_handler, ser_recv_pkg, on_received,
}
use linux_communication.Receive.Phases.{
  HeaderPart, BodyPart, store_head, header_more, header_done, read_received,
}
use linux_communication.Receive.Delivery.{recv_block, write_block}
use linux_communication.Receive.Packets.{on_stuck, on_body_done}
use linux_communication.Receive.Reassembly.{store_head-Completes}
use linux_communication.Receive.Places.{
  IsReceiving, StaysSafe, hang_up-StaysSafe, process-StaysSafe, msgqueue-StaysSafe, more-StaysSafe,
}

-- `recv` returns at most as many bytes as it was asked for.
abbrev pub Respects : ℕ → RecvResult → Socket → Type 0
Respects c (received b bs) s = length (b ∷ bs) ≤ (s.conns c).recv_length
Respects c peer_closed s = Unit
Respects c (recv_error e) s = Unit

module _ (junk : ℕ → ℕ) (c : ℕ) where
  on_body :
      (n p off : ℕ) (b : Block) (s : Socket)
      → BodyPart c p off b s
      → n ≤ (s.conns c).recv_length
      → StaysSafe c s (on_received junk n c s)
  on_body n p off b s h l = elim (dec_lt n (s.conns c).recv_length) [
    | yes less ↦ elim h.stat [
      | inl e ↦ more-StaysSafe junk c n p off b s h e less
      | inr e ↦ rw (on_stuck junk c n s e) (refl, inr (p, off, b, h))
    ]
    | no more ↦ elim h.stat [
      | inl e ↦ rw (on_body_done junk c n s e (omega arith)) (msgqueue-StaysSafe junk c p off b s h)
      | inr e ↦ rw (on_stuck junk c n s e) (refl, inr (p, off, b, h))
    ]
  ]

  header-StaysSafe :
      (now : ℕ) (pre : List ℕ) (b : ℕ) (bs : List ℕ) (s : Socket)
      → HeaderPart c pre s
      → length (b ∷ bs) ≤ (s.conns c).recv_length
      → StaysSafe c s (ser_read_request_handler junk now c (received b bs) s)
  header-StaysSafe now pre b bs s h l = elim (dec_lt (length (b ∷ bs)) (s.conns c).recv_length) [
    | yes less ↦
        let m = header_more junk now c pre b bs s h less in
        (rw m.1.heap refl, inl (pre ++ (b ∷ bs), m.0))
    | no more ↦
        let whole = store_head-Completes c pre (b ∷ bs) s h (omega (arith, h.left)) in
        let r =
          process-StaysSafe junk c (pre ++ (b ∷ bs)) (store_head c (length pre) (b ∷ bs) s)
            whole.has (omega (arith, length-append pre (b ∷ bs), h.left)) in
        rw (header_done junk now c pre b bs s h (omega arith)) (r.0, r.1)
  ]

  body_bytes-StaysSafe :
      (now p off : ℕ) (blk : Block) (b : ℕ) (bs : List ℕ) (s : Socket)
      → BodyPart c p off blk s
      → length (b ∷ bs) ≤ (s.conns c).recv_length
      → StaysSafe c s (ser_read_request_handler junk now c (received b bs) s)
  body_bytes-StaysSafe now p off blk b bs s h l =
      let bytes : List ℕ = b ∷ bs in
      let t : Socket = write_block p blk off bytes s in
      let same = length-overwrite blk.payload off bytes (omega (arith, h.fits)) in
      rw
        (read_received junk now c b bs (length bytes) s t
          (recv_block now c p off blk b bs s h.location h.live (omega (arith, h.fits))))
        (on_body (length bytes) p off (record blk { payload = overwrite blk.payload off bytes }) t
          (record {
            stat = h.stat;
            location = h.location;
            packet = h.packet;
            live = update_self s.heap.cells p _;
            fits = omega (arith, h.fits, same);
            wants = h.wants;
            size = h.size;
            small = omega (arith, h.small, same);
          })
          l)

  received-StaysSafe :
      (now b : ℕ) (bs : List ℕ) (s : Socket)
      → IsReceiving c s
      → length (b ∷ bs) ≤ (s.conns c).recv_length
      → StaysSafe c s (ser_read_request_handler junk now c (received b bs) s)
  received-StaysSafe now b bs s (inl (pre, h)) l = header-StaysSafe now pre b bs s h l
  received-StaysSafe now b bs s (inr (p, off, blk, h)) l =
      body_bytes-StaysSafe now p off blk b bs s h l

  -- Whatever `recv` returns within the length that it was asked for, a read event stores no byte
  -- outside `mPkgHeadInfo` or the block of the packet, and leaves the connection with a receive
  -- buffer that is there: the first 8 bytes of `mPkgHeadInfo`, or a live block with room for the
  -- rest of the body.
  pub ser_read_request_handler-StaysSafe :
      (now : ℕ) (r : RecvResult) (s : Socket)
      → IsReceiving c s
      → Respects c r s
      → StaysSafe c s (ser_read_request_handler junk now c r s)
  unfolding ser_read_request_handler ser_recv_pkg
  ser_read_request_handler-StaysSafe now (received b bs) s v l = received-StaysSafe now b bs s v l
  ser_read_request_handler-StaysSafe now peer_closed s v l = hang_up-StaysSafe now c s _ v
  ser_read_request_handler-StaysSafe now (recv_error eagain) s v l = (refl, v)
  ser_read_request_handler-StaysSafe now (recv_error eintr) s v l = (refl, v)
  ser_read_request_handler-StaysSafe now (recv_error econnreset) s v l =
      hang_up-StaysSafe now c s _ v
  ser_read_request_handler-StaysSafe now (recv_error other_errno) s v l =
      hang_up-StaysSafe now c s _ v
