-- ===== src/Logic/Replies.antt =====
-- The packets that the handlers send.
use linux_communication.Common.{
  ℕ, zero, suc, ◌+◌, ◌-◌, ◌^◌, ◌<◌, ◌≡◌, refl, sym, ◌∙◌, ap, ap₂, ==_iff, arith, List, [], ◌∷◌,
  ◌++◌, append-nil, true, false, some, length, take, drop, length-tabulate, take-append,
  update_self, ◌==◌, if_false,
}
use linux_communication.Crc.{get_crc}
use linux_communication.Crc.Table.{AreBytes}
use linux_communication.Crc.Detect.{get_crc-lt}
use linux_communication.Packet.{
  pkg_len, msg_code, crc32, pkg_header, pkg_header-fields, pkg_header_length, msg_header_length,
}
use linux_communication.Memory.{Block, malloc_memory}
use linux_communication.Socket.{Socket}
use linux_communication.Logic.{
  crc_passes, pkg_body, register_pkg, junk_body, reply_length, register, ping, send_no_body_pkg,
  queue_reply, ser_in_send_queue, struct_register_size, cmd_ping, cmd_register,
}

-- The packet `pkg` for the sender of `m` has been put at the end of the send queue, in a new
-- block, and the sending thread has been woken.
pub record Queues (m : Block) (pkg : List ℕ) (s t : Socket) : Type 0 where
  pub queued : t.msg_send_queue ≡ s.msg_send_queue ++ (s.heap.next ∷ [])
  pub packet : t.heap.cells s.heap.next ≡ some (record m { payload = pkg })
  pub woken : t.send_queue_sem ≡ s.send_queue_sem + 1

-- A packet that a receiver accepts: the length field counts its bytes, the checksum is right.
pub record IsWellFormed (code : ℕ) (pkg : List ℕ) : Type 0 where
  pub counted : pkg_len pkg ≡ length pkg
  pub coded : msg_code pkg ≡ code
  pub checked : crc_passes pkg ≡ true

queue_reply-Queues : (m : Block) (pkg : List ℕ) (s : Socket) → Queues m pkg s (queue_reply m pkg s)
unfolding queue_reply malloc_memory ser_in_send_queue
queue_reply-Queues m pkg s = record {
  queued = refl;
  packet = update_self s.heap.cells s.heap.next _;
  woken = refl;
}

take_all {ℓ} : {A : Type ℓ} (xs : List A) → take (length xs) xs ≡ xs
take_all xs = rw append-nil at (take-append xs [])

crc_passes_of :
    (pkg body : List ℕ)
    → pkg_len pkg ≡ pkg_header_length + length body
    → 0 < length body
    → drop pkg_header_length pkg ≡ body
    → crc32 pkg ≡ get_crc body
    → crc_passes pkg ≡ true
unfolding crc_passes
crc_passes_of pkg body l p d c =
    let left : pkg_len pkg - pkg_header_length ≡ length body = omega (arith, l) in
    if_false (pkg_len pkg == pkg_header_length) _ _ (ground (arith, l))
    ∙ (==_iff (get_crc (pkg_body pkg)) (crc32 pkg)).1
        (ap get_crc (ap₂ take left d ∙ take_all body) ∙ sym c)

pub register_pkg-IsWellFormed :
    (body : List ℕ)
    → AreBytes body
    → 0 < length body
    → pkg_header_length + length body < 2 ^ 16
    → IsWellFormed cmd_register (register_pkg body)
unfolding register_pkg crc_passes
register_pkg-IsWellFormed body b l u =
    let f =
      pkg_header-fields (pkg_header_length + length body) cmd_register (get_crc body) body u
        (omega arith) (get_crc-lt body b) in
    record {
      counted = omega (arith, f.0);
      coded = f.1;
      checked = crc_passes_of (register_pkg body) body f.0 l refl f.2;
    }

pub AreBytes-junk_body :
    (junk : ℕ → ℕ) (n : ℕ) → ((i : ℕ) → junk i < 2 ^ 8) → AreBytes (junk_body junk n)
unfolding junk_body
AreBytes-junk_body junk zero h = tt
AreBytes-junk_body junk (suc n) h = (h 0, AreBytes-junk_body (λ i. junk (suc i)) n (λ i. h (suc i)))

pub length-junk_body : (junk : ℕ → ℕ) (n : ℕ) → length (junk_body junk n) ≡ n
unfolding junk_body
length-junk_body junk n = length-tabulate junk n

length-register_pkg : (body : List ℕ) (n : ℕ) → length body ≡ n → length (register_pkg body) ≡ 8 + n
unfolding register_pkg
length-register_pkg body n e = omega (arith, e)

-- A registration with a body of 100 bytes is answered by one packet of 65008 bytes, with the
-- sender's stamp, whose length field counts its bytes and whose checksum passes the test that
-- the server itself makes, whatever bytes are in the new block.
pub register_replies :
    (junk : ℕ → ℕ) (m : Block) (s : Socket)
    → ((i : ℕ) → junk i < 2 ^ 8)
    → let reply = register_pkg (junk_body junk reply_length) in
      let (t, accepted) = register junk m true struct_register_size s in
      Queues m reply s t
      × (accepted ≡ true)
      × IsWellFormed cmd_register reply
      × (length reply ≡ 65008)
unfolding register
register_replies junk m s h =
    let reply = register_pkg (junk_body junk reply_length) in
    let size = length-junk_body junk reply_length in
    (
      queue_reply-Queues m reply s,
      refl,
      register_pkg-IsWellFormed (junk_body junk reply_length)
          (AreBytes-junk_body junk reply_length h) (omega (arith, size)) (omega (arith, size)),
      length-register_pkg (junk_body junk reply_length) 65000 size,
    )

-- A ping with a body changes nothing and is refused. A ping with no body is answered by one packet
-- with the sender's stamp and the code of ping, and the time of the ping is noted. The length field
-- of the answer says 16, but the packet has the 8 bytes of its header only.
pub ping_replies :
    (now : ℕ) (m : Block) (n : ℕ) (s : Socket)
    → let t = (ping now m 0 s).0 in
      (ping now m (n + 1) s ≡ (s, false))
      × ((pkg : List ℕ) × Queues m pkg s t
          × (length pkg ≡ pkg_header_length)
          × (pkg_len pkg ≡ 16)
          × (msg_code pkg ≡ cmd_ping)
          × ((t.conns m.conn).last_ping_time ≡ now))
unfolding ping send_no_body_pkg queue_reply malloc_memory ser_in_send_queue
ping_replies now m n s = (
  ground arith,
  (
    pkg_header msg_header_length cmd_ping 0,
    record { queued = refl; packet = update_self s.heap.cells s.heap.next _; woken = refl },
    refl,
    refl,
    refl,
    ground arith,
  ),
)
