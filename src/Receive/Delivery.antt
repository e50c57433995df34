-- ===== src/Receive/Delivery.antt =====
-- What it means that a packet is delivered.
use linux_communication.Common.{
  ℕ, ◌+◌, ◌*◌, ◌≤◌, ◌^◌, ◌≡◌, ◌≢◌, refl, sym, ◌∙◌, ap, ap₂, arith, List, [], ◌∷◌, ◌++◌, some,
  length, take, overwrite, update, inl, get_or-take,
}
use linux_communication.Packet.{pkg_len, pkg_header_length, pkg_head_info_size}
use linux_communication.Memory.{Block}
use linux_communication.Socket.{Socket, in_block}
use linux_communication.Receive.{
  received, ser_recv_pkg, ser_wait_request_in_msgqueue, store_at, store_in, push_msg,
}
use linux_communication.Receive.Phases.{HeaderPart, SameSending}

-- The packet `pkg` of connection `c` has been queued, in a new block stamped with the connection
-- and its sequence number; nothing else on the heap has changed, and the connection is ready for
-- the next header.
pub record Delivers (c : ℕ) (pkg : List ℕ) (s t : Socket) : Type 0 where
  pub queued : t.msg_recv_queue ≡ s.msg_recv_queue ++ (s.heap.next ∷ [])
  pub packet :
      t.heap.cells s.heap.next
      ≡ some (record { conn = c; seq = (s.conns c).curr_sequence; payload = pkg })
  pub others : (p : ℕ) → p ≢ s.heap.next → t.heap.cells p ≡ s.heap.cells p
  pub no_fault : t.heap.fault ≡ s.heap.fault
  pub ready : HeaderPart c [] t
  pub sending : SameSending c s t
  pub next : t.heap.next ≡ s.heap.next + 1

-- `hdr` is the header that connection `c` has received in full.
pub record HasHeader (c : ℕ) (hdr : List ℕ) (s : Socket) : Type 0 where
  pub head : take pkg_header_length (s.conns c).pkg_head_info ≡ hdr
  pub size : length (s.conns c).pkg_head_info ≡ pkg_head_info_size

pub HasHeader-pkg_len :
    (c : ℕ) (hdr : List ℕ) (s : Socket)
    → HasHeader c hdr s
    → pkg_len (s.conns c).pkg_head_info ≡ pkg_len hdr
HasHeader-pkg_len c hdr s h =
    sym (
      ap₂ (λ (x y : ℕ). x * 2 ^ 8 + y) (get_or-take 8 0 (s.conns c).pkg_head_info 0 (omega arith))
        (get_or-take 8 1 (s.conns c).pkg_head_info 0 (omega arith)))
    ∙ ap pkg_len h.head

pub in_msgqueue-Delivers :
    (c : ℕ) (pkg : List ℕ) (s t : Socket)
    → (t.conns c).recv_pkg_data ≡ some s.heap.next
    → t.msg_recv_queue ≡ s.msg_recv_queue
    → t.heap.cells s.heap.next
      ≡ some (record { conn = c; seq = (s.conns c).curr_sequence; payload = pkg })
    → ((p : ℕ) → p ≢ s.heap.next → t.heap.cells p ≡ s.heap.cells p)
    → t.heap.fault ≡ s.heap.fault
    → length (t.conns c).pkg_head_info ≡ pkg_head_info_size
    → SameSending c s t
    → t.heap.next ≡ s.heap.next + 1
    → Delivers c pkg s (ser_wait_request_in_msgqueue c t)
unfolding ser_wait_request_in_msgqueue push_msg
in_msgqueue-Delivers c pkg s t d q b o f z g n = record {
  queued = rw (d, push_msg) (ap (λ l. l ++ (s.heap.next ∷ [])) q);
  packet = rw (d, push_msg) b;
  others = λ p n. rw (d, push_msg) (o p n);
  no_fault = rw (d, push_msg) f;
  ready = record {
    stat = inl (ground arith);
    location = ground arith;
    left = ground arith;
    wants = ground arith;
    stored = refl;
    size = ground arith;
  };
  sending =
      rw (d, push_msg)
        (record {
          send_queue = g.send_queue;
          seq = ground (arith, g.seq);
          flight = ground (arith, g.flight);
          fd = ground (arith, g.fd);
        });
  next = rw (d, push_msg) n;
}

abbrev pub write_block : ℕ → Block → ℕ → List ℕ → Socket → Socket
write_block p blk off bytes s = record s {
  heap = record (s.heap) {
    cells = update s.heap.cells p (some (record blk { payload = overwrite blk.payload off bytes }));
  };
}

-- `recv` into a block with room for what comes in.
pub recv_block :
    (now c p off : ℕ) (blk : Block) (b : ℕ) (bs : List ℕ) (s : Socket)
    → (s.conns c).recv_location ≡ in_block p off
    → s.heap.cells p ≡ some blk
    → off + length (b ∷ bs) ≤ length blk.payload
    → ser_recv_pkg now c (received b bs) s
      ≡ (some (length (b ∷ bs)), write_block p blk off (b ∷ bs) s)
unfolding ser_recv_pkg store_at store_in
recv_block now c p off blk b bs s l e h = rw (l, store_at, e, store_in) (ground arith)
