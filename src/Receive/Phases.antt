-- ===== src/Receive/Phases.antt =====
-- The two phases of receiving: into `mPkgHeadInfo`, and into the block of the packet.
use linux_communication.Common.{
  update_self, ℕ, ◌+◌, ◌-◌, ◌≤◌, ◌<◌, ◌^◌, ◌≡◌, refl, ◌∙◌, ap, arith, List, ◌∷◌, ◌++◌, some, length,
  take, length-append, length-overwrite, take-overwrite, overwrite, inr, ◌⊎◌,
}
use linux_communication.Packet.{
  pkg_hd_init, pkg_hd_recving, pkg_bd_init, pkg_bd_recving, pkg_header_length, pkg_head_info_size,
}
use linux_communication.Memory.{Block}
use linux_communication.Socket.{
  Connection, Socket, head_info, in_block, put_connection, put_connection_twice,
}
use linux_communication.Receive.{
  received, ser_recv_pkg, ser_wait_request_process_pkg, on_received, ser_read_request_handler,
  store_at, advance, advance_location,
}

-- The bytes `pre` of a header have come in, and more are wanted.
pub record HeaderPart (c : ℕ) (pre : List ℕ) (s : Socket) : Type 0 where
  pub stat : ((s.conns c).recv_stat ≡ pkg_hd_init) ⊎ ((s.conns c).recv_stat ≡ pkg_hd_recving)
  pub location : (s.conns c).recv_location ≡ head_info (length pre)
  pub left : (s.conns c).recv_length + length pre ≡ pkg_header_length
  pub wants : 0 < (s.conns c).recv_length
  pub stored : take (length pre) (s.conns c).pkg_head_info ≡ pre
  pub size : length (s.conns c).pkg_head_info ≡ pkg_head_info_size

-- A body is wanted, and there is room for it in the block of the packet.
pub record BodyPart (c p off : ℕ) (b : Block) (s : Socket) : Type 0 where
  pub stat : ((s.conns c).recv_stat ≡ pkg_bd_init) ⊎ ((s.conns c).recv_stat ≡ pkg_bd_recving)
  pub location : (s.conns c).recv_location ≡ in_block p off
  pub packet : (s.conns c).recv_pkg_data ≡ some p
  pub live : s.heap.cells p ≡ some b
  pub fits : off + (s.conns c).recv_length ≤ length b.payload
  pub wants : 0 < (s.conns c).recv_length
  pub size : length (s.conns c).pkg_head_info ≡ pkg_head_info_size
  pub small : length b.payload < 2 ^ 32

-- What receiving does not touch: the queue for sending, and the sequence number and the count of
-- packets in flight of the connection.
pub record SameSending (c : ℕ) (s t : Socket) : Type 0 where
  pub send_queue : t.msg_send_queue ≡ s.msg_send_queue
  pub seq : (t.conns c).curr_sequence ≡ (s.conns c).curr_sequence
  pub flight : (t.conns c).throw_send_count ≡ (s.conns c).throw_send_count
  pub fd : (t.conns c).sock_fd ≡ (s.conns c).sock_fd

pub SameSending-trans :
    {c : ℕ} {s t u : Socket} → SameSending c s t → SameSending c t u → SameSending c s u
SameSending-trans p q = record {
  send_queue = q.send_queue ∙ p.send_queue;
  seq = q.seq ∙ p.seq;
  flight = q.flight ∙ p.flight;
  fd = q.fd ∙ p.fd;
}

-- What a read event does not touch while a header is incomplete.
pub record SameRest (c : ℕ) (s t : Socket) : Type 0 where
  pub heap : t.heap ≡ s.heap
  pub queue : t.msg_recv_queue ≡ s.msg_recv_queue
  pub sending : SameSending c s t

abbrev pub store_head : ℕ → ℕ → List ℕ → Socket → Socket
store_head c off bytes s =
    put_connection c
      (record (s.conns c) { pkg_head_info = overwrite (s.conns c).pkg_head_info off bytes }) s

recv_head :
    (now c : ℕ) (pre : List ℕ) (b : ℕ) (bs : List ℕ) (s : Socket)
    → HeaderPart c pre s
    → length (b ∷ bs) ≤ (s.conns c).recv_length
    → ser_recv_pkg now c (received b bs) s
      ≡ (some (length (b ∷ bs)), store_head c (length pre) (b ∷ bs) s)
unfolding ser_recv_pkg store_at
recv_head now c pre b bs s h l = rw (h.location, store_at) (ground (arith, h.size, h.left))

module _ (junk : ℕ → ℕ) (now c : ℕ) where
  on_header_done :
      (n : ℕ) (s : Socket)
      → ((s.conns c).recv_stat ≡ pkg_hd_init) ⊎ ((s.conns c).recv_stat ≡ pkg_hd_recving)
      → n ≡ (s.conns c).recv_length
      → on_received junk n c s ≡ ser_wait_request_process_pkg junk c s
  unfolding on_received
  on_header_done n s h e = ground arith

  on_header_more :
      (n off : ℕ) (s : Socket)
      → ((s.conns c).recv_stat ≡ pkg_hd_init) ⊎ ((s.conns c).recv_stat ≡ pkg_hd_recving)
      → (s.conns c).recv_location ≡ head_info off
      → n < (s.conns c).recv_length
      → (s.conns c).recv_length < 2 ^ 32
      → on_received junk n c s
        ≡ put_connection c
            (record (s.conns c) {
              recv_stat = pkg_hd_recving;
              recv_location = head_info (off + n);
              recv_length = (s.conns c).recv_length - n;
            })
            s
  unfolding on_received advance advance_location
  on_header_more n off s h e l w = ground arith

  pub read_received :
      (b : ℕ) (bs : List ℕ) (n : ℕ) (s t : Socket)
      → ser_recv_pkg now c (received b bs) s ≡ (some n, t)
      → ser_read_request_handler junk now c (received b bs) s ≡ on_received junk n c t
  unfolding ser_read_request_handler
  read_received b bs n s t e = ground arith

  -- The bytes that complete a header are stored, and the header is processed.
  pub header_done :
      (pre : List ℕ) (b : ℕ) (bs : List ℕ) (s : Socket)
      → HeaderPart c pre s
      → length (b ∷ bs) ≡ (s.conns c).recv_length
      → ser_read_request_handler junk now c (received b bs) s
        ≡ ser_wait_request_process_pkg junk c (store_head c (length pre) (b ∷ bs) s)
  header_done pre b bs s h l =
      read_received b bs (length (b ∷ bs)) s (store_head c (length pre) (b ∷ bs) s)
        (recv_head now c pre b bs s h (omega arith))
      ∙ on_header_done (length (b ∷ bs)) (store_head c (length pre) (b ∷ bs) s)
          (ground (arith, h.stat)) (ground arith)

  -- Fewer bytes than wanted extend the part of the header that is there.
  header_next :
      (pre : List ℕ) (b : ℕ) (bs : List ℕ) (s : Socket)
      → HeaderPart c pre s
      → length (b ∷ bs) < (s.conns c).recv_length
      → ser_read_request_handler junk now c (received b bs) s
        ≡ put_connection c
            (record (s.conns c) {
              recv_stat = pkg_hd_recving;
              pkg_head_info = overwrite (s.conns c).pkg_head_info (length pre) (b ∷ bs);
              recv_location = head_info (length pre + length (b ∷ bs));
              recv_length = (s.conns c).recv_length - length (b ∷ bs);
            })
            s
  header_next pre b bs s h l =
      let taken = length (b ∷ bs) in
      let grow : Connection → Connection = λ k. record k {
        recv_stat = pkg_hd_recving;
        recv_location = head_info (length pre + taken);
        recv_length = k.recv_length - taken;
      } in
      let new : Connection = record (s.conns c) {
        pkg_head_info = overwrite (s.conns c).pkg_head_info (length pre) (b ∷ bs);
      } in
      read_received b bs (length (b ∷ bs)) s (store_head c (length pre) (b ∷ bs) s)
        (recv_head now c pre b bs s h (omega arith))
      ∙ on_header_more (length (b ∷ bs)) (length pre) (store_head c (length pre) (b ∷ bs) s)
          (ground (arith, h.stat)) (ground (arith, h.location)) (ground arith)
          (ground (arith, h.left))
      ∙ ap (λ k. put_connection c (grow k) (put_connection c new s)) (update_self s.conns c new)
      ∙ put_connection_twice c new (grow new) s

  pub header_more :
      (pre : List ℕ) (b : ℕ) (bs : List ℕ) (s : Socket)
      → HeaderPart c pre s
      → length (b ∷ bs) < (s.conns c).recv_length
      → let t = ser_read_request_handler junk now c (received b bs) s in
        HeaderPart c (pre ++ (b ∷ bs)) t × SameRest c s t
  header_more pre b bs s h l = rw (header_next pre b bs s h l) (
    record {
      stat = inr (ground arith);
      location = ground (arith, length-append pre (b ∷ bs));
      left = ground (arith, h.left, length-append pre (b ∷ bs));
      wants = ground arith;
      stored =
          rw (update_self s.conns c _)
            (take-overwrite (s.conns c).pkg_head_info pre (b ∷ bs) h.stored);
      size = rw (update_self s.conns c _) (
          length-overwrite (s.conns c).pkg_head_info (length pre) (b ∷ bs)
            (omega (arith, h.size, h.left))
          ∙ h.size);
    },
    record {
      heap = refl;
      queue = refl;
      sending = record {
        send_queue = refl;
        seq = ground arith;
        flight = ground arith;
        fd = ground arith;
      };
    },
  )
