-- ===== src/Receive/Packets.antt =====
-- From a complete header to a packet in the queue of the thread pool.
use linux_communication.Common.{
  ℕ, ◌+◌, ◌-◌, ◌≤◌, ◌<◌, ◌^◌, ◌≡◌, refl, ◌∙◌, ap, arith, List, [], ◌∷◌, ◌++◌, Option, some, length,
  take, tabulate, append-nil, length-append, length-tabulate, overwrite_tail, update, update_self,
  ◌==◌, if_true, if_false, ◌⊎◌,
}
use linux_communication.Packet.{
  pkg_bd_init, pkg_bd_recving, pkg_len, pkg_header_length, pkg_head_info_size, pkg_max_length,
}
use linux_communication.Memory.{Block, malloc_memory}
use linux_communication.Socket.{Socket, in_block, put_connection, put_connection_twice}
use linux_communication.Receive.{
  is_malicious, reject_header, received, ser_recv_pkg, ser_wait_request_in_msgqueue,
  ser_wait_request_process_pkg, on_received, ser_read_request_handler, accept_header, advance,
  advance_location,
}
use linux_communication.Receive.Phases.{read_received}
use linux_communication.Receive.Delivery.{
  Delivers, HasHeader, HasHeader-pkg_len, in_msgqueue-Delivers, recv_block, write_block,
}

module _ (junk : ℕ → ℕ) (c : ℕ) where
  pub on_body_done :
      (n : ℕ) (s : Socket)
      → (s.conns c).recv_stat ≡ pkg_bd_init
      → n ≡ (s.conns c).recv_length
      → on_received junk n c s ≡ ser_wait_request_in_msgqueue c s
  unfolding on_received
  on_body_done n s h e = ground arith

  -- A piece of the body that is not all of it.
  pub on_body_more :
      (n p off : ℕ) (s : Socket)
      → (s.conns c).recv_stat ≡ pkg_bd_init
      → (s.conns c).recv_location ≡ in_block p off
      → n < (s.conns c).recv_length
      → (s.conns c).recv_length < 2 ^ 32
      → on_received junk n c s
        ≡ put_connection c
            (record (s.conns c) {
              recv_stat = pkg_bd_recving;
              recv_location = in_block p (off + n);
              recv_length = (s.conns c).recv_length - n;
            })
            s
  unfolding on_received advance advance_location
  on_body_more n p off s h e l w = ground arith

  -- In the state PKG_BD_RECVING no test of the handler passes.
  pub on_stuck :
      (n : ℕ) (s : Socket) → (s.conns c).recv_stat ≡ pkg_bd_recving → on_received junk n c s ≡ s
  unfolding on_received
  on_stuck n s h = ground arith

  -- The state from which the body of a packet is received.
  abbrev pub wants_body_of : List ℕ → ℕ → Socket → Socket
  wants_body_of hdr left s =
      let b : Block = record {
        conn = c;
        seq = (s.conns c).curr_sequence;
        payload = hdr ++ tabulate junk left;
      } in
      put_connection c
        (record (s.conns c) {
          recv_pkg_data = some s.heap.next;
          recv_stat = pkg_bd_init;
          recv_location = in_block s.heap.next pkg_header_length;
          recv_length = left;
        })
        (record s {
          heap = record (s.heap) {
            next = s.heap.next + 1;
            cells = update s.heap.cells s.heap.next (some b);
          };
        })

  process_accepts :
      (hdr : List ℕ) (s : Socket)
      → HasHeader c hdr s
      → pkg_header_length ≤ pkg_len hdr
      → pkg_len hdr + 1000 ≤ pkg_max_length
      → ser_wait_request_process_pkg junk c s ≡ accept_header junk (pkg_len hdr) c s
  unfolding ser_wait_request_process_pkg
  process_accepts hdr s h l u =
      let e = HasHeader-pkg_len c hdr s h in
      if_false (is_malicious (pkg_len (s.conns c).pkg_head_info)) _ _ (ground (arith, e))
      ∙ ap (λ n. accept_header junk n c s) e

  accept_body :
      (len : ℕ) (s : Socket)
      → pkg_header_length < len
      → accept_header junk len c s
        ≡ wants_body_of
            (take pkg_header_length (s.conns c).pkg_head_info)
            (len - pkg_header_length)
            s
  unfolding accept_header malloc_memory
  accept_body len s l =
      if_false (len == pkg_header_length) _ _ (ground arith) ∙ put_connection_twice c _ _ _

  accept_bare :
      (hdr : List ℕ) (s : Socket) (len : ℕ)
      → len ≡ pkg_header_length
      → HasHeader c hdr s
      → Delivers c hdr s (accept_header junk len c s)
  unfolding accept_header malloc_memory
  accept_bare hdr s len e h = rw (if_true (len == pkg_header_length) _ _ (ground arith)) (
      in_msgqueue-Delivers c hdr s _ (ground arith) refl
        (rw (update_self s.heap.cells s.heap.next _, h.head, no_rest len e) (rw append-nil))
        (λ p n. ground arith) refl (ground (arith, h.size))
        (record { send_queue = refl; seq = ground arith; flight = ground arith; fd = ground arith })
        refl)
    where
      no_rest : (n : ℕ) → n ≡ 8 → tabulate junk (n - 8) ≡ []
      no_rest n e = ap (λ (m : ℕ). tabulate junk (m - 8)) e

  -- A header with a valid length and a body: room for the packet is made, and the body is next.
  pub process_body :
      (hdr : List ℕ) (s : Socket)
      → HasHeader c hdr s
      → pkg_header_length < pkg_len hdr
      → pkg_len hdr + 1000 ≤ pkg_max_length
      → ser_wait_request_process_pkg junk c s
        ≡ wants_body_of hdr (pkg_len hdr - pkg_header_length) s
  process_body hdr s h l u =
      process_accepts hdr s h (omega arith) u
      ∙ accept_body (pkg_len hdr) s l
      ∙ ap (λ t. wants_body_of t (pkg_len hdr - pkg_header_length) s) h.head

  -- A header with a valid length and no body: the packet is queued at once.
  pub process_bare :
      (hdr : List ℕ) (s : Socket)
      → HasHeader c hdr s
      → pkg_len hdr ≡ pkg_header_length
      → Delivers c hdr s (ser_wait_request_process_pkg junk c s)
  process_bare hdr s h e =
      rw (process_accepts hdr s h (omega (arith, e)) (omega (arith, e)))
        (accept_bare hdr s (pkg_len hdr) e h)

  stamped : ℕ → List ℕ → Option Block
  stamped seq pkg = some (record { conn = c; seq = seq; payload = pkg })

  -- The whole body in one piece completes the packet.
  pub body-Delivers :
      (now : ℕ) (hdr : List ℕ) (b : ℕ) (bs : List ℕ) (s : Socket)
      → length hdr ≡ pkg_header_length
      → length (s.conns c).pkg_head_info ≡ pkg_head_info_size
      → Delivers c (hdr ++ (b ∷ bs)) s (
          ser_read_request_handler junk now c
            (received b bs)
            (wants_body_of hdr (length (b ∷ bs)) s))
  unfolding stamped
  body-Delivers now hdr b bs s l z =
      let bytes : List ℕ = b ∷ bs in
      let rest : List ℕ = tabulate junk (length bytes) in
      let q : Socket = wants_body_of hdr (length bytes) s in
      let blk : Block = record {
        conn = c;
        seq = (s.conns c).curr_sequence;
        payload = hdr ++ rest;
      } in
      let t : Socket = write_block s.heap.next blk pkg_header_length bytes q in
      let arrives : ser_recv_pkg now c (received b bs) q ≡ (some (length bytes), t) =
        recv_block now c s.heap.next pkg_header_length blk b bs q (ground arith)
          (update_self s.heap.cells s.heap.next (some blk))
          (omega (arith, length-append hdr rest, length-tabulate junk (length bytes), l)) in
      rw
        (
          read_received junk now c b bs (length bytes) q t arrives,
          on_body_done (length bytes) t (ground arith) (ground arith),
        )
        (in_msgqueue-Delivers c (hdr ++ bytes) s t (ground arith) refl
          (rw (update_self (update s.heap.cells s.heap.next (some blk)) s.heap.next _) (
            ap (stamped (s.conns c).curr_sequence)
              (rw l at (overwrite_tail hdr rest bytes (length-tabulate junk (length bytes))))))
          (λ p n. ground arith) refl (ground (arith, z))
          (record {
            send_queue = refl;
            seq = ground arith;
            flight = ground arith;
            fd = ground arith;
          })
          refl)

  -- So does a header with its body behind it.
  pub complete_body :
      (now : ℕ) (hdr : List ℕ) (b : ℕ) (bs : List ℕ) (s : Socket)
      → HasHeader c hdr s
      → length hdr ≡ pkg_header_length
      → pkg_len hdr ≡ pkg_header_length + length (b ∷ bs)
      → pkg_len hdr + 1000 ≤ pkg_max_length
      → Delivers c (hdr ++ (b ∷ bs)) s (
          ser_read_request_handler junk now c
            (received b bs)
            (ser_wait_request_process_pkg junk c s))
  complete_body now hdr b bs s h l e u =
      let left : pkg_len hdr - pkg_header_length ≡ length (b ∷ bs) = omega (arith, e) in
      rw (process_body hdr s h (omega (arith, e)) u, left) (body-Delivers now hdr b bs s l h.size)

  -- A length out of range: the connection waits for a new header, and nothing else has changed.
  pub process_malicious :
      (hdr : List ℕ) (s : Socket)
      → HasHeader c hdr s
      → (pkg_len hdr < pkg_header_length) ⊎ (pkg_max_length < pkg_len hdr + 1000)
      → ser_wait_request_process_pkg junk c s ≡ reject_header c s
  unfolding ser_wait_request_process_pkg
  process_malicious hdr s h e =
      let n = HasHeader-pkg_len c hdr s h in
      if_true (is_malicious (pkg_len (s.conns c).pkg_head_info)) _ _ (ground (arith, n))
