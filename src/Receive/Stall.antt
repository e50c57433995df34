-- ===== src/Receive/Stall.antt =====
-- What becomes of a packet whose body arrives in more than one piece.
use linux_communication.Common.{
  ℕ, ◌+◌, ◌≤◌, ◌<◌, ◌≡◌, refl, ◌∙◌, arith, List, [], ◌∷◌, ◌++◌, length, length-append,
  length-tabulate, tabulate, update_self, some, none, Option, ◌-◌, ◌^◌,
}
use linux_communication.Packet.{pkg_bd_recving, pkg_len, pkg_header_length, pkg_max_length}
use linux_communication.Memory.{Block}
use linux_communication.Socket.{Socket, Location, nowhere, head_info, in_block}
use linux_communication.Pool.{ser_in_recy_connection}
use linux_communication.Receive.{
  RecvResult, received, peer_closed, recv_error, eagain, eintr, econnreset, other_errno,
  ser_read_request_handler, ser_recv_pkg, store_at, store_in, read_events,
}
use linux_communication.Receive.Phases.{HeaderPart, read_received}
use linux_communication.Receive.Delivery.{recv_block, write_block}
use linux_communication.Receive.Packets.{on_stuck, on_body_more, wants_body_of, process_body}
use linux_communication.Receive.Reassembly.{
  Pieces, arrivals, joined, header_arrives, read_events-append,
}

-- Nothing comes out of connection `c` any more.
pub record Stuck (c : ℕ) (s t : Socket) : Type 0 where
  pub stat : (t.conns c).recv_stat ≡ pkg_bd_recving
  pub queue : t.msg_recv_queue ≡ s.msg_recv_queue

Stuck-trans : {c : ℕ} {s t u : Socket} → Stuck c s t → Stuck c t u → Stuck c s u
Stuck-trans p q = record { stat = q.stat; queue = q.queue ∙ p.queue }

store_in-Stuck :
    (c : ℕ) (o : Option Block) (p off : ℕ) (bytes : List ℕ) (s : Socket)
    → (s.conns c).recv_stat ≡ pkg_bd_recving
    → Stuck c s (store_in o p off bytes s)
unfolding store_in
store_in-Stuck c none p off bytes s h = record { stat = h; queue = refl }
store_in-Stuck c (some b) p off bytes s h = record {
  stat = ground (arith, h);
  queue = ground arith;
}

store_at-Stuck :
    (c : ℕ) (l : Location) (bytes : List ℕ) (s : Socket)
    → (s.conns c).recv_stat ≡ pkg_bd_recving
    → Stuck c s (store_at l c bytes s)
unfolding store_at
store_at-Stuck c nowhere bytes s h = record { stat = h; queue = refl }
store_at-Stuck c (head_info off) bytes s h = record {
  stat = ground (arith, h);
  queue = ground arith;
}
store_at-Stuck c (in_block p off) bytes s h = store_in-Stuck c (s.heap.cells p) p off bytes s h

hang_up-Stuck :
    (now c : ℕ) (s : Socket) (fds : List ℕ)
    → (s.conns c).recv_stat ≡ pkg_bd_recving
    → Stuck c s (ser_in_recy_connection now c (record s { closed_fds = fds }))
unfolding ser_in_recy_connection
hang_up-Stuck now c s fds h = record { stat = ground (arith, h); queue = refl }

module _ (junk : ℕ → ℕ) (now c : ℕ) where
  read-Stuck :
      (r : RecvResult) (s : Socket)
      → (s.conns c).recv_stat ≡ pkg_bd_recving
      → Stuck c s (ser_read_request_handler junk now c r s)
  unfolding ser_read_request_handler ser_recv_pkg
  read-Stuck (received b bs) s h =
      let t : Socket = store_at (s.conns c).recv_location c (b ∷ bs) s in
      let k = store_at-Stuck c (s.conns c).recv_location (b ∷ bs) s h in
      rw (on_stuck junk c (length (b ∷ bs)) t k.stat) k
  read-Stuck peer_closed s h = hang_up-Stuck now c s _ h
  read-Stuck (recv_error eagain) s h = record { stat = h; queue = refl }
  read-Stuck (recv_error eintr) s h = record { stat = h; queue = refl }
  read-Stuck (recv_error econnreset) s h = hang_up-Stuck now c s _ h
  read-Stuck (recv_error other_errno) s h = hang_up-Stuck now c s _ h

  read_events-Stuck :
      (rs : List RecvResult) (s : Socket)
      → (s.conns c).recv_stat ≡ pkg_bd_recving
      → Stuck c s (read_events junk now c rs s)
  unfolding read_events
  read_events-Stuck [] s h = record { stat = h; queue = refl }
  read_events-Stuck (r ∷ rs) s h =
      let k = read-Stuck r s h in
      Stuck-trans k (read_events-Stuck rs (ser_read_request_handler junk now c r s) k.stat)

  -- The first piece of a body, when it is not all of it.
  first_piece-Stuck :
      (hdr : List ℕ) (left b : ℕ) (bs : List ℕ) (s : Socket)
      → length hdr ≡ pkg_header_length
      → length (b ∷ bs) < left
      → left < 2 ^ 16
      → Stuck c s
          (ser_read_request_handler junk now c (received b bs) (wants_body_of junk c hdr left s))
  first_piece-Stuck hdr left b bs s l h w =
      let bytes : List ℕ = b ∷ bs in
      let rest : List ℕ = tabulate junk left in
      let blk : Block = record {
        conn = c;
        seq = (s.conns c).curr_sequence;
        payload = hdr ++ rest;
      } in
      let q : Socket = wants_body_of junk c hdr left s in
      let t : Socket = write_block s.heap.next blk pkg_header_length bytes q in
      rw
        (
          read_received junk now c b bs (length bytes) q t (
              recv_block now c s.heap.next pkg_header_length blk b bs q (ground arith)
                (update_self s.heap.cells s.heap.next (some blk))
                (omega (arith, length-append hdr rest, length-tabulate junk left, l))),
          on_body_more junk c (length bytes) s.heap.next pkg_header_length t (ground arith)
              (ground arith) (rw (update_self s.conns c _) h)
              (rw (update_self s.conns c _) (omega arith)),
        )
        (record { stat = ground arith; queue = refl })

  -- A packet whose body does not arrive in one piece is lost: after a header with a valid length,
  -- in any pieces, and a first piece of the body that is shorter than the body, no sequence of
  -- later results of `recv` on this connection ever queues a packet; the connection stays in the
  -- state PKG_BD_RECVING.
  pub read_events-split_body :
      (ps : Pieces) (b : ℕ) (bs : List ℕ) (rs : List RecvResult) (s : Socket)
      → HeaderPart c [] s
      → length (joined ps) ≡ pkg_header_length
      → pkg_header_length + length (b ∷ bs) < pkg_len (joined ps)
      → pkg_len (joined ps) + 1000 ≤ pkg_max_length
      → Stuck c s (read_events junk now c (arrivals ps ++ (received b bs ∷ rs)) s)
  unfolding read_events
  read_events-split_body ps b bs rs s h e l u =
      let (v, k, r) = header_arrives junk now c ps [] s h (omega (arith, e)) in
      let left = pkg_len (joined ps) - pkg_header_length in
      let first =
        first_piece-Stuck (joined ps) left b bs v e (omega (arith, l)) (omega (arith, u)) in
      rw
        (
          read_events-append junk now c (arrivals ps) (received b bs ∷ rs) s,
          r,
          process_body junk c (joined ps) v k.has (omega (arith, l)) u,
        )
        (Stuck-trans (record { stat = first.stat; queue = first.queue ∙ k.same.queue })
          (read_events-Stuck rs _ first.stat))
