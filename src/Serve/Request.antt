-- ===== src/Serve/Request.antt =====
-- A registration on its way through the server.
use linux_communication.Common.{
  ℕ, ◌+◌, ◌*◌, ◌^◌, ◌<◌, ◌≡◌, ◌≢◌, refl, sym, ap, ap₂, ◌∙◌, arith, List, [], ◌∷◌, ◌++◌, length,
  false, some, is_pos, take, take-append, get_or-take,
}
use linux_communication.Packet.{pkg_len, pkg_header_length}
use linux_communication.Memory.{Block}
use linux_communication.Socket.{Socket}
use linux_communication.Receive.{received, read_events}
use linux_communication.Receive.Phases.{HeaderPart}
use linux_communication.Receive.Delivery.{Delivers}
use linux_communication.Receive.Reassembly.{Pieces, arrivals, joined, read_events-Delivers}
use linux_communication.Logic.{struct_register_size}
use linux_communication.Logic.Replies.{register_replies}
use linux_communication.Send.{sent_some, ser_send_msg_queue_turn}
use linux_communication.Serve.{handle_next}
use linux_communication.Serve.Handling.{IsRegistration, reply_of, Answered, handle_next-Answered}
use linux_communication.Serve.Sending.{Sent, turn-Sent}

header-pkg_len :
    (hdr body : List ℕ) → length hdr ≡ pkg_header_length → pkg_len hdr ≡ pkg_len (hdr ++ body)
header-pkg_len hdr body e =
    ap pkg_len (sym (ap (λ n. take n (hdr ++ body)) (sym e) ∙ take-append hdr body))
    ∙ ap₂ (λ (x y : ℕ). x * 2 ^ 8 + y) (get_or-take 8 0 (hdr ++ body) 0 (omega arith))
        (get_or-take 8 1 (hdr ++ body) 0 (omega arith))

HeaderPart-conns :
    (c : ℕ) (t u : Socket) → u.conns ≡ t.conns → HeaderPart c [] t → HeaderPart c [] u
HeaderPart-conns c t u e h = record {
  stat = rw e h.stat;
  location = rw e h.location;
  left = rw e h.left;
  wants = rw e h.wants;
  stored = refl;
  size = rw e h.size;
}

-- The way of a registration: `t` after the read events, `u` after the thread, `w` after a turn of
-- the sending thread.
pub record Served (junk : ℕ → ℕ) (c : ℕ) (pkg : List ℕ) (s t u w : Socket) : Type 0 where
  pub delivered : Delivers c pkg s t
  pub answered : Answered junk c s.heap.next t.heap.next t u
  pub sent : Sent c t.heap.next 65008 u w
  pub same_fd : (u.conns c).sock_fd ≡ (s.conns c).sock_fd
  pub same_heap : (i : ℕ) → i ≢ s.heap.next → i ≢ t.heap.next → w.heap.cells i ≡ s.heap.cells i
  pub no_fault : w.heap.fault ≡ s.heap.fault
  pub no_packet : w.msg_recv_queue ≡ []
  pub ready : HeaderPart c [] w

-- The whole way of a request. On a connection that waits for a header and has no packet in flight,
-- with both queues empty: a registration with a right checksum, its header cut into any pieces and
-- its body in one piece, is queued by the read events; a thread takes it, queues a reply of 65008
-- bytes with its stamp and frees it; and a turn of the sending thread in which `send` takes all of
-- them frees the reply. Both queues are empty again, the heap is as it was but for the two freed
-- blocks, no fault has come up, and the connection waits for the next header.
pub registration-Served :
    (junk : ℕ → ℕ) (now c : ℕ) (ps : Pieces) (b : ℕ) (bs : List ℕ) (s : Socket)
    → ((i : ℕ) → junk i < 2 ^ 8)
    → HeaderPart c [] s
    → s.msg_recv_queue ≡ []
    → s.msg_send_queue ≡ []
    → is_pos (s.conns c).throw_send_count ≡ false
    → length (joined ps) ≡ pkg_header_length
    → length (b ∷ bs) ≡ struct_register_size
    → IsRegistration (joined ps ++ (b ∷ bs))
    → let t = read_events junk now c (arrivals ps ++ (received b bs ∷ [])) s in
      let u = handle_next junk now t in
      Served junk c (joined ps ++ (b ∷ bs)) s t u (ser_send_msg_queue_turn (λ p. sent_some 65008) u)
registration-Served junk now c ps b bs s bytes h rq sq idle l8 l100 is =
    let pkg : List ℕ = joined ps ++ (b ∷ bs) in
    let t = read_events junk now c (arrivals ps ++ (received b bs ∷ [])) s in
    let u = handle_next junk now t in
    let counted : pkg_len (joined ps) ≡ 108 = header-pkg_len (joined ps) (b ∷ bs) l8 ∙ is.counted in
    let d : Delivers c pkg s t =
      read_events-Delivers junk now c ps b bs s h l8 (omega (arith, counted, l100))
        (omega (arith, counted)) in
    let a : Answered junk c s.heap.next t.heap.next t u =
      handle_next-Answered junk now c s.heap.next pkg t is (record {
        queue = d.queued ∙ ap (λ q. q ++ (s.heap.next ∷ [])) rq;
        packet =
            d.packet
            ∙ ap (λ n. some (record { conn = c; seq = n; payload = pkg })) (sym d.sending.seq);
        nothing_to_send = d.sending.send_queue ∙ sq;
        after = omega (arith, d.next);
      }) in
    let m : Block = record { conn = c; seq = (t.conns c).curr_sequence; payload = reply_of junk } in
    let (q, ok, well, size) = register_replies junk m s bytes in
    let e : Sent c t.heap.next 65008 u (ser_send_msg_queue_turn (λ p. sent_some 65008) u) =
      turn-Sent t.heap.next 65008 m u a.queued a.reply (ap (λ f. (f c).curr_sequence) a.conns)
        (ap (λ f. is_pos (f c).throw_send_count) a.conns ∙ ap is_pos d.sending.flight ∙ idle)
        (well.counted ∙ size) in
    record {
      delivered = d;
      answered = a;
      sent = e;
      same_fd = ap (λ f. (f c).sock_fd) a.conns ∙ d.sending.fd;
      same_heap = λ i np nq. e.others i nq ∙ a.others i np nq ∙ d.others i np;
      no_fault = e.no_fault ∙ a.no_fault ∙ d.no_fault;
      no_packet = e.recv_queue ∙ a.taken;
      ready = e.same_recv (HeaderPart-conns c t u a.conns d.ready);
    }
