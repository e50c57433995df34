-- ===== src/Serve/Client.antt =====
-- A client from its arrival to the reply to its first packet.
use linux_communication.Common.{
  ℕ, ◌^◌, ◌<◌, ◌≡◌, refl, ◌∙◌, ap, arith, List, [], ◌∷◌, ◌++◌, length, true, some, is_pos,
  length-replicate, inl, inr,
}
use linux_communication.Packet.{pkg_header_length, pkg_head_info_size}
use linux_communication.Socket.{Socket, Location, in_block}
use linux_communication.Pool.{ser_get_free_connection}
use linux_communication.Pool.Invariant.{IsPooled}
use linux_communication.Receive.{received, read_events}
use linux_communication.Receive.Phases.{HeaderPart}
use linux_communication.Receive.Reassembly.{Pieces, arrivals, joined}
use linux_communication.Logic.{struct_register_size}
use linux_communication.Send.{sent_some, ser_send_msg_queue_turn}
use linux_communication.Accept.{AcceptResult, accepted, Answers, ser_event_accept}
use linux_communication.Accept.Clients.{Serves, IsReady, ser_event_accept-Serves}
use linux_communication.Serve.{handle_next}
use linux_communication.Serve.Handling.{IsRegistration}
use linux_communication.Serve.Request.{Served, registration-Served}

ready-HeaderPart :
    (s : Socket) (c : ℕ) (t : Socket)
    → length (s.conns c).pkg_head_info ≡ pkg_head_info_size
    → IsReady s c t
    → HeaderPart c [] t
ready-HeaderPart s c t size r = record {
  stat = inl r.at_start;
  location = r.into_head;
  left = omega (arith, r.wants_header);
  wants = omega (arith, r.wants_header);
  stored = refl;
  size = elim r.head [
    | inl e ↦ ap length e ∙ size
    | inr e ↦ ap length e ∙ length-replicate {A = ℕ} pkg_head_info_size 0
  ];
}

with_fd :
    (f g q : ℕ) (l m : List (ℕ × Location × ℕ))
    → l ≡ (f, in_block q 0, 65008) ∷ m
    → f ≡ g
    → l ≡ (g, in_block q 0, 65008) ∷ m
with_fd f g q l m e h = cc

-- From `accept` to the reply. In a well-formed pool whose objects have their header arrays whole,
-- with both queues empty: where `accept4` returns a client and `epoll_ctl` takes it, the client has
-- a connection; and the registration that it then sends, with a right checksum, its header cut into
-- any pieces and its body in one piece, goes all the way: a thread takes it and queues the reply,
-- the next block of the heap; and a turn of the sending thread in which `send` takes 65008 bytes
-- calls it once, with the descriptor of the client, the start of the reply and these 65008 bytes.
pub client-Served :
    (junk : ℕ → ℕ) (now listener : ℕ) (answers : Answers) (fd : ℕ) (addr : List ℕ)
    (rs : List AcceptResult) (ps : Pieces) (b : ℕ) (bs : List ℕ) (s : Socket)
    → ((i : ℕ) → junk i < 2 ^ 8)
    → IsPooled s
    → answers.registers ≡ true
    → ((d : ℕ) → length (s.conns d).pkg_head_info ≡ pkg_head_info_size)
    → s.msg_recv_queue ≡ []
    → s.msg_send_queue ≡ []
    → length (joined ps) ≡ pkg_header_length
    → length (b ∷ bs) ≡ struct_register_size
    → IsRegistration (joined ps ++ (b ∷ bs))
    → let c = (ser_get_free_connection fd now s).0 in
      (t : Socket) × (ser_event_accept now listener answers true (accepted fd addr ∷ rs) s
        ≡ some (true, t))
      × Serves s c fd addr t
      × (let u = read_events junk now c (arrivals ps ++ (received b bs ∷ [])) t in
          let v = handle_next junk now u in
          let w = ser_send_msg_queue_turn (λ p. sent_some 65008) v in
          Served junk c (joined ps ++ (b ∷ bs)) t u v w
          × (w.send_calls ≡ (fd, in_block u.heap.next 0, 65008) ∷ v.send_calls))
client-Served junk now listener answers fd addr rs ps b bs s bytes p ok sizes rq sq l8 l100 is =
    let c = (ser_get_free_connection fd now s).0 in
    let (t, e, q, idle, k, r) = ser_event_accept-Serves now listener answers fd addr rs s p ok in
    let z =
      registration-Served junk now c ps b bs t bytes (ready-HeaderPart s c t (sizes c) r)
        (r.same_queues.0 ∙ rq) (r.same_queues.1 ∙ sq) (ap is_pos r.idle) l8 l100 is in
    (t, e, k, (z, with_fd _ _ _ _ _ z.sent.called (z.same_fd ∙ k.has_fd)))
