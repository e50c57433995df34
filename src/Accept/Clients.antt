-- ===== src/Accept/Clients.antt =====
-- What becomes of a new client's connection.
use linux_communication.Common.{
  ℕ, ◌+◌, ◌%◌, ◌^◌, ◌≡◌, refl, arith, List, ◌∷◌, true, false, some, if_true, ◌∙◌, ap, update_self,
  not, ◌==◌, pos, ◌⊎◌, inl, inr, replicate,
}
use linux_communication.Packet.{pkg_hd_init, pkg_header_length, pkg_head_info_size}
use linux_communication.Socket.{head_info, Socket, read_request, write_request, put_connection}
use linux_communication.Pool.{ser_get_free_connection, ser_close_connection}
use linux_communication.Pool.Invariant.{
  IsPooled, in_use, Takes, give_back-IsPooled, ser_get_free_connection-Takes,
}
use linux_communication.Timer.{add_to_timer_queue, insert_entry}
use Prim.Native.Nat.{bit_or}
use linux_communication.Epoll.{epollin, epollrdhup, ser_epoll_oper_event}
use linux_communication.Accept.{
  AcceptResult, accepted, not_supported, Answers, enlist, equip, register_client, make_nonblocking,
  take_client, ser_event_accept,
}

-- `c` serves a client on the descriptor `fd`.
pub record Serves (s : Socket) (c fd : ℕ) (addr : List ℕ) (t : Socket) : Type 0 where
  pub used : in_use t c ≡ 1
  pub has_fd : (t.conns c).sock_fd ≡ fd
  pub address : (t.conns c).sock_addr ≡ addr
  pub reads : (t.conns c).r_handler ≡ read_request
  pub writes : (t.conns c).w_handler ≡ write_request
  pub events : (t.conns c).epoll_events ≡ 0x2001
  pub online : t.online_user_count ≡ (s.online_user_count + 1) % 2 ^ 32

-- It is ready for the first packet of its client, and no packet has moved.
pub record IsReady (s : Socket) (c : ℕ) (t : Socket) : Type 0 where
  pub at_start : (t.conns c).recv_stat ≡ pkg_hd_init
  pub wants_header : (t.conns c).recv_length ≡ pkg_header_length
  pub into_head : (t.conns c).recv_location ≡ head_info 0
  pub idle : (t.conns c).throw_send_count ≡ pos 0
  pub head :
      ((t.conns c).pkg_head_info ≡ (s.conns c).pkg_head_info)
      ⊎ ((t.conns c).pkg_head_info ≡ replicate pkg_head_info_size 0)
  pub same_queues : (t.msg_recv_queue ≡ s.msg_recv_queue) × (t.msg_send_queue ≡ s.msg_send_queue)

-- What the end of the round does not change.
record Enlists (s t : Socket) : Type 0 where
  conns : t.conns ≡ s.conns
  all : t.connection_list ≡ s.connection_list
  free : t.free_connection_list ≡ s.free_connection_list
  recy : t.recy_connection_list ≡ s.recy_connection_list
  next : t.next_conn ≡ s.next_conn
  online : t.online_user_count ≡ (s.online_user_count + 1) % 2 ^ 32
  queues : (t.msg_recv_queue ≡ s.msg_recv_queue) × (t.msg_send_queue ≡ s.msg_send_queue)

enlist-Enlists :
    (now listener : ℕ) (answers : Answers) (c : ℕ) (s : Socket)
    → Enlists s (enlist now listener answers c s)
unfolding enlist add_to_timer_queue insert_entry
enlist-Enlists now listener answers c s = record {
  conns = ground arith;
  all = ground arith;
  free = ground arith;
  recy = ground arith;
  next = ground arith;
  online = ground arith;
  queues = (ground arith, ground arith);
}

IsPooled-Enlists : {s t : Socket} → Enlists s t → IsPooled s → IsPooled t
IsPooled-Enlists e p = record {
  parts = λ c. rw (e.all, e.free, e.recy) (p.parts c);
  once = λ c. rw e.all (p.once c);
  fresh = λ c h. rw e.all (p.fresh c (rw e.next at h));
}

-- The fields of the connection `c` that what follows `ser_get_free_connection` leaves alone.
record Leaves (c : ℕ) (s t : Socket) : Type 0 where
  stat : (t.conns c).recv_stat ≡ (s.conns c).recv_stat
  left : (t.conns c).recv_length ≡ (s.conns c).recv_length
  location : (t.conns c).recv_location ≡ (s.conns c).recv_location
  flight : (t.conns c).throw_send_count ≡ (s.conns c).throw_send_count
  head : (t.conns c).pkg_head_info ≡ (s.conns c).pkg_head_info
  queues : (t.msg_recv_queue ≡ s.msg_recv_queue) × (t.msg_send_queue ≡ s.msg_send_queue)

Leaves-IsReady : (fd c : ℕ) (s t u : Socket) → Takes fd s c t → Leaves c t u → IsReady s c u
Leaves-IsReady fd c s t u h l = record {
  at_start = l.stat ∙ h.at_start;
  wants_header = l.left ∙ h.wants_header;
  into_head = l.location ∙ h.into_head;
  idle = l.flight ∙ h.idle;
  head = elim h.head [ inl e ↦ inl (l.head ∙ e) | inr e ↦ inr (l.head ∙ e) ];
  same_queues = (l.queues.0 ∙ h.same_queues.0, l.queues.1 ∙ h.same_queues.1);
}

module _ (now listener : ℕ) (answers : Answers) where
  -- The connection and the state after `ser_epoll_oper_event`.
  abbrev registered : ℕ → Socket → Socket
  registered c s =
      let t = equip now listener answers c s in
      put_connection c (record (t.conns c) { epoll_events = bit_or epollin epollrdhup }) t

  register_client-enlist :
      (c : ℕ) (s : Socket)
      → answers.registers ≡ true
      → register_client now listener answers c s ≡ enlist now listener answers c (registered c s)
  unfolding register_client ser_epoll_oper_event
  register_client-enlist c s ok = if_true answers.registers _ _ ok

  enlist-Serves :
      (c : ℕ) (s : Socket)
      → IsPooled s
      → in_use s c ≡ 1
      → let t = enlist now listener answers c (registered c s) in
        IsPooled t × Serves s c (s.conns c).sock_fd (s.conns c).sock_addr t
  enlist-Serves c s p u =
      let e = enlist-Enlists now listener answers c (registered c s) in
      (
        IsPooled-Enlists e (record { parts = p.parts; once = p.once; fresh = p.fresh }),
        record {
          used = rw (e.all, e.free, e.recy) u;
          has_fd = rw e.conns (ground arith);
          address = rw e.conns (ground arith);
          reads = rw e.conns (ground arith);
          writes = rw e.conns (ground arith);
          events = rw e.conns (ground arith);
          online = e.online;
        },
      )

  enlist-Leaves :
      (c : ℕ) (addr : List ℕ) (s : Socket)
      → let w = put_connection c (record (s.conns c) { sock_addr = addr }) s in
        Leaves c s (enlist now listener answers c (registered c w))
  enlist-Leaves c addr s =
      let w : Socket = put_connection c (record (s.conns c) { sock_addr = addr }) s in
      let e = enlist-Enlists now listener answers c (registered c w) in
      record {
        stat = rw e.conns (ground arith);
        left = rw e.conns (ground arith);
        location = rw e.conns (ground arith);
        flight = rw e.conns (ground arith);
        head = rw e.conns (ground arith);
        queues = e.queues;
      }

-- A client that `accept4` returns gets a connection that was not in use; if `epoll_ctl` accepts it,
-- it is in use from then on, with the client's descriptor and address and the two handlers, asks
-- for EPOLLIN and EPOLLRDHUP, and one more user is counted, in 32 bits that wrap around; it waits for
-- the header of a packet, has none in flight, and both queues are as before. The pool stays
-- well-formed.
pub ser_event_accept-Serves :
    (now listener : ℕ) (answers : Answers) (fd : ℕ) (addr : List ℕ) (rs : List AcceptResult)
    (s : Socket)
    → IsPooled s
    → answers.registers ≡ true
    → let c = (ser_get_free_connection fd now s).0 in
      (t : Socket) × (ser_event_accept now listener answers true (accepted fd addr ∷ rs) s
        ≡ some (true, t))
      × IsPooled t
      × (in_use s c ≡ 0)
      × Serves s c fd addr t
      × IsReady s c t
unfolding ser_event_accept take_client make_nonblocking register_client
ser_event_accept-Serves now listener answers fd addr rs s p ok =
    let (c, t) = ser_get_free_connection fd now s in
    let h = ser_get_free_connection-Takes fd now s p in
    let w = put_connection c (record (t.conns c) { sock_addr = addr }) t in
    let (q, k) =
      enlist-Serves now listener answers c w
        (record { parts = h.pooled.parts; once = h.pooled.once; fresh = h.pooled.fresh })
        h.is_taken in
    (
      _,
      refl,
      rw (register_client-enlist now listener answers c w ok) q,
      h.was_idle,
      rw (register_client-enlist now listener answers c w ok) (record {
        used = k.used;
        has_fd = k.has_fd ∙ ap (λ x. x.sock_fd) (update_self t.conns c _) ∙ h.has_fd;
        address = k.address ∙ ap (λ x. x.sock_addr) (update_self t.conns c _);
        reads = k.reads;
        writes = k.writes;
        events = k.events;
        online = k.online ∙ ap (λ (n : ℕ). (n + 1) % 2 ^ 32) h.same_online;
      }),
      rw (register_client-enlist now listener answers c w ok)
          (Leaves-IsReady fd c s t _ h (enlist-Leaves now listener answers c addr t)),
    )

close-in_use :
    (c : ℕ) (s : Socket) → IsPooled s → in_use s c ≡ 1 → in_use (ser_close_connection c s) c ≡ 0
unfolding ser_close_connection
close-in_use c s p u =
    (give_back-IsPooled 0 c s p u).1 c ∙ if_true (c == c) 0 (in_use s c) (ground arith)

make_nonblocking-closes :
    (now listener : ℕ) (answers : Answers) (c : ℕ) (s : Socket)
    → answers.nonblocking ≡ false
    → make_nonblocking now listener answers false c s ≡ ser_close_connection c s
unfolding make_nonblocking
make_nonblocking-closes now listener answers c s blocks =
    if_true (not answers.nonblocking) _ _ (ap not blocks)

-- Where `accept4` is not supported and the socket of `accept` cannot be made non-blocking, the
-- connection is closed and given back to the pool, but its closed descriptor is registered with
-- epoll all the same, with the handlers of a client, and one more user is counted.
pub ser_event_accept_closed :
    (now listener : ℕ) (answers : Answers) (fd : ℕ) (addr : List ℕ) (rs : List AcceptResult)
    (s : Socket)
    → IsPooled s
    → answers.nonblocking ≡ false
    → answers.registers ≡ true
    → let c = (ser_get_free_connection fd now s).0 in
      (t : Socket) × (ser_event_accept now listener answers true
          (not_supported ∷ accepted fd addr ∷ rs)
          s
        ≡ some (false, t))
      × (in_use t c ≡ 0)
      × ((t.conns c).r_handler ≡ read_request)
      × ((t.conns c).epoll_events ≡ 0x2001)
unfolding ser_event_accept take_client
ser_event_accept_closed now listener answers fd addr rs s p blocks ok =
    let (c, t) = ser_get_free_connection fd now s in
    let h = ser_get_free_connection-Takes fd now s p in
    let w = put_connection c (record (t.conns c) { sock_addr = addr }) t in
    let v = ser_close_connection c w in
    let e = enlist-Enlists now listener answers c (registered now listener answers c v) in
    (
      enlist now listener answers c (registered now listener answers c v),
      ap (λ x. some (false, register_client now listener answers c x))
            (make_nonblocking-closes now listener answers c w blocks)
          ∙ ap (λ x. some (false, x)) (register_client-enlist now listener answers c v ok),
      rw (e.all, e.free, e.recy)
          (close-in_use c w
            (record { parts = h.pooled.parts; once = h.pooled.once; fresh = h.pooled.fresh })
            h.is_taken),
      rw e.conns (ground arith),
      rw e.conns (ground arith),
    )
