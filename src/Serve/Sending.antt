-- ===== src/Serve/Sending.antt =====
-- A turn of the sending thread that sends the only packet in full.
use linux_communication.Common.{
  ℕ, ◌-◌, ◌≡◌, ◌≢◌, refl, sym, ap, ◌∙◌, arith, List, [], ◌∷◌, false, some, none, is_pos, pos,
  update, update_self, update_ne, Bool, not, if◌then◌else◌, if_true, if_false, ◌==◌,
}
use linux_communication.Packet.{pkg_len}
use linux_communication.Memory.{Block, free_memory-live}
use linux_communication.Socket.{
  Connection, Socket, Location, in_block, put_connection, put_connection_twice,
}
use linux_communication.Receive.Phases.{HeaderPart}
use linux_communication.Send.{
  sent_some, send_one, send_pass, after_send, start_send, ser_send_msg_queue_turn,
}

-- The state after the packet in the block `q` has been sent in full: `send` was called once, with the
-- descriptor of the connection, the start of the packet and its length `n`.
pub record Sent (c q n : ℕ) (u w : Socket) : Type 0 where
  pub emptied : w.msg_send_queue ≡ []
  pub freed : w.heap.cells q ≡ none
  pub others : (i : ℕ) → i ≢ q → w.heap.cells i ≡ u.heap.cells i
  pub no_fault : w.heap.fault ≡ u.heap.fault
  pub recv_queue : w.msg_recv_queue ≡ u.msg_recv_queue
  pub called : w.send_calls ≡ ((u.conns c).sock_fd, in_block q 0, n) ∷ u.send_calls
  pub idle : (w.conns c).throw_send_count ≡ pos 0
  pub same_recv : HeaderPart c [] u → HeaderPart c [] w

-- The connection while the packet in `q` is sent, and after it.
abbrev sending_of : ℕ → Block → Connection → Connection
sending_of q m k = record (start_send q m k) { throw_send_count = pos 0 }

-- What is given to `send`.
abbrev call_of : ℕ → Block → Connection → ℕ × Location × ℕ
call_of q m k = (k.sock_fd, in_block q 0, pkg_len m.payload)

after_send-whole :
    (q n : ℕ) (m : Block) (u : Socket)
    → u.heap.cells q ≡ some m
    → pkg_len m.payload ≡ n
    → after_send m.conn (sent_some n) (put_connection m.conn (start_send q m (u.conns m.conn)) u)
      ≡ put_connection m.conn
          (sending_of q m (u.conns m.conn))
          (record u { heap = record (u.heap) { cells = update u.heap.cells q none } })
unfolding after_send
after_send-whole q n m u cell size =
    let c = m.conn in
    let j : Connection = start_send q m (u.conns c) in
    let k : Connection = sending_of q m (u.conns c) in
    rw (update_self u.conns c j) (
      if_true (n == pkg_len m.payload) _ _ (ground (arith, size))
      ∙ ap (λ h. put_connection c k (put_connection c j (record u { heap = h })))
          (free_memory-live q m u.heap cell)
      ∙ put_connection_twice c j k
          (record u { heap = record (u.heap) { cells = update u.heap.cells q none } }))

send_one-whole :
    (q n : ℕ) (m : Block) (u : Socket)
    → u.heap.cells q ≡ some m
    → (u.conns m.conn).curr_sequence ≡ m.seq
    → is_pos (u.conns m.conn).throw_send_count ≡ false
    → pkg_len m.payload ≡ n
    → send_one (sent_some n) q (some m) u ≡ (
      false,
      put_connection m.conn (sending_of q m (u.conns m.conn)) (record u {
        heap = record (u.heap) { cells = update u.heap.cells q none };
        send_calls = call_of q m (u.conns m.conn) ∷ u.send_calls;
      }),
    )
unfolding send_one
send_one-whole q n m u cell fresh idle size =
    if_false (not ((u.conns m.conn).curr_sequence == m.seq)) _ _ (ground (arith, fresh))
    ∙ if_false (is_pos (u.conns m.conn).throw_send_count) _ _ idle
    ∙ ap (λ (w : Socket). (false, w))
        (after_send-whole q n m
          (record u { send_calls = call_of q m (u.conns m.conn) ∷ u.send_calls }) cell size)

-- The turn by what the pass leaves, and by what a round leaves.
abbrev queued_after : List ℕ × Socket → Socket
queued_after (rest, t) = record t { msg_send_queue = rest }

abbrev one_after : ℕ → Bool × Socket → Socket
one_after q (stays, t) = record t { msg_send_queue = if stays then q ∷ [] else [] }

pub turn-Sent :
    (q n : ℕ) (m : Block) (u : Socket)
    → u.msg_send_queue ≡ q ∷ []
    → u.heap.cells q ≡ some m
    → (u.conns m.conn).curr_sequence ≡ m.seq
    → is_pos (u.conns m.conn).throw_send_count ≡ false
    → pkg_len m.payload ≡ n
    → Sent m.conn q n u (ser_send_msg_queue_turn (λ p. sent_some n) u)
unfolding ser_send_msg_queue_turn send_pass
turn-Sent q n m u queue cell fresh idle size =
    let c = m.conn in
    let k : Connection = sending_of q m (u.conns c) in
    let v : Socket = record u { send_queue_sem = u.send_queue_sem - 1 } in
    let w : Socket = put_connection c k (record v {
      heap = record (u.heap) { cells = update u.heap.cells q none };
      send_calls = call_of q m (u.conns c) ∷ u.send_calls;
    }) in
    let e = update_self u.conns c k in
    let turned : ser_send_msg_queue_turn (λ p. sent_some n) u ≡ record w { msg_send_queue = [] } =
      ap (λ l. queued_after (send_pass (λ p. sent_some n) l v)) queue
      ∙ ap (λ o. one_after q (send_one (sent_some n) q o v)) cell
      ∙ ap (one_after q) (send_one-whole q n m v cell fresh idle size) in
    rw turned (record {
      emptied = refl;
      freed = update_self u.heap.cells q none;
      others = λ i ne. update_ne u.heap.cells q i none (λ e. ne (sym e));
      no_fault = refl;
      recv_queue = refl;
      called = ap (λ k. ((u.conns c).sock_fd, in_block q 0, k) ∷ u.send_calls) size;
      idle = ap (λ x. x.throw_send_count) e;
      same_recv = λ h. record {
        stat = rw e h.stat;
        location = rw e h.location;
        left = rw e h.left;
        wants = rw e h.wants;
        stored = refl;
        size = rw e h.size;
      };
    })
