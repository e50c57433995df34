-- ===== src/Serve/Handling.antt =====
-- What a thread makes of a registration.
use linux_communication.Common.{
  ℕ, ◌-◌, ◌<◌, ◌≡◌, ◌≢◌, refl, sym, ap, ap₂, ◌∙◌, arith, List, [], ◌∷◌, ◌++◌, true, false, Option,
  some, none, update, update_self, update_ne, not, ◌==◌,
}
use linux_communication.Packet.{pkg_len, msg_code, pkg_header_length}
use linux_communication.Memory.{Block, malloc_memory, free_memory, free_memory-live}
use linux_communication.Socket.{Socket}
use linux_communication.Logic.{
  crc_passes, register_pkg, junk_body, reply_length, register, queue_reply, ser_in_send_queue,
  call_handler, ser_thread_process_message, struct_register_size,
}
use linux_communication.Logic.Dispatch.{by_command, process_message_dispatches}
use linux_communication.Serve.{handle_block, handle_queue, handle_next}

-- The reply to a registration.
abbrev pub reply_of : (ℕ → ℕ) → List ℕ
reply_of junk = register_pkg (junk_body junk reply_length)

-- A registration with a right checksum.
pub record IsRegistration (pkg : List ℕ) : Type 0 where
  pub checked : crc_passes pkg ≡ true
  pub coded : msg_code pkg ≡ 5
  pub counted : pkg_len pkg ≡ 108

-- A registration of connection `c`, the only packet in the queue, in the block `p`.
pub record Received (c p : ℕ) (pkg : List ℕ) (t : Socket) : Type 0 where
  pub queue : t.msg_recv_queue ≡ p ∷ []
  pub packet :
      t.heap.cells p ≡ some (record { conn = c; seq = (t.conns c).curr_sequence; payload = pkg })
  pub nothing_to_send : t.msg_send_queue ≡ []
  pub after : p < t.heap.next

-- The reply in the block `q` and in the queue for sending.
pub record Answered (junk : ℕ → ℕ) (c p q : ℕ) (t u : Socket) : Type 0 where
  pub taken : u.msg_recv_queue ≡ []
  pub freed : u.heap.cells p ≡ none
  pub queued : u.msg_send_queue ≡ q ∷ []
  pub reply :
      u.heap.cells q
      ≡ some (record { conn = c; seq = (t.conns c).curr_sequence; payload = reply_of junk })
  pub others : (i : ℕ) → i ≢ p → i ≢ q → u.heap.cells i ≡ t.heap.cells i
  pub no_fault : u.heap.fault ≡ t.heap.fault
  pub conns : u.conns ≡ t.conns

counted-bare : (n : ℕ) → n ≡ 108 → (n == pkg_header_length) ≡ false
counted-bare n e = ground (arith, e)

process_registration :
    (junk : ℕ → ℕ) (now : ℕ) (m : Block) (s : Socket)
    → IsRegistration m.payload
    → (s.conns m.conn).curr_sequence ≡ m.seq
    → ser_thread_process_message junk now m s ≡ (register junk m true struct_register_size s).0
unfolding call_handler
process_registration junk now m s h fresh =
    process_message_dispatches junk now m s (record { checked = h.checked; fresh = fresh })
    ∙ ap (by_command junk now m s) h.coded
    ∙ ap₂ (λ b n. (register junk m b n s).0) (ap not (counted-bare (pkg_len m.payload) h.counted))
        (ap (λ (n : ℕ). n - pkg_header_length) h.counted)

-- The state after the handler of registrations.
replied : (ℕ → ℕ) → Block → Socket → Socket
replied junk m s = queue_reply m (reply_of junk) s

handle_next-replied :
    (junk : ℕ → ℕ) (now c p : ℕ) (pkg : List ℕ) (t : Socket)
    → IsRegistration pkg
    → Received c p pkg t
    → let m : Block = record { conn = c; seq = (t.conns c).curr_sequence; payload = pkg } in
      let u = replied junk m (record t { msg_recv_queue = [] }) in
      handle_next junk now t
      ≡ record u { heap = record (u.heap) { cells = update u.heap.cells p none } }
unfolding handle_next handle_queue handle_block replied register queue_reply ser_in_send_queue
    malloc_memory
handle_next-replied junk now c p pkg t h r =
    let m : Block = record { conn = c; seq = (t.conns c).curr_sequence; payload = pkg } in
    let v : Socket = record t { msg_recv_queue = [] } in
    let u = replied junk m v in
    ap (λ q. handle_queue junk now q t) r.queue
    ∙ ap (λ o. handle_block junk now p o v) r.packet
    ∙ ap (λ (w : Socket). record w { heap = free_memory (some p) w.heap })
        (process_registration junk now m v h refl)
    ∙ ap (λ k. record u { heap = k })
        (free_memory-live p m u.heap (
          update_ne t.heap.cells t.heap.next p (some (record m { payload = reply_of junk }))
            (λ e. absurd (omega (arith, r.after, e)))
          ∙ r.packet))

pub handle_next-Answered :
    (junk : ℕ → ℕ) (now c p : ℕ) (pkg : List ℕ) (t : Socket)
    → IsRegistration pkg
    → Received c p pkg t
    → Answered junk c p t.heap.next t (handle_next junk now t)
unfolding replied queue_reply ser_in_send_queue malloc_memory
handle_next-Answered junk now c p pkg t h r =
    let answer : Option Block =
      some (record { conn = c; seq = (t.conns c).curr_sequence; payload = reply_of junk }) in
    let cells : ℕ → Option Block = update t.heap.cells t.heap.next answer in
    let differs : p ≢ t.heap.next = λ e. absurd (omega (arith, r.after, e)) in
    rw (handle_next-replied junk now c p pkg t h r) (record {
      taken = refl;
      freed = update_self cells p none;
      queued = ap (λ q. q ++ (t.heap.next ∷ [])) r.nothing_to_send;
      reply =
          update_ne cells p t.heap.next none differs ∙ update_self t.heap.cells t.heap.next answer;
      others = λ i np nq.
          update_ne cells p i none (λ e. np (sym e))
          ∙ update_ne t.heap.cells t.heap.next i answer (λ e. nq (sym e));
      no_fault = refl;
      conns = refl;
    })
