-- ===== src/Send/Retry.antt =====
-- The sending of one packet: repeated calls of `send`, and the write events that follow a full
-- buffer.
use linux_communication.Common.{
  ℕ, zero, suc, ◌+◌, ◌-◌, ◌^◌, ◌<◌, ◌≡◌, ◌≢◌, refl, ◌∙◌, ap, arith, List, [], ◌∷◌, ◌++◌, true, none,
  some, replicate, dec, update_self, ◌⊎◌, inl, inr,
}
use linux_communication.Memory.{Block, free_memory}
use linux_communication.Socket.{Socket, in_block, put_connection}
use linux_communication.Receive.{Errno, eagain, eintr, econnreset, other_errno, advance_location}
use Prim.Native.Nat.{bit_and}
use linux_communication.Common.Bits.{and-and-four}
use linux_communication.Epoll.{epollout, new_events}
use linux_communication.Send.{
  SendResult, sent, send_error, SendOutcome, sent_some, sent_none, buffer_full, send_failed,
  ser_send_pkg, ser_write_request_handler, finish_write,
}

-- What the comment above `ser_send_pkg` promises for a result of `send` other than EINTR.
pub data Reports : SendResult → SendOutcome → Type 0 where
  some_bytes : (n : ℕ) → 0 < n → Reports (sent n) (sent_some n)
  no_byte : Reports (sent 0) sent_none
  full : Reports (send_error eagain) buffer_full
  broken : (e : Errno) → e ≢ eagain → e ≢ eintr → Reports (send_error e) send_failed

report_once :
    (r : SendResult) (o : SendOutcome) (rest : List SendResult)
    → Reports r o
    → ser_send_pkg (r ∷ rest) ≡ some (o, rest)
unfolding ser_send_pkg
report_once r o rest (some_bytes zero h) = absurd (omega arith)
report_once r o rest (some_bytes (suc n) h) = refl
report_once r o rest no_byte = refl
report_once r o rest full = refl
report_once r o rest (broken eagain h k) = absurd (h refl)
report_once r o rest (broken eintr h k) = absurd (k refl)
report_once r o rest (broken econnreset h k) = refl
report_once r o rest (broken other_errno h k) = refl

-- `ser_send_pkg` calls `send` again after each interruption by a signal, however many there are,
-- returns at the first other result what its comment says of it, and makes no call after that.
pub ser_send_pkg_retries :
    (k : ℕ) (r : SendResult) (o : SendOutcome) (rest : List SendResult)
    → Reports r o
    → ser_send_pkg (replicate k (send_error eintr) ++ (r ∷ rest)) ≡ some (o, rest)
unfolding ser_send_pkg
ser_send_pkg_retries zero r o rest h = report_once r o rest h
ser_send_pkg_retries (suc k) r o rest h = ser_send_pkg_retries k r o rest h

-- Write events whose `send` sends the given numbers of bytes.
pub write_events : ℕ → List ℕ → Socket → Socket
write_events c [] s = s
write_events c (n ∷ ns) s = write_events c ns (ser_write_request_handler c (sent_some n) s)

abbrev pub total : List ℕ → ℕ
total [] = 0
total (n ∷ ns) = n + total ns

abbrev AllPositive : List ℕ → Type 0
AllPositive [] = Unit {0}
AllPositive (n ∷ ns) = (0 < n) × AllPositive ns

-- `left` bytes of the packet in block `p` are still to be sent on connection `c`.
pub record IsSending (c p left : ℕ) (s : Socket) : Type 0 where
  pub packet : (s.conns c).send_pkg_data ≡ some p
  pub live : (b : Block) × (s.heap.cells p ≡ some b)
  pub length_left : (s.conns c).send_length ≡ left
  pub bounded : left < 2 ^ 32

-- The packet in block `p` has been sent, from the state `s` on.
pub record Sends (c p : ℕ) (s t : Socket) : Type 0 where
  pub freed : t.heap.cells p ≡ none
  pub others : (q : ℕ) → q ≢ p → t.heap.cells q ≡ s.heap.cells q
  pub no_fault : t.heap.fault ≡ s.heap.fault
  pub released : (t.conns c).throw_send_count ≡ dec (s.conns c).throw_send_count
  pub unregistered : bit_and (t.conns c).epoll_events epollout ≡ 0
  pub other_events : (t.conns c).epoll_events ≡ bit_and (s.conns c).epoll_events 0xfffffffb
  pub woken : t.send_queue_sem ≡ s.send_queue_sem + 1

last-events :
    (c p n : ℕ) (s : Socket)
    → IsSending c p n s
    → ((ser_write_request_handler c (sent_some n) s).conns c).epoll_events
      ≡ bit_and (s.conns c).epoll_events 0xfffffffb
unfolding ser_write_request_handler finish_write free_memory new_events
last-events c p n s h = ground (arith, h.packet, h.live.1, h.length_left)

last_piece :
    (c p n : ℕ) (s : Socket)
    → IsSending c p n s
    → Sends c p s (ser_write_request_handler c (sent_some n) s)
unfolding ser_write_request_handler finish_write free_memory
last_piece c p n s h = record {
  freed = ground (arith, h.packet, h.live.1, h.length_left);
  others = λ q ne. ground (arith, h.packet, h.live.1, h.length_left);
  no_fault = ground (arith, h.packet, h.live.1, h.length_left);
  released = ground (arith, h.packet, h.live.1, h.length_left);
  unregistered =
      ap (λ e. bit_and e epollout) (last-events c p n s h) ∙ and-and-four (s.conns c).epoll_events;
  other_events = last-events c p n s h;
  woken = ground (arith, h.packet, h.live.1, h.length_left);
}

one_piece :
    (c p n left : ℕ) (s : Socket)
    → IsSending c p left s
    → 0 < n
    → n < left
    → ser_write_request_handler c (sent_some n) s
      ≡ put_connection c
          (record (s.conns c) {
            send_location = advance_location (s.conns c).send_location n;
            send_length = left - n;
          })
          s
unfolding ser_write_request_handler
one_piece c p n left s h k l = ground (arith, h.length_left, h.bounded)

-- After pieces of `n` bytes in all, and some more to go.
pub record Advances (c p n : ℕ) (s t : Socket) : Type 0 where
  pub heap : t.heap ≡ s.heap
  pub length_left : (t.conns c).send_length + n ≡ (s.conns c).send_length
  pub location :
      (off : ℕ)
      → (s.conns c).send_location ≡ in_block p off
      → (t.conns c).send_location ≡ in_block p (off + n)
  pub counted : (t.conns c).throw_send_count ≡ (s.conns c).throw_send_count
  pub registered : (t.conns c).epoll_events ≡ (s.conns c).epoll_events
  pub packet : (t.conns c).send_pkg_data ≡ (s.conns c).send_pkg_data
  pub sem : t.send_queue_sem ≡ s.send_queue_sem

one_piece-Advances :
    (c p n left : ℕ) (s : Socket)
    → IsSending c p left s
    → 0 < n
    → n < left
    → Advances c p n s (ser_write_request_handler c (sent_some n) s)
unfolding advance_location
one_piece-Advances c p n left s h k l = rw (one_piece c p n left s h k l) (record {
  heap = refl;
  length_left = rw (update_self s.conns c _) (omega (arith, h.length_left));
  location = λ off e. ground (arith, e);
  counted = ground arith;
  registered = ground arith;
  packet = ground arith;
  sem = refl;
})

IsSending-Advances :
    {c p n left : ℕ} {s t : Socket}
    → Advances c p n s t
    → IsSending c p left s
    → IsSending c p (left - n) t
IsSending-Advances a h = record {
  packet = a.packet ∙ h.packet;
  live = (h.live.0, rw a.heap h.live.1);
  length_left = omega (arith, a.length_left, h.length_left);
  bounded = omega (arith, h.bounded);
}

Sends-Advances : {c p n : ℕ} {s t u : Socket} → Advances c p n s t → Sends c p t u → Sends c p s u
Sends-Advances a k = record {
  freed = k.freed;
  others = λ q ne. rw (← a.heap) (k.others q ne);
  no_fault = k.no_fault ∙ ap (λ h. h.fault) a.heap;
  released = k.released ∙ ap dec a.counted;
  unregistered = k.unregistered;
  other_events = k.other_events ∙ ap (λ e. bit_and e 0xfffffffb) a.registered;
  woken = k.woken ∙ ap (λ (m : ℕ). m + 1) a.sem;
}

-- However the kernel cuts a packet: when the write events have sent as many bytes as were left,
-- the block of the packet is freed, once, and nothing else on the heap; `mEpollEvents` has EPOLLOUT
-- no longer and its other 31 bits as before; the connection is released for the next packet; and
-- the semaphore of the sending thread is one more, the calls of `epoll_ctl` and `sem_post` taken to
-- succeed.
pub write_events-Sends :
    (c p left : ℕ) (ns : List ℕ) (s : Socket)
    → IsSending c p left s
    → 0 < left
    → AllPositive ns
    → total ns ≡ left
    → Sends c p s (write_events c ns s)
unfolding write_events
write_events-Sends c p left [] s h k a e = absurd (omega (arith, e))
write_events-Sends c p left (n ∷ []) s h k a e =
    let whole : left ≡ n = omega (arith, e) in last_piece c p n s (rw whole at h)
write_events-Sends c p left (n ∷ (m ∷ ns)) s h k a e =
    let step = one_piece-Advances c p n left s h a.0 (omega (arith, e, a.1.0)) in
    Sends-Advances step (
      write_events-Sends c p (left - n) (m ∷ ns) (ser_write_request_handler c (sent_some n) s)
        (IsSending-Advances step h) (omega (arith, e, a.1.0)) a.1 (omega (arith, e)))

fails_finish :
    (c : ℕ) (o : SendOutcome) (s : Socket)
    → (o ≡ sent_none) ⊎ (o ≡ send_failed)
    → ser_write_request_handler c o s ≡ finish_write c s
unfolding ser_write_request_handler
fails_finish c o s (inl e) = ap (λ x. ser_write_request_handler c x s) e
fails_finish c o s (inr e) = ap (λ x. ser_write_request_handler c x s) e

finish_twice :
    (c p left : ℕ) (s : Socket)
    → IsSending c p left s
    → let t = finish_write c s in
      ((t.conns c).epoll_events ≡ (s.conns c).epoll_events)
      × (t.heap.cells p ≡ none)
      × ((finish_write c t).heap.fault ≡ true)
unfolding finish_write free_memory
finish_twice c p left s h =
    (ground arith, ground (arith, h.packet, h.live.1), ground (arith, h.packet, h.live.1))

-- After a write event whose `send` fails or sends nothing, the connection still asks for write
-- events and still points to its packet, whose block has been freed: a second such event frees it
-- again, which is a fault.
pub write_failure_twice :
    (c p left : ℕ) (o q : SendOutcome) (s : Socket)
    → IsSending c p left s
    → (o ≡ sent_none) ⊎ (o ≡ send_failed)
    → (q ≡ sent_none) ⊎ (q ≡ send_failed)
    → let t = ser_write_request_handler c o s in
      ((t.conns c).epoll_events ≡ (s.conns c).epoll_events)
      × (t.heap.cells p ≡ none)
      × ((ser_write_request_handler c q t).heap.fault ≡ true)
write_failure_twice c p left o q s h e f =
    rw (fails_finish c o s e, fails_finish c q (finish_write c s) f) (finish_twice c p left s h)
