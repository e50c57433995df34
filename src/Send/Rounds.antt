-- ===== src/Send/Rounds.antt =====
-- One round of the sending thread over its queue.
use linux_communication.Common.{
  ℕ, ◌≡◌, ◌≢◌, refl, ◌∙◌, arith, Bool, true, false, some, ◌==◌, not, is_pos, if◌then◌else◌, none,
  is_negative, inc-is_pos, ◌⊎◌, inl, inr, ap, Bool-cases,
}
use Prim.Native.Nat.{bit_and}
use linux_communication.Common.Bits.{or-and-four}
use linux_communication.Epoll.{epollout, new_events}
use linux_communication.Packet.{pkg_len}
use linux_communication.Memory.{Block, free_memory, free_memory-live}
use linux_communication.Socket.{Socket, put_connection}
use linux_communication.Send.{
  SendOutcome, sent_some, sent_none, buffer_full, send_failed, send_one, after_send, start_send,
  call_send,
}

-- Packet `q` is good to send, and its connection has another packet in flight, whose end will
-- wake the sending thread again.
pub record Waits (s : Socket) (q : ℕ) : Type 0 where
  pub block : Block
  pub live : s.heap.cells q ≡ some block
  pub fresh : (s.conns block.conn).curr_sequence ≡ block.seq
  pub in_flight : is_pos (s.conns block.conn).throw_send_count ≡ true

-- Packet `q` has been begun: its connection points to it, counts it as in flight, and asks for the
-- write events that send the rest.
pub record IsInFlight (s : Socket) (q : ℕ) : Type 0 where
  pub block : Block
  pub live : s.heap.cells q ≡ some block
  pub packet : (s.conns block.conn).send_pkg_data ≡ some q
  pub in_flight : is_pos (s.conns block.conn).throw_send_count ≡ true
  pub asks : bit_and (s.conns block.conn).epoll_events epollout ≡ epollout

-- What may have become of a packet: freed, begun, or it waits.
abbrev pub Settled : Socket → ℕ → Type 0
Settled s q = (s.heap.cells q ≡ none) ⊎ (Waits s q ⊎ IsInFlight s q)

-- No connection counts less than no packet.
abbrev pub IsCounted : Socket → Type 0
IsCounted s = (c : ℕ) → is_negative (s.conns c).throw_send_count ≡ false

-- What one round for packet `p` does to the others.
pub record Keeps (p : ℕ) (s t : Socket) : Type 0 where
  pub cells : (q : ℕ) → q ≢ p → t.heap.cells q ≡ s.heap.cells q
  pub fault : t.heap.fault ≡ s.heap.fault
  pub others : (c : ℕ) → is_pos (s.conns c).throw_send_count ≡ true → t.conns c ≡ s.conns c
  pub counted : IsCounted s → IsCounted t

-- The state in which ser_send_pkg is called for packet `p`.
abbrev started : ℕ → ℕ → Block → Socket → Socket
started c p m s = let j = start_send p m (s.conns c) in put_connection c j (call_send j s)

after_send-Keeps :
    (outcome : SendOutcome) (p c : ℕ) (m : Block) (s : Socket)
    → s.heap.cells p ≡ some m
    → is_pos (s.conns c).throw_send_count ≡ false
    → Keeps p s (after_send c outcome (started c p m s))
unfolding after_send free_memory
after_send-Keeps (sent_some n) p c m s e h = record {
  cells = λ q ne. ground arith;
  fault = ground arith;
  others = λ d w. ground (arith, h, w);
  counted = λ k d. ground (arith, h, k d, (inc-is_pos _ (k c)).1);
}
after_send-Keeps sent_none p c m s e h = record {
  cells = λ q ne. ground arith;
  fault = ground arith;
  others = λ d w. ground (arith, h, w);
  counted = λ k d. ground (arith, h, k d, (inc-is_pos _ (k c)).1);
}
after_send-Keeps buffer_full p c m s e h = record {
  cells = λ q ne. ground arith;
  fault = ground arith;
  others = λ d w. ground (arith, h, w);
  counted = λ k d. ground (arith, h, k d, (inc-is_pos _ (k c)).1);
}
after_send-Keeps send_failed p c m s e h = record {
  cells = λ q ne. ground arith;
  fault = ground arith;
  others = λ d w. ground (arith, h, w);
  counted = λ k d. ground (arith, h, k d, (inc-is_pos _ (k c)).1);
}

after_send-Settled :
    (outcome : SendOutcome) (p : ℕ) (m : Block) (s : Socket)
    → s.heap.cells p ≡ some m
    → is_pos (s.conns m.conn).throw_send_count ≡ false
    → IsCounted s
    → Settled (after_send m.conn outcome (started m.conn p m s)) p
unfolding after_send free_memory new_events
after_send-Settled (sent_some n) p m s e h k = elim (Bool-cases (n == pkg_len m.payload)) [
  | inl whole ↦ inl (ground (arith, e, whole))
  | inr part ↦ inr (
      inr (record {
        block = m;
        live = ground (arith, e, part);
        packet = ground (arith, e, part);
        in_flight = ground (arith, part, (inc-is_pos _ (k m.conn)).0);
        asks =
            ap (λ v. bit_and v epollout) (ground (arith, part))
            ∙ or-and-four (s.conns m.conn).epoll_events;
      }))
]
after_send-Settled sent_none p m s e h k = inl (ground (arith, e))
after_send-Settled buffer_full p m s e h k = inr (
    inr (record {
      block = m;
      live = e;
      packet = ground arith;
      in_flight = ground (arith, (inc-is_pos _ (k m.conn)).0);
      asks =
          ap (λ v. bit_and v epollout) (ground arith) ∙ or-and-four (s.conns m.conn).epoll_events;
    }))
after_send-Settled send_failed p m s e h k = inl (ground (arith, e))

-- A round keeps a packet only if it waits, and then changes nothing.
pub record Rounds (p : ℕ) (s : Socket) (r : Bool × Socket) : Type 0 where
  pub keeps : Keeps p s r.1
  pub settles : r.0 ≡ false → IsCounted s → Settled r.1 p
  pub stays : r.0 ≡ true → Waits s p × (r.1 ≡ s)

Keeps-refl : (p : ℕ) (s : Socket) → Keeps p s s
Keeps-refl p s = record {
  cells = λ q ne. refl;
  fault = refl;
  others = λ c h. refl;
  counted = λ k. k;
}

pub send_one-Rounds :
    (outcome : SendOutcome) (p : ℕ) (m : Block) (s : Socket)
    → s.heap.cells p ≡ some m
    → Rounds p s (send_one outcome p (some m) s)
unfolding send_one
send_one-Rounds outcome p m s e =
    by_tests ((s.conns m.conn).curr_sequence == m.seq) refl
      (is_pos (s.conns m.conn).throw_send_count) refl
  where
    by_tests :
        (a : Bool)
        → ((s.conns m.conn).curr_sequence == m.seq) ≡ a
        → (b : Bool) → is_pos (s.conns m.conn).throw_send_count ≡ b
        → Rounds p s (
            if not a
            then (false, record s { heap = free_memory (some p) s.heap })
            else if b
            then (true, s)
            else (false, after_send m.conn outcome (started m.conn p m s)))
    by_tests false ha b hb = record {
      keeps = rw (free_memory-live p m s.heap e) (record {
        cells = λ q ne. ground arith;
        fault = refl;
        others = λ c h. refl;
        counted = λ k. k;
      });
      settles = λ h k. inl (rw (free_memory-live p m s.heap e) (ground arith));
      stays = λ h. cc;
    }
    by_tests true ha true hb = record {
      keeps = Keeps-refl p s;
      settles = λ h. cc;
      stays = λ h. (record { block = m; live = e; fresh = ground arith; in_flight = hb }, refl);
    }
    by_tests true ha false hb = record {
      keeps = after_send-Keeps outcome p m.conn m s e hb;
      settles = λ h k. after_send-Settled outcome p m s e hb k;
      stays = λ h. cc;
    }

pub Waits-Keeps : {p q : ℕ} {s t : Socket} → q ≢ p → Keeps p s t → Waits s q → Waits t q
Waits-Keeps {p} {q} {s} ne k w = record {
  block = w.block;
  live = k.cells q ne ∙ w.live;
  fresh = ap (λ x. x.curr_sequence) (k.others w.block.conn w.in_flight) ∙ w.fresh;
  in_flight = ap (λ x. is_pos x.throw_send_count) (k.others w.block.conn w.in_flight) ∙ w.in_flight;
}

IsInFlight-Keeps : {p q : ℕ} {s t : Socket} → q ≢ p → Keeps p s t → IsInFlight s q → IsInFlight t q
IsInFlight-Keeps {p} {q} {s} {t} ne k w =
    let same : t.conns w.block.conn ≡ s.conns w.block.conn = k.others w.block.conn w.in_flight in
    record {
      block = w.block;
      live = k.cells q ne ∙ w.live;
      packet = ap (λ x. x.send_pkg_data) same ∙ w.packet;
      in_flight = ap (λ x. is_pos x.throw_send_count) same ∙ w.in_flight;
      asks = ap (λ x. bit_and x.epoll_events epollout) same ∙ w.asks;
    }

pub Settled-Keeps : {p q : ℕ} {s t : Socket} → q ≢ p → Keeps p s t → Settled s q → Settled t q
Settled-Keeps {p} {q} ne k h = elim h [
  | inl gone ↦ inl (k.cells q ne ∙ gone)
  | inr more ↦
      inr (elim more [ inl w ↦ inl (Waits-Keeps ne k w) | inr w ↦ inr (IsInFlight-Keeps ne k w) ])
]

pub Rounds-Settled :
    (p : ℕ) (s : Socket) (r : Bool × Socket) → Rounds p s r → IsCounted s → Settled r.1 p
Rounds-Settled p s r one k = elim (Bool-cases r.0) [
  | inl e ↦ inr (inl (rw (one.stays e).1 (one.stays e).0))
  | inr e ↦ one.settles e k
]
