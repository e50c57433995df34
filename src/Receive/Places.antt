-- ===== src/Receive/Places.antt =====
-- The memory that a connection receives into, after each branch of its handler.
use native.Mathlib.Omega.{arith}
use linux_communication.Common.{
  ℕ, ◌+◌, ◌-◌, ◌^◌, ◌≤◌, ◌<◌, ◌≡◌, refl, List, [], ◌++◌, length, ◌⊎◌, inl, inr, length-append,
  length-tabulate, tabulate, update_self,
}
use linux_communication.Packet.{pkg_bd_init, pkg_len, pkg_header_length, pkg_max_length}
use linux_communication.Memory.{Block}
use linux_communication.Socket.{Socket}
use linux_communication.Pool.{ser_in_recy_connection}
use linux_communication.Receive.{
  on_received, ser_wait_request_process_pkg, ser_wait_request_in_msgqueue, push_msg, reject_header,
}
use linux_communication.Receive.Phases.{HeaderPart, BodyPart}
use linux_communication.Receive.Delivery.{HasHeader}
use linux_communication.Receive.Packets.{
  process_body, process_bare, process_malicious, wants_body_of, on_body_more,
}

-- Connection `c` receives into memory that is there.
abbrev pub IsReceiving : ℕ → Socket → Type 0
IsReceiving c s =
    ((pre : List ℕ) × HeaderPart c pre s)
    ⊎ ((p : ℕ) × (off : ℕ) × (b : Block) × BodyPart c p off b s)

-- The outcome of a step: no new fault, and still a good place to receive into.
abbrev pub StaysSafe : ℕ → Socket → Socket → Type 0
StaysSafe c s t = (t.heap.fault ≡ s.heap.fault) × IsReceiving c t

pub hang_up-StaysSafe :
    (now c : ℕ) (s : Socket) (fds : List ℕ)
    → IsReceiving c s
    → StaysSafe c s (ser_in_recy_connection now c (record s { closed_fds = fds }))
unfolding ser_in_recy_connection
hang_up-StaysSafe now c s fds (inl (pre, h)) = (
  refl,
  inl (
    pre,
    record {
      stat = ground (arith, h.stat);
      location = ground (arith, h.location);
      left = ground (arith, h.left);
      wants = ground (arith, h.wants);
      stored = rw (update_self s.conns c _) h.stored;
      size = ground (arith, h.size);
    },
  ),
)
hang_up-StaysSafe now c s fds (inr (p, off, b, h)) = (
  refl,
  inr (
    p,
    off,
    b,
    record {
      stat = ground (arith, h.stat);
      location = ground (arith, h.location);
      packet = ground (arith, h.packet);
      live = h.live;
      fits = ground (arith, h.fits);
      wants = ground (arith, h.wants);
      size = ground (arith, h.size);
      small = h.small;
    },
  ),
)

module _ (junk : ℕ → ℕ) (c : ℕ) where
  reject-StaysSafe :
      (hdr : List ℕ) (s : Socket) → HasHeader c hdr s → StaysSafe c s (reject_header c s)
  reject-StaysSafe hdr s h = (
    refl,
    inl (
      [],
      record {
        stat = inl (ground arith);
        location = ground arith;
        left = ground arith;
        wants = ground arith;
        stored = refl;
        size = ground (arith, h.size);
      },
    ),
  )

  body-StaysSafe :
      (hdr : List ℕ) (left : ℕ) (s : Socket)
      → HasHeader c hdr s
      → length hdr ≡ pkg_header_length
      → 0 < left
      → left < 2 ^ 16
      → StaysSafe c s (wants_body_of junk c hdr left s)
  body-StaysSafe hdr left s h l w u =
      let whole = length-append hdr (tabulate junk left) in
      let rest = length-tabulate junk left in
      (
        refl,
        inr (
          s.heap.next,
          pkg_header_length,
          record { conn = c; seq = (s.conns c).curr_sequence; payload = hdr ++ tabulate junk left },
          record {
            stat = inl (ground arith);
            location = ground arith;
            packet = ground arith;
            live = update_self s.heap.cells s.heap.next _;
            fits = rw (update_self s.conns c _) (omega (arith, whole, rest, l));
            wants = rw (update_self s.conns c _) w;
            size = ground (arith, h.size);
            small = omega (arith, whole, rest, l);
          },
        ),
      )

  pub process-StaysSafe :
      (hdr : List ℕ) (s : Socket)
      → HasHeader c hdr s
      → length hdr ≡ pkg_header_length
      → StaysSafe c s (ser_wait_request_process_pkg junk c s)
  process-StaysSafe hdr s h l = by_length (lengths (pkg_len hdr))
    where
      lengths :
          (n : ℕ)
          → ((n < pkg_header_length) ⊎ (pkg_max_length < n + 1000))
            ⊎ ((n ≡ pkg_header_length) ⊎ ((pkg_header_length < n) × (n + 1000 ≤ pkg_max_length)))
      lengths n = omega arith

      by_length :
          ((pkg_len hdr < pkg_header_length) ⊎ (pkg_max_length < pkg_len hdr + 1000))
            ⊎ ((pkg_len hdr ≡ pkg_header_length)
                ⊎ ((pkg_header_length < pkg_len hdr) × (pkg_len hdr + 1000 ≤ pkg_max_length)))
          → StaysSafe c s (ser_wait_request_process_pkg junk c s)
      by_length (inl bad) = rw (process_malicious junk c hdr s h bad) (reject-StaysSafe hdr s h)
      by_length (inr (inl bare)) =
          let d = process_bare junk c hdr s h bare in (d.no_fault, inl ([], d.ready))
      by_length (inr (inr (u, v))) = rw (process_body junk c hdr s h u v) (
          body-StaysSafe hdr (pkg_len hdr - pkg_header_length) s h l (omega (arith, u))
            (omega (arith, v)))

  pub msgqueue-StaysSafe :
      (p off : ℕ) (b : Block) (s : Socket)
      → BodyPart c p off b s
      → StaysSafe c s (ser_wait_request_in_msgqueue c s)
  unfolding ser_wait_request_in_msgqueue push_msg
  msgqueue-StaysSafe p off b s h = (
    rw (h.packet, push_msg) refl,
    inl (
      [],
      record {
        stat = inl (ground arith);
        location = ground arith;
        left = ground arith;
        wants = ground arith;
        stored = refl;
        size = ground (arith, h.size);
      },
    ),
  )

  pub more-StaysSafe :
      (n p off : ℕ) (b : Block) (s : Socket)
      → BodyPart c p off b s
      → (s.conns c).recv_stat ≡ pkg_bd_init
      → n < (s.conns c).recv_length
      → StaysSafe c s (on_received junk n c s)
  more-StaysSafe n p off b s h e l =
      rw (on_body_more junk c n p off s e h.location l (omega (arith, h.fits, h.small))) (
        refl,
        inr (
          p,
          off + n,
          b,
          record {
            stat = inr (ground arith);
            location = ground arith;
            packet = ground (arith, h.packet);
            live = h.live;
            fits = rw (update_self s.conns c _) (omega (arith, h.fits));
            wants = rw (update_self s.conns c _) (omega arith);
            size = ground (arith, h.size);
            small = h.small;
          },
        ),
      )
