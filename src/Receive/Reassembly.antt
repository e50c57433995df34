-- ===== src/Receive/Reassembly.antt =====
-- A packet that arrives in pieces.
use linux_communication.Common.{
  ℕ, ◌+◌, ◌≤◌, ◌≡◌, refl, ◌∙◌, arith, List, [], ◌∷◌, ◌++◌, append_assoc, append-nil, length,
  length-append, length-overwrite, take-overwrite, update_self,
}
use linux_communication.Packet.{pkg_len, pkg_header_length, pkg_max_length}
use linux_communication.Socket.{Socket}
use linux_communication.Receive.{
  RecvResult, received, ser_read_request_handler, ser_wait_request_process_pkg, read_events,
}
use linux_communication.Receive.Phases.{
  HeaderPart, SameRest, SameSending-trans, store_head, header_more, header_done,
}
use linux_communication.Receive.Delivery.{Delivers, HasHeader}
use linux_communication.Receive.Packets.{complete_body, process_bare}

-- Pieces of at least one byte, as `recv` returns them one after another.
abbrev pub Pieces : Type 0
Pieces = List (ℕ × List ℕ)

abbrev pub arrivals : Pieces → List RecvResult
arrivals [] = []
arrivals ((b, bs) ∷ ps) = received b bs ∷ arrivals ps

abbrev pub joined : Pieces → List ℕ
joined [] = []
joined ((b, bs) ∷ ps) = (b ∷ bs) ++ joined ps

pub read_events-append :
    (junk : ℕ → ℕ) (now c : ℕ) (xs ys : List RecvResult) (s : Socket)
    → read_events junk now c (xs ++ ys) s ≡ read_events junk now c ys (read_events junk now c xs s)
unfolding read_events
read_events-append junk now c [] ys s = refl
read_events-append junk now c (x ∷ xs) ys s =
    read_events-append junk now c xs ys (ser_read_request_handler junk now c x s)

-- `s` with the header complete, but not yet processed.
pub record Completes (c : ℕ) (hdr : List ℕ) (s u : Socket) : Type 0 where
  pub has : HasHeader c hdr u
  pub same : SameRest c s u

SameRest-trans : {c : ℕ} {s t u : Socket} → SameRest c s t → SameRest c t u → SameRest c s u
SameRest-trans p q = record {
  heap = q.heap ∙ p.heap;
  queue = q.queue ∙ p.queue;
  sending = SameSending-trans p.sending q.sending;
}

pub store_head-Completes :
    (c : ℕ) (pre bytes : List ℕ) (s : Socket)
    → HeaderPart c pre s
    → length pre + length bytes ≡ pkg_header_length
    → Completes c (pre ++ bytes) s (store_head c (length pre) bytes s)
store_head-Completes c pre bytes s h e = record {
  has = record {
    head = rw (update_self s.conns c _) (
        rw (length-append pre bytes ∙ e) at
          (take-overwrite (s.conns c).pkg_head_info pre bytes h.stored));
    size = rw (update_self s.conns c _) (
        length-overwrite (s.conns c).pkg_head_info (length pre) bytes (omega (arith, h.size))
        ∙ h.size);
  };
  same = record {
    heap = refl;
    queue = refl;
    sending = record {
      send_queue = refl;
      seq = ground arith;
      flight = ground arith;
      fd = ground arith;
    };
  };
}

module _ (junk : ℕ → ℕ) (now c : ℕ) where
  pub header_arrives :
      (ps : Pieces) (pre : List ℕ) (s : Socket)
      → HeaderPart c pre s
      → length pre + length (joined ps) ≡ pkg_header_length
      → (u : Socket) × Completes c (pre ++ joined ps) s u
        × (read_events junk now c (arrivals ps) s ≡ ser_wait_request_process_pkg junk c u)
  unfolding read_events
  header_arrives [] pre s h e = absurd (omega (arith, h.left, h.wants))
  header_arrives ((b, bs) ∷ []) pre s h e = (
    store_head c (length pre) (b ∷ bs) s,
    rw append-nil (store_head-Completes c pre (b ∷ bs) s h (omega (arith, fits_exactly pre e))),
    header_done junk now c pre b bs s h (omega (arith, h.left, fits_exactly pre e)),
  )
    where
      fits_exactly :
          (pre : List ℕ)
          → length pre + length (joined ((b, bs) ∷ [])) ≡ pkg_header_length
          → length pre + length (b ∷ bs) ≡ pkg_header_length
      fits_exactly pre e = rw (append-nil {A = ℕ}) at e
  header_arrives ((b, bs) ∷ ((d, ds) ∷ ps)) pre s h e =
      let more = header_more junk now c pre b bs s h (omega (arith, h.left, e, sum_joined)) in
      let (u, k, r) =
        header_arrives ((d, ds) ∷ ps) (pre ++ (b ∷ bs))
          (ser_read_request_handler junk now c (received b bs) s) more.0
          (omega (arith, e, sum_joined, length-append pre (b ∷ bs))) in
      (
        u,
        record {
          has = rw (append_assoc pre (b ∷ bs) (joined ((d, ds) ∷ ps))) at k.has;
          same = SameRest-trans more.1 k.same;
        },
        r,
      )
    where
      sum_joined :
          length (joined ((b, bs) ∷ ((d, ds) ∷ ps)))
          ≡ length (b ∷ bs) + length (joined ((d, ds) ∷ ps))
      sum_joined = length-append (b ∷ bs) (joined ((d, ds) ∷ ps))

Delivers-from :
    {c : ℕ} {pkg : List ℕ} {s u t : Socket}
    → SameRest c s u
    → Delivers c pkg u t
    → Delivers c pkg s t
Delivers-from r k = record {
  queued = rw (r.queue, r.heap) at k.queued;
  packet = rw (r.sending.seq, r.heap) at k.packet;
  others = rw r.heap at k.others;
  no_fault = rw r.heap at k.no_fault;
  ready = k.ready;
  sending = SameSending-trans r.sending k.sending;
  next = rw r.heap at k.next;
}

-- However the 8 header bytes of a packet with no body are cut into pieces, whatever a new block
-- holds: they are queued as one packet, stamped with the connection and its sequence number.
-- Nothing else on the heap changes, no write leaves its buffer, and the connection is ready for
-- the next header.
pub read_events-Delivers_bare :
    (junk : ℕ → ℕ) (now c : ℕ) (ps : Pieces) (s : Socket)
    → HeaderPart c [] s
    → length (joined ps) ≡ pkg_header_length
    → pkg_len (joined ps) ≡ pkg_header_length
    → Delivers c (joined ps) s (read_events junk now c (arrivals ps) s)
unfolding read_events
read_events-Delivers_bare junk now c ps s h e bare =
    let (u, k, r) = header_arrives junk now c ps [] s h (omega (arith, e)) in
    rw r (Delivers-from k.same (process_bare junk c (joined ps) u k.has bare))

-- However the 8 header bytes are cut into pieces, whatever a new block holds: if their length
-- field is at most 29000 and counts a body that arrives in one piece, header and body together are
-- queued as one packet, stamped with the connection and its sequence number. Nothing else on the
-- heap changes, no write leaves its buffer, and the connection is ready for the next header.
pub read_events-Delivers :
    (junk : ℕ → ℕ) (now c : ℕ) (ps : Pieces) (b : ℕ) (bs : List ℕ) (s : Socket)
    → HeaderPart c [] s
    → length (joined ps) ≡ pkg_header_length
    → pkg_len (joined ps) ≡ pkg_header_length + length (b ∷ bs)
    → pkg_len (joined ps) + 1000 ≤ pkg_max_length
    → Delivers c
        (joined ps ++ (b ∷ bs))
        s
        (read_events junk now c (arrivals ps ++ (received b bs ∷ [])) s)
unfolding read_events
read_events-Delivers junk now c ps b bs s h e l w =
    let (u, k, r) = header_arrives junk now c ps [] s h (omega (arith, e)) in
    rw (read_events-append junk now c (arrivals ps) (received b bs ∷ []) s, r)
      (Delivers-from k.same (complete_body junk c now (joined ps) b bs u k.has e l w))
