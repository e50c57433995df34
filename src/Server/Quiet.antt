-- ===== src/Server/Quiet.antt =====
-- The operations that leave the lists of the pool alone.
use linux_communication.Common.{
  ℕ, ◌-◌, ◌≡◌, refl, ◌∙◌, ap, arith, List, [], ◌∷◌, Bool, not, Option, none, some, count, if_case,
  ◌==◌, is_pos,
}
use linux_communication.Memory.{Block}
use linux_communication.Packet.{pkg_len, pkg_header_length}
use linux_communication.Socket.{Socket, Location, nowhere, head_info, in_block}
use linux_communication.Pool.Invariant.{IsPooled, in_use}
use linux_communication.Receive.{
  is_malicious, store_in, store_at, push_msg, ser_wait_request_in_msgqueue, accept_header,
  ser_wait_request_process_pkg, on_received,
}
use linux_communication.Send.{
  SendOutcome, sent_some, sent_none, buffer_full, send_failed, finish_write,
  ser_write_request_handler, after_send, send_one, send_pass, ser_send_msg_queue_turn,
}

-- The lists of the pool, and the next address.
abbrev pub lists_of : Socket → List ℕ × List ℕ × List ℕ × ℕ
lists_of s = (s.connection_list, s.free_connection_list, s.recy_connection_list, s.next_conn)

pub record Quiet (s t : Socket) : Type 0 where
  pub same : lists_of t ≡ lists_of s

pub stays : {s t : Socket} → lists_of t ≡ lists_of s → Quiet s t
stays e = record { same = e }

pub then_stays : {s t u : Socket} → Quiet s t → Quiet t u → Quiet s u
then_stays q r = record { same = r.same ∙ q.same }

pub Quiet-IsPooled :
    (s t : Socket) → Quiet s t → IsPooled s → IsPooled t × ((c : ℕ) → in_use t c ≡ in_use s c)
Quiet-IsPooled s t q p =
    let e = q.same in
    let all : t.connection_list ≡ s.connection_list =
      ap (λ (x : List ℕ × List ℕ × List ℕ × ℕ). x.0) e in
    let free : t.free_connection_list ≡ s.free_connection_list =
      ap (λ (x : List ℕ × List ℕ × List ℕ × ℕ). x.1) e in
    let recy : t.recy_connection_list ≡ s.recy_connection_list =
      ap (λ (x : List ℕ × List ℕ × List ℕ × ℕ). x.2) e in
    let next : t.next_conn ≡ s.next_conn = ap (λ (x : List ℕ × List ℕ × List ℕ × ℕ). x.3) e in
    (
      record {
        parts =
            λ c. omega (arith, p.parts c, ap (count c) all, ap (count c) free, ap (count c) recy);
        once = λ c. omega (arith, p.once c, ap (count c) all);
        fresh = λ c h. ap (count c) all ∙ p.fresh c (omega (arith, h, next));
      },
      λ c. omega (arith, ap (count c) all, ap (count c) free, ap (count c) recy),
    )

store_in-Quiet :
    (b : Option Block) (p off : ℕ) (bytes : List ℕ) (s : Socket)
    → Quiet s (store_in b p off bytes s)
unfolding store_in
store_in-Quiet none p off bytes s = stays refl
store_in-Quiet (some b) p off bytes s = stays (ground arith)

pub store_at-Quiet :
    (l : Location) (c : ℕ) (bytes : List ℕ) (s : Socket) → Quiet s (store_at l c bytes s)
unfolding store_at
store_at-Quiet nowhere c bytes s = stays refl
store_at-Quiet (head_info off) c bytes s = stays (ground arith)
store_at-Quiet (in_block p off) c bytes s = store_in-Quiet (s.heap.cells p) p off bytes s

push_msg-Quiet : (o : Option ℕ) (s : Socket) → Quiet s (push_msg o s)
unfolding push_msg
push_msg-Quiet none s = stays refl
push_msg-Quiet (some p) s = stays refl

in_msgqueue-Quiet : (c : ℕ) (s : Socket) → Quiet s (ser_wait_request_in_msgqueue c s)
unfolding ser_wait_request_in_msgqueue
in_msgqueue-Quiet c s = stays (push_msg-Quiet (s.conns c).recv_pkg_data s).same

accept_header-Quiet : (junk : ℕ → ℕ) (len c : ℕ) (s : Socket) → Quiet s (accept_header junk len c s)
unfolding accept_header
accept_header-Quiet junk len c s =
    if_case (Quiet s) (len == pkg_header_length)
      (λ e. then_stays (stays refl) (in_msgqueue-Quiet c _)) (λ e. stays refl)

process_pkg-Quiet :
    (junk : ℕ → ℕ) (c : ℕ) (s : Socket) → Quiet s (ser_wait_request_process_pkg junk c s)
unfolding ser_wait_request_process_pkg
process_pkg-Quiet junk c s =
    if_case (Quiet s) (is_malicious (pkg_len (s.conns c).pkg_head_info)) (λ e. stays refl)
      (λ e. accept_header-Quiet junk _ c s)

-- What follows a piece that has come in.
pub on_received-Quiet : (junk : ℕ → ℕ) (n c : ℕ) (s : Socket) → Quiet s (on_received junk n c s)
unfolding on_received
on_received-Quiet junk n c s =
    stays (ground (arith, (process_pkg-Quiet junk c s).same, (in_msgqueue-Quiet c s).same))

pub write-Quiet : (c : ℕ) (r : SendOutcome) (s : Socket) → Quiet s (ser_write_request_handler c r s)
unfolding ser_write_request_handler finish_write
write-Quiet c (sent_some n) s = stays (ground arith)
write-Quiet c sent_none s = stays refl
write-Quiet c buffer_full s = stays refl
write-Quiet c send_failed s = stays refl

after_send-Quiet : (c : ℕ) (r : SendOutcome) (s : Socket) → Quiet s (after_send c r s)
unfolding after_send
after_send-Quiet c (sent_some n) s = stays (ground arith)
after_send-Quiet c sent_none s = stays refl
after_send-Quiet c buffer_full s = stays refl
after_send-Quiet c send_failed s = stays refl

send_one-Quiet :
    (r : SendOutcome) (p : ℕ) (b : Option Block) (s : Socket) → Quiet s (send_one r p b s).1
unfolding send_one
send_one-Quiet r p none s = stays refl
send_one-Quiet r p (some m) s =
    if_case (λ ((stays, t) : Bool × Socket). Quiet s t)
      (not ((s.conns m.conn).curr_sequence == m.seq)) (λ e. stays refl)
      (λ e.
        if_case (λ ((stays, t) : Bool × Socket). Quiet s t)
          (is_pos (s.conns m.conn).throw_send_count) (λ e. stays refl)
          (λ e. then_stays (stays refl) (after_send-Quiet m.conn r _)))

send_pass-Quiet : (r : ℕ → SendOutcome) (ps : List ℕ) (s : Socket) → Quiet s (send_pass r ps s).1
unfolding send_pass
send_pass-Quiet r [] s = stays refl
send_pass-Quiet r (p ∷ ps) s =
    then_stays (send_one-Quiet (r p) p (s.heap.cells p) s)
      (send_pass-Quiet r ps (send_one (r p) p (s.heap.cells p) s).1)

pub turn-Quiet : (r : ℕ → SendOutcome) (s : Socket) → Quiet s (ser_send_msg_queue_turn r s)
unfolding ser_send_msg_queue_turn
turn-Quiet r s =
    stays
      (send_pass-Quiet r s.msg_send_queue (record s { send_queue_sem = s.send_queue_sem - 1 })).same
