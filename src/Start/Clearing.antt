-- ===== src/Start/Clearing.antt =====
-- What is left in memory after ser_shutdown_subproc and after ClearMsgRecvQueue.
use linux_communication.Common.{
  ℕ, ◌+◌, ◌≡◌, ◌≢◌, refl, sym, ◌∙◌, ap, ap₂, List, [], ◌∷◌, none, some, update_self, update_ne,
}
use linux_communication.Memory.{Heap, Block, free_memory, free_memory-live}
use linux_communication.Socket.{Socket}
use linux_communication.Send.Pass.{All, Distinct, IsLive}
use linux_communication.Start.{
  free_packets, ser_clear_send_queue, clear_connections, ser_clear_connection, ser_shutdown_subproc,
  free_received, clear_msg_recv_queue,
}

-- The first list back to front, before the second.
abbrev pub reverse_onto : List ℕ → List ℕ → List ℕ
reverse_onto [] ys = ys
reverse_onto (x ∷ xs) ys = reverse_onto xs (x ∷ ys)

-- These blocks have been freed, and nothing else.
pub record Frees (ps : List ℕ) (h g : Heap) : Type 0 where
  pub freed : All (λ p. g.cells p ≡ none) ps
  pub others : (i : ℕ) → All (λ p. p ≢ i) ps → g.cells i ≡ h.cells i
  pub no_fault : g.fault ≡ h.fault

-- The blocks one after another.
free_all : List ℕ → Heap → Heap
free_all [] h = h
free_all (p ∷ ps) h = free_all ps (free_memory (some p) h)

abbrev Live : Heap → ℕ → Type 0
Live h p = (b : Block) × (h.cells p ≡ some b)

Live-kept :
    (p : ℕ) (ps : List ℕ) (h g : Heap)
    → ((i : ℕ) → i ≢ p → g.cells i ≡ h.cells i)
    → All (λ q. q ≢ p) ps
    → All (Live h) ps
    → All (Live g) ps
Live-kept p [] h g k n l = tt
Live-kept p (q ∷ ps) h g k n l = ((l.0.0, k q n.0 ∙ l.0.1), Live-kept p ps h g k n.1 l.1)

free_all-Frees :
    (ps : List ℕ) (h : Heap) → Distinct ps → All (Live h) ps → Frees ps h (free_all ps h)
unfolding free_all
free_all-Frees [] h d l = record { freed = tt; others = λ i n. refl; no_fault = refl }
free_all-Frees (p ∷ ps) h d l =
    let (b, live) = l.0 in
    let g = free_memory (some p) h in
    let f = free_memory-live p b h live in
    let kept : (i : ℕ) → i ≢ p → g.cells i ≡ h.cells i =
      λ i n. ap (λ x. x.cells i) f ∙ update_ne h.cells p i none (λ q. n (sym q)) in
    let c = free_all-Frees ps g d.1 (Live-kept p ps h g kept d.0 l.1) in
    record {
      freed = (c.others p d.0 ∙ ap (λ x. x.cells p) f ∙ update_self h.cells p none, c.freed);
      others = λ i n. c.others i n.1 ∙ kept i (λ q. n.0 (sym q));
      no_fault = c.no_fault ∙ ap (λ x. x.fault) f;
    }

free_packets-free_all :
    (ps : List ℕ) (s : Socket)
    → s.msg_send_queue ≡ ps
    → ((free_packets ps s).heap ≡ free_all ps s.heap) × ((free_packets ps s).msg_send_queue ≡ [])
unfolding free_packets free_all
free_packets-free_all [] s e = (refl, e)
free_packets-free_all (p ∷ ps) s e =
    free_packets-free_all ps (record s { msg_send_queue = ps; heap = free_memory (some p) s.heap })
      refl

free_received-free_all :
    (ps : List ℕ) (s : Socket)
    → s.msg_recv_queue ≡ ps
    → ((free_received ps s).heap ≡ free_all ps s.heap) × ((free_received ps s).msg_recv_queue ≡ [])
unfolding free_received free_all
free_received-free_all [] s e = (refl, e)
free_received-free_all (p ∷ ps) s e =
    free_received-free_all ps (record s { msg_recv_queue = ps; heap = free_memory (some p) s.heap })
      refl

Frees-same : (ps : List ℕ) (h g k : Heap) → k ≡ g → Frees ps h g → Frees ps h k
Frees-same ps h g k e f = rw e f

-- The objects that the loop of ser_clear_connection frees.
clear_connections_lem :
    (cs : List ℕ) (s : Socket)
    → s.connection_list ≡ cs
    → ((clear_connections cs s).connection_list ≡ [])
      × ((clear_connections cs s).freed_conns ≡ reverse_onto cs s.freed_conns)
      × ((clear_connections cs s).heap ≡ s.heap)
      × ((clear_connections cs s).msg_send_queue ≡ s.msg_send_queue)
unfolding clear_connections
clear_connections_lem [] s e = (e, refl, refl, refl)
clear_connections_lem (c ∷ cs) s e =
    clear_connections_lem cs (record s { connection_list = cs; freed_conns = c ∷ s.freed_conns })
      refl

free_packets-same :
    (ps : List ℕ) (s : Socket)
    → ((free_packets ps s).connection_list ≡ s.connection_list)
      × ((free_packets ps s).freed_conns ≡ s.freed_conns)
unfolding free_packets
free_packets-same [] s = (refl, refl)
free_packets-same (p ∷ ps) s =
    free_packets-same ps (record s { msg_send_queue = ps; heap = free_memory (some p) s.heap })

-- What ser_shutdown_subproc does behind its joins, once all threads have ended. With a queue of
-- live packets, none of them queued twice: it frees each packet of the queue for sending once and
-- no other block, leaves that queue empty, and destroys and frees the objects of the list of all
-- connections from the front, each as often as it is listed, and leaves that list empty.
pub ser_shutdown_subproc-Frees :
    (s : Socket)
    → Distinct s.msg_send_queue
    → All (IsLive s) s.msg_send_queue
    → Frees s.msg_send_queue s.heap (ser_shutdown_subproc s).heap
      × ((ser_shutdown_subproc s).msg_send_queue ≡ [])
      × ((ser_shutdown_subproc s).connection_list ≡ [])
      × ((ser_shutdown_subproc s).freed_conns ≡ reverse_onto s.connection_list s.freed_conns)
unfolding ser_shutdown_subproc ser_clear_connection ser_clear_send_queue
ser_shutdown_subproc-Frees s d l =
    let v : Socket = record s { send_queue_sem = s.send_queue_sem + 1 } in
    let u = free_packets s.msg_send_queue v in
    let (e, empty) = free_packets-free_all s.msg_send_queue v refl in
    let (conns, gone) = free_packets-same s.msg_send_queue v in
    let (none_left, freed, heap, queue) = clear_connections_lem u.connection_list u refl in
    (
      Frees-same _ s.heap _ _ (heap ∙ e) (free_all-Frees s.msg_send_queue s.heap d l),
      queue ∙ empty,
      none_left,
      freed ∙ ap₂ reverse_onto conns gone,
    )

-- With a queue of live packets, none of them queued twice, ClearMsgRecvQueue frees each packet that
-- no thread has taken once and nothing else, and leaves the queue empty.
pub clear_msg_recv_queue-Frees :
    (s : Socket)
    → Distinct s.msg_recv_queue
    → All (IsLive s) s.msg_recv_queue
    → Frees s.msg_recv_queue s.heap (clear_msg_recv_queue s).heap
      × ((clear_msg_recv_queue s).msg_recv_queue ≡ [])
unfolding clear_msg_recv_queue
clear_msg_recv_queue-Frees s d l =
    let (e, empty) = free_received-free_all s.msg_recv_queue s refl in
    (Frees-same _ s.heap _ _ e (free_all-Frees s.msg_recv_queue s.heap d l), empty)
