-- ===== src/Connection/Release.antt =====
-- What PutOneToFree does to the two packets of a connection.
use linux_communication.Common.{ℕ, ◌≡◌, ◌≢◌, arith, true, none, some}
use linux_communication.Memory.{Heap, Block, free_memory}
use linux_communication.Socket.{Connection}
use linux_communication.Connection.{put_one_to_free}

-- A connection that is given back with a packet in flight and none half received keeps its send
-- block allocated: the heap is as before.
pub put_one_to_free_leaks :
    (k : Connection) (h : Heap) (q : ℕ)
    → k.send_pkg_data ≡ some q
    → k.recv_pkg_data ≡ none
    → (put_one_to_free k h).1 ≡ h
unfolding put_one_to_free free_memory
put_one_to_free_leaks k h q s r = ground arith

-- With a packet in flight and another one half received, in live blocks that differ, the receive
-- block is freed twice: the fault is raised, and the send block stays allocated.
pub put_one_to_free_twice :
    (k : Connection) (h : Heap) (p q : ℕ) (b c : Block)
    → k.send_pkg_data ≡ some q
    → k.recv_pkg_data ≡ some p
    → h.cells p ≡ some b
    → h.cells q ≡ some c
    → p ≢ q
    → ((put_one_to_free k h).1.fault ≡ true) × ((put_one_to_free k h).1.cells q ≡ some c)
unfolding put_one_to_free free_memory
put_one_to_free_twice k h p q b c s r live other ne = ground arith
