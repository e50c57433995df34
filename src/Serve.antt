-- ===== src/Serve.antt =====
-- misc/ser_threadpool.cxx: what a thread does with a packet, which is where receiving, the message
-- logic and sending meet.
pub mod Handling
pub mod Sending
pub mod Request
pub mod Client
use linux_communication.Common.{ℕ, List, [], ◌∷◌, Option, none, some}
use linux_communication.Memory.{Block, free_memory}
use linux_communication.Socket.{Socket}
use linux_communication.Receive.{raise_fault}
use linux_communication.Logic.{ser_thread_process_message}

-- The packet at `p` is handled and freed.
unfoldable pub handle_block : (ℕ → ℕ) → ℕ → ℕ → Option Block → Socket → Socket
handle_block junk now p none s = raise_fault s
handle_block junk now p (some m) s =
    let t = ser_thread_process_message junk now m s in
    record t { heap = free_memory (some p) t.heap }

-- A round of `ThreadFunc` with the queue as given: the front is taken and handled.
unfoldable pub handle_queue : (ℕ → ℕ) → ℕ → List ℕ → Socket → Socket
handle_queue junk now [] s = s
handle_queue junk now (p ∷ rest) s =
    handle_block junk now p (s.heap.cells p) (record s { msg_recv_queue = rest })

unfoldable pub handle_next : (ℕ → ℕ) → ℕ → Socket → Socket
handle_next junk now s = handle_queue junk now s.msg_recv_queue s
