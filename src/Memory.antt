-- ===== src/Memory.antt =====
-- misc/ser_memory.cxx: MallocMemory and FreeMemory, on a heap of message blocks.
-- A block is what the server keeps in one allocation: the two fields of MSG_HEADER and the bytes
-- behind it (packet header and body). `delete[]` of an address that is not live, and a write
-- outside a block, are undefined behaviour: they set `fault`, which nothing clears.
use linux_communication.Common.{ℕ, ◌+◌, ◌≡◌, refl, List, Bool, true, Option, none, some, update}

-- `MSG_HEADER` and the bytes that follow it.
pub record Block : Type 0 where
  pub conn : ℕ
  pub seq : ℕ
  pub payload : List ℕ

pub record Heap : Type 0 where
  pub next : ℕ
  pub cells : ℕ → Option Block
  pub fault : Bool

-- `MallocMemory`: a new address. What the caller writes into the block at once is passed along.
unfoldable pub malloc_memory : Block → Heap → ℕ × Heap
malloc_memory b h = (h.next, record h { next = h.next + 1; cells = update h.cells h.next (some b) })

free_cell : ℕ → Option Block → Heap → Heap
free_cell p none h = record h { fault = true }
free_cell p (some b) h = record h { cells = update h.cells p none }

-- `FreeMemory`: `delete[]` of a null pointer does nothing. The assignment to the parameter at its
-- end reaches no caller.
unfoldable pub free_memory : Option ℕ → Heap → Heap
unfolding free_cell
free_memory none h = h
free_memory (some p) h = free_cell p (h.cells p) h

pub free_memory-live :
    (p : ℕ) (b : Block) (h : Heap)
    → h.cells p ≡ some b
    → free_memory (some p) h ≡ record h { cells = update h.cells p none }
unfolding free_memory
free_memory-live p b h e = rw (e, free_cell) refl

pub free_memory-dangling :
    (p : ℕ) (h : Heap) → h.cells p ≡ none → free_memory (some p) h ≡ record h { fault = true }
unfolding free_memory
free_memory-dangling p h e = rw (e, free_cell) refl
