-- ===== src/Log.antt =====
-- app/ser_log.cxx: building a line of the log in a buffer, and writing it.
-- A buffer is a function from its indices to bytes; a write behind its end sets `overflow`. A
-- pointer into it is an index. `strerror`, the "(%d: " of `sprintf`, the clock and `write` are
-- the C library's and enter as arguments.
pub mod Number
pub mod Format
pub mod Digits
pub mod Bounds
pub mod Printing
pub mod Faults
pub mod Fuel
pub mod Write
pub mod Lines
pub mod Lost
use linux_communication.Common.{
  ℕ, zero, suc, ◌+◌, List, [], ◌∷◌, Bool, true, false, ltb, ◌==◌, if◌then◌else◌, update,
}

-- A `uint8_t` array of `size` bytes.
pub record Page : Type 0 where
  pub size : ℕ
  pub cells : ℕ → ℕ
  pub overflow : Bool

-- After `memset` to 0.
abbrev pub blank_page : ℕ → Page
blank_page n = record { size = n; cells = λ i. 0; overflow = false }

-- `*p = byte`
unfoldable pub write_at : ℕ → ℕ → Page → Page
write_at i byte p =
    if ltb i p.size
    then record p { cells = update p.cells i byte }
    else record p { overflow = true }

-- `SER_MEMCPY(p, bytes, n)`: the bytes from index `i` on.
unfoldable pub write_all : ℕ → List ℕ → Page → Page
write_all i [] p = p
write_all i (byte ∷ bytes) p = write_all (i + 1) bytes (write_at i byte p)

-- The first `n` bytes from index `i` on.
abbrev pub read_from : ℕ → ℕ → Page → List ℕ
read_from i zero p = []
read_from i (suc n) p = p.cells i ∷ read_from (i + 1) n p

-- The bytes from index `i` up to the first NUL, `left` of them at most.
abbrev pub c_string : ℕ → ℕ → Page → List ℕ
c_string i zero p = []
c_string i (suc left) p =
    let rest = c_string (i + 1) left p in if p.cells i == 0 then [] else p.cells i ∷ rest
