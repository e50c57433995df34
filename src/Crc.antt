-- ===== src/Crc.antt =====
-- misc/ser_crc32.cxx: the class SerCRC32.
pub mod Serial
pub mod Table
pub mod Detect
use linux_communication.Common.{
  ℕ, zero, suc, ◌+◌, ◌-◌, ◌*◌, ◌/◌, ◌%◌, ◌^◌, ◌≡◌, refl, List, [], ◌∷◌, u32, get_or, if◌then◌else◌,
  ◌==◌, Bool, ◌++◌,
}
use Prim.Native.Nat.{bit_and, bit_or, bit_xor}

-- `ulPolynomial`
abbrev pub polynomial : ℕ
polynomial = 0x04c11db7

-- The loop of `Reflect` with `left` rounds to go, at `i = ch + 1 - left`.
reflect_loop : ℕ → ℕ → ℕ → ℕ
reflect_loop zero ref value = value
reflect_loop (suc left) ref value =
    reflect_loop left (ref / 2) (if bit_and ref 1 == 1 then bit_or value (2 ^ left) else value)

-- `Reflect(ref, ch)`: `ch - i` of round `i` is the number of rounds that follow.
reflect : ℕ → ℕ → ℕ
unfolding reflect_loop
reflect ref ch = reflect_loop ch ref 0

-- The inner loop of `Init_CRC32_Table`.
shift_rounds : ℕ → ℕ → ℕ
shift_rounds zero entry = entry
shift_rounds (suc left) entry =
    shift_rounds left
      (bit_xor (u32 (entry * 2)) (if bit_and entry (2 ^ 31) == 0 then 0 else polynomial))

-- `crc32_table[i]` as the outer loop leaves it.
table_entry : ℕ → ℕ
unfolding reflect shift_rounds
table_entry i = reflect (shift_rounds 8 (u32 (reflect i 8 * 2 ^ 24))) 32

table_from : ℕ → ℕ → List ℕ
table_from zero i = []
table_from (suc left) i = table_entry i ∷ table_from left (i + 1)

-- `Init_CRC32_Table`
pub init_crc32_table : List ℕ
unfolding table_from table_entry
init_crc32_table = table_from 256 0

-- One round of the loop of `Get_CRC`.
pub crc_step : ℕ → ℕ → ℕ
crc_step crc byte =
    bit_xor (crc / 2 ^ 8) (get_or init_crc32_table (bit_xor (bit_and crc 0xff) byte) 0)

pub crc_loop : ℕ → List ℕ → ℕ
crc_loop crc [] = crc
crc_loop crc (b ∷ bs) = crc_loop (crc_step crc b) bs

-- `Get_CRC(buffer, dwSize)` over the `dwSize` bytes from `buffer` on. The C++ result type is
-- `int`; the value is kept as its 32-bit pattern.
unfoldable pub get_crc : List ℕ → ℕ
unfolding crc_loop crc_step init_crc32_table
get_crc bytes = bit_xor (crc_loop 0xffffffff bytes) 0xffffffff
