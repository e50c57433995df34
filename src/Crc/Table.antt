-- ===== src/Crc/Table.antt =====
-- Get_CRC with its table against the bit-serial reference.
use Prim.Native.Nat.{bit_xor, bit_and}
use mathlib.Core.Path.{◌≡⟨◌⟩◌, ◌∎}
use linux_communication.Common.{
  ℕ, zero, suc, ◌*◌, ◌/◌, ◌%◌, ◌^◌, ◌<◌, ◌≡◌, refl, sym, ◌∙◌, ap, arith, List, [], ◌∷◌, Bool, true,
  ◌&&◌, ◌==◌, get_or,
}
use linux_communication.Common.Bits.{xor-lt, xor_assoc, xor_fields, and-0xff}
use linux_communication.Crc.Serial.{
  shift_bit, shift_bits, serial_loop, serial_crc, shift_bits-xor, shift_bits-fields,
}
use linux_communication.Crc.{init_crc32_table, crc_step, crc_loop, get_crc}

-- Every item is a byte.
abbrev pub AreBytes : List ℕ → Type 0
AreBytes [] = Unit {0}
AreBytes (b ∷ bs) = (b < 2 ^ 8) × AreBytes bs

table_agrees : ℕ → Bool
table_agrees zero = true
table_agrees (suc n) = (get_or init_crc32_table n 0 == shift_bits 8 n) && table_agrees n

table_agrees_all : table_agrees 256 ≡ true
unfolding table_agrees init_crc32_table shift_bits shift_bit
table_agrees_all = refl

entry_of : (n i : ℕ) → table_agrees n ≡ true → i < n → get_or init_crc32_table i 0 ≡ shift_bits 8 i
unfolding table_agrees
entry_of zero i t h = absurd (omega arith)
entry_of (suc n) i t h = ground (arith, entry_of n i)

-- The table holds the effect of eight shifts on each byte.
pub init_crc32_table-shift_bits : (i : ℕ) → i < 256 → get_or init_crc32_table i 0 ≡ shift_bits 8 i
init_crc32_table-shift_bits i h = entry_of 256 i table_agrees_all h

split_register :
    (crc byte : ℕ) → bit_xor (crc / 2 ^ 8 * 2 ^ 8) (bit_xor (crc % 256) byte) ≡ bit_xor crc byte
split_register crc byte =
    sym (xor_assoc (crc / 2 ^ 8 * 2 ^ 8) (crc % 256) byte)
    ∙ ap (λ (t : ℕ). bit_xor t byte)
        (omega (arith, xor_fields 8 (crc / 2 ^ 8) (crc % 256) (omega arith)))

pub crc_step-shift_bits :
    (crc byte : ℕ) → byte < 2 ^ 8 → crc_step crc byte ≡ shift_bits 8 (bit_xor crc byte)
unfolding crc_step
crc_step-shift_bits crc byte h =
    bit_xor (crc / 2 ^ 8) (get_or init_crc32_table (bit_xor (bit_and crc 0xff) byte) 0)
    ≡⟨ (rw (and-0xff crc, init_crc32_table-shift_bits (bit_xor (crc % 256) byte) low)) ⟩
      bit_xor (crc / 2 ^ 8) (shift_bits 8 (bit_xor (crc % 256) byte))
    ≡⟨ (rw (shift_bits-fields 8 (crc / 2 ^ 8))) ⟩
      bit_xor (shift_bits 8 (crc / 2 ^ 8 * 2 ^ 8)) (shift_bits 8 (bit_xor (crc % 256) byte))
    ≡⟨ sym (shift_bits-xor 8 (crc / 2 ^ 8 * 2 ^ 8) (bit_xor (crc % 256) byte)) ⟩
      shift_bits 8 (bit_xor (crc / 2 ^ 8 * 2 ^ 8) (bit_xor (crc % 256) byte))
    ≡⟨ ap (shift_bits 8) (split_register crc byte) ⟩ shift_bits 8 (bit_xor crc byte) ∎
  where
    low : bit_xor (crc % 256) byte < 256
    low = xor-lt 8 (crc % 256) byte (omega arith) h

pub crc_loop-serial :
    (bytes : List ℕ) (crc : ℕ) → AreBytes bytes → crc_loop crc bytes ≡ serial_loop crc bytes
unfolding crc_loop serial_loop
crc_loop-serial [] crc h = refl
crc_loop-serial (b ∷ bs) crc h = rw (crc_step-shift_bits crc b h.0) (crc_loop-serial bs _ h.1)

-- For every list of bytes the table-driven checksum is the reflected CRC-32 computed one bit at
-- a time, without a table.
pub get_crc-serial : (bytes : List ℕ) → AreBytes bytes → get_crc bytes ≡ serial_crc bytes
unfolding get_crc serial_crc
get_crc-serial bytes h = ap (λ (t : ℕ). bit_xor t 0xffffffff) (crc_loop-serial bytes 0xffffffff h)
