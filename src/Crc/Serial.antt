-- ===== src/Crc/Serial.antt =====
-- The reference: the reflected CRC-32 of IEEE 802.3, one bit at a time, with no table.
use Prim.Native.Nat.{bit_xor}
use linux_communication.Common.{
  ℕ, zero, suc, ◌+◌, ◌*◌, ◌/◌, ◌%◌, ◌^◌, ◌<◌, ◌≡◌, refl, sym, ◌∙◌, ap, arith, List, [], ◌∷◌, ◌⊎◌,
  inl, inr,
}
use linux_communication.Common.Bits.{
  xor-div_two, xor-mod_two, xor_medial, xor-zero, xor_self, xor-lt, eq_of_xor-zero, half_shift,
}

-- `0x04c11db7` with its 32 bits in reverse order.
abbrev pub reflected : ℕ
reflected = 0xedb88320

-- What the bit that is shifted out feeds back.
abbrev pub feedback : ℕ → ℕ
feedback zero = 0
feedback (suc n) = reflected

unfoldable pub shift_bit : ℕ → ℕ
shift_bit x = bit_xor (x / 2) (feedback (x % 2))

unfoldable pub shift_bits : ℕ → ℕ → ℕ
shift_bits zero x = x
shift_bits (suc n) x = shift_bits n (shift_bit x)

unfoldable pub serial_loop : ℕ → List ℕ → ℕ
serial_loop crc [] = crc
serial_loop crc (b ∷ bs) = serial_loop (shift_bits 8 (bit_xor crc b)) bs

-- The register starts with all ones, and all its bits are inverted at the end.
unfoldable pub serial_crc : List ℕ → ℕ
unfolding serial_loop
serial_crc bytes = bit_xor (serial_loop 0xffffffff bytes) 0xffffffff

mod_two : (n : ℕ) → (n % 2 ≡ 0) ⊎ (n % 2 ≡ 1)
mod_two n = omega arith

feedback-xor :
    (a b : ℕ) → a < 2 → b < 2 → feedback ((a + b) % 2) ≡ bit_xor (feedback a) (feedback b)
feedback-xor zero zero p q = refl
feedback-xor zero (suc zero) p q = refl
feedback-xor (suc zero) zero p q = refl
feedback-xor (suc zero) (suc zero) p q = sym (xor_self reflected)
feedback-xor zero (suc (suc b)) p q = absurd (omega arith)
feedback-xor (suc zero) (suc (suc b)) p q = absurd (omega arith)
feedback-xor (suc (suc a)) b p q = absurd (omega arith)

-- A shift is linear.
pub shift_bit-xor : (x y : ℕ) → shift_bit (bit_xor x y) ≡ bit_xor (shift_bit x) (shift_bit y)
unfolding shift_bit
shift_bit-xor x y =
    let parity : bit_xor x y % 2 ≡ (x % 2 + y % 2) % 2 = omega (arith, xor-mod_two x y) in
    rw (xor-div_two x y, parity, feedback-xor (x % 2) (y % 2) (omega arith) (omega arith))
      (xor_medial (x / 2) (y / 2) (feedback (x % 2)) (feedback (y % 2)))

pub shift_bits-xor :
    (n x y : ℕ) → shift_bits n (bit_xor x y) ≡ bit_xor (shift_bits n x) (shift_bits n y)
unfolding shift_bits
shift_bits-xor zero x y = refl
shift_bits-xor (suc n) x y =
    ap (shift_bits n) (shift_bit-xor x y) ∙ shift_bits-xor n (shift_bit x) (shift_bit y)

shift_bit-double : (q : ℕ) → shift_bit (q * 2) ≡ q
unfolding shift_bit
shift_bit-double q =
    let half : q * 2 / 2 ≡ q = omega arith in
    let even : q * 2 % 2 ≡ 0 = omega arith in rw (half, even) (xor-zero q)

-- `n` shifts of a number whose low `n` bits are zero drop those bits.
pub shift_bits-fields : (n q : ℕ) → shift_bits n (q * 2 ^ n) ≡ q
unfolding shift_bits
shift_bits-fields zero q = omega arith
shift_bits-fields (suc n) q =
    rw (half_shift q n, shift_bit-double (q * 2 ^ n)) (shift_bits-fields n q)

-- No shift loses information in a 32-bit register: only zero goes to zero.
shift_bit-eq_zero : (x : ℕ) → x < 2 ^ 32 → shift_bit x ≡ 0 → x ≡ 0
unfolding shift_bit
shift_bit-eq_zero x h e = elim (mod_two x) [
  | inl even ↦ omega (arith, xor-zero (x / 2), rw even at e)
  | inr odd ↦ absurd (omega (arith, eq_of_xor-zero (x / 2) reflected (rw odd at e)))
]

pub shift_bit-lt : (x : ℕ) → x < 2 ^ 32 → shift_bit x < 2 ^ 32
unfolding shift_bit
shift_bit-lt x h = elim (mod_two x) [
  | inl even ↦ rw even (xor-lt 32 (x / 2) 0 (omega arith) (omega arith))
  | inr odd ↦ rw odd (xor-lt 32 (x / 2) reflected (omega arith) (omega arith))
]

pub shift_bits-lt : (n x : ℕ) → x < 2 ^ 32 → shift_bits n x < 2 ^ 32
unfolding shift_bits
shift_bits-lt zero x h = h
shift_bits-lt (suc n) x h = shift_bits-lt n (shift_bit x) (shift_bit-lt x h)

pub shift_bits-eq_zero : (n x : ℕ) → x < 2 ^ 32 → shift_bits n x ≡ 0 → x ≡ 0
unfolding shift_bits
shift_bits-eq_zero zero x h e = e
shift_bits-eq_zero (suc n) x h e =
    shift_bit-eq_zero x h (shift_bits-eq_zero n (shift_bit x) (shift_bit-lt x h) e)
