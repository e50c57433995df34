-- ===== src/Crc/Detect.antt =====
-- What the checksum detects.
use Prim.Native.Nat.{bit_xor}
use linux_communication.Common.{
  ℕ, ◌^◌, ◌<◌, ◌≡◌, refl, ◌≢◌, sym, ◌∙◌, ap, arith, List, [], ◌∷◌, ◌++◌,
}
use linux_communication.Common.Bits.{xor-lt, xor_comm, xor_cancel, xor_self, eq_of_xor-zero}
use linux_communication.Crc.Serial.{
  shift_bits, serial_loop, serial_crc, shift_bits-xor, shift_bits-lt, shift_bits-eq_zero,
}
use linux_communication.Crc.Table.{AreBytes, get_crc-serial}
use linux_communication.Crc.{get_crc}

-- The registers after eight shifts differ if those before them did.
shift_bits-injective :
    (n x y : ℕ) → x < 2 ^ 32 → y < 2 ^ 32 → shift_bits n x ≡ shift_bits n y → x ≡ y
shift_bits-injective n x y h l e = eq_of_xor-zero x y (
    shift_bits-eq_zero n (bit_xor x y) (xor-lt 32 x y h l) (
      shift_bits-xor n x y
      ∙ ap (λ (t : ℕ). bit_xor t (shift_bits n y)) e
      ∙ xor_self (shift_bits n y)))

xor_cancel_right : (a b c : ℕ) → bit_xor b a ≡ bit_xor c a → b ≡ c
xor_cancel_right a b c h = xor_cancel a b c (xor_comm a b ∙ h ∙ xor_comm c a)

xor_byte-lt : (x b : ℕ) → x < 2 ^ 32 → b < 2 ^ 8 → bit_xor x b < 2 ^ 32
xor_byte-lt x b h l = xor-lt 32 x b h (omega arith)

serial_loop-injective :
    (bs : List ℕ) (x y : ℕ)
    → AreBytes bs
    → x < 2 ^ 32
    → y < 2 ^ 32
    → serial_loop x bs ≡ serial_loop y bs
    → x ≡ y
unfolding serial_loop
serial_loop-injective [] x y a h l e = e
serial_loop-injective (b ∷ bs) x y a h l e =
    let hx = xor_byte-lt x b h a.0 in
    let hy = xor_byte-lt y b l a.0 in
    xor_cancel_right b x y (
      shift_bits-injective 8 (bit_xor x b) (bit_xor y b) hx hy (
        serial_loop-injective bs (shift_bits 8 (bit_xor x b)) (shift_bits 8 (bit_xor y b)) a.1
          (shift_bits-lt 8 (bit_xor x b) hx) (shift_bits-lt 8 (bit_xor y b) hy) e))

serial_loop-lt : (bs : List ℕ) (x : ℕ) → AreBytes bs → x < 2 ^ 32 → serial_loop x bs < 2 ^ 32
unfolding serial_loop
serial_loop-lt [] x a h = h
serial_loop-lt (b ∷ bs) x a h =
    serial_loop-lt bs (shift_bits 8 (bit_xor x b)) a.1
      (shift_bits-lt 8 (bit_xor x b) (xor_byte-lt x b h a.0))

serial_loop-append :
    (xs ys : List ℕ) (x : ℕ) → serial_loop x (xs ++ ys) ≡ serial_loop (serial_loop x xs) ys
unfolding serial_loop
serial_loop-append [] ys x = refl
serial_loop-append (b ∷ xs) ys x = serial_loop-append xs ys (shift_bits 8 (bit_xor x b))

pub AreBytes-append : (xs ys : List ℕ) → AreBytes xs → AreBytes ys → AreBytes (xs ++ ys)
AreBytes-append [] ys a c = c
AreBytes-append (x ∷ xs) ys a c = (a.0, AreBytes-append xs ys a.1 c)

serial_crc-lt : (bytes : List ℕ) → AreBytes bytes → serial_crc bytes < 2 ^ 32
unfolding serial_crc
serial_crc-lt bytes h =
    xor-lt 32 (serial_loop 0xffffffff bytes) 0xffffffff
      (serial_loop-lt bytes 0xffffffff h (omega arith)) (omega arith)

serial_crc_detects :
    (before after : List ℕ) (b c : ℕ)
    → AreBytes before
    → AreBytes after
    → b < 2 ^ 8
    → c < 2 ^ 8
    → serial_crc (before ++ (b ∷ after)) ≡ serial_crc (before ++ (c ∷ after))
    → b ≡ c
unfolding serial_crc serial_loop
serial_crc_detects before after b c h k p q e =
    let x = serial_loop 0xffffffff before in
    let hx = serial_loop-lt before 0xffffffff h (omega arith) in
    let hb = xor_byte-lt x b hx p in
    let hc = xor_byte-lt x c hx q in
    xor_cancel x b c (
      shift_bits-injective 8 (bit_xor x b) (bit_xor x c) hb hc (
        serial_loop-injective after (shift_bits 8 (bit_xor x b)) (shift_bits 8 (bit_xor x c)) k
          (shift_bits-lt 8 (bit_xor x b) hb) (shift_bits-lt 8 (bit_xor x c) hc)
          (sym (serial_loop-append before (b ∷ after) 0xffffffff)
            ∙ xor_cancel_right 0xffffffff _ _ e
            ∙ serial_loop-append before (c ∷ after) 0xffffffff)))

-- Two packet bodies that differ in exactly one byte, wherever it stands, have different
-- checksums.
pub get_crc_detects :
    (before after : List ℕ) (b c : ℕ)
    → AreBytes before
    → AreBytes after
    → b < 2 ^ 8
    → c < 2 ^ 8
    → b ≢ c
    → get_crc (before ++ (b ∷ after)) ≢ get_crc (before ++ (c ∷ after))
get_crc_detects before after b c h k p q ne e = ne (
    serial_crc_detects before after b c h k p q (
      sym (get_crc-serial _ (AreBytes-append before (b ∷ after) h (p, k)))
      ∙ e
      ∙ get_crc-serial _ (AreBytes-append before (c ∷ after) h (q, k))))

-- The checksum fits the four bytes of its field.
pub get_crc-lt : (bytes : List ℕ) → AreBytes bytes → get_crc bytes < 2 ^ 32
get_crc-lt bytes h = rw (get_crc-serial bytes h) (serial_crc-lt bytes h)
