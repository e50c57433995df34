-- ===== src/Common/Bits.antt =====
-- Laws of the native bit operations at variables: an equation for the lowest digit of each,
-- and by it the group laws of `bit_xor` and what a one-bit mask does.
use Prim.Native.Nat.{min, max, bit_xor, bit_and, bit_or, digits, bitwise}
use Prim.Native.Nat.{bit_xor-bitwise, bit_and-bitwise, bit_or-bitwise, differ}
use native.Mathlib.Nat.{pow-suc}
use linux_communication.Common.{
  ℕ, zero, suc, ◌+◌, ◌*◌, ◌/◌, ◌%◌, ◌^◌, ◌≤◌, ◌<◌, ◌≡◌, refl, sym, ◌∙◌, ap, arith,
}

module _ (z : ℕ → ℕ) (f : ℕ → ℕ → ℕ) where
  digits_enough : (u v a b : ℕ) → a ≤ u → a ≤ v → digits z f u a b ≡ digits z f v a b
  digits_enough zero zero a b h k = refl
  digits_enough zero (suc v) zero b h k = refl
  digits_enough zero (suc v) (suc a) b h k = absurd (omega arith)
  digits_enough (suc u) zero zero b h k = refl
  digits_enough (suc u) zero (suc a) b h k = absurd (omega arith)
  digits_enough (suc u) (suc v) zero b h k = refl
  digits_enough (suc u) (suc v) (suc a) b h k =
      omega (arith, digits_enough u v (suc a / 2) (b / 2) (omega arith) (omega arith))

  bitwise_next :
      (a b : ℕ)
      → bitwise z f (suc a) b ≡ bitwise z f (suc a / 2) (b / 2) * 2 + f (suc a % 2) (b % 2)
  bitwise_next a b =
      omega (arith, digits_enough a (suc a / 2) (suc a / 2) (b / 2) (omega arith) (omega arith))

differ-digit : (x y : ℕ) → x < 2 → y < 2 → differ x y ≡ (x + y) % 2
differ-digit zero zero p q = refl
differ-digit zero (suc zero) p q = refl
differ-digit zero (suc (suc y)) p q = absurd (omega arith)
differ-digit (suc zero) zero p q = refl
differ-digit (suc zero) (suc zero) p q = refl
differ-digit (suc zero) (suc (suc y)) p q = absurd (omega arith)
differ-digit (suc (suc x)) y p q = absurd (omega arith)

pub xor_step : (a b : ℕ) → bit_xor a b ≡ bit_xor (a / 2) (b / 2) * 2 + (a % 2 + b % 2) % 2
xor_step zero b = omega (arith, bit_xor-bitwise 0 b, bit_xor-bitwise 0 (b / 2))
xor_step (suc a) b = omega (
  arith,
  bit_xor-bitwise (suc a) b,
  bit_xor-bitwise (suc a / 2) (b / 2),
  bitwise_next (λ y. y) differ a b,
  differ-digit (suc a % 2) (b % 2) (omega arith) (omega arith),
)

pub and_step : (a b : ℕ) → bit_and a b ≡ bit_and (a / 2) (b / 2) * 2 + min (a % 2) (b % 2)
and_step zero b = omega (arith, bit_and-bitwise 0 b, bit_and-bitwise 0 (b / 2))
and_step (suc a) b = omega (
  arith,
  bit_and-bitwise (suc a) b,
  bit_and-bitwise (suc a / 2) (b / 2),
  bitwise_next (λ y. 0) min a b,
)

pub or_step : (a b : ℕ) → bit_or a b ≡ bit_or (a / 2) (b / 2) * 2 + max (a % 2) (b % 2)
or_step zero b = omega (arith, bit_or-bitwise 0 b, bit_or-bitwise 0 (b / 2))
or_step (suc a) b = omega (
  arith,
  bit_or-bitwise (suc a) b,
  bit_or-bitwise (suc a / 2) (b / 2),
  bitwise_next (λ y. y) max a b,
)

pub xor-div_two : (a b : ℕ) → bit_xor a b / 2 ≡ bit_xor (a / 2) (b / 2)
xor-div_two a b = omega (arith, xor_step a b)

pub xor-mod_two : (a b : ℕ) → bit_xor a b % 2 ≡ (a + b) % 2
xor-mod_two a b = omega (arith, xor_step a b)

pub xor-lt : (k a b : ℕ) → a < 2 ^ k → b < 2 ^ k → bit_xor a b < 2 ^ k
xor-lt zero a b h l =
    let p : a ≡ 0 = omega arith in let q : b ≡ 0 = omega arith in rw (p, q) (omega arith)
xor-lt (suc k) a b h l = omega (
  arith,
  pow-suc 2 k,
  xor_step a b,
  xor-lt k (a / 2) (b / 2) (omega (arith, pow-suc 2 k)) (omega (arith, pow-suc 2 k)),
)

pub half_shift : (q k : ℕ) → q * 2 ^ suc k ≡ q * 2 ^ k * 2
half_shift q k = omega (arith, ap (λ (t : ℕ). q * t) (pow-suc 2 k))

half_of_shift : (q k : ℕ) → q * 2 ^ suc k / 2 ≡ q * 2 ^ k
half_of_shift q k = omega (arith, half_shift q k)

xor_comm_within : (n a b : ℕ) → a ≤ n → b ≤ n → bit_xor a b ≡ bit_xor b a
xor_comm_within zero zero zero p q = refl
xor_comm_within zero zero (suc b) p q = absurd (omega arith)
xor_comm_within zero (suc a) b p q = absurd (omega arith)
xor_comm_within (suc n) a b p q = omega (
  arith,
  xor_step a b,
  xor_step b a,
  xor_comm_within n (a / 2) (b / 2) (omega arith) (omega arith),
)

pub xor_comm : (a b : ℕ) → bit_xor a b ≡ bit_xor b a
xor_comm a b = xor_comm_within (a + b) a b (omega arith) (omega arith)

xor_assoc_within :
    (n a b c : ℕ) → a ≤ n → b ≤ n → c ≤ n → bit_xor (bit_xor a b) c ≡ bit_xor a (bit_xor b c)
xor_assoc_within zero zero zero zero p q r = refl
xor_assoc_within zero zero zero (suc c) p q r = absurd (omega arith)
xor_assoc_within zero zero (suc b) c p q r = absurd (omega arith)
xor_assoc_within zero (suc a) b c p q r = absurd (omega arith)
xor_assoc_within (suc n) a b c p q r =
    let lower =
      xor_assoc_within n (a / 2) (b / 2) (c / 2) (omega arith) (omega arith) (omega arith) in
    xor_step (bit_xor a b) c
    ∙ ground (
      arith,
      lower,
      xor-div_two a b,
      xor-mod_two a b,
      xor-div_two b c,
      xor-mod_two b c,
      xor_step a (bit_xor b c),
    )

pub xor_assoc : (a b c : ℕ) → bit_xor (bit_xor a b) c ≡ bit_xor a (bit_xor b c)
xor_assoc a b c = xor_assoc_within (a + b + c) a b c (omega arith) (omega arith) (omega arith)

pub zero-xor : (a : ℕ) → bit_xor 0 a ≡ a
zero-xor a = bit_xor-bitwise 0 a

xor_self_within : (n a : ℕ) → a ≤ n → bit_xor a a ≡ 0
xor_self_within zero zero p = refl
xor_self_within zero (suc a) p = absurd (omega arith)
xor_self_within (suc n) a p = omega (arith, xor_step a a, xor_self_within n (a / 2) (omega arith))

pub xor_self : (a : ℕ) → bit_xor a a ≡ 0
xor_self a = xor_self_within a a (omega arith)

pub xor-xor_self : (a b : ℕ) → bit_xor a (bit_xor a b) ≡ b
xor-xor_self a b = rw (← xor_assoc a a b, xor_self a) (zero-xor b)

pub xor_cancel : (a b c : ℕ) → bit_xor a b ≡ bit_xor a c → b ≡ c
xor_cancel a b c h = sym (xor-xor_self a b) ∙ ap (bit_xor a) h ∙ xor-xor_self a c

pub xor-zero : (a : ℕ) → bit_xor a 0 ≡ a
xor-zero a = xor_comm a 0 ∙ zero-xor a

pub eq_of_xor-zero : (a b : ℕ) → bit_xor a b ≡ 0 → a ≡ b
eq_of_xor-zero a b h = sym (xor_cancel a b a (h ∙ sym (xor_self a)))

-- The exclusive or of sums pairs up.
pub xor_medial :
    (a b c d : ℕ) → bit_xor (bit_xor a b) (bit_xor c d) ≡ bit_xor (bit_xor a c) (bit_xor b d)
xor_medial a b c d = cc (
  xor_assoc a b (bit_xor c d),
  xor_assoc b c d,
  xor_comm b c,
  xor_assoc c b d,
  xor_assoc a c (bit_xor b d),
)

-- Digits above `k` and digits below it do not meet.
pub xor_fields : (k q r : ℕ) → r < 2 ^ k → bit_xor (q * 2 ^ k) r ≡ q * 2 ^ k + r
xor_fields zero q r h = let e : r ≡ 0 = omega arith in rw (e, xor-zero (q * 2 ^ 0)) (omega arith)
xor_fields (suc k) q r h = omega (
  arith,
  xor_step (q * 2 ^ suc k) r,
  half_shift q k,
  xor_fields k q (r / 2) (omega (arith, pow-suc 2 k)),
  ap (λ (t : ℕ). bit_xor t (r / 2)) (half_of_shift q k),
)

and-zero_within : (n a : ℕ) → a ≤ n → bit_and a 0 ≡ 0
and-zero_within n zero p = refl
and-zero_within zero (suc a) p = absurd (omega arith)
and-zero_within (suc n) (suc a) p =
    omega (arith, and_step (suc a) 0, and-zero_within n (suc a / 2) (omega arith))

pub and-zero : (a : ℕ) → bit_and a 0 ≡ 0
and-zero a = and-zero_within a a (omega arith)

pub and-one : (a : ℕ) → bit_and a 1 ≡ a % 2
and-one a = omega (arith, and_step a 1, and-zero (a / 2))

-- The mask of a nibble, and that of a byte.
pub and-0xf : (a : ℕ) → bit_and a 0xf ≡ a % 16
and-0xf a =
    omega
      (arith, and_step a 15, and_step (a / 2) 7, and_step (a / 2 / 2) 3, and-one (a / 2 / 2 / 2))

pub and-0xff : (a : ℕ) → bit_and a 0xff ≡ a % 256
and-0xff a = omega (
  arith,
  and_step a 255,
  and_step (a / 2) 127,
  and_step (a / 2 / 2) 63,
  and_step (a / 2 / 2 / 2) 31,
  and-0xf (a / 2 / 2 / 2 / 2),
)

-- The mask of one bit, which an or with it sets, and an and with its complement takes off.
pub and-four : (a : ℕ) → bit_and a 4 ≡ a / 4 % 2 * 4
and-four a = omega (arith, and_step a 4, and_step (a / 2) 2, and-one (a / 2 / 2))

pub or-and-four : (a : ℕ) → bit_and (bit_or a 4) 4 ≡ 4
or-and-four a =
    omega (arith, and-four (bit_or a 4), or_step a 4, or_step (a / 2) 2, or_step (a / 2 / 2) 1)

pub and-and-four : (a : ℕ) → bit_and (bit_and a 0xfffffffb) 4 ≡ 0
and-and-four a = omega (
  arith,
  and-four (bit_and a 0xfffffffb),
  and_step a 0xfffffffb,
  and_step (a / 2) 0x7ffffffd,
  and_step (a / 2 / 2) 0x3ffffffe,
)
