-- ===== src/Log/Digits.antt =====
-- The digits of ser_sprinf_number.
use linux_communication.Common.{
  ℕ, zero, suc, ◌+◌, ◌-◌, ◌*◌, ◌/◌, ◌%◌, ◌^◌, ◌≤◌, ◌<◌, ◌≡◌, ◌⊎◌, refl, sym, ◌∙◌, ap, arith, List,
  [], ◌∷◌, length, inl, inr, ltb, ◌==◌, if_false, if◌then◌else◌,
}
use native.Mathlib.Nat.{pow-suc, pow-zero}
use linux_communication.Log.Number.{digit_loop, digits_of, decimal_digit, lower_digit, upper_digit}

-- The number that a list of digits stands for, read from the left, after the number `n`.
pub value_of : (ℕ → ℕ) → ℕ → ℕ → List ℕ → ℕ
value_of read base n [] = n
value_of read base n (ch ∷ rest) = value_of read base (n * base + read ch) rest

-- What a digit character stands for.
abbrev pub read_digit : ℕ → ℕ
read_digit ch =
    if ltb ch b'A' then ch - b'0' else if ltb ch b'a' then ch - b'A' + 10 else ch - b'a' + 10

zero_or {ℓ} :
    {A : Type ℓ} (q : ℕ) (x y : A)
    → ((q ≡ 0) × ((if q == 0 then x else y) ≡ x)) ⊎ ((0 < q) × ((if q == 0 then x else y) ≡ y))
zero_or zero x y = inl (refl, refl)
zero_or (suc q) x y = inr (omega arith, if_false (suc q == 0) x y (ground arith))

module _ (base : ℕ) (digit : ℕ → ℕ) (parts : (n : ℕ) → n / base * base + n % base ≡ n)
    (quotient : (n b : ℕ) → n < b * base → n / base < b) where
  fits_less : (n k : ℕ) → n < base ^ suc k → n / base < base ^ k
  fits_less n k h = quotient n (base ^ k) (rw (pow-suc base k) at h)

  fits_one : (n : ℕ) → n < base ^ 1 → n / base < 1
  fits_one n h = rw (pow-zero base) at (fits_less n 0 h)

  -- The last round, and any other.
  digit_loop-cases :
      (fuel n : ℕ) (done : List ℕ)
      → ((n / base ≡ 0) × (digit_loop base digit (suc fuel) n done ≡ digit (n % base) ∷ done))
        ⊎ ((0 < n / base)
            × (digit_loop base digit (suc fuel) n done
                ≡ digit_loop base digit fuel (n / base) (digit (n % base) ∷ done)))
  unfolding digit_loop
  digit_loop-cases fuel n done =
      zero_or (n / base) (digit (n % base) ∷ done)
        (digit_loop base digit fuel (n / base) (digit (n % base) ∷ done))

  digit_loop-length :
      (fuel k n : ℕ) (done : List ℕ)
      → suc k ≤ fuel
      → n < base ^ suc k
      → length (digit_loop base digit fuel n done) ≤ suc k + length done
  digit_loop-length zero k n done h l = absurd (omega arith)
  digit_loop-length (suc fuel) zero n done h l = elim (digit_loop-cases fuel n done) [
    | inl (e, p) ↦ rw p (omega arith)
    | inr (e, p) ↦ absurd (omega (arith, e, fits_one n l))
  ]
  digit_loop-length (suc fuel) (suc k) n done h l = elim (digit_loop-cases fuel n done) [
    | inl (e, p) ↦ rw p (omega arith)
    | inr (e, p) ↦ rw p (
        omega (
          arith,
          digit_loop-length fuel k (n / base) (digit (n % base) ∷ done) (omega (arith, h))
              (fits_less n (suc k) l),
        ))
  ]

  module _ (read : ℕ → ℕ) (reads : (n : ℕ) → read (digit (n % base)) ≡ n % base) where
    value_of-step :
        (n : ℕ) (done : List ℕ)
        → value_of read base (n / base) (digit (n % base) ∷ done) ≡ value_of read base n done
    unfolding value_of
    value_of-step n done =
        ap (λ v. value_of read base v done) (ap (λ d. n / base * base + d) (reads n) ∙ parts n)

    value_of-last :
        (n : ℕ) (done : List ℕ)
        → n / base ≡ 0
        → value_of read base 0 (digit (n % base) ∷ done) ≡ value_of read base n done
    value_of-last n done e =
        ap (λ q. value_of read base q (digit (n % base) ∷ done)) (sym e) ∙ value_of-step n done

    digit_loop-value :
        (fuel k n : ℕ) (done : List ℕ)
        → suc k ≤ fuel
        → n < base ^ suc k
        → value_of read base 0 (digit_loop base digit fuel n done) ≡ value_of read base n done
    digit_loop-value zero k n done h l = absurd (omega arith)
    digit_loop-value (suc fuel) zero n done h l = elim (digit_loop-cases fuel n done) [
      | inl (e, p) ↦ ap (value_of read base 0) p ∙ value_of-last n done e
      | inr (e, p) ↦ absurd (omega (arith, e, fits_one n l))
    ]
    digit_loop-value (suc fuel) (suc k) n done h l = elim (digit_loop-cases fuel n done) [
      | inl (e, p) ↦ ap (value_of read base 0) p ∙ value_of-last n done e
      | inr (e, p) ↦
          ap (value_of read base 0) p
          ∙ digit_loop-value fuel k (n / base) (digit (n % base) ∷ done) (omega (arith, h))
              (fits_less n (suc k) l)
          ∙ value_of-step n done
    ]

    digit_loop_lem :
        (k n : ℕ)
        → k < 20
        → n < base ^ suc k
        → (length (digit_loop base digit 64 n []) ≤ 20)
          × (value_of read base 0 (digit_loop base digit 64 n []) ≡ n)
    unfolding value_of
    digit_loop_lem k n h l = (
      omega (arith, digit_loop-length 64 k n [] (omega (arith, h)) l, h),
      digit_loop-value 64 k n [] (omega (arith, h)) l,
    )

decimal-parts : (n : ℕ) → n / 10 * 10 + n % 10 ≡ n
decimal-parts n = omega arith

decimal-quotient : (n b : ℕ) → n < b * 10 → n / 10 < b
decimal-quotient n b h = omega arith

hex-parts : (n : ℕ) → n / 16 * 16 + n % 16 ≡ n
hex-parts n = omega arith

hex-quotient : (n b : ℕ) → n < b * 16 → n / 16 < b
hex-quotient n b h = omega arith

read-decimal : (n : ℕ) → read_digit (decimal_digit (n % 10)) ≡ n % 10
read-decimal n = ground arith

read-lower : (n : ℕ) → read_digit (lower_digit (n % 16)) ≡ n % 16
read-lower n = ground arith

read-upper : (n : ℕ) → read_digit (upper_digit (n % 16)) ≡ n % 16
read-upper n = ground arith

-- For n < 2 ^ 64 the digits that `digits_of` makes, decimal (`hex` 0), hexadecimal in lower case (1)
-- or in upper case (2), are at most 20, so that they stay inside the array `temp`, and read back to n.
pub digits_of_lem :
    (hex n : ℕ)
    → hex ≤ 2
    → n < 2 ^ 64
    → (length (digits_of hex n) ≤ 20)
      × (value_of read_digit (if hex == 0 then 10 else 16) 0 (digits_of hex n) ≡ n)
unfolding digits_of
digits_of_lem zero n h l =
    digit_loop_lem 10 decimal_digit decimal-parts decimal-quotient read_digit read-decimal 19 n
      (omega arith) (omega arith)
digits_of_lem (suc zero) n h l =
    digit_loop_lem 16 lower_digit hex-parts hex-quotient read_digit read-lower 15 n (omega arith)
      (omega arith)
digits_of_lem (suc (suc zero)) n h l =
    digit_loop_lem 16 upper_digit hex-parts hex-quotient read_digit read-upper 15 n (omega arith)
      (omega arith)
digits_of_lem (suc (suc (suc k))) n h l = absurd (omega arith)
