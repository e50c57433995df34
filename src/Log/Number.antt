-- ===== src/Log/Number.antt =====
-- ser_sprinf_number.
use linux_communication.Common.{
  ℕ, zero, suc, ◌+◌, ◌-◌, ◌/◌, ◌%◌, List, [], ◌∷◌, length, take, ltb, ◌==◌, if◌then◌else◌,
}
use linux_communication.Log.{Page, write_at, write_all}

-- `uint64 % 10 + '0'`
abbrev pub decimal_digit : ℕ → ℕ
decimal_digit d = d + b'0'

-- `hexChar[d]` and `HEXChar[d]`
abbrev pub lower_digit : ℕ → ℕ
lower_digit d = if ltb d 10 then d + b'0' else d - 10 + b'a'

abbrev pub upper_digit : ℕ → ℕ
upper_digit d = if ltb d 10 then d + b'0' else d - 10 + b'A'

-- The `do`-`while` loops: the digits go to the front of `done`, the last one first. An unsigned
-- number of 64 bits has 64 digits at most in any base.
unfoldable pub digit_loop : ℕ → (ℕ → ℕ) → ℕ → ℕ → List ℕ → List ℕ
digit_loop base digit zero n done = done
digit_loop base digit (suc fuel) n done =
    let more = digit_loop base digit fuel (n / base) (digit (n % base) ∷ done) in
    if n / base == 0 then digit (n % base) ∷ done else more

-- The digits by the argument `hex`.
unfoldable pub digits_of : ℕ → ℕ → List ℕ
digits_of zero n = digit_loop 10 decimal_digit 64 n []
digits_of (suc zero) n = digit_loop 16 lower_digit 64 n []
digits_of (suc (suc zero)) n = digit_loop 16 upper_digit 64 n []
digits_of (suc (suc (suc k))) n = []

-- The padding loop, with `left` characters to go: the place behind them, and the buffer.
unfoldable pub pad : ℕ → ℕ → ℕ → ℕ → Page → ℕ × Page
pad zero char_zero last w p = (w, p)
pad (suc left) char_zero last w p =
    let rest = pad left char_zero last (w + 1) (write_at w char_zero p) in
    if ltb w last then rest else (w, p)

-- How many of `n` digits are copied to `w`; `n` where the difference of the pointers is negative,
-- which as a `size_t` is larger than any number of digits.
abbrev pub digits_fitting : ℕ → ℕ → ℕ → ℕ
digits_fitting n w last = if ltb last (w + n) then (if ltb last w then n else last - w) else n

-- `ser_sprinf_number(w, last, n, char_zero, hex, width)`. It has its own copy of `pWrite`.
unfoldable pub ser_sprinf_number : ℕ → ℕ → ℕ → ℕ → ℕ → ℕ → Page → Page
ser_sprinf_number w last n char_zero hex width p =
    let digits = digits_of hex n in
    let (v, q) = pad (width - length digits) char_zero last w p in
    write_all v (take (digits_fitting (length digits) v last) digits) q
