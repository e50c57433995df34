-- ===== src/Log/Faults.antt =====
-- Formats that want another kind of argument than they get.
use linux_communication.Common.{
  ℕ, suc, ◌+◌, ◌≤◌, ◌<◌, ◌≡◌, refl, ◌∙◌, arith, List, [], ◌∷◌, ◌++◌, length, Bool, true, false,
  if_case, ltb, ◌||◌, ◌==◌,
}
use linux_communication.Log.{Page}
use linux_communication.Log.Format.{
  Arg, word, Printer, Spec, put, fail, put_number, put_integer, convert_integer, convert_text,
  convert, parse_width, parse_flags, convert_at, conversion, print_round, print_loop, run_format,
}

-- With room for `m` bytes and these arguments, the format ends in a fault.
pub Faults : ℕ → ℕ → ℕ → List ℕ → List Arg → Type 0
Faults last m fuel fmt args =
    (s : Printer)
    → s.args ≡ args
    → s.fault ≡ false
    → s.spot + m ≤ last
    → (print_loop fuel last fmt s).fault ≡ true

-- A text with the start of a conversion.
abbrev pub has_percent : List ℕ → Bool
has_percent [] = false
has_percent (ch ∷ rest) = (ch == b'%') || has_percent rest

-- A number with one more for each byte.
abbrev pub past : List ℕ → ℕ → ℕ
past [] n = n
past (ch ∷ rest) n = suc (past rest n)

module _ (last : ℕ) where
  -- A round that does not end in a fault is followed by the rest.
  round-Faults :
      (fuel ch : ℕ) (rest : List ℕ) (s : Printer)
      → s.spot < last
      → let (after, t) = print_round last ch rest s in
        (t.fault ≡ false → (print_loop fuel last after t).fault ≡ true)
        → (print_loop (suc fuel) last (ch ∷ rest) s).fault ≡ true
  unfolding print_loop
  round-Faults fuel ch rest s l h =
      let (after, t) = print_round last ch rest s in
      if_case (λ (u : Printer). u.fault ≡ true) (ltb s.spot last)
        (λ e. if_case (λ (u : Printer). u.fault ≡ true) t.fault (λ f. f) (λ f. h f))
        (λ e. absurd (ground (arith, e, l)))

  plain-Faults :
      (m fuel ch : ℕ) (rest : List ℕ) (args : List Arg)
      → (ch == b'%') ≡ false
      → Faults last m fuel rest args
      → Faults last (suc m) (suc fuel) (ch ∷ rest) args
  unfolding Faults print_round put
  plain-Faults m fuel ch rest args e h s a f l = round-Faults fuel ch rest s (omega (arith, l)) (
      if_case
        (λ (r : List ℕ × Printer). r.1.fault ≡ false → (print_loop fuel last r.0 r.1).fault ≡ true)
        (ch == b'%') (λ g. absurd (ground (arith, e, g)))
        (λ g k. h (put ch s) a f (omega (arith, l))))

  pub plain_text-Faults :
      (bytes : List ℕ) (m fuel : ℕ) (rest : List ℕ) (args : List Arg)
      → has_percent bytes ≡ false
      → Faults last m fuel rest args
      → Faults last (past bytes m) (past bytes fuel) (bytes ++ rest) args
  plain_text-Faults [] m fuel rest args e h = h
  plain_text-Faults (ch ∷ bytes) m fuel rest args e h =
      plain-Faults (past bytes m) (past bytes fuel) ch (bytes ++ rest) args (ground (arith, e))
        (plain_text-Faults bytes m fuel rest args (ground (arith, e)) h)

  put_integer-lem :
      (spec : Spec) (v : Bool × ℕ) (s : Printer)
      → let t = put_integer last spec v s in
        (t.args ≡ s.args) × (t.fault ≡ s.fault) × (t.spot ≤ s.spot + 1)
  unfolding put_integer put_number put
  put_integer-lem spec (true, n) s = (refl, refl, omega arith)
  put_integer-lem spec (false, n) s = (refl, refl, omega arith)

  -- What a conversion of an integer leaves.
  convert_integer-lem :
      (bits n : ℕ) (spec : Spec) (args : List Arg) (s : Printer)
      → let t = convert_integer last bits spec (word n ∷ args) s in
        (t.args ≡ args) × (t.fault ≡ s.fault) × (t.spot ≤ s.spot + 1)
  unfolding convert_integer
  convert_integer-lem bits n spec args s = put_integer-lem spec _ (record s { args = args })

  -- `%d`, for an integer.
  pub decimal-Faults :
      (m fuel n : ℕ) (rest : List ℕ) (args : List Arg)
      → Faults last m fuel rest args
      → Faults last (suc m) (suc fuel) (b'%' ∷ b'd' ∷ rest) (word n ∷ args)
  unfolding Faults print_round conversion parse_width parse_flags convert_at convert
  decimal-Faults m fuel n rest args h s a f l =
      round-Faults fuel b'%' (b'd' ∷ rest) s (omega (arith, l)) (λ g. rw a (
        let (b, c, d) = convert_integer-lem 32 n _ args (record s { args = word n ∷ args }) in
        h _ b (c ∙ f) (omega (arith, d, l))))

  -- `%s`, for an integer.
  pub text-Faults :
      (fuel n : ℕ) (rest : List ℕ) (args : List Arg)
      → Faults last 1 (suc fuel) (b'%' ∷ b's' ∷ rest) (word n ∷ args)
  unfolding Faults print_round conversion parse_width parse_flags convert_at convert convert_text
      fail
  text-Faults fuel n rest args s a f l =
      round-Faults fuel b'%' (b's' ∷ rest) s (omega (arith, l)) (λ g. absurd (cc (rw a at g)))

pub run_format-Faults :
    (w last m : ℕ) (fmt : List ℕ) (args : List Arg) (p : Page)
    → Faults last m (length fmt) fmt args
    → w + m ≤ last
    → (run_format w last fmt args p).fault ≡ true
unfolding run_format Faults
run_format-Faults w last m fmt args p h l =
    h (record { page = p; spot = w; args = args; frac_width = 0; fault = false }) refl refl l
