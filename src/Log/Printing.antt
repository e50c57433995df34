-- ===== src/Log/Printing.antt =====
-- Where ser_vslprintf writes.
use linux_communication.Common.{
  ℕ, zero, suc, ◌+◌, ◌^◌, ◌%◌, ◌≤◌, ◌<◌, arith, tests, List, [], ◌∷◌, length, Bool, true, false,
  if_case, ltb, ◌==◌, if◌then◌else◌,
}
use linux_communication.Log.{Page}
use linux_communication.Log.Bounds.{
  Within, Within-refl, Placed, write_at-Within, ser_sprinf_number-Within,
}
use linux_communication.Log.Format.{
  Double, Arg, word, text, double, Printer, Spec, signed, put, fail, put_number, put_integer,
  convert_integer, put_text, convert_text, put_fraction, put_double, convert_double, convert,
  convert_at, conversion, print_round, print_loop, run_format, ser_vslprintf,
}

module _ (lo last : ℕ) (p : Page) (fits : last ≤ p.size) where
  abbrev Sound : Printer → Type 0
  Sound s = Placed lo last p fits (s.spot, s.page)

  put-Sound : (byte : ℕ) (s : Printer) → s.spot < last → Sound s → Sound (put byte s)
  unfolding put
  put-Sound byte s l (h, m, w) =
      (omega (arith, h), omega (arith, l), write_at-Within lo last p fits s.spot byte s.page h l w)

  fail-Sound : (s : Printer) → Sound s → Sound (fail s)
  unfolding fail
  fail-Sound s h = h

  put_number-Sound :
      (n char_zero hex width : ℕ) (s : Printer)
      → Sound s
      → Sound (put_number last n char_zero hex width s)
  unfolding put_number
  put_number-Sound n char_zero hex width s (h, l, w) =
      (h, l, ser_sprinf_number-Within lo last p fits s.spot n char_zero hex width s.page h l w)

  put_integer-Sound :
      (spec : Spec) (v : Bool × ℕ) (s : Printer)
      → s.spot < last
      → Sound s
      → Sound (put_integer last spec v s)
  unfolding put_integer
  put_integer-Sound spec (true, n) s l h =
      put_number-Sound n spec.char_zero spec.hex spec.int_width (put b'-' s) (put-Sound b'-' s l h)
  put_integer-Sound spec (false, n) s l h =
      put_number-Sound n spec.char_zero spec.hex spec.int_width s h

  convert_integer-Sound :
      (bits : ℕ) (spec : Spec) (args : List Arg) (s : Printer)
      → s.spot < last
      → Sound s
      → Sound (convert_integer last bits spec args s)
  unfolding convert_integer
  convert_integer-Sound bits spec (word n ∷ args) s l h =
      put_integer-Sound spec (if spec.is_sign then signed bits n else (false, n % 2 ^ bits))
        (record s { args = args }) l h
  convert_integer-Sound bits spec (text t ∷ args) s l h = fail-Sound s h
  convert_integer-Sound bits spec (double d ∷ args) s l h = fail-Sound s h
  convert_integer-Sound bits spec [] s l h = fail-Sound s h

  put_text-Sound : (bytes : List ℕ) (s : Printer) → Sound s → Sound (put_text last bytes s)
  unfolding put_text
  put_text-Sound [] s h = h
  put_text-Sound (byte ∷ bytes) s h =
      if_case Sound (ltb s.spot last)
        (λ e. put_text-Sound bytes (put byte s) (put-Sound byte s (omega (tests, e)) h)) (λ e. h)

  convert_text-Sound : (args : List Arg) (s : Printer) → Sound s → Sound (convert_text last args s)
  unfolding convert_text
  convert_text-Sound (text t ∷ args) s h = put_text-Sound t (record s { args = args }) h
  convert_text-Sound (word n ∷ args) s h = fail-Sound s h
  convert_text-Sound (double d ∷ args) s h = fail-Sound s h
  convert_text-Sound [] s h = fail-Sound s h

  put_fraction-Sound : (fraction : ℕ) (s : Printer) → Sound s → Sound (put_fraction last fraction s)
  unfolding put_fraction
  put_fraction-Sound fraction s h =
      put_number-Sound fraction b'0' 0 s.frac_width (if ltb s.spot last then put b'.' s else s)
        (if_case Sound (ltb s.spot last) (λ e. put-Sound b'.' s (omega (tests, e)) h) (λ e. h))

  put_double-Sound :
      (spec : Spec) (d : Double) (s : Printer)
      → s.spot < last
      → Sound s
      → Sound (put_double last spec d s)
  unfolding put_double
  put_double-Sound spec d s l h =
      let t = if d.negative then put b'-' s else s in
      let scale = 10 ^ t.frac_width % 2 ^ 32 in
      let carry = d.rounded scale == scale in
      let signed = if_case Sound d.negative (λ e. put-Sound b'-' s l h) (λ e. h) in
      if_case Sound (t.frac_width == 0)
        (λ e. put_number-Sound d.whole spec.char_zero 0 spec.int_width t signed)
        (λ e.
          put_fraction-Sound (if carry then 0 else d.rounded scale)
            (put_number last (if carry then d.whole + 1 else d.whole) spec.char_zero 0
              spec.int_width t)
            (put_number-Sound (if carry then d.whole + 1 else d.whole) spec.char_zero 0
              spec.int_width t signed))

  convert_double-Sound :
      (spec : Spec) (args : List Arg) (s : Printer)
      → s.spot < last
      → Sound s
      → Sound (convert_double last spec args s)
  unfolding convert_double
  convert_double-Sound spec (double d ∷ args) s l h =
      put_double-Sound spec d (record s { args = args }) l h
  convert_double-Sound spec (word n ∷ args) s l h = fail-Sound s h
  convert_double-Sound spec (text t ∷ args) s l h = fail-Sound s h
  convert_double-Sound spec [] s l h = fail-Sound s h

  convert-Sound :
      (spec : Spec) (ch : ℕ) (s : Printer)
      → s.spot < last
      → Sound s
      → Sound (convert last spec ch s)
  unfolding convert
  convert-Sound spec ch s l h =
      if_case Sound (ch == b'd') (λ e. convert_integer-Sound 32 spec s.args s l h)
        (λ e.
          if_case Sound (ch == b'i') (λ e. convert_integer-Sound 64 spec s.args s l h)
            (λ e.
              if_case Sound (ch == b'L') (λ e. convert_integer-Sound 64 spec s.args s l h)
                (λ e.
                  if_case Sound (ch == b'p')
                    (λ e. convert_integer-Sound 32 (record spec { is_sign = true }) s.args s l h)
                    (λ e.
                      if_case Sound (ch == b's') (λ e. convert_text-Sound s.args s h)
                        (λ e.
                          if_case Sound (ch == b'f') (λ e. convert_double-Sound spec s.args s l h)
                            (λ e. put-Sound ch s l h))))))

  convert_at-Sound :
      (v : Spec × ℕ × List ℕ) (s : Printer)
      → s.spot < last
      → Sound s
      → Sound (convert_at last v s).1
  unfolding convert_at
  convert_at-Sound (spec, frac, []) s l h = fail-Sound (record s { frac_width = frac }) h
  convert_at-Sound (spec, frac, ch ∷ rest) s l h =
      convert-Sound spec ch (record s { frac_width = frac }) l h

  print_round-Sound :
      (ch : ℕ) (rest : List ℕ) (s : Printer)
      → s.spot < last
      → Sound s
      → Sound (print_round last ch rest s).1
  unfolding print_round conversion
  print_round-Sound ch rest s l h =
      if_case (λ (r : List ℕ × Printer). Sound r.1) (ch == b'%') (λ e. convert_at-Sound _ s l h)
        (λ e. put-Sound ch s l h)

  print_loop-Sound :
      (fuel : ℕ) (fmt : List ℕ) (s : Printer) → Sound s → Sound (print_loop fuel last fmt s)
  unfolding print_loop
  print_loop-Sound zero fmt s h = h
  print_loop-Sound (suc fuel) [] s h = h
  print_loop-Sound (suc fuel) (ch ∷ rest) s h =
      let (after, t) = print_round last ch rest s in
      if_case Sound (ltb s.spot last)
        (λ e.
          let next = print_round-Sound ch rest s (omega (tests, e)) h in
          if_case Sound t.fault (λ f. next) (λ f. print_loop-Sound fuel after t next))
        (λ e. h)

-- The writes of ser_vslprintf.
pub ser_vslprintf-Within :
    (w last : ℕ) (fmt : List ℕ) (args : List Arg) (p : Page)
    → w ≤ last
    → last ≤ p.size
    → Within w last p (ser_vslprintf w last fmt args p)
unfolding ser_vslprintf run_format
ser_vslprintf-Within w last fmt args p h fits =
    let (a, b, within) =
      print_loop-Sound w last p fits (length fmt) fmt
        (record { page = p; spot = w; args = args; frac_width = 0; fault = false })
        (omega arith, h, Within-refl w last p) in
    within
