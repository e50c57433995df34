-- ===== src/Log/Fuel.antt =====
-- A round of ser_vslprintf for each character of the format is enough.
use linux_communication.Common.{
  ℕ, zero, suc, ◌+◌, ◌-◌, ◌*◌, ◌^◌, ◌%◌, ◌≤◌, ◌≡◌, refl, sym, ap, ◌∙◌, arith, List, [], ◌∷◌, length,
  true, false, ◌&&◌, if_case, ltb, leb, ◌==◌, if◌then◌else◌,
}
use linux_communication.Log.{Page}
use linux_communication.Log.Bounds.{Within}
use linux_communication.Log.Printing.{ser_vslprintf-Within}
use linux_communication.Log.Format.{
  Arg, run_format, ser_vslprintf, Printer, Spec, parse_width, parse_frac, parse_flags, convert_at,
  conversion, starts_with_zero, print_round, print_loop,
}

length-parse_width : (fmt : List ℕ) (width : ℕ) → length (parse_width fmt width).1 ≤ length fmt
unfolding parse_width
length-parse_width [] width = omega arith
length-parse_width (ch ∷ rest) width =
    if_case (λ (r : ℕ × List ℕ). length r.1 ≤ suc (length rest)) (leb b'0' ch && ltb ch b'9')
      (λ e. omega (arith, length-parse_width rest ((width * 10 + (ch - b'0')) % 2 ^ 32)))
      (λ e. omega arith)

length-parse_frac : (fmt : List ℕ) (width : ℕ) → length (parse_frac fmt width).1 ≤ length fmt
length-parse_frac [] width = omega arith
length-parse_frac (ch ∷ rest) width =
    if_case (λ (r : ℕ × List ℕ). length r.1 ≤ suc (length rest)) (leb b'0' ch && leb ch b'9')
      (λ e. omega (arith, length-parse_frac rest ((width * 10 + (ch - b'0')) % 2 ^ 32)))
      (λ e. omega arith)

-- What is left of a format.
abbrev left_of : Spec × ℕ × List ℕ → ℕ
left_of (spec, frac, rest) = length rest

length-parse_flags :
    (fmt : List ℕ) (spec : Spec) (frac : ℕ) → left_of (parse_flags fmt spec frac) ≤ length fmt
unfolding parse_flags
length-parse_flags [] spec frac = omega arith
length-parse_flags (ch ∷ rest) spec frac =
    if_case (λ r. left_of r ≤ suc (length rest)) (ch == b'u')
      (λ e. omega (arith, length-parse_flags rest (record spec { is_sign = false }) frac))
      (λ e.
        if_case (λ r. left_of r ≤ suc (length rest)) (ch == b'X')
          (λ e. omega (arith, length-parse_flags rest (record spec { hex = 2 }) frac))
          (λ e.
            if_case (λ r. left_of r ≤ suc (length rest)) (ch == b'x')
              (λ e. omega (arith, length-parse_flags rest (record spec { hex = 1 }) frac))
              (λ e.
                if_case (λ r. left_of r ≤ suc (length rest)) (ch == b'.')
                  (λ e. omega (arith, length-parse_frac rest frac)) (λ e. omega arith))))

length-convert_at :
    (last : ℕ) (v : Spec × ℕ × List ℕ) (s : Printer) → length (convert_at last v s).0 ≤ left_of v
unfolding convert_at
length-convert_at last (spec, frac, []) s = omega arith
length-convert_at last (spec, frac, ch ∷ rest) s = omega arith

length-print_round :
    (last ch : ℕ) (rest : List ℕ) (s : Printer)
    → length (print_round last ch rest s).0 ≤ length rest
unfolding print_round conversion
length-print_round last ch rest s =
    if_case (λ (r : List ℕ × Printer). length r.0 ≤ length rest) (ch == b'%')
      (λ e.
        let width = parse_width rest 0 in
        let spec : Spec = record {
          char_zero = if starts_with_zero rest then b'0' else b' ';
          int_width = width.0;
          is_sign = true;
          hex = 0;
        } in
        omega (
          arith,
          length-parse_width rest 0,
          length-parse_flags width.1 spec s.frac_width,
          length-convert_at last (parse_flags width.1 spec s.frac_width) s,
        ))
      (λ e. omega arith)

-- More rounds than the format has characters change nothing.
pub print_loop-enough :
    (fuel last : ℕ) (fmt : List ℕ) (s : Printer)
    → length fmt ≤ fuel
    → print_loop (suc fuel) last fmt s ≡ print_loop fuel last fmt s
unfolding print_loop
print_loop-enough zero last [] s h = refl
print_loop-enough zero last (ch ∷ rest) s h = absurd (omega (arith, h))
print_loop-enough (suc fuel) last [] s h = refl
print_loop-enough (suc fuel) last (ch ∷ rest) s h =
    let (after, t) = print_round last ch rest s in
    ap (λ more. if ltb s.spot last then (if t.fault then t else more) else s)
      (print_loop-enough fuel last after t (omega (arith, h, length-print_round last ch rest s)))

more_rounds :
    (k last : ℕ) (fmt : List ℕ) (s : Printer)
    → print_loop (k + length fmt) last fmt s ≡ print_loop (length fmt) last fmt s
more_rounds zero last fmt s = ap (λ n. print_loop n last fmt s) (omega arith)
more_rounds (suc k) last fmt s =
    ap (λ n. print_loop n last fmt s) (omega arith)
    ∙ print_loop-enough (k + length fmt) last fmt s (omega arith)
    ∙ more_rounds k last fmt s

-- ser_vslprintf, on a page that has room for the bytes below `last`: for every format and all
-- arguments it writes only at the indices from `w` up to and without `last`, and never behind the
-- end of the page; and the rounds that the model gives its loop are enough, as any number of more
-- rounds makes no difference.
pub ser_vslprintf_lem :
    (w last : ℕ) (fmt : List ℕ) (args : List Arg) (p : Page)
    → w ≤ last
    → last ≤ p.size
    → let s : Printer = record { page = p; spot = w; args = args; frac_width = 0; fault = false } in
      Within w last p (ser_vslprintf w last fmt args p)
      × ((k : ℕ) → ser_vslprintf w last fmt args p ≡ (print_loop (k + length fmt) last fmt s).page)
unfolding ser_vslprintf run_format
ser_vslprintf_lem w last fmt args p h fits = (
  ser_vslprintf-Within w last fmt args p h fits,
  λ k. ap (λ s. s.page) (sym (more_rounds k last fmt _)),
)
