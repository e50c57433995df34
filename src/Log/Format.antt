-- ===== src/Log/Format.antt =====
-- ser_vslprintf.
-- The arguments are a list. An integer argument is its 64-bit pattern. Of a `double` the model has
-- what the code computes from it: its sign, the cast of its absolute value to `uint32_t`, and for
-- a scale the rounded fraction. An argument of another kind than the format wants, one that is
-- missing, and a read behind the end of the format set `fault` and end the run.
use linux_communication.Common.{
  ℕ, zero, suc, ◌+◌, ◌-◌, ◌*◌, ◌^◌, ◌%◌, List, [], ◌∷◌, Bool, true, false, ◌&&◌, length, ltb, leb,
  ◌==◌, if◌then◌else◌,
}
use linux_communication.Log.{Page, write_at}
use linux_communication.Log.Number.{ser_sprinf_number}

pub record Double : Type 0 where
  pub negative : Bool
  pub whole : ℕ
  pub rounded : ℕ → ℕ

pub data Arg : Type 0 where
  word : ℕ → Arg
  text : List ℕ → Arg
  double : Double → Arg

-- The variables of the loop.
pub record Printer : Type 0 where
  pub page : Page
  -- `pWrite`
  pub spot : ℕ
  pub args : List Arg
  -- `fracWidth`, which no conversion resets
  pub frac_width : ℕ
  pub fault : Bool

-- What stands between the `%` and the conversion.
pub record Spec : Type 0 where
  pub char_zero : ℕ
  pub int_width : ℕ
  pub is_sign : Bool
  pub hex : ℕ

-- `*p++ = byte`
unfoldable pub put : ℕ → Printer → Printer
put byte s = record s { page = write_at s.spot byte s.page; spot = s.spot + 1 }

unfoldable pub fail : Printer → Printer
fail s = record s { fault = true }

-- The digits after `%`: the test is `< '9'`, so that 9 is none of them.
unfoldable pub parse_width : List ℕ → ℕ → ℕ × List ℕ
parse_width [] width = (width, [])
parse_width (ch ∷ rest) width =
    let more = parse_width rest ((width * 10 + (ch - b'0')) % 2 ^ 32) in
    if leb b'0' ch && ltb ch b'9' then more else (width, ch ∷ rest)

-- The digits after `.`.
abbrev pub parse_frac : List ℕ → ℕ → ℕ × List ℕ
parse_frac [] width = (width, [])
parse_frac (ch ∷ rest) width =
    let more = parse_frac rest ((width * 10 + (ch - b'0')) % 2 ^ 32) in
    if leb b'0' ch && leb ch b'9' then more else (width, ch ∷ rest)

-- The loop over `u`, `X`, `x` and `.`: the specification, `fracWidth`, and the rest.
unfoldable pub parse_flags : List ℕ → Spec → ℕ → Spec × ℕ × List ℕ
parse_flags [] spec frac = (spec, frac, [])
parse_flags (ch ∷ rest) spec frac =
    let unsigned = parse_flags rest (record spec { is_sign = false }) frac in
    let upper = parse_flags rest (record spec { hex = 2 }) frac in
    let lower = parse_flags rest (record spec { hex = 1 }) frac in
    let (width, after) = parse_frac rest frac in
    if ch == b'u'
    then unsigned
    else if ch == b'X'
    then upper
    else if ch == b'x'
    then lower
    else if ch == b'.'
    then (spec, width, after)
    else (spec, frac, ch ∷ rest)

-- A signed number of `bits` bits by its pattern: whether it is negative, and its absolute value.
abbrev pub signed : ℕ → ℕ → Bool × ℕ
signed bits n =
    let m = n % 2 ^ bits in if ltb m (2 ^ (bits - 1)) then (false, m) else (true, 2 ^ bits - m)

-- The call of `ser_sprinf_number` at the current place, which it does not move.
unfoldable pub put_number : ℕ → ℕ → ℕ → ℕ → ℕ → Printer → Printer
put_number last n char_zero hex width s = record s {
  page = ser_sprinf_number s.spot last n char_zero hex width s.page;
}

-- The end of the integer conversions: the sign, then the number.
unfoldable pub put_integer : ℕ → Spec → Bool × ℕ → Printer → Printer
put_integer last spec (negative, n) s =
    let t = if negative then put b'-' s else s in
    put_number last n spec.char_zero spec.hex spec.int_width t

-- `va_arg` of an integer of `bits` bits, read as the specification says.
unfoldable pub convert_integer : ℕ → ℕ → Spec → List Arg → Printer → Printer
convert_integer last bits spec (word n ∷ args) s =
    put_integer last spec (if spec.is_sign then signed bits n else (false, n % 2 ^ bits))
      (record s { args = args })
convert_integer last bits spec (text t ∷ args) s = fail s
convert_integer last bits spec (double d ∷ args) s = fail s
convert_integer last bits spec [] s = fail s

-- The loop of `%s`.
unfoldable pub put_text : ℕ → List ℕ → Printer → Printer
put_text last [] s = s
put_text last (byte ∷ bytes) s =
    let rest = put_text last bytes (put byte s) in if ltb s.spot last then rest else s

unfoldable pub convert_text : ℕ → List Arg → Printer → Printer
convert_text last (text t ∷ args) s = put_text last t (record s { args = args })
convert_text last (word n ∷ args) s = fail s
convert_text last (double d ∷ args) s = fail s
convert_text last [] s = fail s

-- The fraction: a point, if there is room, then its digits.
unfoldable pub put_fraction : ℕ → ℕ → Printer → Printer
put_fraction last fraction s =
    let t = if ltb s.spot last then put b'.' s else s in
    put_number last fraction b'0' 0 s.frac_width t

-- The two parts of a number of type `double`.
unfoldable pub put_double : ℕ → Spec → Double → Printer → Printer
put_double last spec d s =
    let t = if d.negative then put b'-' s else s in
    let scale = 10 ^ t.frac_width % 2 ^ 32 in
    let carry = d.rounded scale == scale in
    if t.frac_width == 0
    then put_number last d.whole spec.char_zero 0 spec.int_width t
    else put_fraction last (if carry then 0 else d.rounded scale)
        (put_number last (if carry then d.whole + 1 else d.whole) spec.char_zero 0 spec.int_width t)

unfoldable pub convert_double : ℕ → Spec → List Arg → Printer → Printer
convert_double last spec (double d ∷ args) s = put_double last spec d (record s { args = args })
convert_double last spec (word n ∷ args) s = fail s
convert_double last spec (text t ∷ args) s = fail s
convert_double last spec [] s = fail s

-- The second `switch`, at the character `ch`.
unfoldable pub convert : ℕ → Spec → ℕ → Printer → Printer
convert last spec ch s =
    if ch == b'd'
    then convert_integer last 32 spec s.args s
    else if ch == b'i'
    then convert_integer last 64 spec s.args s
    else if ch == b'L'
    then convert_integer last 64 spec s.args s
    else if ch == b'p'
    then convert_integer last 32 (record spec { is_sign = true }) s.args s
    else if ch == b's'
    then convert_text last s.args s
    else if ch == b'f'
    then convert_double last spec s.args s
    else put ch s

-- The conversion at the place after its specification; at the end of the format the code copies
-- the NUL and reads on behind it.
unfoldable pub convert_at : ℕ → Spec × ℕ × List ℕ → Printer → List ℕ × Printer
convert_at last (spec, frac, []) s = ([], fail (record s { frac_width = frac }))
convert_at last (spec, frac, ch ∷ rest) s =
    (rest, convert last spec ch (record s { frac_width = frac }))

abbrev pub starts_with_zero : List ℕ → Bool
starts_with_zero [] = false
starts_with_zero (ch ∷ rest) = ch == b'0'

-- All that follows a `%`.
unfoldable pub conversion : ℕ → List ℕ → Printer → List ℕ × Printer
conversion last fmt s =
    let (width, rest) = parse_width fmt 0 in
    let spec : Spec = record {
      char_zero = if starts_with_zero fmt then b'0' else b' ';
      int_width = width;
      is_sign = true;
      hex = 0;
    } in
    convert_at last (parse_flags rest spec s.frac_width) s

-- One round of the loop, with the format not at its end and room in the buffer.
unfoldable pub print_round : ℕ → ℕ → List ℕ → Printer → List ℕ × Printer
print_round last ch rest s = if ch == b'%' then conversion last rest s else (rest, put ch s)

-- The loop. Each round takes a character of the format.
unfoldable pub print_loop : ℕ → ℕ → List ℕ → Printer → Printer
print_loop zero last fmt s = s
print_loop (suc fuel) last [] s = s
print_loop (suc fuel) last (ch ∷ rest) s =
    let (after, t) = print_round last ch rest s in
    let more = print_loop fuel last after t in
    if ltb s.spot last then (if t.fault then t else more) else s

-- The loop from its start: `pWrite` = `w`, on the page `p`.
unfoldable pub run_format : ℕ → ℕ → List ℕ → List Arg → Page → Printer
run_format w last fmt args p =
    print_loop (length fmt) last fmt
      (record { page = p; spot = w; args = args; frac_width = 0; fault = false })

-- `ser_vslprintf(w, last, fmt, args)`, also as `ser_log_format`. It has its own copy of `pWrite`:
-- the caller gets the buffer only.
unfoldable pub ser_vslprintf : ℕ → ℕ → List ℕ → List Arg → Page → Page
ser_vslprintf w last fmt args p = (run_format w last fmt args p).page
