-- ===== src/Tests/Logging.antt =====
-- Runs of the log.
use linux_communication.Common.{ℕ, ◌+◌, ◌≤◌, ◌≡◌, refl, arith, [], ◌∷◌, ◌++◌, length, false, codes}
use linux_communication.Log.{blank_page, read_from, write_at, write_all}
use linux_communication.Log.Number.{digits_of, digit_loop, pad, ser_sprinf_number}
use linux_communication.Log.Digits.{value_of, read_digit, digits_of_lem}
use linux_communication.Log.Format.{
  Printer, word, text, put, put_number, put_integer, convert_integer, put_text, convert_text,
  convert, parse_width, parse_flags, convert_at, conversion, print_round, print_loop, run_format,
  ser_vslprintf,
}
use linux_communication.Log.Bounds.{Within}
use linux_communication.Log.Fuel.{ser_vslprintf_lem}
use linux_communication.Log.Write.{Tm, ErrorTexts, current_time}

decimal : digits_of 0 2048 ≡ codes "2048"
unfolding digits_of digit_loop
decimal = refl

upper : digits_of 2 48879 ≡ codes "BEEF"
unfolding digits_of digit_loop
upper = refl

digits_of_lem_example :
    (length (digits_of 2 48879) ≤ 20) × (value_of read_digit 16 0 (digits_of 2 48879) ≡ 48879)
digits_of_lem_example = digits_of_lem 2 48879 (omega arith) (omega arith)

-- An integer and a text, in a buffer of 8 bytes: the digits stand where the `d` and the text come
-- next.
overwritten :
    read_from 0 8
      (ser_vslprintf 0 8 (codes "a%d %s") (word 42 ∷ text (codes "xy") ∷ []) (blank_page 8))
    ≡ codes "a xy" ++ (0 ∷ 0 ∷ 0 ∷ 0 ∷ [])
unfolding ser_vslprintf run_format print_loop print_round conversion parse_width parse_flags
    convert_at convert convert_integer put_integer put_number put write_at write_all
    ser_sprinf_number digits_of digit_loop pad convert_text put_text
overwritten = refl

ser_vslprintf_lem_example :
    let fmt = codes "%d%%%s" in
    let args = word 7654321 ∷ text (codes "long") ∷ [] in
    let s : Printer = record {
      page = blank_page 8;
      spot = 2;
      args = args;
      frac_width = 0;
      fault = false;
    } in
    Within 2 5 (blank_page 8) (ser_vslprintf 2 5 fmt args (blank_page 8))
    × ((k : ℕ)
        → ser_vslprintf 2 5 fmt args (blank_page 8) ≡ (print_loop (k + length fmt) 5 fmt s).page)
ser_vslprintf_lem_example =
    ser_vslprintf_lem 2 5 (codes "%d%%%s") (word 7654321 ∷ text (codes "long") ∷ []) (blank_page 8)
      (omega arith) (omega arith)

abbrev saturday : Tm
saturday = record { year = 120; mon = 4; mday = 16; hour = 19; min = 57; sec = 11 }

abbrev texts : ErrorTexts
texts = record { strerror = λ n. codes "no"; left = λ n. codes "(2: " }

-- What is left of "2020/05/16 19:57:11".
time_text : current_time saturday ≡ codes "// ::11"
unfolding current_time ser_vslprintf run_format print_loop print_round conversion parse_width
    parse_flags convert_at convert convert_integer put_integer put_number put write_at write_all
    ser_sprinf_number digits_of digit_loop pad
time_text = refl
