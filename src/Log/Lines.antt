-- ===== src/Log/Lines.antt =====
-- What stays of a text at the start of a page, behind which ser_vslprintf and ser_log_errno write.
use linux_communication.Common.{
  ℕ, zero, suc, ◌+◌, ◌-◌, ◌≤◌, ◌<◌, ◌≡◌, refl, ap, ap₂, ◌∙◌, arith, tests, inl, List, [], ◌∷◌, ◌++◌,
  length, length-append, codes, ltb, ◌==◌, if_case, if_false,
}
use linux_communication.Log.{Page, blank_page, write_at, write_all, read_from, c_string}
use linux_communication.Log.Bounds.{
  Within, Within-refl, Within-trans, write_at-Within, write_all-Within, write_at-size,
  write_at_self,
}
use linux_communication.Log.Printing.{ser_vslprintf-Within}
use linux_communication.Log.Format.{Arg, ser_vslprintf}
use linux_communication.Log.Write.{
  ErrorTexts, ser_max_error_str, ser_log_errno, append_errno, end_line,
}

pub read_from-Within :
    (w last i n : ℕ) (p q : Page)
    → Within w last p q
    → i + n ≤ w
    → read_from i n q ≡ read_from i n p
read_from-Within w last i zero p q v h = refl
read_from-Within w last i (suc n) p q v h =
    ap₂ (λ byte bytes. byte ∷ bytes) (v.same i (inl (omega (arith, h))))
      (read_from-Within w last (i + 1) n p q v (omega (arith, h)))

pub read_from-write_all :
    (i : ℕ) (bytes : List ℕ) (p : Page)
    → i + length bytes ≤ p.size
    → read_from i (length bytes) (write_all i bytes p) ≡ bytes
unfolding write_all
read_from-write_all i [] p h = refl
read_from-write_all i (byte ∷ bytes) p h =
    let q = write_at i byte p in
    ap₂ (λ b bs. b ∷ bs)
      ((write_all-Within (i + 1) p.size q (omega (arith, write_at-size i byte p)) (i + 1) bytes q
            (omega arith) (omega (arith, h)) (Within-refl (i + 1) p.size q)).same
          i (inl (omega arith))
        ∙ write_at_self i byte p (omega (arith, h)))
      (read_from-write_all (i + 1) bytes q (omega (arith, h, write_at-size i byte p)))

read_from_snoc :
    (i n : ℕ) (p : Page) → read_from i (suc n) p ≡ read_from i n p ++ (p.cells (i + n) ∷ [])
read_from_snoc i zero p = ap (λ j. p.cells j ∷ []) (omega arith)
read_from_snoc i (suc n) p =
    ap (λ bytes. p.cells i ∷ bytes)
      (read_from_snoc (i + 1) n p
        ∙ ap (λ j. read_from (i + 1) n p ++ (p.cells j ∷ [])) (omega arith))

pub length-c_string : (i n : ℕ) (p : Page) → length (c_string i n p) ≤ n
length-c_string i zero p = omega arith
length-c_string i (suc n) p =
    if_case (λ (t : List ℕ). length t ≤ suc n) (p.cells i == 0) (λ e. omega arith)
      (λ e. omega (arith, length-c_string (i + 1) n p))

-- The line that ends with the line feed at `w`.
end_at :
    (w : ℕ) (p : Page)
    → w < p.size
    → read_from 0 (suc w) (write_at w b'\n' p) ≡ read_from 0 w p ++ (b'\n' ∷ [])
end_at w p h =
    let q = write_at w b'\n' p in
    read_from_snoc 0 w q
    ∙ ap₂ (λ bytes byte. bytes ++ (byte ∷ []))
        (read_from-Within w p.size 0 w p q
          (write_at-Within w p.size p (omega arith) w b'\n' p (omega arith) h
            (Within-refl w p.size p))
          (omega arith))
        (ap q.cells (omega arith) ∙ write_at_self w b'\n' p h)

end_line_lem :
    (w last : ℕ) (p : Page)
    → w < last
    → last ≤ p.size
    → end_line w last p ≡ read_from 0 w p ++ (b'\n' ∷ [])
unfolding end_line
end_line_lem w last p h l =
    ap (λ v. read_from 0 (suc v) (write_at v b'\n' p))
      (if_false (ltb (last - 1) w) (last - 1) w (ground (arith, h)))
    ∙ end_at w p (omega arith)

append_errno-Within :
    (texts : ErrorTexts) (w last err : ℕ) (p : Page)
    → last ≤ p.size
    → Within w last p (append_errno texts w last err p)
unfolding ser_log_errno
append_errno-Within texts w last err p h =
    let left = texts.left err in
    let info = texts.strerror err in
    if_case (Within w last p) (err == 0) (λ e. Within-refl w last p)
      (λ e.
        if_case (Within w last p) (ltb (w + length info + length left + length (codes ") ")) last)
          (λ e.
            write_all-Within w last p h w (left ++ (info ++ codes ") ")) p (omega arith)
              (omega (
                tests,
                e,
                length-append left (info ++ codes ") "),
                length-append info (codes ") "),
              ))
              (Within-refl w last p))
          (λ e. Within-refl w last p))

-- A page with the text `head` at its start.
unfoldable pub headed : List ℕ → Page
headed head = write_all 0 head (blank_page (ser_max_error_str + 1))

headed-size : (head : List ℕ) → length head < ser_max_error_str → (headed head).size ≡ 2049
unfolding headed
headed-size head h =
    (write_all-Within 0 2049 (blank_page 2049) (omega arith) 0 head (blank_page 2049) (omega arith)
      (omega (arith, h)) (Within-refl 0 2049 (blank_page 2049))).size

-- The line that is made of it by writes behind `head` only is `head` and the line feed.
pub headed-end_line :
    (head : List ℕ) (p : Page)
    → length head < ser_max_error_str
    → Within (length head) ser_max_error_str (headed head) p
    → end_line (length head) ser_max_error_str p ≡ head ++ (b'\n' ∷ [])
unfolding headed
headed-end_line head p h v =
    end_line_lem (length head) ser_max_error_str p h (omega (arith, headed-size head h, v.size))
    ∙ ap (λ bytes. bytes ++ (b'\n' ∷ []))
        (read_from-Within (length head) ser_max_error_str 0 (length head) (headed head) p v
            (omega arith)
          ∙ read_from-write_all 0 head (blank_page (ser_max_error_str + 1)) (omega (arith, h)))

-- A page behind the head, after a call of ser_vslprintf or of ser_log_errno.
pub after_format :
    (head : List ℕ) (fmt : List ℕ) (args : List Arg) (p : Page)
    → length head < ser_max_error_str
    → Within (length head) ser_max_error_str (headed head) p
    → Within
        (length head)
        ser_max_error_str
        (headed head)
        (ser_vslprintf (length head) ser_max_error_str fmt args p)
after_format head fmt args p h v =
    Within-trans (length head) ser_max_error_str (headed head) p
      (ser_vslprintf (length head) ser_max_error_str fmt args p) v
      (ser_vslprintf-Within (length head) ser_max_error_str fmt args p (omega (arith, h))
        (omega (arith, headed-size head h, v.size)))

pub after_errno :
    (texts : ErrorTexts) (head : List ℕ) (err : ℕ) (p : Page)
    → length head < ser_max_error_str
    → Within (length head) ser_max_error_str (headed head) p
    → Within
        (length head)
        ser_max_error_str
        (headed head)
        (append_errno texts (length head) ser_max_error_str err p)
after_errno texts head err p h v =
    Within-trans (length head) ser_max_error_str (headed head) p
      (append_errno texts (length head) ser_max_error_str err p) v
      (append_errno-Within texts (length head) ser_max_error_str err p
        (omega (arith, headed-size head h, v.size)))
