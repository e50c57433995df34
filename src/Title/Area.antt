-- ===== src/Title/Area.antt =====
-- Where SetProcessTitle writes, and what it leaves.
use linux_communication.Common.{
  ℕ, zero, suc, ◌+◌, ◌-◌, ◌≤◌, ◌<◌, ◌≡◌, refl, sym, ap, ◌∙◌, arith, List, [], ◌∷◌, length, true,
  ltb, ◌==◌, if_false, if_case,
}
use linux_communication.Log.{Page, write_at, write_all, c_string}
use linux_communication.Log.Bounds.{
  Within, Within-refl, Within-trans, Within-widen, write_at-Within, write_at-size,
}
use linux_communication.Log.Lines.{read_from-Within}
use linux_communication.Title.{str_copy, total_length, clear_from, Arguments, set_process_title}
use linux_communication.Title.Environ.{
  HasNoNul, c_string-of, str_copy-Within, str_copy-text, str_copy-nul,
}

write_all-keeps_size : (i : ℕ) (bytes : List ℕ) (p : Page) → (write_all i bytes p).size ≡ p.size
unfolding write_all
write_all-keeps_size i [] p = refl
write_all-keeps_size i (byte ∷ bytes) p =
    write_all-keeps_size (i + 1) bytes (write_at i byte p) ∙ write_at-size i byte p

pub str_copy-size : (i : ℕ) (t : List ℕ) (p : Page) → (str_copy i t p).size ≡ p.size
unfolding str_copy
str_copy-size i t p = write_at-size (i + length t) 0 (write_all i t p) ∙ write_all-keeps_size i t p

pub clear_from-size : (i n : ℕ) (p : Page) → (clear_from i n p).size ≡ p.size
unfolding clear_from
clear_from-size i zero p = refl
clear_from-size i (suc n) p = clear_from-size (i + 1) n (write_at i 0 p) ∙ write_at-size i 0 p

clear_from-Within :
    (lo i n : ℕ) (p q : Page)
    → lo ≤ i
    → i + n ≤ p.size
    → Within lo p.size p q
    → Within lo p.size p (clear_from i n q)
unfolding clear_from
clear_from-Within lo i zero p q h l w = w
clear_from-Within lo i (suc n) p q h l w =
    clear_from-Within lo (i + 1) n p (write_at i 0 q) (omega arith) (omega (arith, l))
      (write_at-Within lo p.size p (omega arith) i 0 q h (omega (arith, l)) w)

write_at-behind : (i byte : ℕ) (p : Page) → p.size ≤ i → (write_at i byte p).overflow ≡ true
unfolding write_at
write_at-behind i byte p h =
    if_case (λ (q : Page). q.overflow ≡ true) (ltb i p.size) (λ e. absurd (ground (arith, e, h)))
      (λ e. refl)

pub clear_from-behind :
    (i n : ℕ) (p : Page) → 0 < n → p.size < i + n → (clear_from i n p).overflow ≡ true
unfolding clear_from
clear_from-behind i zero p h l = absurd (omega (arith, h))
clear_from-behind i (suc zero) p h l = write_at-behind i 0 p (omega (arith, l))
clear_from-behind i (suc (suc n)) p h l =
    clear_from-behind (i + 1) (suc n) (write_at i 0 p) (omega arith)
      (omega (arith, l, write_at-size i 0 p))

clear_from-none : (i n : ℕ) (p : Page) → n ≡ 0 → (clear_from i n p).overflow ≡ p.overflow
unfolding clear_from
clear_from-none i zero p h = refl
clear_from-none i (suc n) p h = absurd (omega (arith, h))

str_copy-behind :
    (i : ℕ) (t : List ℕ) (p : Page) → p.size ≤ i + length t → (str_copy i t p).overflow ≡ true
unfolding str_copy
str_copy-behind i t p h =
    write_at-behind (i + length t) 0 (write_all i t p)
      (omega (arith, h, write_all-keeps_size i t p))

-- The title is set unless it is longer than the memory.
pub set_process_title-set :
    (environ_length : ℕ) (title : List ℕ) (a : Arguments)
    → length title ≤ total_length a.argv + environ_length
    → set_process_title environ_length title a ≡ record {
      argv = title ∷ [];
      memory =
          clear_from
            (length title)
            (total_length a.argv + environ_length - length title)
            (str_copy 0 title a.memory);
    }
unfolding set_process_title
set_process_title-set environ_length title a h =
    if_false (ltb (total_length a.argv + environ_length) (length title)) _ _ (ground (arith, h))

-- A zero stays one.
clear_from-zero : (i n j : ℕ) (p : Page) → p.cells j ≡ 0 → (clear_from i n p).cells j ≡ 0
unfolding clear_from write_at
clear_from-zero i zero j p h = h
clear_from-zero i (suc n) j p h = clear_from-zero (i + 1) n j (write_at i 0 p) (
    if_case (λ (q : Page). q.cells j ≡ 0) (ltb i p.size)
      (λ e. if_case (λ (c : ℕ). c ≡ 0) (i == j) (λ f. refl) (λ f. h)) (λ e. h))

-- The title in the memory, with zeros up to the end.
title-written :
    (total : ℕ) (title : List ℕ) (p : Page)
    → length title < p.size
    → total ≡ p.size
    → HasNoNul title
    → let q = clear_from (length title) (total - length title) (str_copy 0 title p) in
      Within 0 p.size p q × (c_string 0 p.size q ≡ title)
title-written total title p l e h =
    let n = length title in
    let q = str_copy 0 title p in
    let fits : 0 + (n + 1) ≤ p.size = omega (arith, l) in
    let copied = str_copy-Within 0 title p fits in
    let cleared : Within n q.size q (clear_from n (total - n) q) =
      clear_from-Within n n (total - n) q q (omega arith)
        (omega (arith, l, e, str_copy-size 0 title p)) (Within-refl n q.size q) in
    (
      Within-trans 0 p.size p q _
          (Within-widen 0 (0 + (n + 1)) 0 p.size p q (omega arith) fits copied)
          (Within-widen n q.size 0 p.size q _ (omega arith) (omega (arith, str_copy-size 0 title p))
            cleared),
      c_string-of title 0 p.size _ h l
          (read_from-Within n q.size 0 n q _ cleared (omega arith) ∙ str_copy-text 0 title p fits)
          (clear_from-zero n (total - n) (0 + n) q (str_copy-nul 0 title p fits)),
    )

-- SetProcessTitle on memory that holds the arguments and the environment and no more: a title
-- that is shorter than both together is what `pArgv[0]` then reads, and nothing is written behind
-- the end; with a title of exactly their length the NUL is.
pub set_process_title_lem :
    (environ_length : ℕ) (title : List ℕ) (a : Arguments)
    → a.memory.size ≡ total_length a.argv + environ_length
    → HasNoNul title
    → let b = set_process_title environ_length title a in
      (length title < a.memory.size
        → (b.argv ≡ title ∷ [])
          × Within 0 a.memory.size a.memory b.memory
          × (c_string 0 a.memory.size b.memory ≡ title))
      × (length title ≡ a.memory.size → b.memory.overflow ≡ true)
set_process_title_lem environ_length title a e h = (
  λ l.
      let (v, w) =
        title-written (total_length a.argv + environ_length) title a.memory l (sym e) h in
      rw (set_process_title-set environ_length title a (omega (arith, l, e))) (refl, v, w),
  λ l.
      ap (λ (b : Arguments). b.memory.overflow)
        (set_process_title-set environ_length title a (omega (arith, l, e)))
      ∙ clear_from-none (length title) (total_length a.argv + environ_length - length title) _
          (omega (arith, l, e))
      ∙ str_copy-behind 0 title a.memory (omega (arith, l)),
)
