-- ===== src/Title/Environ.antt =====
-- What MoveEnviron makes of the environment.
use linux_communication.Common.{
  ℕ, zero, suc, ◌+◌, ◌≤◌, ◌<◌, ◌≡◌, ap, ap₂, ◌∙◌, arith, inl, List, [], ◌∷◌, length, true, false,
  ◌==◌, if_true, if_false,
}
use linux_communication.Log.{Page, blank_page, write_at, write_all, read_from, c_string}
use linux_communication.Log.Bounds.{
  Within, Within-refl, Within-trans, Within-widen, write_at-Within, write_all-Within, write_at_self,
}
use linux_communication.Log.Lines.{read_from-Within, read_from-write_all}
use linux_communication.Title.{str_copy, total_length, move_from, move_environ}

-- No byte of a text is NUL.
pub data HasNoNul : List ℕ → Type 0 where
  empty : HasNoNul []
  byte : (n : ℕ) (bytes : List ℕ) → HasNoNul bytes → HasNoNul (suc n ∷ bytes)

pub data AllNoNul : List (List ℕ) → Type 0 where
  none_left : AllNoNul []
  text : (t : List ℕ) (ts : List (List ℕ)) → HasNoNul t → AllNoNul ts → AllNoNul (t ∷ ts)

-- Read from each pointer, up to a NUL and for `room` bytes at most, the memory holds the texts.
pub data Holds (room : ℕ) (p : Page) : List ℕ → List (List ℕ) → Type 0 where
  nothing : Holds room p [] []
  holds :
      (i : ℕ) (is : List ℕ) (t : List ℕ) (ts : List (List ℕ))
      → c_string i room p ≡ t
      → Holds room p is ts
      → Holds room p (i ∷ is) (t ∷ ts)

head_eq : {a b : ℕ} {xs ys : List ℕ} → (a ∷ xs) ≡ (b ∷ ys) → a ≡ b
head_eq e = cc

tail_eq : {a b : ℕ} {xs ys : List ℕ} → (a ∷ xs) ≡ (b ∷ ys) → xs ≡ ys
tail_eq e = cc

==-zero : (n : ℕ) → n ≡ 0 → (n == 0) ≡ true
==-zero n e = ground (arith, e)

==-suc : (n k : ℕ) → n ≡ suc k → (n == 0) ≡ false
==-suc n k e = ground (arith, e)

-- A text with a NUL behind it, read back.
pub c_string-of :
    (t : List ℕ) (i room : ℕ) (p : Page)
    → HasNoNul t
    → length t < room
    → read_from i (length t) p ≡ t
    → p.cells (i + length t) ≡ 0
    → c_string i room p ≡ t
c_string-of t i zero p h l e z = absurd (omega arith)
c_string-of [] i (suc room) p empty l e z =
    if_true (p.cells i == 0) _ _ (==-zero (p.cells i) (ap p.cells (omega arith) ∙ z))
c_string-of (zero ∷ t) i (suc room) p h l e z = elim h [ ]
c_string-of (suc n ∷ t) i (suc room) p (byte _ _ h) l e z =
    if_false (p.cells i == 0) _ _ (==-suc (p.cells i) n (head_eq e))
    ∙ ap₂ (λ b bs. b ∷ bs) (head_eq e)
        (c_string-of t (i + 1) room p h (omega (arith, l)) (tail_eq e)
          (ap p.cells (omega arith) ∙ z))

module _ (i : ℕ) (t : List ℕ) (p : Page) (fits : i + (length t + 1) ≤ p.size) where
  write_all-size : (write_all i t p).size ≡ p.size
  write_all-size =
      (write_all-Within i p.size p (omega arith) i t p (omega arith) (omega (arith, fits))
        (Within-refl i p.size p)).size

  pub str_copy-Within : Within i (i + (length t + 1)) p (str_copy i t p)
  unfolding str_copy
  str_copy-Within =
      write_at-Within i (i + (length t + 1)) p fits (i + length t) 0 (write_all i t p) (omega arith)
        (omega arith)
        (write_all-Within i (i + (length t + 1)) p fits i t p (omega arith) (omega arith)
          (Within-refl i (i + (length t + 1)) p))

  pub str_copy-text : read_from i (length t) (str_copy i t p) ≡ t
  unfolding str_copy
  str_copy-text =
      let q = write_all i t p in
      read_from-Within (i + length t) q.size i (length t) q (write_at (i + length t) 0 q)
        (write_at-Within (i + length t) q.size q (omega arith) (i + length t) 0 q (omega arith)
          (omega (arith, fits, write_all-size)) (Within-refl (i + length t) q.size q))
        (omega arith)
      ∙ read_from-write_all i t p (omega (arith, fits))

  pub str_copy-nul : (str_copy i t p).cells (i + length t) ≡ 0
  unfolding str_copy
  str_copy-nul =
      write_at_self (i + length t) 0 (write_all i t p) (omega (arith, fits, write_all-size))

Holds-moved :
    (room i : ℕ) (ts : List (List ℕ)) (p : Page)
    → AllNoNul ts
    → i + total_length ts ≤ p.size
    → total_length ts ≤ room
    → let (pointers, q) = move_from i ts p in Within i p.size p q × Holds room q pointers ts
unfolding move_from total_length
Holds-moved room i [] p none_left l r = (Within-refl i p.size p, nothing)
Holds-moved room i (t ∷ ts) p (text _ _ h hs) l r =
    let fits : i + (length t + 1) ≤ p.size = omega (arith, l) in
    let q = str_copy i t p in
    let v = str_copy-Within i t p fits in
    let (w, k) =
      Holds-moved room (i + (length t + 1)) ts q hs (omega (arith, l, v.size)) (omega (arith, r)) in
    let (pointers, u) = move_from (i + (length t + 1)) ts q in
    (
      Within-trans i p.size p q u
          (Within-widen i (i + (length t + 1)) i p.size p q (omega arith) fits v)
          (Within-widen (i + (length t + 1)) q.size i p.size q u (omega arith)
            (omega (arith, v.size)) w),
      holds i pointers t ts
          (c_string-of t i room u h (omega (arith, r))
            (read_from-Within (i + (length t + 1)) q.size i (length t) q u w (omega arith)
              ∙ str_copy-text i t p fits)
            (w.same (i + length t) (inl (omega arith)) ∙ str_copy-nul i t p fits))
          k,
    )

-- MoveEnviron, into the memory that main allocates for it: for texts without a NUL inside, it
-- writes nothing behind the end of that memory, and the pointers that it puts into `environ` lead
-- to copies of the texts, in order.
pub move_environ-Holds :
    (environ : List (List ℕ))
    → AllNoNul environ
    → let (pointers, q) = move_environ environ in
      (q.size ≡ total_length environ)
      × (q.overflow ≡ false)
      × Holds (total_length environ) q pointers environ
unfolding move_environ
move_environ-Holds environ h =
    let (w, k) =
      Holds-moved (total_length environ) 0 environ (blank_page (total_length environ)) h
        (omega arith) (omega arith) in
    (w.size, w.overflow, k)
