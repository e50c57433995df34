-- ===== src/Log/Bounds.antt =====
-- Where ser_sprinf_number and ser_vslprintf write.
use linux_communication.Common.{
  ℕ, zero, suc, ◌+◌, ◌-◌, ◌≤◌, ◌<◌, ◌≡◌, refl, ◌∙◌, arith, tests, ◌⊎◌, inl, inr, List, [], ◌∷◌,
  length, take, length-take, ltb, update_ne, update_self, if_case,
}
use linux_communication.Log.{Page, write_at, write_all}
use linux_communication.Log.Number.{pad, digits_of, digits_fitting, ser_sprinf_number}

-- The page `q` comes from `p` by writes at the indices from `lo` up to and without `last`, and no
-- write fell behind the end of the page.
pub record Within (lo last : ℕ) (p q : Page) : Type 0 where
  pub size : q.size ≡ p.size
  pub overflow : q.overflow ≡ p.overflow
  pub same : (i : ℕ) → (i < lo) ⊎ (last ≤ i) → q.cells i ≡ p.cells i

pub Within-refl : (lo last : ℕ) (p : Page) → Within lo last p p
Within-refl lo last p = record { size = refl; overflow = refl; same = λ i h. refl }

pub write_at-size : (i byte : ℕ) (p : Page) → (write_at i byte p).size ≡ p.size
unfolding write_at
write_at-size i byte p =
    if_case (λ (q : Page). q.size ≡ p.size) (ltb i p.size) (λ e. refl) (λ e. refl)

pub write_at_self : (i byte : ℕ) (p : Page) → i < p.size → (write_at i byte p).cells i ≡ byte
unfolding write_at
write_at_self i byte p h =
    if_case (λ (q : Page). q.cells i ≡ byte) (ltb i p.size) (λ e. update_self p.cells i byte)
      (λ e. absurd (ground (arith, e, h)))

pub Within-widen :
    (lo last lo2 last2 : ℕ) (p q : Page)
    → lo2 ≤ lo
    → last ≤ last2
    → Within lo last p q
    → Within lo2 last2 p q
Within-widen lo last lo2 last2 p q h l w = record {
  size = w.size;
  overflow = w.overflow;
  same =
      λ i o. w.same i (elim o [ inl a ↦ inl (omega (arith, a)) | inr b ↦ inr (omega (arith, b)) ]);
}

pub Within-trans :
    (lo last : ℕ) (p q r : Page) → Within lo last p q → Within lo last q r → Within lo last p r
Within-trans lo last p q r v w = record {
  size = w.size ∙ v.size;
  overflow = w.overflow ∙ v.overflow;
  same = λ i h. w.same i h ∙ v.same i h;
}

module _ (lo last : ℕ) (p : Page) (fits : last ≤ p.size) where
  pub write_at-Within :
      (i byte : ℕ) (q : Page)
      → lo ≤ i
      → i < last
      → Within lo last p q
      → Within lo last p (write_at i byte q)
  unfolding write_at
  write_at-Within i byte q h l w =
      if_case (Within lo last p) (ltb i q.size)
        (λ e. record {
          size = w.size;
          overflow = w.overflow;
          same = λ j o. update_ne q.cells i j byte (ground (arith, o)) ∙ w.same j o;
        })
        (λ e. absurd (ground (arith, e, w.size)))

  pub write_all-Within :
      (i : ℕ) (bytes : List ℕ) (q : Page)
      → lo ≤ i
      → i + length bytes ≤ last
      → Within lo last p q
      → Within lo last p (write_all i bytes q)
  unfolding write_all
  write_all-Within i [] q h l w = w
  write_all-Within i (byte ∷ bytes) q h l w =
      write_all-Within (i + 1) bytes (write_at i byte q) (omega arith) (omega (arith, l))
        (write_at-Within i byte q h (omega (arith, l)) w)

  -- A place inside the bounds, and a page written inside them.
  abbrev pub Placed : ℕ × Page → Type 0
  Placed (i, q) = (lo ≤ i) × (i ≤ last) × Within lo last p q

  pad-Placed :
      (left char_zero i : ℕ) (q : Page) → Placed (i, q) → Placed (pad left char_zero last i q)
  unfolding pad
  pad-Placed zero char_zero i q h = h
  pad-Placed (suc left) char_zero i q (h, l, w) =
      if_case Placed (ltb i last)
        (λ e. pad-Placed left char_zero (i + 1) (write_at i char_zero q) (
          omega (arith, h),
          omega (tests, e),
          write_at-Within i char_zero q h (omega (tests, e)) w,
        ))
        (λ e. (h, l, w))

  digits_fitting-le :
      (digits : List ℕ) (i : ℕ)
      → i ≤ last
      → i + length (take (digits_fitting (length digits) i last) digits) ≤ last
  digits_fitting-le digits i l =
      ground (arith, length-take (digits_fitting (length digits) i last) digits)

  pub ser_sprinf_number-Within :
      (i n char_zero hex width : ℕ) (q : Page)
      → lo ≤ i
      → i ≤ last
      → Within lo last p q
      → Within lo last p (ser_sprinf_number i last n char_zero hex width q)
  unfolding ser_sprinf_number
  ser_sprinf_number-Within i n char_zero hex width q h l w =
      let (a, b, c) = pad-Placed (width - length (digits_of hex n)) char_zero i q (h, l, w) in
      let (v, r) = pad (width - length (digits_of hex n)) char_zero last i q in
      write_all-Within v (take (digits_fitting (length (digits_of hex n)) v last) (digits_of hex n))
        r a (digits_fitting-le (digits_of hex n) v b) c
