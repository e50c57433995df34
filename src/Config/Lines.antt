-- ===== src/Config/Lines.antt =====
-- Entries of the configuration file, from their lines to the lookup.
use linux_communication.Common.{
  ℕ, zero, suc, ◌+◌, ◌-◌, ◌<◌, ◌≡◌, refl, sym, ◌∙◌, ap, arith, List, [], ◌∷◌, ◌++◌, Bool, false,
  not, length, length-append, get_or, replicate, length-replicate, append-nil, ap₂, if_true,
  if_false, ◌==◌, some, ltb,
}
use linux_communication.Config.{
  is_space, is_line_end, is_left_out, rtrim, ltrim, split_at_equals, name_size, item, make_item,
  parse_stripped, load_line,
}
use linux_communication.Config.Trim.{
  Passes, EndsOutside, trim_from-append, rtrim-append_spaces, ltrim-spaces, get_or-append_right,
}

-- A name: it does not begin like a comment, has no `=`, and does not end in a space.
pub record IsName (s : List ℕ) : Type 0 where
  pub end : EndsOutside is_space s
  pub start : is_left_out (get_or s 0 0) ≡ false
  pub no_equals : Passes (λ ch. not (ch == 61)) s

-- A value: it is not empty, and has no space at its start and no space or line end at its end.
pub record IsValue (s : List ℕ) : Type 0 where
  pub end : EndsOutside is_line_end s
  pub start : is_space (get_or s 0 0) ≡ false

-- `name`, `a` spaces, `=`, `b` spaces, `value`.
abbrev pub entry : ℕ → ℕ → List ℕ → List ℕ → List ℕ
entry a b name value = (name ++ replicate a 32) ++ (61 ∷ (replicate b 32 ++ value))

split_at_equals-name :
    (name rest : List ℕ)
    → Passes (λ ch. not (ch == 61)) name
    → split_at_equals (name ++ (61 ∷ rest)) ≡ some (name, rest)
unfolding split_at_equals
split_at_equals-name [] rest h = refl
split_at_equals-name (ch ∷ name) rest h =
    rw (split_at_equals-name name rest h.1) (ground (arith, h.0))

Passes-append_spaces :
    (name : List ℕ) (a : ℕ)
    → Passes (λ ch. not (ch == 61)) name
    → Passes (λ ch. not (ch == 61)) (name ++ replicate a 32)
Passes-append_spaces [] zero h = tt
Passes-append_spaces [] (suc a) h = (refl, Passes-append_spaces [] a tt)
Passes-append_spaces (ch ∷ name) a h = (h.0, Passes-append_spaces name a h.1)

EndsOutside-append : (p : ℕ → Bool) (xs ys : List ℕ) → EndsOutside p ys → EndsOutside p (xs ++ ys)
EndsOutside-append p xs ys h = record {
  size = omega (arith, h.size, length-append xs ys);
  last =
      ap p (
        get_or-append_right xs ys (length (xs ++ ys) - 1)
          (omega (arith, h.size, length-append xs ys))
        ∙ ap (λ j. get_or ys j 0) (omega (arith, h.size, length-append xs ys)))
      ∙ h.last;
}

EndsOutside-cons : (p : ℕ → Bool) (x : ℕ) (ys : List ℕ) → EndsOutside p ys → EndsOutside p (x ∷ ys)
EndsOutside-cons p x ys h = EndsOutside-append p (x ∷ []) ys h

EndsOutside-space : (s : List ℕ) → EndsOutside is_line_end s → EndsOutside is_space s
EndsOutside-space s h = record { size = h.size; last = ground (arith, h.last) }

ltrim-padded :
    (n : ℕ) (s : List ℕ)
    → 0 < length s
    → is_space (get_or s 0 0) ≡ false
    → ltrim (replicate n 32 ++ s) ≡ s
ltrim-padded n [] h e = absurd (omega arith)
ltrim-padded n (ch ∷ rest) h e = ltrim-spaces n ch rest e

rtrim-same : (s : List ℕ) → EndsOutside is_space s → rtrim s ≡ s
rtrim-same s h = ap rtrim (sym (append-nil s)) ∙ rtrim-append_spaces 0 s h

make_item-entry :
    (a b : ℕ) (name value : List ℕ)
    → IsName name
    → IsValue value
    → length name + a < name_size
    → make_item (some (name ++ replicate a 32, replicate b 32 ++ value))
      ≡ item (record { name = name; content = value })
unfolding make_item
make_item-entry a b name value n v l =
    if_true (ltb (length (name ++ replicate a 32)) name_size) _ _
      (ground (arith, length-append name (replicate a 32), length-replicate {A = ℕ} a 32))
    ∙ ap₂ (λ x y. item (record { name = x; content = y }))
        (ap ltrim (rtrim-append_spaces a name n.end)
          ∙ ltrim-padded 0 name n.end.size (ground (arith, n.start)))
        (ap ltrim (
            rtrim-same (replicate b 32 ++ value)
              (EndsOutside-append is_space (replicate b 32) value (EndsOutside-space value v.end)))
          ∙ ltrim-padded b value v.end.size v.start)

parse_stripped-entry :
    (a b : ℕ) (name value : List ℕ)
    → IsName name
    → IsValue value
    → length name + a < name_size
    → parse_stripped (entry a b name value) ≡ item (record { name = name; content = value })
unfolding parse_stripped
parse_stripped-entry a b [] value n v l = absurd (omega (arith, n.end.size))
parse_stripped-entry a b (ch ∷ name) value n v l =
    if_false (is_left_out ch) _ _ n.start
    ∙ ap make_item (
        split_at_equals-name (ch ∷ (name ++ replicate a 32)) (replicate b 32 ++ value)
          (Passes-append_spaces (ch ∷ name) a n.no_equals))
    ∙ make_item-entry a b (ch ∷ name) value n v l

load_line-parse :
    (ch : ℕ) (core ends : List ℕ)
    → EndsOutside is_line_end (ch ∷ core)
    → Passes is_line_end ends
    → load_line (ch ∷ (core ++ ends)) ≡ parse_stripped (ch ∷ core)
unfolding load_line
load_line-parse ch core ends h k =
    ap parse_stripped (trim_from-append is_line_end (ch ∷ core) ends h k)

-- A line with a name, `=` and a value, with any number of spaces around the `=` and any spaces,
-- carriage returns and line feeds at the end, becomes the item of that name and value, if the name
-- with the spaces behind it has less than 50 characters.
pub load_line-entry :
    (a b : ℕ) (name value ends : List ℕ)
    → IsName name
    → IsValue value
    → length name + a < name_size
    → Passes is_line_end ends
    → load_line (entry a b name value ++ ends) ≡ item (record { name = name; content = value })
load_line-entry a b [] value ends n v l k = absurd (omega (arith, n.end.size))
load_line-entry a b (ch ∷ name) value ends n v l k =
    load_line-parse ch ((name ++ replicate a 32) ++ (61 ∷ (replicate b 32 ++ value))) ends
      (EndsOutside-append is_line_end (ch ∷ (name ++ replicate a 32))
        (61 ∷ (replicate b 32 ++ value))
        (EndsOutside-cons is_line_end 61 (replicate b 32 ++ value)
          (EndsOutside-append is_line_end (replicate b 32) value v.end)))
      k
    ∙ parse_stripped-entry a b (ch ∷ name) value n v l
