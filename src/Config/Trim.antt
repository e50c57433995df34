-- ===== src/Config/Trim.antt =====
-- What trimming leaves of a string with padding around it.
use linux_communication.Common.{
  ℕ, zero, suc, ◌-◌, ◌≤◌, ◌<◌, ◌≡◌, refl, sym, ◌∙◌, ap, arith, List, [], ◌∷◌, ◌++◌, Bool, true,
  false, dec_lt, length, length-append, get_or, take, take-append, replicate,
}
use linux_communication.Config.{trim_from, is_space, rtrim, ltrim}

-- All characters pass a test.
abbrev pub Passes : (ℕ → Bool) → List ℕ → Type 0
Passes p [] = Unit {0}
Passes p (ch ∷ rest) = (p ch ≡ true) × Passes p rest

pub Passes-get_or :
    (p : ℕ → Bool) (s : List ℕ) (i : ℕ) → Passes p s → i < length s → p (get_or s i 0) ≡ true
Passes-get_or p [] i h l = absurd (omega arith)
Passes-get_or p (ch ∷ rest) zero h l = h.0
Passes-get_or p (ch ∷ rest) (suc i) h l = Passes-get_or p rest i h.1 (omega arith)

pub get_or-append_left :
    (xs ys : List ℕ) (i : ℕ) → i < length xs → get_or (xs ++ ys) i 0 ≡ get_or xs i 0
get_or-append_left [] ys i h = absurd (omega arith)
get_or-append_left (x ∷ xs) ys zero h = refl
get_or-append_left (x ∷ xs) ys (suc i) h = get_or-append_left xs ys i (omega arith)

pub get_or-append_right :
    (xs ys : List ℕ) (i : ℕ) → length xs ≤ i → get_or (xs ++ ys) i 0 ≡ get_or ys (i - length xs) 0
get_or-append_right [] ys i h = ap (λ j. get_or ys j 0) (omega arith)
get_or-append_right (x ∷ xs) ys zero h = absurd (omega arith)
get_or-append_right (x ∷ xs) ys (suc i) h =
    get_or-append_right xs ys i (omega arith) ∙ ap (λ j. get_or ys j 0) (omega arith)

trim_from-take :
    (p : ℕ → Bool) (m : ℕ) (s : List ℕ) (n : ℕ)
    → p (get_or s m 0) ≡ false
    → m < n
    → ((i : ℕ) → m < i → i < n → p (get_or s i 0) ≡ true)
    → trim_from p n s ≡ take (suc m) s
unfolding trim_from
trim_from-take p m s zero e h f = absurd (omega arith)
trim_from-take p m s (suc n) e h f = elim (dec_lt m n) [
  | yes l ↦
      rw (f n l (omega arith)) (trim_from-take p m s n e l (λ i a b. f i a (omega (arith, b))))
  | no g ↦ let q : m ≡ n = omega arith in rw (sym q, e) refl
]

-- The last character of a string that is not empty fails a test.
pub record EndsOutside (p : ℕ → Bool) (s : List ℕ) : Type 0 where
  pub size : 0 < length s
  pub last : p (get_or s (length s - 1) 0) ≡ false

pub trim_from-append :
    (p : ℕ → Bool) (core ends : List ℕ)
    → EndsOutside p core
    → Passes p ends
    → trim_from p (length (core ++ ends)) (core ++ ends) ≡ core
trim_from-append p core ends h k =
    let n : suc (length core - 1) ≡ length core = omega (arith, h.size) in
    trim_from-take p (length core - 1) (core ++ ends) (length (core ++ ends))
      (ap p (get_or-append_left core ends (length core - 1) (omega (arith, h.size))) ∙ h.last)
      (omega (arith, h.size, length-append core ends))
      (λ i a b.
        ap p (get_or-append_right core ends i (omega arith))
        ∙ Passes-get_or p ends (i - length core) k (omega (arith, length-append core ends)))
    ∙ ap (λ m. take m (core ++ ends)) n
    ∙ take-append core ends

pub Passes-replicate : (n : ℕ) → Passes is_space (replicate n 32)
Passes-replicate zero = tt
Passes-replicate (suc n) = (refl, Passes-replicate n)

pub rtrim-append_spaces :
    (n : ℕ) (core : List ℕ) → EndsOutside is_space core → rtrim (core ++ replicate n 32) ≡ core
unfolding rtrim
rtrim-append_spaces n core h =
    trim_from-append is_space core (replicate n 32) h (Passes-replicate n)

pub ltrim-spaces :
    (n ch : ℕ) (rest : List ℕ)
    → is_space ch ≡ false
    → ltrim (replicate n 32 ++ (ch ∷ rest)) ≡ ch ∷ rest
unfolding ltrim
ltrim-spaces zero ch rest h = rw h refl
ltrim-spaces (suc n) ch rest h = ltrim-spaces n ch rest h
