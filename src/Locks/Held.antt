-- ===== src/Locks/Held.antt =====
-- Who holds which mutex.
use mathlib.Core.Path.{subst}
use linux_communication.Common.{
  ℕ, ◌<◌, ◌≡◌, ◌≢◌, refl, sym, ap, ◌∙◌, arith, List, [], ◌∷◌, Option, none, some, update,
  update_self, update_ne, ◌⊎◌, inl, inr, ℕ_discrete,
}
use linux_communication.Locks.{
  Access, lock, unlock, Operation, Locks, take_mutex, access_step, begin, LocksReached, begins,
  goes_on,
}
use linux_communication.Locks.Order.{Below, Ordered, locks, unlocks, all_accesses-Ordered}

-- One of these mutexes.
abbrev pub In : ℕ → List ℕ → Type 0
In m [] = ⊥
In m (h ∷ hs) = (m ≡ h) ⊎ In m hs

-- A mutex that was locked later is below those locked before.
abbrev pub Ascending : List ℕ → Type 0
Ascending [] = Unit {0}
Ascending (h ∷ hs) = Below h hs × Ascending hs

-- What a thread with these accesses left holds: in their order, and as the mutexes know it.
pub record HeldBy (holders : ℕ → Option ℕ) (t : ℕ) (left : List Access) : Type 0 where
  pub held : List ℕ
  pub ordered : Ordered held left
  pub ascending : Ascending held
  pub known : (m : ℕ) → In m held → holders m ≡ some t
  pub truly : (m : ℕ) → holders m ≡ some t → In m held

pub above : (h : ℕ) (hs : List ℕ) (x : ℕ) → Below h hs → Ascending hs → In x hs → h < x
above h [] x b a i = elim i [ ]
above h (y ∷ ys) x b a (inl e) = omega (arith, b, e)
above h (y ∷ ys) x b a (inr i) = omega (arith, b, above y ys x a.0 a.1 i)

-- Another thread does not see the change of a mutex that it does not hold.
HeldBy-kept :
    (f g : ℕ → Option ℕ) (t : ℕ) (left : List Access)
    → ((m : ℕ) → f m ≡ some t → g m ≡ some t)
    → ((m : ℕ) → g m ≡ some t → f m ≡ some t)
    → HeldBy f t left
    → HeldBy g t left
HeldBy-kept f g t left a b h = record {
  held = h.held;
  ordered = h.ordered;
  ascending = h.ascending;
  known = λ m i. a m (h.known m i);
  truly = λ m e. h.truly m (b m e);
}

pub locks_parts :
    (m : ℕ) (held : List ℕ) (rest : List Access)
    → Ordered held (lock m ∷ rest)
    → Below m held × Ordered (m ∷ held) rest
locks_parts _ _ _ (locks m held rest b r) = (b, r)

locked-HeldBy :
    (f : ℕ → Option ℕ) (t m : ℕ) (rest : List Access)
    → f m ≡ none
    → HeldBy f t (lock m ∷ rest)
    → HeldBy (update f m (some t)) t rest
locked-HeldBy f t m rest free h =
    let (b, r) = locks_parts m h.held rest h.ordered in
    record {
      held = m ∷ h.held;
      ordered = r;
      ascending = (b, h.ascending);
      known = λ x i. elim i [
        | inl e ↦ ap (update f m (some t)) e ∙ update_self f m (some t)
        | inr j ↦
            update_ne f m x (some t) (λ q. ground (arith, free, h.known x j, ap f q)) ∙ h.known x j
      ];
      truly = λ x e. elim (ℕ_discrete m x) [
        | yes q ↦ inl (sym q)
        | no d ↦ inr (h.truly x (sym (update_ne f m x (some t) d) ∙ e))
      ];
    }

unlocked-HeldBy :
    (f : ℕ → Option ℕ) (t m : ℕ) (held : List ℕ) (rest : List Access)
    → Ordered held (unlock m ∷ rest)
    → Ascending held
    → ((x : ℕ) → In x held → f x ≡ some t)
    → ((x : ℕ) → f x ≡ some t → In x held)
    → HeldBy (update f m none) t rest × (f m ≡ some t)
unlocked-HeldBy f t _ _ _ (unlocks m held rest r) a k w = (
  record {
    held = held;
    ordered = r;
    ascending = a.1;
    known = λ x i.
        let l = above m held x a.0 a.1 i in
        update_ne f m x none (λ q. absurd (omega (arith, l, q))) ∙ k x (inr i);
    truly = λ x e. elim (ℕ_discrete m x) [
      | yes q ↦ absurd (ground (arith, ap (update f m none) q, update_self f m none, e))
      | no d ↦ elim (w x (sym (update_ne f m x none d) ∙ e)) [
        | inl q ↦ absurd (d (sym q))
        | inr i ↦ i
      ]
    ];
  },
  k m (inl refl),
)

abbrev pub AllHeld : Locks → Type 0
AllHeld s = (t : ℕ) → HeldBy s.holders t (s.left t)

-- What holds of the thread that moves and of all others, where the mutex `m` changes hands.
others-HeldBy :
    (f : ℕ → Option ℕ) (left : ℕ → List Access) (t m : ℕ) (o : Option ℕ) (rest : List Access)
    → HeldBy (update f m o) t rest
    → ((u : ℕ) → t ≢ u → (f m ≢ some u) × (o ≢ some u))
    → ((u : ℕ) → HeldBy f u (left u))
    → (u : ℕ) → HeldBy (update f m o) u (update left t rest u)
others-HeldBy f left t m o rest own apart h u = elim (ℕ_discrete t u) [
  | yes e ↦
      subst (λ v. HeldBy (update f m o) v (update left t rest v)) e
        (subst (HeldBy (update f m o) t) (sym (update_self left t rest)) own)
  | no d ↦
      let (was, is) = apart u d in
      subst (HeldBy (update f m o) u) (sym (update_ne left t u rest d)) (
        HeldBy-kept f (update f m o) u (left u)
          (λ x e. elim (ℕ_discrete m x) [
            | yes q ↦ absurd (was (ap f q ∙ e))
            | no n ↦ update_ne f m x o n ∙ e
          ])
          (λ x e. elim (ℕ_discrete m x) [
            | yes q ↦ absurd (is (sym (update_self f m o) ∙ ap (update f m o) q ∙ e))
            | no n ↦ sym (update_ne f m x o n) ∙ e
          ])
          (h u))
]

HeldIfAny : Option Locks → Type 0
HeldIfAny none = Unit {0}
HeldIfAny (some u) = AllHeld u

take_mutex-AllHeld :
    (t m : ℕ) (o : Option ℕ) (rest : List Access) (s : Locks)
    → s.holders m ≡ o
    → s.left t ≡ lock m ∷ rest
    → AllHeld s
    → HeldIfAny (take_mutex o m t rest s)
unfolding take_mutex HeldIfAny
take_mutex-AllHeld t m none rest s e l h =
    others-HeldBy s.holders s.left t m (some t) rest
      (locked-HeldBy s.holders t m rest e (subst (HeldBy s.holders t) l (h t)))
      (λ u d. (λ q. ground (arith, e, q), λ q. ground (arith, d, q))) h
take_mutex-AllHeld t m (some v) rest s e l h = tt

step-AllHeld :
    (left : List Access) (t : ℕ) (s : Locks)
    → s.left t ≡ left
    → AllHeld s
    → HeldIfAny (access_step left t s)
unfolding access_step HeldIfAny
step-AllHeld [] t s l h = tt
step-AllHeld (lock m ∷ rest) t s l h = take_mutex-AllHeld t m (s.holders m) rest s refl l h
step-AllHeld (unlock m ∷ rest) t s l h =
    let own = subst (HeldBy s.holders t) l (h t) in
    let (after, mine) =
      unlocked-HeldBy s.holders t m own.held rest own.ordered own.ascending own.known own.truly in
    others-HeldBy s.holders s.left t m none rest after
      (λ u d. (λ q. ground (arith, d, mine, q), λ q. ground (arith, q))) h

pub LocksReached-AllHeld : (todo : ℕ → List Operation) (s : Locks) → LocksReached todo s → AllHeld s
unfolding begin HeldIfAny
LocksReached-AllHeld todo _ begins = λ t. record {
  held = [];
  ordered = all_accesses-Ordered (todo t);
  ascending = tt;
  known = λ m i. elim i [ ];
  truly = λ m e. absurd (ground (arith, e));
}
LocksReached-AllHeld todo _ (goes_on t s u r e) =
    subst HeldIfAny e (step-AllHeld (s.left t) t s refl (LocksReached-AllHeld todo s r))
