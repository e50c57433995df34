-- ===== src/Threads/Totals.antt =====
-- Sums over the threads of the pool.
use linux_communication.Common.{
  ℕ, zero, suc, ◌+◌, ◌≤◌, ◌<◌, ◌≡◌, refl, ap, arith, update, update_ne, update_self, ℕ_discrete,
}
use linux_communication.Threads.{Phase}

-- The sum of a weight over the phases of the threads below `n`.
unfoldable pub total : (Phase → ℕ) → ℕ → (ℕ → Phase) → ℕ
total weight zero phases = 0
total weight (suc n) phases = weight (phases n) + total weight n phases

pub total-above :
    (weight : Phase → ℕ) (n t : ℕ) (ph : Phase) (phases : ℕ → Phase)
    → n ≤ t
    → total weight n (update phases t ph) ≡ total weight n phases
unfolding total
total-above weight zero t ph phases h = refl
total-above weight (suc n) t ph phases h = omega (
  arith,
  total-above weight n t ph phases (omega (arith, h)),
  ap weight (update_ne phases t n ph (omega (arith, h))),
)

-- A thread that goes from one phase to another changes the sum by the two weights.
pub total-update :
    (weight : Phase → ℕ) (n t : ℕ) (ph : Phase) (phases : ℕ → Phase)
    → t < n
    → total weight n (update phases t ph) + weight (phases t) ≡ total weight n phases + weight ph
unfolding total
total-update weight zero t ph phases h = absurd (omega (arith, h))
total-update weight (suc n) t ph phases h = elim (ℕ_discrete t n) [
  | yes e ↦ omega (
    arith,
    total-above weight n t ph phases (omega (arith, e)),
    ap weight (update_self phases t ph),
    ap (λ i. weight (update phases t ph i)) e,
    ap (λ i. weight (phases i)) e,
  )
  | no d ↦ omega (
    arith,
    total-update weight n t ph phases (omega (arith, h, d)),
    ap weight (update_ne phases t n ph d),
  )
]

-- The weight of one thread is in the sum.
pub total-one :
    (weight : Phase → ℕ) (n t : ℕ) (phases : ℕ → Phase)
    → t < n
    → weight (phases t) ≤ total weight n phases
unfolding total
total-one weight zero t phases h = absurd (omega (arith, h))
total-one weight (suc n) t phases h = elim (ℕ_discrete t n) [
  | yes e ↦ omega (arith, ap (λ i. weight (phases i)) e)
  | no d ↦ omega (arith, total-one weight n t phases (omega (arith, h, d)))
]
