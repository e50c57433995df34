-- ===== src/Threads/Invariant.antt =====
-- What holds of a thread pool whose packets are handed out soundly.
use linux_communication.Common.{
  ℕ, zero, suc, ◌+◌, ◌<◌, ◌≡◌, ◌≢◌, refl, ◌∙◌, ap, arith, List, [], ◌∷◌, ◌++◌, false, some,
}
use linux_communication.Threads.{checking, parking, waiting, working, Workers}

-- `n` numbers from `a` on.
abbrev pub range : ℕ → ℕ → List ℕ
range a zero = []
range a (suc n) = a ∷ range (a + 1) n

pub range-snoc : (a n : ℕ) → range a n ++ ((a + n) ∷ []) ≡ range a (suc n)
range-snoc a zero = ap (λ x. x ∷ []) (omega arith)
range-snoc a (suc n) =
    ap (λ xs. a ∷ xs) (ap (λ x. range (a + 1) n ++ (x ∷ [])) (omega arith) ∙ range-snoc (a + 1) n)

pub first_of_range :
    (n a r : ℕ) (rest : List ℕ)
    → n ∷ rest ≡ range a r
    → (n ≡ a) × (k : ℕ) × (r ≡ suc k) × (rest ≡ range (a + 1) k)
first_of_range n a zero rest e = ground (arith, e)
first_of_range n a (suc k) rest e = (ground (arith, e), k, refl, ground (arith, e))

-- The packets in the queue are those queued and not yet taken, in their order.
pub record InOrder (s : Workers) : Type 0 where
  pub rest : ℕ
  pub all : s.taken + rest ≡ s.pushed
  pub queue : s.queue ≡ range s.taken rest

-- Only the holder of the mutex looks at the queue, and it goes to wait where that is empty.
pub record Exclusive (s : Workers) : Type 0 where
  pub looks : (t : ℕ) → s.phases t ≡ checking → s.holder ≡ some t
  pub parks : (t : ℕ) → s.phases t ≡ parking → (s.holder ≡ some t) × (s.queue ≡ [])

-- A packet that a thread works on was taken from the queue, and no other thread works on it.
pub record OneWorker (s : Workers) : Type 0 where
  pub was_taken : (t n : ℕ) → s.phases t ≡ working n → n < s.taken
  pub alone : (t u n : ℕ) → s.phases t ≡ working n → s.phases u ≡ working n → t ≡ u

-- Where packets are queued, no signal is to come and the pool is not stopped, a thread is awake.
abbrev pub SomeoneAwake : ℕ → Workers → Type 0
SomeoneAwake size s =
    s.queue ≢ []
    → s.shut_down ≡ false
    → s.pending ≡ 0
    → (t : ℕ) × (t < size) × (s.phases t ≢ waiting)

pub record IsSound (size : ℕ) (s : Workers) : Type 0 where
  pub in_order : InOrder s
  pub exclusive : Exclusive s
  pub one_worker : OneWorker s
  pub awake : SomeoneAwake size s
