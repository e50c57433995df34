-- ===== src/Locks/Progress.antt =====
-- What the order of the mutexes gives: somebody can always go on.
use mathlib.Core.Path.{subst}
use linux_communication.Common.{
  ℕ, zero, suc, ◌<◌, ◌≡◌, ◌≢◌, refl, ap, ◌∙◌, arith, List, [], ◌∷◌, Option, none, some,
}
use linux_communication.Locks.{
  Access, lock, unlock, Operation, Locks, take_mutex, access_step, LocksReached,
}
use linux_communication.Locks.Order.{Below, Ordered, ends}
use linux_communication.Locks.Held.{
  AllHeld, Ascending, In, LocksReached-AllHeld, above, locks_parts,
}

-- Some thread can go on.
abbrev pub SomeoneCan : Locks → Type 0
SomeoneCan s = (t : ℕ) × (u : Locks) × (access_step (s.left t) t s ≡ some u)

holds_nothing : (m : ℕ) (held : List ℕ) → Ordered held [] → In m held → ⊥
holds_nothing m _ ends i = i

first_lock : (x m : ℕ) (held : List ℕ) → Below x held → Ascending held → In m held → x < m
first_lock x m [] b a i = elim i [ ]
first_lock x m (h ∷ hs) b a i = above x (h ∷ hs) m b a i

-- The thread `v`, which holds `m`, can go on, or waits for a mutex below `m`.
holder_next :
    (k m v : ℕ) (s : Locks) (left : List Access) (held : List ℕ)
    → s.left v ≡ left
    → Ordered held left
    → Ascending held
    → In m held
    → m < suc k
    → ((x : ℕ) (rest : List Access) → x < k → s.left v ≡ lock x ∷ rest → SomeoneCan s)
    → SomeoneCan s
unfolding access_step
holder_next k m v s [] held q r a i l go = absurd (holds_nothing m held r i)
holder_next k m v s (unlock x ∷ rest) held q r a i l go = (v, _, ap (λ b. access_step b v s) q)
holder_next k m v s (lock x ∷ rest) held q r a i l go =
    let (b, more) = locks_parts x held rest r in
    go x rest (omega (arith, l, first_lock x m held b a i)) q

-- Who waits for `m` waits for a thread that can go on, or that waits for a mutex below `m`.
follows :
    (k m t : ℕ) (s : Locks) (o : Option ℕ) (rest : List Access)
    → m < k
    → s.holders m ≡ o
    → s.left t ≡ lock m ∷ rest
    → AllHeld s
    → SomeoneCan s
unfolding access_step take_mutex
follows zero m t s o rest l e q h = absurd (omega (arith, l))
follows (suc k) m t s none rest l e q h =
    (t, _, ap (λ a. access_step a t s) q ∙ ap (λ o. take_mutex o m t rest s) e)
follows (suc k) m t s (some v) rest l e q h =
    holder_next k m v s (s.left v) (h v).held refl (h v).ordered (h v).ascending ((h v).truly m e) l
      (λ x after d p. follows k x v s (s.holders x) after d refl p h)

unfinished :
    (t : ℕ) (s : Locks) (left : List Access)
    → s.left t ≡ left
    → left ≢ []
    → AllHeld s
    → SomeoneCan s
unfolding access_step
unfinished t s [] q n h = absurd (n refl)
unfinished t s (lock m ∷ rest) q n h =
    follows (suc m) m t s (s.holders m) rest (omega arith) refl q h
unfinished t s (unlock m ∷ rest) q n h = (t, _, ap (λ a. access_step a t s) q)

-- As far as mutexes go, that is, where a thread waits for nothing but a mutex that another one holds
-- (a wait for a signal, a semaphore or the end of a thread counts as over at any time): whatever
-- operations the threads have before them, however many threads there are and however their locks
-- and unlocks interleave, as long as one of them has something left, one of them can go on, so no
-- threads wait for mutexes of each other in a circle; and a thread that has nothing left holds none.
pub LocksReached-goes_on :
    (todo : ℕ → List Operation) (s : Locks)
    → LocksReached todo s
    → ((t : ℕ) → s.left t ≢ [] → SomeoneCan s) × ((t m : ℕ) → s.left t ≡ [] → s.holders m ≢ some t)
LocksReached-goes_on todo s r =
    let h = LocksReached-AllHeld todo s r in
    (
      λ t n. unfinished t s (s.left t) refl n h,
      λ t m e q.
          holds_nothing m (h t).held (subst (Ordered (h t).held) e (h t).ordered) ((h t).truly m q),
    )
