-- ===== src/Threads/Busy.antt =====
-- The counter of busy threads, and the warning of Call.
use mathlib.Core.Path.{subst}
use linux_communication.Common.{
  ℕ, zero, suc, ◌+◌, ◌≤◌, ◌<◌, ◌≡◌, refl, ◌∙◌, ap, arith, List, [], ◌∷◌, true, Option, none, some,
  ℕ_discrete, sym, if_case,
}
use linux_communication.Threads.{
  Phase, locking, checking, parking, waiting, woken, working, finished, Workers, set_phase, lock,
  take_packet, push_packet, turn_from, thread_turn, wake_phase, stop_all, delete_threads, warns,
  check_busy, create, Step, turns, wakes, pushes, signals, signals_nobody, stops, joins, Reachable,
  created, then_step,
}
use linux_communication.Threads.Totals.{total-one, total, total-update}

-- 1 for a thread with a packet.
abbrev pub works : Phase → ℕ
works locking = 0
works checking = 0
works parking = 0
works waiting = 0
works woken = 0
works (working n) = 1
works finished = 0

abbrev pub IsCounted : ℕ → Workers → Type 0
IsCounted size s = s.busy ≡ total works size s.phases

abbrev CountedIfAny : ℕ → Option Workers → Type 0
CountedIfAny size none = Unit {0}
CountedIfAny size (some u) = IsCounted size u

-- A thread that goes on, with the counter moved by as much as the thread's own weight.
move-IsCounted :
    (size t : ℕ) (ph : Phase) (s u : Workers)
    → t < size
    → s.phases ≡ u.phases
    → u.busy + works (s.phases t) ≡ s.busy + works ph
    → IsCounted size s
    → IsCounted size (set_phase t ph u)
unfolding set_phase
move-IsCounted size t ph s u l same e h = omega (
  arith,
  total-update works size t ph u.phases l,
  ap (total works size) same,
  ap (λ f. works (f t)) same,
  e,
  h,
)

lock-CountedIfAny :
    (size t : ℕ) (s : Workers) (o : Option ℕ)
    → t < size
    → works (s.phases t) ≡ 0
    → IsCounted size s
    → CountedIfAny size (lock t o s)
unfolding lock
lock-CountedIfAny size t s none l q h =
    move-IsCounted size t checking s (record s { holder = some t }) l refl (omega (arith, q)) h
lock-CountedIfAny size t s (some v) l q h = tt

take_packet-IsCounted :
    (size t : ℕ) (s : Workers) (q : List ℕ)
    → t < size
    → works (s.phases t) ≡ 0
    → IsCounted size s
    → IsCounted size (take_packet t q s)
unfolding take_packet
take_packet-IsCounted size t s [] l q h =
    move-IsCounted size t parking s _ l refl (omega (arith, q)) h
take_packet-IsCounted size t s (n ∷ rest) l q h =
    move-IsCounted size t (working n) s _ l refl (omega (arith, q)) h

turn_from-CountedIfAny :
    (size t : ℕ) (s : Workers) (ph : Phase)
    → s.phases t ≡ ph
    → t < size
    → IsCounted size s
    → CountedIfAny size (turn_from ph t s)
unfolding turn_from
turn_from-CountedIfAny size t s locking q l h = lock-CountedIfAny size t s s.holder l (ap works q) h
turn_from-CountedIfAny size t s checking q l h =
    if_case (IsCounted size) s.shut_down
      (λ e. move-IsCounted size t finished s _ l refl (omega (arith, ap works q)) h)
      (λ e. take_packet-IsCounted size t s s.queue l (ap works q) h)
turn_from-CountedIfAny size t s parking q l h =
    move-IsCounted size t waiting s _ l refl (omega (arith, ap works q)) h
turn_from-CountedIfAny size t s waiting q l h = tt
turn_from-CountedIfAny size t s woken q l h = lock-CountedIfAny size t s s.holder l (ap works q) h
turn_from-CountedIfAny size t s (working n) q l h =
    move-IsCounted size t locking s _ l refl
      (omega (arith, ap works q, h, total-one works size t s.phases l)) h
turn_from-CountedIfAny size t s finished q l h = tt

works-wake_phase : (ph : Phase) → works (wake_phase ph) ≡ works ph
unfolding wake_phase
works-wake_phase locking = refl
works-wake_phase checking = refl
works-wake_phase parking = refl
works-wake_phase waiting = refl
works-wake_phase woken = refl
works-wake_phase (working n) = refl
works-wake_phase finished = refl

total-same :
    (weight : Phase → ℕ) (n : ℕ) (f g : ℕ → Phase)
    → ((t : ℕ) → weight (f t) ≡ weight (g t))
    → total weight n f ≡ total weight n g
unfolding total
total-same weight zero f g e = refl
total-same weight (suc n) f g e = omega (arith, e n, total-same weight n f g e)

Step-IsCounted : (size : ℕ) (s u : Workers) → IsCounted size s → Step size s u → IsCounted size u
unfolding thread_turn check_busy push_packet stop_all delete_threads
Step-IsCounted size _ _ h (turns t s u l e) =
    subst (CountedIfAny size) e (turn_from-CountedIfAny size t s (s.phases t) refl l h)
Step-IsCounted size _ _ h (wakes t s l q) =
    move-IsCounted size t woken s s l refl (omega (arith, ap works q)) h
Step-IsCounted size _ _ h (pushes s e) = h
Step-IsCounted size _ _ h (signals t n now s l e q) =
    move-IsCounted size t woken s _ l refl (omega (arith, ap works q)) h
Step-IsCounted size _ _ h (signals_nobody n now s e none_waits) = h
Step-IsCounted size _ _ h (stops s) =
    if_case (IsCounted size) s.shut_down (λ e. h)
      (λ e. h ∙ sym (total-same works size _ _ (λ t. works-wake_phase (s.phases t))))
Step-IsCounted size _ _ h (joins s d f) = h

total-locking : (n : ℕ) → total works n (λ t. locking) ≡ 0
unfolding total
total-locking zero = refl
total-locking (suc n) = omega (arith, total-locking n)

-- In every state of the pool the counter is the number of threads that work.
pub Reachable-IsCounted : (size : ℕ) (s : Workers) → Reachable size s → IsCounted size s
unfolding create
Reachable-IsCounted size _ (created made e) = sym (total-locking size)
Reachable-IsCounted size _ (then_step r s h k) =
    Step-IsCounted size r s (Reachable-IsCounted size r h) k

works_at_most : (ph : Phase) → works ph ≤ 1
works_at_most locking = omega arith
works_at_most checking = omega arith
works_at_most parking = omega arith
works_at_most waiting = omega arith
works_at_most woken = omega arith
works_at_most (working n) = omega arith
works_at_most finished = omega arith

total_at_most : (n : ℕ) (phases : ℕ → Phase) → total works n phases ≤ n
unfolding total
total_at_most zero phases = omega arith
total_at_most (suc n) phases = omega (arith, total_at_most n phases, works_at_most (phases n))

all_work : (n t : ℕ) (phases : ℕ → Phase) → t < n → total works n phases ≡ n → works (phases t) ≡ 1
unfolding total
all_work zero t phases h e = absurd (omega (arith, h))
all_work (suc n) t phases h e = elim (ℕ_discrete t n) [
  | yes q ↦
      omega
        (arith, ap (λ i. works (phases i)) q, total_at_most n phases, works_at_most (phases n), e)
  | no d ↦
      all_work n t phases (omega (arith, h, d))
        (omega (arith, e, total_at_most n phases, works_at_most (phases n)))
]

works_on : (ph : Phase) → works ph ≡ 1 → (n : ℕ) × (ph ≡ working n)
works_on locking e = absurd (omega (arith, e))
works_on checking e = absurd (omega (arith, e))
works_on parking e = absurd (omega (arith, e))
works_on waiting e = absurd (omega (arith, e))
works_on woken e = absurd (omega (arith, e))
works_on (working n) e = (n, refl)
works_on finished e = absurd (omega (arith, e))

-- In every state that a pool reaches, at any time: where Call warns that the pool is too small,
-- every thread works on a packet, and the last warning, if there was one, is more than 10 seconds
-- old; and the counter of busy threads never passes the number of threads.
pub Reachable-warns :
    (size now : ℕ) (s : Workers)
    → Reachable size s
    → (s.busy ≤ size)
      × (warns size now s ≡ true
          → ((t : ℕ) → t < size → (n : ℕ) × (s.phases t ≡ working n))
            × (s.last_emg_time + 10 < now))
unfolding warns
Reachable-warns size now s r =
    let h = Reachable-IsCounted size s r in
    (
      omega (arith, h, total_at_most size s.phases),
      λ w. (
        λ t l. works_on (s.phases t) (all_work size t s.phases l (ground (arith, h, w))),
        ground (arith, w),
      ),
    )
