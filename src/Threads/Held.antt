-- ===== src/Threads/Held.antt =====
-- The holder of the mutex of the pool.
use mathlib.Core.Path.{subst}
use linux_communication.Common.{
  ℕ, ◌-◌, ◌<◌, ◌≡◌, ◌≢◌, refl, sym, ◌∙◌, ap, arith, List, [], ◌∷◌, Option, none, some, update,
  update_ne, ◌⊎◌, inl, inr, if_case,
}
use linux_communication.Threads.{
  Phase, locking, checking, parking, waiting, woken, working, finished, Workers, set_phase, lock,
  take_packet, turn_from, thread_turn, wake_phase, broadcast, stop_all, delete_threads, Step, turns,
  stops, joins, Reachable, then_step, push_packet, wakes, pushes, signals, signals_nobody, created,
  create, check_busy,
}
use linux_communication.Threads.Invariant.{IsSound}
use linux_communication.Threads.Steps.{Reachable-IsSound}

-- Whoever holds the mutex is a thread of the pool between its lock and its unlock.
abbrev pub Held : ℕ → Workers → Type 0
Held size s =
    (t : ℕ) → s.holder ≡ some t → (t < size) × ((s.phases t ≡ checking) ⊎ (s.phases t ≡ parking))

HeldIfAny : ℕ → Option Workers → Type 0
HeldIfAny size none = Unit {0}
HeldIfAny size (some u) = Held size u

lock-Held : (size t : ℕ) (s : Workers) (o : Option ℕ) → t < size → HeldIfAny size (lock t o s)
unfolding lock set_phase HeldIfAny
lock-Held size t s none l = λ x e. (ground (arith, e), inl (ground (arith, e)))
lock-Held size t s (some v) l = tt

take_packet-Held :
    (size t : ℕ) (s : Workers) (q : List ℕ)
    → t < size
    → s.holder ≡ some t
    → Held size (take_packet t q s)
unfolding take_packet set_phase
take_packet-Held size t s [] l h x e = (ground (arith, e, h), inr (ground (arith, e, h)))
take_packet-Held size t s (n ∷ rest) l h x e = absurd (ground (arith, e))

free-Held : (size t : ℕ) (ph : Phase) (s : Workers) → s.holder ≡ none → Held size (set_phase t ph s)
unfolding set_phase
free-Held size t ph s e x h = absurd (ground (arith, e, h))

-- A thread that is not at the queue moves without the mutex.
aside-Held :
    (size t : ℕ) (ph : Phase) (s u : Workers)
    → s.phases t ≢ checking
    → s.phases t ≢ parking
    → s.phases ≡ u.phases
    → s.holder ≡ u.holder
    → Held size s
    → Held size (set_phase t ph u)
unfolding set_phase
aside-Held size t ph s u c p same e h x q =
    let (l, at) = h x (e ∙ q) in
    let d : t ≢ x =
      λ r. elim at [ inl k ↦ c (ap s.phases r ∙ k) | inr k ↦ p (ap s.phases r ∙ k) ] in
    let moved : update u.phases t ph x ≡ s.phases x =
      update_ne u.phases t x ph d ∙ ap (λ f. f x) (sym same) in
    (l, elim at [ inl k ↦ inl (moved ∙ k) | inr k ↦ inr (moved ∙ k) ])

turn_from-Held :
    (size t : ℕ) (s : Workers) (ph : Phase)
    → s.phases t ≡ ph
    → t < size
    → (s.phases t ≡ checking → s.holder ≡ some t)
    → Held size s
    → HeldIfAny size (turn_from ph t s)
unfolding turn_from HeldIfAny
turn_from-Held size t s locking q l k h = lock-Held size t s s.holder l
turn_from-Held size t s checking q l k h =
    if_case (Held size) s.shut_down
      (λ e. free-Held size t finished (record s { holder = none }) refl)
      (λ e. take_packet-Held size t s s.queue l (k q))
turn_from-Held size t s parking q l k h = free-Held size t waiting (record s { holder = none }) refl
turn_from-Held size t s waiting q l k h = tt
turn_from-Held size t s woken q l k h = lock-Held size t s s.holder l
turn_from-Held size t s (working n) q l k h =
    aside-Held size t locking s (record s { busy = s.busy - 1 }) (λ e. ground (arith, e, q))
      (λ e. ground (arith, e, q)) refl refl h
turn_from-Held size t s finished q l k h = tt

wake_phase-at :
    (ph : Phase)
    → (ph ≡ checking) ⊎ (ph ≡ parking)
    → (wake_phase ph ≡ checking) ⊎ (wake_phase ph ≡ parking)
unfolding wake_phase
wake_phase-at ph (inl e) = inl (rw e refl)
wake_phase-at ph (inr e) = inr (rw e refl)

broadcast-Held : (size : ℕ) (s : Workers) → Held size s → Held size (broadcast s)
broadcast-Held size s h x e = let (l, at) = h x e in (l, wake_phase-at (s.phases x) at)

Step-Held : (size : ℕ) (s u : Workers) → IsSound size s → Held size s → Step size s u → Held size u
unfolding thread_turn check_busy push_packet stop_all delete_threads HeldIfAny
Step-Held size _ _ k h (turns t s u l e) =
    subst (HeldIfAny size) e (turn_from-Held size t s (s.phases t) refl l (k.exclusive.looks t) h)
Step-Held size _ _ k h (wakes t s l q) =
    aside-Held size t woken s s (λ e. ground (arith, e, q)) (λ e. ground (arith, e, q)) refl refl h
Step-Held size _ _ k h (pushes s e) = h
Step-Held size _ _ k h (signals t n now s l e q) =
    aside-Held size t woken s _ (λ e. ground (arith, e, q)) (λ e. ground (arith, e, q)) refl refl h
Step-Held size _ _ k h (signals_nobody n now s e none_waits) = h
Step-Held size _ _ k h (stops s) =
    if_case (Held size) s.shut_down (λ e. h) (λ e. broadcast-Held size s h)
Step-Held size _ _ k h (joins s d f) = h

pub Reachable-Held : (size : ℕ) (s : Workers) → 0 < size → Reachable size s → Held size s
unfolding create
Reachable-Held size _ z (created made e) = λ t q. absurd (ground (arith, q))
Reachable-Held size _ z (then_step r s h k) =
    Step-Held size r s (Reachable-IsSound size r z h) (Reachable-Held size r z h) k
