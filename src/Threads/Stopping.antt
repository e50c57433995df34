-- ===== src/Threads/Stopping.antt =====
-- The threads after StopAll.
use mathlib.Core.Path.{subst}
use linux_communication.Common.{
  ℕ, zero, suc, ◌+◌, ◌*◌, ◌≤◌, ◌<◌, ◌≡◌, ◌≢◌, refl, sym, ◌∙◌, ap, arith, List, [], ◌∷◌, length,
  Option, none, some, ◌⊎◌, inl, inr, ℕ_discrete, Option-cases, ◌>>=◌, false,
}
use linux_communication.Threads.{
  Phase, locking, checking, parking, waiting, woken, working, finished, Workers, lock, turn_from,
  thread_turn, wake_phase, stop_all, delete_threads, turns, stops, joins, Reachable, then_step,
}
use linux_communication.Threads.Totals.{total, total-one}
use linux_communication.Threads.Held.{Held, Reachable-Held}
use linux_communication.Threads.Nearer.{IsStopping, turn-Nearer, turns_left}

phase_left : (ph : Phase) → ph ≢ waiting → ph ≢ parking → (ph ≡ finished) ⊎ (0 < turns_left ph)
phase_left locking w p = inr (omega arith)
phase_left checking w p = inr (omega arith)
phase_left parking w p = absurd (p refl)
phase_left waiting w p = absurd (w refl)
phase_left woken w p = inr (omega arith)
phase_left (working n) w p = inr (omega arith)
phase_left finished w p = inl refl

-- Either all of the first `n` threads are finished, or one has turns left.
find_unfinished :
    (size n : ℕ) (s : Workers)
    → n ≤ size
    → IsStopping size s
    → ((t : ℕ) → t < n → s.phases t ≡ finished)
      ⊎ ((t : ℕ) × (t < size) × (0 < turns_left (s.phases t)))
find_unfinished size zero s l h = inl (λ t k. absurd (omega (arith, k)))
find_unfinished size (suc n) s l h = elim (find_unfinished size n s (omega (arith, l)) h) [
  | inr found ↦ inr found
  | inl before ↦ elim (phase_left (s.phases n) (h.awake n l).0 (h.awake n l).1) [
    | inr w ↦ inr (n, l, w)
    | inl e ↦ inl (λ t k. elim (ℕ_discrete t n) [
      | yes q ↦ ap s.phases q ∙ e
      | no d ↦ before t (omega (arith, k, d))
    ])
  ]
]

turn_of :
    (t : ℕ) (s : Workers) (ph : Phase)
    → s.holder ≡ none
    → 0 < turns_left ph
    → (u : Workers) × (turn_from ph t s ≡ some u)
unfolding turn_from lock
turn_of t s locking q w = (_, ap (λ o. lock t o s) q)
turn_of t s checking q w = (_, refl)
turn_of t s parking q w = absurd (omega (arith, w))
turn_of t s waiting q w = absurd (omega (arith, w))
turn_of t s woken q w = (_, ap (λ o. lock t o s) q)
turn_of t s (working n) q w = (_, refl)
turn_of t s finished q w = absurd (omega (arith, w))

checking_turn : (t : ℕ) (s : Workers) → (u : Workers) × (turn_from checking t s ≡ some u)
unfolding turn_from
checking_turn t s = (_, refl)

-- A thread that has turns left can go on where the mutex is free, and whoever holds it can.
goes_on :
    (size t : ℕ) (s : Workers) (o : Option ℕ)
    → s.holder ≡ o
    → t < size
    → 0 < turns_left (s.phases t)
    → IsStopping size s
    → (x : ℕ) × (x < size) × (u : Workers) × (thread_turn x s ≡ some u)
unfolding thread_turn
goes_on size t s none q l w h = let (u, e) = turn_of t s (s.phases t) q w in (t, l, u, e)
goes_on size t s (some x) q l w h =
    let (k, at) = h.held x q in
    let (u, e) = checking_turn x s in (x, k, u, ap (λ ph. turn_from ph x s) at ∙ e)

-- The threads take turns in the order given; `none` where one cannot.
pub take_turns : List ℕ → Workers → Option Workers
take_turns [] s = some s
take_turns (t ∷ ts) s = do u ← thread_turn t s; take_turns ts u

pub AllBelow : ℕ → List ℕ → Type 0
AllBelow n [] = Unit {0}
AllBelow n (t ∷ ts) = (t < n) × AllBelow n ts

-- From a stopping pool the threads can come to their end.
can_finish :
    (size n : ℕ) (s : Workers)
    → total turns_left size s.phases ≤ n
    → IsStopping size s
    → Reachable size s
    → (u : Workers) × Reachable size u
      × IsStopping size u
      × ((t : ℕ) → t < size → u.phases t ≡ finished)
can_finish size zero s l h r = elim (find_unfinished size size s (omega arith) h) [
  | inl done ↦ (s, r, h, done)
  | inr (t, k, w) ↦ absurd (omega (arith, l, w, total-one turns_left size t s.phases k))
]
can_finish size (suc n) s l h r = elim (find_unfinished size size s (omega arith) h) [
  | inl done ↦ (s, r, h, done)
  | inr (t, k, w) ↦
      let (x, j, u, e) = goes_on size t s s.holder refl k w h in
      let d = turn-Nearer size x s u j h e in
      can_finish size n u (omega (arith, l, d.fewer)) d.stopping (then_step s u r (turns x s u j e))
]

-- Each turn of a stopping pool uses up one of those left.
take_turns-fewer :
    (size : ℕ) (ts : List ℕ) (s u : Workers)
    → AllBelow size ts
    → IsStopping size s
    → take_turns ts s ≡ some u
    → (length ts + total turns_left size u.phases ≤ total turns_left size s.phases)
      × IsStopping size u
unfolding take_turns AllBelow
take_turns-fewer size [] s u b h e =
    let same : s ≡ u = ap (λ (o : Option Workers). elim o [ none ↦ s | some v ↦ v ]) e in
    (omega (arith, ap (λ v. total turns_left size v.phases) same), subst (IsStopping size) same h)
take_turns-fewer size (t ∷ ts) s u b h e = elim (Option-cases (thread_turn t s)) [
  | inl stuck ↦ absurd (ground (arith, e, stuck))
  | inr (v, q) ↦
      let d = turn-Nearer size t s v b.0 h q in
      let (few, k) =
        take_turns-fewer size ts v u b.1 d.stopping (ap (λ o. o >>= take_turns ts) (sym q) ∙ e) in
      (omega (arith, few, d.fewer), k)
]

three : (ph : Phase) → turns_left ph ≤ 3
three locking = omega arith
three checking = omega arith
three parking = omega arith
three waiting = omega arith
three woken = omega arith
three (working n) = omega arith
three finished = omega arith

at_most_three : (size : ℕ) (f : ℕ → Phase) → total turns_left size f ≤ 3 * size
unfolding total
at_most_three zero f = omega arith
at_most_three (suc n) f = omega (arith, at_most_three n f, three (f n))

woken_phase : (ph : Phase) → (wake_phase ph ≢ waiting) × (ph ≢ parking → wake_phase ph ≢ parking)
unfolding wake_phase
woken_phase locking = (λ e. ground (arith, e), λ d e. ground (arith, e))
woken_phase checking = (λ e. ground (arith, e), λ d e. ground (arith, e))
woken_phase parking = (λ e. ground (arith, e), λ d e. d e)
woken_phase waiting = (λ e. ground (arith, e), λ d e. ground (arith, e))
woken_phase woken = (λ e. ground (arith, e), λ d e. ground (arith, e))
woken_phase (working n) = (λ e. ground (arith, e), λ d e. ground (arith, e))
woken_phase finished = (λ e. ground (arith, e), λ d e. ground (arith, e))

checking_stays : wake_phase checking ≡ checking
unfolding wake_phase
checking_stays = refl

stop_all-IsStopping :
    (size : ℕ) (s : Workers)
    → s.shut_down ≡ false
    → ((t : ℕ) → t < size → s.phases t ≢ parking)
    → Held size s
    → IsStopping size (stop_all s)
unfolding stop_all
stop_all-IsStopping size s d np h = rw d (record {
  stopped = refl;
  awake = λ t l. ((woken_phase (s.phases t)).0, (woken_phase (s.phases t)).1 (np t l));
  held = λ t e.
      let (l, at) = h t e in
      (l, elim at [ inl k ↦ ap wake_phase k ∙ checking_stays | inr k ↦ absurd (np t l k) ]);
})

-- Where the pool has at least one thread and is not stopped, and no thread is between its look at an
-- empty queue and its wait, StopAll comes to its end: the threads can all finish, so that it joins
-- and deletes them; however they take turns after the broadcast, they take at most three for each
-- thread of the pool, and where none of them can go on, all have finished.
pub stop_all-ends :
    (size : ℕ) (s : Workers)
    → 0 < size
    → Reachable size s
    → s.shut_down ≡ false
    → ((t : ℕ) → t < size → s.phases t ≢ parking)
    → ((u : Workers) × Reachable size (delete_threads u)
        × ((t : ℕ) → t < size → u.phases t ≡ finished))
      × ((ts : List ℕ) (u : Workers)
          → AllBelow size ts
          → take_turns ts (stop_all s) ≡ some u
          → (length ts ≤ 3 * size)
            × (((t : ℕ) → t < size → thread_turn t u ≡ none)
                → (t : ℕ) → t < size
                → u.phases t ≡ finished))
stop_all-ends size s z r d np =
    let h = stop_all-IsStopping size s d np (Reachable-Held size s z r) in
    let (u, k, hu, done) =
      can_finish size _ (stop_all s) (at_most_three size (stop_all s).phases) h
        (then_step s (stop_all s) r (stops s)) in
    (
      (u, then_step u (delete_threads u) k (joins u hu.stopped done), done),
      λ ts v b e.
          let (few, hv) = take_turns-fewer size ts (stop_all s) v b h e in
          (
            omega (arith, few, at_most_three size (stop_all s).phases),
            λ stuck. elim (find_unfinished size size v (omega arith) hv) [
              | inl all ↦ all
              | inr (t, l, w) ↦
                  let (x, j, y, q) = goes_on size t v v.holder refl l w hv in
                  absurd (ground (arith, q, stuck x j))
            ],
          ),
    )
