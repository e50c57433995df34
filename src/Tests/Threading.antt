-- ===== src/Tests/Threading.antt =====
-- Tests of the thread pool.
use mathlib.Core.Path.{subst}
use linux_communication.Common.{
  ℕ, ◌+◌, ◌*◌, ◌≤◌, ◌<◌, ◌≡◌, ◌≢◌, refl, ap, arith, true, false, Bool, some, none, List, [], ◌∷◌,
  update, length, ◌==◌,
}
use linux_communication.Threads.{
  Workers, parking, checking, waiting, working, finished, set_phase, lock, take_packet, turn_from,
  thread_turn, push_packet, stop_all, delete_threads, warns, idle, make_threads, create,
  all_running, turns, pushes, Reachable, created, then_step,
}
use linux_communication.Threads.Invariant.{IsSound}
use linux_communication.Threads.Steps.{Reachable-IsSound, stop_all_misses}
use linux_communication.Threads.Busy.{Reachable-warns}
use linux_communication.Threads.Stopping.{AllBelow, take_turns, stop_all-ends}

-- A pool of one thread.
abbrev single : Workers
single = idle (0 ∷ [])

made : create (λ t. true) 1 ≡ (true, single)
unfolding create make_threads
made = refl

single-Reachable : Reachable 1 single
single-Reachable =
    subst (λ (w : Workers). Reachable 1 w) (ap (λ (p : Bool × Workers). p.1) made)
      (created (λ t. true) (ap (λ (p : Bool × Workers). p.0) made))

Reachable-IsSound_example : IsSound 1 (push_packet single)
Reachable-IsSound_example =
    Reachable-IsSound 1 (push_packet single) (omega arith)
      (then_step single (push_packet single) single-Reachable (pushes single refl))

-- Thread 0 looks at the queue.
abbrev looking : Workers
looking = set_phase 0 checking (record (single) { holder = some 0 })

looking-Reachable : Reachable 1 looking
unfolding thread_turn turn_from lock
looking-Reachable =
    then_step single looking single-Reachable (turns 0 single looking (omega arith) refl)

-- It is about to wait.
abbrev about_to_wait : Workers
about_to_wait = set_phase 0 parking (record looking { running = update (λ t. false) 0 true })

about_to_wait-Reachable : Reachable 1 about_to_wait
unfolding thread_turn turn_from take_packet set_phase
about_to_wait-Reachable =
    then_step looking about_to_wait looking-Reachable
      (turns 0 looking about_to_wait (omega arith) refl)

about_to_wait_parks : about_to_wait.phases 0 ≡ parking
unfolding set_phase
about_to_wait_parks = refl

stop_all_misses_example :
    (u : Workers) × Reachable 1 u
    × (u.shut_down ≡ true)
    × (u.phases 0 ≡ waiting)
    × (thread_turn 0 u ≡ none)
stop_all_misses_example =
    stop_all_misses 1 0 about_to_wait (omega arith) about_to_wait-Reachable about_to_wait_parks

-- The one thread of the pool runs now.
runs : all_running about_to_wait.threads about_to_wait.running ≡ true
unfolding all_running set_phase
runs = refl

second_fails : (create (λ t. t == 0) 3).0 ≡ false
unfolding create make_threads
second_fails = refl

Reachable-warns_example :
    (single.busy ≤ 1)
    × (warns 1 20 single ≡ true
        → ((t : ℕ) → t < 1 → (n : ℕ) × (single.phases t ≡ working n))
          × (single.last_emg_time + 10 < 20))
Reachable-warns_example = Reachable-warns 1 20 single single-Reachable

looking_goes_on : (t : ℕ) → t < 1 → looking.phases t ≢ parking
unfolding set_phase
looking_goes_on t l e = ground (arith, e)

not_stopped : looking.shut_down ≡ false
unfolding set_phase
not_stopped = refl

stop_all-ends_example :
    ((u : Workers) × Reachable 1 (delete_threads u) × ((t : ℕ) → t < 1 → u.phases t ≡ finished))
    × ((ts : List ℕ) (u : Workers)
        → AllBelow 1 ts
        → take_turns ts (stop_all looking) ≡ some u
        → (length ts ≤ 3 * 1)
          × (((t : ℕ) → t < 1 → thread_turn t u ≡ none) → (t : ℕ) → t < 1 → u.phases t ≡ finished))
stop_all-ends_example =
    stop_all-ends 1 looking (omega arith) looking-Reachable not_stopped looking_goes_on
