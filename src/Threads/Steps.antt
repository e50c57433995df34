-- ===== src/Threads/Steps.antt =====
-- What holds in every state that the thread pool reaches.
use mathlib.Core.Path.{subst}
use linux_communication.Common.{
  if_case, Bool, update_self, ℕ, suc, ◌<◌, ◌≡◌, refl, sym, ◌∙◌, ap, arith, [], ◌∷◌, ◌++◌, true,
  none,
}
use linux_communication.Threads.{
  Phase, locking, checking, parking, waiting, woken, working, finished, Workers, set_phase,
  turn_from, check_busy, delete_threads, broadcast, joins, thread_turn, push_packet, wake_phase,
  stop_all, create, Step, turns, wakes, pushes, signals, signals_nobody, stops, Reachable, created,
  then_step,
}
use linux_communication.Threads.Invariant.{range, range-snoc, IsSound}
use linux_communication.Threads.Turns.{SoundIfAny, turn_from-SoundIfAny}

wake-IsSound :
    (size t : ℕ) (s : Workers)
    → t < size
    → s.phases t ≡ waiting
    → IsSound size s
    → (n time : ℕ)
    → IsSound size (set_phase t woken (record s { pending = n; last_emg_time = time }))
unfolding set_phase
wake-IsSound size t s l q h n time = record {
  in_order = record { rest = h.in_order.rest; all = h.in_order.all; queue = h.in_order.queue };
  exclusive = record {
    looks = λ x k. ground (arith, h.exclusive.looks x);
    parks = λ x k. ground (arith, h.exclusive.parks x);
  };
  one_worker = record {
    was_taken = λ x m k. ground (arith, h.one_worker.was_taken x m);
    alone = λ x y m k j. ground (arith, h.one_worker.alone x y m);
  };
  awake = λ a b c. (t, l, ground arith);
}

push_packet-IsSound :
    (size : ℕ) (s : Workers) → s.holder ≡ none → IsSound size s → IsSound size (push_packet s)
unfolding push_packet
push_packet-IsSound size s e h = record {
  in_order = record {
    rest = suc h.in_order.rest;
    all = omega (arith, h.in_order.all);
    queue =
        ap (λ q. q ++ (s.pushed ∷ [])) h.in_order.queue
        ∙ ap (λ n. range s.taken h.in_order.rest ++ (n ∷ [])) (sym h.in_order.all)
        ∙ range-snoc s.taken h.in_order.rest;
  };
  exclusive = record {
    looks = h.exclusive.looks;
    parks = λ x k. ground (arith, (h.exclusive.parks x k).0, e);
  };
  one_worker = record { was_taken = h.one_worker.was_taken; alone = h.one_worker.alone };
  awake = λ a b c. absurd (omega (arith, c));
}

-- A thread that the broadcast leaves in `ph` was there before.
wake_phase-checking : (ph : Phase) → wake_phase ph ≡ checking → ph ≡ checking
unfolding wake_phase
wake_phase-checking locking e = e
wake_phase-checking checking e = e
wake_phase-checking parking e = e
wake_phase-checking waiting e = ground (arith, e)
wake_phase-checking woken e = e
wake_phase-checking (working n) e = e
wake_phase-checking finished e = e

wake_phase-parking : (ph : Phase) → wake_phase ph ≡ parking → ph ≡ parking
unfolding wake_phase
wake_phase-parking locking e = e
wake_phase-parking checking e = e
wake_phase-parking parking e = e
wake_phase-parking waiting e = ground (arith, e)
wake_phase-parking woken e = e
wake_phase-parking (working n) e = e
wake_phase-parking finished e = e

wake_phase-working : (ph : Phase) (n : ℕ) → wake_phase ph ≡ working n → ph ≡ working n
unfolding wake_phase
wake_phase-working locking n e = e
wake_phase-working checking n e = e
wake_phase-working parking n e = e
wake_phase-working waiting n e = ground (arith, e)
wake_phase-working woken n e = e
wake_phase-working (working m) n e = e
wake_phase-working finished n e = e

broadcast-IsSound : (size : ℕ) (s : Workers) → IsSound size s → IsSound size (broadcast s)
broadcast-IsSound size s h = record {
  in_order = record { rest = h.in_order.rest; all = h.in_order.all; queue = h.in_order.queue };
  exclusive = record {
    looks = λ x k. h.exclusive.looks x (wake_phase-checking (s.phases x) k);
    parks = λ x k. h.exclusive.parks x (wake_phase-parking (s.phases x) k);
  };
  one_worker = record {
    was_taken = λ x n k. h.one_worker.was_taken x n (wake_phase-working (s.phases x) n k);
    alone = λ x y n k j.
        h.one_worker.alone x y n (wake_phase-working (s.phases x) n k)
          (wake_phase-working (s.phases y) n j);
  };
  awake = λ a b c. ground (arith, b);
}

stop_all-IsSound : (size : ℕ) (s : Workers) → IsSound size s → IsSound size (stop_all s)
unfolding stop_all
stop_all-IsSound size s h =
    if_case (IsSound size) s.shut_down (λ e. h) (λ e. broadcast-IsSound size s h)

Step-IsSound :
    (size : ℕ) (s u : Workers) → 0 < size → IsSound size s → Step size s u → IsSound size u
unfolding thread_turn check_busy delete_threads
Step-IsSound size _ _ z h (turns t s u l e) =
    subst (SoundIfAny size) e (turn_from-SoundIfAny size t s (s.phases t) refl l h)
Step-IsSound size _ _ z h (wakes t s l q) = wake-IsSound size t s l q h s.pending s.last_emg_time
Step-IsSound size _ _ z h (pushes s e) = push_packet-IsSound size s e h
Step-IsSound size _ _ z h (signals t n now s l e q) = wake-IsSound size t s l q h n _
Step-IsSound size _ _ z h (signals_nobody n now s e none_waits) = record {
  in_order = record { rest = h.in_order.rest; all = h.in_order.all; queue = h.in_order.queue };
  exclusive = record { looks = h.exclusive.looks; parks = h.exclusive.parks };
  one_worker = record { was_taken = h.one_worker.was_taken; alone = h.one_worker.alone };
  awake = λ a b c. (0, z, none_waits 0 z);
}
Step-IsSound size _ _ z h (stops s) = stop_all-IsSound size s h
Step-IsSound size _ _ z h (joins s d f) = record {
  in_order = record { rest = h.in_order.rest; all = h.in_order.all; queue = h.in_order.queue };
  exclusive = record { looks = h.exclusive.looks; parks = h.exclusive.parks };
  one_worker = record { was_taken = h.one_worker.was_taken; alone = h.one_worker.alone };
  awake = λ a b c. h.awake a b c;
}

create-IsSound : (size : ℕ) (made : ℕ → Bool) → IsSound size (create made size).1
unfolding create
create-IsSound size made = record {
  in_order = record { rest = 0; all = refl; queue = refl };
  exclusive = record { looks = λ t e. ground (arith, e); parks = λ t e. ground (arith, e) };
  one_worker = record {
    was_taken = λ t n e. ground (arith, e);
    alone = λ t u n e k. ground (arith, e);
  };
  awake = λ a b c. absurd (a refl);
}

-- In every state that a pool of at least one thread reaches: the packets in the queue are those
-- queued and not yet taken, in the order in which they came; only the holder of the mutex looks at
-- the queue, and one that goes to wait has found it empty; no two threads work on one packet; and
-- no wake-up is lost: where packets are queued, no signal is to come and the pool is not stopped,
-- some thread is not waiting.
pub Reachable-IsSound : (size : ℕ) (s : Workers) → 0 < size → Reachable size s → IsSound size s
Reachable-IsSound size _ z (created made e) = create-IsSound size made
Reachable-IsSound size _ z (then_step r s h k) =
    Step-IsSound size r s z (Reachable-IsSound size r z h) k

-- `StopAll` does not lock the mutex: if it runs after a thread has found the queue empty and no
-- stop, and before that thread waits, the pool reaches a state in which it is stopped and the
-- thread waits after the broadcast, and cannot go on by itself, so that joining it does not end.
pub stop_all_misses :
    (size t : ℕ) (s : Workers)
    → t < size
    → Reachable size s
    → s.phases t ≡ parking
    → (u : Workers) × Reachable size u
      × (u.shut_down ≡ true)
      × (u.phases t ≡ waiting)
      × (thread_turn t u ≡ none)
unfolding thread_turn turn_from set_phase stop_all wake_phase
stop_all_misses size t s l r q =
    let v = stop_all s in
    let parks : v.phases t ≡ parking =
      if_case (λ (w : Workers). w.phases t ≡ parking) s.shut_down (λ e. q) (λ e. rw q refl) in
    let stopped : v.shut_down ≡ true =
      if_case (λ (w : Workers). w.shut_down ≡ true) s.shut_down (λ e. e) (λ e. refl) in
    let u = set_phase t waiting (record v { holder = none }) in
    (
      u,
      then_step v u (then_step s v r (stops s)) (turns t v u l (rw parks refl)),
      stopped,
      update_self v.phases t waiting,
      rw (update_self v.phases t waiting) refl,
    )
