-- ===== src/Tests/Locking.antt =====
-- Two threads and their mutexes.
use linux_communication.Common.{ℕ, zero, suc, ◌≡◌, ◌≢◌, refl, true, List, [], ◌∷◌, some, update}
use linux_communication.Locks.{
  lock, unlock, instance_mutex, get_instance_locks, logic_proc_mutex, send_queue_mutex, ser_lock,
  Operation, answers, sends_packets, accesses, all_accesses, Locks, take_mutex, access_step, begin,
  LocksReached, begins, goes_on,
}
use linux_communication.Locks.Progress.{SomeoneCan, LocksReached-goes_on}

-- Thread 0 answers connection 1, thread 1 sends.
abbrev todo : ℕ → List Operation
todo zero = answers 1 true ∷ []
todo (suc n) = sends_packets ∷ []

answer_order :
    accesses (answers 1 true)
    ≡ lock (logic_proc_mutex 1)
      ∷ lock instance_mutex
      ∷ unlock instance_mutex
      ∷ lock send_queue_mutex
      ∷ unlock send_queue_mutex
      ∷ unlock (logic_proc_mutex 1)
      ∷ []
unfolding accesses ser_lock get_instance_locks
answer_order = refl

-- The sending thread has its mutex.
abbrev sending : Locks
sending = record {
  holders = update (begin todo).holders send_queue_mutex (some 1);
  left = update (begin todo).left 1 (unlock send_queue_mutex ∷ []);
}

sending-LocksReached : LocksReached todo sending
unfolding begin all_accesses accesses access_step take_mutex
sending-LocksReached = goes_on 1 (begin todo) sending begins refl

LocksReached-goes_on_example :
    ((t : ℕ) → sending.left t ≢ [] → SomeoneCan sending)
    × ((t m : ℕ) → sending.left t ≡ [] → sending.holders m ≢ some t)
LocksReached-goes_on_example = LocksReached-goes_on todo sending sending-LocksReached
