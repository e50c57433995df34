-- ===== src/Locks/Order.antt =====
-- Every operation takes a mutex only below those that it holds.
use linux_communication.Common.{
  Bool, true, false, ℕ, zero, suc, ◌<◌, sym, arith, List, [], ◌∷◌, ◌++◌, append_assoc,
}
use mathlib.Core.Path.{subst}
use linux_communication.Locks.{
  send_queue_mutex, connection_mutex, recy_connection_mutex, timer_queue_mutex, thread_mutex,
  instance_mutex, logic_proc_mutex, get_instance_locks, checks_packet, Access, lock, unlock,
  ser_lock, free_each, Operation, gets_connection, frees_connection, puts_in_recy, adds_timer,
  takes_timers, queues_packet, takes_packet, answers, sends_packets, recycles_due, waits_for_packet,
  accesses, all_accesses,
}

-- `m` is below the mutex that was locked last.
abbrev pub Below : ℕ → List ℕ → Type 0
Below m [] = Unit {0}
Below m (h ∷ hs) = m < h

-- What is left to a thread that holds these mutexes, the last one first: it unlocks the one that it
-- locked last, locks only below that one, and holds none at the end.
pub data Ordered : List ℕ → List Access → Type 0 where
  ends : Ordered [] []
  locks :
      (m : ℕ) (held : List ℕ) (rest : List Access)
      → Below m held
      → Ordered (m ∷ held) rest
      → Ordered held (lock m ∷ rest)
  unlocks :
      (m : ℕ) (held : List ℕ) (rest : List Access)
      → Ordered held rest
      → Ordered (m ∷ held) (unlock m ∷ rest)

ser_lock-Ordered :
    (m : ℕ) (held : List ℕ) (body rest : List Access)
    → Below m held
    → ((after : List Access) → Ordered (m ∷ held) after → Ordered (m ∷ held) (body ++ after))
    → Ordered held rest
    → Ordered held (ser_lock m body ++ rest)
unfolding ser_lock
ser_lock-Ordered m held body rest b inner r = locks m held _ b (
    subst (Ordered (m ∷ held)) (sym (append_assoc body (unlock m ∷ []) rest))
      (inner (unlock m ∷ rest) (unlocks m held rest r)))

free_each-Ordered :
    (n : ℕ) (rest : List Access)
    → Ordered (recy_connection_mutex ∷ []) rest
    → Ordered (recy_connection_mutex ∷ []) (free_each n ++ rest)
unfolding free_each
free_each-Ordered zero rest r = r
free_each-Ordered (suc n) rest r =
    subst (Ordered (recy_connection_mutex ∷ []))
      (sym (append_assoc (ser_lock connection_mutex []) (free_each n) rest))
      (ser_lock-Ordered connection_mutex (recy_connection_mutex ∷ []) [] (free_each n ++ rest)
        (omega arith) (λ after h. h) (free_each-Ordered n rest r))

waits-Ordered :
    (n : ℕ) (rest : List Access)
    → Ordered (thread_mutex ∷ []) rest
    → Ordered (thread_mutex ∷ []) (waits_for_packet n ++ rest)
unfolding waits_for_packet
waits-Ordered zero rest r = r
waits-Ordered (suc n) rest r =
    unlocks thread_mutex [] _ (locks thread_mutex [] _ tt (waits-Ordered n rest r))

instance-Ordered :
    (null_instance : Bool) (held : List ℕ) (rest : List Access)
    → Below instance_mutex held
    → Ordered held rest
    → Ordered held (get_instance_locks null_instance ++ rest)
unfolding get_instance_locks
instance-Ordered true held rest b r =
    locks instance_mutex held _ b (unlocks instance_mutex held rest r)
instance-Ordered false held rest b r = r

accesses-Ordered :
    (o : Operation) (rest : List Access) → Ordered [] rest → Ordered [] (accesses o ++ rest)
unfolding accesses
accesses-Ordered gets_connection rest r =
    ser_lock-Ordered connection_mutex [] [] rest tt (λ after h. h) r
accesses-Ordered frees_connection rest r =
    ser_lock-Ordered connection_mutex [] [] rest tt (λ after h. h) r
accesses-Ordered puts_in_recy rest r =
    ser_lock-Ordered recy_connection_mutex [] [] rest tt (λ after h. h) r
accesses-Ordered adds_timer rest r =
    ser_lock-Ordered timer_queue_mutex [] [] rest tt (λ after h. h) r
accesses-Ordered takes_timers rest r =
    locks timer_queue_mutex [] _ tt (unlocks timer_queue_mutex [] rest r)
accesses-Ordered queues_packet rest r = locks thread_mutex [] _ tt (unlocks thread_mutex [] rest r)
accesses-Ordered (takes_packet n) rest r = locks thread_mutex [] _ tt (
    subst (Ordered (thread_mutex ∷ []))
      (sym (append_assoc (waits_for_packet n) (unlock thread_mutex ∷ []) rest))
      (waits-Ordered n _ (unlocks thread_mutex [] rest r)))
accesses-Ordered (checks_packet null_instance) rest r = instance-Ordered null_instance [] rest tt r
accesses-Ordered (answers c null_instance) rest r =
    ser_lock-Ordered (logic_proc_mutex c) []
      (get_instance_locks null_instance ++ ser_lock send_queue_mutex []) rest tt
      (λ after h.
        subst (Ordered (logic_proc_mutex c ∷ []))
          (sym
            (append_assoc (get_instance_locks null_instance) (ser_lock send_queue_mutex []) after))
          (instance-Ordered null_instance (logic_proc_mutex c ∷ []) _ (omega arith) (
            ser_lock-Ordered send_queue_mutex (logic_proc_mutex c ∷ []) [] after (omega arith)
              (λ last k. k) h)))
      r
accesses-Ordered sends_packets rest r =
    locks send_queue_mutex [] _ tt (unlocks send_queue_mutex [] rest r)
accesses-Ordered (recycles_due n) rest r = locks recy_connection_mutex [] _ tt (
    subst (Ordered (recy_connection_mutex ∷ []))
      (sym (append_assoc (free_each n) (unlock recy_connection_mutex ∷ []) rest))
      (free_each-Ordered n _ (unlocks recy_connection_mutex [] rest r)))

-- Whatever a thread does in a row, it takes its mutexes in order.
pub all_accesses-Ordered : (os : List Operation) → Ordered [] (all_accesses os)
unfolding all_accesses
all_accesses-Ordered [] = ends
all_accesses-Ordered (o ∷ os) = accesses-Ordered o (all_accesses os) (all_accesses-Ordered os)
