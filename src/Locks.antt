-- ===== src/Locks.antt =====
-- _include/ser_lock.h: SerLock; and in which order the threads of a worker take the mutexes of
-- net/ser_socket.cxx, net/ser_socket_connection.cxx, net/ser_socket_timer.cxx,
-- logic/ser_logic_socket.cxx and misc/ser_threadpool.cxx.
-- Only the locking and unlocking of each function stands here; what it does in between is in the
-- other parts, and what else a thread waits for (a signal, a semaphore, a join, the kernel) is left
-- out. The mutexes are not recursive: who locks one that it holds waits for ever.
pub mod Order
pub mod Held
pub mod Progress
use linux_communication.Common.{
  ℕ, zero, suc, ◌+◌, ◌<◌, ◌≡◌, List, [], ◌∷◌, ◌++◌, Bool, true, false, Option, none, some, update,
}

-- The mutexes by number: mSendQueueMutex, mConnectionMutex, mRecyConnectionMutex,
-- mTimerQueueMutex, mThreadMutex, mMutex of SerCRC32, and mLogicProcMutex of connection `c`. main has
-- made the objects of SerConfiger and SerMemory before any thread starts, so that their GetInstance
-- takes no mutex in a thread.
abbrev pub send_queue_mutex : ℕ
send_queue_mutex = 0

abbrev pub connection_mutex : ℕ
connection_mutex = 1

abbrev pub recy_connection_mutex : ℕ
recy_connection_mutex = 2

abbrev pub timer_queue_mutex : ℕ
timer_queue_mutex = 3

abbrev pub thread_mutex : ℕ
thread_mutex = 4

abbrev pub instance_mutex : ℕ
instance_mutex = 5

abbrev pub logic_proc_mutex : ℕ → ℕ
logic_proc_mutex c = c + 6

-- `pthread_mutex_lock` and `pthread_mutex_unlock`
pub data Access : Type 0 where
  lock unlock : ℕ → Access

-- A scope with a `SerLock`: its constructor locks, and its destructor unlocks on every way out.
unfoldable pub ser_lock : ℕ → List Access → List Access
ser_lock m body = lock m ∷ (body ++ (unlock m ∷ []))

-- `ser_in_send_queue`
abbrev pub ser_in_send_queue_locks : List Access
ser_in_send_queue_locks = ser_lock send_queue_mutex []

-- `ser_get_free_connection`
abbrev pub ser_get_free_connection_locks : List Access
ser_get_free_connection_locks = ser_lock connection_mutex []

-- `ser_free_connection`
abbrev pub ser_free_connection_locks : List Access
ser_free_connection_locks = ser_lock connection_mutex []

-- `ser_in_recy_connection`
abbrev pub ser_in_recy_connection_locks : List Access
ser_in_recy_connection_locks = ser_lock recy_connection_mutex []

-- `addToTimerQueue`
abbrev pub add_to_timer_queue_locks : List Access
add_to_timer_queue_locks = ser_lock timer_queue_mutex []

-- A turn of `ser_timer_queue_monitor_thread`.
abbrev pub monitor_locks : List Access
monitor_locks = lock timer_queue_mutex ∷ unlock timer_queue_mutex ∷ []

-- `InMsgRecvQueueAndSignal`
abbrev pub in_msg_recv_queue_locks : List Access
in_msg_recv_queue_locks = lock thread_mutex ∷ unlock thread_mutex ∷ []

-- `SerCRC32::GetInstance`, by whether its first test finds a null pointer.
unfoldable pub get_instance_locks : Bool → List Access
get_instance_locks true = lock instance_mutex ∷ unlock instance_mutex ∷ []
get_instance_locks false = []

-- `PingHandler` and `RegisterHandler`, which call ser_in_send_queue under their own mutex; the
-- second one also GetInstance.
abbrev pub handler_locks : ℕ → Bool → List Access
handler_locks c null_instance =
    ser_lock (logic_proc_mutex c) (get_instance_locks null_instance ++ ser_in_send_queue_locks)

-- A turn of `ser_send_msg_queue_thread`.
abbrev pub send_turn_locks : List Access
send_turn_locks = lock send_queue_mutex ∷ unlock send_queue_mutex ∷ []

-- `ser_free_connection`, for each of some connections.
pub free_each : ℕ → List Access
free_each zero = []
free_each (suc n) = ser_free_connection_locks ++ free_each n

-- A turn of `ser_recy_connection_thread` that frees `n` connections.
abbrev pub recycle_locks : ℕ → List Access
recycle_locks n = lock recy_connection_mutex ∷ (free_each n ++ (unlock recy_connection_mutex ∷ []))

-- `pthread_cond_wait` gives the mutex back, and takes it again. When it is woken is not said here: it
-- may be at any time.
pub waits_for_packet : ℕ → List Access
waits_for_packet zero = []
waits_for_packet (suc n) = unlock thread_mutex ∷ lock thread_mutex ∷ waits_for_packet n

-- The round of `ThreadFunc` up to the unlock, with so many waits.
abbrev pub thread_func_locks : ℕ → List Access
thread_func_locks n = lock thread_mutex ∷ (waits_for_packet n ++ (unlock thread_mutex ∷ []))

-- What a thread does at a time.
pub data Operation : Type 0 where
  gets_connection frees_connection puts_in_recy adds_timer takes_timers : Operation
  queues_packet sends_packets : Operation
  takes_packet recycles_due : ℕ → Operation
  checks_packet : Bool → Operation
  answers : ℕ → Bool → Operation

unfoldable pub accesses : Operation → List Access
accesses gets_connection = ser_get_free_connection_locks
accesses frees_connection = ser_free_connection_locks
accesses puts_in_recy = ser_in_recy_connection_locks
accesses adds_timer = add_to_timer_queue_locks
accesses takes_timers = monitor_locks
accesses queues_packet = in_msg_recv_queue_locks
accesses (takes_packet n) = thread_func_locks n
accesses (checks_packet null_instance) = get_instance_locks null_instance
accesses (answers c null_instance) = handler_locks c null_instance
accesses sends_packets = send_turn_locks
accesses (recycles_due n) = recycle_locks n

-- One operation after another.
unfoldable pub all_accesses : List Operation → List Access
all_accesses [] = []
all_accesses (o ∷ os) = accesses o ++ all_accesses os

-- Who holds each mutex, and what is left to each thread.
pub record Locks : Type 0 where
  pub holders : ℕ → Option ℕ
  pub left : ℕ → List Access

unfoldable pub take_mutex : Option ℕ → ℕ → ℕ → List Access → Locks → Option Locks
take_mutex none m t rest s =
    some (record { holders = update s.holders m (some t); left = update s.left t rest })
take_mutex (some u) m t rest s = none

-- The next access of thread `t`; `none` where it has to wait, or has nothing left.
unfoldable pub access_step : List Access → ℕ → Locks → Option Locks
access_step [] t s = none
access_step (lock m ∷ rest) t s = take_mutex (s.holders m) m t rest s
access_step (unlock m ∷ rest) t s =
    some (record { holders = update s.holders m none; left = update s.left t rest })

-- Threads that have these operations before them.
unfoldable pub begin : (ℕ → List Operation) → Locks
begin todo = record { holders = λ m. none; left = λ t. all_accesses (todo t) }

-- The states that any interleaving of the threads leads to.
pub data LocksReached (todo : ℕ → List Operation) : Locks → Type 0 where
  begins : LocksReached todo (begin todo)
  goes_on :
      (t : ℕ) (s u : Locks)
      → LocksReached todo s
      → access_step (s.left t) t s ≡ some u
      → LocksReached todo u
