-- ===== src/Threads.antt =====
-- misc/ser_threadpool.cxx: the worker threads, their queue, mutex and condition variable.
-- A packet is named by how many packets were queued before it. The lock, the check of the queue and
-- the wait are separate steps of a thread; `pthread_cond_wait` gives the mutex back and takes it
-- again after it is woken, also without a signal. The counter of busy threads moves with the unlock
-- before it, and with the lock call after it. What a worker does with its packet is the part Serve.
-- The mutex and the condition variable are taken to work; whether a thread can be made is an
-- argument.
pub mod Invariant
pub mod Turns
pub mod Steps
pub mod Totals
pub mod Busy
pub mod Held
pub mod Nearer
pub mod Stopping
use linux_communication.Common.{
  ℕ, zero, suc, ◌+◌, ◌-◌, ◌<◌, ◌≡◌, ◌≢◌, List, [], ◌∷◌, ◌++◌, Bool, true, false, Option, none, some,
  update, if◌then◌else◌, ◌&&◌, ltb, ◌==◌,
}

-- Where a thread stands in `ThreadFunc`.
pub data Phase : Type 0 where
  -- before `pthread_mutex_lock`
  locking : Phase
  -- before the inner `while`, with the mutex
  checking : Phase
  -- after the inner `while` has found an empty queue and no stop, with the mutex
  parking : Phase
  -- in `pthread_cond_wait`
  waiting : Phase
  -- in `pthread_cond_wait`, woken, before it has the mutex again
  woken : Phase
  -- with a packet, without the mutex
  working : ℕ → Phase
  -- after the return
  finished : Phase

-- The fields of `SerThreadPool`, with the numbers of packets queued and taken so far, and of
-- packets queued whose `pthread_cond_signal` is still to come.
pub record Workers : Type 0 where
  pub queue : List ℕ
  pub shut_down : Bool
  pub holder : Option ℕ
  pub phases : ℕ → Phase
  -- `mIfRunning` of each thread
  pub running : ℕ → Bool
  -- `mRunningThreadNumber` and `mLastEmgTime`
  pub busy : ℕ
  pub last_emg_time : ℕ
  -- `mThreads`, the threads by their numbers
  pub threads : List ℕ
  pub pushed : ℕ
  pub taken : ℕ
  pub pending : ℕ

unfoldable pub set_phase : ℕ → Phase → Workers → Workers
set_phase t ph s = record s { phases = update s.phases t ph }

-- `pthread_mutex_lock`, where it does not block.
unfoldable pub lock : ℕ → Option ℕ → Workers → Option Workers
lock t none s = some (set_phase t checking (record s { holder = some t }))
lock t (some u) s = none

-- The inner `while` where the pool is not stopped: the first packet, if there is one.
unfoldable pub take_packet : ℕ → List ℕ → Workers → Workers
take_packet t [] s = set_phase t parking (record s { running = update s.running t true })
take_packet t (n ∷ rest) s =
    set_phase t (working n)
      (record s { holder = none; queue = rest; taken = s.taken + 1; busy = s.busy + 1 })

-- A step of thread `t` from its place in `ThreadFunc`; `none` where it cannot go on.
unfoldable pub turn_from : Phase → ℕ → Workers → Option Workers
turn_from locking t s = lock t s.holder s
turn_from checking t s = some (
    if s.shut_down
    then set_phase t finished (record s { holder = none })
    else take_packet t s.queue s)
turn_from parking t s = some (set_phase t waiting (record s { holder = none }))
turn_from waiting t s = none
turn_from woken t s = lock t s.holder s
turn_from (working n) t s = some (set_phase t locking (record s { busy = s.busy - 1 }))
turn_from finished t s = none

unfoldable pub thread_turn : ℕ → Workers → Option Workers
thread_turn t s = turn_from (s.phases t) t s

-- `InMsgRecvQueueAndSignal` up to the unlock.
pub push_packet : Workers → Workers
push_packet s = record s {
  queue = s.queue ++ (s.pushed ∷ []);
  pushed = s.pushed + 1;
  pending = s.pending + 1;
}

-- `pthread_cond_broadcast`
pub wake_phase : Phase → Phase
wake_phase locking = locking
wake_phase checking = checking
wake_phase parking = parking
wake_phase waiting = woken
wake_phase woken = woken
wake_phase (working n) = working n
wake_phase finished = finished

abbrev pub broadcast : Workers → Workers
broadcast s = record s { shut_down = true; phases = λ t. wake_phase (s.phases t) }

-- `StopAll` up to its broadcast; it does not lock the mutex.
pub stop_all : Workers → Workers
stop_all s = if s.shut_down then s else broadcast s

-- `StopAll` behind its joins: the threads are deleted.
pub delete_threads : Workers → Workers
delete_threads s = record s { threads = [] }

-- The test of `Call` for `size` threads at the time `now`: whether it warns that all are busy.
pub warns : ℕ → ℕ → Workers → Bool
warns size now s = size == s.busy && ltb 10 (now - s.last_emg_time)

-- `Call` behind the signal.
pub check_busy : ℕ → ℕ → Workers → Workers
check_busy size now s = record s {
  last_emg_time = if warns size now s then now else s.last_emg_time;
}

-- The pool before any thread runs.
abbrev pub idle : List ℕ → Workers
idle threads = record {
  queue = [];
  shut_down = false;
  holder = none;
  phases = λ t. locking;
  running = λ t. false;
  busy = 0;
  last_emg_time = 0;
  threads = threads;
  pushed = 0;
  taken = 0;
  pending = 0;
}

-- The first loop of `Create`, from thread `i` on with `left` to make: whether all were made, and
-- `mThreads`, which holds also the one that could not be made.
unfoldable pub make_threads : (ℕ → Bool) → ℕ → ℕ → Bool × List ℕ
make_threads made i zero = (true, [])
make_threads made i (suc left) =
    let (ok, rest) = make_threads made (i + 1) left in
    if made i then (ok, i ∷ rest) else (false, i ∷ [])

-- `Create` up to its second loop, which sleeps until every thread has set `mIfRunning`: the threads
-- are made and have not run yet. Their first turns may be before or after its return.
unfoldable pub create : (ℕ → Bool) → ℕ → Bool × Workers
create made size = let (ok, threads) = make_threads made 0 size in (ok, idle threads)

-- The second loop of `Create` ends where this holds.
unfoldable pub all_running : List ℕ → (ℕ → Bool) → Bool
all_running [] running = true
all_running (t ∷ ts) running = running t && all_running ts running

-- The steps of a pool of `size` threads.
pub data Step (size : ℕ) : Workers → Workers → Type 0 where
  turns : (t : ℕ) (s u : Workers) → t < size → thread_turn t s ≡ some u → Step size s u
  -- a thread comes out of `pthread_cond_wait` without a signal
  wakes :
      (t : ℕ) (s : Workers) → t < size → s.phases t ≡ waiting → Step size s (set_phase t woken s)
  pushes : (s : Workers) → s.holder ≡ none → Step size s (push_packet s)
  -- `Call`, where a thread waits
  signals :
      (t n now : ℕ) (s : Workers)
      → t < size
      → s.pending ≡ suc n
      → s.phases t ≡ waiting
      → Step size s (set_phase t woken (check_busy size now (record s { pending = n })))
  -- `Call`, where no thread waits
  signals_nobody :
      (n now : ℕ) (s : Workers)
      → s.pending ≡ suc n
      → ((t : ℕ) → t < size → s.phases t ≢ waiting)
      → Step size s (check_busy size now (record s { pending = n }))
  stops : (s : Workers) → Step size s (stop_all s)
  -- `StopAll` has joined all threads
  joins :
      (s : Workers)
      → s.shut_down ≡ true
      → ((t : ℕ) → t < size → s.phases t ≡ finished)
      → Step size s (delete_threads s)

-- The states that a pool of `size` threads, all of which were made, comes to.
pub data Reachable (size : ℕ) : Workers → Type 0 where
  created : (made : ℕ → Bool) → (create made size).0 ≡ true → Reachable size (create made size).1
  then_step : (s u : Workers) → Reachable size s → Step size s u → Reachable size u
