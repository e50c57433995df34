-- ===== src/Cycle.antt =====
-- proc/ser_process_cycle.cxx: ser_master_process_cycle, ser_worker_process_cycle and
-- ser_worker_process_init; proc/ser_event.cxx: ser_process_events_and_timers.
-- A turn of the loop of the master is what `sigsuspend` delivers; the steps in which signals come
-- and children end are the kernel's. A signal that has no handler and whose default action ends
-- the process ends the run. What the calls of a worker return is an argument, `sleep` is left out,
-- as are log calls. The loops do not end: what stands behind them in the source is never reached.
pub mod Logged
pub mod Reports
pub mod Starting
use mathlib.Core.List.{Perm}
use linux_communication.Common.{
  ℕ, zero, suc, ◌≡◌, ◌≢◌, List, [], ◌∷◌, ◌++◌, Bool, true, false, Option, none, some, ℤ, pos,
  negsuc, codes, ◌==◌, ltb, update, tabulate, if◌then◌else◌,
}
use linux_communication.Config.{ConfItem, get_string, get_int_default}
use linux_communication.Socket.{Socket, Listening}
use linux_communication.Epoll.{Handlers, WaitResult, ser_epoll_process_events}
use linux_communication.Listen.{rounds, ser_epoll_init}
use linux_communication.Log.Format.{Arg}
use linux_communication.Main.{Fork, ser_start_worker_processes}
use linux_communication.Signal.{
  Action, calls_handler, ignored, Waited, still_running, no_child, Report, Siginfo, Process,
  sigchld, ser_process_master, ser_signal_handler,
}
use linux_communication.Signal.Reaping.{Children}
use linux_communication.Start.{Resource, ser_init_subproc}
use linux_communication.Threads.{Workers, create}
use linux_communication.Title.{Arguments, set_process_title, set_master_title}

-- The signals of `sigSet` in ser_master_process_cycle: SIGCHLD, SIGALRM, SIGIO, SIGINT, SIGHUP,
-- SIGUSR1, SIGUSR2, SIGWINCH, SIGTERM, SIGQUIT.
abbrev pub blocked_signals : List ℕ
blocked_signals = 17 ∷ 14 ∷ 29 ∷ 2 ∷ 1 ∷ 10 ∷ 12 ∷ 28 ∷ 15 ∷ 3 ∷ []

-- The master process: its mask, the signals that are to come, its children that have ended and
-- have not been waited for, all that have ended so far, and what has been logged of them.
pub record Master : Type 0 where
  pub mask : List ℕ
  pub pending : ℕ → Bool
  pub process : Process
  pub title : Arguments
  pub workers : List ℕ
  pub zombies : List (ℕ × ℕ)
  pub ended : List (ℕ × ℕ)
  pub reports : List Report

-- `sigprocmask` with SIG_BLOCK, where nothing was blocked before.
abbrev pub block_signals : Bool → List ℕ
block_signals succeeds = if succeeds then blocked_signals else []

-- `ser_master_process_cycle` up to its loop, with "MasterProcessTitle" as it was found, the number
-- of workers that was found, and what `fork` returns for each.
unfoldable pub master_before_loop :
    Bool → ℕ → List ℕ → ℤ → (ℕ → Fork) → Process → Arguments → Master
master_before_loop blocks environ_length title count forks p a = record {
  mask = block_signals blocks;
  pending = λ n. false;
  process = p;
  title = set_master_title environ_length title a;
  workers = ser_start_worker_processes (tabulate forks (rounds count));
  zombies = [];
  ended = [];
  reports = [];
}

-- A child ends: it stays to be waited for, and SIGCHLD is sent.
unfoldable pub end_child : ℕ → ℕ → Master → Master
end_child pid status s = record s {
  pending = update s.pending sigchld true;
  zombies = s.zombies ++ ((pid, status) ∷ []);
  ended = s.ended ++ ((pid, status) ∷ []);
}

pub send_signal : ℕ → Master → Master
send_signal n s = record s { pending = update s.pending n true }

abbrev is_any : List (ℕ × ℕ) → Bool
is_any [] = false
is_any (c ∷ cs) = true

-- What ser_init_signals has set for a signal, if anything.
unfoldable pub action_for : List (ℕ × Action) → ℕ → Option Action
action_for [] n = none
action_for ((m, act) ∷ rest) n = if m == n then some act else action_for rest n

-- What ends the loop of ser_process_get_status: some children run on, or none is left.
pub data LastWait : Waited → Type 0 where
  some_run : LastWait still_running
  none_left : LastWait no_child

-- A turn of the loop, or something that happens around it. `set` is what ser_init_signals has set.
pub data MasterStep (set : List (ℕ × Action)) (termsig exitstatus : ℕ → ℕ)
    : Master → Master → Type 0 where
  child_ends :
      (pid status : ℕ) (s : Master) → MasterStep set termsig exitstatus s (end_child pid status s)
  is_sent : (n : ℕ) (s : Master) → MasterStep set termsig exitstatus s (send_signal n s)
  -- SIGCHLD is delivered. While the handler runs, the children of `more` end, with a signal for
  -- the next turn; `waitpid` returns, in any order and with any interruptions, each child that has
  -- ended.
  reaps :
      (info : Siginfo) (ws : List Waited) (cs more : List (ℕ × ℕ)) (e : Waited) (s : Master)
      (q : Process) (m : List ℕ × List Arg) (rs : List Report)
      → s.pending sigchld ≡ true
      → action_for set sigchld ≡ some calls_handler
      → Children ws cs
      → Perm cs (s.zombies ++ more)
      → LastWait e
      → ser_signal_handler termsig exitstatus (ws ++ (e ∷ [])) sigchld info s.process
        ≡ some (q, m, rs)
      → MasterStep set termsig exitstatus s (record s {
        pending = update s.pending sigchld (is_any more);
        process = q;
        zombies = [];
        ended = s.ended ++ more;
        reports = s.reports ++ rs;
      })
  -- another signal with the handler is delivered
  handles :
      (n : ℕ) (info : Siginfo) (s : Master) (q : Process) (m : List ℕ × List Arg) (rs : List Report)
      → s.pending n ≡ true
      → n ≢ sigchld
      → action_for set n ≡ some calls_handler
      → ser_signal_handler termsig exitstatus [] n info s.process ≡ some (q, m, rs)
      → MasterStep set termsig exitstatus s
          (record s { pending = update s.pending n false; process = q; reports = s.reports ++ rs })

-- The states of the loop that starts from `s`.
pub data InLoop (set : List (ℕ × Action)) (termsig exitstatus : ℕ → ℕ) (s : Master)
    : Master → Type 0 where
  enters : InLoop set termsig exitstatus s s
  goes_on :
      (t u : Master)
      → InLoop set termsig exitstatus s t
      → MasterStep set termsig exitstatus t u
      → InLoop set termsig exitstatus s u

abbrev pub ser_process_worker : ℕ
ser_process_worker = 1

-- What the calls return that start a worker: `sigprocmask`, `pthread_create` for each thread, the
-- calls of ser_init_subproc, `epoll_create` and each `epoll_ctl`.
pub record WorkerCalls : Type 0 where
  pub unblocks : Bool
  pub made : ℕ → Bool
  pub set_up : Resource → Bool
  pub created : Bool
  pub adds : ℕ → Bool

-- A worker in front of its loop.
pub record Worker : Type 0 where
  pub mask : List ℕ
  pub process : Process
  pub threads : Workers
  pub resources : List Resource
  pub listening : List Listening
  pub socket : Socket
  pub title : Arguments

-- A worker ends with an exit code, or by `strlen` of a null pointer, or comes to its loop.
pub data WorkerRun : Type 0 where
  exits : ℤ → WorkerRun
  crashes : WorkerRun
  loops : Worker → WorkerRun

-- `ser_worker_process_init` behind the threads, with what ser_init_subproc returns.
pub init_socket :
    WorkerCalls → ℤ → ℕ → Bool × List Resource → Workers → List Listening → Worker → WorkerRun
init_socket calls count now (false, rs) pool ls w = exits (negsuc 1)
init_socket calls count now (true, rs) pool ls w =
    elim (ser_epoll_init count calls.created now calls.adds ls w.socket) [
      | none ↦ exits (pos 2)
      | some (ms, t) ↦
          loops (record w { threads = pool; resources = rs; listening = ms; socket = t })
    ]

-- From the creation of the threads on.
unfoldable pub init_pool :
    WorkerCalls → ℤ → ℕ → Bool × Workers → List Listening → Worker → WorkerRun
init_pool calls count now (false, pool) ls w = exits (negsuc 1)
init_pool calls count now (true, pool) ls w =
    init_socket calls count now (ser_init_subproc calls.set_up) pool ls w

-- The title of a worker.
unfoldable pub name_worker : ℕ → Option (List ℕ) → WorkerRun → WorkerRun
name_worker environ_length title (exits code) = exits code
name_worker environ_length title crashes = crashes
name_worker environ_length none (loops w) = crashes
name_worker environ_length (some text) (loops w) =
    loops (record w { title = set_process_title environ_length text w.title })

module _ (same_name : List ℕ → List ℕ → Bool) (atoi : List ℕ → ℤ) (items : List ConfItem) where
  -- `ser_worker_process_init`, for `mWorkerConnections` = `count`.
  unfoldable pub ser_worker_process_init : WorkerCalls → ℤ → ℕ → List Listening → Worker → WorkerRun
  ser_worker_process_init calls count now ls w =
      init_pool calls count now
        (create calls.made
          (rounds (get_int_default same_name atoi (codes "ThreadPoolSize") (pos 5) items)))
        ls (if calls.unblocks then record w { mask = [] } else w)

  -- `ser_worker_process_cycle` up to its loop.
  unfoldable pub ser_worker_process_cycle :
      WorkerCalls → ℤ → ℕ → ℕ → List Listening → Worker → WorkerRun
  ser_worker_process_cycle calls count environ_length now ls w =
      name_worker environ_length (get_string same_name (codes "WorkerProcessTitle") items) (
        ser_worker_process_init calls count now ls
          (record w { process = record (w.process) { kind = ser_process_worker } }))

-- `ser_process_events_and_timers`
ser_process_events_and_timers : Handlers → WaitResult → Socket → Socket
ser_process_events_and_timers hs result s =
    let (t, ok) = ser_epoll_process_events hs true result s in t

-- Turns of the loop of a worker, with what `epoll_wait` returns in each.
worker_rounds : Handlers → List WaitResult → Socket → Socket
worker_rounds hs [] s = s
worker_rounds hs (r ∷ rs) s = worker_rounds hs rs (ser_process_events_and_timers hs r s)
