-- ===== src/Main.antt =====
-- app/server.cxx: main and FreeSource; proc/ser_daemon.cxx; ser_spawn_process and
-- ser_start_worker_processes of proc/ser_process_cycle.cxx.
-- What the other parts and the system calls return is an argument. The loops of the master and of
-- the workers do not return: a run that enters one ends there. Log calls are left out.
pub mod Exit
use linux_communication.Common.{
  ℕ, zero, suc, List, [], ◌∷◌, Bool, true, false, not, ◌||◌, Option, none, some, ◌==◌, ltb,
  if◌then◌else◌,
}
use linux_communication.Log.Write.{SerLog}

-- What `fork` returns.
pub data Fork : Type 0 where
  fork_failed in_child : Fork
  in_parent : ℕ → Fork

-- What ser_daemon returns: -1, 0 or 1.
pub data Daemon : Type 0 where
  daemon_failed is_daemon is_parent : Daemon

-- What the calls of ser_daemon after `fork` return; `devnull` is the descriptor of /dev/null.
pub record Detaching : Type 0 where
  pub setsid : Bool
  pub devnull : Option ℕ
  pub dup_stdin : Bool
  pub dup_stdout : Bool
  pub close : Bool

-- From `open` on.
unfoldable pub redirect : Detaching → Option ℕ → Daemon
redirect d none = daemon_failed
redirect d (some fd) =
    if not d.dup_stdin || not d.dup_stdout
    then daemon_failed
    else if ltb 2 fd
    then if d.close then is_daemon else daemon_failed
    else is_daemon

-- `ser_daemon`
unfoldable pub ser_daemon : Fork → Detaching → Daemon
ser_daemon fork_failed d = daemon_failed
ser_daemon (in_parent pid) d = is_parent
ser_daemon in_child d = if d.setsid then redirect d d.devnull else daemon_failed

-- `ser_start_worker_processes` in the master, with what `fork` returns for each index: the
-- children that were started. A child goes into its own loop inside ser_spawn_process.
unfoldable pub ser_start_worker_processes : List Fork → List ℕ
ser_start_worker_processes [] = []
ser_start_worker_processes (in_parent pid ∷ rest) = pid ∷ ser_start_worker_processes rest
ser_start_worker_processes (fork_failed ∷ rest) = ser_start_worker_processes rest
ser_start_worker_processes (in_child ∷ rest) = []

-- What the parts that main calls return.
pub record Starting : Type 0 where
  pub configer : Bool
  pub loads : Bool
  pub memory : Bool
  pub signals : Bool
  pub sockets : Bool
  pub daemon : Bool
  pub detached : Daemon

-- From the creation of the daemon on; `none` is the loop of the master process.
pub run_daemon : Daemon → Option ℕ
run_daemon daemon_failed = some 1
run_daemon is_parent = some 0
run_daemon is_daemon = none

-- `main`: the exit code.
pub main : Starting → Option ℕ
main s =
    if not s.configer
    then some 1
    else if not s.loads
    then some 2
    else if not s.memory || not s.signals || not s.sockets
    then some 1
    else if s.daemon
    then run_daemon s.detached
    else none

-- `FreeSource`: the log, and the descriptors that are closed.
unfoldable pub free_source : SerLog → SerLog × List ℕ
free_source log = elim log.fd [
  | none ↦ (log, [])
  | some fd ↦ if fd == 2 then (log, []) else (record log { fd = none }, fd ∷ [])
]
