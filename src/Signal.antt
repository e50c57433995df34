-- ===== src/Signal.antt =====
-- signal/ser_signal.cxx: the table of signals, ser_init_signals, ser_signal_handler and
-- ser_process_get_status.
-- What `sigaction` and `waitpid` return is an argument. Log calls are left out where their text
-- depends on nothing that the code computes; else they are the reports below.
pub mod Reaping
pub mod Message
use linux_communication.Common.{
  ℕ, zero, suc, List, [], ◌∷◌, Bool, true, false, ◌&&◌, Option, none, some, codes, ◌==◌,
  if◌then◌else◌, ◌>>=◌,
}
use linux_communication.Log.Format.{Arg, word, text}

-- `ser_signal_t`: the number, and whether the handler is `ser_signal_handler` or null.
pub record Signal : Type 0 where
  pub signo : ℕ
  pub handled : Bool

-- `signals`: SIGHUP, SIGINT, SIGTERM, SIGCHLD, SIGQUIT, SIGIO, SIGSYS.
abbrev pub signals : List Signal
signals =
    record { signo = 1; handled = true }
    ∷ record { signo = 2; handled = true }
    ∷ record { signo = 15; handled = true }
    ∷ record { signo = 17; handled = true }
    ∷ record { signo = 3; handled = true }
    ∷ record { signo = 29; handled = true }
    ∷ record { signo = 31; handled = false }
    ∷ []

abbrev pub sigchld : ℕ
sigchld = 17

-- What a signal is set to.
pub data Action : Type 0 where
  calls_handler ignored : Action

-- `sa`
abbrev pub action_of : Signal → Action
action_of sig = if sig.handled then calls_handler else ignored

-- The loop of `ser_init_signals`: whether 0 is returned, and what was set. `sigaction` for a
-- signal succeeds by its number.
unfoldable pub set_signals : (ℕ → Bool) → List Signal → Bool × List (ℕ × Action)
set_signals succeeds [] = (true, [])
set_signals succeeds (sig ∷ rest) =
    let (ok, set) = set_signals succeeds rest in
    if succeeds sig.signo then (ok, (sig.signo, action_of sig) ∷ set) else (false, [])

unfoldable pub ser_init_signals : (ℕ → Bool) → Bool × List (ℕ × Action)
ser_init_signals succeeds = set_signals succeeds signals

-- What `waitpid` returns: a child with its status, 0, or -1 with EINTR, ECHILD or another error.
pub data Waited : Type 0 where
  ended : ℕ → ℕ → Waited
  still_running interrupted no_child : Waited
  wait_failed : ℕ → Waited

-- What is logged of a child, or of a failure.
pub data Report : Type 0 where
  on_signal with_code : ℕ → ℕ → Report
  no_such_worker : Report
  failed : ℕ → Report

-- `WTERMSIG` and `WEXITSTATUS` are the C library's.
module _ (termsig exitstatus : ℕ → ℕ) where
  unfoldable pub report_of : ℕ → ℕ → Report
  report_of pid status =
      if termsig status == 0
      then with_code pid (exitstatus status)
      else on_signal pid (termsig status)

  -- The loop, with the variable `one`; `none` if the results run out while it would go on.
  unfoldable pub wait_loop : Bool → List Waited → Option (List Report)
  wait_loop one [] = none
  wait_loop one (ended pid status ∷ ws) = do
    reports ← wait_loop true ws
    some (report_of pid status ∷ reports)
  wait_loop one (still_running ∷ ws) = some []
  wait_loop one (interrupted ∷ ws) = wait_loop one ws
  wait_loop one (no_child ∷ ws) = some (if one then [] else no_such_worker ∷ [])
  wait_loop one (wait_failed err ∷ ws) = some (failed err ∷ [])

  -- `ser_process_get_status`
  unfoldable pub ser_process_get_status : List Waited → Option (List Report)
  ser_process_get_status ws = wait_loop false ws

-- `siginfo_t`, which the handlers get as SA_SIGINFO is set.
pub record Siginfo : Type 0 where
  pub pid : ℕ
  pub uid : ℕ

-- `ser_process_type` and `ser_reap`
pub record Process : Type 0 where
  pub kind : ℕ
  pub reap : ℕ

abbrev pub ser_process_master : ℕ
ser_process_master = 0

-- The `switch` of the master process.
unfoldable pub mark_reap : ℕ → Process → Process
mark_reap signo p =
    if p.kind == ser_process_master && signo == sigchld then record p { reap = 1 } else p

-- The format of the message and its arguments; the second is the user's number.
pub message : ℕ → Siginfo → List ℕ × List Arg
message signo info =
    if info.pid == 0
    then (codes "signal %d (%s) received from %s", word signo ∷ word info.uid ∷ text [] ∷ [])
    else (
      codes "signal %d (%s) received from %p%s",
      word signo ∷ word info.uid ∷ word info.pid ∷ text [] ∷ [],
    )

-- `ser_signal_handler`: the process, the message that it logs, and the reports on its children. The
-- message is logged before the children are collected; that log call is taken to return here.
unfoldable pub ser_signal_handler :
    (ℕ → ℕ)
    → (ℕ → ℕ)
    → List Waited
    → ℕ
    → Siginfo
    → Process
    → Option (Process × (List ℕ × List Arg) × List Report)
ser_signal_handler termsig exitstatus ws signo info p =
    let q = mark_reap signo p in
    let due = q.reap == 1 && signo == sigchld in
    do
      reports ← if due then ser_process_get_status termsig exitstatus ws else some []
      some (q, message signo info, reports)
