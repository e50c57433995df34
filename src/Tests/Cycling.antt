-- ===== src/Tests/Cycling.antt =====
-- Runs of the loop of the master and of the start of a worker.
use mathlib.Core.List.{Perm}
use mathlib.Core.List.Perm
use linux_communication.Common.{
  ℕ, zero, suc, ◌≡◌, ◌≢◌, refl, List, [], ◌∷◌, ◌++◌, Bool, true, false, none, some, ℤ, pos, negsuc,
  codes, update, ◌==◌, if◌then◌else◌,
}
use linux_communication.Config.{ConfItem, get_string, get_int_default}
use linux_communication.Log.{blank_page}
use linux_communication.Main.{Fork, fork_failed, in_parent, ser_start_worker_processes}
use linux_communication.Signal.{
  Action, calls_handler, ignored, ended, still_running, with_code, ser_init_signals, set_signals,
  Process, mark_reap, message, ser_signal_handler, ser_process_get_status, wait_loop, report_of,
}
use linux_communication.Signal.Reaping.{nobody, child, reports}
use linux_communication.Start.{Resource}
use linux_communication.Threads.{create, make_threads, idle}
use linux_communication.Title.{Arguments}
use linux_communication.Cycle.{
  Master, master_before_loop, end_child, action_for, some_run, child_ends, reaps, InLoop, enters,
  goes_on, WorkerCalls, Worker, exits, loops, init_pool, name_worker, ser_worker_process_init,
  ser_worker_process_cycle,
}
use linux_communication.Cycle.Logged.{about_children}
use linux_communication.Cycle.Reports.{InLoop-tells}
use linux_communication.Cycle.Starting.{Started, pool_size, ser_worker_process_cycle-Started}
use linux_communication.Tests.Listening.{first_port, no_object-IsPooled}
use linux_communication.Tests.Processes.{termsig, exitstatus}
use linux_communication.Tests.States.{quiet}

abbrev what_is_set : List (ℕ × Action)
what_is_set = (ser_init_signals (λ n. true)).1

-- SIGUSR1 is blocked by the master, but has no handler.
no_handler : action_for what_is_set 10 ≡ none
unfolding ser_init_signals set_signals action_for
no_handler = refl

sigsys_ignored : action_for what_is_set 31 ≡ some ignored
unfolding ser_init_signals set_signals action_for
sigsys_ignored = refl

sigchld_handled : action_for what_is_set 17 ≡ some calls_handler
unfolding ser_init_signals set_signals action_for
sigchld_handled = refl

abbrev started : Arguments
started = record { argv = codes "./s" ∷ []; memory = blank_page 8 }

abbrev master : Process
master = record { kind = 0; reap = 0 }

-- Two workers, of which the second could not be forked.
abbrev forks : ℕ → Fork
forks zero = in_parent 40
forks (suc i) = fork_failed

abbrev before : Master
before = master_before_loop true 0 (codes "m") (pos 2) forks master started

one_worker : before.workers ≡ 40 ∷ []
unfolding master_before_loop ser_start_worker_processes
one_worker = refl

-- The worker ends.
abbrev one_ended : Master
one_ended = end_child 40 0 before

-- The master has collected it.
abbrev collected : Master
collected = record one_ended {
  pending = update one_ended.pending 17 false;
  process = record { kind = 0; reap = 1 };
  zombies = [];
  ended = one_ended.ended ++ [];
  reports = one_ended.reports ++ (with_code 40 0 ∷ []);
}

collected-InLoop : InLoop what_is_set termsig exitstatus before collected
unfolding ser_signal_handler mark_reap ser_process_get_status wait_loop report_of end_child
    master_before_loop
collected-InLoop =
    goes_on one_ended collected (goes_on before one_ended enters (child_ends 40 0 before)) (
      reaps (record { pid = 40; uid = 0 }) (ended 40 0 ∷ []) ((40, 0) ∷ []) [] still_running
        one_ended (record { kind = 0; reap = 1 }) (message 17 (record { pid = 40; uid = 0 }))
        (with_code 40 0 ∷ []) refl sigchld_handled (child 40 0 [] [] nobody) Perm.rfl some_run refl)

starts_as_master : master.kind ≡ 0
starts_as_master = refl

InLoop-tells_run :
    (collected.zombies ≢ [] → collected.pending 17 ≡ true)
    × (collected.pending 17 ≡ false
        → Perm (reports termsig exitstatus collected.ended) (about_children collected.reports))
InLoop-tells_run =
    InLoop-tells true 0 (codes "m") (pos 2) forks master started what_is_set termsig exitstatus
      collected starts_as_master collected-InLoop

abbrev all_succeed : WorkerCalls
all_succeed = record {
  unblocks = true;
  made = λ i. true;
  set_up = λ r. true;
  created = true;
  adds = λ i. true;
}

abbrev settings : List ConfItem
settings = record { name = codes "a"; content = codes "w" } ∷ []

abbrev same : List ℕ → List ℕ → Bool
same a b = true

abbrev three : List ℕ → ℤ
three text = pos 3

abbrev fresh : Worker
fresh = record {
  mask = 17 ∷ [];
  process = master;
  threads = idle [];
  resources = [];
  listening = [];
  socket = quiet;
  title = started;
}

-- The third thread cannot be made.
third_fails :
    ser_worker_process_cycle same three settings
      (record all_succeed { made = λ i. if i == 2 then false else true })
      (pos 1)
      0
      7
      (first_port ∷ [])
      fresh
    ≡ exits (negsuc 1)
unfolding ser_worker_process_cycle ser_worker_process_init init_pool name_worker create make_threads
    get_int_default
third_fails = refl

every_thread : (i : ℕ) → all_succeed.made i ≡ true
every_thread i = refl

every_resource : (r : Resource) → all_succeed.set_up r ≡ true
every_resource r = refl

every_socket : (i : ℕ) → all_succeed.adds i ≡ true
every_socket i = refl

titled_w : get_string same (codes "WorkerProcessTitle") settings ≡ some (codes "w")
unfolding get_string
titled_w = refl

ser_worker_process_cycle-Started_run :
    (v : Worker) × (ser_worker_process_cycle same three settings all_succeed
        (pos 1)
        0
        7
        (first_port ∷ [])
        fresh
      ≡ loops v)
    × Started (pool_size same three settings) 0 (codes "w") (first_port ∷ []) fresh v
ser_worker_process_cycle-Started_run =
    ser_worker_process_cycle-Started same three settings all_succeed (pos 1) 0 7 (first_port ∷ [])
      fresh (codes "w") no_object-IsPooled refl every_thread every_resource refl every_socket
      titled_w
