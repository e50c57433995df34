-- ===== src/Tests/Processes.antt =====
-- Runs of the signal handler, of MoveEnviron and of SetProcessTitle.
use linux_communication.Common.{
  ℕ, zero, suc, ◌+◌, ◌≤◌, ◌<◌, ◌≡◌, refl, arith, List, [], ◌∷◌, ◌++◌, length, true, false, some,
  codes, ltb,
}
use linux_communication.Log.{blank_page, c_string}
use linux_communication.Log.Bounds.{Within}
use linux_communication.Log.Format.{run_format}
use linux_communication.Signal.{
  Waited, ended, still_running, interrupted, with_code, on_signal, ser_process_get_status,
  report_of, wait_loop, message, mark_reap, ser_signal_handler, set_signals, ser_init_signals,
}
use linux_communication.Signal.Reaping.{
  nobody, again, child, running, choose, reports, ser_process_get_status-reports,
}
use linux_communication.Signal.Message.{message-faults}
use linux_communication.Title.{
  Arguments, total_length, move_from, move_environ, set_process_title, joined, master_title,
  set_master_title,
}
use linux_communication.Title.Environ.{HasNoNul, AllNoNul, Holds, move_environ-Holds}
use linux_communication.Title.Area.{set_process_title_lem}
use linux_communication.Title.Twice.{set_master_title-overflows}

-- The two macros, on statuses below 2 ^ 16.
abbrev pub termsig : ℕ → ℕ
termsig zero = 0
termsig (suc n) = suc n

abbrev pub exitstatus : ℕ → ℕ
exitstatus n = 0

abbrev two_children : List Waited
two_children = ended 40 0 ∷ interrupted ∷ ended 41 9 ∷ []

reaps :
    ser_process_get_status termsig exitstatus (two_children ++ (still_running ∷ []))
    ≡ some (with_code 40 0 ∷ on_signal 41 9 ∷ [])
unfolding ser_process_get_status wait_loop report_of
reaps = refl

ser_process_get_status-reports_example :
    ser_process_get_status termsig exitstatus (two_children ++ (still_running ∷ []))
    ≡ some (
        reports termsig exitstatus ((40, 0) ∷ (41, 9) ∷ [])
        ++ choose ((40, 0) ∷ (41, 9) ∷ []) [] [])
ser_process_get_status-reports_example =
    ser_process_get_status-reports termsig exitstatus two_children ((40, 0) ∷ (41, 9) ∷ [])
      still_running [] [] [] (child 40 0 _ _ (again _ _ (child 41 9 _ _ nobody))) running

-- A worker does not reap.
worker_signal :
    ser_signal_handler termsig exitstatus [] 17
      (record { pid = 40; uid = 0 })
      (record { kind = 1; reap = 0 })
    ≡ some (record { kind = 1; reap = 0 }, message 17 (record { pid = 40; uid = 0 }), [])
unfolding ser_signal_handler mark_reap
worker_signal = refl

second_signal_fails : (ser_init_signals (λ n. ltb n 3)).0 ≡ false
unfolding ser_init_signals set_signals
second_signal_fails = refl

message-faults_example :
    (run_format 7 2048
      (message 17 (record { pid = 40; uid = 1000 })).0
      (message 17 (record { pid = 40; uid = 1000 })).1
      (blank_page 2049)).fault
    ≡ true
message-faults_example =
    message-faults 7 2048 17 (record { pid = 40; uid = 1000 }) (blank_page 2049) (omega arith)

abbrev environ : List (List ℕ)
environ = codes "A=1" ∷ [] ∷ codes "B" ∷ []

environ-AllNoNul : AllNoNul environ
environ-AllNoNul =
    AllNoNul.text _ _ (HasNoNul.byte _ _ (HasNoNul.byte _ _ (HasNoNul.byte _ _ HasNoNul.empty))) (
      AllNoNul.text _ _ HasNoNul.empty
        (AllNoNul.text _ _ (HasNoNul.byte _ _ HasNoNul.empty) AllNoNul.none_left))

pointers : (move_environ environ).0 ≡ 0 ∷ 4 ∷ 5 ∷ []
unfolding move_environ move_from
pointers = refl

move_environ-Holds_example :
    ((move_environ environ).1.size ≡ total_length environ)
    × ((move_environ environ).1.overflow ≡ false)
    × Holds (total_length environ) (move_environ environ).1 (move_environ environ).0 environ
move_environ-Holds_example = move_environ-Holds environ environ-AllNoNul

-- "./s -d" and 10 bytes of environment.
abbrev started : Arguments
started = record { argv = codes "./s" ∷ codes "-d" ∷ []; memory = blank_page 17 }

total_17 : started.memory.size ≡ total_length started.argv + 10
unfolding total_length
total_17 = refl

fits_buffer : 8 + (total_length started.argv + 1) < 1000
unfolding total_length
fits_buffer = omega arith

fits_memory : length (master_title (codes "ser") started.argv).0 ≤ started.memory.size
unfolding master_title joined
fits_memory = omega arith

worker_fits : length (codes "w") ≤ length (master_title (codes "ser") started.argv).0 + 10
unfolding master_title joined
worker_fits = omega arith

abbrev short_title : List ℕ
short_title = codes "ab"

set_process_title_lem_example :
    let b = set_process_title 10 short_title started in
    (length short_title < started.memory.size
      → (b.argv ≡ short_title ∷ [])
        × Within 0 started.memory.size started.memory b.memory
        × (c_string 0 started.memory.size b.memory ≡ short_title))
    × (length short_title ≡ started.memory.size → b.memory.overflow ≡ true)
set_process_title_lem_example =
    set_process_title_lem 10 short_title started total_17
      (HasNoNul.byte _ _ (HasNoNul.byte _ _ HasNoNul.empty))

set_master_title-overflows_example :
    (set_process_title 10 (codes "w") (set_master_title 10 (codes "ser") started)).memory.overflow
    ≡ true
set_master_title-overflows_example =
    set_master_title-overflows 10 (codes "ser") (codes "w") (codes "./s") (codes "-d" ∷ []) started
      refl total_17 fits_buffer fits_memory worker_fits
