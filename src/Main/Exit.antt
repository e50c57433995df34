-- ===== src/Main/Exit.antt =====
-- How main ends.
use linux_communication.Common.{◌≡◌, refl, arith, true, some}
use linux_communication.Main.{
  Fork, in_child, in_parent, Detaching, Daemon, daemon_failed, is_daemon, is_parent, ser_daemon,
  Starting, run_daemon, main,
}

run_daemon-zero : (d : Daemon) → run_daemon d ≡ some 0 → d ≡ is_parent
unfolding run_daemon
run_daemon-zero daemon_failed e = cc
run_daemon-zero is_daemon e = cc
run_daemon-zero is_parent e = refl

-- main exits with 0 only in the process that has started the daemon, so after all parts have been
-- set up.
pub main-zero :
    (s : Starting)
    → main s ≡ some 0
    → (s.sockets ≡ true) × (s.daemon ≡ true) × (s.detached ≡ is_parent)
unfolding main
main-zero s e =
    (ground (arith, e), ground (arith, e), run_daemon-zero s.detached (ground (arith, e)))

-- A daemon comes of the child of `fork` only, and only in a session of its own.
pub ser_daemon-child :
    (f : Fork) (d : Detaching) → ser_daemon f d ≡ is_daemon → (f ≡ in_child) × (d.setsid ≡ true)
unfolding ser_daemon
ser_daemon-child in_child d e = (refl, ground (arith, e))
ser_daemon-child Fork.fork_failed d e = absurd (cc e)
ser_daemon-child (in_parent pid) d e = absurd (cc e)
