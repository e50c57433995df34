-- ===== src/Signal/Message.antt =====
-- The message of ser_signal_handler.
use linux_communication.Common.{
  ℕ, suc, ◌++◌, ◌+◌, ◌≤◌, ◌≡◌, refl, List, ◌∷◌, true, codes, if_case, ◌==◌,
}
use linux_communication.Log.{Page}
use linux_communication.Log.Format.{Arg, word, run_format}
use linux_communication.Log.Faults.{
  Faults, plain_text-Faults, decimal-Faults, text-Faults, past, run_format-Faults,
}
use linux_communication.Signal.{Siginfo, message}

-- The start of both formats, before whatever follows.
start-Faults :
    (last signo uid fuel : ℕ) (rest : List ℕ) (args : List Arg)
    → Faults last 11
        (past (codes "signal ") (suc (past (codes " (") (suc fuel))))
        (codes "signal %d (%s" ++ rest)
        (word signo ∷ word uid ∷ args)
start-Faults last signo uid fuel rest args = plain_text-Faults last (codes "signal ") 4 _ _ _ refl (
    decimal-Faults last 3 _ signo _ _
      (plain_text-Faults last (codes " (") 1 _ _ _ refl (text-Faults last fuel uid rest args)))

-- The message that the handler logs for a signal wants a text where it gets the number of a user:
-- wherever it is written with room for eleven bytes, the run ends in a fault, for every signal,
-- user and process.
pub message-faults :
    (w last signo : ℕ) (info : Siginfo) (p : Page)
    → w + 11 ≤ last
    → let (fmt, args) = message signo info in (run_format w last fmt args p).fault ≡ true
unfolding message
message-faults w last signo info p h =
    if_case (λ ((fmt, args) : List ℕ × List Arg). (run_format w last fmt args p).fault ≡ true)
      (info.pid == 0)
      (λ e. run_format-Faults w last 11 _ _ p (start-Faults last signo info.uid _ _ _) h)
      (λ e. run_format-Faults w last 11 _ _ p (start-Faults last signo info.uid _ _ _) h)
