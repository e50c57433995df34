-- ===== src/Signal/Reaping.antt =====
-- The children that ser_process_get_status reaps.
use linux_communication.Common.{
  ℕ, ◌≡◌, refl, ap, ◌∙◌, List, [], ◌∷◌, ◌++◌, Bool, true, false, some, if◌then◌else◌, ◌>>=◌,
}
use linux_communication.Signal.{
  Waited, ended, still_running, interrupted, no_child, wait_failed, Report, no_such_worker, failed,
  report_of, wait_loop, ser_process_get_status,
}

-- The results that the loop goes on after, with the children among them.
pub data Children : List Waited → List (ℕ × ℕ) → Type 0 where
  nobody : Children [] []
  again : (ws : List Waited) (cs : List (ℕ × ℕ)) → Children ws cs → Children (interrupted ∷ ws) cs
  child :
      (pid status : ℕ) (ws : List Waited) (cs : List (ℕ × ℕ))
      → Children ws cs
      → Children (ended pid status ∷ ws) ((pid, status) ∷ cs)

-- The results that end the loop, with what is logged of them after a child and without one.
pub data Ending : Waited → List Report → List Report → Type 0 where
  running : Ending still_running [] []
  none_left : Ending no_child [] (no_such_worker ∷ [])
  broken : (err : ℕ) → Ending (wait_failed err) (failed err ∷ []) (failed err ∷ [])

abbrev pub choose : List (ℕ × ℕ) → List Report → List Report → List Report
choose [] after alone = alone
choose (c ∷ cs) after alone = after

same_sides : (b : Bool) (xs : List Report) → xs ≡ (if b then xs else xs)
same_sides true xs = refl
same_sides false xs = refl

module _ (termsig exitstatus : ℕ → ℕ) where
  -- One report for each child, in order.
  unfoldable pub reports : List (ℕ × ℕ) → List Report
  reports [] = []
  reports ((pid, status) ∷ cs) = report_of termsig exitstatus pid status ∷ reports cs

  loop_stops :
      (one : Bool) (e : Waited) (after alone : List Report) (rest : List Waited)
      → Ending e after alone
      → wait_loop termsig exitstatus one (e ∷ rest) ≡ some (if one then after else alone)
  unfolding wait_loop
  loop_stops true _ _ _ rest running = refl
  loop_stops false _ _ _ rest running = refl
  loop_stops true _ _ _ rest none_left = refl
  loop_stops false _ _ _ rest none_left = refl
  loop_stops true _ _ _ rest (broken err) = refl
  loop_stops false _ _ _ rest (broken err) = refl

  loop-reports :
      (one : Bool) (ws : List Waited) (cs : List (ℕ × ℕ)) (e : Waited) (after alone : List Report)
      (rest : List Waited)
      → Children ws cs
      → Ending e after alone
      → wait_loop termsig exitstatus one (ws ++ (e ∷ rest))
        ≡ some (reports cs ++ (if one then after else choose cs after alone))
  unfolding wait_loop reports
  loop-reports one _ _ e after alone rest nobody h = loop_stops one e after alone rest h
  loop-reports one _ _ e after alone rest (again ws cs k) h =
      loop-reports one ws cs e after alone rest k h
  loop-reports one _ _ e after alone rest (child pid status ws cs k) h =
      ap (λ o. o >>= λ rs. some (report_of termsig exitstatus pid status ∷ rs))
        (loop-reports true ws cs e after alone rest k h)
      ∙ ap (λ t. some (report_of termsig exitstatus pid status ∷ (reports cs ++ t)))
          (same_sides one after)

-- Whatever `WTERMSIG` and `WEXITSTATUS` are: where `waitpid` returns any number of children, with
-- any interruptions among them, and then something that ends the loop (no child has ended, there
-- is no child, an error), ser_process_get_status returns there and has logged each of the children
-- once, in order; of the end it logs an error, and the lack of children only if there was none.
pub ser_process_get_status-reports :
    (termsig exitstatus : ℕ → ℕ) (ws : List Waited) (cs : List (ℕ × ℕ)) (e : Waited)
    (after alone : List Report) (rest : List Waited)
    → Children ws cs
    → Ending e after alone
    → ser_process_get_status termsig exitstatus (ws ++ (e ∷ rest))
      ≡ some (reports termsig exitstatus cs ++ choose cs after alone)
unfolding ser_process_get_status
ser_process_get_status-reports termsig exitstatus ws cs e after alone rest k h =
    loop-reports termsig exitstatus false ws cs e after alone rest k h
