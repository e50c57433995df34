-- ===== src/Cycle/Logged.antt =====
-- What the master logs of children, and of failures.
use mathlib.Core.List.{Perm, map}
use mathlib.Core.List.Perm
use linux_communication.Common.{
  ℕ, ◌≡◌, refl, ◌∙◌, ap, List, [], ◌∷◌, ◌++◌, Bool, true, false, some, ◌==◌, if◌then◌else◌,
}
use linux_communication.Cycle.{LastWait, some_run, none_left}
use linux_communication.Signal.{
  Waited, Report, on_signal, with_code, no_such_worker, failed, report_of, ser_process_get_status,
}
use linux_communication.Signal.Reaping.{
  Children, Ending, running, reports, ser_process_get_status-reports,
}

-- The reports that are about a child.
unfoldable pub about_children : List Report → List Report
about_children [] = []
about_children (on_signal pid n ∷ rs) = on_signal pid n ∷ about_children rs
about_children (with_code pid n ∷ rs) = with_code pid n ∷ about_children rs
about_children (no_such_worker ∷ rs) = about_children rs
about_children (failed err ∷ rs) = about_children rs

pub about_children-append :
    (xs ys : List Report) → about_children (xs ++ ys) ≡ about_children xs ++ about_children ys
unfolding about_children
about_children-append [] ys = refl
about_children-append (on_signal pid n ∷ xs) ys =
    ap (λ l. on_signal pid n ∷ l) (about_children-append xs ys)
about_children-append (with_code pid n ∷ xs) ys =
    ap (λ l. with_code pid n ∷ l) (about_children-append xs ys)
about_children-append (no_such_worker ∷ xs) ys = about_children-append xs ys
about_children-append (failed err ∷ xs) ys = about_children-append xs ys

module _ (termsig exitstatus : ℕ → ℕ) where
  one_report : ℕ × ℕ → Report
  one_report (pid, status) = report_of termsig exitstatus pid status

  reports-map : (cs : List (ℕ × ℕ)) → reports termsig exitstatus cs ≡ map one_report cs
  unfolding reports one_report
  reports-map [] = refl
  reports-map ((pid, status) ∷ cs) =
      ap (λ l. report_of termsig exitstatus pid status ∷ l) (reports-map cs)

  pub reports-append :
      (cs ds : List (ℕ × ℕ))
      → reports termsig exitstatus (cs ++ ds)
        ≡ reports termsig exitstatus cs ++ reports termsig exitstatus ds
  unfolding reports
  reports-append [] ds = refl
  reports-append ((pid, status) ∷ cs) ds =
      ap (λ l. report_of termsig exitstatus pid status ∷ l) (reports-append cs ds)

  pub reports-perm :
      (cs ds : List (ℕ × ℕ))
      → Perm cs ds
      → Perm (reports termsig exitstatus cs) (reports termsig exitstatus ds)
  reports-perm cs ds p = rw (reports-map cs, reports-map ds) (Perm.map one_report p)

  about_one :
      (b : Bool) (pid status n : ℕ) (rs : List Report)
      → about_children ((if b then with_code pid n else on_signal pid status) ∷ rs)
        ≡ (if b then with_code pid n else on_signal pid status) ∷ about_children rs
  unfolding about_children
  about_one true pid status n rs = refl
  about_one false pid status n rs = refl

  pub about_reports :
      (cs : List (ℕ × ℕ))
      → about_children (reports termsig exitstatus cs) ≡ reports termsig exitstatus cs
  unfolding reports report_of about_children
  about_reports [] = refl
  about_reports ((pid, status) ∷ cs) =
      about_one (termsig status == 0) pid (termsig status) (exitstatus status)
        (reports termsig exitstatus cs)
      ∙ ap (λ l. report_of termsig exitstatus pid status ∷ l) (about_reports cs)

  -- What a run of ser_process_get_status that collects `cs` adds.
  pub last-reports :
      (ws : List Waited) (cs : List (ℕ × ℕ)) (e : Waited)
      → Children ws cs
      → LastWait e
      → (tail : List Report) × (ser_process_get_status termsig exitstatus (ws ++ (e ∷ []))
          ≡ some (reports termsig exitstatus cs ++ tail))
        × (about_children tail ≡ [])
  unfolding about_children
  last-reports ws [] _ k some_run =
      (_, ser_process_get_status-reports termsig exitstatus ws [] _ [] [] [] k running, refl)
  last-reports ws (c ∷ cs) _ k some_run =
      (_, ser_process_get_status-reports termsig exitstatus ws (c ∷ cs) _ [] [] [] k running, refl)
  last-reports ws [] _ k none_left =
      (_, ser_process_get_status-reports termsig exitstatus ws [] _ _ _ [] k Ending.none_left, refl)
  last-reports ws (c ∷ cs) _ k none_left = (
    _,
    ser_process_get_status-reports termsig exitstatus ws (c ∷ cs) _ _ _ [] k Ending.none_left,
    refl,
  )
