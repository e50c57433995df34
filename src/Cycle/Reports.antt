-- ===== src/Cycle/Reports.antt =====
-- What the master reports of the workers that end.
use mathlib.Core.List.{Perm, append_assoc, append-nil}
use mathlib.Core.List.Perm
use mathlib.Core.Path.{subst}
use linux_communication.Common.{
  ℕ, ◌≡◌, ◌≢◌, refl, sym, ◌∙◌, ap, ap₂, arith, List, [], ◌∷◌, ◌++◌, Bool, true, false, Option, none,
  some, update_self, update_ne, ◌==◌, ◌&&◌, if_true, if_false, ◌>>=◌, if◌then◌else◌, ◌⊎◌, inl, inr,
  ℤ,
}
use linux_communication.Cycle.{
  Master, end_child, send_signal, MasterStep, child_ends, is_sent, reaps, handles, InLoop, enters,
  goes_on, master_before_loop,
}
use linux_communication.Log.Format.{Arg}
use linux_communication.Main.{Fork}
use linux_communication.Title.{Arguments}
use linux_communication.Signal.{
  Action, Waited, Report, Siginfo, Process, sigchld, ser_process_master, mark_reap, message,
  ser_process_get_status, ser_signal_handler,
}
use linux_communication.Signal.Reaping.{reports}
use linux_communication.Cycle.Logged.{
  about_children, about_children-append, reports-append, reports-perm, about_reports, last-reports,
}

module _ (termsig exitstatus : ℕ → ℕ) where
  -- The children that have ended are those that were reported and those that wait; where any
  -- waits, SIGCHLD is to come.
  pub record IsCaught (s : Master) : Type 0 where
    pub told : List (ℕ × ℕ)
    pub all : Perm s.ended (told ++ s.zombies)
    pub logged : about_children s.reports ≡ reports termsig exitstatus told
    pub noticed : s.zombies ≢ [] → s.pending sigchld ≡ true
    pub is_master : s.process.kind ≡ ser_process_master

  end_child-IsCaught :
      (pid status : ℕ) (s : Master) → IsCaught s → IsCaught (end_child pid status s)
  unfolding end_child
  end_child-IsCaught pid status s h = record {
    told = h.told;
    all =
        subst (Perm (s.ended ++ ((pid, status) ∷ [])))
          (append_assoc h.told s.zombies ((pid, status) ∷ []))
          (Perm.append_right ((pid, status) ∷ []) h.all);
    logged = h.logged;
    noticed = λ n. update_self s.pending sigchld true;
    is_master = h.is_master;
  }

  -- What the handler does with its process, the signal being SIGCHLD or not.
  after_mark :
      List Waited → ℕ → Siginfo → Process → Option (Process × (List ℕ × List Arg) × List Report)
  after_mark ws n info q = do
    rs ←
        if q.reap == 1 && n == sigchld
        then ser_process_get_status termsig exitstatus ws
        else some []
    some (q, message n info, rs)

  on_child :
      (ws : List Waited) (info : Siginfo) (p : Process) (xs : List Report)
      → p.kind ≡ ser_process_master
      → ser_process_get_status termsig exitstatus ws ≡ some xs
      → ser_signal_handler termsig exitstatus ws sigchld info p
        ≡ some (record p { reap = 1 }, message sigchld info, xs)
  unfolding ser_signal_handler mark_reap after_mark
  on_child ws info p xs k f =
      ap (after_mark ws sigchld info)
        (if_true (p.kind == 0 && true) (record p { reap = 1 }) p (ground (arith, k)))
      ∙ ap (λ o. o >>= λ rs. some (record p { reap = 1 }, message sigchld info, rs)) f

  and_false : (b c : Bool) → c ≡ false → (b && c) ≡ false
  and_false true c e = e
  and_false false c e = refl

  on_other :
      (ws : List Waited) (n : ℕ) (info : Siginfo) (p : Process)
      → n ≢ sigchld
      → ser_signal_handler termsig exitstatus ws n info p ≡ some (p, message n info, [])
  unfolding ser_signal_handler mark_reap after_mark
  on_other ws n info p d =
      let other : (n == sigchld) ≡ false = ground (arith, d) in
      ap (after_mark ws n info)
        (if_false (p.kind == 0 && (n == sigchld)) (record p { reap = 1 }) p (and_false _ _ other))
      ∙ ap (λ o. o >>= λ rs. some (p, message n info, rs))
          (if_false (p.reap == 1 && (n == sigchld)) _ (some []) (and_false _ _ other))

  abbrev Handled : Type 0
  Handled = Process × (List ℕ × List Arg) × List Report

  same_handled :
      (o : Option Handled) (p q : Process) (m n : List ℕ × List Arg) (xs ys : List Report)
      → o ≡ some (p, m, xs)
      → o ≡ some (q, n, ys)
      → (p ≡ q) × (xs ≡ ys)
  same_handled o p q m n xs ys e f =
      let part = sym e ∙ f in
      (
        ap (λ (r : Option Handled). elim r [ none ↦ p | some (x, y, z) ↦ x ]) part,
        ap (λ (r : Option Handled). elim r [ none ↦ xs | some (x, y, z) ↦ z ]) part,
      )

  Step-IsCaught :
      (set : List (ℕ × Action)) (s u : Master)
      → IsCaught s
      → MasterStep set termsig exitstatus s u
      → IsCaught u
  unfolding send_signal
  Step-IsCaught set s _ h (child_ends pid status _) = end_child-IsCaught pid status s h
  Step-IsCaught set s _ h (is_sent n _) = record {
    told = h.told;
    all = h.all;
    logged = h.logged;
    noticed = λ z. ground (arith, h.noticed z);
    is_master = h.is_master;
  }
  Step-IsCaught set s _ h (reaps info ws cs more e _ q m rs due act k p w f) =
      let (tail, g, nothing) = last-reports termsig exitstatus ws cs e k w in
      let (same, out) =
        same_handled _ _ _ _ _ _ _ (on_child (ws ++ (e ∷ [])) info s.process _ h.is_master g) f in
      record {
        told = h.told ++ cs;
        all =
            Perm.trans
              (subst (Perm (s.ended ++ more)) (append_assoc h.told s.zombies more)
                (Perm.append_right more h.all))
              (subst (Perm (h.told ++ (s.zombies ++ more))) (sym (append-nil (h.told ++ cs)))
                (Perm.append_left h.told (Perm.symm p)));
        logged =
            about_children-append s.reports rs
            ∙ ap₂ ◌++◌ h.logged (
                ap about_children (sym out)
                ∙ about_children-append (reports termsig exitstatus cs) tail
                ∙ ap₂ ◌++◌ (about_reports termsig exitstatus cs) nothing
                ∙ append-nil (reports termsig exitstatus cs))
            ∙ sym (reports-append termsig exitstatus h.told cs);
        noticed = λ n. absurd (n refl);
        is_master = ap (λ x. x.kind) (sym same) ∙ h.is_master;
      }
  Step-IsCaught set s _ h (handles n info _ q m rs due other act f) =
      let (same, out) = same_handled _ _ _ _ _ _ _ (on_other [] n info s.process other) f in
      record {
        told = h.told;
        all = h.all;
        logged =
            ap (λ r. about_children (s.reports ++ r)) (sym out)
            ∙ ap about_children (append-nil s.reports)
            ∙ h.logged;
        noticed = λ z. update_ne s.pending n sigchld false other ∙ h.noticed z;
        is_master = ap (λ x. x.kind) (sym same) ∙ h.is_master;
      }

  before_loop-IsCaught :
      (blocks : Bool) (environ_length : ℕ) (title : List ℕ) (count : ℤ) (forks : ℕ → Fork)
      (p : Process) (a : Arguments)
      → p.kind ≡ ser_process_master
      → IsCaught (master_before_loop blocks environ_length title count forks p a)
  unfolding master_before_loop about_children reports
  before_loop-IsCaught blocks environ_length title count forks p a k = record {
    told = [];
    all = Perm.rfl;
    logged = refl;
    noticed = λ n. absurd (n refl);
    is_master = k;
  }

  InLoop-IsCaught :
      (set : List (ℕ × Action)) (s u : Master)
      → IsCaught s
      → InLoop set termsig exitstatus s u
      → IsCaught u
  InLoop-IsCaught set s _ h enters = h
  InLoop-IsCaught set s _ h (goes_on t u r k) =
      Step-IsCaught set t u (InLoop-IsCaught set s t h r) k

none_or_some : (l : List (ℕ × ℕ)) → (l ≡ []) ⊎ (l ≢ [])
none_or_some [] = inl refl
none_or_some (c ∷ cs) = inr (λ e. cc e)

-- Of a process of the master's type, whatever it was given before its loop, and whatever the
-- signals, the children that end and the order of both, in every state of its loop, the log call of
-- the handler taken to return: while a child waits to be collected, SIGCHLD is to come, so that the
-- master does not sleep on it; and where no SIGCHLD is to come, ser_process_get_status has made one
-- report for each time that a child has ended, and none besides, in some order.
pub InLoop-tells :
    (blocks : Bool) (environ_length : ℕ) (title : List ℕ) (count : ℤ) (forks : ℕ → Fork)
    (p : Process) (a : Arguments) (set : List (ℕ × Action)) (termsig exitstatus : ℕ → ℕ)
    (s : Master)
    → p.kind ≡ ser_process_master
    → InLoop set termsig exitstatus
        (master_before_loop blocks environ_length title count forks p a)
        s
    → (s.zombies ≢ [] → s.pending sigchld ≡ true)
      × (s.pending sigchld ≡ false
          → Perm (reports termsig exitstatus s.ended) (about_children s.reports))
InLoop-tells blocks environ_length title count forks p a set termsig exitstatus s k r =
    let h =
      InLoop-IsCaught termsig exitstatus set _ s
        (before_loop-IsCaught termsig exitstatus blocks environ_length title count forks p a k) r in
    (
      h.noticed,
      λ quiet. elim (none_or_some s.zombies) [
        | inl none_wait ↦ subst (Perm (reports termsig exitstatus s.ended)) (sym h.logged) (
            reports-perm termsig exitstatus s.ended h.told (
              subst (Perm s.ended) (append-nil h.told)
                (subst (λ z. Perm s.ended (h.told ++ z)) none_wait h.all)))
        | inr some_wait ↦ absurd (ground (arith, quiet, h.noticed some_wait))
      ],
    )
