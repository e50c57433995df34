-- ===== src/Threads/Nearer.antt =====
-- A turn of a thread of a stopped pool brings it nearer to its end.
use mathlib.Core.Path.{subst}
use linux_communication.Common.{
  ℕ, ◌-◌, ◌<◌, ◌≡◌, ◌≢◌, refl, sym, ◌∙◌, ap, arith, true, Option, none, some, update, update_ne,
  update_self, ◌⊎◌, inl, inr, ℕ_discrete, if_case,
}
use linux_communication.Threads.{
  Phase, locking, checking, parking, waiting, woken, working, finished, Workers, set_phase, lock,
  turn_from, thread_turn,
}
use linux_communication.Threads.Totals.{total, total-update}

-- A stopped pool in which no thread waits, or is about to.
pub record IsStopping (size : ℕ) (s : Workers) : Type 0 where
  pub stopped : s.shut_down ≡ true
  pub awake : (t : ℕ) → t < size → (s.phases t ≢ waiting) × (s.phases t ≢ parking)
  pub held : (t : ℕ) → s.holder ≡ some t → (t < size) × (s.phases t ≡ checking)

-- How many turns a thread of a stopped pool has left.
abbrev pub turns_left : Phase → ℕ
turns_left locking = 2
turns_left checking = 1
turns_left parking = 0
turns_left waiting = 0
turns_left woken = 2
turns_left (working n) = 3
turns_left finished = 0

-- After a turn of thread `t`, the pool still stops, with fewer turns to go.
pub record Nearer (size : ℕ) (s u : Workers) : Type 0 where
  pub stopping : IsStopping size u
  pub fewer : total turns_left size u.phases < total turns_left size s.phases

NearerIfAny : ℕ → Workers → Option Workers → Type 0
NearerIfAny size s none = Unit {0}
NearerIfAny size s (some u) = Nearer size s u

either_phase :
    (f : ℕ → Phase) (t x : ℕ) (ph : Phase) → (update f t ph x ≡ ph) ⊎ (update f t ph x ≡ f x)
either_phase f t x ph = elim (ℕ_discrete t x) [
  | yes e ↦ inl (ap (update f t ph) (sym e) ∙ update_self f t ph)
  | no d ↦ inr (update_ne f t x ph d)
]

move-Nearer :
    (size t : ℕ) (ph : Phase) (s u : Workers)
    → t < size
    → s.phases ≡ u.phases
    → u.shut_down ≡ true
    → turns_left ph < turns_left (s.phases t)
    → ph ≢ waiting
    → ph ≢ parking
    → ((x : ℕ) → u.holder ≡ some x → (x < size) × (update u.phases t ph x ≡ checking))
    → IsStopping size s
    → Nearer size s (set_phase t ph u)
unfolding set_phase
move-Nearer size t ph s u l same d w nw np held h = record {
  stopping = record {
    stopped = d;
    awake = λ x k. elim (either_phase u.phases t x ph) [
      | inl e ↦ (λ q. nw (sym e ∙ q), λ q. np (sym e ∙ q))
      | inr e ↦
          let was = sym (e ∙ ap (λ f. f x) (sym same)) in
          (λ q. (h.awake x k).0 (was ∙ q), λ q. (h.awake x k).1 (was ∙ q))
    ];
    held = held;
  };
  fewer = omega (
    arith,
    total-update turns_left size t ph u.phases l,
    ap (total turns_left size) same,
    ap (λ f. turns_left (f t)) same,
    w,
  );
}

lock-NearerIfAny :
    (size t : ℕ) (s : Workers) (o : Option ℕ)
    → t < size
    → turns_left (s.phases t) ≡ 2
    → IsStopping size s
    → NearerIfAny size s (lock t o s)
unfolding lock NearerIfAny
lock-NearerIfAny size t s none l q h =
    move-Nearer size t checking s (record s { holder = some t }) l refl h.stopped (omega (arith, q))
      (λ e. ground (arith, e)) (λ e. ground (arith, e))
      (λ x e. (ground (arith, e), ground (arith, e))) h
lock-NearerIfAny size t s (some v) l q h = tt

turn_from-NearerIfAny :
    (size t : ℕ) (s : Workers) (ph : Phase)
    → s.phases t ≡ ph
    → t < size
    → IsStopping size s
    → NearerIfAny size s (turn_from ph t s)
unfolding turn_from NearerIfAny
turn_from-NearerIfAny size t s locking q l h =
    lock-NearerIfAny size t s s.holder l (ap turns_left q) h
turn_from-NearerIfAny size t s checking q l h =
    if_case (Nearer size s) s.shut_down
      (λ r.
        move-Nearer size t finished s (record s { holder = none }) l refl h.stopped
          (omega (arith, ap turns_left q)) (λ e. ground (arith, e)) (λ e. ground (arith, e))
          (λ x e. absurd (ground (arith, e))) h)
      (λ r. absurd (ground (arith, r, h.stopped)))
turn_from-NearerIfAny size t s parking q l h = absurd ((h.awake t l).1 q)
turn_from-NearerIfAny size t s waiting q l h = tt
turn_from-NearerIfAny size t s woken q l h =
    lock-NearerIfAny size t s s.holder l (ap turns_left q) h
turn_from-NearerIfAny size t s (working n) q l h =
    move-Nearer size t locking s (record s { busy = s.busy - 1 }) l refl h.stopped
      (omega (arith, ap turns_left q)) (λ e. ground (arith, e)) (λ e. ground (arith, e))
      (λ x e.
        let (k, at) = h.held x e in
        (k, update_ne s.phases t x locking (λ r. ground (arith, q, at, ap s.phases r)) ∙ at))
      h
turn_from-NearerIfAny size t s finished q l h = tt

pub turn-Nearer :
    (size t : ℕ) (s u : Workers)
    → t < size
    → IsStopping size s
    → thread_turn t s ≡ some u
    → Nearer size s u
unfolding thread_turn NearerIfAny
turn-Nearer size t s u l h e =
    subst (NearerIfAny size s) e (turn_from-NearerIfAny size t s (s.phases t) refl l h)
