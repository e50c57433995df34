-- ===== src/Singleton/Steps.antt =====
-- What holds of GetInstance after every step.
use mathlib.Core.Path.{subst}
use linux_communication.Common.{
  ℕ, ◌≡◌, ◌≢◌, refl, sym, ap, ◌∙◌, arith, ◌≤◌, ◌⊎◌, inl, inr, Bool, true, false, Option, none, some,
  update, if_case, ◌==◌, [], ◌+◌,
}
use linux_communication.Singleton.{
  Stage, outside, testing, locking, retesting, allocating, constructing, publishing, unlocking,
  reading, returned, Singleton, set_stage, if_null, take_lock, step_from, Reached, starts, steps,
}

-- What a thread at a place may rely on: of `mInstance`, of the holder of the mutex, of the number of
-- objects, and of whether the first one is constructed.
unfoldable pub Relies : Option ℕ → Option ℕ → ℕ → Bool → ℕ → Stage → Type 0
Relies i h n b t outside = Unit {0}
Relies i h n b t testing = Unit {0}
Relies i h n b t locking = Unit {0}
Relies i h n b t retesting = (h ≡ some t) × (i ≡ none → n ≡ 0)
Relies i h n b t allocating = (h ≡ some t) × (i ≡ none) × (n ≡ 0)
Relies i h n b t (constructing p) = (h ≡ some t) × (i ≡ none) × (n ≡ 1) × (p ≡ 0)
Relies i h n b t (publishing p) = (h ≡ some t) × (i ≡ none) × (n ≡ 1) × (p ≡ 0) × (b ≡ true)
Relies i h n b t unlocking = (h ≡ some t) × (i ≡ some 0)
Relies i h n b t reading = i ≡ some 0
Relies i h n b t (returned p) = (p ≡ some 0) × (i ≡ some 0)

abbrev pub RelyOn : Singleton → ℕ → Stage → Type 0
RelyOn s = Relies s.instance_at s.holder s.created (s.is_built 0)

pub record IsSingle (s : Singleton) : Type 0 where
  pub at_most : s.created ≤ 1
  pub null_or_one : (s.instance_at ≡ none) ⊎ (s.instance_at ≡ some 0)
  pub one_built : s.instance_at ≡ some 0 → s.is_built 0 ≡ true
  pub idle : s.holder ≡ none → s.instance_at ≡ none → s.created ≡ 0
  pub each : (t : ℕ) → RelyOn s t (s.stages t)
  pub kept : s.deleted ≡ []

-- What a thread that holds the mutex knows has not been changed by another one.
abbrev Same : ℕ → Singleton → Singleton → Type 0
Same t s u =
    s.holder ≡ some t
    → (u.holder ≡ some t)
      × (u.instance_at ≡ s.instance_at)
      × (u.created ≡ s.created)
      × (u.is_built 0 ≡ s.is_built 0)

Relies-kept :
    (t : ℕ) (s u : Singleton) (stage : Stage)
    → Same t s u
    → (s.instance_at ≡ some 0 → u.instance_at ≡ some 0)
    → RelyOn s t stage
    → RelyOn u t stage
unfolding Relies
Relies-kept t s u outside a c r = tt
Relies-kept t s u testing a c r = tt
Relies-kept t s u locking a c r = tt
Relies-kept t s u retesting a c r = ((a r.0).0, λ z. (a r.0).2 ∙ r.1 (sym (a r.0).1 ∙ z))
Relies-kept t s u allocating a c r = ((a r.0).0, (a r.0).1 ∙ r.1, (a r.0).2 ∙ r.2)
Relies-kept t s u (constructing p) a c r = ((a r.0).0, (a r.0).1 ∙ r.1, (a r.0).2 ∙ r.2, r.3)
Relies-kept t s u (publishing p) a c r =
    ((a r.0).0, (a r.0).1 ∙ r.1, (a r.0).2 ∙ r.2, r.3, (a r.0).3 ∙ r.4)
Relies-kept t s u unlocking a c r = ((a r.0).0, c r.1)
Relies-kept t s u reading a c r = c r
Relies-kept t s u (returned p) a c r = (r.0, c r.1)

-- The threads after a step of thread `t`.
Relies-update :
    (s : Singleton) (stages : ℕ → Stage) (t : ℕ) (stage : Stage)
    → ((v : ℕ) → v ≢ t → RelyOn s v (stages v))
    → RelyOn s t stage
    → (v : ℕ) → RelyOn s v (update stages t stage v)
Relies-update s stages t stage others own v =
    if_case (RelyOn s v) (t == v) (λ e. subst (λ w. RelyOn s w stage) (same t v e) own)
      (λ e. others v (apart t v e))
  where
    same : (t v : ℕ) → (t == v) ≡ true → t ≡ v
    same t v e = ground (arith, e)

    apart : (t v : ℕ) → (t == v) ≡ false → v ≢ t
    apart t v e f = ground (arith, e, f)

some_same : {s u : Singleton} → some s ≡ some u → s ≡ u
some_same e = cc

pub some_holder : {t u : ℕ} → some t ≡ some u → t ≡ u
some_holder e = cc

module _ (t : ℕ) (s : Singleton) (single : IsSingle s) where
  -- The threads after a step of `t` to the state `u`.
  each_after :
      (u : Singleton) (stage : Stage)
      → ((v : ℕ) → v ≢ t → Same v s u)
      → (s.instance_at ≡ some 0 → u.instance_at ≡ some 0)
      → RelyOn u t stage
      → (v : ℕ) → RelyOn u v (update s.stages t stage v)
  each_after u stage a c r =
      Relies-update u s.stages t stage
        (λ v n. Relies-kept v s u (s.stages v) (a v n) c (single.each v)) r

  -- What the holder of the mutex changes, no other thread relies on.
  each_by_holder :
      (u : Singleton) (stage : Stage)
      → s.holder ≡ some t
      → (s.instance_at ≡ some 0 → u.instance_at ≡ some 0)
      → RelyOn u t stage
      → (v : ℕ) → RelyOn u v (update s.stages t stage v)
  each_by_holder u stage h c r =
      each_after u stage (λ v n k. absurd (n (some_holder (sym k ∙ h)))) c r

  -- A step that leaves all but the place of the thread alone.
  walks : (stage : Stage) → RelyOn s t stage → IsSingle (set_stage t stage s)
  walks stage r = record {
    at_most = single.at_most;
    null_or_one = single.null_or_one;
    one_built = single.one_built;
    idle = single.idle;
    each = each_after s stage (λ v n k. (k, refl, refl, refl)) (λ z. z) r;
    kept = single.kept;
  }

  -- A place that depends on the test.
  null_case :
      (yes_stage no_stage : Stage)
      → (s.instance_at ≡ none → RelyOn s t yes_stage)
      → (s.instance_at ≡ some 0 → RelyOn s t no_stage)
      → RelyOn s t (if_null s.instance_at yes_stage no_stage)
  null_case yes_stage no_stage a b = elim single.null_or_one [
    | inl e ↦ subst (λ o. RelyOn s t (if_null o yes_stage no_stage)) (sym e) (a e)
    | inr e ↦ subst (λ o. RelyOn s t (if_null o yes_stage no_stage)) (sym e) (b e)
  ]

  take_lock-IsSingle :
      (holder : Option ℕ) (u : Singleton)
      → s.holder ≡ holder
      → take_lock t holder s ≡ some u
      → IsSingle u
  unfolding take_lock Relies
  take_lock-IsSingle none u e f = subst IsSingle (some_same f) (record {
    at_most = single.at_most;
    null_or_one = single.null_or_one;
    one_built = single.one_built;
    idle = λ h. absurd (cc h);
    each =
        each_after (record s { holder = some t }) retesting (λ v n h. absurd (cc (sym e ∙ h)))
          (λ z. z) (refl, single.idle e);
    kept = single.kept;
  })
  take_lock-IsSingle (some v) u e f = absurd (cc f)

  -- The steps of the holder that makes the object.
  allocates :
      (h : s.holder ≡ some t)
      → s.instance_at ≡ none
      → s.created ≡ 0
      → IsSingle (set_stage t (constructing s.created) (record s { created = s.created + 1 }))
  unfolding Relies
  allocates h i z = record {
    at_most = omega (arith, z);
    null_or_one = single.null_or_one;
    one_built = single.one_built;
    idle = λ k. absurd (cc (sym h ∙ k));
    each =
        each_by_holder (record s { created = s.created + 1 }) (constructing s.created) h (λ k. k)
          (h, i, omega (arith, z), z);
    kept = single.kept;
  }

  constructs :
      (p : ℕ)
      → s.holder ≡ some t
      → s.instance_at ≡ none
      → s.created ≡ 1
      → p ≡ 0
      → IsSingle (set_stage t (publishing p) (record s { is_built = update s.is_built p true }))
  unfolding Relies
  constructs p h i z e = record {
    at_most = single.at_most;
    null_or_one = single.null_or_one;
    one_built = λ k. absurd (cc (sym i ∙ k));
    idle = λ k. absurd (cc (sym h ∙ k));
    each =
        each_by_holder (record s { is_built = update s.is_built p true }) (publishing p) h (λ k. k)
          (h, i, z, e, ground (arith, e));
    kept = single.kept;
  }

  publishes :
      (p : ℕ)
      → s.holder ≡ some t
      → s.instance_at ≡ none
      → p ≡ 0
      → s.is_built 0 ≡ true
      → IsSingle (set_stage t unlocking (record s { instance_at = some p }))
  unfolding Relies
  publishes p h i e b = record {
    at_most = single.at_most;
    null_or_one = inr (ap some e);
    one_built = λ k. b;
    idle = λ k. absurd (cc (sym h ∙ k));
    each =
        each_by_holder (record s { instance_at = some p }) unlocking h
          (λ k. absurd (cc (sym i ∙ k))) (h, ap some e);
    kept = single.kept;
  }

  unlocks :
      s.holder ≡ some t
      → s.instance_at ≡ some 0
      → IsSingle (set_stage t reading (record s { holder = none }))
  unfolding Relies
  unlocks h i = record {
    at_most = single.at_most;
    null_or_one = single.null_or_one;
    one_built = single.one_built;
    idle = λ k z. absurd (cc (sym i ∙ z));
    each = each_by_holder (record s { holder = none }) reading h (λ k. k) i;
    kept = single.kept;
  }

  step-IsSingle :
      (stage : Stage) (u : Singleton)
      → RelyOn s t stage
      → step_from true stage t s ≡ some u
      → IsSingle u
  unfolding step_from Relies
  step-IsSingle outside u r e = subst IsSingle (some_same e) (walks testing tt)
  step-IsSingle testing u r e =
      subst IsSingle (some_same e) (walks _ (null_case locking reading (λ z. tt) (λ z. z)))
  step-IsSingle locking u r e = take_lock-IsSingle s.holder u refl e
  step-IsSingle retesting u r e =
      subst IsSingle (some_same e)
        (walks _ (null_case allocating unlocking (λ z. (r.0, z, r.1 z)) (λ z. (r.0, z))))
  step-IsSingle allocating u r e = subst IsSingle (some_same e) (allocates r.0 r.1 r.2)
  step-IsSingle (constructing p) u r e = subst IsSingle (some_same e) (constructs p r.0 r.1 r.2 r.3)
  step-IsSingle (publishing p) u r e = subst IsSingle (some_same e) (publishes p r.0 r.1 r.3 r.4)
  step-IsSingle unlocking u r e = subst IsSingle (some_same e) (unlocks r.0 r.1)
  step-IsSingle reading u r e = subst IsSingle (some_same e) (walks _ (r, r))
  step-IsSingle (returned p) u r e = absurd (cc e)

pub Reached-IsSingle : (s : Singleton) → Reached true s → IsSingle s
unfolding Relies
Reached-IsSingle _ starts = record {
  at_most = omega arith;
  null_or_one = inl refl;
  one_built = λ e. absurd (cc e);
  idle = λ h i. refl;
  each = λ t. tt;
  kept = refl;
}
Reached-IsSingle _ (steps t s u r e) =
    let single = Reached-IsSingle s r in step-IsSingle t s single (s.stages t) u (single.each t) e
