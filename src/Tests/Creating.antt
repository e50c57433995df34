-- ===== src/Tests/Creating.antt =====
-- Two threads in GetInstance.
use linux_communication.Common.{ℕ, ◌≡◌, refl, List, [], ◌∷◌, Bool, true, false, Option, none, some}
use linux_communication.Singleton.{
  returned, Singleton, take_lock, step_from, start, Reached, starts, steps,
}

-- The state after a step, or the same if the thread has to wait.
abbrev or_stay : Singleton → Option Singleton → Singleton
or_stay s none = s
or_stay s (some u) = u

-- The steps of these threads, one after another.
abbrev run : Bool → List ℕ → Singleton → Singleton
run in_order [] s = s
run in_order (t ∷ ts) s = run in_order ts (or_stay s (step_from in_order (s.stages t) t s))

or_stay-Reached :
    (in_order : Bool) (t : ℕ) (s : Singleton) (o : Option Singleton)
    → step_from in_order (s.stages t) t s ≡ o
    → Reached in_order s
    → Reached in_order (or_stay s o)
or_stay-Reached in_order t s none e r = r
or_stay-Reached in_order t s (some u) e r = steps t s u r e

run-Reached :
    (in_order : Bool) (ts : List ℕ) (s : Singleton)
    → Reached in_order s
    → Reached in_order (run in_order ts s)
run-Reached in_order [] s r = r
run-Reached in_order (t ∷ ts) s r =
    run-Reached in_order ts (or_stay s (step_from in_order (s.stages t) t s))
      (or_stay-Reached in_order t s (step_from in_order (s.stages t) t s) refl r)

-- Both find no instance; the second waits for the first, then finds one.
abbrev race : List ℕ
race = 0 ∷ 1 ∷ 0 ∷ 1 ∷ 0 ∷ 1 ∷ 0 ∷ 0 ∷ 0 ∷ 0 ∷ 0 ∷ 1 ∷ 1 ∷ 1 ∷ 0 ∷ 1 ∷ 1 ∷ []

first_returns : (run true race start).stages 0 ≡ returned (some 0)
unfolding step_from take_lock
first_returns = refl

second_returns : (run true race start).stages 1 ≡ returned (some 0)
unfolding step_from take_lock
second_returns = refl

-- Where the pointer is seen before the object is constructed, a thread that comes in between returns
-- an object that is not constructed.
abbrev early : Singleton
early = run false (0 ∷ 0 ∷ 0 ∷ 0 ∷ 0 ∷ 0 ∷ 1 ∷ 1 ∷ 1 ∷ []) start

early-Reached : Reached false early
early-Reached = run-Reached false (0 ∷ 0 ∷ 0 ∷ 0 ∷ 0 ∷ 0 ∷ 1 ∷ 1 ∷ 1 ∷ []) start starts

not_built : (early.stages 1 ≡ returned (some 0)) × (early.is_built 0 ≡ false)
unfolding step_from take_lock
not_built = (refl, refl)
