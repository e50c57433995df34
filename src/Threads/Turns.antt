-- ===== src/Threads/Turns.antt =====
-- The steps of one thread keep the pool sound.
use linux_communication.Common.{
  ℕ, ◌-◌, ◌<◌, ◌≡◌, refl, sym, ◌∙◌, arith, List, [], ◌∷◌, Bool, true, false, Option, none, some,
  if◌then◌else◌,
}
use linux_communication.Threads.{
  Phase, locking, checking, parking, waiting, woken, working, finished, Workers, set_phase, lock,
  take_packet, turn_from,
}
use linux_communication.Threads.Invariant.{first_of_range, IsSound}

-- The result of a step that may be blocked.
abbrev pub SoundIfAny : ℕ → Option Workers → Type 0
SoundIfAny size none = Unit {0}
SoundIfAny size (some u) = IsSound size u

lock-SoundIfAny :
    (size t : ℕ) (s : Workers) (o : Option ℕ)
    → s.holder ≡ o
    → t < size
    → IsSound size s
    → SoundIfAny size (lock t o s)
unfolding lock set_phase
lock-SoundIfAny size t s none q l h = record {
  in_order = record { rest = h.in_order.rest; all = h.in_order.all; queue = h.in_order.queue };
  exclusive = record {
    looks = λ x k. ground (arith, h.exclusive.looks x);
    parks = λ x k. ground (arith, h.exclusive.parks x);
  };
  one_worker = record {
    was_taken = λ x n k. ground (arith, h.one_worker.was_taken x n);
    alone = λ x y n k j. ground (arith, h.one_worker.alone x y n);
  };
  awake = λ a b c. (t, l, ground arith);
}
lock-SoundIfAny size t s (some v) q l h = tt

stop-SoundIfAny :
    (size t : ℕ) (s : Workers)
    → s.phases t ≡ checking
    → t < size
    → IsSound size s
    → IsSound size (set_phase t finished (record s { holder = none }))
unfolding set_phase
stop-SoundIfAny size t s q l h = record {
  in_order = record { rest = h.in_order.rest; all = h.in_order.all; queue = h.in_order.queue };
  exclusive = record {
    looks = λ x k. ground (arith, h.exclusive.looks x, h.exclusive.looks t q);
    parks = λ x k. ground (arith, h.exclusive.parks x, h.exclusive.looks t q);
  };
  one_worker = record {
    was_taken = λ x n k. ground (arith, h.one_worker.was_taken x n);
    alone = λ x y n k j. ground (arith, h.one_worker.alone x y n);
  };
  awake = λ a b c. (t, l, ground arith);
}

park-SoundIfAny :
    (size t : ℕ) (s : Workers)
    → s.phases t ≡ parking
    → IsSound size s
    → IsSound size (set_phase t waiting (record s { holder = none }))
unfolding set_phase
park-SoundIfAny size t s q h = record {
  in_order = record { rest = h.in_order.rest; all = h.in_order.all; queue = h.in_order.queue };
  exclusive = record {
    looks = λ x k. ground (arith, h.exclusive.looks x, (h.exclusive.parks t q).0);
    parks = λ x k. ground (arith, h.exclusive.parks x, (h.exclusive.parks t q).0);
  };
  one_worker = record {
    was_taken = λ x n k. ground (arith, h.one_worker.was_taken x n);
    alone = λ x y n k j. ground (arith, h.one_worker.alone x y n);
  };
  awake = λ a b c. absurd (a (h.exclusive.parks t q).1);
}

again-SoundIfAny :
    (size t n : ℕ) (s : Workers)
    → s.phases t ≡ working n
    → t < size
    → IsSound size s
    → IsSound size (set_phase t locking (record s { busy = s.busy - 1 }))
unfolding set_phase
again-SoundIfAny size t n s q l h = record {
  in_order = record { rest = h.in_order.rest; all = h.in_order.all; queue = h.in_order.queue };
  exclusive = record {
    looks = λ x k. ground (arith, h.exclusive.looks x);
    parks = λ x k. ground (arith, h.exclusive.parks x);
  };
  one_worker = record {
    was_taken = λ x m k. ground (arith, h.one_worker.was_taken x m);
    alone = λ x y m k j. ground (arith, h.one_worker.alone x y m);
  };
  awake = λ a b c. (t, l, ground arith);
}

take_packet-IsSound :
    (size t : ℕ) (s : Workers) (q : List ℕ)
    → s.queue ≡ q
    → s.phases t ≡ checking
    → t < size
    → IsSound size s
    → IsSound size (take_packet t q s)
unfolding take_packet set_phase
take_packet-IsSound size t s [] e q l h = record {
  in_order = record { rest = h.in_order.rest; all = h.in_order.all; queue = h.in_order.queue };
  exclusive = record {
    looks = λ x k. ground (arith, h.exclusive.looks x);
    parks = λ x k. ground (arith, h.exclusive.parks x, h.exclusive.looks t q, e);
  };
  one_worker = record {
    was_taken = λ x n k. ground (arith, h.one_worker.was_taken x n);
    alone = λ x y n k j. ground (arith, h.one_worker.alone x y n);
  };
  awake = λ a b c. absurd (a e);
}
take_packet-IsSound size t s (n ∷ rest) e q l h =
    let (first, k, r, others) =
      first_of_range n s.taken h.in_order.rest rest (sym e ∙ h.in_order.queue) in
    record {
      in_order = record { rest = k; all = omega (arith, h.in_order.all, r); queue = others };
      exclusive = record {
        looks = λ x j. ground (arith, h.exclusive.looks x, h.exclusive.looks t q);
        parks = λ x j. ground (arith, h.exclusive.parks x, h.exclusive.looks t q);
      };
      one_worker = record {
        was_taken = λ x m j. ground (arith, h.one_worker.was_taken x m, first);
        alone = λ x y m i j. ground (
          arith,
          h.one_worker.alone x y m,
          h.one_worker.was_taken x m,
          h.one_worker.was_taken y m,
          first,
        );
      };
      awake = λ a b c. (t, l, ground arith);
    }

IsSound-if :
    (size : ℕ) (b : Bool) (s u : Workers)
    → IsSound size s
    → IsSound size u
    → IsSound size (if b then s else u)
IsSound-if size true s u h k = h
IsSound-if size false s u h k = k

pub turn_from-SoundIfAny :
    (size t : ℕ) (s : Workers) (ph : Phase)
    → s.phases t ≡ ph
    → t < size
    → IsSound size s
    → SoundIfAny size (turn_from ph t s)
unfolding turn_from
turn_from-SoundIfAny size t s locking q l h = lock-SoundIfAny size t s s.holder refl l h
turn_from-SoundIfAny size t s checking q l h =
    IsSound-if size s.shut_down _ _ (stop-SoundIfAny size t s q l h)
      (take_packet-IsSound size t s s.queue refl q l h)
turn_from-SoundIfAny size t s parking q l h = park-SoundIfAny size t s q h
turn_from-SoundIfAny size t s waiting q l h = tt
turn_from-SoundIfAny size t s woken q l h = lock-SoundIfAny size t s s.holder refl l h
turn_from-SoundIfAny size t s (working n) q l h = again-SoundIfAny size t n s q l h
turn_from-SoundIfAny size t s finished q l h = tt
