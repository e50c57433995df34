-- ===== src/Timer/Expiry.antt =====
-- What the inner loop of ser_timer_queue_monitor_thread collects, and that it ends.
use linux_communication.Common.{
  ℕ, zero, suc, ◌+◌, ◌-◌, ◌≤◌, ◌<◌, ◌≡◌, refl, ◌∙◌, ap, arith, List, [], ◌∷◌, length, leb, ◌==◌,
  if◌then◌else◌, Option, none, some, Bool, true, false, Bool-cases, inl, inr,
}
use linux_communication.Memory.{Block, malloc_memory}
use linux_communication.Socket.{Socket}
use linux_communication.Timer.{
  insert_timer, get_earliest_time, insert_entry, set_timer_value, remove_first, remove_first_timer,
  requeue, after_removal, is_empty, get_over_time_timer, collect_more, collect_over_time,
}
use linux_communication.Timer.Order.{
  AllFrom, IsSorted, entries_of, insert_timer-IsSorted, length-insert_timer,
}

-- The blocks of the entries whose time has come at `now`, in the order of the queue.
abbrev pub due_blocks : ℕ → List (ℕ × ℕ) → List ℕ
due_blocks now [] = []
due_blocks now ((t, p) ∷ rest) = if leb t now then p ∷ due_blocks now rest else due_blocks now rest

-- The entries whose time has not come.
abbrev pub later : ℕ → List (ℕ × ℕ) → List (ℕ × ℕ)
later now [] = []
later now ((t, p) ∷ rest) = if leb t now then later now rest else (t, p) ∷ later now rest

due_blocks-insert :
    (now t p : ℕ) (m : List (ℕ × ℕ))
    → now < t
    → due_blocks now (insert_timer t p m) ≡ due_blocks now m
unfolding insert_timer
due_blocks-insert now t p [] h = ground arith
due_blocks-insert now t p ((u, q) ∷ rest) h = ground (arith, due_blocks-insert now t p rest h)

due_blocks-AllFrom : (now t : ℕ) (m : List (ℕ × ℕ)) → now < t → AllFrom t m → due_blocks now m ≡ []
due_blocks-AllFrom now t [] h a = refl
due_blocks-AllFrom now t ((u, q) ∷ rest) h a =
    ground (arith, due_blocks-AllFrom now t rest h a.1, a.0)

later-insert :
    (now t p r : ℕ) (m : List (ℕ × ℕ))
    → entries_of r (later now m) ≤ entries_of r (later now (insert_timer t p m))
unfolding insert_timer
later-insert now t p r [] = ground arith
later-insert now t p r ((u, q) ∷ rest) = ground (arith, later-insert now t p r rest)

later-le : (now r : ℕ) (m : List (ℕ × ℕ)) → entries_of r (later now m) ≤ entries_of r m
later-le now r [] = ground arith
later-le now r ((u, q) ∷ rest) = ground (arith, later-le now r rest)

-- The queue is ordered and counted.
pub record IsQueue (s : Socket) : Type 0 where
  pub ordered : IsSorted s.timer_queue_map
  pub counted : s.timer_queue_size ≡ length s.timer_queue_map

-- `u` differs from `s` in no setting of the timer, has the same entries due at `now`,
-- and has lost none of the others.
record SameDue (now : ℕ) (s u : Socket) : Type 0 where
  queue : IsQueue u
  due : due_blocks now u.timer_queue_map ≡ due_blocks now s.timer_queue_map
  stay :
      (r : ℕ)
      → entries_of r (later now s.timer_queue_map) ≤ entries_of r (later now u.timer_queue_map)
  wait : u.wait_time ≡ s.wait_time

requeue-SameDue :
    (now : ℕ) (m : Option Block) (s : Socket)
    → IsQueue s
    → 0 < s.wait_time
    → SameDue now s (requeue now m s)
unfolding requeue insert_entry malloc_memory
requeue-SameDue now none s h w = record {
  queue = record { ordered = h.ordered; counted = h.counted };
  due = refl;
  stay = λ r. omega arith;
  wait = refl;
}
requeue-SameDue now (some m) s h w = record {
  queue = record {
    ordered = insert_timer-IsSorted (now + s.wait_time) s.heap.next s.timer_queue_map h.ordered;
    counted =
        omega
          (arith, h.counted, length-insert_timer (now + s.wait_time) s.heap.next s.timer_queue_map);
  };
  due = due_blocks-insert now (now + s.wait_time) s.heap.next s.timer_queue_map (omega (arith, w));
  stay = λ r. later-insert now (now + s.wait_time) s.heap.next r s.timer_queue_map;
  wait = refl;
}

abbrev popped : List (ℕ × ℕ) → Socket → Socket
popped rest s = record s { timer_queue_map = rest; timer_queue_size = s.timer_queue_size - 1 }

SameDue-if :
    (now : ℕ) (s u v : Socket) (b : Bool)
    → SameDue now s u
    → SameDue now s v
    → SameDue now s (if b then u else v)
SameDue-if now s u v true h k = h
SameDue-if now s u v false h k = k

SameDue-set_timer_value :
    (now : ℕ) (s u : Socket) → SameDue now s u → SameDue now s (set_timer_value u)
SameDue-set_timer_value now s u h = record {
  queue = record { ordered = h.queue.ordered; counted = h.queue.counted };
  due = h.due;
  stay = h.stay;
  wait = h.wait;
}

after_removal-SameDue :
    (now p : ℕ) (s : Socket)
    → IsQueue s
    → 0 < s.wait_time
    → (u : Socket) × (after_removal now (some p, s) ≡ (some p, u)) × SameDue now s u
unfolding after_removal
after_removal-SameDue now p s h w =
    let t = if s.if_time_out_kick == 1 then s else requeue now (s.heap.cells p) s in
    let k =
      SameDue-if now s s (requeue now (s.heap.cells p) s) (s.if_time_out_kick == 1)
        (record { queue = h; due = refl; stay = λ r. omega arith; wait = refl })
        (requeue-SameDue now (s.heap.cells p) s h w) in
    (
      _,
      refl,
      SameDue-if now s t (set_timer_value t) (t.timer_queue_size == 0) k
          (SameDue-set_timer_value now s t k),
    )

get_over_time_timer-none :
    (now : ℕ) (s : Socket) (m : List (ℕ × ℕ))
    → s.timer_queue_map ≡ m
    → IsSorted m
    → due_blocks now m ≡ []
    → get_over_time_timer now s ≡ (none, s)
unfolding get_over_time_timer is_empty get_earliest_time
get_over_time_timer-none now s [] q h e = ground arith
get_over_time_timer-none now s ((t, p) ∷ rest) q h e = ground arith

get_over_time_timer-first :
    (now t p : ℕ) (rest : List (ℕ × ℕ)) (s : Socket)
    → s.timer_queue_map ≡ (t, p) ∷ rest
    → IsQueue s
    → t ≤ now
    → get_over_time_timer now s ≡ after_removal now (some p, popped rest s)
unfolding get_over_time_timer is_empty get_earliest_time remove_first_timer remove_first
get_over_time_timer-first now t p rest s q h k =
    let c : s.timer_queue_size ≡ suc (length rest) = h.counted ∙ ap length q in rw q (ground arith)

popped-IsQueue :
    (t p : ℕ) (rest : List (ℕ × ℕ)) (s : Socket)
    → s.timer_queue_map ≡ (t, p) ∷ rest
    → IsQueue s
    → IsQueue (popped rest s)
popped-IsQueue t p rest s q h = record {
  ordered = (rw q at h.ordered).1;
  counted =
      let c : s.timer_queue_size ≡ suc (length rest) = h.counted ∙ ap length q in omega (arith, c);
}

-- The state after the first entry of `m` was taken, with `ps` due after it.
record After (now : ℕ) (m : List (ℕ × ℕ)) (ps : List ℕ) (s u : Socket) : Type 0 where
  queue : IsQueue u
  due : due_blocks now u.timer_queue_map ≡ ps
  stay : (r : ℕ) → entries_of r (later now m) ≤ entries_of r (later now u.timer_queue_map)
  wait : u.wait_time ≡ s.wait_time

get_over_time_timer-TakesFirst :
    (now : ℕ) (s : Socket) (m : List (ℕ × ℕ)) (p : ℕ) (ps : List ℕ)
    → s.timer_queue_map ≡ m
    → IsQueue s
    → 0 < s.wait_time
    → due_blocks now m ≡ p ∷ ps
    → (u : Socket) × (get_over_time_timer now s ≡ (some p, u)) × After now m ps s u
get_over_time_timer-TakesFirst now s [] p ps q h w e = ground (arith, e)
get_over_time_timer-TakesFirst now s ((t, r) ∷ rest) p ps q h w e = elim (Bool-cases (leb t now)) [
  | inl k ↦
      let (u, step, d) =
        after_removal-SameDue now r (popped rest s) (popped-IsQueue t r rest s q h) w in
      let heads : r ∷ due_blocks now rest ≡ p ∷ ps = rw k at e in
      (
        u,
        get_over_time_timer-first now t r rest s q h (ground arith)
            ∙ step
            ∙ ap (λ x. (some x, u)) (ground (arith, heads)),
        record {
          queue = d.queue;
          due = d.due ∙ ground (arith, heads);
          stay = λ r. rw k (d.stay r);
          wait = d.wait;
        },
      )
  | inr k ↦
      let none_due = due_blocks-AllFrom now t rest (ground arith) (rw q at h.ordered).0 in
      absurd (ground (arith, none_due, rw k at e))
]

-- The state after all entries due at `now` were collected from `s`.
pub record Collected (now : ℕ) (s u : Socket) : Type 0 where
  pub queue : IsQueue u
  pub done : due_blocks now u.timer_queue_map ≡ []
  pub stay : (r : ℕ) → entries_of r (later now s.timer_queue_map) ≤ entries_of r u.timer_queue_map

collects :
    (fuel now : ℕ) (ps : List ℕ) (s : Socket)
    → IsQueue s
    → 0 < s.wait_time
    → due_blocks now s.timer_queue_map ≡ ps
    → length ps < fuel
    → (u : Socket) × (collect_over_time fuel now s ≡ some (ps, u)) × Collected now s u
unfolding collect_over_time collect_more
collects zero now ps s h w e f = absurd (omega arith)
collects (suc fuel) now [] s h w e f = (
  s,
  rw (get_over_time_timer-none now s s.timer_queue_map refl h.ordered e) refl,
  record { queue = h; done = e; stay = λ r. later-le now r s.timer_queue_map },
)
collects (suc fuel) now (p ∷ ps) s h w e f =
    let (t, step, a) = get_over_time_timer-TakesFirst now s s.timer_queue_map p ps refl h w e in
    let (u, rest, c) = collects fuel now ps t a.queue (rw a.wait w) a.due (omega arith) in
    (
      u,
      rw step (rw rest refl),
      record { queue = c.queue; done = c.done; stay = λ r. omega (arith, a.stay r, c.stay r) },
    )

-- In an ordered and counted queue, with a waiting time above zero, more rounds than there are
-- entries due end the collecting loop, also where each client is put back for its next check. It
-- returns the blocks of all entries due, in the order of the queue, and leaves an ordered and
-- counted queue with no entry due, from which no entry that was not due is missing.
pub collect_over_time-Collected :
    (fuel now : ℕ) (s : Socket)
    → IsQueue s
    → 0 < s.wait_time
    → length (due_blocks now s.timer_queue_map) < fuel
    → (u : Socket) × (collect_over_time fuel now s ≡ some (due_blocks now s.timer_queue_map, u))
      × Collected now s u
collect_over_time-Collected fuel now s h w f =
    collects fuel now (due_blocks now s.timer_queue_map) s h w refl f
