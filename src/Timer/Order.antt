-- ===== src/Timer/Order.antt =====
-- The timer queue is ordered, its size is counted, and its first time is kept aside.
use linux_communication.Common.{
  ℕ, ◌+◌, ◌≤◌, ◌≡◌, refl, arith, List, [], ◌∷◌, length, ltb, ◌==◌, if◌then◌else◌, some, Bool-cases,
  inl, inr,
}
use linux_communication.Memory.{malloc_memory}
use linux_communication.Socket.{Socket}
use linux_communication.Timer.{insert_timer, get_earliest_time, insert_entry, add_to_timer_queue}

-- All times are at least `t`.
abbrev pub AllFrom : ℕ → List (ℕ × ℕ) → Type 0
AllFrom t [] = Unit {0}
AllFrom t ((u, q) ∷ rest) = (t ≤ u) × AllFrom t rest

abbrev pub IsSorted : List (ℕ × ℕ) → Type 0
IsSorted [] = Unit {0}
IsSorted ((t, p) ∷ rest) = AllFrom t rest × IsSorted rest

-- How many entries have the block `p`.
abbrev pub entries_of : ℕ → List (ℕ × ℕ) → ℕ
entries_of p [] = 0
entries_of p ((t, q) ∷ rest) = (if q == p then 1 else 0) + entries_of p rest

AllFrom-le : (t u : ℕ) (m : List (ℕ × ℕ)) → t ≤ u → AllFrom u m → AllFrom t m
AllFrom-le t u [] h a = tt
AllFrom-le t u ((v, q) ∷ rest) h a = (omega arith, AllFrom-le t u rest h a.1)

AllFrom-insert :
    (s t p : ℕ) (m : List (ℕ × ℕ)) → s ≤ t → AllFrom s m → AllFrom s (insert_timer t p m)
unfolding insert_timer
AllFrom-insert s t p [] h a = (h, tt)
AllFrom-insert s t p ((u, q) ∷ rest) h a = ground (arith, AllFrom-insert s t p rest h a.1)

pub insert_timer-IsSorted :
    (t p : ℕ) (m : List (ℕ × ℕ)) → IsSorted m → IsSorted (insert_timer t p m)
unfolding insert_timer
insert_timer-IsSorted t p [] h = (tt, tt)
insert_timer-IsSorted t p ((u, q) ∷ rest) h = elim (Bool-cases (ltb t u)) [
  | inl e ↦ rw e ((ground arith, AllFrom-le t u rest (ground arith) h.0), h)
  | inr e ↦ rw e (AllFrom-insert u t p rest (ground arith) h.0, insert_timer-IsSorted t p rest h.1)
]

pub length-insert_timer : (t p : ℕ) (m : List (ℕ × ℕ)) → length (insert_timer t p m) ≡ length m + 1
unfolding insert_timer
length-insert_timer t p [] = refl
length-insert_timer t p ((u, q) ∷ rest) = ground (arith, length-insert_timer t p rest)

entries_of-insert_timer :
    (r t p : ℕ) (m : List (ℕ × ℕ))
    → entries_of r (insert_timer t p m) ≡ (if p == r then 1 else 0) + entries_of r m
unfolding insert_timer
entries_of-insert_timer r t p [] = refl
entries_of-insert_timer r t p ((u, q) ∷ rest) = ground (arith, entries_of-insert_timer r t p rest)

-- What the timer operations rely on.
pub record IsTimed (s : Socket) : Type 0 where
  pub sorted : IsSorted s.timer_queue_map
  pub counted : s.timer_queue_size ≡ length s.timer_queue_map
  pub first : s.timer_value ≡ get_earliest_time s.timer_queue_map s.timer_value

first_of_first :
    (m : List (ℕ × ℕ)) (v : ℕ) → get_earliest_time m v ≡ get_earliest_time m (get_earliest_time m v)
unfolding get_earliest_time
first_of_first [] v = refl
first_of_first ((t, p) ∷ rest) v = refl

-- Adding a connection to the timer queue keeps the queue in the order of its times, counts it, and
-- keeps the earliest time aside; it adds one entry, with a new block that names the connection and
-- its sequence number, and takes none away.
pub add_to_timer_queue-IsTimed :
    (now c : ℕ) (s : Socket)
    → IsTimed s
    → let t = add_to_timer_queue now c s in
      IsTimed t
      × (t.timer_value ≡ get_earliest_time t.timer_queue_map s.timer_value)
      × (t.heap.cells s.heap.next
          ≡ some (record { conn = c; seq = (s.conns c).curr_sequence; payload = [] }))
      × ((r : ℕ)
          → entries_of r t.timer_queue_map
            ≡ (if s.heap.next == r then 1 else 0) + entries_of r s.timer_queue_map)
unfolding add_to_timer_queue insert_entry malloc_memory
add_to_timer_queue-IsTimed now c s h = (
  record {
    sorted = insert_timer-IsSorted (now + s.wait_time) s.heap.next s.timer_queue_map h.sorted;
    counted =
        omega
          (arith, h.counted, length-insert_timer (now + s.wait_time) s.heap.next s.timer_queue_map);
    first =
        first_of_first (insert_timer (now + s.wait_time) s.heap.next s.timer_queue_map)
          s.timer_value;
  },
  refl,
  ground arith,
  λ r. entries_of-insert_timer r (now + s.wait_time) s.heap.next s.timer_queue_map,
)
