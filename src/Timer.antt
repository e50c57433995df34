-- ===== src/Timer.antt =====
-- net/ser_socket_timer.cxx: the timer queue of SerSocket.
-- The multimap is the list of its entries in the order of their keys; among equal keys a new
-- entry comes last, as `insert` does it. The value of an entry is the block of its MSG_HEADER.
-- The file spells some names in two ways (`GetOverTimeTimer` and `getOverTimeTimer`, `MallocMemory`
-- and `AllocMemory`, ...); both stand for one operation here.
pub mod Order
pub mod Expiry
pub mod Deletion
use linux_communication.Common.{
  ℕ, zero, suc, ◌+◌, ◌-◌, List, [], ◌∷◌, ◌++◌, Bool, true, false, not, ◌||◌, ◌&&◌, Option, none,
  some, length, ltb, leb, ◌==◌, if◌then◌else◌,
}
use linux_communication.Memory.{Heap, Block, malloc_memory, free_memory}
use linux_communication.Socket.{Connection, Socket}

-- `std::multimap::insert`
pub insert_timer : ℕ → ℕ → List (ℕ × ℕ) → List (ℕ × ℕ)
insert_timer t p [] = (t, p) ∷ []
insert_timer t p ((u, q) ∷ rest) =
    if ltb t u then (t, p) ∷ (u, q) ∷ rest else (u, q) ∷ insert_timer t p rest

-- `getEarliestTime`; `begin()` of an empty map is not read, `old` stands there.
unfoldable pub get_earliest_time : List (ℕ × ℕ) → ℕ → ℕ
get_earliest_time [] old = old
get_earliest_time ((t, p) ∷ rest) old = t

-- The insertion of a new entry for `m` at time `t`.
unfoldable pub insert_entry : ℕ → Block → Socket → Socket
insert_entry t m s =
    let (p, h) = malloc_memory m s.heap in
    record s {
      heap = h;
      timer_queue_map = insert_timer t p s.timer_queue_map;
      timer_queue_size = s.timer_queue_size + 1;
    }

abbrev set_timer_value : Socket → Socket
set_timer_value s = record s { timer_value = get_earliest_time s.timer_queue_map s.timer_value }

-- `addToTimerQueue`, at the time `now`.
unfoldable pub add_to_timer_queue : ℕ → ℕ → Socket → Socket
add_to_timer_queue now c s = set_timer_value (
    insert_entry (now + s.wait_time)
      (record { conn = c; seq = (s.conns c).curr_sequence; payload = [] }) s)

unfoldable pub remove_first : List (ℕ × ℕ) → Socket → Option ℕ × Socket
remove_first [] s = (none, s)
remove_first ((t, p) ∷ rest) s =
    (some p, record s { timer_queue_map = rest; timer_queue_size = s.timer_queue_size - 1 })

-- `removeFirstTimer`
unfoldable pub remove_first_timer : Socket → Option ℕ × Socket
remove_first_timer s =
    if s.timer_queue_size == 0 then (none, s) else remove_first s.timer_queue_map s

-- The entry for the next check of the client of the block `p`, where clients are not kicked out.
unfoldable pub requeue : ℕ → Option Block → Socket → Socket
requeue now none s = record s { heap = record (s.heap) { fault = true } }
requeue now (some m) s = insert_entry (now + s.wait_time) (record m { payload = [] }) s

-- What `GetOverTimeTimer` does with the entry that it has removed.
unfoldable pub after_removal : ℕ → Option ℕ × Socket → Option ℕ × Socket
after_removal now (none, s) = (none, s)
after_removal now (some p, s) =
    let t = if s.if_time_out_kick == 1 then s else requeue now (s.heap.cells p) s in
    (some p, if t.timer_queue_size == 0 then t else set_timer_value t)

pub is_empty : List (ℕ × ℕ) → Bool
is_empty [] = true
is_empty (e ∷ es) = false

-- `GetOverTimeTimer(cur_time)`
unfoldable pub get_over_time_timer : ℕ → Socket → Option ℕ × Socket
get_over_time_timer now s =
    if (s.timer_queue_size == 0) || is_empty s.timer_queue_map
    then (none, s)
    else if leb (get_earliest_time s.timer_queue_map 0) now
    then after_removal now (remove_first_timer s)
    else (none, s)

-- The monitor's list grows by one entry.
unfoldable pub collect_more :
    Option ℕ → Socket → Option (List ℕ × Socket) → Option (List ℕ × Socket)
collect_more none s rest = some ([], s)
collect_more (some p) s none = none
collect_more (some p) s (some (ps, u)) = some (p ∷ ps, u)

-- The inner loop of `ser_timer_queue_monitor_thread`, which collects all entries that are due;
-- `none` if `fuel` rounds do not end it.
unfoldable pub collect_over_time : ℕ → ℕ → Socket → Option (List ℕ × Socket)
collect_over_time zero now s = none
collect_over_time (suc fuel) now s =
    let (p, t) = get_over_time_timer now s in
    let rest = collect_over_time fuel now t in collect_more p t rest

-- `procPingTimeOutChecking` for each collected block.
unfoldable pub check_all : List ℕ → Socket → Socket
check_all [] s = s
check_all (p ∷ ps) s = check_all ps (record s { heap = free_memory (some p) s.heap })

-- One turn of the monitor thread at the time `now`.
unfoldable pub monitor_turn : ℕ → ℕ → Socket → Option Socket
monitor_turn fuel now s =
    if (s.timer_queue_size == 0) || not (ltb s.timer_value now)
    then some s
    else elim (collect_over_time fuel now s) [ none ↦ none | some (ps, t) ↦ some (check_all ps t) ]

-- Whether the block of an entry names connection `c`.
unfoldable pub points_to : ℕ → Option Block → Bool
points_to c none = false
points_to c (some m) = m.conn == c

-- The heap after the round of `DeleteFromTimerQueue` for the block `p`: its connection is read, which
-- is a fault where the block is dead, and the block of connection `c` is freed.
pub check_entry : ℕ → ℕ → Option Block → Heap → Heap
check_entry c p none h = record h { fault = true }
check_entry c p (some m) h = if m.conn == c then free_memory (some p) h else h

-- The loop of `DeleteFromTimerQueue`, which starts over after each entry that it erases, so that an
-- entry that stays may be read again: the entries that stay, the heap, and how many were erased.
pub delete_entries : ℕ → List (ℕ × ℕ) → Heap → List (ℕ × ℕ) × Heap × ℕ
delete_entries c [] h = ([], h, 0)
delete_entries c ((t, p) ∷ rest) h =
    let (stay, g, n) = delete_entries c rest (check_entry c p (h.cells p) h) in
    if points_to c (h.cells p) then (stay, g, n + 1) else ((t, p) ∷ stay, g, n)

-- `DeleteFromTimerQueue`
pub delete_from_timer_queue : ℕ → Socket → Socket
delete_from_timer_queue c s =
    let (stay, h, n) = delete_entries c s.timer_queue_map s.heap in
    let t = record s {
      heap = h;
      timer_queue_map = stay;
      timer_queue_size = s.timer_queue_size - n;
    } in
    if t.timer_queue_size == 0 then t else set_timer_value t

free_entries : List (ℕ × ℕ) → Heap → Heap
free_entries [] h = h
free_entries ((t, p) ∷ rest) h = free_entries rest (free_memory (some p) h)

-- `clearAllFromTimerQueue`
pub clear_all_from_timer_queue : Socket → Socket
clear_all_from_timer_queue s = record s {
  heap = free_entries s.timer_queue_map s.heap;
  timer_queue_size = s.timer_queue_size - length s.timer_queue_map;
  timer_queue_map = [];
}
