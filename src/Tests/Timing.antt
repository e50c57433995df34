-- ===== src/Tests/Timing.antt =====
-- Tests of the timer queue.
use linux_communication.Common.{ℕ, ◌+◌, ◌≡◌, ◌==◌, if◌then◌else◌, refl, ◌∷◌, [], arith, some}
use linux_communication.Socket.{Socket}
use linux_communication.Timer.{add_to_timer_queue, get_earliest_time, collect_over_time}
use linux_communication.Common.{length, false, none, ◌&&◌}
use linux_communication.Timer.{delete_from_timer_queue, points_to}
use linux_communication.Timer.Deletion.{has_block, delete_from_timer_queue-Deletes}
use linux_communication.Timer.Order.{IsTimed, entries_of, add_to_timer_queue-IsTimed}
use linux_communication.Timer.Expiry.{Collected, due_blocks, collect_over_time-Collected}
use linux_communication.Tests.States.{quiet, one_block, ping_block}

-- One client is to be checked at time 10.
abbrev waiting : Socket
waiting = record (quiet) {
  heap = one_block;
  timer_queue_map = (10, 0) ∷ [];
  timer_queue_size = 1;
  timer_value = 10;
}

waiting-IsTimed : IsTimed waiting
unfolding get_earliest_time
waiting-IsTimed = record { sorted = (tt, tt); counted = refl; first = refl }

add_to_timer_queue-IsTimed_example :
    let t = add_to_timer_queue 3 2 waiting in
    IsTimed t
    × (t.timer_value ≡ get_earliest_time t.timer_queue_map 10)
    × (t.heap.cells 1 ≡ some (record { conn = 2; seq = 1; payload = [] }))
    × ((r : ℕ)
        → entries_of r t.timer_queue_map
          ≡ (if 1 == r then 1 else 0) + entries_of r waiting.timer_queue_map)
add_to_timer_queue-IsTimed_example = add_to_timer_queue-IsTimed 3 2 waiting waiting-IsTimed

collect_over_time-Collected_example :
    (u : Socket) × (collect_over_time 2 11 waiting
      ≡ some (due_blocks 11 waiting.timer_queue_map, u))
    × Collected 11 waiting u
collect_over_time-Collected_example =
    collect_over_time-Collected 2 11 waiting (record { ordered = (tt, tt); counted = refl })
      (omega arith) (omega arith)

-- Deleting connection 1, whose entry it is, empties the queue of `waiting`.
delete_from_timer_queue-Deletes_example :
    let t = delete_from_timer_queue 1 waiting in
    (t.timer_queue_map ≡ [])
    × (t.timer_queue_size ≡ length t.timer_queue_map)
    × (t.heap.fault ≡ false)
    × ((q : ℕ)
        → t.heap.cells q ≡ (
            if has_block q waiting.timer_queue_map && points_to 1 (waiting.heap.cells q)
            then none
            else waiting.heap.cells q))
unfolding points_to
delete_from_timer_queue-Deletes_example =
    delete_from_timer_queue-Deletes 1 waiting (tt, tt) ((ping_block, refl), tt) refl
