-- ===== src/Tests/Pools.antt =====
-- Tests of the connection pool.
use linux_communication.Common.{
  ℕ, zero, suc, ◌≡◌, ◌==◌, if◌then◌else◌, refl, ◌∷◌, [], arith, Option, some, none, true, false,
}
use linux_communication.Memory.{Block, Heap}
use linux_communication.Socket.{Connection, Socket}
use linux_communication.Connection.{put_one_to_free}
use linux_communication.Connection.Release.{put_one_to_free_twice}
use linux_communication.Pool.{
  ser_get_free_connection, ser_free_connection, ser_in_recy_connection, still_waits,
  recy_connection_turn,
}
use linux_communication.Pool.Invariant.{
  IsPooled, Takes, in_use, ser_get_free_connection-Takes, give_back-IsPooled,
}
use linux_communication.Pool.Recycle.{
  Recycles, recy_connection_turn-Recycles, recy_connection_turn-IsPooled,
}
use linux_communication.Tests.States.{quiet, ready_connection, ping_block}

-- Three objects: 0 is free, 1 waits in the queue, 2 is in use.
abbrev three_objects : Socket
three_objects = record (quiet) {
  next_conn = 3;
  connection_list = 0 ∷ 1 ∷ 2 ∷ [];
  free_connection_list = 0 ∷ [];
  recy_connection_list = 1 ∷ [];
}

three_objects-IsPooled : IsPooled three_objects
three_objects-IsPooled = record {
  parts = λ c. ground arith;
  once = λ c. ground arith;
  fresh = λ c h. ground arith;
}

ser_get_free_connection-Takes_example :
    Takes 9 three_objects
      (ser_get_free_connection 9 5 three_objects).0
      (ser_get_free_connection 9 5 three_objects).1
ser_get_free_connection-Takes_example =
    ser_get_free_connection-Takes 9 5 three_objects three_objects-IsPooled

give_back-IsPooled_run :
    IsPooled (ser_free_connection 2 three_objects)
    × ((d : ℕ)
        → in_use (ser_free_connection 2 three_objects) d
          ≡ (if d == 2 then 0 else in_use three_objects d))
    × IsPooled (ser_in_recy_connection 5 2 three_objects)
    × ((d : ℕ)
        → in_use (ser_in_recy_connection 5 2 three_objects) d
          ≡ (if d == 2 then 0 else in_use three_objects d))
give_back-IsPooled_run = give_back-IsPooled 5 2 three_objects three_objects-IsPooled refl

recy_connection_turn-Recycles_example :
    Recycles
      (still_waits 70 0 three_objects)
      three_objects
      (recy_connection_turn 70 0 three_objects)
recy_connection_turn-Recycles_example = recy_connection_turn-Recycles 70 0 three_objects

recy_connection_turn-IsPooled_run :
    IsPooled (recy_connection_turn 70 0 three_objects)
    × ((c : ℕ) → in_use (recy_connection_turn 70 0 three_objects) c ≡ in_use three_objects c)
recy_connection_turn-IsPooled_run =
    recy_connection_turn-IsPooled 70 0 three_objects three_objects-IsPooled

abbrev two_cells : ℕ → Option Block
two_cells zero = some ping_block
two_cells (suc zero) = some ping_block
two_cells (suc (suc n)) = none

abbrev two_blocks : Heap
two_blocks = record { cells = two_cells; next = 2; fault = false }

abbrev both : Connection
both = record (ready_connection) { send_pkg_data = some 0; recv_pkg_data = some 1 }

put_one_to_free_twice_run :
    ((put_one_to_free both two_blocks).1.fault ≡ true)
    × ((put_one_to_free both two_blocks).1.cells 0 ≡ some ping_block)
put_one_to_free_twice_run =
    put_one_to_free_twice both two_blocks 1 0 ping_block ping_block refl refl refl refl
      (omega arith)
