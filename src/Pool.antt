-- ===== src/Pool.antt =====
-- net/ser_socket_connection.cxx: the connection pool of SerSocket.
pub mod Invariant
pub mod Recycle
use linux_communication.Common.{
  ℕ, zero, suc, ◌+◌, ◌%◌, ◌^◌, List, [], ◌∷◌, ◌++◌, Bool, true, false, ◌&&◌, Option, none, some,
  update, ltb, ◌==◌, if◌then◌else◌, length,
}
use linux_communication.Socket.{Socket}
use linux_communication.Connection.{new_connection, get_one_to_use, put_one_to_free}

-- One round of `ser_init_connection`, at the time `now`.
init_one : ℕ → Socket → Socket
init_one now s = record s {
  conns = update s.conns s.next_conn (get_one_to_use now new_connection);
  next_conn = s.next_conn + 1;
  connection_list = s.connection_list ++ (s.next_conn ∷ []);
  free_connection_list = s.free_connection_list ++ (s.next_conn ∷ []);
}

-- `ser_init_connection`, for `mWorkerConnections` rounds.
pub ser_init_connection : ℕ → ℕ → Socket → Socket
unfolding init_one
ser_init_connection zero now s = s
ser_init_connection (suc n) now s = ser_init_connection n now (init_one now s)

unfoldable pub get_from : List ℕ → ℕ → ℕ → Socket → ℕ × Socket
get_from (c ∷ rest) sockfd now s = (
  c,
  record s {
    free_connection_list = rest;
    conns = update s.conns c (record (get_one_to_use now (s.conns c)) { sock_fd = sockfd });
  },
)
get_from [] sockfd now s = (
  s.next_conn,
  record s {
    conns =
        update s.conns s.next_conn
          (record (get_one_to_use now new_connection) { sock_fd = sockfd });
    next_conn = s.next_conn + 1;
    connection_list = s.connection_list ++ (s.next_conn ∷ []);
  },
)

-- `ser_get_free_connection(sockfd)`: the front of the free list, or a new object.
unfoldable pub ser_get_free_connection : ℕ → ℕ → Socket → ℕ × Socket
unfolding get_from
ser_get_free_connection sockfd now s = get_from s.free_connection_list sockfd now s

-- `ser_free_connection`
pub ser_free_connection : ℕ → Socket → Socket
ser_free_connection c s =
    let (k, h) = put_one_to_free (s.conns c) s.heap in
    record s {
      heap = h;
      conns = update s.conns c k;
      free_connection_list = s.free_connection_list ++ (c ∷ []);
    }

-- `ser_close_connection`: the object goes back to the pool first. `close` is recorded; its own
-- failure is only logged.
unfoldable pub ser_close_connection : ℕ → Socket → Socket
unfolding ser_free_connection
ser_close_connection c s =
    let t = ser_free_connection c s in record t { closed_fds = (t.conns c).sock_fd ∷ t.closed_fds }

-- `ser_in_recy_connection`, at the time `now`.
unfoldable pub ser_in_recy_connection : ℕ → ℕ → Socket → Socket
ser_in_recy_connection now c s =
    let k = s.conns c in
    record s {
      conns =
          update s.conns c
            (record k { in_recy_time = now; curr_sequence = (k.curr_sequence + 1) % 2 ^ 64 });
      recy_connection_list = s.recy_connection_list ++ (c ∷ []);
    }

-- The test of the loop at `lblRRTD` that makes it go on to the next connection.
abbrev pub still_waits : ℕ → ℕ → Socket → ℕ → Bool
still_waits now stop s c = ltb now ((s.conns c).in_recy_time + s.recy_waite_time) && (stop == 0)

-- The `for` loop: the first connection of the list that does not wait, and the list without it.
pub find_due : (ℕ → Bool) → List ℕ → Option (ℕ × List ℕ)
find_due waits [] = none
find_due waits (c ∷ cs) = elim (waits c) [
  | false ↦ some (c, cs)
  | true ↦ elim (find_due waits cs) [ none ↦ none | some (d, rest) ↦ some (d, c ∷ rest) ]
]

-- From the label `lblRRTD` on: `goto` starts over after each connection that is freed.
pub recycle_due : ℕ → ℕ → ℕ → Socket → Socket
recycle_due zero now stop s = s
recycle_due (suc fuel) now stop s =
    elim (find_due (still_waits now stop s) s.recy_connection_list) [
      | none ↦ s
      | some (c, rest) ↦
          recycle_due fuel now stop
            (ser_free_connection c (record s { recy_connection_list = rest }))
    ]

-- From the label `lblRRTD2` on: the front is freed until the list is empty.
pub recycle_all : List ℕ → Socket → Socket
recycle_all [] s = s
recycle_all (c ∷ rest) s =
    recycle_all rest (ser_free_connection c (record s { recy_connection_list = rest }))

-- One turn of the loop of `ser_recy_connection_thread`, with `g_stopEvent` = `stop`. A restart
-- for each connection of the list and a last scan are turns enough.
pub recy_connection_turn : ℕ → ℕ → Socket → Socket
unfolding recycle_due recycle_all
recy_connection_turn now stop s =
    let t = recycle_due (suc (length s.recy_connection_list)) now stop s in
    if stop == 1 then recycle_all t.recy_connection_list t else t
