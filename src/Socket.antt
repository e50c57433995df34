-- ===== src/Socket.antt =====
-- _include/ser_socket.h: the state that SerSocket keeps in one worker process, with the objects
-- that its lists point to. Connection objects are named by their addresses, numbers, and stand
-- in a family `conns`; message blocks stand on the heap. The receive queue of the thread pool,
-- which lives in g_threadpool, stands beside them. Each operation is one step on this state:
-- the code runs it under the mutex of the lists that it touches. Log calls are left out.
use linux_communication.Common.{
  ◌≡◌, ap, update-update, ℕ, List, Bool, true, false, Option, ℤ, update,
}
use linux_communication.Packet.{PkgState, pkg_hd_init, pkg_hd_recving, pkg_bd_init, pkg_bd_recving}
use linux_communication.Memory.{Heap}

-- What `mRecvLocation` and `mSendLocation` point into: the array `mPkgHeadInfo` of the
-- connection, or a block on the heap, at an offset behind its MSG_HEADER.
pub data Location : Type 0 where
  nowhere : Location
  head_info : ℕ → Location
  in_block : ℕ → ℕ → Location

-- The event handlers that `mRHandler` and `mWHandler` point to.
pub data EventHandler : Type 0 where
  no_handler event_accept read_request write_request : EventHandler

-- `ser_connection_t`
pub record Connection : Type 0 where
  pub sock_fd : ℕ
  pub listening : Option ℕ
  pub curr_sequence : ℕ
  pub sock_addr : List ℕ
  pub epoll_events : ℕ
  pub r_handler : EventHandler
  pub w_handler : EventHandler
  pub recv_stat : PkgState
  pub pkg_head_info : List ℕ
  pub recv_location : Location
  pub recv_length : ℕ
  pub recv_pkg_data : Option ℕ
  pub throw_send_count : ℤ
  pub send_location : Location
  pub send_length : ℕ
  pub send_pkg_data : Option ℕ
  pub in_recy_time : ℕ
  pub last_ping_time : ℕ

-- `ser_listening_t`, in a list by its index.
pub record Listening : Type 0 where
  pub port : ℤ
  pub fd : ℕ
  pub connection : Option ℕ

-- `SerSocket`
pub record Socket : Type 0 where
  pub heap : Heap
  pub conns : ℕ → Connection
  -- the address of the next connection object that is allocated
  pub next_conn : ℕ
  pub connection_list : List ℕ
  pub free_connection_list : List ℕ
  pub recy_connection_list : List ℕ
  pub recy_waite_time : ℕ
  pub msg_send_queue : List ℕ
  pub send_queue_sem : ℕ
  pub msg_recv_queue : List ℕ
  -- the descriptors that `close` was called on, the latest first
  pub closed_fds : List ℕ
  -- what the sending thread has given to `send`, the latest first: descriptor, place and length
  pub send_calls : List (ℕ × Location × ℕ)
  -- the connection objects that have been destroyed and freed, the latest first
  pub freed_conns : List ℕ
  pub if_kick_timer : ℕ
  pub wait_time : ℕ
  pub if_time_out_kick : ℕ
  -- the multimap in the order of its keys, each with its MSG_HEADER block
  pub timer_queue_map : List (ℕ × ℕ)
  pub timer_queue_size : ℕ
  pub timer_value : ℕ
  pub online_user_count : ℕ

abbrev pub put_connection : ℕ → Connection → Socket → Socket
put_connection c k s = record s { conns = update s.conns c k }

-- `PkgState` values are compared as the numbers that they are.
abbrev pub same_state : PkgState → PkgState → Bool
same_state pkg_hd_init pkg_hd_init = true
same_state pkg_hd_recving pkg_hd_recving = true
same_state pkg_bd_init pkg_bd_init = true
same_state pkg_bd_recving pkg_bd_recving = true
same_state _ _ = false

-- Of two writes of one connection the second counts.
pub put_connection_twice :
    (c : ℕ) (j k : Connection) (s : Socket)
    → put_connection c k (put_connection c j s) ≡ put_connection c k s
put_connection_twice c j k s = ap (λ f. record s { conns = f }) (update-update s.conns c j k)
