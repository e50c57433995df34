-- ===== src/Start.antt =====
-- net/ser_socket.cxx: SerSocket, ~SerSocket, Initialize, ReadConf, ser_init_subproc,
-- ser_shutdown_subproc, ser_clear_send_queue; net/ser_socket_connection.cxx: ser_clear_connection;
-- misc/ser_threadpool.cxx: ClearMsgRecvQueue.
-- What the pthread and semaphore calls return is an argument. The joins of ser_shutdown_subproc
-- wait for the threads to end; what stands here follows them. Log calls are left out.
pub mod Clearing
pub mod Ports
use linux_communication.Common.{
  ℕ, zero, suc, ◌+◌, List, [], ◌∷◌, Bool, true, false, none, some, ℤ, pos, negsuc, codes, ltb,
  if◌then◌else◌,
}
use linux_communication.Config.{ConfItem, get_int_default}
use linux_communication.Listen.{Calls, Sockets, ser_open_listening_sockets}
use linux_communication.Memory.{free_memory}
use linux_communication.Socket.{Socket}

-- The fields that ReadConf sets.
pub record Settings : Type 0 where
  pub listen_port_count : ℤ
  pub worker_connections : ℤ
  pub recy_waite_time : ℤ
  pub if_kick_timer : ℤ
  pub wait_time : ℤ
  pub if_time_out_kick : ℤ
  pub flood_ak_enable : ℤ
  pub flood_time_interval : ℤ
  pub flood_kick_count : ℤ

-- `(n > 5) ? n : 5`
unfoldable pub at_least_five : ℤ → ℤ
at_least_five (pos n) = if ltb 5 n then pos n else pos 5
at_least_five (negsuc n) = pos 5

-- `ReadConf`
unfoldable pub read_conf :
    (List ℕ → List ℕ → Bool) → (List ℕ → ℤ) → List ConfItem → Settings → Settings
read_conf same_name atoi items s =
    let get = get_int_default same_name atoi in
    record {
      listen_port_count = get (codes "ListenPortCount") s.listen_port_count items;
      worker_connections = get (codes "WorkerConnections") s.worker_connections items;
      recy_waite_time = get (codes "RecyConnectionWaiteTime") s.recy_waite_time items;
      if_kick_timer = get (codes "WaitTimeEnable") (pos 0) items;
      wait_time = at_least_five (get (codes "MaxWaitTime") s.wait_time items);
      if_time_out_kick = get (codes "Sock_TimeOutKick") (pos 0) items;
      flood_ak_enable = get (codes "Sock_FloodAttackKickEnable") (pos 0) items;
      flood_time_interval = get (codes "Sock_FloodTimeInterval") (pos 100) items;
      flood_kick_count = get (codes "Sock_FloodKickCounter") (pos 10) items;
    }

-- What ser_init_subproc sets up.
pub data Resource : Type 0 where
  send_queue_mutex connection_mutex recy_connection_mutex : Resource
  send_queue_semaphore send_queue_thread recy_connection_thread : Resource

-- The calls, in order, up to the first that fails: whether none does, and what was set up.
unfoldable pub set_up : (Resource → Bool) → List Resource → Bool × List Resource
set_up succeeds [] = (true, [])
set_up succeeds (r ∷ rs) =
    let (ok, made) = set_up succeeds rs in if succeeds r then (ok, r ∷ made) else (false, [])

-- `ser_init_subproc`
unfoldable pub ser_init_subproc : (Resource → Bool) → Bool × List Resource
ser_init_subproc succeeds = set_up succeeds (
    send_queue_mutex ∷ connection_mutex ∷ recy_connection_mutex ∷ send_queue_semaphore
    ∷ send_queue_thread ∷ recy_connection_thread ∷ [])

-- The loop of ser_clear_send_queue.
pub free_packets : List ℕ → Socket → Socket
free_packets [] s = s
free_packets (p ∷ ps) s =
    free_packets ps (record s { msg_send_queue = ps; heap = free_memory (some p) s.heap })

-- `ser_clear_send_queue`
pub ser_clear_send_queue : Socket → Socket
ser_clear_send_queue s = free_packets s.msg_send_queue s

-- The loop of `ser_clear_connection` over the list of all connections: each object is taken from the
-- front, destroyed and freed; the other lists keep their pointers.
pub clear_connections : List ℕ → Socket → Socket
clear_connections [] s = s
clear_connections (c ∷ cs) s =
    clear_connections cs (record s { connection_list = cs; freed_conns = c ∷ s.freed_conns })

-- `ser_clear_connection`
pub ser_clear_connection : Socket → Socket
ser_clear_connection s = clear_connections s.connection_list s

-- `ser_shutdown_subproc`, from `sem_post` on, after the threads have ended.
pub ser_shutdown_subproc : Socket → Socket
ser_shutdown_subproc s =
    ser_clear_connection (ser_clear_send_queue (record s { send_queue_sem = s.send_queue_sem + 1 }))

-- The loop of ClearMsgRecvQueue.
unfoldable pub free_received : List ℕ → Socket → Socket
free_received [] s = s
free_received (p ∷ ps) s =
    free_received ps (record s { msg_recv_queue = ps; heap = free_memory (some p) s.heap })

-- `ClearMsgRecvQueue`, which is all that `~SerThreadPool` does.
unfoldable pub clear_msg_recv_queue : Socket → Socket
clear_msg_recv_queue s = free_received s.msg_recv_queue s

-- `SerSocket()`: four fields are set, of which `mEpollFd` is not one of these; the others are what
-- the memory holds.
unfoldable pub new_settings : Settings → Settings
new_settings junk = record junk {
  listen_port_count = pos 1;
  worker_connections = pos 1;
  recy_waite_time = pos 60;
}

-- `~SerSocket()`: the listening sockets are deleted; their descriptors are not closed.
delete_socket : Sockets → Sockets
delete_socket s = record s { listening = [] }

module _ (same_name : List ℕ → List ℕ → Bool) (atoi : List ℕ → ℤ) (items : List ConfItem) where
  -- The port of round i of ser_open_listening_sockets; `key i` is "ListenPort<i>".
  unfoldable pub listen_port : (ℕ → List ℕ) → ℕ → ℤ
  listen_port key i = get_int_default same_name atoi (key i) (pos 10000) items

  -- `Initialize`
  pub initialize : (ℕ → List ℕ) → (ℕ → Calls) → Settings → Sockets → Bool × Settings × Sockets
  initialize key calls s sockets =
      let t = read_conf same_name atoi items s in
      let (ok, u) =
        ser_open_listening_sockets t.listen_port_count (listen_port key) calls sockets in
      (ok, t, u)
