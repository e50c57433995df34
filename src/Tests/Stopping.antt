-- ===== src/Tests/Stopping.antt =====
-- Runs of the start and the end of a worker.
use linux_communication.Common.{◌≡◌, refl, [], ◌∷◌, none, some, Bool, true, false, pos}
use linux_communication.Config.{get_int_default}
use linux_communication.Socket.{Socket}
use linux_communication.Start.{
  Settings, at_least_five, read_conf, Resource, send_queue_mutex, connection_mutex,
  recy_connection_mutex, send_queue_semaphore, set_up, ser_init_subproc, ser_shutdown_subproc,
  free_received, clear_msg_recv_queue,
}
use linux_communication.Main.{
  fork_failed, in_parent, ser_start_worker_processes, free_source, in_child, is_daemon, redirect,
  ser_daemon,
}
use linux_communication.Start.Clearing.{Frees, ser_shutdown_subproc-Frees}
use linux_communication.Tests.States.{quiet, one_block, ping_block}

-- Without a setting, MaxWaitTime is set to five seconds at least.
abbrev zeros : Settings
zeros = record {
  listen_port_count = pos 1;
  worker_connections = pos 1;
  recy_waite_time = pos 60;
  if_kick_timer = pos 0;
  wait_time = pos 0;
  if_time_out_kick = pos 0;
  flood_ak_enable = pos 0;
  flood_time_interval = pos 0;
  flood_kick_count = pos 0;
}

defaults : (read_conf (λ x y. true) (λ x. pos 0) [] zeros).wait_time ≡ pos 5
unfolding read_conf at_least_five get_int_default
defaults = refl

-- No semaphore.
abbrev no_semaphore : Resource → Bool
no_semaphore send_queue_semaphore = false
no_semaphore _ = true

stops_at_semaphore :
    ser_init_subproc no_semaphore
    ≡ (false, send_queue_mutex ∷ connection_mutex ∷ recy_connection_mutex ∷ [])
unfolding ser_init_subproc set_up
stops_at_semaphore = refl

-- One packet waits to be sent, and there are two connections.
abbrev waiting : Socket
waiting = record (quiet) { heap = one_block; msg_send_queue = 0 ∷ []; connection_list = 2 ∷ 1 ∷ [] }

ser_shutdown_subproc-Frees_example :
    Frees (0 ∷ []) one_block (ser_shutdown_subproc waiting).heap
    × ((ser_shutdown_subproc waiting).msg_send_queue ≡ [])
    × ((ser_shutdown_subproc waiting).connection_list ≡ [])
    × ((ser_shutdown_subproc waiting).freed_conns ≡ 1 ∷ 2 ∷ [])
ser_shutdown_subproc-Frees_example =
    ser_shutdown_subproc-Frees waiting (tt, tt) ((ping_block, refl), tt)

-- One packet waits for a thread.
recv_queue_freed :
    (clear_msg_recv_queue
      (record (quiet) { heap = one_block; msg_recv_queue = 0 ∷ [] })).msg_recv_queue
    ≡ []
unfolding clear_msg_recv_queue free_received
recv_queue_freed = refl

-- A failed fork is passed over.
two_workers :
    ser_start_worker_processes (in_parent 40 ∷ fork_failed ∷ in_parent 41 ∷ []) ≡ 40 ∷ 41 ∷ []
unfolding ser_start_worker_processes
two_workers = refl

log_closed :
    free_source (record { level = pos 6; fd = some 5 })
    ≡ (record { level = pos 6; fd = none }, 5 ∷ [])
unfolding free_source
log_closed = refl

detached :
    ser_daemon in_child (record {
      setsid = true;
      devnull = some 3;
      dup_stdin = true;
      dup_stdout = true;
      close = true;
    })
    ≡ is_daemon
unfolding ser_daemon redirect
detached = refl
