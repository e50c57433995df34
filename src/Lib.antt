-- ===== src/Lib.antt =====
-- Verification library of the LinuxCommunication server, an epoll TCP server with a connection
-- pool, a thread that sends, one that recycles connections and one that watches a timer queue.
--
-- Parts and files (paths are those of the repository):
--   Crc       server/misc/ser_crc32.cxx: `reflect`, `init_crc32_table`, `get_crc` are Reflect,
--             Init_CRC32_Table and Get_CRC; Crc/Serial is the checksum one bit at a time.
--   Packet    server/_include/ser_pkg_defs.h: header fields in network order, limits, PkgState.
--   Memory    server/misc/ser_memory.cxx: a heap of blocks, each a MSG_HEADER and the bytes behind
--             it. Freeing a dead address and writing outside a buffer set `fault`.
--   Socket    server/_include/ser_socket.h: the fields of ser_connection_t and SerSocket.
--   Connection, Pool
--             server/net/ser_socket_connection.cxx: GetOneToUse, PutOneToFree, the free list, the
--             recycling queue and the turns of its thread.
--   Receive   server/net/ser_wait_request_handler.cxx: ser_recv_pkg, ser_read_request_handler,
--             ser_wait_request_process_pkg, ser_wait_request_in_msgqueue.
--   Logic     server/logic/ser_logic_socket.cxx: ser_thread_process_message and its handlers.
--   Epoll     server/net/ser_socket.cxx: ser_epoll_oper_event, ser_epoll_process_events.
--   Send      server/net/ser_socket.cxx and server/net/ser_wait_request_handler.cxx: the sending
--             thread, ser_send_pkg and ser_write_request_handler.
--   Timer     server/net/ser_socket_timer.cxx: the multimap as a list in the order of its keys.
--   Threads   server/misc/ser_threadpool.cxx: Create, ThreadFunc, InMsgRecvQueueAndSignal, Call and
--             StopAll as steps of threads.
--   Accept    server/net/ser_socket_accept.cxx: ser_event_accept.
--   Config    server/app/ser_configer.cxx and Rtrim, Ltrim of server/app/ser_function.cxx.
--   Log       server/app/ser_log.cxx: ser_vslprintf and ser_sprinf_number on a buffer (Log/Format,
--             Log/Number), ser_log_error_core, ser_log_stderr, ser_log_init (Log/Write).
--   Listen    server/net/ser_socket.cxx: ser_open_listening_sockets, ser_epoll_init,
--             ser_close_listening_sockets.
--   Signal    server/signal/ser_signal.cxx: ser_init_signals, ser_signal_handler,
--             ser_process_get_status.
--   Title     MoveEnviron and SetProcessTitle of server/app/ser_function.cxx, and the title that
--             server/proc/ser_process_cycle.cxx makes.
--   Start     server/net/ser_socket.cxx: ReadConf, ser_init_subproc, ser_shutdown_subproc.
--   Main      main and FreeSource of server/app/server.cxx, server/proc/ser_daemon.cxx, and the
--             start of the workers in server/proc/ser_process_cycle.cxx.
--   Cycle     server/proc/ser_process_cycle.cxx and server/proc/ser_event.cxx: the master up to its
--             loop and in it, a worker up to its loop and in it.
--   Serve     the round of ThreadFunc of server/misc/ser_threadpool.cxx that handles a packet,
--             between Receive, Logic and Send.
--   Server    all of these on one state: the turns of the threads of a worker, in any order.
--   Locks     server/_include/ser_lock.h: SerLock, and the locks and unlocks of the functions of all
--             parts.
--   Singleton server/_include/ser_macros.h: GetInstance as steps of threads, DEL_PTR and
--             GarCollector.
--   Common    shared names, lists, words, bits; Tests: runs on concrete values.
--
-- A read event of Epoll calls Receive, which queues whole packets for Logic; Logic queues replies
-- for Send; Pool hands out and takes back the connections that all of them use, and a changed
-- sequence number tells them that a packet is stale.
--
-- The state is one record, `Socket`; pointers to connections and blocks are numbers. Operations
-- run under the program's mutexes and are atomic steps here. The results of recv, send, epoll_wait
-- and epoll_ctl, the time and the contents of new memory are arguments. Lengths, sequence numbers,
-- the register of the checksum and mOnlineUserCount wrap around at their width; mThrowSendCount,
-- mTimerQueueSize and the semaphores have no bound here. Loops that start over (`lblRRTD`) or that
-- take entries from the timer queue run on fuel: one round for each entry and one more, which the
-- theorems show to be enough.
-- The loop of ser_vslprintf has a round for each character of the format, and each takes at least
-- one; that of the digits has 64, as a number of 64 bits has no more digits in any base.
--
-- The endless loops of the master and of the workers are sequences of turns of any length.
--
-- Not modelled: which data a mutex protects, since operations under a mutex are atomic steps here;
-- in which order the functions take them is in Locks. Whether the kernel took what epoll_ctl was
-- asked for: both senders only log its failure. `send_calls`, `closed_fds` and `freed_conns` of the
-- state record what the code did outside of it. Names that the timer file and PingHandler spell in
-- two ways are read as one.
pub mod Common
pub mod Crc
pub mod Packet
pub mod Memory
pub mod Socket
pub mod Connection
pub mod Pool
pub mod Receive
pub mod Logic
pub mod Epoll
pub mod Send
pub mod Timer
pub mod Accept
pub mod Threads
pub mod Config
pub mod Listen
pub mod Start
pub mod Main
pub mod Serve
pub mod Log
pub mod Signal
pub mod Title
pub mod Singleton
pub mod Locks
pub mod Server
pub mod Cycle
pub mod Tests
