-- ===== src/Cycle/Starting.antt =====
-- How a worker comes to its loop.
use linux_communication.Common.{
  ℕ, zero, suc, ◌+◌, ◌≡◌, ◌≢◌, refl, ◌∙◌, ap, List, [], ◌∷◌, Bool, true, false, Option, none, some,
  ℤ, pos, codes, if_true,
}
use linux_communication.Config.{ConfItem, get_string, get_int_default}
use linux_communication.Socket.{Socket, Listening}
use linux_communication.Pool.Invariant.{IsPooled}
use linux_communication.Listen.{rounds}
use linux_communication.Listen.Registering.{AllListen, ser_epoll_init-AllListen}
use linux_communication.Start.{
  Resource, send_queue_mutex, connection_mutex, recy_connection_mutex, send_queue_semaphore,
  send_queue_thread, recy_connection_thread, set_up, ser_init_subproc,
}
use linux_communication.Threads.{Workers, idle, make_threads, create}
use linux_communication.Threads.Invariant.{range}
use linux_communication.Title.{set_process_title}
use linux_communication.Cycle.{
  ser_process_worker, WorkerCalls, Worker, WorkerRun, exits, crashes, loops, init_socket, init_pool,
  ser_worker_process_init, name_worker, ser_worker_process_cycle,
}

make_threads-range :
    (made : ℕ → Bool) (i n : ℕ)
    → ((j : ℕ) → made j ≡ true)
    → make_threads made i n ≡ (true, range i n)
unfolding make_threads
make_threads-range made i zero e = refl
make_threads-range made i (suc n) e = rw (make_threads-range made (i + 1) n e, e i) refl

set_up-all :
    (succeeds : Resource → Bool) (rs : List Resource)
    → ((r : Resource) → succeeds r ≡ true)
    → set_up succeeds rs ≡ (true, rs)
unfolding set_up
set_up-all succeeds [] e = refl
set_up-all succeeds (r ∷ rs) e = rw (set_up-all succeeds rs e, e r) refl

abbrev pub all_resources : List Resource
all_resources =
    send_queue_mutex ∷ connection_mutex ∷ recy_connection_mutex ∷ send_queue_semaphore
    ∷ send_queue_thread ∷ recy_connection_thread ∷ []

-- The worker `v` in front of its loop, with `size` threads and `text` for a title, made from `w`.
pub record Started (size environ_length : ℕ) (text : List ℕ) (ls : List Listening) (w v : Worker)
    : Type 0 where
  pub takes_signals : v.mask ≡ []
  pub is_worker : v.process.kind ≡ ser_process_worker
  pub pool : v.threads ≡ idle (range 0 size)
  pub set : v.resources ≡ all_resources
  pub pooled : IsPooled v.socket
  pub listens : AllListen v.socket 0 ls v.listening
  pub titled : v.title ≡ set_process_title environ_length text w.title

no_loop : (code : ℤ) (v : Worker) → exits code ≢ loops v
no_loop code v e = cc e

-- A title alone leads no worker into its loop.
name_worker-loops :
    (environ_length : ℕ) (title : Option (List ℕ)) (r : WorkerRun) (v : Worker)
    → name_worker environ_length title r ≡ loops v
    → (w : Worker) × (text : List ℕ) × (r ≡ loops w) × (title ≡ some text)
unfolding name_worker
name_worker-loops environ_length title (exits code) v e = absurd (no_loop code v e)
name_worker-loops environ_length title crashes v e = absurd (cc e)
name_worker-loops environ_length none (loops w) v e = absurd (cc e)
name_worker-loops environ_length (some text) (loops w) v e = (w, text, refl, refl)

init_socket-loops :
    (calls : WorkerCalls) (count : ℤ) (now : ℕ) (set : Bool × List Resource) (pool : Workers)
    (ls : List Listening) (w v : Worker)
    → init_socket calls count now set pool ls w ≡ loops v
    → set.0 ≡ true
unfolding init_socket
init_socket-loops calls count now (false, rs) pool ls w v e = absurd (no_loop _ v e)
init_socket-loops calls count now (true, rs) pool ls w v e = refl

init_pool-loops :
    (calls : WorkerCalls) (count : ℤ) (now : ℕ) (made : Bool × Workers) (ls : List Listening)
    (w v : Worker)
    → init_pool calls count now made ls w ≡ loops v
    → (made.0 ≡ true) × ((ser_init_subproc calls.set_up).0 ≡ true)
unfolding init_pool
init_pool-loops calls count now (false, pool) ls w v e = absurd (no_loop _ v e)
init_pool-loops calls count now (true, pool) ls w v e =
    (refl, init_socket-loops calls count now (ser_init_subproc calls.set_up) pool ls w v e)

module _ (same_name : List ℕ → List ℕ → Bool) (atoi : List ℕ → ℤ) (items : List ConfItem) where
  -- "ThreadPoolSize", or 5.
  abbrev pub pool_size : ℕ
  pool_size = rounds (get_int_default same_name atoi (codes "ThreadPoolSize") (pos 5) items)

  -- A worker on a well-formed pool, whose calls all succeed and whose title is in the
  -- configuration, comes to its loop: it takes every signal, has as many threads as
  -- "ThreadPoolSize" says, or 5, has its mutexes, its semaphore and its two threads, and every
  -- listening socket accepts clients on a connection of the pool.
  pub ser_worker_process_cycle-Started :
      (calls : WorkerCalls) (count : ℤ) (environ_length now : ℕ) (ls : List Listening) (w : Worker)
      (text : List ℕ)
      → IsPooled w.socket
      → calls.unblocks ≡ true
      → ((i : ℕ) → calls.made i ≡ true)
      → ((r : Resource) → calls.set_up r ≡ true)
      → calls.created ≡ true
      → ((i : ℕ) → calls.adds i ≡ true)
      → get_string same_name (codes "WorkerProcessTitle") items ≡ some text
      → (v : Worker) × (ser_worker_process_cycle same_name atoi items calls count environ_length now
            ls w
          ≡ loops v)
        × Started pool_size environ_length text ls w v
  unfolding ser_worker_process_cycle ser_worker_process_init init_pool init_socket name_worker
      create ser_init_subproc
  ser_worker_process_cycle-Started calls count environ_length now ls w text p u m r c a t =
      let (ms, k, e, q, h) =
        ser_epoll_init-AllListen count calls.created now calls.adds ls w.socket p c a in
      let pool : Workers = idle (range 0 pool_size) in
      let x = record w { process = record (w.process) { kind = ser_process_worker } } in
      let y = record x { mask = [] } in
      let z : Worker = record y {
        threads = pool;
        resources = all_resources;
        listening = ms;
        socket = k;
      } in
      let title = get_string same_name (codes "WorkerProcessTitle") items in
      (
        record z { title = set_process_title environ_length text w.title },
        ap
              (λ i.
                name_worker environ_length title
                  (init_pool calls count now (create calls.made pool_size) ls i))
              (if_true calls.unblocks y x u)
            ∙ ap (λ made. name_worker environ_length title (init_pool calls count now made ls y))
                (ap (λ ((ok, threads) : Bool × List ℕ). (ok, idle threads))
                  (make_threads-range calls.made 0 pool_size m))
            ∙ ap
                (λ set.
                  name_worker environ_length title (init_socket calls count now set pool ls y))
                (set_up-all calls.set_up all_resources r)
            ∙ ap
                (λ (o : Option (List Listening × Socket)).
                  name_worker environ_length title (elim o [
                    | none ↦ exits (pos 2)
                    | some (ns, l) ↦ loops (record y {
                      threads = pool;
                      resources = all_resources;
                      listening = ns;
                      socket = l;
                    })
                  ]))
                e
            ∙ ap (λ text. name_worker environ_length text (loops z)) t,
        record {
          takes_signals = refl;
          is_worker = refl;
          pool = refl;
          set = refl;
          pooled = q;
          listens = h;
          titled = refl;
        },
      )

  -- No worker comes to its loop with a thread of its pool missing, or one of the mutexes, the
  -- semaphore and the threads of ser_init_subproc, or without a title.
  pub ser_worker_process_cycle-lacks_nothing :
      (calls : WorkerCalls) (count : ℤ) (environ_length now : ℕ) (ls : List Listening)
      (w v : Worker)
      → ser_worker_process_cycle same_name atoi items calls count environ_length now ls w ≡ loops v
      → ((create calls.made pool_size).0 ≡ true)
        × ((ser_init_subproc calls.set_up).0 ≡ true)
        × (text : List ℕ) × (get_string same_name (codes "WorkerProcessTitle") items ≡ some text)
  unfolding ser_worker_process_cycle ser_worker_process_init
  ser_worker_process_cycle-lacks_nothing calls count environ_length now ls w v e =
      let (x, text, f, q) = name_worker-loops environ_length _ _ v e in
      let (m, r) = init_pool-loops calls count now _ ls _ x f in (m, r, text, q)
