-- ===== src/Server/Pooled.antt =====
-- The pool over all turns of all threads.
use mathlib.Core.Path.{subst}
use linux_communication.Common.{
  ℕ, ◌≡◌, ◌≢◌, refl, sym, ◌∙◌, ap, arith, List, [], ◌∷◌, Bool, true, false, not, Option, none, some,
  if_case, if_false, ℕ_discrete, ◌==◌, if◌then◌else◌,
}
use linux_communication.Socket.{Socket, put_connection}
use linux_communication.Pool.{
  ser_get_free_connection, ser_free_connection, ser_close_connection, ser_in_recy_connection,
}
use linux_communication.Pool.Invariant.{
  IsPooled, in_use, Takes, ser_get_free_connection-Takes, give_back-IsPooled,
}
use linux_communication.Pool.Recycle.{recy_connection_turn-IsPooled}
use linux_communication.Epoll.{ser_epoll_oper_event}
use linux_communication.Receive.{
  eagain, eintr, econnreset, other_errno, RecvResult, received, peer_closed, recv_error,
  ser_recv_pkg, ser_read_request_handler,
}
use linux_communication.Accept.{
  AcceptResult, accepted, nobody_waits, not_supported, accept_failed, Answers, enlist,
  register_client, make_nonblocking, take_client, ser_event_accept,
}
use linux_communication.Server.{
  ServerStep, accepts, reads, writes, sends, handles, recycles, times, ServerReached, at_start,
  after, SetsNonblocking, AllSetNonblocking,
}
use linux_communication.Server.Quiet.{
  Quiet, stays, then_stays, Quiet-IsPooled, store_at-Quiet, on_received-Quiet, write-Quiet,
  turn-Quiet,
}
use linux_communication.Server.Timed.{add-Quiet, handle_next-Quiet, monitor-Quiet}

-- What a turn does to the users of the connections: nothing, or one connection that nobody used
-- is taken, or one that was in use is given back.
pub data Change (s t : Socket) : Type 0 where
  same_users : ((d : ℕ) → in_use t d ≡ in_use s d) → Change s t
  one_taken :
      (c : ℕ)
      → in_use s c ≡ 0
      → in_use t c ≡ 1
      → ((d : ℕ) → d ≢ c → in_use t d ≡ in_use s d)
      → Change s t
  one_given_back :
      (c : ℕ)
      → in_use s c ≡ 1
      → in_use t c ≡ 0
      → ((d : ℕ) → d ≢ c → in_use t d ≡ in_use s d)
      → Change s t

abbrev pub Turns : Socket → Socket → Type 0
Turns s t = IsPooled t × Change s t

Quiet-Turns : (s t : Socket) → Quiet s t → IsPooled s → Turns s t
Quiet-Turns s t q p = let (k, e) = Quiet-IsPooled s t q p in (k, same_users e)

-- A connection that is closed, or that is put into the queue for its recycling.
close-Turns :
    (c : ℕ) (s : Socket)
    → IsPooled s
    → in_use s c ≡ 1
    → IsPooled (ser_close_connection c s)
      × ((d : ℕ) → in_use (ser_close_connection c s) d ≡ (if d == c then 0 else in_use s d))
unfolding ser_close_connection
close-Turns c s p u =
    let (k, e, l, f) = give_back-IsPooled 0 c s p u in
    let (j, same) = Quiet-IsPooled (ser_free_connection c s) _ (stays refl) k in
    (j, λ d. same d ∙ e d)

hang_up-Turns :
    (now c : ℕ) (s : Socket)
    → IsPooled s
    → in_use s c ≡ 1
    → Turns s (
        ser_in_recy_connection now c (record s { closed_fds = (s.conns c).sock_fd ∷ s.closed_fds }))
hang_up-Turns now c s p u =
    let s' : Socket = record s { closed_fds = (s.conns c).sock_fd ∷ s.closed_fds } in
    let (k, same) = Quiet-IsPooled s s' (stays refl) p in
    let (x, y, l, f) = give_back-IsPooled now c s' k u in
    (l, one_given_back c u (ground (arith, f c)) (λ d n. ground (arith, f d, n)))

read-Turns :
    (junk : ℕ → ℕ) (now c : ℕ) (r : RecvResult) (s : Socket)
    → in_use s c ≡ 1
    → IsPooled s
    → Turns s (ser_read_request_handler junk now c r s)
unfolding ser_read_request_handler ser_recv_pkg
read-Turns junk now c (received b bs) s u p =
    Quiet-Turns s _
      (then_stays (store_at-Quiet (s.conns c).recv_location c (b ∷ bs) s)
        (on_received-Quiet junk _ c _))
      p
read-Turns junk now c peer_closed s u p = hang_up-Turns now c s p u
read-Turns junk now c (recv_error eagain) s u p = (p, same_users (λ d. refl))
read-Turns junk now c (recv_error eintr) s u p = (p, same_users (λ d. refl))
read-Turns junk now c (recv_error econnreset) s u p = hang_up-Turns now c s p u
read-Turns junk now c (recv_error other_errno) s u p = hang_up-Turns now c s p u

enlist-Quiet :
    (now listener : ℕ) (answers : Answers) (c : ℕ) (s : Socket)
    → Quiet s (enlist now listener answers c s)
unfolding enlist
enlist-Quiet now listener answers c s = stays (ground (arith, (add-Quiet now c s).same))

-- A connection that was taken, and what is done with it afterwards.
kept-Turns : (fd c : ℕ) (s t w : Socket) → Takes fd s c t → Quiet t w → Turns s w
kept-Turns fd c s t w k q =
    let (p, same) = Quiet-IsPooled t w q k.pooled in
    (p, one_taken c k.was_idle (same c ∙ k.is_taken) (λ d n. same d ∙ k.others d n))

closed-Turns :
    (fd c : ℕ) (s t w : Socket) → Takes fd s c t → Quiet t w → Turns s (ser_close_connection c w)
closed-Turns fd c s t w k q =
    let (p, same) = Quiet-IsPooled t w q k.pooled in
    let (j, e) = close-Turns c w p (same c ∙ k.is_taken) in
    (
      j,
      same_users (λ d. elim (ℕ_discrete d c) [
        | yes q ↦ ground (arith, e d, k.was_idle, ap (in_use s) q, q)
        | no n ↦ ground (arith, e d, same d, k.others d n, n)
      ]),
    )

register-Turns :
    (now listener fd c : ℕ) (answers : Answers) (s t u : Socket)
    → Takes fd s c t
    → Quiet t u
    → Turns s (register_client now listener answers c u)
unfolding register_client ser_epoll_oper_event
register-Turns now listener fd c answers s t u k q =
    if_case (Turns s) answers.registers
      (λ e.
        kept-Turns fd c s t _ k
          (then_stays q (then_stays (stays refl) (enlist-Quiet now listener answers c _))))
      (λ e. closed-Turns fd c s t _ k (then_stays q (stays refl)))

not_closed :
    (now listener c : ℕ) (answers : Answers) (use_accept4 : Bool) (s : Socket)
    → answers.nonblocking ≡ true
    → make_nonblocking now listener answers use_accept4 c s ≡ s
unfolding make_nonblocking
not_closed now listener c answers true s e = refl
not_closed now listener c answers false s e = if_false _ _ s (ap not e)

take-Turns :
    (now listener fd : ℕ) (addr : List ℕ) (answers : Answers) (use_accept4 : Bool) (s : Socket)
    → answers.nonblocking ≡ true
    → IsPooled s
    → Turns s (take_client now listener answers use_accept4 fd addr s)
unfolding take_client
take-Turns now listener fd addr answers use_accept4 s e p =
    let (c, t) = ser_get_free_connection fd now s in
    let k = ser_get_free_connection-Takes fd now s p in
    let u = put_connection c (record (t.conns c) { sock_addr = addr }) t in
    subst (λ w. Turns s (register_client now listener answers c w))
      (sym (not_closed now listener c answers use_accept4 u e))
      (register-Turns now listener fd c answers s t u k (stays refl))

TurnsIfAny : Socket → Option (Bool × Socket) → Type 0
TurnsIfAny s none = Unit {0}
TurnsIfAny s (some (also, t)) = Turns s t

accept-Turns :
    (now listener : ℕ) (answers : Answers) (use_accept4 : Bool) (rs : List AcceptResult)
    (s : Socket)
    → answers.nonblocking ≡ true
    → IsPooled s
    → TurnsIfAny s (ser_event_accept now listener answers use_accept4 rs s)
unfolding ser_event_accept TurnsIfAny
accept-Turns now listener answers use_accept4 [] s e p = tt
accept-Turns now listener answers use_accept4 (accepted fd addr ∷ rs) s e p =
    take-Turns now listener fd addr answers use_accept4 s e p
accept-Turns now listener answers use_accept4 (nobody_waits ∷ rs) s e p =
    (p, same_users (λ d. refl))
accept-Turns now listener answers true (not_supported ∷ rs) s e p =
    accept-Turns now listener answers false rs s e p
accept-Turns now listener answers false (not_supported ∷ rs) s e p = (p, same_users (λ d. refl))
accept-Turns now listener answers use_accept4 (accept_failed ∷ rs) s e p =
    (p, same_users (λ d. refl))

Step-Turns : (s t : Socket) → IsPooled s → (k : ServerStep s t) → SetsNonblocking k → Turns s t
unfolding TurnsIfAny
Step-Turns s _ p (accepts now listener answers use_accept4 also rs _ t f) e =
    subst (TurnsIfAny s) f (accept-Turns now listener answers use_accept4 rs s e p)
Step-Turns s _ p (reads junk now c r _ u) e = read-Turns junk now c r s u p
Step-Turns s _ p (writes c r _) e = Quiet-Turns s _ (write-Quiet c r s) p
Step-Turns s _ p (sends r _) e = Quiet-Turns s _ (turn-Quiet r s) p
Step-Turns s _ p (handles junk now _) e = Quiet-Turns s _ (handle_next-Quiet junk now s) p
Step-Turns s _ p (recycles now stop _) e =
    let (k, same) = recy_connection_turn-IsPooled now stop s p in (k, same_users same)
Step-Turns s _ p (times fuel now _ t e) n = Quiet-Turns s t (monitor-Quiet fuel now s t e) p

ServerReached-IsPooled :
    (s t : Socket) → IsPooled s → (r : ServerReached s t) → AllSetNonblocking r → IsPooled t
ServerReached-IsPooled s _ p at_start a = p
ServerReached-IsPooled s _ p (after t u r k) a =
    (Step-Turns t u (ServerReached-IsPooled s t p r a.0) k a.1).0

-- From a well-formed pool, however the turns of the threads of a worker have followed one another,
-- provided that in none of them the socket of `accept` fails to be made non-blocking (the code then
-- gives the connection back and goes on with it): after a further turn of this kind the pool is well-formed, so no connection is listed twice or is free while
-- it waits for its recycling; and the turn has taken one connection that nobody used, or has given
-- one back that was in use, or has changed the user of none.
pub ServerReached-Turns :
    (s t u : Socket)
    → IsPooled s
    → (r : ServerReached s t) → (k : ServerStep t u) → AllSetNonblocking r
    → SetsNonblocking k
    → IsPooled u × Change t u
ServerReached-Turns s t u p r k a n = Step-Turns t u (ServerReached-IsPooled s t p r a) k n
