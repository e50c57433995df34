-- ===== src/Listen/Registering.antt =====
-- What ser_epoll_init makes of the pool and of the listening sockets.
use Prim.Native.Nat.{bit_or}
use linux_communication.Common.{
  ℕ, ◌+◌, ◌≡◌, ◌≢◌, refl, sym, ap, ◌∙◌, arith, List, [], ◌∷◌, Bool, true, some, ℤ, if_true,
  update_self, update_ne, ◌>>=◌,
}
use linux_communication.Socket.{Listening, Connection, Socket, event_accept, put_connection}
use linux_communication.Pool.{ser_init_connection, ser_get_free_connection}
use linux_communication.Pool.Invariant.{
  IsPooled, in_use, ser_get_free_connection-Takes, ser_init_connection-IsPooled,
}
use linux_communication.Epoll.{epollin, epollrdhup, ser_epoll_oper_event}
use linux_communication.Listen.{rounds, register_one, register_from, ser_epoll_init}

-- The listening socket with the index `i`, `l` before and `m` after, has a connection of the pool
-- that is in use and accepts clients.
pub record Listens (t : Socket) (i : ℕ) (l m : Listening) : Type 0 where
  pub same : (m.fd ≡ l.fd) × (m.port ≡ l.port)
  pub conn : ℕ
  pub linked : m.connection ≡ some conn
  pub used : in_use t conn ≡ 1
  pub has_fd : (t.conns conn).sock_fd ≡ l.fd
  pub knows : (t.conns conn).listening ≡ some i
  pub accepts : (t.conns conn).r_handler ≡ event_accept
  pub events : (t.conns conn).epoll_events ≡ 0x2001

-- All of them, from the index `i` on.
pub data AllListen (t : Socket) : ℕ → List Listening → List Listening → Type 0 where
  done : (i : ℕ) → AllListen t i [] []
  next :
      (i : ℕ) (l m : Listening) (ls ms : List Listening)
      → Listens t i l m
      → AllListen t (i + 1) ls ms
      → AllListen t i (l ∷ ls) (m ∷ ms)

-- What is in use stays so, and does not change.
Keeps : Socket → Socket → Type 0
Keeps s t = (c : ℕ) → in_use s c ≡ 1 → (in_use t c ≡ 1) × (t.conns c ≡ s.conns c)

Listens-Keeps :
    (s t : Socket) (i : ℕ) (l m : Listening) → Keeps s t → Listens s i l m → Listens t i l m
unfolding Keeps
Listens-Keeps s t i l m k h =
    let (u, e) = k h.conn h.used in
    record {
      same = h.same;
      conn = h.conn;
      linked = h.linked;
      used = u;
      has_fd = ap (λ x. x.sock_fd) e ∙ h.has_fd;
      knows = ap (λ x. x.listening) e ∙ h.knows;
      accepts = ap (λ x. x.r_handler) e ∙ h.accepts;
      events = ap (λ x. x.epoll_events) e ∙ h.events;
    }

differs : (s : Socket) (d c : ℕ) → in_use s d ≡ 1 → in_use s c ≡ 0 → d ≢ c
differs s d c u v e = absurd (omega (arith, u, v, ap (in_use s) e))

-- A round in which `epoll_ctl` succeeds.
register_one-Listens :
    (now i : ℕ) (succeeds : Bool) (l : Listening) (s : Socket)
    → IsPooled s
    → succeeds ≡ true
    → (m : Listening) × (t : Socket) × (register_one now succeeds i l s ≡ some (m, t))
      × IsPooled t
      × Keeps s t
      × Listens t i l m
unfolding register_one ser_epoll_oper_event Keeps
register_one-Listens now i succeeds l s p ok =
    let (c, t) = ser_get_free_connection l.fd now s in
    let h = ser_get_free_connection-Takes l.fd now s p in
    let k : Connection = record (t.conns c) {
      listening = some i;
      r_handler = event_accept;
      epoll_events = bit_or epollin epollrdhup;
    } in
    (
      record l { connection = some c },
      put_connection c k t,
      if_true succeeds _ _ ok,
      record { parts = h.pooled.parts; once = h.pooled.once; fresh = h.pooled.fresh },
      λ d u.
          let other : d ≢ c = differs s d c u h.was_idle in
          (
            h.others d other ∙ u,
            update_ne t.conns c d k (λ e. other (sym e)) ∙ h.untouched d other,
          ),
      record {
        same = (refl, refl);
        conn = c;
        linked = refl;
        used = h.is_taken;
        has_fd = ap (λ x. x.sock_fd) (update_self t.conns c k) ∙ h.has_fd;
        knows = ap (λ x. x.listening) (update_self t.conns c k);
        accepts = ap (λ x. x.r_handler) (update_self t.conns c k);
        events = ap (λ x. x.epoll_events) (update_self t.conns c k);
      },
    )

register_from-AllListen :
    (now : ℕ) (succeeds : ℕ → Bool) (i : ℕ) (ls : List Listening) (s : Socket)
    → IsPooled s
    → ((j : ℕ) → succeeds j ≡ true)
    → (ms : List Listening) × (t : Socket) × (register_from now succeeds i ls s ≡ some (ms, t))
      × IsPooled t
      × Keeps s t
      × AllListen t i ls ms
unfolding register_from Keeps
register_from-AllListen now succeeds i [] s p ok = ([], s, refl, p, λ c u. (u, refl), done i)
register_from-AllListen now succeeds i (l ∷ ls) s p ok =
    let (m, t, e, q, k, h) = register_one-Listens now i (succeeds i) l s p (ok i) in
    let (ms, u, f, r, k2, hs) = register_from-AllListen now succeeds (i + 1) ls t q ok in
    (
      m ∷ ms,
      u,
      ap
            (λ x. x >>= λ (m, t).
              register_from now succeeds (i + 1) ls t >>= λ (ms, u). some (m ∷ ms, u))
            e
          ∙ ap (λ x. x >>= λ (ms, u). some (m ∷ ms, u)) f,
      r,
      λ c used.
          let (used2, same) = k c used in let (used3, same2) = k2 c used2 in (used3, same2 ∙ same),
      next i l m ls ms (Listens-Keeps t u i l m k2 h) hs,
    )

-- On a well-formed pool, if `epoll_create` and every `epoll_ctl` succeed, ser_epoll_init returns;
-- then the pool is well-formed, and each listening socket has a connection of the pool: it
-- is in use, is bound to the descriptor, refers back to the socket, accepts clients on a read
-- event and asks for EPOLLIN and EPOLLRDHUP.
pub ser_epoll_init-AllListen :
    (count : ℤ) (created : Bool) (now : ℕ) (succeeds : ℕ → Bool) (ls : List Listening) (s : Socket)
    → IsPooled s
    → created ≡ true
    → ((j : ℕ) → succeeds j ≡ true)
    → (ms : List Listening) × (t : Socket) × (ser_epoll_init count created now succeeds ls s
        ≡ some (ms, t))
      × IsPooled t
      × AllListen t 0 ls ms
unfolding ser_epoll_init
ser_epoll_init-AllListen count created now succeeds ls s p made ok =
    let (ms, t, e, q, k, h) =
      register_from-AllListen now succeeds 0 ls (ser_init_connection (rounds count) now s)
        (ser_init_connection-IsPooled (rounds count) now s p) ok in
    (ms, t, if_true created _ _ made ∙ e, q, h)
