-- ===== src/Pool/Invariant.antt =====
-- Which connection objects are free, waiting for their recycling, or in use.
use linux_communication.Common.{
  ℕ, zero, suc, ◌+◌, ◌-◌, ◌≤◌, ◌≡◌, ◌≢◌, refl, ap, arith, List, [], ◌∷◌, none, count, count-append,
  ◌==◌, if◌then◌else◌, pos, ◌⊎◌, inl, inr, replicate,
}
use linux_communication.Packet.{pkg_hd_init, pkg_header_length, pkg_head_info_size}
use linux_communication.Socket.{Socket, head_info}
use linux_communication.Connection.{get_one_to_use}
use linux_communication.Pool.{
  ser_init_connection, init_one, get_from, ser_get_free_connection, ser_free_connection,
  ser_in_recy_connection,
}

-- The whole pool lists every object once, and no object twice in its two parts.
pub record IsPooled (s : Socket) : Type 0 where
  pub parts :
      (c : ℕ)
      → count c s.free_connection_list + count c s.recy_connection_list ≤ count c s.connection_list
  pub once : (c : ℕ) → count c s.connection_list ≤ 1
  pub fresh : (c : ℕ) → s.next_conn ≤ c → count c s.connection_list ≡ 0

-- 1 for an object that the pool has given out, else 0.
abbrev pub in_use : Socket → ℕ → ℕ
in_use s c =
    count c s.connection_list - (count c s.free_connection_list + count c s.recy_connection_list)

-- What taking an object for the descriptor `sockfd` does.
pub record Takes (sockfd : ℕ) (s : Socket) (c : ℕ) (t : Socket) : Type 0 where
  pub pooled : IsPooled t
  pub was_idle : in_use s c ≡ 0
  pub is_taken : in_use t c ≡ 1
  pub others : (d : ℕ) → d ≢ c → in_use t d ≡ in_use s d
  pub untouched : (d : ℕ) → d ≢ c → t.conns d ≡ s.conns d
  pub has_fd : (t.conns c).sock_fd ≡ sockfd
  pub same_online : t.online_user_count ≡ s.online_user_count
  pub at_start : (t.conns c).recv_stat ≡ pkg_hd_init
  pub wants_header : (t.conns c).recv_length ≡ pkg_header_length
  pub into_head : (t.conns c).recv_location ≡ head_info 0
  pub no_packets : ((t.conns c).recv_pkg_data ≡ none) × ((t.conns c).send_pkg_data ≡ none)
  pub idle : (t.conns c).throw_send_count ≡ pos 0
  pub head :
      ((t.conns c).pkg_head_info ≡ (s.conns c).pkg_head_info)
      ⊎ ((t.conns c).pkg_head_info ≡ replicate pkg_head_info_size 0)
  pub same_queues : (t.msg_recv_queue ≡ s.msg_recv_queue) × (t.msg_send_queue ≡ s.msg_send_queue)

get_from-Takes :
    (free : List ℕ) (sockfd now : ℕ) (s : Socket)
    → s.free_connection_list ≡ free
    → IsPooled s
    → let (c, t) = get_from free sockfd now s in Takes sockfd s c t
unfolding get_from get_one_to_use
get_from-Takes [] sockfd now s e p = record {
  pooled = record {
    parts = λ c. ground (arith, p.parts c, count-append c s.connection_list (s.next_conn ∷ []));
    once = λ c.
        ground (arith, p.once c, p.fresh c, count-append c s.connection_list (s.next_conn ∷ []));
    fresh = λ c h. ground (arith, p.fresh c, count-append c s.connection_list (s.next_conn ∷ []));
  };
  was_idle = ground (arith, p.fresh s.next_conn);
  is_taken = ground (
    arith,
    p.fresh s.next_conn,
    p.parts s.next_conn,
    count-append s.next_conn s.connection_list (s.next_conn ∷ []),
  );
  others = λ d h. ground (arith, count-append d s.connection_list (s.next_conn ∷ []));
  untouched = λ d h. ground arith;
  has_fd = ground arith;
  same_online = refl;
  at_start = ground arith;
  wants_header = ground arith;
  into_head = ground arith;
  no_packets = ground arith;
  idle = ground arith;
  head = inr (ground arith);
  same_queues = (refl, refl);
}
get_from-Takes (x ∷ rest) sockfd now s e p = record {
  pooled = record {
    parts = λ c. ground (arith, p.parts c, ap (count c) e);
    once = p.once;
    fresh = p.fresh;
  };
  was_idle = ground (arith, p.once x, p.parts x, ap (count x) e);
  is_taken = ground (arith, p.once x, p.parts x, ap (count x) e);
  others = λ d h. ground (arith, ap (count d) e);
  untouched = λ d h. ground arith;
  has_fd = ground arith;
  same_online = refl;
  at_start = ground arith;
  wants_header = ground arith;
  into_head = ground arith;
  no_packets = ground arith;
  idle = ground arith;
  head = inl (ground arith);
  same_queues = (refl, refl);
}

-- In a well-formed pool `ser_get_free_connection` always returns an object that was not in use,
-- whether the free list is empty or not; from then on it is in use, bound to the descriptor, with
-- the receive state at its start and no packet of a former user; no other object changes, and the
-- pool stays well-formed.
pub ser_get_free_connection-Takes :
    (sockfd now : ℕ) (s : Socket)
    → IsPooled s
    → let (c, t) = ser_get_free_connection sockfd now s in Takes sockfd s c t
unfolding ser_get_free_connection
ser_get_free_connection-Takes sockfd now s p =
    get_from-Takes s.free_connection_list sockfd now s refl p

-- An object in use can be given back at once, or put into the queue for later; either way the
-- pool stays well-formed and the object is no longer in use, while all others keep their place.
pub give_back-IsPooled :
    (now c : ℕ) (s : Socket)
    → IsPooled s
    → in_use s c ≡ 1
    → IsPooled (ser_free_connection c s)
      × ((d : ℕ) → in_use (ser_free_connection c s) d ≡ (if d == c then 0 else in_use s d))
      × IsPooled (ser_in_recy_connection now c s)
      × ((d : ℕ) → in_use (ser_in_recy_connection now c s) d ≡ (if d == c then 0 else in_use s d))
unfolding ser_free_connection ser_in_recy_connection
give_back-IsPooled now c s p u = (
  record {
    parts =
        λ d. ground (arith, p.parts d, p.once d, count-append d s.free_connection_list (c ∷ []));
    once = p.once;
    fresh = p.fresh;
  },
  λ d. ground (arith, p.once c, count-append d s.free_connection_list (c ∷ [])),
  record {
    parts =
        λ d. ground (arith, p.parts d, p.once d, count-append d s.recy_connection_list (c ∷ []));
    once = p.once;
    fresh = p.fresh;
  },
  λ d. ground (arith, p.once c, count-append d s.recy_connection_list (c ∷ [])),
)

init_one-IsPooled : (now : ℕ) (s : Socket) → IsPooled s → IsPooled (init_one now s)
unfolding init_one
init_one-IsPooled now s p = record {
  parts = λ c. ground (
    arith,
    p.parts c,
    count-append c s.connection_list (s.next_conn ∷ []),
    count-append c s.free_connection_list (s.next_conn ∷ []),
  );
  once =
      λ c. ground (arith, p.once c, p.fresh c, count-append c s.connection_list (s.next_conn ∷ []));
  fresh = λ c h. ground (arith, p.fresh c, count-append c s.connection_list (s.next_conn ∷ []));
}

pub ser_init_connection-IsPooled :
    (n now : ℕ) (s : Socket) → IsPooled s → IsPooled (ser_init_connection n now s)
unfolding ser_init_connection
ser_init_connection-IsPooled zero now s p = p
ser_init_connection-IsPooled (suc n) now s p =
    ser_init_connection-IsPooled n now (init_one now s) (init_one-IsPooled now s p)
