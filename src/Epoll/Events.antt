-- ===== src/Epoll/Events.antt =====
-- Which handlers an event of epoll_wait calls, by the bits of its mask.
use Prim.Native.Nat.{bit_and, bit_or}
use linux_communication.Common.{
  ℕ, zero, suc, ◌+◌, ◌*◌, ◌/◌, ◌%◌, ◌^◌, ◌≤◌, ◌≡◌, refl, ◌∙◌, ap, arith, Bool, true, false, not,
  ◌||◌, ◌==◌, if◌then◌else◌, dec, inl, inr, Bool-cases,
}
use linux_communication.Common.Bits.{and_step, or_step, and-one, and-four}
use linux_communication.Socket.{Socket, put_connection}
use linux_communication.Epoll.{
  epollin, epollout, epollerr, epollhup, epollrdhup, event_type, Handlers, call, read_part,
  write_part, process_event,
}

-- Bit `k` of a mask.
abbrev pub has_bit : ℕ → ℕ → Bool
has_bit k mask = mask / 2 ^ k % 2 == 1

-- EPOLLERR or EPOLLHUP, bits 3 and 4.
abbrev pub is_broken : ℕ → Bool
is_broken mask = has_bit 3 mask || has_bit 4 mask

or-zero_within : (n a : ℕ) → a ≤ n → bit_or a 0 ≡ a
or-zero_within n zero h = refl
or-zero_within zero (suc a) h = absurd (omega arith)
or-zero_within (suc n) (suc a) h =
    omega (arith, or_step (suc a) 0, or-zero_within n (suc a / 2) (omega arith))

-- Bits 0 and 2 set, the others kept.
or-five : (a : ℕ) → bit_or a 5 ≡ a / 8 * 8 + 4 + a / 2 % 2 * 2 + 1
or-five a = omega (
  arith,
  or_step a 5,
  or_step (a / 2) 2,
  or_step (a / 2 / 2) 1,
  or-zero_within (a / 2 / 2 / 2) (a / 2 / 2 / 2) (omega arith),
)

and-0x18 : (a : ℕ) → bit_and a 0x18 ≡ a / 8 % 4 * 8
and-0x18 a = omega (
  arith,
  and_step a 24,
  and_step (a / 2) 12,
  and_step (a / 2 / 2) 6,
  and_step (a / 2 / 2 / 2) 3,
  and-one (a / 2 / 2 / 2 / 2),
)

and-0x10 : (a : ℕ) → bit_and a 0x10 ≡ a / 16 % 2 * 16
and-0x10 a = omega (
  arith,
  and_step a 16,
  and_step (a / 2) 8,
  and_step (a / 2 / 2) 4,
  and_step (a / 2 / 2 / 2) 2,
  and-one (a / 2 / 2 / 2 / 2),
)

and-0x100 : (a : ℕ) → bit_and a 0x100 ≡ a / 256 % 2 * 256
and-0x100 a = omega (
  arith,
  and_step a 256,
  and_step (a / 2) 128,
  and_step (a / 2 / 2) 64,
  and_step (a / 2 / 2 / 2) 32,
  and-0x10 (a / 2 / 2 / 2 / 2),
)

and-0x2018 : (a : ℕ) → bit_and a 0x2018 ≡ a / 8 % 4 * 8 + a / 2 ^ 13 % 2 * 2 ^ 13
and-0x2018 a = omega (
  arith,
  and_step a 0x2018,
  and_step (a / 2) 0x100c,
  and_step (a / 2 / 2) 0x806,
  and_step (a / 2 / 2 / 2) 0x403,
  and_step (a / 2 / 2 / 2 / 2) 0x201,
  and-0x100 (a / 2 / 2 / 2 / 2 / 2),
)

event_type-broken :
    (mask : ℕ) → is_broken mask ≡ true → event_type mask ≡ mask / 8 * 8 + 4 + mask / 2 % 2 * 2 + 1
unfolding event_type
event_type-broken mask h = ground (arith, and-0x18 mask, or-five mask)

event_type-whole : (mask : ℕ) → is_broken mask ≡ false → event_type mask ≡ mask
unfolding event_type
event_type-whole mask h = ground (arith, and-0x18 mask)

-- What an event with the mask `mask` on connection `c` means: whether it is read, whether it is
-- written, and whether the other end has gone.
abbrev pub reads : ℕ → Bool
reads mask = is_broken mask || has_bit 0 mask

abbrev pub writes : ℕ → Bool
writes mask = is_broken mask || has_bit 2 mask

abbrev pub is_gone : ℕ → Bool
is_gone mask = is_broken mask || has_bit 13 mask

-- One write fewer is in flight on `c`.
abbrev pub drop_write : ℕ → Socket → Socket
drop_write c s =
    put_connection c (record (s.conns c) { throw_send_count = dec (s.conns c).throw_send_count }) s

reads-event_type : (mask : ℕ) → bit_and (event_type mask) epollin == 0 ≡ not (reads mask)
reads-event_type mask = elim (Bool-cases (is_broken mask)) [
  | inl e ↦ ground (arith, event_type-broken mask e, and-one (event_type mask))
  | inr e ↦ ground (arith, event_type-whole mask e, and-one (event_type mask))
]

writes-event_type : (mask : ℕ) → bit_and (event_type mask) epollout == 0 ≡ not (writes mask)
writes-event_type mask = elim (Bool-cases (is_broken mask)) [
  | inl e ↦ ground (arith, event_type-broken mask e, and-four (event_type mask))
  | inr e ↦ ground (arith, event_type-whole mask e, and-four (event_type mask))
]

gone-event_type :
    (mask : ℕ)
    → bit_and (event_type mask) (bit_or epollerr (bit_or epollhup epollrdhup)) == 0
      ≡ not (is_gone mask)
gone-event_type mask = elim (Bool-cases (is_broken mask)) [
  | inl e ↦ ground (arith, event_type-broken mask e, and-0x2018 (event_type mask))
  | inr e ↦ ground (arith, event_type-whole mask e, and-0x2018 (event_type mask))
]

if_not {ℓ} : {A : Type ℓ} (b : Bool) (x y : A) → (if not b then x else y) ≡ (if b then y else x)
if_not true x y = refl
if_not false x y = refl

-- An event calls the read handler if its mask has EPOLLIN, EPOLLERR or EPOLLHUP. Then, if the mask
-- has EPOLLOUT, EPOLLERR or EPOLLHUP, it calls the write handler that the connection has by then,
-- except where the other end has gone (EPOLLERR, EPOLLHUP or EPOLLRDHUP): there it takes one off
-- mThrowSendCount instead, also where no EPOLLOUT was asked for or reported.
pub process_event-by_bits :
    (hs : Handlers) (mask c : ℕ) (s : Socket)
    → process_event hs (mask, c) s ≡ (
        let t = if reads mask then call hs (s.conns c).r_handler c s else s in
        if writes mask
        then if is_gone mask then drop_write c t else call hs (t.conns c).w_handler c t
        else t)
unfolding process_event read_part write_part
process_event-by_bits hs mask c s =
    ap (write_part hs (event_type mask) c) (
      ap (λ b. if b then s else call hs (s.conns c).r_handler c s) (reads-event_type mask)
      ∙ if_not (reads mask) _ _)
    ∙ write_side (if reads mask then call hs (s.conns c).r_handler c s else s)
  where
    write_side :
        (t : Socket)
        → write_part hs (event_type mask) c t ≡ (
            if writes mask
            then if is_gone mask then drop_write c t else call hs (t.conns c).w_handler c t
            else t)
    write_side t =
        ap
          (λ b.
            if b
            then t
            else if bit_and (event_type mask) (bit_or epollerr (bit_or epollhup epollrdhup)) == 0
            then call hs (t.conns c).w_handler c t
            else drop_write c t)
          (writes-event_type mask)
        ∙ if_not (writes mask) _ _
        ∙ ap (λ (x : Socket). if writes mask then x else t)
            (ap (λ b. if b then call hs (t.conns c).w_handler c t else drop_write c t)
                (gone-event_type mask)
              ∙ if_not (is_gone mask) _ _)
