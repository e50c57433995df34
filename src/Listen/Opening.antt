-- ===== src/Listen/Opening.antt =====
-- What ser_open_listening_sockets leaves open.
use linux_communication.Common.{
  ℕ, zero, suc, ◌+◌, ◌<◌, ◌≡◌, ◌⊎◌, inl, inr, refl, sym, ap, ◌∙◌, arith, List, [], ◌∷◌, ◌++◌, map,
  append_assoc, append-nil, Bool, true, false, ◌&&◌, Option, none, some, ℤ, if◌then◌else◌,
}
use linux_communication.Socket.{Listening}
use linux_communication.Listen.{
  Calls, Sockets, open_one, open_from, rounds, ser_open_listening_sockets,
}

-- All calls for a port succeed.
pub works : Calls → Bool
works c = elim c.socket [
  | none ↦ false
  | some fd ↦ c.reuses && c.nonblocking && c.binds && c.listens
]

-- The descriptor that is left open for a port.
pub descriptor : Calls → ℕ
descriptor c = elim c.socket [ none ↦ 0 | some fd ↦ fd ]

-- The listening sockets of `k` ports from number `i` on.
pub listeners : (ℕ → ℤ) → (ℕ → Calls) → ℕ → ℕ → List Listening
listeners port calls i zero = []
listeners port calls i (suc k) =
    record { port = port i; fd = descriptor (calls i); connection = none }
    ∷ listeners port calls (i + 1) k

abbrev pub descriptors : List Listening → List ℕ
descriptors = map (λ (l : Listening). l.fd)

-- The loop from round `i` on stopped after `k` of `n` rounds that opened a socket: at the end, or at
-- a port with a call that failed. What was opened is listened on or closed.
pub record Opened (port : ℕ → ℤ) (calls : ℕ → Calls) (i n : ℕ) (s : Sockets) (ok : Bool)
    (t : Sockets) (k : ℕ) : Type 0 where
  pub worked : (j : ℕ) → j < k → works (calls (i + j)) ≡ true
  pub ended : ((ok ≡ true) × (k ≡ n)) ⊎ ((ok ≡ false) × (k < n) × (works (calls (i + k)) ≡ false))
  pub listens : t.listening ≡ s.listening ++ listeners port calls i k
  pub balanced :
      (failed : List ℕ) × (t.opened
        ≡ s.opened ++ (descriptors (listeners port calls i k) ++ failed))
      × (t.closed ≡ s.closed ++ failed)

-- A round.
data Round (port : ℤ) (c : Calls) (s : Sockets) : Bool → Sockets → Type 0 where
  opens :
      (t : Sockets)
      → works c ≡ true
      → t.listening
        ≡ s.listening ++ (record { port = port; fd = descriptor c; connection = none } ∷ [])
      → t.opened ≡ s.opened ++ (descriptor c ∷ [])
      → t.closed ≡ s.closed
      → Round port c s true t
  stops :
      (failed : List ℕ) (t : Sockets)
      → works c ≡ false
      → t.listening ≡ s.listening
      → t.opened ≡ s.opened ++ failed
      → t.closed ≡ s.closed ++ failed
      → Round port c s false t

open_one-Round :
    (port : ℤ) (reuses nonblocking binds listens : Bool) (socket : Option ℕ) (s : Sockets)
    → let c : Calls = record {
      socket = socket;
      reuses = reuses;
      nonblocking = nonblocking;
      binds = binds;
      listens = listens;
    } in
      let (ok, t) = open_one port c socket s in Round port c s ok t
unfolding open_one works descriptor
open_one-Round port r n b l none s =
    stops [] s refl refl (sym (append-nil s.opened)) (sym (append-nil s.closed))
open_one-Round port true true true true (some fd) s = opens _ refl refl refl refl
open_one-Round port true true true false (some fd) s = stops (fd ∷ []) _ refl refl refl refl
open_one-Round port true true false l (some fd) s = stops (fd ∷ []) _ refl refl refl refl
open_one-Round port true false b l (some fd) s = stops (fd ∷ []) _ refl refl refl refl
open_one-Round port false n b l (some fd) s = stops (fd ∷ []) _ refl refl refl refl

all_worked :
    (calls : ℕ → Calls) (i k : ℕ)
    → works (calls i) ≡ true
    → ((j : ℕ) → j < k → works (calls (i + 1 + j)) ≡ true)
    → (j : ℕ) → j < suc k
    → works (calls (i + j)) ≡ true
all_worked calls i k w h zero b = ap (λ m. works (calls m)) (omega arith) ∙ w
all_worked calls i k w h (suc j) b =
    ap (λ m. works (calls m)) (omega arith) ∙ h j (omega (arith, b))

-- A round, and the rest of the loop after it.
module _ (port : ℕ → ℤ) (calls : ℕ → Calls) (i n : ℕ) (s : Sockets) where
  one_then_rest :
      (goes_on : Bool) (t : Sockets)
      → Round (port i) (calls i) s goes_on t
      → (let (ok, u) = open_from port calls n (i + 1) t in
          (k : ℕ) × Opened port calls (i + 1) n t ok u k)
      → let (ok, u) = if goes_on then open_from port calls n (i + 1) t else (false, t) in
        (k : ℕ) × Opened port calls i (suc n) s ok u k
  unfolding listeners
  one_then_rest true _ (opens t w l o c) (k, h) =
      let (failed, p, q) = h.balanced in
      (
        suc k,
        record {
          worked = all_worked calls i k w h.worked;
          ended = elim h.ended [
            | inl (e, f) ↦ inl (e, omega (arith, f))
            | inr (e, b, f) ↦ inr (e, omega (arith, b), ap (λ j. works (calls j)) (omega arith) ∙ f)
          ];
          listens =
              h.listens
              ∙ ap (λ x. x ++ listeners port calls (i + 1) k) l
              ∙ append_assoc s.listening _ _;
          balanced = (
            failed,
            p
                ∙ ap (λ x. x ++ (descriptors (listeners port calls (i + 1) k) ++ failed)) o
                ∙ append_assoc s.opened _ _,
            q ∙ ap (λ x. x ++ failed) c,
          );
        },
      )
  one_then_rest false _ (stops failed t w l o c) h = (
    0,
    record {
      worked = λ j b. absurd (omega (arith, b));
      ended = inr (refl, omega arith, ap (λ j. works (calls j)) (omega arith) ∙ w);
      listens = l ∙ sym (append-nil s.listening);
      balanced = (failed, o, c);
    },
  )

open_from-Opened :
    (port : ℕ → ℤ) (calls : ℕ → Calls) (n i : ℕ) (s : Sockets)
    → let (ok, t) = open_from port calls n i s in (k : ℕ) × Opened port calls i n s ok t k
unfolding open_from listeners
open_from-Opened port calls zero i s = (
  0,
  record {
    worked = λ j b. absurd (omega (arith, b));
    ended = inl (refl, refl);
    listens = sym (append-nil s.listening);
    balanced = ([], sym (append-nil s.opened), sym (append-nil s.closed));
  },
)
open_from-Opened port calls (suc n) i s =
    let (goes_on, t) = open_one (port i) (calls i) (calls i).socket s in
    one_then_rest port calls i n s goes_on t
      (open_one-Round (port i) (calls i).reuses (calls i).nonblocking (calls i).binds
        (calls i).listens (calls i).socket s)
      (open_from-Opened port calls n (i + 1) t)

-- ser_open_listening_sockets, for any number of ports and whatever the calls return: it works
-- through the ports up to the first with a call that fails, returns true if there is none, and
-- has then a listening socket, in order, for each port before it, with its number and descriptor.
-- Each descriptor that `socket` returned belongs to one of them or is closed.
pub ser_open_listening_sockets-Opened :
    (count : ℤ) (port : ℕ → ℤ) (calls : ℕ → Calls) (s : Sockets)
    → let (ok, t) = ser_open_listening_sockets count port calls s in
      (k : ℕ) × Opened port calls 0 (rounds count) s ok t k
unfolding ser_open_listening_sockets
ser_open_listening_sockets-Opened count port calls s =
    open_from-Opened port calls (rounds count) 0 s
