-- ===== src/Send/Pass.antt =====
-- One pass of the sending thread over its queue.
use linux_communication.Common.{
  ℕ, ◌≡◌, ◌≢◌, refl, sym, ◌∙◌, List, [], ◌∷◌, Bool, true, false, some, if◌then◌else◌,
}
use linux_communication.Memory.{Block}
use linux_communication.Socket.{Socket}
use linux_communication.Send.{SendOutcome, send_one, send_pass}
use linux_communication.Send.Rounds.{
  Waits, Settled, IsCounted, Keeps, Rounds, Waits-Keeps, Settled-Keeps, send_one-Rounds,
  Rounds-Settled,
}

abbrev pub All : (ℕ → Type 0) → List ℕ → Type 0
All P [] = Unit {0}
All P (x ∷ xs) = P x × All P xs

-- No block is queued twice.
abbrev pub Distinct : List ℕ → Type 0
Distinct [] = Unit {0}
Distinct (x ∷ xs) = All (λ y. y ≢ x) xs × Distinct xs

abbrev pub IsLive : Socket → ℕ → Type 0
IsLive s q = (b : Block) × (s.heap.cells q ≡ some b)

All-cons :
    (P : ℕ → Type 0) (b : Bool) (x : ℕ) (xs : List ℕ)
    → (b ≡ true → P x)
    → All P xs
    → All P (if b then x ∷ xs else xs)
All-cons P true x xs h k = (h refl, k)
All-cons P false x xs h k = k

-- What a pass over `ps` does to a packet outside `ps`.
abbrev Untouched : List ℕ → Socket → Socket → Type 0
Untouched ps s t = (q : ℕ) → All (λ y. y ≢ q) ps → Waits s q → Waits t q

IsLive-Keeps :
    (p : ℕ) (ps : List ℕ) (s t : Socket)
    → Keeps p s t
    → All (λ y. y ≢ p) ps
    → All (IsLive s) ps
    → All (IsLive t) ps
IsLive-Keeps p [] s t k n l = tt
IsLive-Keeps p (q ∷ ps) s t k n l =
    ((l.0.0, k.cells q n.0 ∙ l.0.1), IsLive-Keeps p ps s t k n.1 l.1)

pub record Passes (ps : List ℕ) (s : Socket) (r : List ℕ × Socket) : Type 0 where
  pub waiting : All (Waits r.1) r.0
  pub no_fault : r.1.heap.fault ≡ s.heap.fault
  pub settled : All (Settled r.1) ps
  pub untouched : Untouched ps s r.1
  pub kept : (q : ℕ) → All (λ y. y ≢ q) ps → Settled s q → Settled r.1 q

-- One pass over a queue of live blocks, none of them queued twice, where no connection counts less
-- than no packet in flight: whatever `send` answers, no block is freed that is not live, and of
-- each packet of the queue one of three holds in the end. It has been freed; or it stays in the
-- queue, and its connection is still the one that it was made for and has another packet in flight;
-- or it is begun, and its connection points to it, counts it as in flight and has EPOLLOUT in
-- `mEpollEvents`. What stays in the queue waits in this sense; and a packet outside the queue that
-- is in one of the three ways before is in one of them after.
pub send_pass-Passes :
    (outcome : ℕ → SendOutcome) (ps : List ℕ) (s : Socket)
    → Distinct ps
    → All (IsLive s) ps
    → IsCounted s
    → Passes ps s (send_pass outcome ps s)
unfolding send_pass
send_pass-Passes outcome [] s d l k = record {
  waiting = tt;
  no_fault = refl;
  settled = tt;
  untouched = λ q n w. w;
  kept = λ q n h. h;
}
send_pass-Passes outcome (p ∷ ps) s d l k =
    let one : Rounds p s (send_one (outcome p) p (s.heap.cells p) s) =
      rw l.0.1 (send_one-Rounds (outcome p) p l.0.0 s l.0.1) in
    let t : Socket = (send_one (outcome p) p (s.heap.cells p) s).1 in
    let rest =
      send_pass-Passes outcome ps t d.1 (IsLive-Keeps p ps s t one.keeps d.0 l.1)
        (one.keeps.counted k) in
    record {
      waiting =
          All-cons (Waits (send_pass outcome ps t).1) (send_one (outcome p) p (s.heap.cells p) s).0
            p (send_pass outcome ps t).0
            (λ h. rest.untouched p d.0 (rw (one.stays h).1 (one.stays h).0)) rest.waiting;
      no_fault = rest.no_fault ∙ one.keeps.fault;
      settled = (rest.kept p d.0 (Rounds-Settled p s _ one k), rest.settled);
      untouched = λ q n w. rest.untouched q n.1 (Waits-Keeps (λ e. n.0 (sym e)) one.keeps w);
      kept = λ q n h. rest.kept q n.1 (Settled-Keeps (λ e. n.0 (sym e)) one.keeps h);
    }
