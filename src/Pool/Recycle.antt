-- ===== src/Pool/Recycle.antt =====
-- The delayed recycling of connections: what one turn of the recycling thread does.
use mathlib.Core.Path.{fun_ext}
use linux_communication.Common.{
  ℕ, zero, suc, ◌+◌, ◌<◌, ◌≡◌, refl, sym, ◌∙◌, ap, arith, List, [], ◌∷◌, ◌++◌, Bool, true, false,
  not, Option, none, some, length, keep_if, count, count-append, append_assoc, append-nil,
  Bool-cases, inl, inr, ◌==◌, if◌then◌else◌,
}
use linux_communication.Socket.{Socket}
use linux_communication.Connection.{put_one_to_free}
use linux_communication.Pool.Invariant.{IsPooled, in_use}
use linux_communication.Pool.{
  ser_free_connection, still_waits, find_due, recycle_due, recycle_all, recy_connection_turn,
}

abbrev pub due : (ℕ → Bool) → ℕ → Bool
due waits c = not (waits c)

-- What the scan finds, in the terms of the whole list.
abbrev Finds : (ℕ → Bool) → List ℕ → Option (ℕ × List ℕ) → Type 0
Finds waits cs none = (keep_if waits cs ≡ cs) × (keep_if (due waits) cs ≡ [])
Finds waits cs (some (d, rest)) =
    (keep_if waits cs ≡ keep_if waits rest)
    × (keep_if (due waits) cs ≡ d ∷ keep_if (due waits) rest)
    × (length cs ≡ suc (length rest))
    × ((c : ℕ) → count c cs ≡ count c (d ∷ rest))

find_due-Finds : (waits : ℕ → Bool) (cs : List ℕ) → Finds waits cs (find_due waits cs)
unfolding find_due
find_due-Finds waits [] = (refl, refl)
find_due-Finds waits (x ∷ cs) = further (waits x) refl (find_due waits cs) (find_due-Finds waits cs)
  where
    further :
        (b : Bool)
        → waits x ≡ b
        → (r : Option (ℕ × List ℕ)) → Finds waits cs r
        → Finds waits (x ∷ cs) (elim b [
          | false ↦ some (x, cs)
          | true ↦ elim r [ none ↦ none | some (d, rest) ↦ some (d, x ∷ rest) ]
        ])
    further false e r f = (ground arith, ground arith, refl, λ c. refl)
    further true e none f = (ground arith, ground arith)
    further true e (some (d, rest)) f =
        (ground arith, ground arith, ground arith, λ c. omega (arith, f.3 c))

-- `t` is `s` after the connections that do not wait have moved, in their order, from the queue
-- to the end of the free list.
pub record Recycles (waits : ℕ → Bool) (s t : Socket) : Type 0 where
  pub queue : t.recy_connection_list ≡ keep_if waits s.recy_connection_list
  pub free :
      t.free_connection_list ≡ s.free_connection_list ++ keep_if (due waits) s.recy_connection_list
  pub all : t.connection_list ≡ s.connection_list
  pub next : t.next_conn ≡ s.next_conn

free_one-still_waits :
    (now stop c : ℕ) (rest : List ℕ) (s : Socket)
    → still_waits now stop (ser_free_connection c (record s { recy_connection_list = rest }))
      ≡ still_waits now stop s
unfolding ser_free_connection put_one_to_free
free_one-still_waits now stop c rest s = fun_ext (λ d. ground arith)

Recycles-step :
    (waits : ℕ → Bool) (c : ℕ) (rest : List ℕ) (s t : Socket)
    → Finds waits s.recy_connection_list (some (c, rest))
    → Recycles waits (ser_free_connection c (record s { recy_connection_list = rest })) t
    → Recycles waits s t
unfolding ser_free_connection
Recycles-step waits c rest s t f r = record {
  queue = r.queue ∙ sym f.0;
  free =
      r.free
      ∙ append_assoc s.free_connection_list (c ∷ []) (keep_if (due waits) rest)
      ∙ ap (λ l. s.free_connection_list ++ l) (sym f.1);
  all = r.all;
  next = r.next;
}

recycle_due-Recycles :
    (fuel now stop : ℕ) (s : Socket)
    → length s.recy_connection_list < fuel
    → Recycles (still_waits now stop s) s (recycle_due fuel now stop s)
unfolding recycle_due ser_free_connection
recycle_due-Recycles zero now stop s h = absurd (omega arith)
recycle_due-Recycles (suc fuel) now stop s h =
    by_scan (find_due waits s.recy_connection_list) (find_due-Finds waits s.recy_connection_list)
      (λ c rest l. rw (free_one-still_waits now stop c rest s) at (
        recycle_due-Recycles fuel now stop
          (ser_free_connection c (record s { recy_connection_list = rest })) l))
  where
    waits : ℕ → Bool
    waits = still_waits now stop s

    by_scan :
        (r : Option (ℕ × List ℕ))
        → Finds waits s.recy_connection_list r
        → ((c : ℕ) (rest : List ℕ)
            → length rest < fuel
            → Recycles waits (ser_free_connection c (record s { recy_connection_list = rest })) (
                recycle_due fuel now stop
                  (ser_free_connection c (record s { recy_connection_list = rest }))))
        → Recycles waits s (elim r [
          | none ↦ s
          | some (c, rest) ↦
              recycle_due fuel now stop
                (ser_free_connection c (record s { recy_connection_list = rest }))
        ])
    by_scan none f ih = record {
      queue = sym f.0;
      free =
          sym (append-nil s.free_connection_list) ∙ ap (λ l. s.free_connection_list ++ l) (sym f.1);
      all = refl;
      next = refl;
    }
    by_scan (some (c, rest)) f ih =
        Recycles-step waits c rest s _ f (ih c rest (omega (arith, f.2)))

none_waits : (waits : ℕ → Bool) (cs : List ℕ) → ((c : ℕ) → waits c ≡ false) → keep_if waits cs ≡ []
none_waits waits [] h = refl
none_waits waits (c ∷ cs) h = rw h (none_waits waits cs h)

recycle_all-nil : (cs : List ℕ) (s : Socket) → cs ≡ [] → recycle_all cs s ≡ s
unfolding recycle_all
recycle_all-nil [] s e = refl
recycle_all-nil (c ∷ cs) s e = cc

-- With the stop event set nothing is left for the second loop.
second_pass :
    (now stop : ℕ) (s t : Socket) (b : Bool)
    → (stop == 1) ≡ b
    → Recycles (still_waits now stop s) s t
    → Recycles (still_waits now stop s) s (if b then recycle_all t.recy_connection_list t else t)
second_pass now stop s t false e r = r
second_pass now stop s t true e r =
    rw
      (recycle_all-nil t.recy_connection_list t
        (r.queue ∙ none_waits (still_waits now stop s) s.recy_connection_list (λ c. ground arith)))
      r

-- One turn of the recycling thread ends, and moves from the queue to the end of the free list
-- exactly the connections that have waited `RecyConnectionWaiteTime` seconds, in the order of the
-- queue; while the server stops it moves all of them. The others stay in their order.
pub recy_connection_turn-Recycles :
    (now stop : ℕ) (s : Socket)
    → Recycles (still_waits now stop s) s (recy_connection_turn now stop s)
unfolding recy_connection_turn
recy_connection_turn-Recycles now stop s =
    second_pass now stop s (recycle_due (suc (length s.recy_connection_list)) now stop s)
      (stop == 1) refl
      (recycle_due-Recycles (suc (length s.recy_connection_list)) now stop s (omega arith))

count-keep_if :
    (p : ℕ → Bool) (a : ℕ) (xs : List ℕ)
    → count a (keep_if p xs) + count a (keep_if (due p) xs) ≡ count a xs
count-keep_if p a [] = refl
count-keep_if p a (x ∷ xs) = elim (Bool-cases (p x)) [
  | inl e ↦ rw e (omega (arith, count-keep_if p a xs))
  | inr e ↦ rw e (omega (arith, count-keep_if p a xs))
]

-- A turn of the recycling thread keeps the pool well-formed, and takes no connection that is in
-- use from its user.
pub recy_connection_turn-IsPooled :
    (now stop : ℕ) (s : Socket)
    → IsPooled s
    → IsPooled (recy_connection_turn now stop s)
      × ((c : ℕ) → in_use (recy_connection_turn now stop s) c ≡ in_use s c)
recy_connection_turn-IsPooled now stop s p = (
  record {
    parts = λ c. omega (arith, p.parts c, moved c);
    once = λ c. rw r.all (p.once c);
    fresh = λ c h. rw r.all (p.fresh c (rw r.next at h));
  },
  λ c. omega (arith, moved c),
)
  where
    t : Socket
    t = recy_connection_turn now stop s

    r : Recycles (still_waits now stop s) s t
    r = recy_connection_turn-Recycles now stop s

    waits : ℕ → Bool
    waits = still_waits now stop s

    moved :
        (c : ℕ)
        → (count c t.free_connection_list + count c t.recy_connection_list
            ≡ count c s.free_connection_list + count c s.recy_connection_list)
          × (count c t.connection_list ≡ count c s.connection_list)
    moved c = (
      rw (r.free, r.queue)
          (omega (
            arith,
            count-append c s.free_connection_list (keep_if (due waits) s.recy_connection_list),
            count-keep_if waits c s.recy_connection_list,
          )),
      ap (count c) r.all,
    )
