-- ===== src/Timer/Deletion.antt =====
-- What DeleteFromTimerQueue takes out of the timer queue.
use linux_communication.Common.{
  ℕ, ◌+◌, ◌≡◌, ◌≢◌, refl, sym, ◌∙◌, ap, ap₂, arith, List, [], ◌∷◌, length, ◌==◌, if◌then◌else◌,
  Option, none, some, Bool, true, false, Bool-cases, inl, inr, if_true, if_false, ℕ_discrete, ◌&&◌,
  ◌||◌,
}
use linux_communication.Memory.{Block, Heap, free_memory-live}
use linux_communication.Socket.{Socket}
use linux_communication.Timer.{delete_entries, points_to, check_entry, delete_from_timer_queue}

-- No entry has the block `p`.
abbrev pub Lacks : ℕ → List (ℕ × ℕ) → Type 0
Lacks p [] = Unit {0}
Lacks p ((t, q) ∷ rest) = (q ≢ p) × Lacks p rest

-- No two entries have one block.
abbrev pub HasOwnBlocks : List (ℕ × ℕ) → Type 0
HasOwnBlocks [] = Unit {0}
HasOwnBlocks ((t, p) ∷ rest) = Lacks p rest × HasOwnBlocks rest

-- The entries that are not of connection `c`.
abbrev pub of_others : ℕ → Heap → List (ℕ × ℕ) → List (ℕ × ℕ)
of_others c h [] = []
of_others c h ((t, p) ∷ rest) =
    if points_to c (h.cells p) then of_others c h rest else (t, p) ∷ of_others c h rest

-- Whether an entry has the block `q`.
pub has_block : ℕ → List (ℕ × ℕ) → Bool
has_block q [] = false
has_block q ((t, p) ∷ rest) = (p == q) || has_block q rest

-- The blocks of all entries are live.
abbrev pub AllLive : Heap → List (ℕ × ℕ) → Type 0
AllLive h [] = Unit {0}
AllLive h ((t, p) ∷ rest) = ((b : Block) × (h.cells p ≡ some b)) × AllLive h rest

Lacks-has_block : (q : ℕ) (m : List (ℕ × ℕ)) → Lacks q m → has_block q m ≡ false
unfolding has_block
Lacks-has_block q [] l = refl
Lacks-has_block q ((t, p) ∷ rest) l = ground (arith, l.0, Lacks-has_block q rest l.1)

-- How `g` comes from `h` by freeing one block at most.
record FreesOnly (c p : ℕ) (h g : Heap) : Type 0 where
  fault : g.fault ≡ h.fault
  own : g.cells p ≡ (if points_to c (h.cells p) then none else h.cells p)
  cells : (q : ℕ) → q ≢ p → g.cells q ≡ h.cells q

check_block :
    (c p : ℕ) (h : Heap) (m : Block)
    → h.cells p ≡ some m
    → FreesOnly c p h (check_entry c p (h.cells p) h)
unfolding points_to check_entry
check_block c p h m e = elim (Bool-cases (m.conn == c)) [
  | inl k ↦
      rw (e, k, free_memory-live p m h e)
        (record { fault = refl; own = ground (arith, e, k); cells = λ q n. ground (arith, n) })
  | inr k ↦ rw (e, k) (record { fault = refl; own = ground (arith, e, k); cells = λ q n. refl })
]

of_others-Lacks :
    (c p : ℕ) (h g : Heap) (m : List (ℕ × ℕ))
    → FreesOnly c p h g
    → Lacks p m
    → of_others c g m ≡ of_others c h m
of_others-Lacks c p h g [] f l = refl
of_others-Lacks c p h g ((t, q) ∷ rest) f l = rw (f.cells q l.0) (
    ap₂ (λ x y. if points_to c (h.cells q) then x else (t, q) ∷ y)
      (of_others-Lacks c p h g rest f l.1) (of_others-Lacks c p h g rest f l.1))

-- What the loop of DeleteFromTimerQueue leaves.
pub record Deletes (c : ℕ) (m : List (ℕ × ℕ)) (h : Heap) (r : List (ℕ × ℕ) × Heap × ℕ)
    : Type 0 where
  pub stay : r.0 ≡ of_others c h m
  pub counted : length r.0 + r.2 ≡ length m
  pub fault : r.1.fault ≡ h.fault
  pub freed :
      (q : ℕ) → r.1.cells q ≡ (if has_block q m && points_to c (h.cells q) then none else h.cells q)

AllLive-FreesOnly :
    (c p : ℕ) (h g : Heap) (m : List (ℕ × ℕ))
    → FreesOnly c p h g
    → Lacks p m
    → AllLive h m
    → AllLive g m
AllLive-FreesOnly c p h g [] f l v = tt
AllLive-FreesOnly c p h g ((t, q) ∷ rest) f l v =
    ((v.0.0, f.cells q l.0 ∙ v.0.1), AllLive-FreesOnly c p h g rest f l.1 v.1)

freed_of :
    (c t p : ℕ) (rest : List (ℕ × ℕ)) (h g : Heap)
    → Lacks p rest
    → FreesOnly c p h g
    → (q : ℕ) (o : Option Block)
    → o ≡ (if has_block q rest && points_to c (g.cells q) then none else g.cells q)
    → o ≡ (if has_block q ((t, p) ∷ rest) && points_to c (h.cells q) then none else h.cells q)
unfolding has_block
freed_of c t p rest h g l f q o e = elim (ℕ_discrete p q) [
  | yes k ↦ ground (
    arith,
    k,
    e,
    ap g.cells k,
    ap h.cells k,
    f.own,
    Lacks-has_block p rest l,
    ap (λ x. has_block x rest) k,
  )
  | no n ↦ ground (arith, n, e, f.cells q (λ x. n (sym x)))
]

one_entry :
    (c t p : ℕ) (rest : List (ℕ × ℕ)) (h g : Heap) (b : Bool) (r : List (ℕ × ℕ) × Heap × ℕ)
    → points_to c (h.cells p) ≡ b
    → Lacks p rest
    → FreesOnly c p h g
    → Deletes c rest g r
    → Deletes c ((t, p) ∷ rest) h (if b then (r.0, r.1, r.2 + 1) else ((t, p) ∷ r.0, r.1, r.2))
one_entry c t p rest h g true r e l f d = record {
  stay = d.stay ∙ of_others-Lacks c p h g rest f l ∙ sym (if_true (points_to c (h.cells p)) _ _ e);
  counted = omega (arith, d.counted);
  fault = d.fault ∙ f.fault;
  freed = λ q. freed_of c t p rest h g l f q (r.1.cells q) (d.freed q);
}
one_entry c t p rest h g false r e l f d = record {
  stay =
      ap (λ x. (t, p) ∷ x) (d.stay ∙ of_others-Lacks c p h g rest f l)
      ∙ sym (if_false (points_to c (h.cells p)) _ _ e);
  counted = omega (arith, d.counted);
  fault = d.fault ∙ f.fault;
  freed = λ q. freed_of c t p rest h g l f q (r.1.cells q) (d.freed q);
}

delete_entries-Deletes :
    (c : ℕ) (m : List (ℕ × ℕ)) (h : Heap)
    → HasOwnBlocks m
    → AllLive h m
    → Deletes c m h (delete_entries c m h)
unfolding delete_entries has_block
delete_entries-Deletes c [] h o v = record {
  stay = refl;
  counted = refl;
  fault = refl;
  freed = λ q. refl;
}
delete_entries-Deletes c ((t, p) ∷ rest) h o v =
    let g = check_entry c p (h.cells p) h in
    let f : FreesOnly c p h g = check_block c p h v.0.0 v.0.1 in
    one_entry c t p rest h g (points_to c (h.cells p)) (delete_entries c rest g) refl o.0 f
      (delete_entries-Deletes c rest g o.1 (AllLive-FreesOnly c p h g rest f o.0 v.1))

-- Where the blocks of the timer queue are live and no two entries share one: deleting a connection
-- takes out exactly the entries whose block names it, leaves the others in their order, counts
-- those that stay, frees the blocks of the entries that it takes out and no other block, and reads
-- or frees no dead one.
pub delete_from_timer_queue-Deletes :
    (c : ℕ) (s : Socket)
    → HasOwnBlocks s.timer_queue_map
    → AllLive s.heap s.timer_queue_map
    → s.timer_queue_size ≡ length s.timer_queue_map
    → let t = delete_from_timer_queue c s in
      (t.timer_queue_map ≡ of_others c s.heap s.timer_queue_map)
      × (t.timer_queue_size ≡ length t.timer_queue_map)
      × (t.heap.fault ≡ s.heap.fault)
      × ((q : ℕ)
          → t.heap.cells q ≡ (
              if has_block q s.timer_queue_map && points_to c (s.heap.cells q)
              then none
              else s.heap.cells q))
unfolding delete_from_timer_queue
delete_from_timer_queue-Deletes c s o v n =
    let d = delete_entries-Deletes c s.timer_queue_map s.heap o v in
    (
      ground (arith, d.stay),
      ground (arith, d.counted, n),
      ground (arith, d.fault),
      λ q. ground (arith, d.freed q),
    )
