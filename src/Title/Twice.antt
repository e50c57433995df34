-- ===== src/Title/Twice.antt =====
-- The title that a worker sets after its master.
use linux_communication.Common.{
  ℕ, ◌+◌, ◌-◌, ◌≤◌, ◌<◌, ◌≡◌, ap, ◌∙◌, arith, List, [], ◌∷◌, length, length-append, true, ltb,
  if_true,
}
use linux_communication.Title.{
  str_copy, total_length, clear_from, Arguments, set_process_title, joined, master_title,
  set_master_title,
}
use linux_communication.Title.Area.{
  set_process_title-set, clear_from-behind, clear_from-size, str_copy-size,
}

length-joined :
    (t : List ℕ) (ts : List (List ℕ)) → length (joined (t ∷ ts)) + 1 ≡ total_length (t ∷ ts)
unfolding joined total_length
length-joined t [] = omega arith
length-joined t (u ∷ ts) =
    omega (arith, length-append t (b' ' ∷ joined (u ∷ ts)), length-joined u ts)

-- The memory seems longer than it is.
late-overflows :
    (environ_length : ℕ) (title : List ℕ) (a : Arguments)
    → length title < total_length a.argv + environ_length
    → a.memory.size < total_length a.argv + environ_length
    → (set_process_title environ_length title a).memory.overflow ≡ true
late-overflows environ_length title a h l =
    ap (λ (b : Arguments). b.memory.overflow)
      (set_process_title-set environ_length title a (omega (arith, h)))
    ∙ clear_from-behind (length title) (total_length a.argv + environ_length - length title)
        (str_copy 0 title a.memory) (omega (arith, h))
        (omega (arith, l, h, str_copy-size 0 title a.memory))

one_text : (t : List ℕ) → total_length (t ∷ []) ≡ length t + 1
unfolding total_length
one_text t = omega arith

-- A second title, set with the arguments that the first one left, is written behind the end of the
-- memory, if the first title with its NUL is longer than the arguments were.
second-overflows :
    (environ_length : ℕ) (first second : List ℕ) (a : Arguments)
    → a.memory.size ≡ total_length a.argv + environ_length
    → length first ≤ a.memory.size
    → total_length a.argv < length first + 1
    → length second ≤ length first + environ_length
    → (set_process_title environ_length second
        (set_process_title environ_length first a)).memory.overflow
      ≡ true
second-overflows environ_length first second a e l m k =
    let n = total_length a.argv + environ_length - length first in
    let b : Arguments = record {
      argv = first ∷ [];
      memory = clear_from (length first) n (str_copy 0 first a.memory);
    } in
    ap (λ c. (set_process_title environ_length second c).memory.overflow)
      (set_process_title-set environ_length first a (omega (arith, l, e)))
    ∙ late-overflows environ_length second b (omega (arith, k, one_text first)) (
        omega (
          arith,
          e,
          m,
          one_text first,
          clear_from-size (length first) n (str_copy 0 first a.memory),
          str_copy-size 0 first a.memory,
        ))

master_title-longer :
    (name t : List ℕ) (ts argv : List (List ℕ))
    → argv ≡ t ∷ ts
    → total_length argv < length (master_title name argv).0 + 1
unfolding master_title
master_title-longer name t ts argv e =
    rw e (omega (arith, length-append name (b' ' ∷ joined (t ∷ ts)), length-joined t ts))

-- The title of the master process is its name and all arguments, so it is longer than those were:
-- whenever the master sets it, the worker that sets its own title, if that is no longer than the
-- master's and the environment together, writes behind the end of the memory.
pub set_master_title-overflows :
    (environ_length : ℕ) (name worker t : List ℕ) (ts : List (List ℕ)) (a : Arguments)
    → a.argv ≡ t ∷ ts
    → a.memory.size ≡ total_length a.argv + environ_length
    → 8 + (total_length a.argv + length ts) < 1000
    → length (master_title name a.argv).0 ≤ a.memory.size
    → length worker ≤ length (master_title name a.argv).0 + environ_length
    → (set_process_title environ_length worker
        (set_master_title environ_length name a)).memory.overflow
      ≡ true
unfolding set_master_title
set_master_title-overflows environ_length name worker t ts a e size short fits worker_fits =
    let title = (master_title name a.argv).0 in
    ap (λ c. (set_process_title environ_length worker c).memory.overflow)
      (if_true (ltb (8 + (total_length a.argv + (length a.argv - 1))) 1000) _ _
        (ground (arith, short, ap length e)))
    ∙ second-overflows environ_length title worker a size fits
        (master_title-longer name t ts a.argv e) worker_fits
