-- ===== src/Title.antt =====
-- app/ser_function.cxx: MoveEnviron and SetProcessTitle; proc/ser_process_cycle.cxx: the title of
-- the master process; app/server.cxx: the lengths of the arguments and of the environment.
-- Memory is a page of bytes, as in Log; the texts of the arguments and of the environment stand in
-- one page, one behind the other, which is where SetProcessTitle writes.
pub mod Environ
pub mod Area
pub mod Twice
use linux_communication.Common.{
  ℕ, zero, suc, ◌+◌, ◌-◌, List, [], ◌∷◌, ◌++◌, length, Bool, true, false, Option, none, some, codes,
  ltb, if◌then◌else◌,
}
use linux_communication.Log.{Page, blank_page, write_at, write_all}

-- `strcpy(p, text)`: the text and a NUL.
pub str_copy : ℕ → List ℕ → Page → Page
str_copy i text p = write_at (i + length text) 0 (write_all i text p)

-- `ArgvLength` and `EnvironLength`; also the loop at the start of SetProcessTitle.
unfoldable pub total_length : List (List ℕ) → ℕ
total_length [] = 0
total_length (t ∷ ts) = length t + 1 + total_length ts

-- The loop of `MoveEnviron` from the place `i` on: the pointers, and the memory.
unfoldable pub move_from : ℕ → List (List ℕ) → Page → List ℕ × Page
move_from i [] p = ([], p)
move_from i (t ∷ ts) p =
    let (pointers, q) = move_from (i + (length t + 1)) ts (str_copy i t p) in (i ∷ pointers, q)

-- `pNewEnviron`, set to 0, and `MoveEnviron` into it.
unfoldable pub move_environ : List (List ℕ) → List ℕ × Page
move_environ environ = move_from 0 environ (blank_page (total_length environ))

-- `memset(p + i, 0, n)`
pub clear_from : ℕ → ℕ → Page → Page
clear_from i zero p = p
clear_from i (suc n) p = clear_from (i + 1) n (write_at i 0 p)

-- `pArgv`, as the texts that it points to up to the null pointer, and the memory behind `pArgv[0]`.
pub record Arguments : Type 0 where
  pub argv : List (List ℕ)
  pub memory : Page

-- `SetProcessTitle`. Afterwards `pArgv[0]` is the title and `pArgv[1]` is null.
pub set_process_title : ℕ → List ℕ → Arguments → Arguments
set_process_title environ_length title a =
    let total = total_length a.argv + environ_length in
    let size = length title in
    if ltb total size then a else record {
      argv = title ∷ [];
      memory = clear_from size (total - size) (str_copy 0 title a.memory);
    }

-- The arguments with a blank between them.
unfoldable pub joined : List (List ℕ) → List ℕ
joined [] = []
joined (t ∷ []) = t
joined (t ∷ u ∷ ts) = t ++ (b' ' ∷ joined (u ∷ ts))

-- The buffer `title` of the master process and what is written to it; the text that it then holds.
unfoldable pub master_title : List ℕ → List (List ℕ) → List ℕ × Page
master_title name argv =
    let text = name ++ (b' ' ∷ joined argv) in (text, str_copy 0 text (blank_page 1000))

-- The test and the call in `ser_master_process_cycle`: `sizeof` of the pointer is 8.
pub set_master_title : ℕ → List ℕ → Arguments → Arguments
set_master_title environ_length name a =
    let size = 8 + (total_length a.argv + (length a.argv - 1)) in
    if ltb size 1000 then set_process_title environ_length (master_title name a.argv).0 a else a
