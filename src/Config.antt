-- ===== src/Config.antt =====
-- app/ser_configer.cxx, and Rtrim and Ltrim of app/ser_function.cxx: the configuration file.
-- A line is the list of its characters, its line end included; none of them is NUL. `fgets` reads
-- a line of more than 499 characters in several pieces. `strcasecmp` and `atoi` are the C library's and are arguments.
pub mod Trim
pub mod Lines
pub mod Lookup
use linux_communication.Common.{
  ℕ, zero, suc, ◌-◌, ◌++◌, ℤ, List, [], ◌∷◌, Bool, true, false, ◌||◌, Option, none, some, length,
  get_or, take, ltb, ◌==◌, if◌then◌else◌,
}

-- A string of `n` characters loses those at its end that pass a test.
pub trim_from : (ℕ → Bool) → ℕ → List ℕ → List ℕ
trim_from p zero s = []
trim_from p (suc n) s =
    let rest = trim_from p n s in if p (get_or s n 0) then rest else take (suc n) s

abbrev pub is_space : ℕ → Bool
is_space ch = ch == 32

-- `Rtrim`
pub rtrim : List ℕ → List ℕ
rtrim s = trim_from is_space (length s) s

-- `Ltrim`
pub ltrim : List ℕ → List ℕ
ltrim [] = []
ltrim (ch ∷ rest) = if is_space ch then ltrim rest else ch ∷ rest

-- What the loop at `lblprocstring` takes off: line feed, carriage return, space.
abbrev pub is_line_end : ℕ → Bool
is_line_end ch = (ch == 10) || (ch == 13) || (ch == 32)

-- The first characters of lines that are left out: `;`, space, NUL, `\n`, `\t`, `[`, `#`.
abbrev pub is_left_out : ℕ → Bool
is_left_out ch =
    (ch == 59) || (ch == 32) || (ch == 0) || (ch == 10) || (ch == 9) || (ch == 91) || (ch == 35)

-- `strchr(linebuf, '=')`: what stands before the first `=`, and behind it.
pub split_at_equals : List ℕ → Option (List ℕ × List ℕ)
split_at_equals [] = none
split_at_equals (ch ∷ rest) =
    let found = split_at_equals rest in
    if ch == 61
    then some ([], rest)
    else elim found [ none ↦ none | some (name, content) ↦ some (ch ∷ name, content) ]

-- `ConfItem`; `mName` has room for 50 characters.
pub record ConfItem : Type 0 where
  pub name : List ℕ
  pub content : List ℕ

abbrev pub name_size : ℕ
name_size = 50

-- What a line comes to: nothing, an item, or a read or write outside a buffer.
pub data LineResult : Type 0 where
  left_out : LineResult
  item : ConfItem → LineResult
  broken : LineResult

-- The item that is made of the two sides of the `=`; a name that fills `mName` has no NUL.
pub make_item : Option (List ℕ × List ℕ) → LineResult
make_item none = left_out
make_item (some (name, content)) =
    if ltb (length name) name_size
    then item (record { name = ltrim (rtrim name); content = ltrim (rtrim content) })
    else broken

-- The line after its end is cut off; where nothing is left, the loop has read `linebuf[-1]`.
pub parse_stripped : List ℕ → LineResult
parse_stripped [] = broken
parse_stripped (ch ∷ rest) =
    if is_left_out ch then left_out else make_item (split_at_equals (ch ∷ rest))

-- One round of the loop of `Load`.
pub load_line : List ℕ → LineResult
load_line [] = left_out
load_line (ch ∷ rest) = parse_stripped (trim_from is_line_end (length (ch ∷ rest)) (ch ∷ rest))

add_result : LineResult → Option (List ConfItem) → Option (List ConfItem)
add_result left_out items = items
add_result (item i) none = none
add_result (item i) (some items) = some (i ∷ items)
add_result broken items = none

-- The rounds of the loop of `Load` over what the calls of `fgets` read; `none` after a read or write
-- outside a buffer.
pub load_reads : List (List ℕ) → Option (List ConfItem)
load_reads [] = some []
load_reads (line ∷ lines) = add_result (load_line line) (load_reads lines)

-- `fgets(linebuf, 500, fp)` reads as many characters of a line.
abbrev pub read_size : ℕ
read_size = 499

-- A line as the calls of `fgets` read it: the rest of the piece that `room` characters still fit in,
-- and the pieces behind it.
pub pieces : ℕ → List ℕ → List ℕ × List (List ℕ)
pieces room [] = ([], [])
pieces zero (ch ∷ rest) =
    let (piece, more) = pieces (read_size - 1) rest in ([], (ch ∷ piece) ∷ more)
pieces (suc room) (ch ∷ rest) = let (piece, more) = pieces room rest in (ch ∷ piece, more)

-- What the calls of `fgets` read of a file, given by its lines.
pub read_file : List (List ℕ) → List (List ℕ)
read_file [] = []
read_file (line ∷ lines) =
    let (piece, more) = pieces read_size line in piece ∷ (more ++ read_file lines)

-- `Load` over the lines of a file that can be opened.
pub load : List (List ℕ) → Option (List ConfItem)
load lines = load_reads (read_file lines)

module _ (same_name : List ℕ → List ℕ → Bool) where
  -- `GetString`; `same_name` is `strcasecmp(...) == 0`.
  unfoldable pub get_string : List ℕ → List ConfItem → Option (List ℕ)
  get_string key [] = none
  get_string key (i ∷ items) = if same_name i.name key then some i.content else get_string key items

  -- `GetIntDefault`
  unfoldable pub get_int_default : (List ℕ → ℤ) → List ℕ → ℤ → List ConfItem → ℤ
  get_int_default atoi key default [] = default
  get_int_default atoi key default (i ∷ items) =
      if same_name i.name key then atoi i.content else get_int_default atoi key default items
