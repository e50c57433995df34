-- ===== src/Config/Lookup.antt =====
-- Load and GetString on a whole file.
use linux_communication.Common.{
  ℕ, zero, suc, arith, get_or, none, ◌+◌, ◌<◌, ◌≤◌, ◌≡◌, refl, ap, ◌∙◌, sym, append_assoc, List, [],
  ◌∷◌, ◌++◌, Bool, true, false, length, some,
}
use linux_communication.Config.{
  ConfItem, LineResult, left_out, broken, parse_stripped, trim_from, is_line_end, name_size, item,
  load_line, load, load_reads, read_size, pieces, read_file, add_result, get_string,
}
use linux_communication.Config.Trim.{Passes, Passes-get_or}
use linux_communication.Config.Lines.{IsName, IsValue, entry, load_line-entry}

-- An entry of the file with its spacing.
pub record Entry : Type 0 where
  pub key : List ℕ
  pub before : ℕ
  pub after : ℕ
  pub value : List ℕ
  pub ends : List ℕ

abbrev pub line_of : Entry → List ℕ
line_of e = entry e.before e.after e.key e.value ++ e.ends

pub record IsEntry (e : Entry) : Type 0 where
  pub name : IsName e.key
  pub value : IsValue e.value
  pub short : length e.key + e.before < name_size
  pub fits : length (line_of e) ≤ read_size
  pub ending : Passes is_line_end e.ends

abbrev pub AllEntries : List Entry → Type 0
AllEntries [] = Unit {0}
AllEntries (e ∷ es) = IsEntry e × AllEntries es

abbrev pub lines_of : List Entry → List (List ℕ)
lines_of [] = []
lines_of (e ∷ es) = line_of e ∷ lines_of es

abbrev items_of : List Entry → List ConfItem
items_of [] = []
items_of (e ∷ es) = record { name = e.key; content = e.value } ∷ items_of es

pieces-fit : (room : ℕ) (line : List ℕ) → length line ≤ room → pieces room line ≡ (line, [])
unfolding pieces
pieces-fit room [] l = refl
pieces-fit zero (ch ∷ rest) l = absurd (omega (arith, l))
pieces-fit (suc room) (ch ∷ rest) l =
    ap (λ (r : List ℕ × List (List ℕ)). (ch ∷ r.0, r.1)) (pieces-fit room rest (omega (arith, l)))

read_file-lines_of : (es : List Entry) → AllEntries es → read_file (lines_of es) ≡ lines_of es
unfolding read_file
read_file-lines_of [] h = refl
read_file-lines_of (e ∷ es) h =
    ap (λ (r : List ℕ × List (List ℕ)). r.0 ∷ (r.1 ++ read_file (lines_of es)))
      (pieces-fit read_size (line_of e) h.0.fits)
    ∙ ap (λ ls. line_of e ∷ ls) (read_file-lines_of es h.1)

load_reads-lines_of :
    (es : List Entry) → AllEntries es → load_reads (lines_of es) ≡ some (items_of es)
unfolding load_reads add_result
load_reads-lines_of [] h = refl
load_reads-lines_of (e ∷ es) h =
    rw
      (
        load_line-entry e.before e.after e.key e.value e.ends h.0.name h.0.value h.0.short
            h.0.ending,
        load_reads-lines_of es h.1,
      )
      refl

load-lines_of : (es : List Entry) → AllEntries es → load (lines_of es) ≡ some (items_of es)
unfolding load
load-lines_of es h = ap load_reads (read_file-lines_of es h) ∙ load_reads-lines_of es h

-- No entry has a name that counts as `key`.
abbrev pub NoneNamed : (List ℕ → List ℕ → Bool) → List ℕ → List Entry → Type 0
NoneNamed same key [] = Unit {0}
NoneNamed same key (e ∷ es) = (same e.key key ≡ false) × NoneNamed same key es

get_string-items_of :
    (same : List ℕ → List ℕ → Bool) (key : List ℕ) (front back : List Entry) (e : Entry)
    → NoneNamed same key front
    → same e.key key ≡ true
    → get_string same key (items_of (front ++ (e ∷ back))) ≡ some e.value
unfolding get_string
get_string-items_of same key [] back e n h = rw h refl
get_string-items_of same key (f ∷ front) back e n h =
    rw n.0 (get_string-items_of same key front back e n.1 h)

-- A file of entries, each line of at most 499 characters, is loaded without a read or write outside a buffer, and a lookup finds the
-- value of the first entry whose name the comparison takes for the key, without the spaces and the
-- line end around it.
pub load-get_string :
    (same : List ℕ → List ℕ → Bool) (key : List ℕ) (front back : List Entry) (e : Entry)
    → AllEntries (front ++ (e ∷ back))
    → NoneNamed same key front
    → same e.key key ≡ true
    → (items : List ConfItem) × (load (lines_of (front ++ (e ∷ back))) ≡ some items)
      × (get_string same key items ≡ some e.value)
load-get_string same key front back e a n h = (
  items_of (front ++ (e ∷ back)),
  load-lines_of (front ++ (e ∷ back)) a,
  get_string-items_of same key front back e n h,
)

trim_from-blank :
    (n : ℕ) (s : List ℕ)
    → ((i : ℕ) → i < n → is_line_end (get_or s i 0) ≡ true)
    → trim_from is_line_end n s ≡ []
unfolding trim_from
trim_from-blank zero s h = refl
trim_from-blank (suc n) s h =
    rw (h n (omega arith)) (trim_from-blank n s (λ i l. h i (omega (arith, l))))

load_line-blank :
    (ch : ℕ) (rest : List ℕ) → Passes is_line_end (ch ∷ rest) → load_line (ch ∷ rest) ≡ broken
unfolding load_line parse_stripped
load_line-blank ch rest h =
    rw
      (trim_from-blank (length (ch ∷ rest)) (ch ∷ rest)
        (λ i l. Passes-get_or is_line_end (ch ∷ rest) i h l))
      refl

broken_stays : (r : LineResult) → add_result r none ≡ none
unfolding add_result
broken_stays left_out = refl
broken_stays (item i) = refl
broken_stays broken = refl

load_reads-blank :
    (front back : List (List ℕ)) (ch : ℕ) (rest : List ℕ)
    → Passes is_line_end (ch ∷ rest)
    → load_reads (front ++ ((ch ∷ rest) ∷ back)) ≡ none
unfolding load_reads add_result
load_reads-blank [] back ch rest h = rw (load_line-blank ch rest h) refl
load_reads-blank (l ∷ front) back ch rest h =
    rw (load_reads-blank front back ch rest h) (broken_stays (load_line l))

read_file-append :
    (front back : List (List ℕ)) → read_file (front ++ back) ≡ read_file front ++ read_file back
unfolding read_file
read_file-append [] back = refl
read_file-append (line ∷ front) back =
    let (piece, more) = pieces read_size line in
    ap (λ ls. piece ∷ (more ++ ls)) (read_file-append front back)
    ∙ ap (λ ls. piece ∷ ls) (sym (append_assoc more (read_file front) (read_file back)))

read_file-line :
    (line : List ℕ) (back : List (List ℕ))
    → length line ≤ read_size
    → read_file (line ∷ back) ≡ line ∷ read_file back
unfolding read_file
read_file-line line back l =
    ap (λ (r : List ℕ × List (List ℕ)). r.0 ∷ (r.1 ++ read_file back)) (pieces-fit read_size line l)

-- A line of at most 499 characters, at least one, that are all spaces, carriage returns and line
-- feeds, as between the groups of server.conf, makes `Load` read in front of `linebuf`, whatever
-- lines of any length stand before and after it.
pub load_blank :
    (front back : List (List ℕ)) (ch : ℕ) (rest : List ℕ)
    → Passes is_line_end (ch ∷ rest)
    → length (ch ∷ rest) ≤ read_size
    → load (front ++ ((ch ∷ rest) ∷ back)) ≡ none
unfolding load
load_blank front back ch rest h l =
    ap load_reads (
      read_file-append front ((ch ∷ rest) ∷ back)
      ∙ ap (λ ls. read_file front ++ ls) (read_file-line (ch ∷ rest) back l))
    ∙ load_reads-blank (read_file front) (read_file back) ch rest h
