-- ===== src/Tests/Configuring.antt =====
-- Tests of the configuration file.
use linux_communication.Common.{
  ℕ, ◌≡◌, refl, List, ◌∷◌, [], Bool, true, arith, some, none, ℤ, pos, ◌-◌,
}
use linux_communication.Config.{ConfItem, item, load_line, load, get_string, get_int_default}
use linux_communication.Config.Lines.{IsName, IsValue, load_line-entry}
use linux_communication.Config.Lookup.{Entry, IsEntry, lines_of, load-get_string, load_blank}
use linux_communication.Listen.{Calls, Sockets, rounds}
use linux_communication.Listen.Opening.{Opened}
use linux_communication.Start.{Settings, new_settings, listen_port, initialize}
use linux_communication.Start.Ports.{initialize-Opened}

-- A comparison that takes all names for equal.
abbrev any_name : List ℕ → List ℕ → Bool
any_name xs ys = true

-- `ab = 4`
abbrev ab_entry : Entry
ab_entry = record {
  key = 97 ∷ 98 ∷ [];
  before = 1;
  after = 1;
  value = 52 ∷ [];
  ends = 13 ∷ 10 ∷ [];
}

ab-IsName : IsName (97 ∷ 98 ∷ [])
ab-IsName = record {
  end = record { size = omega arith; last = refl };
  start = refl;
  no_equals = (refl, (refl, tt));
}

four-IsValue : IsValue (52 ∷ [])
four-IsValue = record { end = record { size = omega arith; last = refl }; start = refl }

ab_entry-IsEntry : IsEntry ab_entry
ab_entry-IsEntry = record {
  name = ab-IsName;
  value = four-IsValue;
  short = omega arith;
  fits = omega arith;
  ending = (refl, (refl, tt));
}

load_line-entry_run :
    load_line (97 ∷ 98 ∷ 32 ∷ 61 ∷ 32 ∷ 52 ∷ 13 ∷ 10 ∷ [])
    ≡ item (record { name = 97 ∷ 98 ∷ []; content = 52 ∷ [] })
load_line-entry_run =
    load_line-entry 1 1 (97 ∷ 98 ∷ []) (52 ∷ []) (13 ∷ 10 ∷ []) ab-IsName four-IsValue (omega arith)
      (refl, (refl, tt))

load-get_string_example :
    (items : List ConfItem) × (load (lines_of (ab_entry ∷ [])) ≡ some items)
    × (get_string any_name (97 ∷ 98 ∷ []) items ≡ some (52 ∷ []))
load-get_string_example =
    load-get_string any_name (97 ∷ 98 ∷ []) [] [] ab_entry (ab_entry-IsEntry, tt) tt refl

load_blank_example : load ((35 ∷ 10 ∷ []) ∷ (13 ∷ 10 ∷ []) ∷ []) ≡ none
load_blank_example =
    load_blank ((35 ∷ 10 ∷ []) ∷ []) [] 13 (10 ∷ []) (refl, (refl, tt)) (omega arith)

-- `atoi` of one digit.
abbrev digit : List ℕ → ℤ
digit [] = pos 0
digit (d ∷ ds) = pos (d - 48)

abbrev no_key : ℕ → List ℕ
no_key i = []

-- No socket can be made.
abbrev no_socket : ℕ → Calls
no_socket i = record {
  socket = none;
  reuses = true;
  nonblocking = true;
  binds = true;
  listens = true;
}

abbrev nothing_open : Sockets
nothing_open = record { listening = []; opened = []; closed = [] }

abbrev unset : Settings
unset = record {
  listen_port_count = pos 0;
  worker_connections = pos 0;
  recy_waite_time = pos 0;
  if_kick_timer = pos 0;
  wait_time = pos 0;
  if_time_out_kick = pos 0;
  flood_ak_enable = pos 0;
  flood_time_interval = pos 0;
  flood_kick_count = pos 0;
}

one_port : (new_settings unset).listen_port_count ≡ pos 1
unfolding new_settings
one_port = refl

default_port : listen_port any_name digit [] no_key 3 ≡ pos 10000
unfolding listen_port get_int_default
default_port = refl

initialize-Opened_example :
    (items : List ConfItem) × (load (lines_of (ab_entry ∷ [])) ≡ some items)
    × (let (ok, t, u) =
          initialize any_name digit items no_key no_socket (new_settings unset) nothing_open in
        (k : ℕ) × Opened
          (listen_port any_name digit items no_key)
          no_socket
          0
          (rounds (pos 4))
          nothing_open
          ok
          u
          k)
initialize-Opened_example =
    initialize-Opened any_name digit [] [] ab_entry (pos 4) no_key no_socket (new_settings unset)
      nothing_open (ab_entry-IsEntry, tt) tt refl refl
