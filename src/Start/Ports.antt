-- ===== src/Start/Ports.antt =====
-- The listening sockets that a configuration file leads to.
use linux_communication.Common.{
  ℕ, ◌≡◌, refl, ap, ◌∙◌, List, [], ◌∷◌, ◌++◌, Bool, true, Bool-cases, Option, none, some, inl, inr,
  ℤ, codes,
}
use linux_communication.Config.{ConfItem, load, get_string, get_int_default}
use linux_communication.Config.Lookup.{Entry, AllEntries, NoneNamed, lines_of, load-get_string}
use linux_communication.Listen.{Calls, Sockets, rounds}
use linux_communication.Listen.Opening.{Opened, ser_open_listening_sockets-Opened}
use linux_communication.Start.{Settings, read_conf, listen_port, initialize}

abbrev or_default : (List ℕ → ℤ) → ℤ → Option (List ℕ) → ℤ
or_default atoi default none = default
or_default atoi default (some text) = atoi text

-- GetIntDefault is GetString, and `atoi` of what that finds.
pub get_int_default-get_string :
    (same : List ℕ → List ℕ → Bool) (atoi : List ℕ → ℤ) (key : List ℕ) (default : ℤ)
    (items : List ConfItem)
    → get_int_default same atoi key default items
      ≡ or_default atoi default (get_string same key items)
unfolding get_int_default get_string
get_int_default-get_string same atoi key default [] = refl
get_int_default-get_string same atoi key default (i ∷ items) = elim (Bool-cases (same i.name key)) [
  | inl e ↦ rw e refl
  | inr e ↦ rw e (get_int_default-get_string same atoi key default items)
]

-- From the file to the sockets. Of a file of entries, each line of at most 499 characters, the first
-- of which that is named "ListenPortCount" has a value that `atoi` makes `count`: it is loaded; then Initialize works
-- through `count` ports, each with the number that the file has for it, or 10000, up to the first
-- with a call that fails; it returns true if there is none; each port before it has its listening
-- socket, and every other descriptor that `socket` returned is closed.
pub initialize-Opened :
    (same : List ℕ → List ℕ → Bool) (atoi : List ℕ → ℤ) (front back : List Entry) (e : Entry)
    (count : ℤ) (key : ℕ → List ℕ) (calls : ℕ → Calls) (settings : Settings) (s : Sockets)
    → AllEntries (front ++ (e ∷ back))
    → NoneNamed same (codes "ListenPortCount") front
    → same e.key (codes "ListenPortCount") ≡ true
    → atoi e.value ≡ count
    → (items : List ConfItem) × (load (lines_of (front ++ (e ∷ back))) ≡ some items)
      × (let (ok, t, u) = initialize same atoi items key calls settings s in
          (k : ℕ) × Opened (listen_port same atoi items key) calls 0 (rounds count) s ok u k)
unfolding initialize read_conf
initialize-Opened same atoi front back e count key calls settings s a n h v =
    let (items, loaded, found) =
      load-get_string same (codes "ListenPortCount") front back e a n h in
    let total : (read_conf same atoi items settings).listen_port_count ≡ count =
      get_int_default-get_string same atoi (codes "ListenPortCount") settings.listen_port_count
        items
      ∙ ap (or_default atoi settings.listen_port_count) found
      ∙ v in
    let n = (read_conf same atoi items settings).listen_port_count in
    let port = listen_port same atoi items key in
    (items, loaded, rw⁻¹ total (ser_open_listening_sockets-Opened n port calls s))
