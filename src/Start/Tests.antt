-- ===== src/Start/Tests.antt =====
-- The start with two ports and a CPU interface, and events after it.
use osnt_plus.Prelude.{
  ℕ, ◌≡◌, ◌⊎◌, refl, Bool, true, false, none, some, List, [], ◌∷◌, map, inl, inr, All,
}
use osnt_plus.State.{RouterState, lock_free}
use osnt_plus.RTable.Hardware.{eth0, eth1, cpu0}
use osnt_plus.Packet.{Packet}
use osnt_plus.Filters.Strcmp.{strcmp}
use osnt_plus.Pwospf.WellFormed.{WellFormed}
use osnt_plus.Pwospf.Events.{Event, AllFit, run, hello_thread, lsu_thread, lsu_timeout_thread}
use osnt_plus.Start.{Tables, VnsIf, RtableLine, strstr, port_number, start}
use osnt_plus.Start.Lines.{has_default}
use osnt_plus.Start.Fresh.{IsUsable}
use osnt_plus.Start.Safe.{run-start}

abbrev tables : Tables
tables = record {
  rtable_width = 4;
  rtable_address = 4;
  arp_width = 4;
  arp_address = 4;
  filter_width = 4;
  filter_address = 4;
}

-- 10.0.1.1 and 10.0.2.1
abbrev port : List ℕ → ℕ → VnsIf
port name ip = record {
  name = name;
  addr = 2 ∷ 0 ∷ 0 ∷ 0 ∷ 0 ∷ 1 ∷ [];
  ip = ip;
  mask = 16777215;
  speed = 0;
}

abbrev ports : List VnsIf
ports = port eth0 16842762 ∷ port cpu0 0 ∷ port eth1 16908298 ∷ []

-- 10.0.3.0/24 and, in the second list, the default route, both through 10.0.1.9
abbrev lines : List RtableLine
lines = record { ip = 196618; gw = 151060490; mask = 16777215; iface = eth0 } ∷ []

abbrev default_lines : List RtableLine
default_lines = record { ip = 0; gw = 151060490; mask = 0; iface = eth0 } ∷ lines

abbrev takes_all : Packet → List ℕ → Bool
takes_all p iface = true

abbrev events : List Event
events = hello_thread 105 ∷ lsu_thread 131 ∷ lsu_timeout_thread 200 ∷ []

usable : All IsUsable ports
unfolding strstr port_number
usable = (inr (0, refl), (inl refl, (inr (1, refl), tt)))

-- The passes of the threads ask for nothing.
events-fit :
    (rs : RouterState)
    → start strcmp tables 100 [] ports (map some lines) ≡ some rs
    → AllFit takes_all events rs
events-fit rs starts = (tt, λ rs1 e1. (tt, λ rs2 e2. (tt, λ rs3 e3. tt)))

run-start_example :
    ((has_default lines ≡ true) × (start strcmp tables 100 [] ports (map some lines) ≡ none))
    ⊎ ((has_default lines ≡ false)
        × ((rs rs' : RouterState) × (start strcmp tables 100 [] ports (map some lines) ≡ some rs)
            × (run takes_all events rs ≡ some rs')
            × WellFormed rs'
            × (rs'.pwospf_router_list_lock ≡ lock_free)))
run-start_example = run-start strcmp tables 100 [] ports lines takes_all events usable events-fit
