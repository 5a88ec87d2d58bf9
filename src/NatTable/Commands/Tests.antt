-- ===== src/NatTable/Commands/Tests.antt =====
-- The commands on a table with one entry, for 192.168.0.1 port 2000.
use osnt_plus.Prelude.{ℕ, ◌%◌, ◌≤◌, ◌≡◌, refl, true, none, some, List, [], ◌∷◌, ◌++◌, arith, length}
use osnt_plus.Net.{htons, ntohs, strncmp_eq}
use osnt_plus.RTable.Hardware.{eth0}
use osnt_plus.State.{NatEntry, IfaceEntry}
use osnt_plus.NatTable.{new_nat_entry, compute_nat_checksums}
use osnt_plus.NatTable.Commands.{
  is_external, static_entry, cli_nat_add, cli_nat_del, cli_nat_set, set_wan, off,
}
use osnt_plus.NatTable.Commands.Laws.{
  Differs, entries_at, whole, cli_nat_add_lem, cli_nat_del-cli_nat_add,
}

abbrev table : List NatEntry
table = new_nat_entry 7 16820416 2000 83951626 34835 ∷ []

at_most_one : length (entries_at 16820416 (htons (2000 % 65536)) table) ≤ 1
unfolding is_external new_nat_entry compute_nat_checksums ntohs
at_most_one = omega arith

none_there : entries_at 16820416 (htons (2001 % 65536)) table ≡ []
unfolding is_external new_nat_entry compute_nat_checksums ntohs
none_there = refl

add_example :
    (entries_at 16820416
        (htons (2000 % 65536))
        (cli_nat_add 9 (some (whole 16820416 2000 83951626 80)) table)
      ≡ static_entry 9 16820416 2000 83951626 80 ∷ [])
    × ((ip port : ℕ)
        → Differs 16820416 (htons (2000 % 65536)) ip port
        → entries_at ip port (cli_nat_add 9 (some (whole 16820416 2000 83951626 80)) table)
          ≡ entries_at ip port table)
add_example = cli_nat_add_lem 9 16820416 2000 83951626 80 table at_most_one

del_example :
    cli_nat_del
      (some (whole 16820416 2001 83951626 80))
      (cli_nat_add 9 (some (whole 16820416 2001 83951626 80)) table)
    ≡ (table, true)
del_example = cli_nat_del-cli_nat_add 9 16820416 2001 83951626 80 table none_there

abbrev port0 : IfaceEntry
port0 = record {
  name = eth0;
  addr = [];
  ip = 0;
  mask = 0;
  speed = 0;
  is_active = true;
  last_sent_hello = 0;
  nbr_routers = [];
  is_wan = 0;
}

-- "nat set eth0" marks the interface, "nat set off" clears it, and "nat set eth0x" follows a null pointer.
sets :
    (cli_nat_set (some eth0) (port0 ∷ []) ≡ some (record port0 { is_wan = 1 } ∷ []))
    × (cli_nat_set (some off) (record port0 { is_wan = 1 } ∷ []) ≡ some (port0 ∷ []))
    × (cli_nat_set (some (eth0 ++ b'x' ∷ [])) (port0 ∷ []) ≡ none)
unfolding cli_nat_set set_wan strncmp_eq
sets = (refl, refl, refl)
