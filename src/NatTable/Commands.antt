-- ===== src/NatTable/Commands.antt =====
-- The commands on the NAT of scone/or_nat.c, without their messages: `cli_nat_add`, `cli_nat_del`,
-- `cli_nat_reset` and `cli_nat_set`. What `sscanf` reads of a command is an argument, none where it does
-- not read all; so is what `inet_pton` makes of an address.
pub mod Laws
mod Tests
use osnt_plus.Prelude.{
  ℕ, ◌%◌, Bool, true, false, ◌&&◌, ◌||◌, Option, none, some, List, [], ◌∷◌, ◌==◌, if◌then◌else◌,
}
use osnt_plus.Net.{htons, strncmp_eq}
use osnt_plus.State.{NatEntry, IfaceEntry}
use osnt_plus.Iface.{sr_namelen}
use osnt_plus.RTable.Hardware.{eth0, eth1}
use osnt_plus.NatTable.{compute_nat_checksums, plain_pair}

-- The arguments of "nat add" and "nat del"
pub record NatArgs : Type 0 where
  pub ip_ext : Option ℕ
  pub port_ext : ℕ
  pub ip_int : Option ℕ
  pub port_int : ℕ

unfoldable pub static_entry : ℕ → ℕ → ℕ → ℕ → ℕ → NatEntry
static_entry now ip_ext port_ext ip_int port_int = record {
  nat_ext = compute_nat_checksums (plain_pair ip_ext (htons (port_ext % 65536)));
  nat_int = compute_nat_checksums (plain_pair ip_int (htons (port_int % 65536)));
  last_hits = 0;
  last_hits_time = now;
  hits = 0;
  hw_row = 0xFF;
  is_static = 1;
}

unfoldable pub is_external : ℕ → ℕ → NatEntry → Bool
is_external ip port ne = ne.nat_ext.ip == ip && ne.nat_ext.port == port

-- The first entry with the same external pair is replaced; where there is none, the new one is appended.
unfoldable pub put_entry : NatEntry → List NatEntry → List NatEntry
put_entry ne [] = ne ∷ []
put_entry ne (ne_existing ∷ cur) =
    let rest = put_entry ne cur in
    if is_external ne.nat_ext.ip ne.nat_ext.port ne_existing then ne ∷ cur else ne_existing ∷ rest

unfoldable pub cli_nat_add : ℕ → Option NatArgs → List NatEntry → List NatEntry
unfolding put_entry is_external static_entry
cli_nat_add now none nat_table = nat_table
cli_nat_add now (some args) nat_table = elim args.ip_ext [
  | none ↦ nat_table
  | some ip_ext ↦ elim args.ip_int [
    | none ↦ nat_table
    | some ip_int ↦ put_entry (static_entry now ip_ext args.port_ext ip_int args.port_int) nat_table
  ]
]

-- The list without the first entry of the external pair, and whether there was one
unfoldable pub remove_entry : ℕ → ℕ → List NatEntry → List NatEntry × Bool
remove_entry ip port [] = ([], false)
remove_entry ip port (ne_existing ∷ cur) =
    let (rest, found) = remove_entry ip port cur in
    if is_external ip port ne_existing then (cur, true) else (ne_existing ∷ rest, found)

unfoldable pub cli_nat_del : Option NatArgs → List NatEntry → List NatEntry × Bool
unfolding remove_entry is_external
cli_nat_del none nat_table = (nat_table, false)
cli_nat_del (some args) nat_table = elim args.ip_ext [
  | none ↦ (nat_table, false)
  | some ip ↦ remove_entry ip (htons (args.port_ext % 65536)) nat_table
]

-- The loop removes every node; the writes to the device are commented out.
unfoldable pub cli_nat_reset : List NatEntry → List NatEntry
cli_nat_reset [] = []
cli_nat_reset (ne ∷ cur) = cli_nat_reset cur

abbrev pub off : List ℕ
off = b'o' ∷ b'f' ∷ b'f' ∷ []

abbrev pub behind : IfaceEntry → Option (List IfaceEntry) → Option (List IfaceEntry)
behind ie none = none
behind ie (some cur) = some (ie ∷ cur)

-- `get_iface(rs, iface)->is_wan = 1`: none where the pointer is null
unfoldable pub set_wan : List ℕ → List IfaceEntry → Option (List IfaceEntry)
set_wan iface [] = none
set_wan iface (ie ∷ cur) =
    let rest = behind ie (set_wan iface cur) in
    if strncmp_eq iface ie.name sr_namelen then some (record ie { is_wan = 1 } ∷ cur) else rest

abbrev pub clear_wan : List IfaceEntry → List IfaceEntry
clear_wan [] = []
clear_wan (ie ∷ cur) = record ie { is_wan = 0 } ∷ clear_wan cur

unfoldable pub cli_nat_set : Option (List ℕ) → List IfaceEntry → Option (List IfaceEntry)
unfolding set_wan
cli_nat_set none if_list = some if_list
cli_nat_set (some iface) if_list =
    let set = set_wan iface if_list in
    if strncmp_eq iface eth0 4 || strncmp_eq iface eth1 4
    then set
    else if strncmp_eq iface off 3
    then some (clear_wan if_list)
    else some if_list
