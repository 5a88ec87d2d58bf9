-- ===== src/NatTable.antt =====
-- The table of scone/or_nat.c: the entries, the cached checksums and the incremental update, the
-- search, and the choice of an external port. Addresses, ports and checksums are in network order,
-- as they lie in memory. The running averages of hits (doubles) are not modelled.
pub mod Checksums
pub mod Commands
pub mod Entries
pub mod Upkeep
mod Tests
use osnt_plus.Prelude.{
  ℕ, zero, suc, ◌+◌, ◌-◌, ◌*◌, ◌/◌, ◌%◌, ◌^◌, Bool, true, false, not, ◌&&◌, ◌||◌, Option, none,
  some, List, [], ◌∷◌, ◌++◌, ltb, ◌==◌, if◌then◌else◌, length,
}
use osnt_plus.Net.{ntohs}
use osnt_plus.Checksum.{fold_complement}
use osnt_plus.State.{NatIpPortPair, NatEntry}

-- NAT_EXTERNAL and NAT_INTERNAL, the only values that the code passes
pub data NatType : Type 0 where
  external internal : NatType

-- The two shorts of an address in memory, and a 16-bit complement.
abbrev pub low_short : ℕ → ℕ
low_short ip = ip % 65536

abbrev pub high_short : ℕ → ℕ
high_short ip = ip / 65536 % 65536

-- `compute_nat_checksums`
unfoldable pub compute_nat_checksums : NatIpPortPair → NatIpPortPair
compute_nat_checksums pair = record pair {
  checksum =
      ntohs (
        fold_complement (ntohs (low_short pair.ip) + ntohs (high_short pair.ip) + ntohs pair.port));
  checksum_ip = ntohs (fold_complement (ntohs (low_short pair.ip) + ntohs (high_short pair.ip)));
  checksum_port = 65535 - pair.port % 65536;
}

-- `nat_checksum(old, pos, neg)`; `word` is a uint32_t, so the subtraction wraps.
unfoldable pub nat_checksum : ℕ → ℕ → ℕ → ℕ
nat_checksum old pos neg =
    let sum = old + pos in
    let word = (sum / 65536 + sum % 65536 + 2 ^ 32 - neg) % 2 ^ 32 in
    (if ltb 65535 word then word - 1 else word) % 65536

-- `found_nat_table_match`
unfoldable pub found_nat_table_match : NatEntry → ℕ → ℕ → NatType → Bool
found_nat_table_match ne ip port external = ne.nat_ext.ip == ip && ne.nat_ext.port == port
found_nat_table_match ne ip port internal = ne.nat_int.ip == ip && ne.nat_int.port == port

-- The `while` of `get_nat_table_entry`, from position `i` on; the entry is given by its position.
unfoldable pub find_entry : List NatEntry → ℕ → ℕ → NatType → ℕ → Option ℕ
find_entry [] ip port nat_type i = none
find_entry (ne ∷ n) ip port nat_type i =
    if found_nat_table_match ne ip port nat_type
    then some i
    else find_entry n ip port nat_type (i + 1)

unfoldable pub is_unique_nat_ext_port : List NatEntry → ℕ → Bool
is_unique_nat_ext_port [] port = true
is_unique_nat_ext_port (ne ∷ n) port =
    if ne.nat_ext.port == port then false else is_unique_nat_ext_port n port

-- The `while (1)` that draws ports. The list is what `rand()` returns, call after call; `none` if
-- it is used up. Returns the port, in host order, and the rest of the list.
unfoldable pub draw_port : List NatEntry → List ℕ → Option (ℕ × List ℕ)
draw_port table [] = none
draw_port table (r ∷ rest) =
    if ltb 1024 (r % 65536) && is_unique_nat_ext_port table (r % 65536)
    then some (r % 65536, rest)
    else draw_port table rest

abbrev pub plain_pair : ℕ → ℕ → NatIpPortPair
plain_pair ip port = record {
  ip = ip;
  port = port;
  checksum = 0;
  checksum_ip = 0;
  checksum_port = 0;
}

-- The entry that `create_nat_table_entry` fills in.
unfoldable pub new_nat_entry : ℕ → ℕ → ℕ → ℕ → ℕ → NatEntry
new_nat_entry now ext_ip port src_ip src_port = record {
  nat_ext = compute_nat_checksums (plain_pair ext_ip (ntohs port));
  nat_int = compute_nat_checksums (plain_pair src_ip src_port);
  last_hits = 0;
  last_hits_time = now;
  hits = 0;
  hw_row = 0xFF;
  is_static = 0;
}

-- `create_nat_table_entry` for a packet from `src_ip` and `src_port`: the position of the new
-- entry, the table, and the random numbers that are left.
unfoldable pub create_nat_table_entry :
    ℕ → List ℕ → List NatEntry → ℕ → ℕ → ℕ → Option (ℕ × List NatEntry × List ℕ)
create_nat_table_entry now rands table ext_ip src_ip src_port = elim (draw_port table rands) [
  | none ↦ none
  | some (port, rest) ↦
      some (length table, table ++ new_nat_entry now ext_ip port src_ip src_port ∷ [], rest)
]
