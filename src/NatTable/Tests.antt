-- ===== src/NatTable/Tests.antt =====
-- The NAT table with one or two entries.
use osnt_plus.Prelude.{◌+◌, ◌%◌, ◌≡◌, ◌≢◌, refl, some, [], ◌∷◌, arith}
use osnt_plus.Net.{ntohs}
use osnt_plus.State.{NatIpPortPair, NatEntry}
use osnt_plus.NatTable.{
  compute_nat_checksums, nat_checksum, draw_port, is_unique_nat_ext_port, plain_pair, new_nat_entry,
  create_nat_table_entry,
}
use osnt_plus.NatTable.Checksums.{ip_shorts, nat_checksum_translates}
use osnt_plus.NatTable.Entries.{create_nat_table_entry_duplicates}

-- 10.0.1.5 port 5000 behind 192.168.0.1 port 2000, in network order
abbrev entry : NatEntry
entry = new_nat_entry 7 16820416 2000 83951626 34835

abbrev inner : NatIpPortPair
inner = plain_pair 83951626 34835

abbrev outer : NatIpPortPair
outer = plain_pair 16820416 53255

entry_ports : (entry.nat_ext.port ≡ 53255) × (entry.nat_int.port ≡ 34835)
unfolding compute_nat_checksums ntohs new_nat_entry
entry_ports = (refl, refl)

translates_example :
    (1000
        + ip_shorts outer
        + outer.port
        + nat_checksum 28409
            (compute_nat_checksums outer).checksum
            (compute_nat_checksums inner).checksum)
      % 65535
    ≡ 0
translates_example =
    nat_checksum_translates 1000 28409 inner outer (omega arith) (omega arith) (omega arith) refl

create_runs :
    create_nat_table_entry 7 (99 ∷ 3000 ∷ []) (entry ∷ []) 16820416 100728842 34836
    ≡ some (1, entry ∷ new_nat_entry 7 16820416 3000 100728842 34836 ∷ [], [])
unfolding create_nat_table_entry draw_port is_unique_nat_ext_port new_nat_entry
    compute_nat_checksums ntohs
create_runs = refl

swapped : ntohs 2000 ≢ 2000
unfolding ntohs
swapped e = omega arith

entry-port : entry.nat_ext.port ≡ ntohs 2000
unfolding new_nat_entry compute_nat_checksums
entry-port = refl

duplicates_example :
    (new : NatEntry) × (create_nat_table_entry 7 (2000 ∷ []) (entry ∷ []) 16820416 100728842 34836
      ≡ some (1, entry ∷ new ∷ [], []))
    × (new.nat_ext.port ≡ entry.nat_ext.port)
duplicates_example =
    create_nat_table_entry_duplicates 7 2000 [] entry 16820416 100728842 34836 (omega arith)
      (omega arith) swapped entry-port
