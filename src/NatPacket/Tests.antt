-- ===== src/NatPacket/Tests.antt =====
-- A TCP packet through the NAT, out and back.
use osnt_plus.Prelude.{◌≡◌, refl, [], ◌∷◌, arith}
use osnt_plus.State.{NatEntry, NatIpPortPair}
use osnt_plus.Net.{ntohs}
use osnt_plus.Packet.{Packet, get8, get16, get32}
use osnt_plus.NatTable.{plain_pair, new_nat_entry, compute_nat_checksums}
use osnt_plus.NatPacket.{ip_src, ip_dst, ip_p, sport, dport, translate_out, translate_in}
use osnt_plus.NatPacket.Laws.{HasPorts, Ends, translate_out-Ends, translate_in-Ends}

abbrev entry : NatEntry
entry = new_nat_entry 7 16820416 2000 83951626 34835

-- From 10.0.1.5 port 5000 to 8.8.8.8 port 80, with no options
abbrev outgoing : Packet
outgoing =
    0 ∷ 0 ∷ 0 ∷ 0 ∷ 0 ∷ 0 ∷ 0 ∷ 0 ∷ 0 ∷ 0 ∷ 0 ∷ 0 ∷ 8 ∷ 0 ∷ 0x45 ∷ 0 ∷ 0 ∷ 40 ∷ 0 ∷ 1 ∷ 0x40 ∷ 0
    ∷ 64 ∷ 6 ∷ 7 ∷ 9 ∷ 10 ∷ 0 ∷ 1 ∷ 5 ∷ 8 ∷ 8 ∷ 8 ∷ 8 ∷ 19 ∷ 136 ∷ 0 ∷ 80 ∷ 0 ∷ 0 ∷ 0 ∷ 0 ∷ 0 ∷ 0
    ∷ 0 ∷ 0 ∷ 0x50 ∷ 2 ∷ 0 ∷ 0 ∷ 0 ∷ 0 ∷ 0 ∷ 0 ∷ []

outgoing-HasPorts : HasPorts outgoing
unfolding get8
outgoing-HasPorts = refl

out_example :
    Ends
      (translate_out outgoing entry)
      entry.nat_ext.ip
      entry.nat_ext.port
      (get32 outgoing ip_dst)
      (get16 outgoing dport)
    × (get8 (translate_out outgoing entry) ip_p ≡ get8 outgoing ip_p)
unfolding new_nat_entry compute_nat_checksums ntohs
out_example =
    translate_out-Ends outgoing entry outgoing-HasPorts (omega arith) (omega arith) (omega arith)

in_example :
    Ends
      (translate_in outgoing entry)
      (get32 outgoing ip_src)
      (get16 outgoing sport)
      entry.nat_int.ip
      entry.nat_int.port
    × (get8 (translate_in outgoing entry) ip_p ≡ get8 outgoing ip_p)
unfolding new_nat_entry compute_nat_checksums ntohs
in_example =
    translate_in-Ends outgoing entry outgoing-HasPorts (omega arith) (omega arith) (omega arith)

abbrev inner : NatIpPortPair
inner = plain_pair 83951626 34835

abbrev outer : NatIpPortPair
outer = plain_pair 16820416 53255
