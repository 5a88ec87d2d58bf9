-- ===== src/NatPacket.antt =====
-- The rewriting of packets by scone/or_nat.c, with `populate_nat_packet` of scone/or_utils.c. The
-- transport header stands at offset 34, behind an IP header of 20 bytes, whatever its length field
-- says; `is_packet_valid` admits no other.
pub mod Checksum
pub mod Laws
mod Tests
use osnt_plus.Prelude.{
  ℕ, zero, suc, ◌+◌, ◌-◌, ◌*◌, ◌/◌, ◌%◌, ◌^◌, Bool, true, false, ◌||◌, Option, none, some, List, [],
  ◌∷◌, ◌==◌, if◌then◌else◌, get_elem?, set,
}
use osnt_plus.Net.{ntohs}
use osnt_plus.State.{NatEntry}
use osnt_plus.Packet.{Packet, get8, get16, get32, set16, set32}
use osnt_plus.Checksum.{compute_icmp_checksum}
use osnt_plus.NatTable.{
  NatType, external, internal, nat_checksum, find_entry, create_nat_table_entry,
}

-- The fields that the code reads and writes, as offsets in the packet.
abbrev pub ip_len : ℕ
ip_len = 16

abbrev pub ip_p : ℕ
ip_p = 23

abbrev pub ip_sum : ℕ
ip_sum = 24

abbrev pub ip_src : ℕ
ip_src = 26

abbrev pub ip_dst : ℕ
ip_dst = 30

-- `get_nat_tcp_hdr`, `get_nat_udp_hdr` and `get_nat_icmp_hdr`
abbrev pub nat_hdr : ℕ
nat_hdr = 34

abbrev pub sport : ℕ
sport = 34

abbrev pub dport : ℕ
dport = 36

abbrev pub tcp_sum : ℕ
tcp_sum = 50

abbrev pub udp_sum : ℕ
udp_sum = 40

abbrev pub icmp_type : ℕ
icmp_type = 34

abbrev pub icmp_sum : ℕ
icmp_sum = 36

abbrev pub icmp_opt1 : ℕ
icmp_opt1 = 38

-- The IP header inside ICMP data stands at 42, what follows it at 62.
abbrev pub data_ip_p : ℕ
data_ip_p = 51

abbrev pub data_ip_sum : ℕ
data_ip_sum = 52

abbrev pub data_ip_src : ℕ
data_ip_src = 54

abbrev pub data_ip_dst : ℕ
data_ip_dst = 58

-- `get_nat_port_list_from_icmp_data` and `get_icmp_hdr_from_icmp_data`
abbrev pub data_ports : ℕ
data_ports = 62

abbrev pub data_icmp_sum : ℕ
data_icmp_sum = 64

abbrev pub data_icmp_opt1 : ℕ
data_icmp_opt1 = 66

abbrev pub is_tcp : Packet → Bool
is_tcp p = get8 p ip_p == 0x06

abbrev pub is_udp : Packet → Bool
is_udp p = get8 p ip_p == 0x11

abbrev pub is_icmp : Packet → Bool
is_icmp p = get8 p ip_p == 0x01

-- An echo request or reply; a time exceeded or destination unreachable.
abbrev pub is_echo : ℕ → Bool
is_echo t = t == 0x8 || t == 0x0

abbrev pub is_error : ℕ → Bool
is_error t = t == 0xB || t == 0x3

-- The echo packet inside an ICMP error, in `populate_nat_packet`.
unfoldable pub rewrite_data_echo : Packet → NatEntry → NatType → Packet
rewrite_data_echo p ne external =
    let p' = set16 p data_icmp_opt1 ne.nat_ext.port in
    set16 p' data_icmp_sum
      (nat_checksum (get16 p' data_icmp_sum) ne.nat_ext.checksum_port ne.nat_int.checksum_port)
rewrite_data_echo p ne internal =
    let p' = set16 p data_icmp_opt1 ne.nat_int.port in
    set16 p' data_icmp_sum
      (nat_checksum (get16 p' data_icmp_sum) ne.nat_int.checksum_port ne.nat_ext.checksum_port)

-- The data of an ICMP error: the address and checksum of the inner header, then its port. The
-- `bzero` clears the checksum of the outer header.
unfoldable pub rewrite_data_ip : Packet → NatEntry → NatType → Packet
rewrite_data_ip p ne external =
    let p' = set32 p data_ip_dst ne.nat_ext.ip in
    let checksum =
      nat_checksum (get16 p' data_ip_sum) ne.nat_ext.checksum_ip ne.nat_int.checksum_ip in
    set16 (set16 p' ip_sum 0) data_ip_sum checksum
rewrite_data_ip p ne internal =
    let p' = set32 p data_ip_src ne.nat_int.ip in
    let checksum =
      nat_checksum (get16 p' data_ip_sum) ne.nat_int.checksum_ip ne.nat_ext.checksum_ip in
    set16 (set16 p' ip_sum 0) data_ip_sum checksum

unfoldable pub rewrite_data_port : Packet → NatEntry → NatType → Packet
rewrite_data_port p ne external = set16 p (data_ports + 2) ne.nat_ext.port
rewrite_data_port p ne internal = set16 p data_ports ne.nat_int.port

unfoldable pub rewrite_error : Packet → NatEntry → NatType → Packet
unfolding rewrite_data_ip rewrite_data_port rewrite_data_echo
rewrite_error p ne nat_type =
    let q = rewrite_data_ip p ne nat_type in
    if get8 q data_ip_p == 0x06 || get8 q data_ip_p == 0x11
    then rewrite_data_port q ne nat_type
    else if get8 q data_ip_p == 0x01
    then if is_echo (get8 q data_ports) then rewrite_data_echo q ne nat_type else q
    else q

-- "rewrite the ip address"
unfoldable pub rewrite_ip : Packet → NatEntry → NatType → Packet
rewrite_ip p ne external = set32 p ip_src ne.nat_ext.ip
rewrite_ip p ne internal = set32 p ip_dst ne.nat_int.ip

-- The port of a TCP or UDP packet.
unfoldable pub rewrite_port : Packet → NatEntry → NatType → Packet
rewrite_port p ne external = set16 p sport ne.nat_ext.port
rewrite_port p ne internal = set16 p dport ne.nat_int.port

unfoldable pub rewrite_echo : Packet → NatEntry → NatType → Packet
rewrite_echo p ne external = set16 p icmp_opt1 ne.nat_ext.port
rewrite_echo p ne internal = set16 p icmp_opt1 ne.nat_int.port

unfoldable pub populate_nat_packet : Packet → NatEntry → NatType → Packet
populate_nat_packet p ne nat_type =
    let q = rewrite_ip p ne nat_type in
    if is_tcp q || is_udp q
    then rewrite_port q ne nat_type
    else if is_icmp q
    then (if is_echo (get8 q icmp_type)
        then rewrite_echo q ne nat_type
        else if is_error (get8 q icmp_type)
        then rewrite_error q ne nat_type
        else q)
    else q

-- `get_nat_port_from_icmp`; the pair's port is 0 before.
unfoldable pub get_nat_port_from_icmp : Packet → NatType → ℕ
get_nat_port_from_icmp p nat_type =
    if is_echo (get8 p icmp_type)
    then get16 p icmp_opt1
    else if is_error (get8 p icmp_type)
    then (if get8 p data_ip_p == 0x11 || get8 p data_ip_p == 0x06
        then elim nat_type [ external ↦ get16 p data_ports | internal ↦ get16 p (data_ports + 2) ]
        else if get8 p data_ip_p == 0x01
        then get16 p data_icmp_opt1
        else 0)
    else 0

-- `get_nat_ip_port_pair`: the address and the port by which the table is searched.
unfoldable pub get_nat_ip_port_pair : Packet → NatType → ℕ × ℕ
get_nat_ip_port_pair p nat_type =
    let ip : ℕ = elim nat_type [ external ↦ get32 p ip_dst | internal ↦ get32 p ip_src ] in
    let port : ℕ = elim nat_type [ external ↦ get16 p dport | internal ↦ get16 p sport ] in
    if is_tcp p || is_udp p
    then (ip, port)
    else if is_icmp p
    then (ip, get_nat_port_from_icmp p nat_type)
    else (0, 0)

-- `get_src_port_number`, with `get_src_port_number_from_icmp`
unfoldable pub get_src_port_number : Packet → ℕ
get_src_port_number p =
    if is_tcp p || is_udp p
    then get16 p sport
    else if is_icmp p
    then (if is_echo (get8 p icmp_type)
        then get16 p icmp_opt1
        else if is_error (get8 p icmp_type)
        then get16 p data_ports
        else 0)
    else 0

-- `get_nat_table_entry`, which returns a pointer: here a position.
unfoldable pub get_nat_table_entry : List NatEntry → Packet → NatType → Option ℕ
get_nat_table_entry table p nat_type =
    let (ip, port) = get_nat_ip_port_pair p nat_type in find_entry table ip port nat_type 0

-- `ne->hits++` on a uint32_t
abbrev pub count_hit : List NatEntry → ℕ → NatEntry → List NatEntry
count_hit table k ne = set table k (record ne { hits = (ne.hits + 1) % 2 ^ 32 })

-- The number of shorts of an ICMP message: the code's signed and unsigned conversions give this
-- for every `ip_len`.
abbrev pub icmp_shorts : Packet → ℕ
icmp_shorts p = (ntohs (get16 p ip_len) - 20) / 2

unfoldable pub recompute_icmp : Packet → Packet
recompute_icmp p =
    let (p', checksum) = compute_icmp_checksum p nat_hdr (icmp_shorts p) in
    set16 p' icmp_sum (ntohs checksum)

-- The checksum of the transport header, after the addresses were rewritten; `pos` and `neg` are
-- the cached checksums of the new pair and of the old one.
unfoldable pub fix_transport : Packet → ℕ → ℕ → ℕ → ℕ → Packet
fix_transport p pos neg pos_port neg_port =
    if is_tcp p
    then set16 p tcp_sum (nat_checksum (get16 p tcp_sum) pos neg)
    else if is_udp p
    then set16 p udp_sum (nat_checksum (get16 p udp_sum) pos neg)
    else if is_icmp p
    then (if is_echo (get8 p icmp_type)
        then set16 p icmp_sum (nat_checksum (get16 p icmp_sum) pos_port neg_port)
        else if is_error (get8 p icmp_type)
        then recompute_icmp p
        else p)
    else p

-- What `process_nat_ext_packet` does once it has an entry.
unfoldable pub translate_in : Packet → NatEntry → Packet
translate_in p ne =
    let q = populate_nat_packet p ne internal in
    let r =
      fix_transport q ne.nat_int.checksum ne.nat_ext.checksum ne.nat_int.checksum_port
        ne.nat_ext.checksum_port in
    set16 r ip_sum (nat_checksum (get16 r ip_sum) ne.nat_int.checksum_ip ne.nat_ext.checksum)

-- The pointer of an entry is followed; one that is out of range would be a fault.
unfoldable pub process_nat_ext_packet : List NatEntry → Packet → Option (List NatEntry × Packet)
process_nat_ext_packet table p = elim (get_nat_table_entry table p external) [
  | none ↦ some (table, p)
  | some k ↦ elim (get_elem? table k) [
    | none ↦ none
    | some ne ↦ some (count_hit table k ne, translate_in p ne)
  ]
]

-- What `process_nat_int_packet` does once it has an entry.
unfoldable pub translate_out : Packet → NatEntry → Packet
translate_out p ne =
    let q = populate_nat_packet p ne external in
    let r =
      fix_transport q ne.nat_ext.checksum ne.nat_int.checksum ne.nat_ext.checksum_port
        ne.nat_int.checksum_port in
    set16 r ip_sum (nat_checksum (get16 r ip_sum) ne.nat_ext.checksum_ip ne.nat_int.checksum)

-- The entry of the packet, made if there is none: its position, the table and the random numbers.
unfoldable pub entry_for :
    ℕ → List ℕ → List NatEntry → Packet → ℕ → Option (ℕ × List NatEntry × List ℕ)
entry_for now rands table p ext_ip = elim (get_nat_table_entry table p internal) [
  | some k ↦ some (k, table, rands)
  | none ↦ create_nat_table_entry now rands table ext_ip (get32 p ip_src) (get_src_port_number p)
]

-- `none` is a fault: for any other protocol the code increments the hits of a null pointer. It also
-- stands for `rand()` never giving a port.
unfoldable pub process_nat_int_packet :
    ℕ → List ℕ → List NatEntry → Packet → ℕ → Option (List NatEntry × Packet × List ℕ)
process_nat_int_packet now rands table p ext_ip =
    if is_tcp p || is_udp p || is_icmp p
    then elim (entry_for now rands table p ext_ip) [
      | none ↦ none
      | some (k, table', rest) ↦ elim (get_elem? table' k) [
        | none ↦ none
        | some ne ↦ some (count_hit table' k ne, translate_out p ne, rest)
      ]
    ]
    else none
