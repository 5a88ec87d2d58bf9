-- ===== src/Ip.antt =====
-- scone/or_ip.c: `process_ip_packet`, `is_packet_valid` and `send_ip_packet`, and `process_packet` of
-- scone/or_main.c. `none` is a failed assertion or a null pointer that is followed.
pub mod Built
pub mod Errors
pub mod Forward
mod Tests
use osnt_plus.Prelude.{
  ℕ, zero, suc, ◌+◌, ◌-◌, ◌*◌, ◌/◌, ◌%◌, Bool, true, false, not, ◌&&◌, ◌||◌, Option, none, some,
  List, [], ◌∷◌, ◌++◌, ◌==◌, if◌then◌else◌, length, bit_and,
}
use osnt_plus.Net.{ntohs, htonl, strncmp_eq}
use osnt_plus.State.{IfaceEntry, RouterState}
use osnt_plus.Packet.{Packet, get8, get16, get32, set8}
use osnt_plus.Checksum.{ip_hdr, ip_hl, verify_checksum, store_ip_checksum}
use osnt_plus.Headers.{zeros, blit, populate_eth_hdr, populate_ip}
use osnt_plus.RTable.{get_next_hop}
use osnt_plus.Iface.{get_iface, iface_match_ip, iface_is_active}
use osnt_plus.Arp.{slice, send_ip, process_arp_packet}
use osnt_plus.NatPacket.{process_nat_ext_packet, process_nat_int_packet}
use osnt_plus.Icmp.{
  send_icmp_packet, process_icmp_packet, destination_unreachable, time_exceeded, port_unreachable,
}
use osnt_plus.Pwospf.Lsu.{process_pwospf_packet}

abbrev pub ip_v : Packet → ℕ
ip_v p = get8 p ip_hdr / 16 % 16

abbrev pub ip_off : Packet → ℕ
ip_off p = get16 p 20

abbrev pub ip_ttl : Packet → ℕ
ip_ttl p = get8 p 22

abbrev pub ip_proto : Packet → ℕ
ip_proto p = get8 p 23

abbrev pub ip_src : Packet → ℕ
ip_src p = get32 p 26

abbrev pub ip_dst : Packet → ℕ
ip_dst p = get32 p 30

-- IPv4 without options, not a fragment, with a good checksum
unfoldable pub is_packet_valid : Packet → Bool
is_packet_valid p =
    let frag_field = ntohs (ip_off p) in
    if not (ip_v p == 4)
    then false
    else if not (ip_hl p == 5)
    then false
    else if not (bit_and frag_field 0x2000 == 0) || not (bit_and frag_field 0x1FFF == 0)
    then false
    else verify_checksum p ip_hdr (4 * ip_hl p) == 0

-- PWOSPF_HELLO_TIP in network order
abbrev pub pwospf_hello_tip : ℕ
pwospf_hello_tip = htonl 0xE0000005

-- The packet as it is forwarded: `ip_ttl--` on a uint8_t, the checksum, the sender's hardware address.
unfoldable pub forwarded : Packet → IfaceEntry → Packet
forwarded p sr_if =
    let p = set8 p 22 ((ip_ttl p + 255) % 256) in
    populate_eth_hdr (store_ip_checksum p) none sr_if.addr 0x0800

-- The state of a pair whose return value is ignored.
abbrev pub state_of : Option (RouterState × ℕ) → Option RouterState
state_of none = none
state_of (some (rs, _)) = some rs

-- The translation of a packet that comes in from the wide area network.
unfoldable pub nat_in : RouterState → Packet → IfaceEntry → Option (RouterState × Packet)
nat_in rs p iface =
    if not (iface.is_wan == 1) then some (rs, p) else elim (process_nat_ext_packet rs.nat_table p) [
      | none ↦ none
      | some (table, p') ↦ some (record rs { nat_table = table }, p')
    ]

-- The translation of one that leaves to it.
unfoldable pub nat_out : ℕ → RouterState → Packet → IfaceEntry → Option (RouterState × Packet)
nat_out now rs p iface =
    if iface.is_wan == 0
    then some (rs, p)
    else elim (process_nat_int_packet now rs.rands rs.nat_table p iface.ip) [
      | none ↦ none
      | some (table, p', rands) ↦ some (record rs { nat_table = table; rands = rands }, p')
    ]

-- The packet of `send_ip_packet`, before the interface is known.
unfoldable pub new_ip_packet : ℕ → ℕ → ℕ → List ℕ → Packet
new_ip_packet proto src dest payload =
    store_ip_checksum
      (populate_ip (blit (zeros (34 + length payload)) 34 payload) (length payload) proto src dest)

module _ (output : Packet → List ℕ → Bool) where
  -- The end of the forwarding branch, for the interface on which the packet leaves.
  unfoldable pub forward_to :
      ℕ → RouterState → Packet → ℕ → List ℕ → IfaceEntry → Option RouterState
  forward_to now rs p next_hop next_hop_iface iface =
      if ip_ttl p == 1
      then state_of (send_icmp_packet output now rs p time_exceeded 0)
      else state_of (send_ip output now rs (forwarded p iface) (length p) next_hop next_hop_iface)

  unfoldable pub forward : ℕ → RouterState → Packet → List ℕ → Option RouterState
  forward now rs p interface = elim (get_next_hop 32 rs.rtable (ip_dst p)) [
    | none ↦ state_of (send_icmp_packet output now rs p destination_unreachable 6)
    | some (next_hop, next_hop_iface) ↦
        if strncmp_eq interface next_hop_iface 32
        then state_of (send_icmp_packet output now rs p destination_unreachable 0)
        else elim (get_iface rs.if_list next_hop_iface) [
          | none ↦ none
          | some iface ↦ elim (nat_out now rs p iface) [
            | none ↦ none
            | some (rs', p') ↦ forward_to now rs' p' next_hop next_hop_iface iface
          ]
        ]
  ]

  -- A packet for one of our interfaces
  unfoldable pub deliver : ℕ → RouterState → Packet → List ℕ → Option RouterState
  deliver now rs p interface =
      if ip_proto p == 0x06
      then some (record rs { transport = rs.transport ++ slice p ip_hdr (length p - ip_hdr) ∷ [] })
      else if ip_proto p == 0x01
      then process_icmp_packet output now rs p
      else if ip_proto p == 0x59
      then process_pwospf_packet now rs p interface
      else if ip_proto p == 0x11
      then state_of (send_icmp_packet output now rs p destination_unreachable port_unreachable)
      else state_of (send_icmp_packet output now rs p destination_unreachable 2)

  -- What is done with the packet after the translation.
  unfoldable pub dispatch : ℕ → RouterState → Packet → List ℕ → Option RouterState
  dispatch now rs p interface =
      if iface_match_ip rs.if_list (ip_dst p)
      then deliver now rs p interface
      else if ip_dst p == pwospf_hello_tip
      then process_pwospf_packet now rs p interface
      else forward now rs p interface

  unfoldable pub process_ip_packet : ℕ → RouterState → Packet → List ℕ → Option RouterState
  process_ip_packet now rs p interface =
      if not (is_packet_valid p) then some rs else elim (get_iface rs.if_list interface) [
        | none ↦ none
        | some iface ↦ elim (nat_in rs p iface) [
          | none ↦ none
          | some (rs', p') ↦ dispatch now rs' p' interface
        ]
      ]

  -- `send_ip_packet`: the state and the return value.
  unfoldable pub send_ip_packet : ℕ → RouterState → ℕ → ℕ → ℕ → List ℕ → Option (RouterState × ℕ)
  send_ip_packet now rs proto src dest payload =
      let p = new_ip_packet proto src dest payload in
      elim (get_next_hop 32 rs.rtable (ip_dst p)) [
        | none ↦ some (rs, 1)
        | some (next_hop, iface) ↦ elim (get_iface rs.if_list iface) [
          | none ↦ none
          | some iface_struct ↦
              send_ip output now rs (populate_eth_hdr p none iface_struct.addr 0x0800)
                (34 + length payload) next_hop iface_struct.name
        ]
      ]

  -- `width` and `address` are the constants of the ARP table in reg_defines.h.
  unfoldable pub process_packet : ℕ → ℕ → ℕ → RouterState → Packet → List ℕ → Option RouterState
  process_packet width address now rs p interface =
      if not (iface_is_active rs.if_list interface)
      then some rs
      else if ntohs (get16 p 12) == 0x0800
      then process_ip_packet now rs p interface
      else if ntohs (get16 p 12) == 0x0806
      then process_arp_packet output width address now rs p
      else some rs
