-- ===== src/Icmp.antt =====
-- scone/or_icmp.c: the messages that the router sends and the answers that it takes. `none` is a
-- failed assertion, a null pointer that is followed, or a copy of a negative length.
pub mod Sping
use osnt_plus.Prelude.{
  ℕ, zero, suc, ◌+◌, ◌-◌, ◌/◌, ◌%◌, Bool, ◌&&◌, ◌||◌, Option, none, some, List, [], ◌∷◌, ◌++◌, ltb,
  ◌==◌, if◌then◌else◌, length,
}
use osnt_plus.Net.{htons}
use osnt_plus.State.{IfaceEntry, RouterState}
use osnt_plus.Packet.{Packet, get8, get32, set16}
use osnt_plus.Checksum.{compute_icmp_checksum, store_ip_checksum}
use osnt_plus.Headers.{zeros, populate_eth_hdr, populate_ip, populate_icmp}
use osnt_plus.RTable.{get_next_hop}
use osnt_plus.Iface.{get_iface}
use osnt_plus.Arp.{slice, send_ip}

abbrev pub echo_reply : ℕ
echo_reply = 0x0

abbrev pub echo_request : ℕ
echo_request = 0x8

abbrev pub destination_unreachable : ℕ
destination_unreachable = 0x3

abbrev pub time_exceeded : ℕ
time_exceeded = 0xB

abbrev pub port_unreachable : ℕ
port_unreachable = 0x3

-- `new_icmp->icmp_sum = htons(compute_icmp_checksum(new_icmp, icmp_payload_len))`
unfoldable pub store_icmp_checksum : Packet → ℕ → Packet
store_icmp_checksum p payload_len =
    let (p', checksum) = compute_icmp_checksum p 34 ((4 + payload_len) / 2) in
    set16 p' 36 (htons checksum)

-- The packet around a payload, for the outgoing interface's hardware address.
unfoldable pub icmp_packet : ℕ → ℕ → List ℕ → ℕ → ℕ → List ℕ → Packet
icmp_packet icmp_type icmp_code payload source dest addr =
    let p = populate_icmp (zeros (38 + length payload)) icmp_type icmp_code payload in
    let p = store_icmp_checksum p (length payload) in
    let p = populate_ip p (4 + length payload) 0x01 source dest in
    populate_eth_hdr (store_ip_checksum p) none addr 0x0800

-- An echo reply gives back what follows the ICMP header; any other message quotes the IP header and
-- 8 bytes, behind 4 unused ones.
unfoldable pub icmp_payload : Packet → ℕ → List ℕ
icmp_payload src icmp_type =
    if icmp_type == echo_reply
    then slice src 38 (length src - 38)
    else 0 ∷ 0 ∷ 0 ∷ 0 ∷ slice src 14 28

-- The source address: where the packet was sent to, or that of the outgoing interface.
unfoldable pub icmp_source : Packet → ℕ → ℕ → IfaceEntry → ℕ
icmp_source src icmp_type icmp_code iface =
    if icmp_type == echo_reply
      || icmp_type == destination_unreachable && icmp_code == port_unreachable
    then get32 src 30
    else iface.ip

-- The payload of an echo request: the id in host order, and `populate_padding`.
unfoldable pub padding : ℕ → ℕ → List ℕ
padding zero pad = []
padding (suc n) pad = pad ∷ padding n ((pad + 1) % 256)

unfoldable pub echo_payload : ℕ → List ℕ
unfolding padding
echo_payload id = id % 256 ∷ id / 256 % 256 ∷ 0 ∷ 0 ∷ padding 56 1

module _ (output : Packet → List ℕ → Bool) where
  -- The state and the return value.
  unfoldable pub send_icmp_packet : ℕ → RouterState → Packet → ℕ → ℕ → Option (RouterState × ℕ)
  send_icmp_packet now rs src icmp_type icmp_code =
      elim (get_next_hop 32 rs.rtable (get32 src 26)) [
        | none ↦ some (rs, 1)
        | some (next_hop, iface) ↦ elim (get_iface rs.if_list iface) [
          | none ↦ none
          | some iface_struct ↦
              let payload = icmp_payload src icmp_type in
              let p =
                icmp_packet icmp_type icmp_code payload
                  (icmp_source src icmp_type icmp_code iface_struct) (get32 src 26)
                  iface_struct.addr in
              let sent = send_ip output now rs p (38 + length payload) next_hop iface_struct.name in
              if icmp_type == echo_reply && ltb (length src) 38 then none else sent
        ]
      ]

  -- `process_icmp_packet`, with `process_icmp_echo_reply_packet`
  unfoldable pub process_icmp_packet : ℕ → RouterState → Packet → Option RouterState
  process_icmp_packet now rs p =
      if get8 p 34 == echo_request
      then elim (send_icmp_packet now rs p echo_reply 0) [ none ↦ none | some (rs', _) ↦ some rs' ]
      else if get8 p 34 == echo_reply
      then some (record rs {
        sping_queue =
            rs.sping_queue ++ record { packet = p; len = length p; arrival_time = now } ∷ [];
      })
      else some rs

  unfoldable pub send_icmp_echo_request_packet : ℕ → RouterState → ℕ → ℕ → Option (RouterState × ℕ)
  send_icmp_echo_request_packet now rs dst id = elim (get_next_hop 32 rs.rtable dst) [
    | none ↦ some (rs, 1)
    | some (next_hop, iface) ↦ elim (get_iface rs.if_list iface) [
      | none ↦ none
      | some iface_struct ↦
          send_ip output now rs
            (icmp_packet echo_request 0 (echo_payload id) iface_struct.ip dst iface_struct.addr) 98
            next_hop iface_struct.name
    ]
  ]
