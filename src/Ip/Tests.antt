-- ===== src/Ip/Tests.antt =====
-- A packet from 10.0.1.5 to 10.7.0.1 that crosses a router with two ports.
use osnt_plus.Prelude.{
  ℕ, ◌<◌, ◌^◌, ◌+◌, ◌≡◌, ◌≢◌, refl, arith, Bool, true, false, some, List, [], ◌∷◌, length,
  if◌then◌else◌,
}
use osnt_plus.Net.{ntohs, ntohl, strncmp_eq}
use osnt_plus.State.{lock_free, RtableEntry, IfaceEntry, ArpCacheEntry, RouterState}
use osnt_plus.Packet.{Packet, get8, get16, get32}
use osnt_plus.Checksum.{verify_checksum, sum_all}
use osnt_plus.Headers.{blit}
use osnt_plus.RTable.{get_next_hop}
use osnt_plus.RTable.Hardware.{eth0, eth1}
use osnt_plus.Iface.{get_iface, iface_match_ip}
use osnt_plus.Arp.{cached, in_arp_cache, padded, slice}
use osnt_plus.Icmp.{icmp_packet, icmp_payload, icmp_source, send_icmp_packet, time_exceeded}
use osnt_plus.Ip.Errors.{send_icmp_packet-error}
use osnt_plus.Arp.Queue.{sends}
use osnt_plus.Ip.{
  ip_ttl, ip_src, ip_dst, ip_proto, is_packet_valid, pwospf_hello_tip, forwarded, process_ip_packet,
}
use osnt_plus.Ip.Forward.{process_ip_packet-forwards}

abbrev transit : Packet
transit =
    2 ∷ 0 ∷ 0 ∷ 0 ∷ 0 ∷ 1 ∷ 2 ∷ 0 ∷ 0 ∷ 0 ∷ 0 ∷ 7 ∷ 8 ∷ 0 ∷ 0x45 ∷ 0 ∷ 0 ∷ 40 ∷ 0 ∷ 1 ∷ 0x40 ∷ 0
    ∷ 64 ∷ 6 ∷ 0x25 ∷ 0xC3 ∷ 10 ∷ 0 ∷ 1 ∷ 5 ∷ 10 ∷ 7 ∷ 0 ∷ 1 ∷ []

abbrev port : List ℕ → ℕ → ℕ → IfaceEntry
port name ip last = record {
  name = name;
  addr = 2 ∷ 0 ∷ 0 ∷ 0 ∷ 0 ∷ last ∷ [];
  ip = ip;
  mask = 16777215;
  speed = 0;
  is_active = true;
  last_sent_hello = 0;
  nbr_routers = [];
  is_wan = 0;
}

abbrev route : RtableEntry
route = record { ip = 1802; gw = 0; mask = 65535; iface = eth1; is_static = true; is_active = true }

abbrev next : ArpCacheEntry
next = cached 100 16779018 (2 ∷ 0 ∷ 0 ∷ 0 ∷ 0 ∷ 9 ∷ []) 0

abbrev router : RouterState
router = record {
  router_id = 16777226;
  arp_ttl = 300;
  is_netfpga = true;
  rtable = route ∷ [];
  arp_cache = next ∷ [];
  arp_queue = [];
  if_list = port eth0 16842762 1 ∷ port eth1 16908298 2 ∷ [];
  pwospf_router_list = [];
  nat_table = [];
  writes = [];
  sent = [];
  area_id = 0;
  pwospf_hello_interval = 5;
  pwospf_lsu_interval = 30;
  pwospf_lsu_broadcast = true;
  pwospf_lsu_queue = [];
  dijkstra_dirty = false;
  sping_queue = [];
  transport = [];
  rands = [];
  nat_timeout = 60;
  local_ip_filter_list = [];
  pwospf_router_list_lock = lock_free;
}

abbrev takes_all : Packet → List ℕ → Bool
takes_all p iface = true

transit_valid : is_packet_valid transit ≡ true
unfolding is_packet_valid verify_checksum sum_all get16 get8 ntohs
transit_valid = refl

known_port : get_iface router.if_list eth0 ≡ some (port eth0 16842762 1)
unfolding get_iface strncmp_eq
known_port = refl

next_port : get_iface router.if_list eth1 ≡ some (port eth1 16908298 2)
unfolding get_iface strncmp_eq
next_port = refl

not_ours : iface_match_ip router.if_list (ip_dst transit) ≡ false
unfolding iface_match_ip get32 get16 get8
not_ours = refl

transit_route : get_next_hop 32 router.rtable (ip_dst transit) ≡ some (ip_dst transit, eth1)
unfolding get_next_hop get32 get16 get8 ntohl
transit_route = refl

other_port : strncmp_eq eth0 eth1 32 ≡ false
unfolding strncmp_eq
other_port = refl

not_hello : ip_dst transit ≢ pwospf_hello_tip
unfolding get32 get16 get8 ntohl
not_hello = omega arith

lives : (1 < ip_ttl transit) × (ip_ttl transit < 256)
unfolding get8
lives = omega arith

in_cache : in_arp_cache router.arp_cache (ip_dst transit) ≡ some next
unfolding in_arp_cache get32 get16 get8
in_cache = refl

forwards_example :
    let q = blit (forwarded transit (port eth1 16908298 2)) 0 next.arp_ha in
    (process_ip_packet takes_all 200 router transit eth0
      ≡ some (sends router (record { packet = padded q (length transit); iface = eth1 } ∷ [])))
    × (is_packet_valid q ≡ true)
    × (ip_ttl q + 1 ≡ ip_ttl transit)
    × (ip_src q ≡ ip_src transit)
    × (ip_dst q ≡ ip_dst transit)
    × (ip_proto q ≡ ip_proto transit)
forwards_example =
    process_ip_packet-forwards takes_all 200 router transit eth0 eth1 (ip_dst transit)
      (port eth0 16842762 1) (port eth1 16908298 2) next (omega arith) refl refl transit_valid
      known_port refl not_ours not_hello transit_route other_port next_port refl (lives.0) (lives.1)
      in_cache

-- The way back to 10.0.1.5
abbrev back : RtableEntry
back = record route { ip = 65546; mask = 16777215; iface = eth0 }

abbrev sender : ArpCacheEntry
sender = cached 100 83951626 (2 ∷ 0 ∷ 0 ∷ 0 ∷ 0 ∷ 7 ∷ []) 0

abbrev near : RouterState
near = record router { rtable = back ∷ []; arp_cache = sender ∷ [] }

back_route : get_next_hop 32 near.rtable (get32 transit 26) ≡ some (83951626, eth0)
unfolding get_next_hop get32 get16 get8 ntohl
back_route = refl

back_in_cache : in_arp_cache near.arp_cache 83951626 ≡ some sender
unfolding in_arp_cache
back_in_cache = refl

short_source : get32 transit 26 < 2 ^ 32
unfolding get32 get16 get8
short_source = omega arith

-- Its time to live ran out.
error_example :
    let source = icmp_source transit time_exceeded 0 (port eth0 16842762 1) in
    let message =
      blit
        (icmp_packet time_exceeded 0
          (icmp_payload transit time_exceeded)
          source
          (get32 transit 26)
          (2 ∷ 0 ∷ 0 ∷ 0 ∷ 0 ∷ 1 ∷ []))
        0
        sender.arp_ha in
    (send_icmp_packet takes_all 200 near transit time_exceeded 0
      ≡ some (
        sends near (record { packet = padded message 70; iface = eth0 } ∷ []),
        if true then 0 else 1,
      ))
    × (is_packet_valid message ≡ true)
    × (ip_proto message ≡ 1)
    × (ip_dst message ≡ get32 transit 26)
    × (get8 message 34 ≡ time_exceeded)
    × (get8 message 35 ≡ 0)
    × (slice message 42 28 ≡ slice transit 14 28)
error_example =
    send_icmp_packet-error takes_all 200 near transit time_exceeded 0 83951626 eth0
      (port eth0 16842762 1) sender back_route known_port back_in_cache refl refl short_source
      (omega arith)
