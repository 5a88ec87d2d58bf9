-- ===== src/Arp/Retry/Tests.antt =====
-- 10.0.1.7 was asked for once, 10.0.1.9 five times; one packet waits for each.
use osnt_plus.Prelude.{ℕ, ◌≡◌, refl, Bool, true, false, Option, none, some, List, [], ◌∷◌, length}
use osnt_plus.Net.{strncmp_eq}
use osnt_plus.State.{lock_free, ArpQueuePacketEntry, ArpQueueEntry, IfaceEntry, RouterState}
use osnt_plus.Packet.{Packet, get8, get32}
use osnt_plus.Iface.{get_iface, iface_match_ip}
use osnt_plus.RTable.Hardware.{eth0}
use osnt_plus.Arp.{send_arp_request, send_packet}
use osnt_plus.Arp.Retry.{wants_error, process_arp_queue}

abbrev port : IfaceEntry
port = record {
  name = eth0;
  addr = 2 ∷ 0 ∷ 0 ∷ 0 ∷ 0 ∷ 1 ∷ [];
  ip = 16842762;
  mask = 16777215;
  speed = 0;
  is_active = true;
  last_sent_hello = 0;
  nbr_routers = [];
  is_wan = 0;
}

-- An ICMP error, about which no error is sent
abbrev waiting : ArpQueuePacketEntry
waiting = record {
  packet =
      0 ∷ 0 ∷ 0 ∷ 0 ∷ 0 ∷ 0 ∷ 0 ∷ 0 ∷ 0 ∷ 0 ∷ 0 ∷ 0 ∷ 8 ∷ 0 ∷ 0x45 ∷ 0 ∷ 0 ∷ 40 ∷ 0 ∷ 1 ∷ 0x40 ∷ 0
      ∷ 64 ∷ 1 ∷ 0 ∷ 0 ∷ 10 ∷ 0 ∷ 1 ∷ 5 ∷ 10 ∷ 7 ∷ 0 ∷ 1 ∷ 3 ∷ 0 ∷ 0 ∷ 0 ∷ [];
  len = 38;
}

abbrev entry : ℕ → ℕ → ArpQueueEntry
entry next_hop requests = record {
  out_iface_name = eth0;
  next_hop = next_hop;
  requests = requests;
  last_req_time = 100;
  head = waiting ∷ [];
}

abbrev router : RouterState
router = record {
  router_id = 16777226;
  arp_ttl = 300;
  is_netfpga = true;
  rtable = [];
  arp_cache = [];
  arp_queue = entry 117506058 1 ∷ entry 151060490 5 ∷ [];
  if_list = port ∷ [];
  pwospf_router_list = [];
  nat_table = [];
  writes = [];
  sent = [];
  area_id = 0;
  pwospf_hello_interval = 5;
  pwospf_lsu_interval = 30;
  pwospf_lsu_broadcast = true;
  pwospf_lsu_queue = [];
  dijkstra_dirty = false;
  sping_queue = [];
  transport = [];
  rands = [];
  nat_timeout = 60;
  local_ip_filter_list = [];
  pwospf_router_list_lock = lock_free;
}

abbrev takes_all : Packet → List ℕ → Bool
takes_all p iface = true

abbrev left : Option RouterState → List ArpQueueEntry × ℕ
left none = ([], 0)
left (some rs) = (rs.arp_queue, length rs.sent)

-- The first is asked for again, the second given up.
retry_runs :
    left (process_arp_queue takes_all 102 router)
    ≡ (record (entry 117506058 2) { last_req_time = 102 } ∷ [], 1)
unfolding process_arp_queue send_arp_request send_packet get_iface strncmp_eq wants_error get8 get32
    iface_match_ip
retry_runs = refl
