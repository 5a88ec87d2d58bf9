-- ===== src/Arp/Tests.antt =====
-- The ARP cache with two entries, and a packet that waits for 10.0.1.7.
use mathlib.Core.List.{Mem}
use osnt_plus.Prelude.{
  ℕ, ◌<◌, ◌^◌, arith, ◌≡◌, refl, Bool, true, false, not, none, some, List, [], ◌∷◌, ◌++◌, ◌==◌,
  keep,
}
use osnt_plus.State.{lock_free, ArpCacheEntry, ArpQueueEntry, IfaceEntry, RouterState}
use osnt_plus.Net.{strncmp_eq}
use osnt_plus.Packet.{Packet, get8, get16, get32}
use osnt_plus.Iface.{get_iface}
use osnt_plus.RTable.Hardware.{eth0}
use osnt_plus.Arp.{
  in_arp_cache, cached, update_cache_list, expired, expire_loop, expire_arp_cache,
  trigger_arp_cache_modified, arp_sip, arp_sha, process_arp_reply, send_ip, in_arp_queue,
}
use osnt_plus.Arp.Queue.{delivery, deliveries, process_arp_reply_lem}
use osnt_plus.Arp.Delivery.{waiting_packet, send_ip-process_arp_reply}

abbrev mac : List ℕ
mac = 2 ∷ 0 ∷ 0 ∷ 0 ∷ 0 ∷ 7 ∷ []

abbrev cache : List ArpCacheEntry
cache = cached 100 83951626 mac 0 ∷ cached 0 16842762 mac 1 ∷ []

abbrev port : IfaceEntry
port = record {
  name = eth0;
  addr = 2 ∷ 0 ∷ 0 ∷ 0 ∷ 0 ∷ 1 ∷ [];
  ip = 16842762;
  mask = 16777215;
  speed = 0;
  is_active = true;
  last_sent_hello = 0;
  nbr_routers = [];
  is_wan = 0;
}

abbrev router : RouterState
router = record {
  router_id = 16777226;
  arp_ttl = 300;
  is_netfpga = true;
  rtable = [];
  arp_cache = cache;
  arp_queue = [];
  if_list = port ∷ [];
  pwospf_router_list = [];
  nat_table = [];
  writes = [];
  sent = [];
  area_id = 0;
  pwospf_hello_interval = 5;
  pwospf_lsu_interval = 30;
  pwospf_lsu_broadcast = true;
  pwospf_lsu_queue = [];
  dijkstra_dirty = false;
  sping_queue = [];
  transport = [];
  rands = [];
  nat_timeout = 60;
  local_ip_filter_list = [];
  pwospf_router_list_lock = lock_free;
}

-- From 10.0.1.7
abbrev reply : Packet
reply =
    2 ∷ 0 ∷ 0 ∷ 0 ∷ 0 ∷ 1 ∷ 2 ∷ 0 ∷ 0 ∷ 0 ∷ 0 ∷ 7 ∷ 8 ∷ 6 ∷ 0 ∷ 1 ∷ 8 ∷ 0 ∷ 6 ∷ 4 ∷ 0 ∷ 2 ∷ 2 ∷ 0
    ∷ 0 ∷ 0 ∷ 0 ∷ 7 ∷ 10 ∷ 0 ∷ 1 ∷ 7 ∷ 2 ∷ 0 ∷ 0 ∷ 0 ∷ 0 ∷ 1 ∷ 10 ∷ 0 ∷ 1 ∷ 1 ∷ []

abbrev takes_all : Packet → List ℕ → Bool
takes_all p iface = true

expire_runs : (expire_arp_cache 4 4 500 router).arp_cache ≡ cached 0 16842762 mac 1 ∷ []
unfolding expire_arp_cache expire_loop expired trigger_arp_cache_modified
expire_runs = refl

-- Two packets wait for 10.0.1.7, one for 10.0.1.9.
abbrev first_waiting : ArpQueueEntry
first_waiting = record {
  out_iface_name = eth0;
  next_hop = 117506058;
  requests = 1;
  last_req_time = 100;
  head = waiting_packet (1 ∷ []) 1 ∷ waiting_packet (2 ∷ []) 1 ∷ [];
}

abbrev queue : List ArpQueueEntry
queue = first_waiting ∷ record first_waiting { next_hop = 151060490 } ∷ []

reply_example :
    (rs' : RouterState) × (process_arp_reply takes_all 4 4 200
        (record router { arp_queue = queue })
        reply
      ≡ some rs')
    × (rs'.arp_cache ≡ update_cache_list 200 cache (arp_sip reply) (arp_sha reply) 0)
    × (rs'.arp_queue ≡ keep (λ aqe. not (arp_sip reply == aqe.next_hop)) queue)
    × (rs'.sent ≡ [] ++ deliveries (arp_sip reply) (arp_sha reply) queue)
reply_example = process_arp_reply_lem takes_all 4 4 200 (record router { arp_queue = queue }) reply

port_known : get_iface (port ∷ []) eth0 ≡ some port
unfolding get_iface strncmp_eq
port_known = refl

not_cached : in_arp_cache cache (arp_sip reply) ≡ none
unfolding in_arp_cache get32 get16 get8
not_cached = refl

delivery_example :
    (rs1 rs2 : RouterState) × (iface : List ℕ) × (send_ip takes_all 150 router
        (1 ∷ 2 ∷ 3 ∷ [])
        3
        (arp_sip reply)
        eth0
      ≡ some (rs1, 0))
    × (process_arp_reply takes_all 4 4 200 rs1 reply ≡ some rs2)
    × Mem (delivery (arp_sha reply) iface (waiting_packet (1 ∷ 2 ∷ 3 ∷ []) 3)) rs2.sent
    × (in_arp_queue rs2.arp_queue (arp_sip reply) ≡ none)
delivery_example =
    send_ip-process_arp_reply takes_all 4 4 150 200 router (1 ∷ 2 ∷ 3 ∷ []) reply 3 eth0 port
      port_known not_cached

short_address : arp_sip reply < 2 ^ 32
unfolding get32 get16 get8
short_address = omega arith
