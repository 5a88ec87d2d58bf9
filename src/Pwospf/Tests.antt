-- ===== src/Pwospf/Tests.antt =====
-- Two routers: ours, with two ports, and 10.0.2.2 behind the second.
use osnt_plus.Prelude.{
  ℕ, ◌≡◌, ◌≢◌, ◌⊎◌, refl, arith, length, Bool, true, false, none, some, List, [], ◌∷◌, map, All,
}
use osnt_plus.Net.{ntohl, ntohs}
use osnt_plus.State.{lock_free, PwospfInterface, PwospfRouter, IfaceEntry, NbrRouter, RouterState}
use osnt_plus.Packet.{Packet, get8, get16, get32, set8, set16, set32}
use osnt_plus.Headers.{populate_eth_hdr, blit, blit?, bzero, zeros, populate_ip}
use osnt_plus.Checksum.{store_ip_checksum, compute_ip_checksum, fold_complement, sum_but}
use osnt_plus.RTable.Hardware.{eth0, eth1}
use osnt_plus.Arp.{slice}
use osnt_plus.Pwospf.{
  pwospf_hdr, pwospf_type, pwospf_len, pwospf_rid, lsu_seq, lsu_ttl, type_lsu, type_hello, lsu_num,
  store_pwospf_checksum, compute_pwospf_checksum, populate_pwospf_lsu, populate_pwospf, sum_pwospf,
  is_pwospf_packet_valid,
}
use osnt_plus.Pwospf.Adverts.{
  LsuAdv, write_adverts, write_adv, adverts, advert_of, some_entry, is_advertised,
  populate_interface_list,
}
use osnt_plus.Pwospf.Adverts.Sync.{populate_interface_list_lem}
use osnt_plus.Pwospf.Flood.{lsu_packet, framed_lsu}
use osnt_plus.Pwospf.Flood.Layout.{Fits}
use osnt_plus.Pwospf.Flood.RoundTrip.{is_pwospf_packet_valid-framed_lsu}
use osnt_plus.Pwospf.Lsu.{learn}
use osnt_plus.Pwospf.Duplicates.{learn-learn}
use osnt_plus.Pwospf.WellFormed.{WellFormed}
use osnt_plus.Pwospf.Events.{
  Event, AllFit, packet, hello_thread, lsu_thread, lsu_timeout_thread, run, run-WellFormed,
}
use osnt_plus.Pwospf.Whole.{Whole}

-- 10.0.1.0/24 and 10.0.2.0/24, the second with the neighbour 2.2.2.2
abbrev first : PwospfInterface
first = record { subnet = 65546; mask = 16777215; router_id = 0; is_active = false }

abbrev second : PwospfInterface
second = record { subnet = 131082; mask = 16777215; router_id = 33686018; is_active = true }

abbrev adv : LsuAdv
adv = record { sub = 131082; mask = 16777215; rid = 16843009 }

sync_example :
    let (ifs', changed) = populate_interface_list (first ∷ []) (adv ∷ []) in
    All (λ e. is_advertised (adv ∷ []) e ≡ true) ifs'
    × All (λ a. some_entry ifs' a ≡ true) (adv ∷ [])
    × ((changed ≡ true) ⊎ (ifs' ≡ first ∷ []))
sync_example = populate_interface_list_lem (first ∷ []) (adv ∷ []) (refl, tt)

abbrev port : List ℕ → ℕ → ℕ → List NbrRouter → IfaceEntry
port name ip last nbrs = record {
  name = name;
  addr = 2 ∷ 0 ∷ 0 ∷ 0 ∷ 0 ∷ last ∷ [];
  ip = ip;
  mask = 16777215;
  speed = 0;
  is_active = true;
  last_sent_hello = 0;
  nbr_routers = nbrs;
  is_wan = 0;
}

abbrev neighbor : NbrRouter
neighbor = record { router_id = 33686018; ip = 33685514; last_rcvd_hello = 100 }

abbrev ours : PwospfRouter
ours = record {
  router_id = 16843009;
  area_id = 0;
  seq = 7;
  last_update = 100;
  distance = 0;
  shortest_path_found = false;
  interface_list = first ∷ second ∷ [];
  prev_router = none;
}

abbrev router : RouterState
router = record {
  router_id = 16843009;
  arp_ttl = 300;
  is_netfpga = true;
  rtable = [];
  arp_cache = [];
  arp_queue = [];
  if_list = port eth0 16842762 1 [] ∷ port eth1 16908298 2 (neighbor ∷ []) ∷ [];
  pwospf_router_list =
      ours ∷ record ours { router_id = 33686018; interface_list = second ∷ [] } ∷ [];
  nat_table = [];
  writes = [];
  sent = [];
  area_id = 0;
  pwospf_hello_interval = 5;
  pwospf_lsu_interval = 30;
  pwospf_lsu_broadcast = true;
  pwospf_lsu_queue = [];
  dijkstra_dirty = false;
  sping_queue = [];
  transport = [];
  rands = [];
  nat_timeout = 60;
  local_ip_filter_list = [];
  pwospf_router_list_lock = lock_free;
}

abbrev takes_all : Packet → List ℕ → Bool
takes_all p iface = true

router-WellFormed : WellFormed router
router-WellFormed = record { ours = refl; once = refl; linked = (omega arith, (omega arith, tt)) }

-- What our router advertises, in the frame for its neighbour
abbrev lsu_frame : Packet
lsu_frame =
    let p = lsu_packet 16843009 0 7 (first ∷ second ∷ []) in
    framed_lsu (port eth1 16908298 2 []) neighbor (slice p 0 (ntohs (pwospf_len p 0)))

other_id : ntohl 16843009 ≢ 33686018
unfolding ntohl
other_id = omega arith

first-Fits : Fits (advert_of first)
first-Fits = record { sub_lt = omega arith; mask_lt = omega arith; rid_lt = omega arith }

second-Fits : Fits (advert_of second)
second-Fits = record { sub_lt = omega arith; mask_lt = omega arith; rid_lt = omega arith }

round_trip_example :
    let (q, valid) = is_pwospf_packet_valid 0 33686018 lsu_frame in
    (valid ≡ true)
    × (pwospf_type q pwospf_hdr ≡ type_lsu)
    × (pwospf_rid q pwospf_hdr ≡ 16843009)
    × (ntohs (lsu_seq q pwospf_hdr) ≡ 7)
    × (ntohs (lsu_ttl q pwospf_hdr) ≡ 64)
    × (adverts q pwospf_hdr ≡ map advert_of (first ∷ second ∷ []))
round_trip_example =
    is_pwospf_packet_valid-framed_lsu 16843009 0 7 (first ∷ second ∷ []) (port eth1 16908298 2 [])
      neighbor (omega arith) (omega arith) (omega arith) (omega arith)
      (first-Fits, (second-Fits, tt)) refl 33686018 other_id (omega arith)

-- An update of 3.3.3.3 that is seen twice
abbrev lsu : Packet
lsu =
    framed_lsu (port eth1 16908298 2 []) neighbor
      (slice (lsu_packet 50529027 0 4 (second ∷ [])) 0 44)

duplicate_example :
    learn 130 lsu (learn 120 lsu router.pwospf_router_list).0
    ≡ ((learn 120 lsu router.pwospf_router_list).0, false, false)
duplicate_example = learn-learn 120 130 lsu router.pwospf_router_list

-- The neighbour is silent for too long, and then an update arrives.
abbrev events : List Event
events = hello_thread 200 ∷ packet 201 lsu eth1 ∷ lsu_timeout_thread 300 ∷ lsu_thread 301 ∷ []

lsu_sizes :
    (length lsu ≡ 78)
    × (ntohs (pwospf_len lsu pwospf_hdr) ≡ 44)
    × (ntohl (lsu_num lsu pwospf_hdr) ≡ 1)
    × (pwospf_type lsu pwospf_hdr ≡ type_lsu)
unfolding get8 get16 get32 set8 set16 set32 framed_lsu populate_eth_hdr blit blit? store_ip_checksum
    compute_ip_checksum populate_ip bzero lsu_packet store_pwospf_checksum compute_pwospf_checksum
    write_adverts write_adv populate_pwospf_lsu populate_pwospf fold_complement sum_but zeros ntohl
    ntohs sum_pwospf
lsu_sizes = (refl, refl, refl, refl)

no_hello : pwospf_type lsu pwospf_hdr ≡ type_hello → ⊥
no_hello e = let (_, _, _, kind) = lsu_sizes in omega (arith, kind, e)

lsu-Whole : Whole lsu
lsu-Whole =
    let (size, len, num, kind) = lsu_sizes in
    record {
      header = omega (arith, size);
      body = omega (arith, size, len);
      hello = λ hello. absurd (no_hello hello);
      update = λ update. (omega (arith, len), omega (arith, size, num));
    }

events-fit : AllFit takes_all events router
events-fit = (
  tt,
  λ rs1 e1. (
    (lsu-Whole, λ iface port kind. absurd (no_hello kind)),
    λ rs2 e2. (tt, λ rs3 e3. (tt, λ rs4 e4. tt)),
  ),
)

run_example :
    (rs' : RouterState) × (run takes_all events router ≡ some rs')
    × WellFormed rs'
    × (rs'.pwospf_router_list_lock ≡ lock_free)
run_example = run-WellFormed takes_all events router events-fit refl router-WellFormed
