-- ===== src/RTable/Tests.antt =====
-- The routing table on a small network: two routes to eth0 and eth1, and a default route.
use osnt_plus.Prelude.{
  ℕ, ◌≡◌, ◌<◌, ◌≢◌, refl, true, false, none, some, List, [], ◌∷◌, ◌++◌, ◌⊎◌, arith, All, keep,
  tally, bit_or, get_elem?, not,
}
use mathlib.Core.List.{Perm}
use osnt_plus.Net.{ntohl}
use osnt_plus.State.{lock_free, RtableEntry, RouterState, RegWrite}
use osnt_plus.RTable.{sort_rtable, out_of_order, get_next_hop, hop_of, count_bits}
use osnt_plus.Bubble.{inversions, bubble_pass, bubble_sort, sort}
use osnt_plus.RTable.Sort.{IsOrdered, bubble_sort-sort_rtable, sort_rtable_lem}
use osnt_plus.RTable.Lookup.{LongestMatch, matches, hop, get_next_hop_lem}
use osnt_plus.RTable.Priority.{IsPrefixMask, first_match, get_next_hop-first_match}
use osnt_plus.RTable.Hardware.{one_hot_port, eth0, eth1, write_rtable_to_hw}
use osnt_plus.RTable.Hardware.Rows.{
  Device, KnownPorts, active, run_device, row_for, write_rtable_to_hw-rows,
}
use osnt_plus.RTable.Hardware.FourRows.{four_rows}
use osnt_plus.RTable.Ops.{new_route, same_route, del_route}
use osnt_plus.RTable.Ops.Laws.{AllPorts, Leaves, del_route_lem}

-- 0.0.0.0/0 through 192.168.0.1, 10.0.1.0/24 on eth0, 10.0.0.0/8 through 10.0.2.1 on eth1
abbrev default_route : RtableEntry
default_route = record {
  ip = 0;
  gw = 16820416;
  mask = 0;
  iface = eth0;
  is_static = true;
  is_active = true;
}

abbrev narrow : RtableEntry
narrow = record default_route { ip = 65546; gw = 0; mask = 16777215; is_static = false }

abbrev wide : RtableEntry
wide = record default_route { ip = 10; gw = 16908298; mask = 255; iface = eth1 }

abbrev routes : List RtableEntry
routes = default_route ∷ wide ∷ narrow ∷ []

abbrev sorted : List RtableEntry
sorted = narrow ∷ wide ∷ default_route ∷ []

-- 10.0.1.5, 10.7.0.1 and 8.8.8.8
abbrev inside : ℕ
inside = 83951626

abbrev aside : ℕ
aside = 16779018

abbrev outside : ℕ
outside = 134744072

get_next_hop_of_routes :
    (get_next_hop 32 routes inside ≡ some (inside, eth0))
    × (get_next_hop 32 routes aside ≡ some (16908298, eth1))
    × (get_next_hop 32 routes outside ≡ some (16820416, eth0))
    × (get_next_hop 32 (wide ∷ []) outside ≡ none)
unfolding get_next_hop ntohl count_bits
get_next_hop_of_routes = (refl, refl, refl, refl)

sort_of_routes : sort_rtable routes ≡ sorted
unfolding sort_rtable sort bubble_pass out_of_order ntohl
sort_of_routes = refl

bubble_sort_example : bubble_sort out_of_order 4 routes ≡ some (sort_rtable routes)
unfolding inversions out_of_order ntohl
bubble_sort_example = bubble_sort-sort_rtable 4 routes (omega arith)

sorted-IsOrdered : IsOrdered sorted
unfolding out_of_order ntohl
sorted-IsOrdered = (refl, (refl, tt))

sorted-masks : All IsPrefixMask sorted
unfolding ntohl
sorted-masks = ((24, omega arith, refl), ((8, omega arith, refl), ((0, omega arith, refl), tt)))

first_match_example : get_next_hop 32 sorted aside ≡ hop_of 32 aside (first_match aside sorted)
first_match_example = get_next_hop-first_match 32 sorted aside sorted-IsOrdered sorted-masks

get_next_hop_example :
    ((get_next_hop 32 routes inside ≡ none) × All (λ e. matches inside e ≡ false) routes)
    ⊎ ((re : RtableEntry) × LongestMatch inside routes re
        × (get_next_hop 32 routes inside ≡ some (hop 32 inside re)))
get_next_hop_example = get_next_hop_lem 32 routes inside

has_port : {p : ℕ} → some p ≢ none
has_port e = cc

known : KnownPorts sorted
unfolding one_hot_port
known = ((λ _. has_port), ((λ _. has_port), ((λ _. has_port), tt)))

abbrev device : Device
device = record {
  a_hi = 1;
  a_low = 2;
  b_hi = 3;
  b_low = 4;
  address = 5;
  rows = λ _. record { ip = 9; mask = 9; next_hop = 9; port = 9 };
}

rows_example :
    (log' : List RegWrite) × (write_rtable_to_hw 4 4 sorted [] ≡ some log')
    × ((k : ℕ)
        → k < 4
        → (run_device log' device).rows (bit_or 4 k) ≡ row_for (get_elem? (active sorted) k))
rows_example = write_rtable_to_hw-rows 4 4 sorted [] device four_rows known

abbrev router : RouterState
router = record {
  router_id = 16777226;
  arp_ttl = 300;
  is_netfpga = true;
  rtable = sorted;
  arp_cache = [];
  arp_queue = [];
  if_list = [];
  pwospf_router_list = [];
  nat_table = [];
  writes = [];
  sent = [];
  area_id = 0;
  pwospf_hello_interval = 5;
  pwospf_lsu_interval = 30;
  pwospf_lsu_broadcast = true;
  pwospf_lsu_queue = [];
  dijkstra_dirty = false;
  sping_queue = [];
  transport = [];
  rands = [];
  nat_timeout = 60;
  local_ip_filter_list = [];
  pwospf_router_list_lock = lock_free;
}

sorted-AllPorts : AllPorts sorted
unfolding one_hot_port
sorted-AllPorts = (has_port, (has_port, (has_port, tt)))

added-AllPorts : AllPorts (sorted ++ new_route 10 0 255 eth1 ∷ [])
unfolding one_hot_port
added-AllPorts = (has_port, (has_port, (has_port, (has_port, tt))))

del_route_example :
    (rs' : RouterState) × (del_route 4 4 router 10 255
      ≡ some (rs', tally (same_route 10 255) sorted))
    × Leaves 4 4 router (keep (λ e. not (same_route 10 255 e)) sorted) rs'
del_route_example = del_route_lem 4 4 router 10 255 (λ _. sorted-AllPorts)

sort_rtable_example : Perm (sort_rtable routes) routes × IsOrdered (sort_rtable routes)
sort_rtable_example = sort_rtable_lem routes
