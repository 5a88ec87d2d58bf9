-- ===== src/Start.antt =====
-- The start of the router on the NetFPGA, without locks, threads and sockets: `init`,
-- `init_add_interface`, `init_router_list`, `init_rtable` and `init_ospf` of scone/or_main.c, in the
-- order of `sr_init_low_level_subystem` of scone/sr_base.c in cpu mode. `none` is a failed assertion
-- or a null pointer that is followed.
pub mod Lines
pub mod Fresh
pub mod Safe
mod Tests
use osnt_plus.Prelude.{
  ℕ, zero, suc, ◌+◌, ◌*◌, Bool, true, false, ◌&&◌, ◌||◌, Option, none, some, List, [], ◌∷◌, ◌++◌,
  ◌==◌, if◌then◌else◌, get_or, set, get_elem?, bit_and, bytes_eq,
}
use osnt_plus.Prelude.Int.{ℤ}
use osnt_plus.Net.{strncpy, strncmp_eq}
use osnt_plus.State.{
  with_lock, lock_absent, lock_free, IfaceEntry, RtableEntry, PwospfInterface, PwospfRouter,
  RouterState, RegWrite, write_reg, mac_hi, mac_low,
}
use osnt_plus.RTable.{if_len}
use osnt_plus.RTable.Hardware.{eth0, eth1, write_rtable_to_hw}
use osnt_plus.Arp.{write_arp_cache_to_hw}
use osnt_plus.Dijkstra.{get_router_by_rid}
use osnt_plus.Filters.{add_local_ip_filter}

-- The constants of the device's tables in reg_defines.h.
pub record Tables : Type 0 where
  pub rtable_width : ℕ
  pub rtable_address : ℕ
  pub arp_width : ℕ
  pub arp_address : ℕ
  pub filter_width : ℕ
  pub filter_address : ℕ

-- `bzero` on the router state. What `rand` will return is chosen here.
unfoldable pub zeroed : List ℕ → RouterState
zeroed rands = record {
  router_id = 0;
  arp_ttl = 0;
  is_netfpga = false;
  rtable = [];
  arp_cache = [];
  arp_queue = [];
  if_list = [];
  pwospf_router_list = [];
  nat_table = [];
  writes = [];
  sent = [];
  area_id = 0;
  pwospf_hello_interval = 0;
  pwospf_lsu_interval = 0;
  pwospf_lsu_broadcast = false;
  pwospf_lsu_queue = [];
  dijkstra_dirty = false;
  sping_queue = [];
  transport = [];
  rands = rands;
  nat_timeout = 0;
  local_ip_filter_list = [];
  pwospf_router_list_lock = lock_absent;
}

-- `init_hardware`
unfoldable pub init_hardware : Tables → RouterState → Option RouterState
init_hardware t rs =
    let log = write_arp_cache_to_hw t.arp_width t.arp_address rs.arp_cache rs.writes in
    elim (write_rtable_to_hw t.rtable_width t.rtable_address rs.rtable log) [
      | none ↦ none
      | some log' ↦ some (record rs { writes = log' })
    ]

-- `init` of the build in cpu mode: PWOSPF_AREA_ID, INITIAL_ARP_TIMEOUT, and the time-out of the NAT
unfoldable pub init : Tables → List ℕ → Option RouterState
unfolding zeroed init_hardware
init t rands =
    init_hardware t
      (record (zeroed rands) { area_id = 0; arp_ttl = 300; nat_timeout = 120; is_netfpga = true })

-- `struct sr_vns_if`
pub record VnsIf : Type 0 where
  pub name : List ℕ
  pub addr : List ℕ
  pub ip : ℕ
  pub mask : ℕ
  pub speed : ℕ

-- `strncmp(text, word, strlen(word)) == 0`, and `strstr(text, word)` for a word that is not empty
unfoldable pub begins : List ℕ → List ℕ → Bool
begins [] text = true
begins (x ∷ word) [] = false
begins (x ∷ word) (y ∷ text) = x == y && begins word text

unfoldable pub strstr : List ℕ → List ℕ → Bool
unfolding begins
strstr [] word = false
strstr (y ∷ text) word = begins word (y ∷ text) || strstr text word

abbrev pub cpu : List ℕ
cpu = b'c' ∷ b'p' ∷ b'u' ∷ []

-- `getPortNumber`: `none` is the failed assertion.
unfoldable pub port_number : List ℕ → Option ℕ
port_number name =
    if bytes_eq eth0 name then some 0 else if bytes_eq eth1 name then some 1 else none

-- The hardware address of a port, in two registers; the bytes are disjoint, so that `|` adds.
unfoldable pub write_mac : ℕ → List ℕ → List RegWrite → List RegWrite
write_mac port addr log =
    let hi = get_or addr 0 0 * 256 + get_or addr 1 0 in
    let low =
      get_or addr 2 0 * 16777216
      + get_or addr 3 0 * 65536
      + get_or addr 4 0 * 256
      + get_or addr 5 0 in
    write_reg (mac_low port) low (write_reg (mac_hi port) hi log)

abbrev pub new_iface : VnsIf → IfaceEntry
new_iface v = record {
  name = v.name;
  addr = v.addr;
  ip = v.ip;
  mask = v.mask;
  speed = v.speed;
  is_active = true;
  last_sent_hello = 0;
  nbr_routers = [];
  is_wan = 0;
}

-- The new interface in the list; that of "eth0" gives the router its id.
unfoldable pub with_iface : RouterState → IfaceEntry → RouterState
with_iface rs ie = record rs {
  router_id = if strncmp_eq ie.name eth0 if_len then ie.ip else rs.router_id;
  if_list = rs.if_list ++ ie ∷ [];
}

-- The hardware address is set where there is a device.
unfoldable pub set_mac : Bool → RouterState → VnsIf → Option RouterState
set_mac false rs v = some rs
set_mac true rs v = elim (port_number v.name) [
  | none ↦ none
  | some port ↦ some (record rs { writes = write_mac port v.addr rs.writes })
]

-- The first default route among the static routes.
unfoldable pub default_route_present : List RtableEntry → Option PwospfInterface
default_route_present [] = none
default_route_present (re ∷ n) =
    if re.is_static && re.ip == 0 && re.mask == 0
    then some (record {
      subnet = bit_and re.ip re.mask;
      mask = re.mask;
      router_id = 0;
      is_active = false;
    })
    else default_route_present n

-- A line of the file: the addresses that `inet_pton` reads, and the name.
pub record RtableLine : Type 0 where
  pub ip : ℕ
  pub gw : ℕ
  pub mask : ℕ
  pub iface : List ℕ

abbrev pub line_route : RtableLine → RtableEntry
line_route line = record {
  ip = line.ip;
  gw = line.gw;
  mask = line.mask;
  iface = strncpy line.iface 32;
  is_static = true;
  is_active = true;
}

-- The `while` of `init_rtable`. A line that `sscanf` does not read leaves null pointers.
unfoldable pub read_lines : List (Option RtableLine) → List RtableEntry → Option (List RtableEntry)
read_lines [] rtable = some rtable
read_lines (none ∷ n) rtable = none
read_lines (some line ∷ n) rtable = read_lines n (rtable ++ line_route line ∷ [])

-- An interface joins our router's.
unfoldable pub advertise : PwospfInterface → RouterState → Option RouterState
advertise pi rs = elim (get_router_by_rid rs.router_id rs.pwospf_router_list 0) [
  | none ↦ none
  | some k ↦ elim (get_elem? rs.pwospf_router_list k) [
    | none ↦ none
    | some r ↦ some (record rs {
      pwospf_router_list =
          set rs.pwospf_router_list k (record r { interface_list = r.interface_list ++ pi ∷ [] });
    })
  ]
]

-- `init_rtable`; it ends with `dijkstra_trigger`. For a default route the mutex is locked, which
-- `init_ospf` allocates only later.
unfoldable pub init_rtable : List (Option RtableLine) → RouterState → Option RouterState
unfolding read_lines
init_rtable lines rs = elim (read_lines lines rs.rtable) [
  | none ↦ none
  | some rtable ↦
      let read : RouterState = record rs { rtable = rtable; dijkstra_dirty = true } in
      elim (default_route_present rtable) [
        | none ↦ some read
        | some default_route ↦ with_lock read.pwospf_router_list_lock (advertise default_route read)
      ]
]

-- The interfaces that `init_router_list` advertises.
unfoldable pub connected : List IfaceEntry → List PwospfInterface
connected [] = []
connected (ie ∷ n) =
    record { subnet = bit_and ie.ip ie.mask; mask = ie.mask; router_id = 0; is_active = false }
    ∷ connected n

abbrev pub our_first : ℕ → RouterState → PwospfRouter
our_first now rs = record {
  router_id = rs.router_id;
  area_id = rs.area_id;
  seq = 0;
  last_update = now;
  distance = 0;
  shortest_path_found = false;
  interface_list = connected rs.if_list;
  prev_router = none;
}

-- `init_router_list`, where `time` returns `now`
unfoldable pub init_router_list : ℕ → RouterState → Option RouterState
unfolding connected
init_router_list now rs = elim rs.pwospf_router_list [
  | [] ↦ some (record rs { pwospf_router_list = our_first now rs ∷ [] })
  | _ ∷ _ ↦ none
]

-- 224.0.0.5 and "pwospf"
abbrev pub all_routers : ℕ
all_routers = 83886304

abbrev pub pwospf_name : List ℕ
pwospf_name = b'p' ∷ b'w' ∷ b'o' ∷ b's' ∷ b'p' ∷ b'f' ∷ []

module _ (strcmp : List ℕ → List ℕ → ℤ) (t : Tables) where
  unfoldable pub init_add_interface : RouterState → VnsIf → Option RouterState
  init_add_interface rs v = elim (strstr v.name cpu) [
    | true ↦ some rs
    | false ↦
        let listed = with_iface rs (new_iface v) in
        elim (set_mac listed.is_netfpga listed v) [
          | none ↦ none
          | some rs' ↦
              some (add_local_ip_filter strcmp t.filter_width t.filter_address rs' v.ip v.name).0
        ]
  ]

  -- The lines of the hardware file, each an interface.
  unfoldable pub add_interfaces : List VnsIf → RouterState → Option RouterState
  unfolding init_add_interface
  add_interfaces [] rs = some rs
  add_interfaces (v ∷ n) rs = elim (init_add_interface rs v) [
    | none ↦ none
    | some rs' ↦ add_interfaces n rs'
  ]

  unfoldable pub init_ospf : RouterState → RouterState
  init_ospf rs =
      let timed : RouterState = record rs {
        pwospf_hello_interval = 5;
        pwospf_lsu_interval = 30;
        pwospf_lsu_broadcast = true;
        pwospf_router_list_lock = lock_free;
      } in
      if rs.is_netfpga
      then (add_local_ip_filter strcmp t.filter_width t.filter_address timed all_routers
          pwospf_name).0
      else timed

  -- The whole start.
  unfoldable pub start : ℕ → List ℕ → List VnsIf → List (Option RtableLine) → Option RouterState
  unfolding init add_interfaces init_router_list init_rtable init_ospf
  start now rands ifs lines = elim (init t rands) [
    | none ↦ none
    | some rs0 ↦ elim (add_interfaces ifs rs0) [
      | none ↦ none
      | some rs1 ↦ elim (init_router_list now rs1) [
        | none ↦ none
        | some rs2 ↦ elim (init_rtable lines rs2) [ none ↦ none | some rs3 ↦ some (init_ospf rs3) ]
      ]
    ]
  ]
