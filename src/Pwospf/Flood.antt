-- ===== src/Pwospf/Flood.antt =====
-- The flood of link state updates: `construct_pwospf_lsu_packet`, `broadcast_pwospf_lsu_packet`,
-- `start_lsu_bcast_flood`, and before it `determine_active_interfaces` and
-- `propagate_pwospf_changes`. `none` is a failed assertion or a null pointer that is followed.
pub mod Framed
pub mod Layout
pub mod RoundTrip
pub mod Transit
use osnt_plus.Prelude.{
  ℕ, zero, suc, ◌+◌, ◌*◌, ◌%◌, ◌^◌, Bool, true, false, not, ◌&&◌, ◌||◌, Option, none, some, List,
  [], ◌∷◌, ◌++◌, ltb, ◌==◌, if◌then◌else◌, length, get_elem?, set, take, bit_and,
}
use osnt_plus.Net.{ntohs}
use osnt_plus.State.{
  PwospfInterface, PwospfRouter, IfaceEntry, NbrRouter, LsuQueueEntry, RouterState,
}
use osnt_plus.Packet.{Packet}
use osnt_plus.Checksum.{store_ip_checksum}
use osnt_plus.Headers.{zeros, blit, populate_ip, populate_eth_hdr}
use osnt_plus.Dijkstra.{get_router_by_rid}
use osnt_plus.Arp.{slice}
use osnt_plus.Pwospf.{
  pwospf_hdr, pwospf_len, type_lsu, populate_pwospf, populate_pwospf_lsu, store_pwospf_checksum,
  lsu_data,
}
use osnt_plus.Pwospf.Adverts.{write_adverts}

-- The test of `determine_active_interfaces` on an interface and one of the neighbour's.
abbrev pub same_link : PwospfInterface → PwospfInterface → Bool
same_link this another =
    this.subnet == another.subnet
    && this.mask == another.mask
    && not (this.router_id == 0 || another.router_id == 0)

-- The inner loop: the neighbour's interfaces on the link become active; whether there is one.
unfoldable pub mark_links : PwospfInterface → List PwospfInterface → List PwospfInterface
mark_links this [] = []
mark_links this (another ∷ n) =
    (if same_link this another then record another { is_active = true } else another)
    ∷ mark_links this n

unfoldable pub has_link : PwospfInterface → List PwospfInterface → Bool
has_link this [] = false
has_link this (another ∷ n) = same_link this another || has_link this n

-- The interface at position `j` of the router at position `k` is set to `b`.
unfoldable pub set_active : ℕ → ℕ → Bool → List PwospfRouter → List PwospfRouter
set_active k j b routers = elim (get_elem? routers k) [
  | none ↦ routers
  | some r ↦ elim (get_elem? r.interface_list j) [
    | none ↦ routers
    | some e ↦
        set routers k
          (record r { interface_list = set r.interface_list j (record e { is_active = b }) })
  ]
]

-- One round of the outer loop, for that interface. The neighbour may be the router itself.
unfoldable pub visit : ℕ → ℕ → List PwospfRouter → List PwospfRouter
visit k j routers = elim (get_elem? routers k) [
  | none ↦ routers
  | some r ↦ elim (get_elem? r.interface_list j) [
    | none ↦ routers
    | some this ↦ elim (get_router_by_rid this.router_id routers 0) [
      | none ↦ set_active k j false routers
      | some m ↦ elim (get_elem? routers m) [
        | none ↦ set_active k j false routers
        | some another ↦ set_active k j (has_link this another.interface_list) (
            set routers m
              (record another { interface_list = mark_links this another.interface_list }))
      ]
    ]
  ]
]

-- `determine_active_interfaces` for the router at `k`, with `rounds` interfaces left from `j` on
unfoldable pub visit_interfaces : ℕ → ℕ → ℕ → List PwospfRouter → List PwospfRouter
visit_interfaces k zero j routers = routers
visit_interfaces k (suc rounds) j routers = visit_interfaces k rounds (j + 1) (visit k j routers)

unfoldable pub determine_active_interfaces : ℕ → List PwospfRouter → List PwospfRouter
unfolding visit_interfaces
determine_active_interfaces k routers = elim (get_elem? routers k) [
  | none ↦ routers
  | some r ↦ visit_interfaces k (length r.interface_list) 0 routers
]

-- The loop of `propagate_pwospf_changes`, with `rounds` routers left from `k` on
unfoldable pub determine_all : ℕ → ℕ → List PwospfRouter → List PwospfRouter
determine_all zero k routers = routers
determine_all (suc rounds) k routers =
    determine_all rounds (k + 1) (determine_active_interfaces k routers)

-- The packet of `construct_pwospf_lsu_packet`, with the sequence number `seq`.
unfoldable pub lsu_packet : ℕ → ℕ → ℕ → List PwospfInterface → Packet
lsu_packet router_id area_id seq ifs =
    let len = 32 + 12 * length ifs in
    let p = populate_pwospf (zeros len) 0 type_lsu len router_id area_id in
    let p = populate_pwospf_lsu p 0 seq (length ifs) in
    store_pwospf_checksum (write_adverts p (lsu_data 0) ifs) 0

-- `construct_pwospf_lsu_packet`: the packet, and the routers, with ours one number on. `now` is what
-- `time` returns.
unfoldable pub construct_pwospf_lsu_packet : ℕ → RouterState → Option (Packet × List PwospfRouter)
construct_pwospf_lsu_packet now rs = elim (get_router_by_rid rs.router_id rs.pwospf_router_list 0) [
  | none ↦ none
  | some k ↦ elim (get_elem? rs.pwospf_router_list k) [
    | none ↦ none
    | some our_router ↦ some (
      lsu_packet rs.router_id rs.area_id our_router.seq our_router.interface_list,
      set rs.pwospf_router_list k
          (record our_router { last_update = now; seq = (our_router.seq + 1) % 65536 }),
    )
  ]
]

-- The frame for a neighbour; `len` bytes of the update are copied from offset `at` of `p`.
unfoldable pub framed_lsu : IfaceEntry → NbrRouter → List ℕ → Packet
framed_lsu iface nbr lsu =
    let p = blit (zeros (34 + length lsu)) pwospf_hdr lsu in
    let p = store_ip_checksum (populate_ip p (length lsu) 0x59 iface.ip nbr.ip) in
    populate_eth_hdr p none iface.addr 0x0800

abbrev pub lsu_queue_entry : IfaceEntry → NbrRouter → List ℕ → LsuQueueEntry
lsu_queue_entry iface nbr lsu = record {
  ip = iface.ip;
  iface = take 32 iface.name;
  packet = framed_lsu iface nbr lsu;
  len = 34 + length lsu;
}

-- `!src_ip || (src_ip->s_addr != nbr->ip.s_addr)`
abbrev pub goes_to : Option ℕ → NbrRouter → Bool
goes_to none nbr = true
goes_to (some ip) nbr = not (ip == nbr.ip)

-- The inner loop of `broadcast_pwospf_lsu_packet`, and the outer one: what joins the queue.
unfoldable pub to_neighbors : IfaceEntry → List NbrRouter → List ℕ → Option ℕ → List LsuQueueEntry
to_neighbors iface [] lsu src_ip = []
to_neighbors iface (nbr ∷ n) lsu src_ip =
    let rest = to_neighbors iface n lsu src_ip in
    if goes_to src_ip nbr then lsu_queue_entry iface nbr lsu ∷ rest else rest

unfoldable pub to_interfaces : List IfaceEntry → List ℕ → Option ℕ → List LsuQueueEntry
unfolding to_neighbors
to_interfaces [] lsu src_ip = []
to_interfaces (iface ∷ n) lsu src_ip =
    (if iface.is_active then to_neighbors iface iface.nbr_routers lsu src_ip else [])
    ++ to_interfaces n lsu src_ip

-- `broadcast_pwospf_lsu_packet`; the update's own length field says how much of it is copied.
unfoldable pub broadcast_pwospf_lsu_packet : RouterState → Packet → Option ℕ → RouterState
broadcast_pwospf_lsu_packet rs pwospf src_ip = record rs {
  pwospf_lsu_queue =
      rs.pwospf_lsu_queue
      ++ to_interfaces rs.if_list (slice pwospf 0 (ntohs (pwospf_len pwospf 0))) src_ip;
}

-- `start_lsu_bcast_flood`; it sets our router's time once more.
unfoldable pub start_lsu_bcast_flood : ℕ → RouterState → Option RouterState
start_lsu_bcast_flood now rs = elim rs.pwospf_lsu_broadcast [
  | false ↦ some rs
  | true ↦ elim (construct_pwospf_lsu_packet now rs) [
    | none ↦ none
    | some (pwospf, routers) ↦
        some (broadcast_pwospf_lsu_packet (record rs { pwospf_router_list = routers }) pwospf none)
  ]
]

-- `propagate_pwospf_changes`, with `dijkstra_trigger`
unfoldable pub propagate_pwospf_changes : ℕ → RouterState → Option RouterState
propagate_pwospf_changes now rs = start_lsu_bcast_flood now (record rs {
  pwospf_router_list = determine_all (length rs.pwospf_router_list) 0 rs.pwospf_router_list;
  dijkstra_dirty = true;
})
