-- ===== src/Pwospf/Lsu.antt =====
-- The link state updates: `process_pwospf_lsu_packet`, `add_new_router_neighbor`, the passes of
-- `pwospf_lsu_thread`, `pwospf_lsu_timeout_thread` and `pwospf_lsu_bcast_thread`, and
-- `process_pwospf_packet`.
use osnt_plus.Prelude.{
  ℕ, ◌+◌, ◌-◌, ◌*◌, ◌%◌, ◌/◌, ◌^◌, leb, length, ◌||◌, Bool, true, false, not, ◌&&◌, Option, none,
  some, List, [], ◌∷◌, ◌++◌, ltb, ◌==◌, if◌then◌else◌, get_elem?, set,
}
use osnt_plus.Net.{ntohl, ntohs, htons}
use osnt_plus.State.{with_lock, PwospfRouter, LsuQueueEntry, RouterState}
use osnt_plus.Packet.{Packet, get32, set16}
use osnt_plus.RTable.{get_next_hop}
use osnt_plus.Dijkstra.{get_router_by_rid}
use osnt_plus.Arp.{slice, send_ip}
use osnt_plus.Pwospf.{
  lsu_data, lsu_num, pwospf_ver, pwospf_hdr, pwospf_type, pwospf_len, pwospf_rid, pwospf_aid,
  lsu_seq, lsu_ttl, type_hello, type_lsu, store_pwospf_checksum, is_pwospf_packet_valid,
}
use osnt_plus.Pwospf.Adverts.{adverts, populate_interface_list}
use osnt_plus.Pwospf.Flood.{
  broadcast_pwospf_lsu_packet, start_lsu_bcast_flood, propagate_pwospf_changes,
}
use osnt_plus.Pwospf.Hello.{ip_src, process_pwospf_hello_packet}

-- `add_new_router_neighbor`: the router that joins the list.
unfoldable pub new_router : ℕ → Packet → PwospfRouter
new_router now p = record {
  router_id = pwospf_rid p pwospf_hdr;
  area_id = ntohl (pwospf_aid p pwospf_hdr);
  seq = ntohs (lsu_seq p pwospf_hdr);
  last_update = now;
  distance = 0;
  shortest_path_found = false;
  interface_list = (populate_interface_list [] (adverts p pwospf_hdr)).0;
  prev_router = none;
}

-- The known router after an update that is newer, and whether its interfaces changed.
unfoldable pub update_router : ℕ → Packet → PwospfRouter → PwospfRouter × Bool
update_router now p router =
    let (ifs, changed) = populate_interface_list router.interface_list (adverts p pwospf_hdr) in
    (
      record router { last_update = now; seq = htons (lsu_seq p pwospf_hdr); interface_list = ifs },
      changed,
    )

-- `router->seq != seq && seq > router->seq`
abbrev pub is_newer : Packet → PwospfRouter → Bool
is_newer p router =
    not (router.seq == ntohs (lsu_seq p pwospf_hdr))
    && ltb router.seq (ntohs (lsu_seq p pwospf_hdr))

-- The change of the router list: the list, `update_neighbors` and `rebroadcast_packet`.
unfoldable pub learn : ℕ → Packet → List PwospfRouter → List PwospfRouter × Bool × Bool
learn now p routers = elim (get_router_by_rid (pwospf_rid p pwospf_hdr) routers 0) [
  | none ↦ (routers ++ new_router now p ∷ [], true, true)
  | some k ↦ elim (get_elem? routers k) [
    | none ↦ (routers, false, false)
    | some router ↦
        let (router', changed) = update_router now p router in
        if is_newer p router
        then (set routers k router', changed, true)
        else (routers, false, false)
  ]
]

-- The time to live that is passed on, a uint16_t.
abbrev pub ttl_left : Packet → ℕ
ttl_left p = (ntohs (lsu_ttl p pwospf_hdr) + 65535) % 65536

-- The copy that is passed on.
unfoldable pub forwarded_lsu : Packet → Packet
forwarded_lsu p =
    let copy = slice p pwospf_hdr (ntohs (pwospf_len p pwospf_hdr)) in
    store_pwospf_checksum (set16 copy 26 (htons (ttl_left p))) 0

-- The advertisements that the update counts are in the packet; so is the copy that is passed on, which
-- has room for the time to live.
unfoldable pub holds_adverts : Packet → Bool
holds_adverts p = leb (lsu_data pwospf_hdr + 12 * ntohl (lsu_num p pwospf_hdr)) (length p)

unfoldable pub holds_copy : Packet → Bool
holds_copy p =
    leb 28 (ntohs (pwospf_len p pwospf_hdr))
    && leb (34 + ntohs (pwospf_len p pwospf_hdr)) (length p)

-- none where the code reads past the packet or writes past the copy
unfoldable pub process_pwospf_lsu_packet : ℕ → RouterState → Packet → Option RouterState
process_pwospf_lsu_packet now rs p =
    if rs.router_id == pwospf_rid p pwospf_hdr
    then some rs
    else if ltb (length p) 66
    then none
    else with_lock rs.pwospf_router_list_lock (
        let (routers, update_neighbors, rebroadcast) = learn now p rs.pwospf_router_list in
        let forwards = rebroadcast && ltb 0 (ttl_left p) in
        let rs1 : RouterState = record rs { pwospf_router_list = routers } in
        let rs2 =
          if forwards
          then broadcast_pwospf_lsu_packet rs1 (forwarded_lsu p) (some (ip_src p))
          else rs1 in
        if rebroadcast && not (holds_adverts p) || forwards && not (holds_copy p)
        then none
        else if update_neighbors
        then propagate_pwospf_changes now rs2
        else some rs2)

-- The header, and what its length says, are in the packet.
unfoldable pub holds_header : Packet → Bool
holds_header p =
    leb 35 (length p)
    && (not (pwospf_ver p pwospf_hdr == 2)
        || leb 58 (length p) && leb (34 + ntohs (pwospf_len p pwospf_hdr) / 2 * 2) (length p))

-- none where the packet is read past its end
unfoldable pub process_pwospf_packet : ℕ → RouterState → Packet → List ℕ → Option RouterState
process_pwospf_packet now rs p interface =
    let (p', valid) = is_pwospf_packet_valid rs.area_id rs.router_id p in
    if not (holds_header p)
    then none
    else if not valid
    then some rs
    else if pwospf_type p' pwospf_hdr == type_hello
    then process_pwospf_hello_packet now rs p' interface
    else if pwospf_type p' pwospf_hdr == type_lsu
    then process_pwospf_lsu_packet now rs p'
    else some rs

-- `diff`, as the unsigned number that it is compared as
abbrev pub elapsed : ℕ → ℕ → ℕ
elapsed now last = (now + 2 ^ 32 - last) % 2 ^ 32

-- A pass of `pwospf_lsu_thread`: an update if the last is older than the interval.
unfoldable pub lsu_pass : ℕ → RouterState → Option RouterState
lsu_pass now rs =
    with_lock rs.pwospf_router_list_lock
      (elim (get_router_by_rid rs.router_id rs.pwospf_router_list 0) [
        | none ↦ some rs
        | some k ↦ elim (get_elem? rs.pwospf_router_list k) [
          | none ↦ some rs
          | some our_router ↦
              if ltb rs.pwospf_lsu_interval (elapsed now our_router.last_update)
              then start_lsu_bcast_flood now rs
              else some rs
        ]
      ])

-- A pass of `pwospf_lsu_timeout_thread`: the routers that stay, and whether one timed out.
abbrev pub is_stale : ℕ → ℕ → ℕ → PwospfRouter → Bool
is_stale now lsu_interval router_id r =
    not (r.router_id == router_id) && ltb (lsu_interval * 3 % 2 ^ 32) (elapsed now r.last_update)

unfoldable pub timeout_loop : ℕ → ℕ → ℕ → List PwospfRouter → List PwospfRouter × Bool
timeout_loop now lsu_interval router_id [] = ([], false)
timeout_loop now lsu_interval router_id (r ∷ n) =
    let (n', timedout) = timeout_loop now lsu_interval router_id n in
    if is_stale now lsu_interval router_id r then (n', true) else (r ∷ n', timedout)

unfoldable pub lsu_timeout_pass : ℕ → RouterState → Option RouterState
unfolding timeout_loop
lsu_timeout_pass now rs = with_lock rs.pwospf_router_list_lock (
    let (routers, timedout) =
      timeout_loop now rs.pwospf_lsu_interval rs.router_id rs.pwospf_router_list in
    let rs' : RouterState = record rs { pwospf_router_list = routers } in
    if timedout then propagate_pwospf_changes now rs' else some rs')

module _ (output : Packet → List ℕ → Bool) where
  -- A pass of `pwospf_lsu_bcast_thread`: each packet is sent by the routing table, or dropped.
  unfoldable pub send_lsu_queue : ℕ → RouterState → List LsuQueueEntry → Option RouterState
  send_lsu_queue now rs [] = some rs
  send_lsu_queue now rs (lqe ∷ n) = elim (get_next_hop 32 rs.rtable (get32 lqe.packet 30)) [
    | none ↦ send_lsu_queue now rs n
    | some (next_hop, iface) ↦ elim (send_ip output now rs lqe.packet lqe.len next_hop iface) [
      | none ↦ none
      | some (rs', _) ↦ send_lsu_queue now rs' n
    ]
  ]

  unfoldable pub lsu_bcast_pass : ℕ → RouterState → Option RouterState
  unfolding send_lsu_queue
  lsu_bcast_pass now rs =
      send_lsu_queue now (record rs { pwospf_lsu_queue = [] }) rs.pwospf_lsu_queue
