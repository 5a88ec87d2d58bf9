-- ===== src/Pwospf/Hello.antt =====
-- The hello packets: `process_pwospf_hello_packet`, `broadcast_pwospf_hello_packet` and
-- `determine_timedout_interface`. `now` is what `time` returns, `output` whether the driver takes a
-- frame; `none` is a failed assertion or a null pointer that is followed.
use osnt_plus.Prelude.{
  ℕ, ◌-◌, ◌*◌, Bool, true, false, not, ◌&&◌, ◌||◌, Option, none, some, List, [], ◌∷◌, ◌++◌, ltb,
  ◌==◌, if◌then◌else◌, get_elem?, set, length, tally, bit_and,
}
use osnt_plus.Net.{ntohs, htonl, strncmp_eq}
use osnt_plus.State.{
  PwospfInterface, PwospfRouter, IfaceEntry, NbrRouter, RouterState, with_lock, lock_held,
}
use osnt_plus.Packet.{Packet, get32}
use osnt_plus.Checksum.{store_ip_checksum}
use osnt_plus.Headers.{zeros, populate_ip, populate_eth_hdr}
use osnt_plus.Iface.{get_iface, sr_namelen}
use osnt_plus.Dijkstra.{get_router_by_rid}
use osnt_plus.Arp.{send_packet}
use osnt_plus.Pwospf.{
  pwospf_hdr, pwospf_rid, hello_mask, hello_hint, type_hello, populate_pwospf,
  populate_pwospf_hello, store_pwospf_checksum,
}
use osnt_plus.Pwospf.Flood.{propagate_pwospf_changes}

-- The source address of a frame's IP header.
abbrev pub ip_src : Packet → ℕ
ip_src p = get32 p 26

-- The search for the neighbour, whose time is set: the last one that matches. Whether there is one.
abbrev pub is_neighbor : ℕ → ℕ → NbrRouter → Bool
is_neighbor ip rid nbr = nbr.ip == ip && nbr.router_id == rid

unfoldable pub touch_nbr : ℕ → ℕ → ℕ → List NbrRouter → List NbrRouter × Bool
touch_nbr now ip rid [] = ([], false)
touch_nbr now ip rid (nbr ∷ n) =
    let (n', found) = touch_nbr now ip rid n in
    let here = is_neighbor ip rid nbr && not found in
    ((if here then record nbr { last_rcvd_hello = now } else nbr) ∷ n', here || found)

-- The interface that `get_iface` finds is changed in place.
unfoldable pub set_nbrs : List IfaceEntry → List ℕ → List NbrRouter → List IfaceEntry
set_nbrs [] interface nbrs = []
set_nbrs (e ∷ n) interface nbrs =
    let rest = set_nbrs n interface nbrs in
    if strncmp_eq interface e.name sr_namelen then record e { nbr_routers = nbrs } ∷ n else e ∷ rest

abbrev pub on_subnet : IfaceEntry → PwospfInterface → Bool
on_subnet iface pi = pi.subnet == bit_and iface.ip iface.mask && pi.mask == iface.mask

-- The first entry of the subnet with a blank router id gets the neighbour's; or an entry is added.
unfoldable pub add_link : IfaceEntry → ℕ → List PwospfInterface → List PwospfInterface
add_link iface rid [] =
    record {
      subnet = bit_and iface.ip iface.mask;
      mask = iface.mask;
      router_id = rid;
      is_active = false;
    }
    ∷ []
add_link iface rid (pi ∷ n) =
    let rest = add_link iface rid n in
    if on_subnet iface pi && pi.router_id == 0 then record pi { router_id = rid } ∷ n else pi ∷ rest

abbrev pub new_nbr : ℕ → ℕ → ℕ → NbrRouter
new_nbr now ip rid = record { router_id = rid; ip = ip; last_rcvd_hello = now }

-- The branch of a new neighbour. An interface is added only behind another.
unfoldable pub add_neighbor : ℕ → RouterState → Packet → IfaceEntry → List ℕ → Option RouterState
add_neighbor now rs p iface interface =
    elim (get_router_by_rid rs.router_id rs.pwospf_router_list 0) [
      | none ↦ none
      | some k ↦ elim (get_elem? rs.pwospf_router_list k) [
        | none ↦ none
        | some r ↦ elim r.interface_list [
          | [] ↦ none
          | pi ∷ n ↦ propagate_pwospf_changes now (record rs {
            if_list =
                set_nbrs rs.if_list interface
                  (iface.nbr_routers ++ new_nbr now (ip_src p) (pwospf_rid p pwospf_hdr) ∷ []);
            pwospf_router_list = set rs.pwospf_router_list k (record r {
              interface_list = add_link iface (pwospf_rid p pwospf_hdr) r.interface_list;
            });
          })
        ]
      ]
    ]

-- none where the hello header is read past the packet. Where the masks differ, the mutex stays held.
unfoldable pub process_pwospf_hello_packet : ℕ → RouterState → Packet → List ℕ → Option RouterState
process_pwospf_hello_packet now rs p interface =
    if ltb (length p) 66
    then none
    else if not (rs.pwospf_hello_interval == ntohs (hello_hint p pwospf_hdr))
    then some rs
    else with_lock rs.pwospf_router_list_lock (elim (get_iface rs.if_list interface) [
      | none ↦ none
      | some iface ↦
          if not (iface.mask == hello_mask p pwospf_hdr)
          then some (record rs { pwospf_router_list_lock = lock_held })
          else (let (nbrs, found) =
                touch_nbr now (ip_src p) (pwospf_rid p pwospf_hdr) iface.nbr_routers in
              if found
              then some (record rs { if_list = set_nbrs rs.if_list interface nbrs })
              else add_neighbor now rs p iface interface)
    ])

-- `determine_timedout_interface`

-- What is done to our interfaces for a neighbour that timed out: the only entry of the subnet loses
-- its router id; of several, the first with the neighbour's id goes.
unfoldable pub blank_link : IfaceEntry → List PwospfInterface → List PwospfInterface
blank_link iface [] = []
blank_link iface (pi ∷ n) =
    let rest = blank_link iface n in
    if on_subnet iface pi then record pi { router_id = 0 } ∷ n else pi ∷ rest

unfoldable pub remove_link : IfaceEntry → ℕ → List PwospfInterface → List PwospfInterface
remove_link iface rid [] = []
remove_link iface rid (pi ∷ n) =
    let rest = remove_link iface rid n in
    if on_subnet iface pi && rid == pi.router_id then n else pi ∷ rest

unfoldable pub drop_link : IfaceEntry → ℕ → List PwospfInterface → Option (List PwospfInterface)
drop_link iface rid ifs =
    let count = tally (on_subnet iface) ifs in
    if count == 0
    then none
    else some (if count == 1 then blank_link iface ifs else remove_link iface rid ifs)

unfoldable pub drop_our_link : ℕ → IfaceEntry → ℕ → List PwospfRouter → Option (List PwospfRouter)
drop_our_link router_id iface rid routers = elim (get_router_by_rid router_id routers 0) [
  | none ↦ none
  | some k ↦ elim (get_elem? routers k) [
    | none ↦ none
    | some r ↦ elim (drop_link iface rid r.interface_list) [
      | none ↦ none
      | some ifs ↦ some (set routers k (record r { interface_list = ifs }))
    ]
  ]
]

abbrev pub is_silent : ℕ → ℕ → NbrRouter → Bool
is_silent now hello_interval nbr = ltb (3 * hello_interval) (now - nbr.last_rcvd_hello)

-- The neighbours that stay, the routers, and whether one timed out.
unfoldable pub timedout_loop :
    ℕ
    → ℕ
    → ℕ
    → IfaceEntry
    → List NbrRouter
    → List PwospfRouter
    → Option (List NbrRouter × List PwospfRouter × Bool)
timedout_loop now hello_interval router_id iface [] routers = some ([], routers, false)
timedout_loop now hello_interval router_id iface (nbr ∷ n) routers =
    elim (is_silent now hello_interval nbr) [
      | false ↦ elim (timedout_loop now hello_interval router_id iface n routers) [
        | none ↦ none
        | some (n', routers', timedout) ↦ some (nbr ∷ n', routers', timedout)
      ]
      | true ↦ elim (drop_our_link router_id iface nbr.router_id routers) [
        | none ↦ none
        | some routers' ↦ elim (timedout_loop now hello_interval router_id iface n routers') [
          | none ↦ none
          | some (n', routers'', timedout) ↦ some (n', routers'', true)
        ]
      ]
    ]

-- `broadcast_pwospf_hello_packet`

unfoldable pub hello_packet : RouterState → IfaceEntry → Packet
hello_packet rs ie =
    let p = populate_pwospf_hello (zeros 66) pwospf_hdr ie.mask rs.pwospf_hello_interval in
    let p = populate_pwospf p pwospf_hdr type_hello 32 rs.router_id rs.area_id in
    let p = store_pwospf_checksum p pwospf_hdr in
    let p = store_ip_checksum (populate_ip p 32 0x59 ie.ip (htonl 0xe0000005)) in
    let default_addr : List ℕ = 0xFF ∷ 0xFF ∷ 0xFF ∷ 0xFF ∷ 0xFF ∷ 0xFF ∷ [] in
    populate_eth_hdr p (some default_addr) ie.addr 0x0800

module _ (output : Packet → List ℕ → Bool) where
  -- The loop over the interfaces: how they end, the state, and whether a neighbour timed out.
  unfoldable pub hello_loop :
      ℕ → RouterState → List IfaceEntry → Option (List IfaceEntry × RouterState × Bool)
  hello_loop now rs [] = some ([], rs, false)
  hello_loop now rs (ie ∷ n) = elim ie.is_active [
    | false ↦ elim (hello_loop now rs n) [
      | none ↦ none
      | some (n', rs', timedout) ↦ some (ie ∷ n', rs', timedout)
    ]
    | true ↦
        let rs1 = (send_packet output rs (hello_packet rs ie) 66 ie.name).0 in
        elim (with_lock rs1.pwospf_router_list_lock (
          timedout_loop now rs1.pwospf_hello_interval rs1.router_id ie ie.nbr_routers
            rs1.pwospf_router_list)) [
              | none ↦ none
              | some (nbrs, routers, here) ↦
                  elim (hello_loop now (record rs1 { pwospf_router_list = routers }) n) [
                    | none ↦ none
                    | some (n', rs', timedout) ↦ some (
                      record ie { last_sent_hello = now; nbr_routers = nbrs } ∷ n',
                      rs',
                      here || timedout,
                    )
                  ]
            ]
  ]

  unfoldable pub broadcast_pwospf_hello_packet : ℕ → RouterState → Option RouterState
  unfolding hello_loop
  broadcast_pwospf_hello_packet now rs = elim (hello_loop now rs rs.if_list) [
    | none ↦ none
    | some (if_list, rs', timedout) ↦
        let rs'' : RouterState = record rs' { if_list = if_list } in
        if timedout
        then with_lock rs''.pwospf_router_list_lock (propagate_pwospf_changes now rs'')
        else some rs''
  ]
