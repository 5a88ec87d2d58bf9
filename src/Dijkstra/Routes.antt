-- ===== src/Dijkstra/Routes.antt =====
-- The routes that `compute_rtable` builds from the distances, and the pass of `dijkstra_thread` that
-- puts them into the routing table. `none` is a failed assertion, a null pointer that is followed (or
-- one to a router that is gone), or a walk that does not end within its fuel.
pub mod Reached
mod Tests
use osnt_plus.Prelude.{
  ℕ, zero, suc, ◌+◌, ◌%◌, Bool, true, false, not, ◌&&◌, ◌||◌, Option, none, some, List, [], ◌∷◌,
  ◌++◌, leb, ◌==◌, if◌then◌else◌, get_elem?, set, length, keep, bit_and,
}
use osnt_plus.State.{
  with_lock, RtableEntry, NbrRouter, IfaceEntry, PwospfInterface, PwospfRouter, RouterState,
}
use osnt_plus.Iface.{get_nbr_by_rid}
use osnt_plus.RTable.Ops.{trigger_rtable_modified}
use osnt_plus.Dijkstra.{get_router_by_rid, shortest_paths}

-- `struct route_wrapper`; the distance is a uint16_t.
pub record RouteWrapper : Type 0 where
  pub entry : RtableEntry
  pub distance : ℕ
  pub next_rid : ℕ
  pub directly_connected : Bool

-- `get_route_wrapper`, from position `k` on
unfoldable pub get_route_wrapper : List RouteWrapper → ℕ → ℕ → ℕ → Option ℕ
get_route_wrapper [] subnet mask k = none
get_route_wrapper (w ∷ n) subnet mask k =
    if w.entry.ip == bit_and subnet mask && w.entry.mask == mask
    then some k
    else get_route_wrapper n subnet mask (k + 1)

-- "walk down until the next router is the source", from `cur_router`
unfoldable pub walk : ℕ → List PwospfRouter → PwospfRouter → Option ℕ
walk zero routers cur_router = none
walk (suc fuel) routers cur_router = elim cur_router.prev_router [
  | none ↦ none
  | some rid ↦ elim (get_router_by_rid rid routers 0) [
    | none ↦ none
    | some k ↦ elim (get_elem? routers k) [
      | none ↦ none
      | some prev ↦
          let rest = walk fuel routers prev in
          if prev.distance == 0 then some cur_router.router_id else rest
    ]
  ]
]

-- The router next to ours on the way to interface `i` of `r`
unfoldable pub next_router : ℕ → List PwospfRouter → PwospfRouter → PwospfInterface → Option ℕ
unfolding walk
next_router fuel routers r i = elim r.prev_router [
  | none ↦ some i.router_id
  | some _ ↦ walk fuel routers r
]

unfoldable pub new_wrapper : ℕ → PwospfRouter → PwospfInterface → ℕ → RouteWrapper
new_wrapper our_rid r i rid = record {
  entry = record {
    ip = bit_and i.subnet i.mask;
    gw = 0;
    mask = i.mask;
    iface = [];
    is_static = false;
    is_active = false;
  };
  distance = r.distance % 65536;
  next_rid = rid;
  directly_connected = our_rid == r.router_id;
}

-- A shorter way; the mark of a direct connection is never taken away.
unfoldable pub shorter : ℕ → PwospfRouter → ℕ → RouteWrapper → RouteWrapper
shorter our_rid r rid w = record w {
  distance = r.distance % 65536;
  next_rid = rid;
  directly_connected = our_rid == r.router_id || w.directly_connected;
}

-- The body of the loop of `add_route_wrappers`, and the loop.
unfoldable pub add_route_wrapper :
    ℕ
    → ℕ
    → List PwospfRouter
    → PwospfRouter
    → PwospfInterface
    → List RouteWrapper
    → Option (List RouteWrapper)
add_route_wrapper fuel our_rid routers r i head = elim (get_route_wrapper head i.subnet i.mask 0) [
  | none ↦ elim (next_router fuel routers r i) [
    | none ↦ none
    | some rid ↦ some (head ++ new_wrapper our_rid r i rid ∷ [])
  ]
  | some k ↦ elim (get_elem? head k) [
    | none ↦ none
    | some w ↦ elim (leb w.distance r.distance) [
      | true ↦ some head
      | false ↦ elim (next_router fuel routers r i) [
        | none ↦ none
        | some rid ↦ some (set head k (shorter our_rid r rid w))
      ]
    ]
  ]
]

unfoldable pub add_route_wrappers :
    ℕ
    → ℕ
    → List PwospfRouter
    → PwospfRouter
    → List PwospfInterface
    → List RouteWrapper
    → Option (List RouteWrapper)
add_route_wrappers fuel our_rid routers r [] head = some head
add_route_wrappers fuel our_rid routers r (i ∷ n) head =
    elim (add_route_wrapper fuel our_rid routers r i head) [
      | none ↦ none
      | some head' ↦ add_route_wrappers fuel our_rid routers r n head'
    ]

-- `build_route_wrapper_list`, for the routers that are left
unfoldable pub build_route_wrapper_list :
    ℕ → ℕ → List PwospfRouter → List PwospfRouter → List RouteWrapper → Option (List RouteWrapper)
unfolding add_route_wrappers
build_route_wrapper_list fuel our_rid routers [] head = some head
build_route_wrapper_list fuel our_rid routers (r ∷ n) head =
    elim (add_route_wrappers fuel our_rid routers r r.interface_list head) [
      | none ↦ none
      | some head' ↦ build_route_wrapper_list fuel our_rid routers n head'
    ]

-- Whether the inner loop of `get_iface_by_rid` finds the neighbour
unfoldable pub has_nbr : ℕ → List NbrRouter → Bool
has_nbr rid [] = false
has_nbr rid (nbr ∷ n) = nbr.router_id == rid || has_nbr rid n

unfoldable pub iface_loop : ℕ → List IfaceEntry → Option IfaceEntry
unfolding has_nbr
iface_loop rid [] = none
iface_loop rid (i ∷ n) = if has_nbr rid i.nbr_routers then some i else iface_loop rid n

unfoldable pub get_iface_by_rid : ℕ → List IfaceEntry → Option IfaceEntry
unfolding iface_loop
get_iface_by_rid rid if_list = if rid == 0 then none else iface_loop rid if_list

unfoldable pub get_iface_by_subnet_mask : ℕ → ℕ → List IfaceEntry → Option IfaceEntry
get_iface_by_subnet_mask subnet mask [] = none
get_iface_by_subnet_mask subnet mask (i ∷ n) =
    if bit_and i.ip i.mask == subnet && i.mask == mask
    then some i
    else get_iface_by_subnet_mask subnet mask n

unfoldable pub iface_of : RouteWrapper → List IfaceEntry → Option IfaceEntry
iface_of w if_list = elim (get_iface_by_rid w.next_rid if_list) [
  | some iface ↦ some iface
  | none ↦ get_iface_by_subnet_mask w.entry.ip w.entry.mask if_list
]

unfoldable pub entry_of : RouteWrapper → IfaceEntry → Option RtableEntry
entry_of w iface =
    let entry : RtableEntry = record w.entry {
      iface = iface.name;
      is_active = true;
      is_static = false;
    } in
    elim w.directly_connected [
      | true ↦ some (record entry { gw = 0 })
      | false ↦ elim (get_nbr_by_rid iface.nbr_routers w.next_rid) [
        | none ↦ none
        | some nbr ↦ some (record entry { gw = nbr.ip })
      ]
    ]

-- The loop that takes the entries out of their wrapping. One without an interface is left out.
unfoldable pub unwrap : List RouteWrapper → List IfaceEntry → Option (List RtableEntry)
unfolding iface_of entry_of
unwrap [] if_list = some []
unwrap (w ∷ n) if_list = elim (iface_of w if_list) [
  | none ↦ unwrap n if_list
  | some iface ↦ elim (entry_of w iface) [
    | none ↦ none
    | some entry ↦ elim (unwrap n if_list) [ none ↦ none | some rest ↦ some (entry ∷ rest) ]
  ]
]

-- The routers as the search leaves them, and the routes. Each walk gets one round for each router.
unfoldable pub compute_rtable :
    ℕ → List PwospfRouter → List IfaceEntry → Option (List PwospfRouter × List RtableEntry)
unfolding build_route_wrapper_list unwrap
compute_rtable our_router_id routers if_list =
    elim (shortest_paths (length routers + 1) our_router_id routers) [
      | none ↦ none
      | some found ↦
          elim (build_route_wrapper_list (length found + 1) our_router_id found found []) [
            | none ↦ none
            | some wrappers ↦ elim (unwrap wrappers if_list) [
              | none ↦ none
              | some entries ↦ some (found, entries)
            ]
          ]
    ]

module _ (width address : ℕ) where
  -- A pass of `dijkstra_thread` that does not go back to sleep.
  unfoldable pub dijkstra_pass : RouterState → Option RouterState
  dijkstra_pass rs =
      with_lock rs.pwospf_router_list_lock
        (elim (compute_rtable rs.router_id rs.pwospf_router_list rs.if_list) [
          | none ↦ none
          | some (routers, entries) ↦ trigger_rtable_modified width address (record rs {
            pwospf_router_list = routers;
            dijkstra_dirty = false;
            rtable = keep (λ e. e.is_static) rs.rtable ++ entries;
          })
        ])
