-- ===== src/Dijkstra.antt =====
-- scone/or_dijkstra.c: the shortest paths over the list of PWOSPF routers. A pointer to a router is
-- its position in the list, but in `prev_router`, which outlives changes of the list, the router's
-- id. Distances are uint32_t.
pub mod Distances
pub mod Relaxation
pub mod Reset
pub mod Routes
pub mod Shortest
pub mod Nearest
pub mod Paths
mod Tests
use osnt_plus.Prelude.{
  ℕ, zero, suc, ◌+◌, ◌%◌, ◌^◌, Bool, true, false, not, ◌&&◌, Option, none, some, List, [], ◌∷◌, ltb,
  ◌==◌, if◌then◌else◌, get_elem?, set, length,
}
use osnt_plus.State.{PwospfInterface, PwospfRouter}

abbrev pub infinity : ℕ
infinity = 0xFFFFFFFF

-- The first loop of `compute_rtable`, for one router. `prev_router` stays as it was.
unfoldable pub reset : ℕ → PwospfRouter → PwospfRouter
reset our_router_id r =
    if r.router_id == our_router_id
    then record r { distance = 0; shortest_path_found = true }
    else if not (r.router_id == 0)
    then record r { distance = infinity; shortest_path_found = false }
    else r

unfoldable pub reset_all : ℕ → List PwospfRouter → List PwospfRouter
unfolding reset
reset_all our_router_id [] = []
reset_all our_router_id (r ∷ n) = reset our_router_id r ∷ reset_all our_router_id n

-- `get_router_by_rid`, from position `k` on
unfoldable pub get_router_by_rid : ℕ → List PwospfRouter → ℕ → Option ℕ
get_router_by_rid rid [] k = none
get_router_by_rid rid (r ∷ n) k =
    if r.router_id == rid then some k else get_router_by_rid rid n (k + 1)

-- The loop of `get_shortest` from position `k` on, with its two locals.
unfoldable pub shortest_loop : List PwospfRouter → ℕ → Option ℕ → ℕ → Option ℕ
shortest_loop [] k shortest_router shortest_distance = shortest_router
shortest_loop (r ∷ n) k shortest_router shortest_distance =
    let better = not r.shortest_path_found && ltb r.distance shortest_distance in
    shortest_loop n (k + 1) (if better then some k else shortest_router)
      (if better then r.distance else shortest_distance)

unfoldable pub get_shortest : List PwospfRouter → Option ℕ
unfolding shortest_loop
get_shortest routers = shortest_loop routers 0 none infinity

-- The test of `update_neighbor_distance` on the neighbour `v`, for a router at `distance`.
abbrev pub is_closer : ℕ → PwospfRouter → Bool
is_closer distance v = not v.shortest_path_found && ltb ((distance + 1) % 2 ^ 32) v.distance

-- One round of `update_neighbor_distance`, for the router with id `w`.
unfoldable pub relax : ℕ → ℕ → PwospfInterface → List PwospfRouter → List PwospfRouter
relax w distance i routers =
    if not (i.router_id == 0) && i.is_active
    then elim (get_router_by_rid i.router_id routers 0) [
      | none ↦ routers
      | some k ↦ elim (get_elem? routers k) [
        | none ↦ routers
        | some v ↦
            if is_closer distance v
            then set routers k
                (record v { distance = (distance + 1) % 2 ^ 32; prev_router = some w })
            else routers
      ]
    ]
    else routers

unfoldable pub relax_all : ℕ → ℕ → List PwospfInterface → List PwospfRouter → List PwospfRouter
relax_all w distance [] routers = routers
relax_all w distance (i ∷ n) routers = relax_all w distance n (relax w distance i routers)

-- The body of the main loop for the router at position `w`: it joins N', and its neighbours are
-- updated. Out of the list, nothing happens.
unfoldable pub settle : ℕ → List PwospfRouter → List PwospfRouter
unfolding relax_all
settle w routers = elim (get_elem? routers w) [
  | none ↦ routers
  | some r ↦
      relax_all r.router_id r.distance r.interface_list
        (set routers w (record r { shortest_path_found = true }))
]

-- `while (r_shortest)`, on fuel; `none` means that the fuel ran out.
unfoldable pub search_loop : ℕ → Option ℕ → List PwospfRouter → Option (List PwospfRouter)
search_loop fuel none routers = some routers
search_loop zero (some w) routers = none
search_loop (suc fuel) (some w) routers =
    search_loop fuel (get_shortest (settle w routers)) (settle w routers)

-- The first part of `compute_rtable`, up to the end of the loop.
unfoldable pub shortest_paths : ℕ → ℕ → List PwospfRouter → Option (List PwospfRouter)
unfolding reset_all search_loop
shortest_paths fuel our_router_id routers =
    search_loop fuel (get_router_by_rid our_router_id (reset_all our_router_id routers) 0)
      (reset_all our_router_id routers)
