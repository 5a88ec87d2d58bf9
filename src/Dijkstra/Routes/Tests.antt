-- ===== src/Dijkstra/Routes/Tests.antt =====
-- Our router 1, its neighbour 2, and 3 behind it.
use osnt_plus.Prelude.{ℕ, ◌+◌, ◌*◌, ◌≡◌, refl, true, Option, none, some, List, [], ◌∷◌, All, map}
use osnt_plus.State.{PwospfInterface, PwospfRouter, IfaceEntry, RtableEntry}
use osnt_plus.Iface.{get_nbr_by_rid}
use osnt_plus.RTable.Hardware.{eth0}
use osnt_plus.Dijkstra.{get_router_by_rid, shortest_paths, settle, relax, get_shortest, reset}
use osnt_plus.Dijkstra.Routes.{
  RouteWrapper, next_router, build_route_wrapper_list, compute_rtable, get_route_wrapper,
  new_wrapper, shorter, add_route_wrapper, get_iface_by_rid, get_iface_by_subnet_mask,
}
use osnt_plus.Dijkstra.Routes.Reached.{Ends, reached, build_route_wrapper_list_lem}

-- To the neighbour `rid`, on 10.0.`net`.0/24
abbrev link : ℕ → ℕ → PwospfInterface
link net rid = record {
  subnet = 10 + 65536 * net;
  mask = 16777215;
  router_id = rid;
  is_active = true;
}

abbrev node : ℕ → ℕ → Option ℕ → List PwospfInterface → PwospfRouter
node rid distance prev links = record {
  router_id = rid;
  area_id = 0;
  seq = 0;
  last_update = 0;
  distance = distance;
  shortest_path_found = true;
  interface_list = links;
  prev_router = prev;
}

abbrev settled : List PwospfRouter
settled =
    node 3 2 (some 2) (link 2 2 ∷ link 3 0 ∷ [])
    ∷ node 2 1 (some 1) (link 1 1 ∷ link 2 3 ∷ [])
    ∷ node 1 0 none (link 1 2 ∷ [])
    ∷ []

far : next_router 4 settled (node 3 2 (some 2) (link 2 2 ∷ link 3 0 ∷ [])) (link 2 2) ≡ some 2
unfolding next_router get_router_by_rid
far = refl

far' : next_router 4 settled (node 3 2 (some 2) (link 2 2 ∷ link 3 0 ∷ [])) (link 3 0) ≡ some 2
unfolding next_router get_router_by_rid
far' = refl

near : next_router 4 settled (node 2 1 (some 1) (link 1 1 ∷ link 2 3 ∷ [])) (link 1 1) ≡ some 2
unfolding next_router get_router_by_rid
near = refl

near' : next_router 4 settled (node 2 1 (some 1) (link 1 1 ∷ link 2 3 ∷ [])) (link 2 3) ≡ some 2
unfolding next_router get_router_by_rid
near' = refl

ours : next_router 4 settled (node 1 0 none (link 1 2 ∷ [])) (link 1 2) ≡ some 2
unfolding next_router get_router_by_rid
ours = refl

settled-Ends : All (Ends 4 settled) settled
settled-Ends = (((2, far), ((2, far'), tt)), (((2, near), ((2, near'), tt)), (((2, ours), tt), tt)))

wrappers_example :
    (ws : List RouteWrapper) × (build_route_wrapper_list 4 1 settled settled [] ≡ some ws)
    × All (λ r. All (λ i. reached ws i r.distance ≡ true) r.interface_list) settled
wrappers_example = build_route_wrapper_list_lem 4 1 settled settled-Ends

abbrev port : IfaceEntry
port = record {
  name = eth0;
  addr = [];
  ip = 10 + 65536 + 16777216;
  mask = 16777215;
  speed = 0;
  is_active = true;
  last_sent_hello = 0;
  nbr_routers = record { router_id = 2; ip = 33619978; last_rcvd_hello = 0 } ∷ [];
  is_wan = 0;
}

abbrev gateways : Option (List PwospfRouter × List RtableEntry) → List (ℕ × ℕ)
gateways none = []
gateways (some (_, entries)) = map (λ (e : RtableEntry). (e.ip, e.gw)) entries

-- 10.0.2.0 and 10.0.3.0 by the neighbour, 10.0.1.0 on the port
gateways_run :
    gateways (compute_rtable 1 settled (port ∷ []))
    ≡ (131082, 33619978) ∷ (196618, 33619978) ∷ (65546, 0) ∷ []
unfolding compute_rtable shortest_paths settle relax get_shortest reset get_router_by_rid
    build_route_wrapper_list add_route_wrapper get_route_wrapper next_router new_wrapper shorter
    get_iface_by_rid get_iface_by_subnet_mask get_nbr_by_rid
gateways_run = refl
