-- ===== src/Dijkstra/Tests.antt =====
-- Three routers in a triangle with a tail: 1 to 2 and 3, 3 to 4.
use osnt_plus.Prelude.{
  ℕ, zero, suc, ap, ◌∙◌, get_elem?, some_eq, some≢none, ◌≤◌, ◌≡◌, refl, ◌⊎◌, true, false, Option,
  none, some, List, [], ◌∷◌, arith, map,
}
use osnt_plus.State.{PwospfInterface, PwospfRouter}
use osnt_plus.Dijkstra.{
  infinity, reset, reset_all, get_router_by_rid, get_shortest, relax, settle, shortest_paths,
}
use osnt_plus.Dijkstra.Relaxation.{Walk}
use osnt_plus.Dijkstra.Shortest.{OneOurs, AllNamed, shortest_paths_lem}

abbrev link : ℕ → PwospfInterface
link rid = record { subnet = 10; mask = 255; router_id = rid; is_active = true }

abbrev node : ℕ → List PwospfInterface → PwospfRouter
node rid links = record {
  router_id = rid;
  area_id = 0;
  seq = 0;
  last_update = 0;
  distance = infinity;
  shortest_path_found = false;
  interface_list = links;
  prev_router = none;
}

abbrev network : List PwospfRouter
network =
    node 4 (link 3 ∷ [])
    ∷ node 3 (link 1 ∷ link 2 ∷ link 4 ∷ [])
    ∷ node 2 (link 1 ∷ link 3 ∷ [])
    ∷ node 1 (link 2 ∷ link 3 ∷ [])
    ∷ node 5 []
    ∷ []

abbrev distances : Option (List PwospfRouter) → List ℕ
distances none = []
distances (some routers) = map (λ (r : PwospfRouter). r.distance) routers

distances_of_network : distances (shortest_paths 6 1 network) ≡ 2 ∷ 1 ∷ 1 ∷ 0 ∷ infinity ∷ []
unfolding shortest_paths settle relax get_shortest reset get_router_by_rid
distances_of_network = refl

our_place : get_router_by_rid 1 (reset_all 1 network) 0 ≡ some 3
unfolding get_router_by_rid reset_all reset
our_place = refl

same_id : (x r : PwospfRouter) (id : ℕ) → some x ≡ some r → r.router_id ≡ id → x.router_id ≡ id
same_id x r id h e = ap (λ (y : PwospfRouter). y.router_id) (some_eq h) ∙ e

one_of_us : OneOurs 1 3 network
one_of_us zero r h e = absurd (omega (arith, same_id (node 4 (link 3 ∷ [])) r 1 h e))
one_of_us (suc zero) r h e =
    absurd (omega (arith, same_id (node 3 (link 1 ∷ link 2 ∷ link 4 ∷ [])) r 1 h e))
one_of_us (suc (suc zero)) r h e =
    absurd (omega (arith, same_id (node 2 (link 1 ∷ link 3 ∷ [])) r 1 h e))
one_of_us (suc (suc (suc zero))) r h e = refl
one_of_us (suc (suc (suc (suc zero)))) r h e = absurd (omega (arith, same_id (node 5 []) r 1 h e))
one_of_us (suc (suc (suc (suc (suc j))))) r h e = absurd (some≢none h)

all_named : AllNamed network
all_named zero r h e = omega (arith, same_id (node 4 (link 3 ∷ [])) r 0 h e)
all_named (suc zero) r h e = omega (arith, same_id (node 3 (link 1 ∷ link 2 ∷ link 4 ∷ [])) r 0 h e)
all_named (suc (suc zero)) r h e = omega (arith, same_id (node 2 (link 1 ∷ link 3 ∷ [])) r 0 h e)
all_named (suc (suc (suc zero))) r h e =
    omega (arith, same_id (node 1 (link 2 ∷ link 3 ∷ [])) r 0 h e)
all_named (suc (suc (suc (suc zero)))) r h e = omega (arith, same_id (node 5 []) r 0 h e)
all_named (suc (suc (suc (suc (suc j))))) r h e = some≢none h

we_stand : get_router_by_rid 1 network 0 ≡ some 3
unfolding get_router_by_rid
we_stand = refl

shortest_paths_example :
    (out : List PwospfRouter) × (shortest_paths 6 1 network ≡ some out)
    × ((k : ℕ) (r : PwospfRouter)
        → get_elem? out k ≡ some r
        → ((r.distance ≡ infinity) ⊎ Walk network 3 k r.distance)
          × ((n : ℕ) → Walk network 3 k n → r.distance ≤ n))
shortest_paths_example = shortest_paths_lem 1 3 network we_stand one_of_us all_named 6 (omega arith)
