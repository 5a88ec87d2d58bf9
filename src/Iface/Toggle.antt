-- ===== src/Iface/Toggle.antt =====
-- `iface_up` and `iface_down` of scone/or_iface.c, with `is_route_present` of scone/or_pwospf.c. The
-- loop that clears the neighbours of an interface never ends well where there are any (see
-- Nodes/Clear): that, a failed assertion or a null pointer that is followed is `none`. The second
-- part of a result is the code's return value; `now` is what `time` returns.
pub mod Cycle
pub mod Laws
mod Tests
use osnt_plus.Prelude.{
  ℕ, Bool, true, false, ◌&&◌, ◌||◌, not, Option, none, some, List, [], ◌∷◌, ◌++◌, ◌==◌,
  if◌then◌else◌, bit_and, get_elem?, set,
}
use osnt_plus.Net.{strncmp_eq}
use osnt_plus.State.{IfaceEntry, NbrRouter, PwospfInterface, PwospfRouter, RouterState}
use osnt_plus.Iface.{sr_namelen, get_iface}
use osnt_plus.RTable.Ops.{activate_routes, deactivate_routes}
use osnt_plus.Dijkstra.{get_router_by_rid}
use osnt_plus.Pwospf.Flood.{propagate_pwospf_changes}

-- `is_active` of the interface that `get_iface` finds is set.
unfoldable pub set_iface_active : List IfaceEntry → List ℕ → Bool → List IfaceEntry
set_iface_active [] interface b = []
set_iface_active (e ∷ n) interface b =
    let rest = set_iface_active n interface b in
    if strncmp_eq interface e.name sr_namelen then record e { is_active = b } ∷ n else e ∷ rest

-- "clear our hello related information": what is left of the neighbours
unfoldable pub clear_nbrs : List NbrRouter → Option (List NbrRouter)
clear_nbrs [] = some []
clear_nbrs (nbr ∷ n) = none

unfoldable pub is_route_present : List PwospfInterface → PwospfInterface → Bool
is_route_present [] iface = false
is_route_present (pi ∷ n) iface =
    (pi.subnet == iface.subnet && pi.mask == iface.mask && pi.router_id == iface.router_id)
    || is_route_present n iface

-- What an interface advertises while it has no neighbour.
abbrev pub own_adv : IfaceEntry → PwospfInterface
own_adv iface = record {
  subnet = bit_and iface.ip iface.mask;
  mask = iface.mask;
  router_id = 0;
  is_active = false;
}

-- "add the above interface adv if not already present"
unfoldable pub with_adv : PwospfInterface → List PwospfInterface → List PwospfInterface
unfolding is_route_present
with_adv pi l = if is_route_present l pi then l else l ++ pi ∷ []

-- "remove interface entries from our router entry": what stays, and `iface_removed`
unfoldable pub drop_subnet : ℕ → List PwospfInterface → List PwospfInterface × Bool
drop_subnet subnet [] = ([], false)
drop_subnet subnet (pi ∷ n) =
    let (rest, removed) = drop_subnet subnet n in
    if pi.subnet == subnet then (rest, true) else (pi ∷ rest, removed)

-- The interfaces of our router at position `k` are replaced.
unfoldable pub set_ours : RouterState → ℕ → PwospfRouter → List PwospfInterface → RouterState
set_ours rs k our_router ifs = record rs {
  pwospf_router_list = set rs.pwospf_router_list k (record our_router { interface_list = ifs });
}

-- The end of `iface_up`, from the search for our router on.
unfoldable pub advertise_up : ℕ → IfaceEntry → RouterState → Option (RouterState × ℕ)
unfolding with_adv set_ours
advertise_up now iface rs = elim (get_router_by_rid rs.router_id rs.pwospf_router_list 0) [
  | none ↦ none
  | some k ↦ elim (get_elem? rs.pwospf_router_list k) [
    | none ↦ none
    | some our_router ↦
        elim (propagate_pwospf_changes now
          (set_ours rs k our_router (with_adv (own_adv iface) our_router.interface_list))) [
            | none ↦ none
            | some rs' ↦ some (rs', 0)
          ]
  ]
]

-- The end of `iface_down`, from the search for our router on.
unfoldable pub withdraw_down : ℕ → IfaceEntry → RouterState → Option (RouterState × ℕ)
unfolding drop_subnet set_ours
withdraw_down now iface rs = elim (get_router_by_rid rs.router_id rs.pwospf_router_list 0) [
  | none ↦ none
  | some k ↦ elim (get_elem? rs.pwospf_router_list k) [
    | none ↦ none
    | some our_router ↦
        let (ifs, removed) = drop_subnet (bit_and iface.ip iface.mask) our_router.interface_list in
        elim removed [
          | false ↦ some (rs, 0)
          | true ↦ elim (propagate_pwospf_changes now (set_ours rs k our_router ifs)) [
            | none ↦ none
            | some rs' ↦ some (rs', 0)
          ]
        ]
  ]
]

module _ (width address : ℕ) where
  unfoldable pub iface_up : ℕ → RouterState → List ℕ → Option (RouterState × ℕ)
  unfolding set_iface_active clear_nbrs advertise_up
  iface_up now rs interface = elim (get_iface rs.if_list interface) [
    | none ↦ some (rs, 1)
    | some iface ↦ elim iface.is_active [
      | true ↦ some (rs, 0)
      | false ↦
          elim (activate_routes width address
            (record rs { if_list = set_iface_active rs.if_list interface true }) interface) [
              | none ↦ none
              | some rs' ↦ elim (clear_nbrs iface.nbr_routers) [
                | none ↦ none
                | some _ ↦ advertise_up now iface rs'
              ]
            ]
    ]
  ]

  unfoldable pub iface_down : ℕ → RouterState → List ℕ → Option (RouterState × ℕ)
  unfolding set_iface_active clear_nbrs withdraw_down
  iface_down now rs interface = elim (get_iface rs.if_list interface) [
    | none ↦ some (rs, 1)
    | some iface ↦ elim iface.is_active [
      | false ↦ some (rs, 0)
      | true ↦
          elim (deactivate_routes width address
            (record rs { if_list = set_iface_active rs.if_list interface false }) interface) [
              | none ↦ none
              | some rs' ↦ elim (clear_nbrs iface.nbr_routers) [
                | none ↦ none
                | some _ ↦ withdraw_down now iface rs'
              ]
            ]
    ]
  ]
