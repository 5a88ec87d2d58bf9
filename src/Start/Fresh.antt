-- ===== src/Start/Fresh.antt =====
-- The state that the start has before it lists the routers.
use osnt_plus.Prelude.{
  ℕ, zero, suc, ◌+◌, ◌≡◌, refl, ◌∙◌, ◌⊎◌, inl, inr, Bool, true, false, ◌||◌, some, List, [], ◌∷◌,
  All, Bool-cases, if◌then◌else◌,
}
use osnt_plus.Prelude.Int.{ℤ}
use osnt_plus.State.{RouterState, RegWrite, lock_absent}
use osnt_plus.RTable.Hardware.{hw_loop, write_rtable_to_hw, write_row, zero_row}
use osnt_plus.Arp.{write_arp_cache_to_hw}
use osnt_plus.Filters.{add_local_ip_filter, trigger_local_ip_filters_change, is_filtered, is_named}
use osnt_plus.Pwospf.WellFormed.{WellFormed}
use osnt_plus.Start.{
  Tables, init, init_hardware, zeroed, VnsIf, strstr, cpu, port_number, write_mac, new_iface,
  with_iface, set_mac, init_add_interface, add_interfaces,
}

-- An interface that the start takes: it is one of the CPU's, or it has a port.
abbrev pub IsUsable : VnsIf → Type 0
IsUsable v = (strstr v.name cpu ≡ true) ⊎ ((port : ℕ) × (port_number v.name ≡ some port))

-- The state before the routers are listed, the routes read and the mutex allocated.
pub record Fresh (rs : RouterState) : Type 0 where
  pub no_routers : rs.pwospf_router_list ≡ []
  pub no_routes : rs.rtable ≡ []
  pub no_lock : rs.pwospf_router_list_lock ≡ lock_absent

-- What a filter leaves alone.
pub record Aside (rs rs' : RouterState) : Type 0 where
  pub id_eq : rs'.router_id ≡ rs.router_id
  pub rtable_eq : rs'.rtable ≡ rs.rtable
  pub lock_eq : rs'.pwospf_router_list_lock ≡ rs.pwospf_router_list_lock
  pub routers_eq : rs'.pwospf_router_list ≡ rs.pwospf_router_list
  pub ifs_eq : rs'.if_list ≡ rs.if_list

pub Aside-WellFormed : (rs rs' : RouterState) → Aside rs rs' → WellFormed rs → WellFormed rs'
Aside-WellFormed rs rs' a wf = record {
  ours = rw (a.id_eq, a.routers_eq) wf.ours;
  once = rw a.routers_eq wf.once;
  linked = rw (a.id_eq, a.routers_eq, a.ifs_eq) wf.linked;
}

pub Aside-Fresh : (rs rs' : RouterState) → Aside rs rs' → Fresh rs → Fresh rs'
Aside-Fresh rs rs' a fresh = record {
  no_routers = a.routers_eq ∙ fresh.no_routers;
  no_routes = a.rtable_eq ∙ fresh.no_routes;
  no_lock = a.lock_eq ∙ fresh.no_lock;
}

hw_loop_empty :
    (address rounds i : ℕ) (log : List RegWrite)
    → (log' : List RegWrite) × (hw_loop address rounds i [] log ≡ some log')
unfolding hw_loop
hw_loop_empty address zero i log = (log, refl)
hw_loop_empty address (suc rounds) i log =
    hw_loop_empty address rounds (i + 1) (write_row address i zero_row log)

write_rtable_to_hw_empty :
    (width address : ℕ) (log : List RegWrite)
    → (log' : List RegWrite) × (write_rtable_to_hw width address [] log ≡ some log')
unfolding write_rtable_to_hw
write_rtable_to_hw_empty width address log = hw_loop_empty address width 0 log

pub init_total :
    (t : Tables) (rands : List ℕ) → (rs : RouterState) × (init t rands ≡ some rs) × Fresh rs
unfolding init
init_total t rands =
    let log = write_arp_cache_to_hw t.arp_width t.arp_address [] [] in
    let (log', e) = write_rtable_to_hw_empty t.rtable_width t.rtable_address log in
    (
      record (zeroed rands) {
        area_id = 0;
        arp_ttl = 300;
        nat_timeout = 120;
        is_netfpga = true;
        writes = log';
      },
      rw (init, init_hardware, e) refl,
      record { no_routers = refl; no_routes = refl; no_lock = refl },
    )

set_mac_total :
    (b : Bool) (rs : RouterState) (v : VnsIf)
    → ((port : ℕ) × (port_number v.name ≡ some port))
    → (rs' : RouterState) × (set_mac b rs v ≡ some rs') × Aside rs rs'
unfolding set_mac
set_mac_total false rs v known = (
  rs,
  refl,
  record { id_eq = refl; rtable_eq = refl; lock_eq = refl; routers_eq = refl; ifs_eq = refl },
)
set_mac_total true rs v (port, e) = (
  record rs { writes = write_mac port v.addr rs.writes },
  rw (set_mac, e) refl,
  record { id_eq = refl; rtable_eq = refl; lock_eq = refl; routers_eq = refl; ifs_eq = refl },
)

if-WellFormed :
    (b : Bool) (x y : RouterState) → WellFormed x → WellFormed y → WellFormed (if b then x else y)
if-WellFormed true x y hx hy = hx
if-WellFormed false x y hx hy = hy

module _ (strcmp : List ℕ → List ℕ → ℤ) (t : Tables) where
  pub add_filter-Aside :
      (rs : RouterState) (ip : ℕ) (name : List ℕ)
      → Aside rs (add_local_ip_filter strcmp t.filter_width t.filter_address rs ip name).0
  unfolding add_local_ip_filter trigger_local_ip_filters_change
  add_filter-Aside rs ip name =
      elim (Bool-cases
        (is_filtered rs.local_ip_filter_list ip || is_named strcmp rs.local_ip_filter_list name)) [
          | inl e ↦ rw e (record {
            id_eq = refl;
            rtable_eq = refl;
            lock_eq = refl;
            routers_eq = refl;
            ifs_eq = refl;
          })
          | inr e ↦ rw e (record {
            id_eq = refl;
            rtable_eq = refl;
            lock_eq = refl;
            routers_eq = refl;
            ifs_eq = refl;
          })
        ]

  add_interface_total :
      (rs : RouterState) (v : VnsIf)
      → IsUsable v
      → Fresh rs
      → (rs' : RouterState) × (init_add_interface strcmp t rs v ≡ some rs') × Fresh rs'
  unfolding init_add_interface with_iface
  add_interface_total rs v (inl cpus) fresh = (rs, rw (init_add_interface, cpus) refl, fresh)
  add_interface_total rs v (inr known) fresh =
      let listed = with_iface rs (new_iface v) in
      let (rs1, e, aside) = set_mac_total rs.is_netfpga listed v known in
      let joined : Fresh listed = record {
        no_routers = fresh.no_routers;
        no_routes = fresh.no_routes;
        no_lock = fresh.no_lock;
      } in
      elim (Bool-cases (strstr v.name cpu)) [
        | inl cpus ↦ (rs, rw (init_add_interface, cpus) refl, fresh)
        | inr ours ↦ (
          (add_local_ip_filter strcmp t.filter_width t.filter_address rs1 v.ip v.name).0,
          rw (init_add_interface, ours, e) refl,
          Aside-Fresh rs1 _ (add_filter-Aside rs1 v.ip v.name)
              (Aside-Fresh listed rs1 aside joined),
        )
      ]

  pub add_interfaces_total :
      (ifs : List VnsIf) (rs : RouterState)
      → All IsUsable ifs
      → Fresh rs
      → (rs' : RouterState) × (add_interfaces strcmp t ifs rs ≡ some rs') × Fresh rs'
  unfolding add_interfaces
  add_interfaces_total [] rs u fresh = (rs, refl, fresh)
  add_interfaces_total (v ∷ n) rs u fresh =
      let (rs1, e1, fresh1) = add_interface_total rs v u.0 fresh in
      let (rs', e, fresh') = add_interfaces_total n rs1 u.1 fresh1 in
      (rs', rw (add_interfaces, e1) e, fresh')
