-- ===== src/Pwospf/Keeps.antt =====
-- What the flood leaves of the router list: the ids, and the subnets of the interfaces.
use osnt_plus.Prelude.{
  has, ℕ, zero, suc, ◌+◌, ◌%◌, ◌≡◌, refl, ap, ◌∙◌, Bool, true, false, none, some, List, [], ◌∷◌,
  Bool-cases, Option-cases, if◌then◌else◌, get_elem?, set, tally, length, some_eq, inl, inr,
}
use osnt_plus.State.{PwospfInterface, PwospfRouter, IfaceEntry, RouterState}
use osnt_plus.Dijkstra.{get_router_by_rid}
use osnt_plus.Pwospf.Flood.{
  same_link, mark_links, has_link, set_active, visit, visit_interfaces, determine_active_interfaces,
  determine_all, lsu_packet, construct_pwospf_lsu_packet, start_lsu_bcast_flood,
  broadcast_pwospf_lsu_packet, propagate_pwospf_changes,
}
use osnt_plus.Pwospf.Hello.{on_subnet}
use osnt_plus.Pwospf.Routers.{ids, links, known, ids-set, links-set}

pub record Same (a b : List PwospfRouter) : Type 0 where
  pub ids_eq : ids b ≡ ids a
  pub links_eq : (iface : IfaceEntry) (rid : ℕ) → links iface rid b ≡ links iface rid a

pub Same-refl : (a : List PwospfRouter) → Same a a
Same-refl a = record { ids_eq = refl; links_eq = λ iface rid. refl }

pub Same-trans : (a b c : List PwospfRouter) → Same a b → Same b c → Same a c
Same-trans a b c f g = record {
  ids_eq = g.ids_eq ∙ f.ids_eq;
  links_eq = λ iface rid. g.links_eq iface rid ∙ f.links_eq iface rid;
}

pub Same-set :
    (n : List PwospfRouter) (k : ℕ) (r r' : PwospfRouter)
    → get_elem? n k ≡ some r
    → r'.router_id ≡ r.router_id
    → ((iface : IfaceEntry)
        → tally (on_subnet iface) r'.interface_list ≡ tally (on_subnet iface) r.interface_list)
    → Same n (set n k r')
Same-set n k r r' at id tallies = record {
  ids_eq = ids-set n k r r' at id;
  links_eq = λ iface rid. links-set iface rid n k r r' at id (tallies iface);
}

tally-mark_links :
    (iface : IfaceEntry) (this : PwospfInterface) (l : List PwospfInterface)
    → tally (on_subnet iface) (mark_links this l) ≡ tally (on_subnet iface) l
unfolding mark_links
tally-mark_links iface this [] = refl
tally-mark_links iface this (another ∷ n) = elim (Bool-cases (same_link this another)) [
  | inl linked ↦
      rw (mark_links, linked)
        (ap (λ (m : ℕ). (if on_subnet iface another then 1 else 0) + m)
          (tally-mark_links iface this n))
  | inr other ↦
      rw (mark_links, other)
        (ap (λ (m : ℕ). (if on_subnet iface another then 1 else 0) + m)
          (tally-mark_links iface this n))
]

-- A flag of one interface changes.
tally-set_flag :
    (iface : IfaceEntry) (l : List PwospfInterface) (j : ℕ) (e : PwospfInterface) (b : Bool)
    → get_elem? l j ≡ some e
    → tally (on_subnet iface) (set l j (record e { is_active = b })) ≡ tally (on_subnet iface) l
tally-set_flag iface [] j e b at = refl
tally-set_flag iface (x ∷ l) zero e b at = rw (some_eq at) refl
tally-set_flag iface (x ∷ l) (suc j) e b at =
    ap (λ (m : ℕ). (if on_subnet iface x then 1 else 0) + m) (tally-set_flag iface l j e b at)

set_active-Same : (k j : ℕ) (b : Bool) (n : List PwospfRouter) → Same n (set_active k j b n)
unfolding set_active
set_active-Same k j b n = elim (Option-cases (get_elem? n k)) [
  | inl e ↦ rw (set_active, e) (Same-refl n)
  | inr (r, at) ↦ elim (Option-cases (get_elem? r.interface_list j)) [
    | inl e ↦ rw (set_active, at, e) (Same-refl n)
    | inr (x, there) ↦
        rw (set_active, at, there)
          (Same-set n k r _ at refl (λ iface. tally-set_flag iface r.interface_list j x b there))
  ]
]

visit-Same : (k j : ℕ) (n : List PwospfRouter) → Same n (visit k j n)
unfolding visit
visit-Same k j n = elim (Option-cases (get_elem? n k)) [
  | inl e ↦ rw (visit, e) (Same-refl n)
  | inr (r, at) ↦ elim (Option-cases (get_elem? r.interface_list j)) [
    | inl e ↦ rw (visit, at, e) (Same-refl n)
    | inr (this, there) ↦ elim (Option-cases (get_router_by_rid this.router_id n 0)) [
      | inl e ↦ rw (visit, at, there, e) (set_active-Same k j false n)
      | inr (m, finds) ↦ elim (Option-cases (get_elem? n m)) [
        | inl e ↦ rw (visit, at, there, finds, e) (set_active-Same k j false n)
        | inr (another, held) ↦
            rw (visit, at, there, finds, held)
              (Same-trans n _ _
                (Same-set n m another
                  (record another { interface_list = mark_links this another.interface_list }) held
                  refl (λ iface. tally-mark_links iface this another.interface_list))
                (set_active-Same k j (has_link this another.interface_list) _))
      ]
    ]
  ]
]

visit_interfaces-Same :
    (k rounds j : ℕ) (n : List PwospfRouter) → Same n (visit_interfaces k rounds j n)
unfolding visit_interfaces
visit_interfaces-Same k zero j n = Same-refl n
visit_interfaces-Same k (suc rounds) j n =
    Same-trans n (visit k j n) _ (visit-Same k j n)
      (visit_interfaces-Same k rounds (j + 1) (visit k j n))

determine_active_interfaces-Same :
    (k : ℕ) (n : List PwospfRouter) → Same n (determine_active_interfaces k n)
unfolding determine_active_interfaces
determine_active_interfaces-Same k n = elim (Option-cases (get_elem? n k)) [
  | inl e ↦ rw (determine_active_interfaces, e) (Same-refl n)
  | inr (r, at) ↦
      rw (determine_active_interfaces, at) (visit_interfaces-Same k (length r.interface_list) 0 n)
]

determine_all-Same : (rounds k : ℕ) (n : List PwospfRouter) → Same n (determine_all rounds k n)
unfolding determine_all
determine_all-Same zero k n = Same-refl n
determine_all-Same (suc rounds) k n =
    Same-trans n (determine_active_interfaces k n) _ (determine_active_interfaces-Same k n)
      (determine_all-Same rounds (k + 1) (determine_active_interfaces k n))

-- What a flood leaves of the state.
pub record Kept (rs rs' : RouterState) : Type 0 where
  pub id_eq : rs'.router_id ≡ rs.router_id
  pub if_list_eq : rs'.if_list ≡ rs.if_list
  pub rtable_eq : rs'.rtable ≡ rs.rtable
  pub lock_eq : rs'.pwospf_router_list_lock ≡ rs.pwospf_router_list_lock
  pub routers : Same rs.pwospf_router_list rs'.pwospf_router_list

-- The state after the flood, with our router at `k`.
abbrev flooded : ℕ → RouterState → ℕ → PwospfRouter → RouterState
flooded now rs k r =
    broadcast_pwospf_lsu_packet
      (record rs {
        pwospf_router_list =
            set rs.pwospf_router_list k (record r { last_update = now; seq = (r.seq + 1) % 65536 });
      })
      (lsu_packet rs.router_id rs.area_id r.seq r.interface_list) none

flood_on :
    (now : ℕ) (rs : RouterState) (k : ℕ) (r : PwospfRouter)
    → rs.pwospf_lsu_broadcast ≡ true
    → get_router_by_rid rs.router_id rs.pwospf_router_list 0 ≡ some k
    → get_elem? rs.pwospf_router_list k ≡ some r
    → start_lsu_bcast_flood now rs ≡ some (flooded now rs k r)
unfolding start_lsu_bcast_flood construct_pwospf_lsu_packet
flood_on now rs k r on finds at =
    simp (start_lsu_bcast_flood, on, construct_pwospf_lsu_packet, finds, at) refl

-- Where our router is known, the flood succeeds.
pub start_lsu_bcast_flood-Kept :
    (now : ℕ) (rs : RouterState)
    → has rs.router_id (ids rs.pwospf_router_list) ≡ true
    → (rs' : RouterState) × (start_lsu_bcast_flood now rs ≡ some rs') × Kept rs rs'
unfolding start_lsu_bcast_flood construct_pwospf_lsu_packet broadcast_pwospf_lsu_packet
start_lsu_bcast_flood-Kept now rs ours = elim (Bool-cases rs.pwospf_lsu_broadcast) [
  | inr off ↦ (
    rs,
    rw off refl,
    record {
      id_eq = refl;
      if_list_eq = refl;
      rtable_eq = refl;
      lock_eq = refl;
      routers = Same-refl _;
    },
  )
  | inl on ↦
      let (k, finds, f) = known rs.router_id rs.pwospf_router_list ours in
      (
        flooded now rs k f.router,
        flood_on now rs k f.router on finds f.at,
        record {
          id_eq = refl;
          if_list_eq = refl;
          rtable_eq = refl;
          lock_eq = refl;
          routers = Same-set rs.pwospf_router_list k f.router _ f.at refl (λ iface. refl);
        },
      )
]

pub propagate_pwospf_changes-Kept :
    (now : ℕ) (rs : RouterState)
    → has rs.router_id (ids rs.pwospf_router_list) ≡ true
    → (rs' : RouterState) × (propagate_pwospf_changes now rs ≡ some rs') × Kept rs rs'
unfolding propagate_pwospf_changes
propagate_pwospf_changes-Kept now rs ours =
    let all = determine_all-Same (length rs.pwospf_router_list) 0 rs.pwospf_router_list in
    let (rs', runs, kept) =
      start_lsu_bcast_flood-Kept now _ (ap (has rs.router_id) all.ids_eq ∙ ours) in
    (
      rs',
      runs,
      record {
        id_eq = kept.id_eq;
        if_list_eq = kept.if_list_eq;
        rtable_eq = kept.rtable_eq;
        lock_eq = kept.lock_eq;
        routers = Same-trans rs.pwospf_router_list _ rs'.pwospf_router_list all kept.routers;
      },
    )
