-- ===== src/Iface/Toggle/Laws.antt =====
-- What bringing an interface down and up leaves: its routes, and what our router advertises.
use osnt_plus.Prelude.{
  ℕ, ◌≤◌, ◌<◌, ◌≡◌, ◌≢◌, refl, ap, ◌∙◌, Bool, true, false, some, List, [], ◌∷◌, arith, bit_and, has,
  tally, tally-append, All, Bool-cases, some_eq, some≢none, set, get_elem?, inl, inr,
}
use osnt_plus.Net.{strncmp_eq}
use osnt_plus.State.{IfaceEntry, PwospfInterface, PwospfRouter, RouterState}
use osnt_plus.Iface.{sr_namelen, get_iface}
use osnt_plus.RTable.{sort_rtable}
use osnt_plus.RTable.Ops.{activate_routes, activate_loop}
use osnt_plus.RTable.Ops.Laws.{AllPorts, IsOff, trigger_shape, AllPorts-activate}
use osnt_plus.Pwospf.Flood.{propagate_pwospf_changes}
use osnt_plus.Pwospf.Hello.{on_subnet}
use osnt_plus.Pwospf.Routers.{ids, links, interfaces, known, ids-set}
use osnt_plus.Pwospf.Keeps.{propagate_pwospf_changes-Kept}
use osnt_plus.Iface.Toggle.{
  set_iface_active, clear_nbrs, is_route_present, own_adv, with_adv, set_ours, advertise_up,
  iface_up,
}

abbrev pub subnet_of : IfaceEntry → ℕ
subnet_of iface = bit_and iface.ip iface.mask

get_iface-set_active :
    (l : List IfaceEntry) (interface : List ℕ) (b : Bool) {iface : IfaceEntry}
    → get_iface l interface ≡ some iface
    → get_iface (set_iface_active l interface b) interface ≡ some (record iface { is_active = b })
unfolding get_iface set_iface_active
get_iface-set_active [] interface b h = absurd (some≢none h)
get_iface-set_active (e ∷ n) interface b h =
    elim (Bool-cases (strncmp_eq interface e.name sr_namelen)) [
      | inl here ↦
          rw (get_iface, set_iface_active, here, here)
            (ap (λ (x : IfaceEntry). some (record x { is_active = b }))
              (some_eq (rw (get_iface, here) at h)))
      | inr later ↦
          rw (get_iface, set_iface_active, later, later)
            (get_iface-set_active n interface b (rw (get_iface, later) at h))
    ]

pub All-set_active {ℓ} :
    (P : IfaceEntry → Type ℓ) (l : List IfaceEntry) (interface : List ℕ) (b : Bool)
    → ((e : IfaceEntry) → P e → P (record e { is_active = b }))
    → All P l
    → All P (set_iface_active l interface b)
unfolding set_iface_active
All-set_active P [] interface b step h = tt
All-set_active P (e ∷ n) interface b step h =
    elim (Bool-cases (strncmp_eq interface e.name sr_namelen)) [
      | inl here ↦ simp (set_iface_active, here) (step e h.0, h.1)
      | inr later ↦ simp (set_iface_active, later) (h.0, All-set_active P n interface b step h.1)
    ]

tally-present :
    (iface : IfaceEntry) (l : List PwospfInterface)
    → is_route_present l (own_adv iface) ≡ true
    → 0 < tally (on_subnet iface) l
unfolding is_route_present
tally-present iface [] h = absurd (ground (arith, h))
tally-present iface (pi ∷ n) h = ground (arith, tally-present iface n)

tally-with_adv :
    (iface : IfaceEntry) (l : List PwospfInterface)
    → 0 < tally (on_subnet iface) (with_adv (own_adv iface) l)
unfolding with_adv
tally-with_adv iface l = elim (Bool-cases (is_route_present l (own_adv iface))) [
  | inl e ↦ rw e (tally-present iface l e)
  | inr e ↦ rw e (ground (arith, tally-append (on_subnet iface) l (own_adv iface ∷ [])))
]

tally-with_adv_le :
    (e iface : IfaceEntry) (l : List PwospfInterface)
    → tally (on_subnet e) l ≤ tally (on_subnet e) (with_adv (own_adv iface) l)
unfolding with_adv
tally-with_adv_le e iface l = elim (Bool-cases (is_route_present l (own_adv iface))) [
  | inl h ↦ rw h (omega arith)
  | inr h ↦ rw h (omega (arith, tally-append (on_subnet e) l (own_adv iface ∷ [])))
]

-- Our router's interfaces are replaced.
record Replaced (rs : RouterState) (ifs : List PwospfInterface) (rs' : RouterState) : Type 0 where
  id_eq : rs'.router_id ≡ rs.router_id
  ids_eq : ids rs'.pwospf_router_list ≡ ids rs.pwospf_router_list
  if_list_eq : rs'.if_list ≡ rs.if_list
  rtable_eq : rs'.rtable ≡ rs.rtable
  links_eq :
      (e : IfaceEntry) → links e rs.router_id rs'.pwospf_router_list ≡ tally (on_subnet e) ifs

module _ (now : ℕ) (rs : RouterState)
    (ours : has rs.router_id (ids rs.pwospf_router_list) ≡ true) where
  abbrev our_links : IfaceEntry → ℕ
  our_links e = links e rs.router_id rs.pwospf_router_list

  -- The flood after our router's interfaces were replaced.
  propagate-Replaced :
      (k : ℕ) (r : PwospfRouter) (ifs : List PwospfInterface)
      → get_elem? rs.pwospf_router_list k ≡ some r
      → interfaces rs.router_id (set rs.pwospf_router_list k (record r { interface_list = ifs }))
        ≡ ifs
      → (rs' : RouterState) × (propagate_pwospf_changes now (set_ours rs k r ifs) ≡ some rs')
        × Replaced rs ifs rs'
  unfolding set_ours
  propagate-Replaced k r ifs at changed =
      let same = ids-set rs.pwospf_router_list k r (record r { interface_list = ifs }) at refl in
      let (rs', runs, kept) =
        propagate_pwospf_changes-Kept now (set_ours rs k r ifs)
          (ap (has rs.router_id) same ∙ ours) in
      (
        rs',
        runs,
        record {
          id_eq = kept.id_eq;
          ids_eq = kept.routers.ids_eq ∙ same;
          if_list_eq = kept.if_list_eq;
          rtable_eq = kept.rtable_eq;
          links_eq = λ e. kept.routers.links_eq e rs.router_id ∙ ap (tally (on_subnet e)) changed;
        },
      )

  advertise_up_lem :
      (iface : IfaceEntry)
      → (rs' : RouterState) × (advertise_up now iface rs ≡ some (rs', 0))
        × (ifs : List PwospfInterface) × Replaced rs ifs rs'
        × (0 < tally (on_subnet iface) ifs)
        × ((e : IfaceEntry) → our_links e ≤ tally (on_subnet e) ifs)
  unfolding advertise_up
  advertise_up_lem iface =
      let (k, finds, f) = known rs.router_id rs.pwospf_router_list ours in
      let l = f.router.interface_list in
      let ifs = with_adv (own_adv iface) l in
      let (rs', runs, r) =
        propagate-Replaced k f.router ifs f.at
          (f.changed (record f.router { interface_list = ifs }) f.id) in
      (
        rs',
        rw (advertise_up, finds, f.at, runs) refl,
        ifs,
        r,
        tally-with_adv iface l,
        λ e. rw f.interfaces_eq (tally-with_adv_le e iface l),
      )

-- The state after the interface went down: it is marked so, no route over it is active, our router no
-- longer advertises its subnet, and advertises every other as before.
pub record IsDown (rs : RouterState) (interface : List ℕ) (iface : IfaceEntry) (rs' : RouterState)
    : Type 0 where
  pub if_list_eq : rs'.if_list ≡ set_iface_active rs.if_list interface false
  pub entry : get_iface rs'.if_list interface ≡ some (record iface { is_active = false })
  pub routes : All (IsOff interface) rs'.rtable
  pub ports : AllPorts rs'.rtable
  pub id_eq : rs'.router_id ≡ rs.router_id
  pub ids_eq : ids rs'.pwospf_router_list ≡ ids rs.pwospf_router_list
  pub silent : links iface rs.router_id rs'.pwospf_router_list ≡ 0
  pub others :
      (e : IfaceEntry)
      → subnet_of e ≢ subnet_of iface
      → links e rs.router_id rs'.pwospf_router_list ≡ links e rs.router_id rs.pwospf_router_list

-- The state after it came up: it is marked so, and our router advertises its subnet, and whatever it
-- advertised before.
pub record IsUp (rs : RouterState) (interface : List ℕ) (iface : IfaceEntry) (rs' : RouterState)
    : Type 0 where
  pub if_list_eq : rs'.if_list ≡ set_iface_active rs.if_list interface true
  pub entry : get_iface rs'.if_list interface ≡ some (record iface { is_active = true })
  pub id_eq : rs'.router_id ≡ rs.router_id
  pub ids_eq : ids rs'.pwospf_router_list ≡ ids rs.pwospf_router_list
  pub heard : 0 < links iface rs.router_id rs'.pwospf_router_list
  pub others :
      (e : IfaceEntry)
      → links e rs.router_id rs.pwospf_router_list ≤ links e rs.router_id rs'.pwospf_router_list

module _ (width address now : ℕ) (rs : RouterState) (interface : List ℕ) (iface : IfaceEntry)
    (port : get_iface rs.if_list interface ≡ some iface) (alone : iface.nbr_routers ≡ [])
    (ours : has rs.router_id (ids rs.pwospf_router_list) ≡ true)
    (known_ports : AllPorts rs.rtable) where
  pub iface_up_lem :
      iface.is_active ≡ false
      → (rs' : RouterState) × (iface_up width address now rs interface ≡ some (rs', 0))
        × IsUp rs interface iface rs'
  unfolding iface_up activate_routes clear_nbrs
  iface_up_lem down =
      let on = activate_loop interface rs.rtable in
      let (log, e) =
        trigger_shape width address
          (record rs { if_list = set_iface_active rs.if_list interface true; rtable = on })
          (λ _. AllPorts-activate interface rs.rtable known_ports) in
      let rs1 : RouterState = record rs {
        if_list = set_iface_active rs.if_list interface true;
        rtable = sort_rtable on;
        writes = log;
      } in
      let (rs', runs, ifs, r, heard, others) = advertise_up_lem now rs1 ours iface in
      (
        rs',
        simp (iface_up, port, down, activate_routes, e, alone, clear_nbrs) runs,
        record {
          if_list_eq = r.if_list_eq;
          entry =
              ap (λ (l : List IfaceEntry). get_iface l interface) r.if_list_eq
              ∙ get_iface-set_active rs.if_list interface true port;
          id_eq = r.id_eq;
          ids_eq = r.ids_eq;
          heard = rw r.links_eq heard;
          others = λ x. rw r.links_eq (others x);
        },
      )
