-- ===== src/Pwospf/WellFormed/Hello.antt =====
-- A hello packet keeps the state well formed.
use mathlib.Core.Path.{subst}
use osnt_plus.Prelude.{
  has, distinct, ℕ, ◌≤◌, ◌<◌, ◌≡◌, refl, ap, ◌∙◌, true, false, ltb, length, ==_iff, ◌&&◌, some,
  List, [], ◌∷◌, ◌++◌, arith, Bool-cases, ◌==◌, All, All-imp, inl, inr, set, get_elem?, tally,
  some_eq, some≢none,
}
use osnt_plus.Net.{strncmp_eq, ntohs}
use osnt_plus.State.{
  with_lock-free, PwospfInterface, PwospfRouter, IfaceEntry, NbrRouter, RouterState,
}
use osnt_plus.Packet.{Packet}
use osnt_plus.Iface.{get_iface, sr_namelen}
use osnt_plus.Dijkstra.{get_router_by_rid}
use osnt_plus.Pwospf.{pwospf_hdr, pwospf_rid, hello_hint, hello_mask}
use osnt_plus.Pwospf.Hello.{
  ip_src, on_subnet, touch_nbr, set_nbrs, add_link, new_nbr, add_neighbor,
  process_pwospf_hello_packet,
}
use osnt_plus.Pwospf.Flood.{propagate_pwospf_changes}
use osnt_plus.Pwospf.Routers.{links, Found, known, ids-set}
use osnt_plus.Pwospf.WellFormed.{WellFormed, Ready, propagate_if-Ready}

-- What holds of all our ports holds of the one that is found, and of all while the neighbours of one
-- change.
pub All-get_iface {ℓ} :
    (P : IfaceEntry → Type ℓ) (l : List IfaceEntry) (interface : List ℕ) (e : IfaceEntry)
    → All P l
    → get_iface l interface ≡ some e
    → P e
unfolding get_iface
All-get_iface P [] interface e h found = absurd (some≢none found)
All-get_iface P (x ∷ n) interface e h found =
    elim (Bool-cases (strncmp_eq interface x.name sr_namelen)) [
      | inl here ↦ subst P (some_eq (rw (get_iface, here) at found)) h.0
      | inr later ↦ All-get_iface P n interface e h.1 (rw (get_iface, later) at found)
    ]

All-set_nbrs {ℓ} :
    (P : IfaceEntry → Type ℓ) (l : List IfaceEntry) (interface : List ℕ) (nbrs : List NbrRouter)
    → ((e : IfaceEntry) → P e → P (record e { nbr_routers = nbrs }))
    → All P l
    → All P (set_nbrs l interface nbrs)
unfolding set_nbrs
All-set_nbrs P [] interface nbrs step h = tt
All-set_nbrs P (x ∷ n) interface nbrs step h =
    elim (Bool-cases (strncmp_eq interface x.name sr_namelen)) [
      | inl here ↦ simp (set_nbrs, here) (step x h.0, h.1)
      | inr later ↦ simp (set_nbrs, later) (h.0, All-set_nbrs P n interface nbrs step h.1)
    ]

tally-add_link :
    (port iface : IfaceEntry) (rid : ℕ) (l : List PwospfInterface)
    → tally (on_subnet port) l ≤ tally (on_subnet port) (add_link iface rid l)
unfolding add_link
tally-add_link port iface rid [] = omega arith
tally-add_link port iface rid (pi ∷ n) =
    elim (Bool-cases (on_subnet iface pi && pi.router_id == 0)) [
      | inl here ↦ simp (add_link, here) (omega arith)
      | inr later ↦ simp (add_link, later) (omega (arith, tally-add_link port iface rid n))
    ]

nonempty :
    (port : IfaceEntry) (l : List PwospfInterface)
    → 0 < tally (on_subnet port) l
    → (pi : PwospfInterface) × (n : List PwospfInterface) × (l ≡ pi ∷ n)
nonempty port [] h = absurd (omega arith)
nonempty port (pi ∷ n) h = (pi, n, refl)

-- The state with the neighbour.
abbrev joined : ℕ → RouterState → Packet → IfaceEntry → List ℕ → ℕ → PwospfRouter → RouterState
joined now rs p iface interface k r = record rs {
  if_list =
      set_nbrs rs.if_list interface
        (iface.nbr_routers ++ new_nbr now (ip_src p) (pwospf_rid p pwospf_hdr) ∷ []);
  pwospf_router_list =
      set rs.pwospf_router_list k
        (record r { interface_list = add_link iface (pwospf_rid p pwospf_hdr) r.interface_list });
}

add_neighbor_lem :
    (now : ℕ) (rs : RouterState) (p : Packet) (iface : IfaceEntry) (interface : List ℕ) (k : ℕ)
    (r : PwospfRouter)
    → get_router_by_rid rs.router_id rs.pwospf_router_list 0 ≡ some k
    → get_elem? rs.pwospf_router_list k ≡ some r
    → 0 < tally (on_subnet iface) r.interface_list
    → add_neighbor now rs p iface interface
      ≡ propagate_pwospf_changes now (joined now rs p iface interface k r)
unfolding add_neighbor
add_neighbor_lem now rs p iface interface k r finds at linked =
    let (pi, n, e) = nonempty iface r.interface_list linked in
    simp (add_neighbor, finds, at, e) refl

joined-WellFormed :
    (now : ℕ) (rs : RouterState) (p : Packet) (iface : IfaceEntry) (interface : List ℕ) (k : ℕ)
    (f : Found rs.router_id rs.pwospf_router_list k)
    → WellFormed rs
    → WellFormed (joined now rs p iface interface k f.router)
joined-WellFormed now rs p iface interface k f wf =
    let rid = pwospf_rid p pwospf_hdr in
    let r' : PwospfRouter = record f.router {
      interface_list = add_link iface rid f.router.interface_list;
    } in
    let kept = ids-set rs.pwospf_router_list k f.router r' f.at refl in
    record {
      ours = ap (has rs.router_id) kept ∙ wf.ours;
      once = ap distinct kept ∙ wf.once;
      linked =
          All-set_nbrs (λ port. 0 < links port rs.router_id (set rs.pwospf_router_list k r'))
            rs.if_list interface (iface.nbr_routers ++ new_nbr now (ip_src p) rid ∷ [])
            (λ port h. h)
            (All-imp (λ port. 0 < links port rs.router_id rs.pwospf_router_list)
              (λ port. 0 < links port rs.router_id (set rs.pwospf_router_list k r')) rs.if_list
              (λ port h. still port h) wf.linked);
    }
  where
    still :
        (port : IfaceEntry)
        → 0 < links port rs.router_id rs.pwospf_router_list
        → 0
          < links port rs.router_id (
              set rs.pwospf_router_list k (record f.router {
                interface_list = add_link iface (pwospf_rid p pwospf_hdr) f.router.interface_list;
              }))
    still port h =
        rw
          (f.changed
            (record f.router {
              interface_list = add_link iface (pwospf_rid p pwospf_hdr) f.router.interface_list;
            })
            f.id)
          (omega (
            arith,
            rw f.interfaces_eq at h,
            tally-add_link port iface (pwospf_rid p pwospf_hdr) f.router.interface_list,
          ))

pub process_pwospf_hello_packet-Ready :
    (now : ℕ) (rs : RouterState) (p : Packet) (interface : List ℕ) (iface : IfaceEntry)
    → get_iface rs.if_list interface ≡ some iface
    → 66 ≤ length p
    → iface.mask ≡ hello_mask p pwospf_hdr
    → Ready rs
    → (rs' : RouterState) × (process_pwospf_hello_packet now rs p interface ≡ some rs') × Ready rs'
unfolding process_pwospf_hello_packet
process_pwospf_hello_packet-Ready now rs p interface iface port long mask ready =
    let wf = ready.sound in
    let opened = with_lock-free {A = RouterState} rs.pwospf_router_list_lock ready.free in
    let whole : ltb (length p) 66 ≡ false = ground (arith, long) in
    let masks : (iface.mask == hello_mask p pwospf_hdr) ≡ true = (==_iff _ _).1 mask in
    elim (Bool-cases (rs.pwospf_hello_interval == ntohs (hello_hint p pwospf_hdr))) [
      | inr other ↦ (rs, simp (process_pwospf_hello_packet, whole, other) refl, ready)
      | inl agreed ↦
          let after = touch_nbr now (ip_src p) (pwospf_rid p pwospf_hdr) iface.nbr_routers in
          elim (Bool-cases after.1) [
            | inl known_nbr ↦ (
              record rs { if_list = set_nbrs rs.if_list interface after.0 },
              simp (process_pwospf_hello_packet, whole, agreed, opened, port, masks, known_nbr)
                  refl,
              record {
                sound = record {
                  ours = wf.ours;
                  once = wf.once;
                  linked =
                      All-set_nbrs (λ e. 0 < links e rs.router_id rs.pwospf_router_list) rs.if_list
                        interface after.0 (λ e h. h) wf.linked;
                };
                free = ready.free;
              },
            )
            | inr new ↦
                let (k, finds, f) = known rs.router_id rs.pwospf_router_list wf.ours in
                let linked =
                  All-get_iface (λ e. 0 < links e rs.router_id rs.pwospf_router_list) rs.if_list
                    interface iface wf.linked port in
                let (rs', runs, ready') =
                  propagate_if-Ready true now (joined now rs p iface interface k f.router) (record {
                    sound = joined-WellFormed now rs p iface interface k f wf;
                    free = ready.free;
                  }) in
                (
                  rs',
                  simp (process_pwospf_hello_packet, whole, agreed, opened, port, masks, new)
                      (add_neighbor_lem now rs p iface interface k f.router finds f.at
                          (rw f.interfaces_eq at linked)
                        ∙ runs),
                  ready',
                )
          ]
    ]
